-- ===== src/Preferences.antt =====
-- preferences.c: the variables that are given to make. A write out of bounds is a fault, `none`.
pub mod Shell
pub mod Flags
use maketool.Common.{
  ℕ, Bool, true, false, Option, none, some, List, [], ◌∷◌, ◌++◌, ltb, has_byte, if◌then◌else◌,
  ◌>>=◌, Bytes,
}
use maketool.Estring.{Estring, init, append_string, append_char}
use maketool.Util.Escape.{strescape}

pub data VarType : Type 0 where
  var_make var_environ : VarType

pub record Variable : Type 0 where
  pub name : Bytes
  pub value : Bytes
  pub type_ : VarType

abbrev pub is_make : VarType → Bool
is_make t = elim t [ var_make ↦ true | var_environ ↦ false ]

-- preferences_add_variable
unfoldable pub preferences_add_variable : Bytes → Bytes → VarType → List Variable → List Variable
preferences_add_variable name value type_ vars =
    vars ++ record { name = name; value = value; type_ = type_ } ∷ []

-- the body of the loop of prefs_set_var_environment: the pointer that goes into the array
unfoldable pub environment_entry : Variable → Option (Option Bytes)
environment_entry var = append_string init (some var.name) >>= λ e.
    append_char e b'=' >>= λ e1. append_string e1 (some var.value) >>= λ e2. some e2.data_

-- prefs_set_var_environment, without the null pointer at the end of the array
unfoldable pub prefs_set_var_environment : List Variable → Option (List (Option Bytes))
unfolding environment_entry
prefs_set_var_environment [] = some []
prefs_set_var_environment (var ∷ vars) =
    let rest = prefs_set_var_environment vars in
    let whole = (environment_entry var >>= λ d. rest >>= λ ds. some (d ∷ ds)) in
    if is_make var.type_ then rest else whole

-- the value: escaped byte by byte if it has a single quote, and otherwise between single quotes
unfoldable pub append_value : Estring → Bytes → Option Estring
append_value out value =
    let escaped = (strescape value >>= λ escval. append_string out (some escval)) in
    let quoted =
      (append_char out b'\'' >>= λ e.
      append_string e (some value) >>= λ e1. append_char e1 b'\'') in
    if has_byte b'\'' value then escaped else quoted

-- the body of the loop of prefs_set_var_make_flags
unfoldable pub append_flag : Estring → Variable → Option Estring
unfolding append_value
append_flag out var = (if ltb 0 out.length_ then append_char out b' ' else some out) >>= λ e.
    append_string e (some var.name) >>= λ e1.
    append_char e1 b'=' >>= λ e2. append_value e2 var.value

unfoldable pub append_flags : List Variable → Estring → Option Estring
unfolding append_flag
append_flags [] out = some out
append_flags (var ∷ vars) out =
    let skipped = append_flags vars out in
    let rest = append_flags vars in
    let appended = (append_flag out var >>= λ e. rest e) in
    if is_make var.type_ then appended else skipped

-- prefs_set_var_make_flags: `var_make_flags`
unfoldable pub prefs_set_var_make_flags : List Variable → Option (Option Bytes)
unfolding append_flags
prefs_set_var_make_flags vars = append_flags vars init >>= λ out. some out.data_
