-- ===== src/Tests/PreferencesTests.antt =====
-- Runs of preferences.c: two variables for make and one for the environment.
use maketool.Common.{◌≡◌, refl, some, List, [], ◌∷◌, All, Bytes, codes, has_byte}
use maketool.Estring.{append_string, append_chars, append_char, expand_by, write}
use maketool.Util.Escape.{needs_escape, is_meta_char, escaped, without_newlines, strescape_lem}
use maketool.Preferences.{
  Variable, VarType, var_make, var_environ, append_value, append_flag, append_flags,
  prefs_set_var_make_flags,
}
use maketool.Util.Escape.{is_special}
use maketool.Preferences.Shell.{bare, shell_words}
use maketool.Preferences.Flags.{IsReadable, words, prefs_set_var_make_flags-words}

abbrev variable : Bytes → Bytes → VarType → Variable
variable name value type_ = record { name = name; value = value; type_ = type_ }

abbrev three_variables : List Variable
three_variables =
    variable (codes "A") (codes "x y") var_make
    ∷ variable (codes "E") (codes "z") var_environ
    ∷ variable (codes "B") (codes "'") var_make
    ∷ []

abbrev the_flags : Bytes
the_flags = codes "A='x y' B=\\'"

the_flags-built : prefs_set_var_make_flags three_variables ≡ some (some the_flags)
unfolding prefs_set_var_make_flags append_flags append_flag append_value append_string append_chars
    append_char expand_by write has_byte
the_flags-built =
    rw (strescape_lem (codes "'")) (unfold escaped needs_escape is_meta_char has_byte in refl)

all-IsReadable : All IsReadable three_variables
unfolding has_byte is_special
all-IsReadable = (
  ((refl, tt), λ h. absurd (cc)),
  (((refl, tt), λ h. absurd (cc)), (((refl, tt), λ h. ((refl, refl), tt)), tt)),
)

prefs_set_var_make_flags-words_example :
    shell_words bare [] the_flags ≡ some (words three_variables)
prefs_set_var_make_flags-words_example =
    prefs_set_var_make_flags-words three_variables (some the_flags) (codes "A=x y")
      (codes "B='" ∷ []) all-IsReadable the_flags-built
      (unfold words has_byte without_newlines in refl)
