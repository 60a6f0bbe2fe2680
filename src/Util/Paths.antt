-- ===== src/Util/Paths.antt =====
-- util.c: `file_current`, `file_change_current`, `file_normalise`, `file_denormalise_1` and
-- `file_denormalise`. The file system is a parameter: `chdir`, as a function of the working
-- directory and its argument, and the value of `file_home`.
pub mod Cache
pub mod Denormalise
use maketool.Common.{
  ◌≡◌, sym, ◌∙◌, ◌≢◌, refl, ap, Bool, true, false, Option, none, some, [], ◌∷◌, ◌++◌, arith, Bytes,
  codes, All, strip_prefix, strip_prefix-append, strip_prefix_sound, ◌==◌, if◌then◌else◌, ◌⊎◌, inl,
  inr, Bool-cases, Option-cases,
}

-- The cached working directory (`currdir`) and that of the process.
pub record Current : Type 0 where
  pub cached : Option Bytes
  pub process : Bytes

-- file_current: the directory, and the state with the cache filled
pub file_current : Current → Bytes × Current
file_current c = elim c.cached [
  | none ↦ (c.process, record c { cached = some c.process })
  | some d ↦ (d, c)
]

-- file_change_current: `none` is the result -1. The cache is cleared only if `chdir` succeeds.
pub file_change_current : (Bytes → Bytes → Option Bytes) → Bytes → Current → Option Current
file_change_current chdir dir c = elim (chdir c.process dir) [
  | none ↦ none
  | some d ↦ some (record { cached = none; process = d })
]

unfoldable pub is_absolute : Bytes → Bool
is_absolute [] = false
is_absolute (c ∷ s) = c == b'/'

-- file_normalise, given what `file_current` returns
unfoldable pub file_normalise : Bytes → Bytes → Bytes
unfolding is_absolute
file_normalise current path = if is_absolute path then path else current ++ (b'/' ∷ path)

-- `while (*path == '/') path++`
unfoldable pub skip_slashes : Bytes → Bytes
skip_slashes [] = []
skip_slashes (c ∷ s) = if c == b'/' then skip_slashes s else c ∷ s

-- `path[preflen] == '\0' || path[preflen] == '/'`
unfoldable pub at_component_end : Bytes → Bool
at_component_end [] = true
at_component_end (c ∷ s) = c == b'/'

unfoldable pub replaced : Bytes → Bytes → Bytes → Bytes
replaced replace0 replace1 [] = replace0
replaced replace0 replace1 (c ∷ s) = replace1 ++ c ∷ s

unfoldable pub denormalised : Bytes → Bytes → Option Bytes → Option Bytes
denormalised replace0 replace1 none = none
denormalised replace0 replace1 (some rest) =
    if at_component_end rest then some (replaced replace0 replace1 (skip_slashes rest)) else none

unfoldable pub file_denormalise_1 : Bytes → Bytes → Bytes → Bytes → Option Bytes
unfolding denormalised at_component_end replaced skip_slashes
file_denormalise_1 path pref replace0 replace1 =
    denormalised replace0 replace1 (strip_prefix pref path)

pub or_else : Option Bytes → Bytes → Bytes
or_else none d = d
or_else (some s) d = s

-- file_denormalise: the flags are DEN_PWD and DEN_HOME
pub file_denormalise : Bool → Bool → Bytes → Bytes → Bytes → Bytes
unfolding or_else
file_denormalise den_pwd den_home current home path =
    or_else (if den_pwd then file_denormalise_1 path current (codes ".") [] else none) (
      or_else (if den_home then file_denormalise_1 path home (codes "~") (codes "~/") else none)
        path)
