-- ===== src/Common.antt =====
-- Names that every module shares: the libraries' names passed on, tests on numbers, lists and
-- byte strings over the native numbers. No code of the program is modelled here.
mod Tests
mod Lists
mod Strings
mod Int
pub use Tests.*
pub use Lists.*
pub use Strings.*
pub use Int.*
unfoldable pub use Strings.{str_eq, has_byte, strip_prefix, starts_with, strstr}
pub use Prim.Native.Nat.{ℕ, zero, suc, ◌+◌, ◌-◌, ◌*◌, ◌/◌, ◌%◌, ◌≤◌, ◌<◌, ◌^◌}
pub use Prim.Native.String.{String}
pub use mathlib.Core.Path.{◌≡◌, refl, sym, ap, ◌∙◌}
pub use mathlib.Core.Logic.{◌≢◌, ◌↔◌, ◌⊎◌, inl, inr}
pub use mathlib.Core.Bool.{Bool, true, false, not, ◌&&◌, ◌||◌}
pub use mathlib.Core.Option.{Option, none, some}
pub use mathlib.Core.List.{List, [], ◌∷◌, ◌++◌, map, append_assoc, append-nil}
pub use native.Mathlib.Omega.{arith}
