-- ===== src/Util/Expand/Templates.antt =====
-- util.c, `do_expands`: what a well-formed template expands to.
use maketool.Common.{◌≡◌, some, [], ◌∷◌, ◌++◌, Bytes, Option, none}
use maketool.Estring
use maketool.Estring.{Estring, text}
use maketool.Estring.Bounds.{IsValid}

-- What a string is that was null, and was appended to.
pub pointer : Bytes → Option Bytes
pointer [] = none
pointer (c ∷ s) = some (c ∷ s)

-- A valid string whose pointer is null just where it holds nothing.
abbrev Filled : Estring → Type 0
Filled e = IsValid e × (e.data_ ≡ pointer (text e))

abbrev Expanded : Estring → Bytes → Option Estring → Type 0
Expanded e s r = (e' : Estring) × (r ≡ some e') × (text e' ≡ text e ++ s) × Filled e'
