-- ===== src/Ps/Escape.antt =====
-- ps.c, ps_put_escaped_string: the text with a PostScript reader.
use maketool.Common.{
  ℕ, zero, suc, ◌+◌, ◌-◌, ◌*◌, Bool, true, false, ◌||◌, ◌&&◌, Option, none, some, [], ◌∷◌, leb,
  ◌==◌, if◌then◌else◌, ◌>>=◌, Bytes,
}

is_octal : ℕ → Bool
is_octal d = leb 48 d && leb d 55

-- The body of a PostScript string "(...)": a backslash and three octal digits are one byte, and no
-- parenthesis or other escape is read. The first argument is the number of digits awaited, the
-- second the value of those read.
ps_from : ℕ → ℕ → Bytes → Option Bytes
ps_from zero acc [] = some []
ps_from (suc k) acc [] = none
ps_from zero acc (c ∷ s) = elim (c == b'\\') [
  | true ↦ ps_from 3 0 s
  | false ↦ if c == b'(' || c == b')' then none else (ps_from 0 0 s >>= λ r. some (c ∷ r))
]
ps_from (suc zero) acc (c ∷ s) =
    let rest = ps_from 0 0 s in
    if is_octal c then (rest >>= λ r. some ((acc * 8 + (c - 48)) ∷ r)) else none
ps_from (suc (suc k)) acc (c ∷ s) =
    let rest = ps_from (suc k) (acc * 8 + (c - 48)) s in if is_octal c then rest else none

pub ps_read : Bytes → Option Bytes
unfolding ps_from is_octal
ps_read = ps_from 0 0
