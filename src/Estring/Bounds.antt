-- ===== src/Estring/Bounds.antt =====
-- util.c, estring: the text and the size of its block.
use maketool.Common.{
  ℕ, ◌+◌, ◌≤◌, ◌<◌, ◌≡◌, refl, ◌∙◌, Option, none, some, [], ◌∷◌, ◌++◌, length, length-append, arith,
  Bytes,
}
use maketool.Estring.{
  Estring, init, text, text_of, expand_by, write, append_chars, append_printf, append_char,
}

abbrev pub Fits : Option Bytes → ℕ → ℕ → Type 0
Fits none len avail = (len ≡ 0) × (avail ≡ 0)
Fits (some s) len avail = (len ≡ length s) × (len < avail)

pub length-zero : (s : Bytes) → length s ≡ 0 → s ≡ []
length-zero [] h = refl
length-zero (c ∷ s) h = absurd (omega arith)

-- `length` counts the text, and the block has room for the terminator.
abbrev pub IsValid : Estring → Type 0
IsValid e = Fits e.data_ e.length_ e.available

pub init-IsValid : IsValid init
init-IsValid = (refl, refl)

pub length-text : (d : Option Bytes) (len avail : ℕ) → Fits d len avail → length (text_of d) ≡ len
length-text none len avail v = omega arith
length-text (some s) len avail v = omega arith

pub text-empty : (e : Estring) → IsValid e → e.length_ ≡ 0 → text e ≡ []
text-empty e v h = length-zero (text e) (length-text e.data_ e.length_ e.available v ∙ h)

pub Fits-room : (d : Option Bytes) (len avail : ℕ) → Fits d len avail → len ≤ avail
Fits-room none len avail v = omega arith
Fits-room (some s) len avail v = omega arith

-- The result of an append: the text grows by the bytes, and the string stays valid.
abbrev pub Appended : Estring → Bytes → Option Estring → Type 0
Appended e s r = (e' : Estring) × (r ≡ some e') × (text e' ≡ text e ++ s) × IsValid e'

-- After `_estring_expand_by` of enough bytes, with at most 1024 to be added, the write fits.
write-expand_by :
    (e : Estring) (n : ℕ) (s : Bytes)
    → IsValid e
    → length s ≤ n
    → e.length_ + n + 1 ≤ e.available + 1024
    → Appended e s (write (expand_by e n) s)
unfolding expand_by write
write-expand_by e n s v fits room =
    let grown = expand_by e n in
    (
      record grown { data_ = some (text e ++ s); length_ = e.length_ + length s },
      ground (arith, length-text e.data_ e.length_ e.available v),
      refl,
      ground (arith, length-text e.data_ e.length_ e.available v, length-append (text e) s),
    )

-- Bytes that need at most 1024 further bytes of room are appended to a valid string without a
-- fault: the text grows by them, and the string stays valid.
pub append_chars_lem :
    (e : Estring) (s : Bytes)
    → IsValid e
    → e.length_ + length s + 1 ≤ e.available + 1024
    → Appended e s (append_chars e s)
unfolding append_chars
append_chars_lem e s v room = write-expand_by e (length s) s v (omega arith) room

-- An append to a valid string that would have to grow the block by more than 1024 bytes writes past
-- its end.
pub append_chars_overflow :
    (e : Estring) (s : Bytes)
    → IsValid e
    → e.available + 1024 < e.length_ + length s + 1
    → append_chars e s ≡ none
unfolding append_chars
append_chars_overflow e s v h = ground arith

-- A valid string has room for one more byte at least after growing.
pub append_char_lem : (e : Estring) (c : ℕ) → IsValid e → Appended e (c ∷ []) (append_char e c)
unfolding append_char
append_char_lem e c v =
    write-expand_by e 1 (c ∷ []) v (omega arith)
      (omega (arith, Fits-room e.data_ e.length_ e.available v))

-- A print of at most the bound for which room is made, itself at most 1023, fits.
pub append_printf_lem :
    (e : Estring) (bound : ℕ) (s : Bytes)
    → IsValid e
    → length s ≤ bound
    → bound ≤ 1023
    → Appended e s (append_printf e bound s)
unfolding append_printf
append_printf_lem e bound s v fits short =
    write-expand_by e bound s v fits (omega (arith, Fits-room e.data_ e.length_ e.available v))
