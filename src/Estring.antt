-- ===== src/Estring.antt =====
-- The growable string of util.c and util.h (`estring`), with the size of its heap block. A write
-- past the end of the block is a fault, `none`.
pub mod Bounds
pub mod Text
use maketool.Common.{
  ℕ, zero, suc, ◌+◌, ◌-◌, Bool, true, false, ◌||◌, ◌&&◌, Option, none, some, List, [], ◌∷◌, ◌++◌,
  length, take, drop, get_or, ltb, leb, ◌==◌, if◌then◌else◌, ◌>>=◌, Bytes,
}
use Prim.Native.Nat.{min}

-- `data` is NULL or the bytes in front of the terminating NUL.
pub record Estring : Type 0 where
  pub data_ : Option Bytes
  pub length_ : ℕ
  pub available : ℕ

-- estring_init, ESTRING_STATIC_INIT
abbrev pub init : Estring
init = record { data_ = none; length_ = 0; available = 0 }

-- The bytes that the string holds.
abbrev pub text_of : Option Bytes → Bytes
text_of none = []
text_of (some s) = s

abbrev pub text : Estring → Bytes
text e = text_of e.data_

-- _estring_expand_by: the block grows by what is missing, at most 1024 bytes at a time.
unfoldable pub expand_by : Estring → ℕ → Estring
expand_by e dl =
    if ltb e.available (e.length_ + dl + 1)
    then record e {
      data_ = some (text e);
      available = e.available + min 1024 (e.length_ + dl + 1 - e.available);
    }
    else e

-- The bytes and the terminator behind them are written from `length` on.
unfoldable pub write : Estring → Bytes → Option Estring
write e buf =
    if leb (e.length_ + length buf + 1) e.available
    then some (record e { data_ = some (text e ++ buf); length_ = e.length_ + length buf })
    else none

unfoldable pub append_chars : Estring → Bytes → Option Estring
unfolding expand_by write
append_chars e buf = write (expand_by e (length buf)) buf

unfoldable pub append_char : Estring → ℕ → Option Estring
unfolding expand_by write
append_char e c = write (expand_by e 1) (c ∷ [])

-- The null pointer is `none`.
unfoldable pub append_string : Estring → Option Bytes → Option Estring
append_string e none = some e
append_string e (some []) = some e
append_string e (some (c ∷ s)) = append_chars e (c ∷ s)

-- estring_append_printf, given what `vsprintf` prints and the upper bound that glib computes.
unfoldable pub append_printf : Estring → ℕ → Bytes → Option Estring
unfolding expand_by write
append_printf e bound s = write (expand_by e bound) s

truncated : Option Bytes → Option Bytes
truncated none = none
truncated (some s) = some []

unfoldable pub truncate : Estring → Estring
unfolding truncated
truncate e = record e { data_ = truncated e.data_; length_ = 0 }

-- `isspace` in the C locale
unfoldable pub is_space : ℕ → Bool
is_space c = c == 32 || (leb 9 c && leb c 13)

-- the loop of estring_chug: how many bytes to skip
pub leading_spaces : Bytes → ℕ
unfolding is_space
leading_spaces [] = 0
leading_spaces (c ∷ s) = if is_space c then suc (leading_spaces s) else 0

-- `memmove` only where something is skipped
chug_data : Estring → Option Bytes → Estring
chug_data e none = e
chug_data e (some s) =
    let skip = leading_spaces s in
    if skip == 0 then e else record e { data_ = some (drop skip s); length_ = e.length_ - skip }

unfoldable pub chug : Estring → Estring
unfolding chug_data
chug e = chug_data e e.data_

-- the loop of estring_chomp, down from `len`
pub chomped_length : Bytes → ℕ → ℕ
unfolding is_space
chomped_length s zero = 0
chomped_length s (suc n) =
    let rest = chomped_length s n in if is_space (get_or s n 0) then rest else suc n

chomp_data : Estring → Option Bytes → Estring
chomp_data e none = e
chomp_data e (some s) =
    let len = chomped_length s e.length_ in
    if len == e.length_ then e else record e { data_ = some (take len s); length_ = len }

unfoldable pub chomp : Estring → Estring
unfolding chomp_data
chomp e = chomp_data e e.data_

free_data : Estring → Option Bytes → Estring
free_data e none = e
free_data e (some s) = init

unfoldable pub free : Estring → Estring
unfolding free_data
free e = free_data e e.data_

-- A loop of estring_append_char.
unfoldable pub append_each : Estring → Bytes → Option Estring
append_each e [] = some e
append_each e (c ∷ s) = append_char e c >>= λ e'. append_each e' s
