-- ===== src/Util/Expand.antt =====
-- `do_expands` and `expand_string` of util.c. A fault, `none`, is a read or write out of bounds.
pub mod Pieces
pub mod Templates
use maketool.Common.{
  ℕ, zero, suc, ◌+◌, ◌-◌, Bool, true, false, Option, none, some, [], ◌∷◌, length, take, drop,
  get_elem?, ltb, ◌==◌, if◌then◌else◌, ◌>>=◌, Bytes,
}
use maketool.Estring
use maketool.Estring.{Estring, append_char, append_string}

-- `expands[256]`; the null pointer is `none`.
abbrev pub Expands : Type 0
Expands = ℕ → Option Bytes

-- `expands[(int)c]` where `char` is signed: from 128 on the index is negative.
pub lookup : Expands → ℕ → Option (Option Bytes)
lookup expands c = if ltb c 128 then some (expands c) else none

-- `strchr`, as an offset
pub find_byte : ℕ → Bytes → Option ℕ
find_byte c [] = none
find_byte c (x ∷ s) = if x == c then some 0 else (find_byte c s >>= λ k. some (suc k))

-- `s[i]`, with the terminator behind the last byte
pub char_at : Bytes → ℕ → Option ℕ
char_at s i = if i == length s then some 0 else get_elem? s i

abbrev pub is_set : Option Bytes → Bool
is_set none = false
is_set (some s) = true

-- `doit`: the switch on `in[4]`, given the text behind "%{"
pub wanted : Expands → Bytes → Option Bool
wanted expands s = char_at s 2 >>= λ op.
    if op == b'+'
    then (char_at s 0 >>= λ c. lookup expands c >>= λ x. some (is_set x))
    else some false

-- the bytes of `sub`: `len - 6` of them, which must not be negative
pub sub_text : ℕ → Bytes → Option Bytes
sub_text k s = if ltb k 3 then none else some (take (k - 3) (drop 3 s))

-- "%{" and the text behind it; `self` is the recursive call.
pub expand_brace :
    (Bytes → Estring → Option Estring) → Expands → Bytes → Estring → Option ℕ → Option Estring
expand_brace self expands s out none = some out
expand_brace self expands s out (some k) = wanted expands s >>= λ doit.
    (if doit then (sub_text k s >>= λ sub. self sub out) else some out) >>= λ out'.
    self (drop (suc k) s) out'

-- what follows a '%'
pub expand_percent : (Bytes → Estring → Option Estring) → Expands → Bytes → Estring → Option Estring
expand_percent self expands [] out = none
expand_percent self expands (c ∷ s) out =
    if c == b'{'
    then expand_brace self expands s out (find_byte b'}' s)
    else (lookup expands c >>= λ x. append_string out x >>= λ out'. self s out')

pub do_expands : ℕ → Expands → Bytes → Estring → Option Estring
do_expands zero expands s out = none
do_expands (suc fuel) expands [] out = some out
do_expands (suc fuel) expands (c ∷ s) out = elim (c == b'%') [
  | true ↦ expand_percent (do_expands fuel expands) expands s out
  | false ↦ append_char out c >>= λ out'. do_expands fuel expands s out'
]

-- Every call is on a shorter text, so this fuel is enough.
pub expand_string : Bytes → Expands → Option (Option Bytes)
expand_string s expands =
    do_expands (suc (length s)) expands s Estring.init >>= λ out. some out.data_
