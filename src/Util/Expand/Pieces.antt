-- ===== src/Util/Expand/Pieces.antt =====
-- util.c, `do_expands`: templates as lists of literal bytes, of variables "%c", and of parts
-- "%{c:+text}" that stand only where the variable is set; their text, and what they mean.
use maketool.Common.{
  ℕ, suc, ◌-◌, ◌≤◌, ◌<◌, ◌≡◌, ◌≢◌, refl, some, List, [], ◌∷◌, ◌++◌, length, take, drop,
  if◌then◌else◌, Bytes, arith, All, ap, length-append, take_append, drop_append_cons,
}
use maketool.Estring.{text_of}
use maketool.Util.Expand.{Expands, lookup, find_byte, char_at, wanted, sub_text, is_set}

pub data Simple : Type 0 where
  lit var : ℕ → Simple

pub data Piece : Type 0 where
  plain : Simple → Piece
  when_set : ℕ → List Simple → Piece

unfoldable pub print_simple : Simple → Bytes
print_simple (lit c) = c ∷ []
print_simple (var c) = b'%' ∷ c ∷ []

unfoldable pub print_simples : List Simple → Bytes
unfolding print_simple
print_simples [] = []
print_simples (p ∷ ps) = print_simple p ++ print_simples ps

unfoldable pub print_piece : Piece → Bytes
print_piece (plain p) = print_simple p
print_piece (when_set c body) = b'%' ∷ b'{' ∷ c ∷ b':' ∷ b'+' ∷ (print_simples body ++ b'}' ∷ [])

-- The text of a template.
unfoldable pub print : List Piece → Bytes
unfolding print_piece print_simples
print [] = []
print (p ∷ ps) = print_piece p ++ print ps

unfoldable pub mean_simple : Expands → Simple → Bytes
mean_simple expands (lit c) = c ∷ []
mean_simple expands (var c) = text_of (expands c)

unfoldable pub mean_simples : Expands → List Simple → Bytes
unfolding mean_simple
mean_simples expands [] = []
mean_simples expands (p ∷ ps) = mean_simple expands p ++ mean_simples expands ps

unfoldable pub mean_piece : Expands → Piece → Bytes
mean_piece expands (plain p) = mean_simple expands p
mean_piece expands (when_set c body) = if is_set (expands c) then mean_simples expands body else []

-- What a template stands for.
unfoldable pub meaning : Expands → List Piece → Bytes
unfolding mean_piece mean_simples
meaning expands [] = []
meaning expands (p ∷ ps) = mean_piece expands p ++ meaning expands ps

-- A literal is no '%'; a variable is an ASCII byte other than the bracket.
abbrev pub FineSimple : Simple → Type 0
FineSimple (lit c) = c ≢ b'%'
FineSimple (var c) = (c ≢ b'{') × (c < 128)

-- No closing bracket.
abbrev pub Unclosed : Simple → Type 0
Unclosed (lit c) = c ≢ b'}'
Unclosed (var c) = c ≢ b'}'

abbrev pub FinePiece : Piece → Type 0
FinePiece (plain p) = FineSimple p
FinePiece (when_set c body) = (c ≢ b'}') × (c < 128) × All FineSimple body × All Unclosed body

-- Every value fits in what one append may add.
abbrev pub ShortValues : Expands → Type 0
ShortValues expands = (c : ℕ) → length (text_of (expands c)) ≤ 1023

pub shorter_rest :
    (p : Simple) (rest : Bytes) (f : ℕ) → length (print_simple p ++ rest) < suc f → length rest < f
unfolding print_simple
shorter_rest (lit c) rest f h = omega arith
shorter_rest (var c) rest f h = omega arith

pub shorter_piece :
    (c : ℕ) (body : List Simple) (rest : Bytes) (f : ℕ)
    → length (print_piece (when_set c body) ++ rest) < suc f
    → (length (print_simples body) < f) × (length rest < f)
unfolding print_piece
shorter_piece c body rest f h = omega (
  arith,
  length-append (print_simples body ++ b'}' ∷ []) rest,
  length-append (print_simples body) (b'}' ∷ []),
)

-- The text of a conditional part, behind "%{".
abbrev pub braced : ℕ → List Simple → Bytes → Bytes
braced c body rest = c ∷ b':' ∷ b'+' ∷ (print_simples body ++ b'}' ∷ rest)

find_byte_skip :
    (s rest : Bytes) (c d : ℕ)
    → d ≢ c
    → (k : ℕ) → find_byte c s ≡ some k
    → find_byte c (d ∷ s) ≡ some (suc k)
unfolding find_byte
find_byte_skip s rest c d ne k h = ground arith

find_byte-simples :
    (ps : List Simple) (rest : Bytes)
    → All Unclosed ps
    → find_byte b'}' (print_simples ps ++ b'}' ∷ rest) ≡ some (length (print_simples ps))
unfolding find_byte print_simples
find_byte-simples [] rest h = refl
find_byte-simples (lit c ∷ ps) rest h = ground (arith, find_byte-simples ps rest h.1)
find_byte-simples (var c ∷ ps) rest h = ground (arith, find_byte-simples ps rest h.1)

minus_three : (n : ℕ) → suc (suc (suc n)) - 3 ≡ n
minus_three n = omega arith

module _ (c : ℕ) (body : List Simple) (rest : Bytes) where
  pub find_byte-braced :
      c ≢ b'}'
      → All Unclosed body
      → find_byte b'}' (braced c body rest) ≡ some (suc (suc (suc (length (print_simples body)))))
  unfolding find_byte
  find_byte-braced ne closed = ground (arith, find_byte-simples body rest closed)

  pub wanted-braced :
      (expands : Expands)
      → c < 128
      → wanted expands (braced c body rest) ≡ some (is_set (expands c))
  unfolding wanted lookup char_at
  wanted-braced expands h = ground arith

  pub sub_text-braced :
      sub_text (suc (suc (suc (length (print_simples body))))) (braced c body rest)
      ≡ some (print_simples body)
  unfolding sub_text
  sub_text-braced = ground (
    arith,
    take_append (print_simples body) (b'}' ∷ rest),
    ap (λ (n : ℕ). take n (print_simples body ++ b'}' ∷ rest))
        (minus_three (length (print_simples body))),
  )

  pub drop-braced :
      drop (suc (suc (suc (suc (length (print_simples body)))))) (braced c body rest) ≡ rest
  drop-braced = drop_append_cons (print_simples body) b'}' rest
