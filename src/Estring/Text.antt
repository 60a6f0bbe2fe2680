-- ===== src/Estring/Text.antt =====
-- util.c, estring: what the operations do to the text.
use maketool.Common.{
  ℕ, zero, suc, ◌-◌, ◌+◌, ◌≤◌, ◌<◌, ◌≡◌, refl, sym, ◌∙◌, true, false, Option, none, some, [], ◌∷◌,
  ◌++◌, ap, length, get_or, drop, take, length-drop, length-take, take-all, ◌⊎◌, inl, inr,
  Bool-cases, append_assoc, append-nil, arith, Bytes,
}
use maketool.Estring.{
  append_char, append_chars, expand_by, write, Estring, text, text_of, append_string, truncate,
  chug, chomp, chug_data, chomp_data, leading_spaces, chomped_length, is_space, append_each,
}
use maketool.Estring.Bounds.{
  IsValid, Fits, Fits-room, length-text, Appended, append_char_lem, append_chars_lem,
}

-- Byte by byte, any text can be appended to a valid string: the text grows by it, and the string
-- stays valid.
pub append_each_lem : (e : Estring) (s : Bytes) → IsValid e → Appended e s (append_each e s)
unfolding append_each
append_each_lem e [] v = (e, refl, sym (append-nil (text e)), v)
append_each_lem e (c ∷ s) v =
    let (e1, eq1, t1, v1) = append_char_lem e c v in
    let (e2, eq2, t2, v2) = append_each_lem e1 s v1 in
    (e2, cc (eq1, eq2), t2 ∙ cc (t1, append_assoc (text e) (c ∷ []) s), v2)

-- A null or empty string is appended by doing nothing, any other like append_chars.
pub append_string_lem :
    (e : Estring) (s : Option Bytes)
    → IsValid e
    → e.length_ + length (text_of s) + 1 ≤ e.available + 1024
    → Appended e (text_of s) (append_string e s)
unfolding append_string
append_string_lem e none v room = (e, refl, sym (append-nil (text e)), v)
append_string_lem e (some []) v room = (e, refl, sym (append-nil (text e)), v)
append_string_lem e (some (c ∷ s)) v room = append_chars_lem e (c ∷ s) v room

-- At most 1023 bytes can be appended at once to any valid string.
pub append_string_short :
    (e : Estring) (s : Option Bytes)
    → IsValid e
    → length (text_of s) ≤ 1023
    → Appended e (text_of s) (append_string e s)
append_string_short e s v short =
    append_string_lem e s v (omega (arith, Fits-room e.data_ e.length_ e.available v))

pub truncate_lem : (e : Estring) → IsValid e → (text (truncate e) ≡ []) × IsValid (truncate e)
unfolding truncate
truncate_lem e v = ground arith

-- a number below n + 1 is n or below n
last-cases : (n i : ℕ) → i < suc n → (i ≡ n) ⊎ (i < n)
last-cases n i h = ground arith

leading_spaces-le : (s : Bytes) → leading_spaces s ≤ length s
unfolding leading_spaces
leading_spaces-le [] = omega arith
leading_spaces-le (c ∷ s) = ground (arith, leading_spaces-le s)

leading_spaces_blank : (s : Bytes) (i : ℕ) → i < leading_spaces s → is_space (get_or s i 0) ≡ true
unfolding leading_spaces
leading_spaces_blank [] i h = elim h [ ]
leading_spaces_blank (c ∷ s) zero h = ground arith
leading_spaces_blank (c ∷ s) (suc i) h = ground (arith, leading_spaces_blank s i)

leading_spaces_stop :
    (s : Bytes) → leading_spaces s < length s → is_space (get_or s (leading_spaces s) 0) ≡ false
unfolding leading_spaces
leading_spaces_stop [] h = elim h [ ]
leading_spaces_stop (c ∷ s) h = ground (arith, leading_spaces_stop s)

-- `k` bytes at the front of `s` are blank, and no more.
abbrev pub LeadingBlanks : Bytes → ℕ → Type 0
LeadingBlanks s k =
    (k ≤ length s)
    × ((i : ℕ) → i < k → is_space (get_or s i 0) ≡ true)
    × (k < length s → is_space (get_or s k 0) ≡ false)

-- From `k` to `n` the bytes of `s` are blank, and not the one in front of them.
abbrev pub TrailingBlanks : Bytes → ℕ → ℕ → Type 0
TrailingBlanks s k n =
    (k ≤ n)
    × ((i : ℕ) → k ≤ i → i < n → is_space (get_or s i 0) ≡ true)
    × (0 < k → is_space (get_or s (k - 1) 0) ≡ false)

chug_data_lem :
    (d : Option Bytes) (len avail : ℕ)
    → Fits d len avail
    → (k : ℕ) × LeadingBlanks (text_of d) k
      × (text (chug_data (record { data_ = d; length_ = len; available = avail }) d)
          ≡ drop k (text_of d))
      × IsValid (chug_data (record { data_ = d; length_ = len; available = avail }) d)
unfolding chug
chug_data_lem none len avail v = (0, (omega arith, λ i h. elim h [ ], λ h. elim h [ ]), refl, v)
chug_data_lem (some s) len avail v =
    let k = leading_spaces s in
    (
      k,
      (leading_spaces-le s, leading_spaces_blank s, leading_spaces_stop s),
      ground arith,
      ground (arith, length-drop k s, leading_spaces-le s),
    )

-- estring_chug on a valid string drops just the leading blanks, and the string stays valid.
chug_lem :
    (e : Estring)
    → IsValid e
    → (k : ℕ) × LeadingBlanks (text e) k × (text (chug e) ≡ drop k (text e)) × IsValid (chug e)
unfolding chug
chug_lem e v = chug_data_lem e.data_ e.length_ e.available v

chomped_length_lem : (s : Bytes) (n : ℕ) → TrailingBlanks s (chomped_length s n) n
unfolding chomped_length
chomped_length_lem s zero = (omega arith, λ i _ h. elim h [ ], λ h. elim h [ ])
chomped_length_lem s (suc n) =
    let (le, blank, stop) = chomped_length_lem s n in
    elim (Bool-cases (is_space (get_or s n 0))) [
      | inl b ↦ (
        ground arith,
        λ i h k. elim (last-cases n i k) [ inl e ↦ rw e b | inr l ↦ blank i (ground arith) l ],
        ground arith,
      )
      | inr b ↦ (ground arith, λ i h k. absurd (ground arith), ground arith)
    ]

chomp_data_lem :
    (d : Option Bytes) (len avail : ℕ)
    → Fits d len avail
    → (k : ℕ) × TrailingBlanks (text_of d) k len
      × (text (chomp_data (record { data_ = d; length_ = len; available = avail }) d)
          ≡ take k (text_of d))
      × IsValid (chomp_data (record { data_ = d; length_ = len; available = avail }) d)
unfolding chomp
chomp_data_lem none len avail v =
    (0, (omega arith, λ i _ h. absurd (omega arith), λ h. elim h [ ]), refl, v)
chomp_data_lem (some s) len avail v =
    let k = chomped_length s len in
    let spec = chomped_length_lem s len in
    (k, spec, ground (arith, take-all s), ground (arith, length-take k s (omega (arith, spec.0))))

-- estring_chomp on a valid string drops just the trailing blanks, and the string stays valid.
chomp_lem :
    (e : Estring)
    → IsValid e
    → (k : ℕ) × TrailingBlanks (text e) k (length (text e))
      × (text (chomp e) ≡ take k (text e))
      × IsValid (chomp e)
unfolding chomp
chomp_lem e v =
    rw (length-text e.data_ e.length_ e.available v)
      (chomp_data_lem e.data_ e.length_ e.available v)

-- An append that is no fault makes the string longer by what is appended, whatever its block.
pub append_char-text :
    (e e' : Estring) (c : ℕ)
    → append_char e c ≡ some e'
    → (text e' ≡ text e ++ c ∷ []) × (e'.length_ ≡ e.length_ + 1)
unfolding append_char expand_by write
append_char-text e e' c h = (ground (arith, h), ground (arith, h))

pub append_string-text :
    (e e' : Estring) (s : Bytes)
    → append_string e (some s) ≡ some e'
    → (text e' ≡ text e ++ s) × (e'.length_ ≡ e.length_ + length s)
unfolding append_string append_chars expand_by write
append_string-text e e' [] h =
    let same : e ≡ e' = cc h in
    (sym (ap text same) ∙ sym (append-nil (text e)), omega (arith, ap (λ x. x.length_) same))
append_string-text e e' (c ∷ s) h = (ground (arith, h), ground (arith, h))
