-- ===== src/Filter/Builds.antt =====
-- filter.c: the texts that a filter that matches builds.
use maketool.Common.{
  ℕ, zero, suc, ◌-◌, ◌≤◌, ◌≡◌, refl, Bool, true, false, ◌&&◌, Option, none, some, List, [], ◌∷◌,
  leb, ◌==◌, Bytes, arith, all, inl, inr, Bool-cases, length, take, drop, length-drop,
}
use maketool.Estring.{Estring, text, truncate}
use maketool.Estring.Bounds.{IsValid, append_char_lem, append_chars_lem, Fits-room}
use maketool.Estring.Text.{truncate_lem}
use maketool.Filter.Types.{FilterResult, Filter}
use maketool.Filter.Apply.{
  Matches, Engine, match_at, append_match, reference, replace_char, is_some, replace_loop,
  filter_replace_matches, apply_summary, apply_code, apply_match, matched_engine, matched_result,
  new_summary,
}
use maketool.Filter.Checks.{in_bounds, no_nine, no_nine?}

length-take_le : (n : ℕ) (s : Bytes) → length (take n s) ≤ length s
length-take_le zero s = omega arith
length-take_le (suc n) [] = omega arith
length-take_le (suc n) (c ∷ s) = omega (arith, length-take_le n s)

in_bounds_parts :
    (f : Filter)
    → in_bounds f ≡ true
    → (no_nine f.file_str ≡ true)
      × (no_nine f.line_str ≡ true)
      × (no_nine f.col_str ≡ true)
      × (no_nine? f.summary_str ≡ true)
unfolding in_bounds
in_bounds_parts f h = ground arith

pub all-parts :
    (p : Filter → Bool) (f : Filter) (fs : List Filter)
    → all p (f ∷ fs) ≡ true
    → (p f ≡ true) × (all p fs ≡ true)
all-parts p f fs h = ground arith

le_leb : (a b : ℕ) → a ≤ b → leb a b ≡ true
le_leb a b h = ground arith

-- A text that can be built without a fault, in a valid string.
abbrev Builds : Option Estring → Type 0
Builds r = (e : Estring) × (r ≡ some e) × IsValid e

-- What a match leaves.
pub record Matched (f : Filter) (res : FilterResult) (e' : Engine) (res' : FilterResult)
    : Type 0 where
  pub state_is : e'.state ≡ f.outstate
  pub code_is : res'.code ≡ apply_code f.code res.code
  pub buf_valid : IsValid e'.buf

module _ (line : Bytes) (short : length line ≤ 1023) (matches : Matches)
    (within : (n so eo : ℕ) → matches n ≡ some (so, eo) → (so ≤ eo) × (eo ≤ length line)) where
  append_match-Builds :
      (out : Estring) (m : Option (ℕ × ℕ))
      → ((so eo : ℕ) → m ≡ some (so, eo) → (so ≤ eo) × (eo ≤ length line))
      → IsValid out
      → Builds (append_match out line m)
  unfolding append_match
  append_match-Builds out none fits v = (out, refl, v)
  append_match-Builds out (some (so, eo)) fits v =
      let (ordered, ends) = fits so eo refl in
      let s = take (eo - so) (drop so line) in
      let (e, p, t, v') = append_chars_lem out s v (
        omega (
          arith,
          length-take_le (eo - so) (drop so line),
          length-drop so line,
          Fits-room out.data_ out.length_ out.available v,
        )) in
      (e, rw (le_leb so eo ordered) (rw (le_leb eo (length line) ends) p), v')

  replace_char-Builds :
      (out : Estring) (c : ℕ) (s : Bytes)
      → no_nine (c ∷ s) ≡ true
      → IsValid out
      → Builds (replace_char line matches out c (reference c s))
  unfolding replace_char reference no_nine match_at
  replace_char-Builds out c [] h v = let (e, p, t, v') = append_char_lem out c v in (e, p, v')
  replace_char-Builds out c (d ∷ s) h v =
      elim (Bool-cases (c == b'\\' && leb b'1' d && leb d b'9')) [
        | inl y ↦
            let (e, p, v') = append_match-Builds out (matches (d - b'0')) (within (d - b'0')) v in
            (e, rw y (ground (arith, p)), v')
        | inr n ↦ let (e, p, t, v') = append_char_lem out c v in (e, rw n p, v')
      ]

  no_nine-tail : (c : ℕ) (s : Bytes) → no_nine (c ∷ s) ≡ true → no_nine s ≡ true
  unfolding no_nine
  no_nine-tail c [] h = refl
  no_nine-tail c (d ∷ s) h = ground arith

  replace_loop-Builds :
      (template : Bytes) (skip : Bool) (out : Estring)
      → no_nine template ≡ true
      → IsValid out
      → Builds (replace_loop line matches skip template out)
  unfolding replace_loop
  replace_loop-Builds [] skip out h v = (out, refl, v)
  replace_loop-Builds (c ∷ s) true out h v = replace_loop-Builds s false out (no_nine-tail c s h) v
  replace_loop-Builds (c ∷ s) false out h v =
      let (e1, p1, v1) = replace_char-Builds out c s h v in
      let (e2, p2, v2) =
        replace_loop-Builds s (is_some (reference c s)) e1 (no_nine-tail c s h) v1 in
      (e2, rw p1 p2, v2)

  replace-Builds :
      (template : Bytes) (out : Estring)
      → no_nine template ≡ true
      → IsValid out
      → Builds (filter_replace_matches template out line matches)
  unfolding filter_replace_matches
  replace-Builds template out h v =
      replace_loop-Builds template false (truncate out) h (truncate_lem out v).1

  apply_summary-Builds :
      (f : Filter) (buf : Estring) (old : Option Bytes) (template : Option Bytes)
      → no_nine? template ≡ true
      → IsValid buf
      → (sum : Option Bytes) × (buf' : Estring) × (apply_summary f line matches buf old template
          ≡ some (sum, buf'))
        × IsValid buf'
  unfolding apply_summary no_nine?
  apply_summary-Builds f buf old none h v = (old, buf, refl, v)
  apply_summary-Builds f buf old (some []) h v = (some [], buf, refl, v)
  apply_summary-Builds f buf old (some (c ∷ s)) h v =
      let (e, p, v') = replace-Builds (c ∷ s) buf h v in
      (new_summary f.code old (text e), e, rw p refl, v')

  pub apply_match-Matched :
      (f : Filter) (e : Engine) (res : FilterResult)
      → in_bounds f ≡ true
      → IsValid e.buf
      → (e' : Engine) × (res' : FilterResult) × (apply_match f line matches e res ≡ some (e', res'))
        × Matched f res e' res'
  unfolding apply_match matched_engine matched_result
  apply_match-Matched f e res h v =
      let (ok_file, ok_line, ok_col, ok_summary) = in_bounds_parts f h in
      let (b1, p1, v1) = replace-Builds f.line_str e.buf ok_line v in
      let (b2, p2, v2) = replace-Builds f.col_str b1 ok_col v1 in
      let (sum, b3, p3, v3) = apply_summary-Builds f b2 res.summary f.summary_str ok_summary v2 in
      let (b4, p4, v4) = replace-Builds f.file_str b3 ok_file v3 in
      (
        matched_engine f e b4,
        matched_result f res (text b1) (text b2) sum (text b4),
        rw p1 (rw p2 (rw p3 (rw p4 refl))),
        record { state_is = refl; code_is = refl; buf_valid = v4 },
      )
