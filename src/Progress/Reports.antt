-- ===== src/Progress/Reports.antt =====
-- progress.c: the percentages that are reported.
use maketool.Common.{
  lt→ltb, ℕ, ◌+◌, ◌*◌, ◌/◌, ◌≤◌, ◌<◌, ◌≡◌, refl, false, inl, inr, Bool-cases, Option, none, some,
  List, [], ◌∷◌, ◌++◌, arith, ltb, if◌then◌else◌,
}
use maketool.Progress.{
  Progress, report, same_pc, progress_start, progress_update, progress_delta, deltas,
}
use native.Mathlib.Nat.{
  mod-eq_of_lt, le-div_iff_mul-le, div-mul-le_self, div-le_of_le-mul, le_trans, mul_comm,
  div-eq_of_lt,
}

-- The percentage as the code means it.
pub percentage : ℕ → ℕ → ℕ
percentage length pos = if ltb 10000000 length then 100 * (pos / length) else (100 * pos) / length

abbrev pub Above : Option ℕ → ℕ → Type 0
Above none pc = Unit
Above (some last) pc = last < pc

abbrev AtMost : Option ℕ → ℕ → Type 0
AtMost none pc = Unit
AtMost (some last) pc = last ≤ pc

-- Reports grow strictly, from above the last one, and none exceeds 100.
abbrev pub Growing : Option ℕ → List ℕ → Type 0
Growing last [] = Unit
Growing last (pc ∷ pcs) = Above last pc × (pc ≤ 100) × Growing (some pc) pcs

-- The last report is the percentage of the position.
abbrev pub UpToDate : Progress → Type 0
UpToDate p = AtMost p.p_lastpc (percentage p.p_length p.p_where)

div_mono : (l a b : ℕ) → 0 < l → a ≤ b → a / l ≤ b / l
div_mono l a b h k = (le-div_iff_mul-le h).1 (le_trans (div-mul-le_self a l) k)

percentage_mono : (l a b : ℕ) → 0 < l → a ≤ b → percentage l a ≤ percentage l b
unfolding percentage
percentage_mono l a b h k =
    ground (arith, div_mono l a b h k, div_mono l (100 * a) (100 * b) h (omega arith))

percentage_le : (l a : ℕ) → 0 < l → a ≤ l → percentage l a ≤ 100
unfolding percentage
percentage_le l a h k = ground (
  arith,
  div-le_of_le-mul l {m = a} {n = 1} (omega arith),
  div-le_of_le-mul l {m = 100 * a} {n = 100} (rw (mul_comm l 100) (omega arith)),
)

-- With a word of more than 10^9 values the percentage is computed without wrap-around.
small_product :
    (word l pos : ℕ) → 1000000000 < word → ltb 10000000 l ≡ false → pos ≤ l → 100 * pos < word
small_product word l pos w n k = ground arith

progress_update_lem :
    (word : ℕ) (p : Progress) (pos : ℕ)
    → 1000000000 < word
    → 0 < p.p_length
    → pos ≤ p.p_length
    → progress_update word p pos ≡ report (record p { p_where = pos }) (percentage p.p_length pos)
unfolding progress_update percentage
progress_update_lem word p pos w h k = elim (Bool-cases (ltb 10000000 p.p_length)) [
  | inl y ↦ rw (y, progress_update) refl
  | inr n ↦ rw n (
      rw (lt→ltb 0 p.p_length h) (rw (mod-eq_of_lt (small_product word p.p_length pos w n k)) refl))
]

-- What one report does to the invariant and to the reports behind it.
record Reported (p : Progress) (pc : ℕ) (out : Progress × List ℕ) : Type 0 where
  where_kept : out.0.p_where ≡ p.p_where
  length_kept : out.0.p_length ≡ p.p_length
  last_le : AtMost out.0.p_lastpc pc
  grows : (rs : List ℕ) → Growing out.0.p_lastpc rs → Growing p.p_lastpc (out.1 ++ rs)

same_pc-cases : (o : Option ℕ) (pc : ℕ) → AtMost o pc → same_pc o pc ≡ false → Above o pc
unfolding same_pc
same_pc-cases none pc h e = tt
same_pc-cases (some last) pc h e = ground arith

report-Reported :
    (p : Progress) (pc : ℕ) → pc ≤ 100 → AtMost p.p_lastpc pc → Reported p pc (report p pc)
unfolding report
report-Reported p pc le h = elim (Bool-cases (same_pc p.p_lastpc pc)) [
  | inl y ↦ rw y (record { where_kept = refl; length_kept = refl; last_le = h; grows = λ rs g. g })
  | inr n ↦ rw n (record {
    where_kept = refl;
    length_kept = refl;
    last_le = omega arith;
    grows = λ rs g. (same_pc-cases p.p_lastpc pc h n, le, g);
  })
]

AtMost-trans : (o : Option ℕ) (a b : ℕ) → AtMost o a → a ≤ b → AtMost o b
AtMost-trans none a b h k = tt
AtMost-trans (some c) a b h k = omega arith

abbrev pub sum : List ℕ → ℕ
sum [] = 0
sum (d ∷ ds) = d + sum ds

-- What one progress_delta within the length does.
record Advanced (p : Progress) (d : ℕ) (out : Progress × List ℕ) : Type 0 where
  moved : out.0.p_where ≡ p.p_where + d
  length_same : out.0.p_length ≡ p.p_length
  current : UpToDate out.0
  growing : (rs : List ℕ) → Growing out.0.p_lastpc rs → Growing p.p_lastpc (out.1 ++ rs)

module _ (word : ℕ) (wide : 1000000000 < word) where
  progress_delta-Advanced :
      (p : Progress) (d : ℕ)
      → 0 < p.p_length
      → p.p_length < word
      → UpToDate p
      → p.p_where + d ≤ p.p_length
      → Advanced p d (progress_delta word p d)
  unfolding progress_delta
  progress_delta-Advanced p d l w up fits =
      let pos = p.p_where + d in
      let pc = percentage p.p_length pos in
      let r =
        report-Reported (record p { p_where = pos }) pc (percentage_le p.p_length pos l fits)
          (AtMost-trans p.p_lastpc (percentage p.p_length p.p_where) pc up
            (percentage_mono p.p_length p.p_where pos l (omega arith))) in
      rw (mod-eq_of_lt {n = pos} {m = word} (omega arith)) (
        rw (progress_update_lem word p pos wide l fits) (record {
          moved = r.where_kept;
          length_same = r.length_kept;
          current = rw (r.where_kept, r.length_kept) r.last_le;
          growing = r.grows;
        }))

  deltas-Growing :
      (p : Progress) (ds : List ℕ)
      → 0 < p.p_length
      → p.p_length < word
      → UpToDate p
      → p.p_where + sum ds ≤ p.p_length
      → Growing p.p_lastpc (deltas word p ds).1
  unfolding deltas
  deltas-Growing p [] l w up fits = tt
  deltas-Growing p (d ∷ ds) l w up fits =
      let a = progress_delta-Advanced p d l w up (omega arith) in
      let q = (progress_delta word p d).0 in
      a.growing (deltas word q ds).1 (
        deltas-Growing q ds (rw a.length_same l) (rw a.length_same w) a.current
          (rw (a.length_same, a.moved) (omega arith)))

-- From progress_start on, with words of at least 30 bits that hold the length, progress_delta
-- calls that stay within the length report percentages that grow strictly and never pass 100.
pub progress_start-Growing :
    (word length : ℕ) (ds : List ℕ)
    → 1000000000 < word
    → 0 < length
    → length < word
    → sum ds ≤ length
    → Growing none (deltas word (progress_start length).0 ds).1
unfolding progress_start
progress_start-Growing word length ds wide l w fits =
    deltas-Growing word wide (record { p_where = 0; p_length = length; p_lastpc = none }) ds l w tt
      (omega arith)

-- Where the length exceeds ten million, the percentage of every position before the end is
-- computed as 0: the integer division comes first.
progress_update_large :
    (word : ℕ) (p : Progress) (pos : ℕ)
    → 10000000 < p.p_length
    → pos < p.p_length
    → progress_update word p pos ≡ report (record p { p_where = pos }) 0
unfolding progress_update
progress_update_large word p pos h k = rw (lt→ltb 10000000 p.p_length h) (rw (div-eq_of_lt k) refl)
