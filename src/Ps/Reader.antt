-- ===== src/Ps/Reader.antt =====
-- ps.c: a reader of the pages that are printed, and the arithmetic of lines and pages.
use maketool.Common.{
  ℕ, suc, ◌∙◌, ◌+◌, ◌-◌, ◌*◌, ◌/◌, ◌≡◌, ◌<◌, refl, sym, Bool, true, false, Option, none, some, List,
  [], ◌∷◌, ◌++◌, ◌==◌, if◌then◌else◌, ◌>>=◌, arith, inl, inr, Option-cases,
}
use native.Mathlib.Nat.{div-eq_of_lt-le}
use maketool.Ps.{Output, begin_page, end_page, fill_box, show_line, trailer}

-- A reader of the output: whether it stands in a page, and the number of the last page. Pages are
-- numbered from 1 without a gap, nothing is drawn between them, and the trailer ends no page.
abbrev pub page_step : Bool → ℕ → Output → Option (Bool × ℕ)
page_step true n end_page = some (false, n)
page_step true n (fill_box style y) = some (true, n)
page_step true n (show_line style x y text) = some (true, n)
page_step false n (begin_page k) = if k == n + 1 then some (true, k) else none
page_step false n trailer = some (false, n)
page_step _ n _ = none

unfoldable pub pages : Bool → ℕ → List Output → Option (Bool × ℕ)
pages inside n [] = some (inside, n)
pages inside n (o ∷ os) = page_step inside n o >>= λ (i, k). pages i k os

pub pages-append :
    (inside : Bool) (n : ℕ) (os ps : List Output) (i : Bool) (k : ℕ)
    → pages inside n os ≡ some (i, k)
    → pages inside n (os ++ ps) ≡ pages i k ps
unfolding pages
pages-append inside n [] ps i k h = ground arith
pages-append inside n (o ∷ os) ps i k h = elim (Option-cases (page_step inside n o)) [
  | inl e ↦ absurd (cc (rw e at h))
  | inr ((j, m), e) ↦ rw e (pages-append j m os ps i k (rw e at h))
]

pub pages-close :
    (b : Bool) (n : ℕ) (os : List Output)
    → pages false 0 os ≡ some (b, n)
    → pages false 0 (if b then os ++ end_page ∷ [] else os) ≡ some (false, n)
pages-close true n os h = pages-append false 0 os (end_page ∷ []) true n h ∙ unfold pages in refl
pages-close false n os h = h

pub new_page : (n : ℕ) → pages false n (begin_page (n + 1) ∷ []) ≡ some (true, n + 1)
unfolding pages
new_page n = ground arith

pub one_more : (k n : ℕ) → k + suc n ≡ k + 1 + n
one_more k n = omega arith

next_multiple : (n m : ℕ) → (n + 1) * m ≡ n * m + m
next_multiple n m = omega arith

-- the count of lines when one more is put on a page of `lpp` lines
pub count_step :
    (k line lpp n : ℕ)
    → line < lpp
    → k + (if line == 0 then 0 else lpp - line) ≡ n * lpp
    → k
        + 1
        + (if (if line + 1 == lpp then 0 else line + 1) == 0
            then 0
            else lpp - (if line + 1 == lpp then 0 else line + 1))
      ≡ (if line == 0 then n + 1 else n) * lpp
count_step k line lpp n h c = ground (arith, next_multiple n lpp)

pub start_count :
    (line n lpp : ℕ) → line ≡ 0 → n ≡ 0 → 0 + (if line == 0 then 0 else lpp - line) ≡ n * lpp
start_count line n lpp h k = rw (h, k) (omega arith)

-- the number of pages for `n` lines
pub page_total :
    (n line lpp pg : ℕ)
    → line < lpp
    → 0 + n + (if line == 0 then 0 else lpp - line) ≡ pg * lpp
    → pg ≡ (n + lpp - 1) / lpp
page_total n line lpp pg h c = sym (
    div-eq_of_lt-le lpp {m = n + lpp - 1} (ground (arith, next_multiple pg lpp))
      (rw (next_multiple pg lpp) (ground arith)))

pub last_page : (n : ℕ) → pages false n (trailer ∷ []) ≡ some (false, n)
unfolding pages
last_page n = refl
