-- ===== src/Log/Errors.antt =====
-- log.c, log_find_error_aux: from one error of the log to the next and back. A record is known by
-- its place in the log.
use maketool.Common.{
  ℕ, zero, suc, ◌+◌, ◌-◌, ◌≤◌, ◌<◌, ◌≡◌, refl, sym, ap, ◌∙◌, Bool, true, false, Option, none, some,
  List, [], ◌∷◌, arith, ◌⊎◌, Option-cases, Bytes, if◌then◌else◌, length, drop, get_elem?, inl, inr,
  Bool-cases, Nat-cases,
}
use maketool.Filter.Types.{Kind, plain, warning, error}
use maketool.Log.Records.{LogRec, switch_kind}

abbrev is_named : LogRec → Bool
is_named lr = elim lr.res.file [ none ↦ false | some f ↦ true ]

-- the condition on which the search stops
unfoldable pub stops : LogRec → Bool
stops lr = elim (switch_kind lr.res.code) [
  | error ↦ is_named lr
  | warning ↦ is_named lr
  | _ ↦ false
]

-- the loop along `list->next`, from the record at place `i`
unfoldable pub find_forward : ℕ → List LogRec → Option ℕ
find_forward i [] = none
find_forward i (r ∷ rs) = let rest = find_forward (i + 1) rs in if stops r then some i else rest

abbrev pub stops_at : List LogRec → ℕ → Bool
stops_at log i = elim (get_elem? log i) [ none ↦ false | some lr ↦ stops lr ]

-- the loop along `list->prev`, from the record in front of place `n`
unfoldable pub find_backward : List LogRec → ℕ → Option ℕ
find_backward log zero = none
find_backward log (suc n) =
    let rest = find_backward log n in if stops_at log n then some n else rest

-- log_next_error
unfoldable pub log_next_error : List LogRec → Option ℕ → Option ℕ
unfolding find_forward stops
log_next_error log none = find_forward 0 log
log_next_error log (some i) = find_forward (i + 1) (drop (i + 1) log)

-- log_prev_error
unfoldable pub log_prev_error : List LogRec → Option ℕ → Option ℕ
unfolding find_backward
log_prev_error log none = find_backward log (length log)
log_prev_error log (some i) = find_backward log i

-- `j` is the first place from `i` on at which the search stops.
record FirstFrom (log : List LogRec) (i j : ℕ) : Type 0 where
  pub not_before : i ≤ j
  pub is_error : stops_at log j ≡ true
  pub none_between : (k : ℕ) → i ≤ k → k < j → stops_at log k ≡ false

suc_add : (i k : ℕ) → suc (i + k) ≡ suc i + k
suc_add i k = omega arith

stops_at-drop : (i k : ℕ) (log : List LogRec) → stops_at (drop i log) k ≡ stops_at log (i + k)
stops_at-drop zero k log = ap (stops_at log) (omega arith)
stops_at-drop (suc i) k [] = refl
stops_at-drop (suc i) k (r ∷ rs) = stops_at-drop i k rs ∙ ap (stops_at (r ∷ rs)) (suc_add i k)

sub_back : (i k : ℕ) → i ≤ k → k ≡ i + (k - i)
sub_back i k h = omega arith

some-injective : (a b : ℕ) → some a ≡ some b → a ≡ b
some-injective a b h = cc

between_later :
    (r : LogRec) (rs : List LogRec) (d : ℕ)
    → stops r ≡ false
    → FirstFrom rs 0 d
    → (k : ℕ) → k < suc d
    → stops_at (r ∷ rs) k ≡ false
between_later r rs d n f zero lt = n
between_later r rs d n f (suc k) lt = f.none_between k (omega arith) (omega arith)

find_forward-FirstFrom :
    (i : ℕ) (rs : List LogRec) (j : ℕ)
    → find_forward i rs ≡ some j
    → (d : ℕ) × (j ≡ i + d) × FirstFrom rs 0 d
unfolding find_forward
find_forward-FirstFrom i [] j h = absurd (cc)
find_forward-FirstFrom i (r ∷ rs) j h = elim (Bool-cases (stops r)) [
  | inl y ↦ (
    0,
    omega (arith, some-injective i j (rw y at h)),
    record { not_before = omega arith; is_error = y; none_between = λ k a b. absurd (omega arith) },
  )
  | inr n ↦
      let (d, e, f) = find_forward-FirstFrom (i + 1) rs j (rw n at h) in
      (
        suc d,
        omega (arith, e),
        record {
          not_before = omega arith;
          is_error = f.is_error;
          none_between = λ k a b. between_later r rs d n f k b;
        },
      )
]

from_drop : (log : List LogRec) (i d : ℕ) → FirstFrom (drop i log) 0 d → FirstFrom log i (i + d)
from_drop log i d f = record {
  not_before = omega arith;
  is_error = sym (stops_at-drop i d log) ∙ f.is_error;
  none_between = λ k a b.
      ap (stops_at log) (sub_back i k a)
      ∙ sym (stops_at-drop i (k - i) log)
      ∙ f.none_between (k - i) (omega arith) (omega arith);
}

next-FirstFrom :
    (log : List LogRec) (i j : ℕ) → log_next_error log (some i) ≡ some j → FirstFrom log (i + 1) j
unfolding log_next_error
next-FirstFrom log i j h =
    let (d, e, f) = find_forward-FirstFrom (i + 1) (drop (i + 1) log) j h in
    rw e (from_drop log (i + 1) d f)

find_backward_from :
    (log : List LogRec) (n i : ℕ)
    → stops_at log i ≡ true
    → i < n
    → ((k : ℕ) → i < k → k < n → stops_at log k ≡ false)
    → find_backward log n ≡ some i
unfolding find_backward
find_backward_from log zero i h lt f = elim lt [ ]
find_backward_from log (suc n) i h lt f = elim (Nat-cases i n) [
  | inl e ↦ rw (sym e) (rw h refl)
  | inr ne ↦
      rw (f n (omega arith) (omega arith))
        (find_backward_from log n i h (omega arith) (λ k a b. f k a (omega arith)))
]

-- From an error or a warning about a file to the next one and back: log_prev_error undoes
-- log_next_error.
pub log_prev_error-log_next_error :
    (log : List LogRec) (i j : ℕ)
    → stops_at log i ≡ true
    → log_next_error log (some i) ≡ some j
    → log_prev_error log (some j) ≡ some i
unfolding log_prev_error
log_prev_error-log_next_error log i j h e =
    let f = next-FirstFrom log i j e in
    find_backward_from log j i h (omega (arith, f.not_before))
      (λ k a b. f.none_between k (omega arith) b)

-- The record at a place is an error or a warning, and about a file.
abbrev pub IsAboutFile : List LogRec → ℕ → Type 0
IsAboutFile log i =
    (lr : LogRec) × (file : Bytes) × (get_elem? log i ≡ some lr)
    × (lr.res.file ≡ some file)
    × ((lr.res.code ≡ plain error) ⊎ (lr.res.code ≡ plain warning))

-- The condition of the search, on the parts of a result.
abbrev stops_on : Kind → Bool → Option Bytes → Bool
stops_on k b file = elim (switch_kind (record { kind = k; pending = b })) [
  | error ↦ elim file [ none ↦ false | some f ↦ true ]
  | warning ↦ elim file [ none ↦ false | some f ↦ true ]
  | _ ↦ false
]

stops_on-file :
    (k : Kind) (b : Bool) (f : Option Bytes)
    → stops_on k b f ≡ true
    → (file : Bytes) × (f ≡ some file)
      × ((record { kind = k; pending = b } ≡ plain error)
          ⊎ (record { kind = k; pending = b } ≡ plain warning))
stops_on-file error false (some g) h = (g, refl, inl refl)
stops_on-file warning false (some g) h = (g, refl, inr refl)
stops_on-file _ true f h = absurd (cc)
stops_on-file error false none h = absurd (cc)
stops_on-file warning false none h = absurd (cc)
stops_on-file _ false f h = absurd (cc)

file-stops_on :
    (lr : LogRec) (file : Bytes)
    → lr.res.file ≡ some file
    → (lr.res.code ≡ plain error) ⊎ (lr.res.code ≡ plain warning)
    → stops lr ≡ true
unfolding stops
file-stops_on lr file f (inl e) = rw e (rw f refl)
file-stops_on lr file f (inr e) = rw e (rw f refl)

stops_at-file : (log : List LogRec) (i : ℕ) → stops_at log i ≡ true → IsAboutFile log i
stops_at-file log i h = elim (Option-cases (get_elem? log i)) [
  | inl n ↦
      let no : stops_at log i ≡ false = ap (λ o. elim o [ none ↦ false | some r ↦ stops r ]) n in
      absurd (cc (no, h))
  | inr (lr, p) ↦
      let here : stops lr ≡ true =
        sym (ap (λ o. elim o [ none ↦ false | some r ↦ stops r ]) p) ∙ h in
      let (file, f, c) =
        stops_on-file lr.res.code.kind lr.res.code.pending lr.res.file (unfold stops in here) in
      (lr, file, p, f, c)
]

file-stops_at : (log : List LogRec) (i : ℕ) → IsAboutFile log i → stops_at log i ≡ true
file-stops_at log i (lr, file, p, f, c) =
    ap (λ o. elim o [ none ↦ false | some r ↦ stops r ]) p ∙ file-stops_on lr file f c

later_none :
    (r : LogRec) (rs : List LogRec)
    → stops r ≡ false
    → ((k : ℕ) → stops_at rs k ≡ false)
    → (k : ℕ) → stops_at (r ∷ rs) k ≡ false
later_none r rs n f zero = n
later_none r rs n f (suc k) = f k

find_forward-none :
    (i : ℕ) (rs : List LogRec) → find_forward i rs ≡ none → (k : ℕ) → stops_at rs k ≡ false
unfolding find_forward
find_forward-none i [] h k = refl
find_forward-none i (r ∷ rs) h k = elim (Bool-cases (stops r)) [
  | inl y ↦ absurd (cc (rw y at h))
  | inr n ↦ later_none r rs n (find_forward-none (i + 1) rs (rw n at h)) k
]

no_stop :
    (log : List LogRec) (i : ℕ)
    → log_next_error log (some i) ≡ none
    → (k : ℕ) → i < k
    → stops_at log k ≡ false
unfolding log_next_error
no_stop log i h k lt =
    ap (stops_at log) (sub_back (i + 1) k (omega arith))
    ∙ sym (stops_at-drop (i + 1) (k - (i + 1)) log)
    ∙ find_forward-none (i + 1) (drop (i + 1) log) h (k - (i + 1))

-- `j` is the first place from `i` on with an error or a warning about a file.
pub record FirstError (log : List LogRec) (i j : ℕ) : Type 0 where
  pub at_least : i ≤ j
  pub found : IsAboutFile log j
  pub no_other : (k : ℕ) → i ≤ k → k < j → ¬ IsAboutFile log k

-- Where log_next_error finds a record behind another one, it is the first behind it whose code is
-- FR_ERROR or FR_WARNING and that names a file; where it finds none, there is no such record.
pub log_next_error-FirstError :
    (log : List LogRec) (i : ℕ)
    → ((j : ℕ) → log_next_error log (some i) ≡ some j → FirstError log (i + 1) j)
      × (log_next_error log (some i) ≡ none → (k : ℕ) → i < k → ¬ IsAboutFile log k)
log_next_error-FirstError log i = (
  λ j h.
      let f = next-FirstFrom log i j h in
      record {
        at_least = f.not_before;
        found = stops_at-file log j f.is_error;
        no_other = λ k a b about. absurd (cc (f.none_between k a b, file-stops_at log k about));
      },
  λ h k lt about. absurd (cc (no_stop log i h k lt, file-stops_at log k about)),
)
