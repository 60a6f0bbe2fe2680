-- ===== src/Util/Elapsed.antt =====
-- `time_elapsed` and `time_elapsed_str` of util.c. The time of day enters as an argument.
use maketool.Common.{
  All-append, ℕ, zero, suc, ◌+◌, ◌≢◌, ◌⊎◌, all, ◌-◌, ◌*◌, ◌/◌, ◌%◌, ◌<◌, ◌≡◌, refl, Bool, true,
  false, ◌||◌, not, List, [], ◌∷◌, ◌++◌, ltb, ◌==◌, if◌then◌else◌, arith, All, ℤ, pos, negsuc,
  pos_part, neg_part, sub_ℕ, inl, inr, Bool-cases, ◌∙◌, ◌↔◌,
}

-- `struct timeval`
pub record Timeval : Type 0 where
  pub tv_sec : ℤ
  pub tv_usec : ℕ

-- A reading of the clock.
pub record Mark : Type 0 where
  pub sec : ℕ
  pub usec : ℕ

-- time_elapsed, where gettimeofday() gives `now`
pub time_elapsed : Mark → Mark → Timeval
time_elapsed mark now =
    if ltb mark.usec now.usec
    then record { tv_sec = sub_ℕ now.sec mark.sec; tv_usec = now.usec - mark.usec }
    else record { tv_sec = sub_ℕ now.sec (mark.sec + 1); tv_usec = 1000000 + mark.usec - now.usec }

-- microseconds since the epoch
abbrev pub micros : Mark → ℕ
micros m = m.sec * 1000000 + m.usec

abbrev pub IsMark : Mark → Type 0
IsMark m = m.usec < 1000000

-- The interval that time_elapsed computes exceeds the true one by twice the amount by which the
-- fraction of the first reading exceeds that of the second. So it is exact where the fraction has
-- grown or is the same; and the microseconds are less than a second exactly where it has grown.
time_elapsed_error :
    (mark now : Mark)
    → IsMark mark
    → IsMark now
    → (pos_part (time_elapsed mark now).tv_sec * 1000000
          + (time_elapsed mark now).tv_usec
          + micros mark
        ≡ micros now
          + neg_part (time_elapsed mark now).tv_sec * 1000000
          + 2 * (mark.usec - now.usec))
      × ((time_elapsed mark now).tv_usec < 2000000)
      × (((time_elapsed mark now).tv_usec < 1000000) ↔ (mark.usec < now.usec))
unfolding time_elapsed
time_elapsed_error mark now m n =
    (ground arith, ground arith, (λ e. ground arith, λ e. ground arith))

pub data TimeUnit : Type 0 where
  day hour minute : TimeUnit

-- What time_elapsed_str prints, in order: "%ld %s", and at the end "%ld.%01ld sec".
pub data Field : Type 0 where
  whole : ℤ → TimeUnit → Field
  seconds : ℤ → ℕ → Field

abbrev negated : ℕ → ℤ
negated zero = pos 0
negated (suc n) = negsuc n

-- `/` and `%` of C, which cut towards zero
abbrev quotient : ℤ → ℕ → ℤ
quotient (pos n) f = pos (n / f)
quotient (negsuc n) f = negated (suc n / f)

abbrev remainder : ℤ → ℕ → ℤ
remainder (pos n) f = pos (n % f)
remainder (negsuc n) f = negated (suc n % f)

abbrev is_zero : ℤ → Bool
is_zero (pos n) = n == 0
is_zero (negsuc n) = false

abbrev factors : List (ℕ × TimeUnit)
factors = (86400, day) ∷ (3600, hour) ∷ (60, minute) ∷ []

-- the loop over `factors`: the fields, and the seconds that are left
pub split_units : List (ℕ × TimeUnit) → ℤ → List Field × ℤ
split_units [] sec = ([], sec)
split_units ((f, u) ∷ us) sec =
    let (fields, left) = split_units us (remainder sec f) in
    (if is_zero (quotient sec f) then fields else whole (quotient sec f) u ∷ fields, left)

abbrev is_empty : List Field → Bool
is_empty [] = true
is_empty (x ∷ xs) = false

-- the code behind the loop
with_seconds : List Field → ℤ → ℕ → List Field
with_seconds fields left usec =
    if not (is_zero left) || is_empty fields
    then fields ++ seconds left ((usec + 50000) / 100000) ∷ []
    else fields

-- time_elapsed_str, given the interval
pub time_elapsed_str : Timeval → List Field
unfolding with_seconds
time_elapsed_str d =
    let (fields, left) = split_units factors d.tv_sec in with_seconds fields left d.tv_usec

abbrev factor_of : TimeUnit → ℕ
factor_of day = 86400
factor_of hour = 3600
factor_of minute = 60

-- The seconds that the fields stand for, fractions aside.
abbrev pub value : List Field → ℕ
value [] = 0
value (whole n u ∷ fs) = pos_part n * factor_of u + value fs
value (seconds n t ∷ fs) = pos_part n + value fs

abbrev pub InRange : Field → Type 0
InRange (whole n day) = 0 < pos_part n
InRange (whole n hour) = (0 < pos_part n) × (pos_part n < 24)
InRange (whole n minute) = (0 < pos_part n) × (pos_part n < 60)
InRange (seconds n t) = pos_part n < 60

abbrev is_whole : Field → Bool
is_whole (whole n u) = true
is_whole (seconds n t) = false

-- The fields behind the minutes: seconds are printed unless they are 0 and something else is printed,
-- and the tenths are the microseconds, rounded, which may come to 10 and more.
abbrev pub Ends : List Field → ℕ → ℕ → Type 0
Ends fields sec usec =
    ((all is_whole fields ≡ true) × (sec % 60 ≡ 0) × (fields ≢ []))
    ⊎ ((init : List Field) × (fields
          ≡ init ++ seconds (pos (sec % 60)) ((usec + 50000) / 100000) ∷ [])
        × (all is_whole init ≡ true)
        × ((0 < sec % 60) ⊎ (init ≡ [])))

or-true : (b : Bool) → (b || true) ≡ true
or-true true = refl
or-true false = refl

split_units_pos :
    (s : ℕ)
    → (value (split_units factors (pos s)).0 + s % 60 ≡ s)
      × ((split_units factors (pos s)).1 ≡ pos (((s % 86400) % 3600) % 60))
      × All InRange (split_units factors (pos s)).0
unfolding split_units
split_units_pos s = (ground arith, refl, ground arith)

value-append : (fs gs : List Field) → value (fs ++ gs) ≡ value fs + value gs
value-append [] gs = omega arith
value-append (whole n u ∷ fs) gs = omega (arith, value-append fs gs)
value-append (seconds n t ∷ fs) gs = omega (arith, value-append fs gs)

sixty : (s : ℕ) → ((s % 86400) % 3600) % 60 ≡ s % 60
sixty s = omega arith

split_units-whole : (s : ℕ) → all is_whole (split_units factors (pos s)).0 ≡ true
unfolding split_units
split_units-whole s = ground arith

with_seconds-Ends :
    (fs : List Field) (s usec : ℕ)
    → all is_whole fs ≡ true
    → Ends (with_seconds fs (pos (s % 60)) usec) s usec
unfolding with_seconds
with_seconds-Ends [] s usec h = rw (or-true (not (s % 60 == 0))) (inr ([], refl, refl, inr refl))
with_seconds-Ends (f ∷ fs) s usec h = elim (Bool-cases (s % 60 == 0)) [
  | inl y ↦ rw y (inl (h, ground (arith, y), λ e. absurd (cc)))
  | inr n ↦ rw n (inr (f ∷ fs, refl, h, inl (ground (arith, n))))
]

with_seconds-value :
    (fs : List Field) (k usec : ℕ)
    → k < 60
    → All InRange fs
    → (value (with_seconds fs (pos k) usec) ≡ value fs + k)
      × All InRange (with_seconds fs (pos k) usec)
unfolding with_seconds
with_seconds-value fs k usec h all = elim (Bool-cases (not (k == 0) || is_empty fs)) [
  | inl y ↦ (rw y (value-append fs _ ∙ omega arith), rw y (All-append InRange fs _ all (h, tt)))
  | inr n ↦ (rw n (ground arith), rw n all)
]

-- For an interval of s seconds, the fields that time_elapsed_str prints add up to s, tenths aside.
-- Counts of days, hours and minutes are printed where they are not 0, with hours below 24 and
-- minutes below 60. The seconds below a minute come last, and only they may be left out: just where
-- they are 0 and something else is printed. Behind them stand the microseconds as tenths, rounded,
-- with no carry: they may be 10 and more.
pub time_elapsed_str-value :
    (s usec : ℕ)
    → (value (time_elapsed_str (record { tv_sec = pos s; tv_usec = usec })) ≡ s)
      × All InRange (time_elapsed_str (record { tv_sec = pos s; tv_usec = usec }))
      × Ends (time_elapsed_str (record { tv_sec = pos s; tv_usec = usec })) s usec
unfolding time_elapsed_str
time_elapsed_str-value s usec =
    let (v, left, all) = split_units_pos s in
    let fields = (split_units factors (pos s)).0 in
    let (w, r) = with_seconds-value fields (s % 60) usec (omega arith) all in
    rw left (
      rw (sixty s) (w ∙ omega (arith, v), r, with_seconds-Ends fields s usec (split_units-whole s)))
