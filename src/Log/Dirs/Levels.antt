-- ===== src/Log/Dirs/Levels.antt =====
-- log.c: the levels of the directory stack, where one of them is replaced.
use maketool.Common.{
  ℕ, zero, suc, ◌+◌, ◌≤◌, ◌<◌, ◌≡◌, ◌≢◌, refl, sym, ap, List, [], ◌∷◌, arith, length, length-append,
  set, Nat-cases, inl, inr,
}
use maketool.Log.Dirs.{stackhead, set_size, dirs_below}

pub length-set : (s : List (List ℕ)) (i : ℕ) (l : List ℕ) → length (set s i l) ≡ length s
length-set [] i l = refl
length-set (h ∷ s) zero l = refl
length-set (h ∷ s) (suc i) l = ap suc (length-set s i l)

pub stackhead-set :
    (s : List (List ℕ)) (i : ℕ) (l : List ℕ) → i < length s → stackhead (set s i l) i ≡ l
stackhead-set [] i l h = absurd (omega arith)
stackhead-set (x ∷ s) zero l h = refl
stackhead-set (x ∷ s) (suc i) l h = stackhead-set s i l (omega arith)

pub stackhead-set_ne :
    (s : List (List ℕ)) (i j : ℕ) (l : List ℕ) → i ≢ j → stackhead (set s i l) j ≡ stackhead s j
stackhead-set_ne [] i j l h = refl
stackhead-set_ne (x ∷ s) zero zero l h = absurd (h refl)
stackhead-set_ne (x ∷ s) zero (suc j) l h = refl
stackhead-set_ne (x ∷ s) (suc i) zero l h = refl
stackhead-set_ne (x ∷ s) (suc i) (suc j) l h = stackhead-set_ne s i j l (λ e. h (ap suc e))

pub stackhead_above : (s : List (List ℕ)) (i : ℕ) → length s ≤ i → stackhead s i ≡ []
stackhead_above [] i h = refl
stackhead_above (x ∷ s) zero h = absurd (omega arith)
stackhead_above (x ∷ s) (suc i) h = stackhead_above s i (omega arith)

pub length-set_size : (n : ℕ) (s : List (List ℕ)) → length (set_size n s) ≡ n
unfolding set_size
length-set_size zero s = refl
length-set_size (suc n) [] = ap suc (length-set_size n [])
length-set_size (suc n) (x ∷ s) = ap suc (length-set_size n s)

pub stackhead-set_size :
    (n i : ℕ) (s : List (List ℕ)) → i < n → stackhead (set_size n s) i ≡ stackhead s i
unfolding set_size
stackhead-set_size zero i s h = absurd (omega arith)
stackhead-set_size (suc n) zero [] h = refl
stackhead-set_size (suc n) (suc i) [] h = stackhead-set_size n i [] (omega arith)
stackhead-set_size (suc n) zero (x ∷ s) h = refl
stackhead-set_size (suc n) (suc i) (x ∷ s) h = stackhead-set_size n i s (omega arith)

pub dirs_below_same :
    (n : ℕ) (s t : List (List ℕ))
    → ((i : ℕ) → i < n → stackhead s i ≡ stackhead t i)
    → dirs_below n s ≡ dirs_below n t
unfolding dirs_below
dirs_below_same zero s t h = refl
dirs_below_same (suc n) s t h =
    rw (h n (omega arith), dirs_below_same n s t (λ i lt. h i (omega arith))) refl

-- The count changes as the length of the replaced level does.
pub dirs_below-set :
    (n i : ℕ) (s : List (List ℕ)) (l : List ℕ)
    → i < n
    → i < length s
    → length (dirs_below n (set s i l)) + length (stackhead s i)
      ≡ length (dirs_below n s) + length l
unfolding dirs_below
dirs_below-set zero i s l lt le = absurd (omega arith)
dirs_below-set (suc n) i s l lt le = elim (Nat-cases n i) [
  | inl e ↦
      rw
        (
          e,
          stackhead-set s i l le,
          dirs_below_same i (set s i l) s
              (λ j k. stackhead-set_ne s i j l (λ q. omega (arith, q, k))),
        )
        (omega
          (arith, length-append l (dirs_below i s), length-append (stackhead s i) (dirs_below i s)))
  | inr ne ↦ rw (stackhead-set_ne s i n l (λ q. ne (sym q))) (
      omega (
        arith,
        length-append (stackhead s n) (dirs_below n (set s i l)),
        length-append (stackhead s n) (dirs_below n s),
        dirs_below-set n i s l (omega (arith, ne)) le,
      ))
]
