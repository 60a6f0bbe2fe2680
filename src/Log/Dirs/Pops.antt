-- ===== src/Log/Dirs/Pops.antt =====
-- log.c: log_pop_dir, log_clear_dirs and `dir_stack_count`.
use maketool.Common.{
  ℕ, zero, suc, ◌-◌, ◌≤◌, ◌<◌, ◌≡◌, refl, ap, true, ◌||◌, ◌&&◌, Option, none, some, List, [], ◌∷◌,
  ◌++◌, arith, Bytes, ltb, ◌==◌, length, inl, inr, Bool-cases, Nat-cases, Option-cases,
}
use mathlib.Core.Path.{subst}
use maketool.Log.Dirs.{
  Dirs, stackhead, removed, remove_dir, shrunk, pop_at, is_nil, with_hash, clear_below, dirs_below,
  log_unique_dir, log_pop_dir, log_clear_dirs,
}
use maketool.Log.Dirs.Levels.{dirs_below-set}
use maketool.Log.Dirs.Balance.{Balanced, IsBalanced, set-Balanced}

pub length-remove_dir :
    (dir : ℕ) (l l' : List ℕ) → remove_dir dir l ≡ some l' → length l ≡ suc (length l')
unfolding remove_dir
length-remove_dir dir [] l' h = absurd (cc)
length-remove_dir dir (d ∷ ds) l' h = elim (Bool-cases (d == dir)) [
  | inl y ↦ ground arith
  | inr n ↦ elim (Option-cases (remove_dir dir ds)) [
    | inl e ↦ ground arith
    | inr (r, e) ↦ ground (arith, length-remove_dir dir ds r e)
  ]
]

-- The balance and the depth after the loop of log_pop_dir.
removed-Balanced :
    (i : ℕ) (st : Dirs) (o : Option (List ℕ))
    → IsBalanced st
    → i < st.dir_max_depth
    → ((l : List ℕ) → o ≡ some l → length (stackhead st.dir_stack i) ≡ suc (length l))
    → IsBalanced (removed i o st)
unfolding removed
removed-Balanced i st none b lt h = b
removed-Balanced i st (some l) b lt h =
    set-Balanced st.dir_max_depth st.dir_stack st.dir_stack_count (st.dir_stack_count - 1) i l b lt
      (omega (
        arith,
        h l refl,
        b.counted,
        dirs_below-set st.dir_max_depth i st.dir_stack [] lt (omega (arith, b.in_range)),
      ))

lower : (m c : ℕ) (s : List (List ℕ)) → Balanced (suc m) s c → stackhead s m ≡ [] → Balanced m s c
unfolding dirs_below
lower m c s b e = record {
  in_range = omega (arith, b.in_range);
  unused = λ i h. elim (Nat-cases i m) [ inl q ↦ rw q e | inr ne ↦ b.unused i (omega arith) ];
  counted = subst (λ l. c ≡ length (l ++ dirs_below m s)) e b.counted;
}

is_nil_sound : (l : List ℕ) → is_nil l ≡ true → l ≡ []
unfolding is_nil
is_nil_sound l h = ground arith

shrunk_sub1 : (m : ℕ) → 1 ≤ m → m ≡ suc (m - 1)
shrunk_sub1 m h = omega arith

pub shrunk-Balanced :
    (depth : ℕ) (st : Dirs) → IsBalanced st → 1 ≤ depth → IsBalanced (shrunk depth st)
unfolding shrunk
shrunk-Balanced depth st b pos =
    elim (Bool-cases (depth == st.dir_max_depth && is_nil (stackhead st.dir_stack (depth - 1)))) [
      | inr n ↦ rw n b
      | inl y ↦
          let eq : depth ≡ st.dir_max_depth = ground arith in
          rw y (
            lower (st.dir_max_depth - 1) st.dir_stack_count st.dir_stack
              (subst (λ m. Balanced m st.dir_stack st.dir_stack_count)
                (shrunk_sub1 st.dir_max_depth (omega arith)) b)
              (subst (λ m. stackhead st.dir_stack (m - 1) ≡ []) eq
                (is_nil_sound (stackhead st.dir_stack (depth - 1)) (ground arith))))
    ]

pop_at-Balanced :
    (depth dir : ℕ) (st : Dirs)
    → IsBalanced st
    → 1 ≤ depth
    → depth ≤ st.dir_max_depth
    → IsBalanced (pop_at depth dir st)
unfolding pop_at
pop_at-Balanced depth dir st b pos le =
    let level : List ℕ = stackhead st.dir_stack (depth - 1) in
    shrunk-Balanced depth (removed (depth - 1) (remove_dir dir level) st)
      (removed-Balanced (depth - 1) st (remove_dir dir level) b (omega arith)
        (length-remove_dir dir level))
      pos

pub log_pop_dir-Balanced :
    (current : Bytes) (depth : ℕ) (name : Bytes) (st : Dirs)
    → IsBalanced st
    → IsBalanced (log_pop_dir current depth name st)
unfolding log_pop_dir with_hash
log_pop_dir-Balanced current depth name st b =
    let hashed : Dirs = with_hash (log_unique_dir current name st.dir_hash).1 st in
    elim (Bool-cases (ltb depth 1 || ltb st.dir_max_depth depth)) [
      | inl y ↦ rw y b
      | inr n ↦ rw n (
          pop_at-Balanced depth (log_unique_dir current name st.dir_hash).0 hashed b (ground arith)
            (ground arith))
    ]

length-clear_below : (n : ℕ) (s : List (List ℕ)) → length (clear_below n s) ≡ length s
unfolding clear_below
length-clear_below zero s = refl
length-clear_below (suc n) [] = refl
length-clear_below (suc n) (l ∷ s) = ap suc (length-clear_below n s)

stackhead-clear_below :
    (n i : ℕ) (s : List (List ℕ))
    → ((j : ℕ) → n ≤ j → stackhead s j ≡ [])
    → stackhead (clear_below n s) i ≡ []
unfolding clear_below
stackhead-clear_below zero i s h = h i (omega arith)
stackhead-clear_below (suc n) i [] h = refl
stackhead-clear_below (suc n) zero (l ∷ s) h = refl
stackhead-clear_below (suc n) (suc i) (l ∷ s) h =
    stackhead-clear_below n i s (λ j le. h (suc j) (omega arith))

pub log_clear_dirs-Balanced : (st : Dirs) → IsBalanced st → IsBalanced (log_clear_dirs st)
unfolding log_clear_dirs dirs_below
log_clear_dirs-Balanced st b = record {
  in_range = omega arith;
  unused = λ i h. stackhead-clear_below st.dir_max_depth i st.dir_stack b.unused;
  counted = refl;
}
