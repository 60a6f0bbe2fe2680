-- ===== src/Log/Dirs/Balance.antt =====
-- log.c: `dir_stack_count` and the stack of directories.
use maketool.Common.{
  ℕ, suc, ◌+◌, ◌-◌, ◌≤◌, ◌<◌, ◌≡◌, refl, sym, ◌∙◌, true, ◌||◌, List, [], ◌∷◌, arith, Bytes, ltb,
  ◌==◌, length, set, inl, inr, Bool-cases,
}
use maketool.Log.Dirs.{
  Dirs, stackhead, set_size, grown, prepended, with_hash, dirs_below, log_unique_dir, log_push_dir,
}
use maketool.Log.Dirs.Levels.{
  length-set, stackhead-set_ne, length-set_size, stackhead-set_size, dirs_below_same,
  dirs_below-set, stackhead_above,
}

-- The stack with its depth and its count: what lies from the depth on is empty, and the count is
-- the number of directories that log_get_context visits.
pub record Balanced (depth : ℕ) (stack : List (List ℕ)) (count : ℕ) : Type 0 where
  pub in_range : depth ≤ length stack
  pub unused : (i : ℕ) → depth ≤ i → stackhead stack i ≡ []
  pub counted : count ≡ length (dirs_below depth stack)

abbrev pub IsBalanced : Dirs → Type 0
IsBalanced st = Balanced st.dir_max_depth st.dir_stack st.dir_stack_count

-- Replacing a level keeps the balance if the count changes with it.
pub set-Balanced :
    (m : ℕ) (s : List (List ℕ)) (c c' i : ℕ) (l : List ℕ)
    → Balanced m s c
    → i < m
    → c' + length (stackhead s i) ≡ c + length l
    → Balanced m (set s i l) c'
set-Balanced m s c c' i l b lt e = record {
  in_range = rw (length-set s i l) b.in_range;
  unused = λ j h. stackhead-set_ne s i j l (λ q. omega arith) ∙ b.unused j h;
  counted = omega (arith, b.counted, dirs_below-set m i s l lt (omega (arith, b.in_range)));
}

-- The levels are as before, and the depth covers the new one.
pub record Grown (depth : ℕ) (st g : Dirs) : Type 0 where
  pub balanced : IsBalanced g
  pub covers : depth ≤ g.dir_max_depth
  pub same_levels : (i : ℕ) → stackhead g.dir_stack i ≡ stackhead st.dir_stack i
  pub same_count : g.dir_stack_count ≡ st.dir_stack_count

same_level :
    (m i : ℕ) (s : List (List ℕ))
    → ((j : ℕ) → m ≤ j → stackhead s j ≡ [])
    → stackhead (set_size (suc m) s) i ≡ stackhead s i
same_level m i s h = elim (Bool-cases (ltb i (suc m))) [
  | inl y ↦ stackhead-set_size (suc m) i s (ground arith)
  | inr n ↦
      stackhead_above (set_size (suc m) s) i (rw (length-set_size (suc m) s) (ground arith))
      ∙ sym (h i (ground arith))
]

set_size-Balanced :
    (m c : ℕ) (s : List (List ℕ)) → Balanced m s c → Balanced (suc m) (set_size (suc m) s) c
unfolding dirs_below
set_size-Balanced m c s b = record {
  in_range = rw (length-set_size (suc m) s) (omega arith);
  unused = λ i h. same_level m i s b.unused ∙ b.unused i (omega arith);
  counted =
      rw
        (
          same_level m m s b.unused,
          b.unused m (omega arith),
          dirs_below_same m (set_size (suc m) s) s (λ i lt. same_level m i s b.unused),
        )
        b.counted;
}

equal→suc : (depth m : ℕ) → (depth == m + 1) ≡ true → depth ≡ suc m
equal→suc depth m h = ground arith

pub grown-Grown :
    (depth : ℕ) (st : Dirs)
    → IsBalanced st
    → depth ≤ st.dir_max_depth + 1
    → Grown depth st (grown depth st)
unfolding grown
grown-Grown depth st b h = elim (Bool-cases (depth == st.dir_max_depth + 1)) [
  | inl y ↦
      rw (y, equal→suc depth st.dir_max_depth y)
        (record {
          balanced = set_size-Balanced st.dir_max_depth st.dir_stack_count st.dir_stack b;
          covers = omega arith;
          same_levels = λ i. same_level st.dir_max_depth i st.dir_stack b.unused;
          same_count = refl;
        })
  | inr n ↦
      rw n
        (record { balanced = b; covers = ground arith; same_levels = λ i. refl; same_count = refl })
]

pub prepended-Balanced :
    (depth dir : ℕ) (st : Dirs)
    → IsBalanced st
    → 1 ≤ depth
    → depth ≤ st.dir_max_depth
    → IsBalanced (prepended depth dir st)
unfolding prepended
prepended-Balanced depth dir st b pos le =
    set-Balanced st.dir_max_depth st.dir_stack st.dir_stack_count (st.dir_stack_count + 1)
      (depth - 1) (dir ∷ stackhead st.dir_stack (depth - 1)) b (omega arith) (omega arith)

pub log_push_dir-Balanced :
    (current : Bytes) (depth : ℕ) (name : Bytes) (st : Dirs)
    → IsBalanced st
    → IsBalanced (log_push_dir current depth name st)
unfolding log_push_dir with_hash
log_push_dir-Balanced current depth name st b =
    let hashed : Dirs = with_hash (log_unique_dir current name st.dir_hash).1 st in
    elim (Bool-cases (ltb depth 1 || ltb (st.dir_max_depth + 1) depth)) [
      | inl y ↦ rw y b
      | inr n ↦
          let g = grown-Grown depth hashed b (ground arith) in
          rw n (
            prepended-Balanced depth (log_unique_dir current name st.dir_hash).0
              (grown depth hashed) g.balanced (ground arith) g.covers)
    ]
