-- ===== src/Log/Dirs/Undo.antt =====
-- log.c: log_push_dir with log_pop_dir behind it.
use maketool.Common.{
  ℕ, zero, suc, ◌+◌, ◌-◌, ◌≤◌, ◌<◌, ◌≡◌, refl, sym, ap, ◌∙◌, some, List, [], ◌∷◌, arith, Bytes,
  length, set, inl, inr, Nat-cases,
}
use mathlib.Core.Path.{subst}
use maketool.Log.Dirs.{
  Dirs, stackhead, grown, prepended, removed, remove_dir, shrunk, pop_at, with_hash, dirs_below,
  log_unique_dir, log_push_dir, log_pop_dir,
}
use maketool.Log.Dirs.Levels.{length-set, stackhead-set, stackhead-set_ne, dirs_below_same}
use maketool.Log.Dirs.Interning.{log_unique_dir_iff}
use maketool.Log.Dirs.Balance.{Balanced, IsBalanced, Grown, grown-Grown, log_push_dir-Balanced}
use maketool.Log.Dirs.Pops.{log_pop_dir-Balanced}

dirs_below-unused :
    (n m : ℕ) (s : List (List ℕ))
    → ((i : ℕ) → m ≤ i → stackhead s i ≡ [])
    → m ≤ n
    → dirs_below n s ≡ dirs_below m s
unfolding dirs_below
dirs_below-unused zero m s h le = elim (Nat-cases m 0) [
  | inl e ↦ rw e refl
  | inr ne ↦ absurd (omega arith)
]
dirs_below-unused (suc n) m s h le = elim (Nat-cases m (suc n)) [
  | inl e ↦ rw e refl
  | inr ne ↦ rw (h n (omega arith)) (dirs_below-unused n m s h (omega arith))
]

-- Two balanced stacks with the same levels show the same directories, whatever their depths.
dirs_below_levels :
    (a b c d : ℕ) (s t : List (List ℕ))
    → Balanced a s c
    → Balanced b t d
    → ((i : ℕ) → stackhead s i ≡ stackhead t i)
    → dirs_below a s ≡ dirs_below b t
dirs_below_levels a b c d s t p q h =
    sym (dirs_below-unused (a + b) a s p.unused (omega arith))
    ∙ dirs_below_same (a + b) s t (λ i lt. h i)
    ∙ dirs_below-unused (a + b) b t q.unused (omega arith)

-- The same directories are open, level by level and in the order of the context.
pub record SameDirs (st u : Dirs) : Type 0 where
  pub same_levels : (i : ℕ) → stackhead u.dir_stack i ≡ stackhead st.dir_stack i
  pub same_count : u.dir_stack_count ≡ st.dir_stack_count
  pub same_dirs : dirs_below u.dir_max_depth u.dir_stack ≡ dirs_below st.dir_max_depth st.dir_stack

remove_dir-first : (d : ℕ) (l : List ℕ) → remove_dir d (d ∷ l) ≡ some l
unfolding remove_dir
remove_dir-first d l = ground arith

twice_set :
    (s : List (List ℕ)) (i j : ℕ) (l : List ℕ)
    → i < length s
    → stackhead (set (set s i l) i (stackhead s i)) j ≡ stackhead s j
twice_set s i j l lt = elim (Nat-cases i j) [
  | inl e ↦ rw (sym e) (stackhead-set (set s i l) i (stackhead s i) (rw (length-set s i l) lt))
  | inr ne ↦ stackhead-set_ne (set s i l) i j (stackhead s i) ne ∙ stackhead-set_ne s i j l ne
]

shrunk-kept :
    (depth : ℕ) (st : Dirs)
    → ((shrunk depth st).dir_stack ≡ st.dir_stack)
      × ((shrunk depth st).dir_stack_count ≡ st.dir_stack_count)
unfolding shrunk
shrunk-kept depth st = ground arith

-- The loop of log_pop_dir finds the link that log_push_dir has just prepended.
removed-prepended :
    (depth dir : ℕ) (g : Dirs)
    → depth - 1 < length g.dir_stack
    → removed
        (depth - 1)
        (remove_dir dir (stackhead (prepended depth dir g).dir_stack (depth - 1)))
        (prepended depth dir g)
      ≡ removed (depth - 1) (some (stackhead g.dir_stack (depth - 1))) (prepended depth dir g)
unfolding prepended
removed-prepended depth dir g lt =
    let l : List ℕ = stackhead g.dir_stack (depth - 1) in
    ap (λ o. removed (depth - 1) o (prepended depth dir g))
      (ap (remove_dir dir) (stackhead-set g.dir_stack (depth - 1) (dir ∷ l) lt)
        ∙ remove_dir-first dir l)

removed_kept :
    (depth dir : ℕ) (g : Dirs)
    → depth - 1 < length g.dir_stack
    → let r =
        removed (depth - 1) (some (stackhead g.dir_stack (depth - 1))) (prepended depth dir g) in
      ((i : ℕ) → stackhead r.dir_stack i ≡ stackhead g.dir_stack i)
      × (r.dir_stack_count ≡ g.dir_stack_count)
unfolding removed prepended
removed_kept depth dir g lt = (
  λ i. twice_set g.dir_stack (depth - 1) i (dir ∷ stackhead g.dir_stack (depth - 1)) lt,
  omega arith,
)

pop_at-prepended :
    (depth dir : ℕ) (g : Dirs)
    → depth - 1 < length g.dir_stack
    → let u = pop_at depth dir (prepended depth dir g) in
      ((i : ℕ) → stackhead u.dir_stack i ≡ stackhead g.dir_stack i)
      × (u.dir_stack_count ≡ g.dir_stack_count)
unfolding pop_at
pop_at-prepended depth dir g lt =
    let r : Dirs =
      removed (depth - 1) (some (stackhead g.dir_stack (depth - 1))) (prepended depth dir g) in
    let (levels, count) = removed_kept depth dir g lt in
    let (stack, number) = shrunk-kept depth r in
    rw (removed-prepended depth dir g lt)
      ((λ i. ap (λ s. stackhead s i) stack ∙ levels i), number ∙ count)

log_push_dir_legal :
    (current : Bytes) (depth : ℕ) (name : Bytes) (st : Dirs)
    → 1 ≤ depth
    → depth ≤ st.dir_max_depth + 1
    → log_push_dir current depth name st
      ≡ prepended depth
          (log_unique_dir current name st.dir_hash).0
          (grown depth (with_hash (log_unique_dir current name st.dir_hash).1 st))
unfolding log_push_dir
log_push_dir_legal current depth name st pos le = ground arith

log_pop_dir_legal :
    (current : Bytes) (depth : ℕ) (name : Bytes) (st : Dirs)
    → 1 ≤ depth
    → depth ≤ st.dir_max_depth
    → log_pop_dir current depth name st
      ≡ pop_at depth
          (log_unique_dir current name st.dir_hash).0
          (with_hash (log_unique_dir current name st.dir_hash).1 st)
unfolding log_pop_dir
log_pop_dir_legal current depth name st pos le = ground arith

log_push_dir-hash :
    (current : Bytes) (depth : ℕ) (name : Bytes) (st : Dirs)
    → (log_push_dir current depth name st).dir_hash ≡ (log_unique_dir current name st.dir_hash).1
unfolding log_push_dir prepended grown with_hash
log_push_dir-hash current depth name st = ground arith

same_place :
    (current : Bytes) (depth : ℕ) (name : Bytes) (st : Dirs)
    → (log_unique_dir current name (log_push_dir current depth name st).dir_hash).0
      ≡ (log_unique_dir current name st.dir_hash).0
same_place current depth name st =
    ap (λ h. (log_unique_dir current name h).0) (log_push_dir-hash current depth name st)
    ∙ sym ((log_unique_dir_iff current name name st.dir_hash).1 refl)

undo :
    (depth dir dir' : ℕ) (hash : List Bytes) (st g : Dirs)
    → Grown depth st g
    → 1 ≤ depth
    → dir' ≡ dir
    → let u = pop_at depth dir' (with_hash hash (prepended depth dir g)) in
      ((i : ℕ) → stackhead u.dir_stack i ≡ stackhead st.dir_stack i)
      × (u.dir_stack_count ≡ st.dir_stack_count)
unfolding with_hash prepended
undo depth dir dir' hash st g grown_ pos e =
    let inside : depth - 1 < length g.dir_stack =
      omega (arith, grown_.balanced.in_range, grown_.covers) in
    let (levels, count) = pop_at-prepended depth dir (with_hash hash g) inside in
    rw e ((λ i. levels i ∙ grown_.same_levels i), count ∙ grown_.same_count)

grown-with_hash :
    (depth : ℕ) (hash : List Bytes) (st : Dirs)
    → IsBalanced st
    → depth ≤ st.dir_max_depth + 1
    → Grown depth st (grown depth (with_hash hash st))
unfolding with_hash
grown-with_hash depth hash st b le =
    let g = grown-Grown depth (record st { dir_hash = hash }) b le in
    record {
      balanced = g.balanced;
      covers = g.covers;
      same_levels = g.same_levels;
      same_count = g.same_count;
    }

covered :
    (current : Bytes) (depth : ℕ) (name : Bytes) (st : Dirs)
    → IsBalanced st
    → 1 ≤ depth
    → depth ≤ st.dir_max_depth + 1
    → depth ≤ (log_push_dir current depth name st).dir_max_depth
covered current depth name st b pos le = rw (log_push_dir_legal current depth name st pos le) (
    unfold prepended in
    (grown-with_hash depth (log_unique_dir current name st.dir_hash).1 st b le).covers)

undone :
    (current : Bytes) (depth : ℕ) (name : Bytes) (st : Dirs)
    → IsBalanced st
    → 1 ≤ depth
    → depth ≤ st.dir_max_depth + 1
    → let u = log_pop_dir current depth name (log_push_dir current depth name st) in
      ((i : ℕ) → stackhead u.dir_stack i ≡ stackhead st.dir_stack i)
      × (u.dir_stack_count ≡ st.dir_stack_count)
undone current depth name st b pos le =
    let (dir, hash) = log_unique_dir current name st.dir_hash in
    let pushed : Dirs = log_push_dir current depth name st in
    let g : Dirs = grown depth (with_hash hash st) in
    let dir' : ℕ = (log_unique_dir current name pushed.dir_hash).0 in
    let hash' : List Bytes = (log_unique_dir current name pushed.dir_hash).1 in
    rw (log_pop_dir_legal current depth name pushed pos (covered current depth name st b pos le)) (
      subst
        (λ p.
          let u = pop_at depth dir' (with_hash hash' p) in
          ((i : ℕ) → stackhead u.dir_stack i ≡ stackhead st.dir_stack i)
          × (u.dir_stack_count ≡ st.dir_stack_count))
        (sym (log_push_dir_legal current depth name st pos le))
        (undo depth dir dir' hash' st g (grown-with_hash depth hash st b le) pos
          (same_place current depth name st)))

-- Leaving a directory that was just entered at a depth from 1 to one more than the greatest, by
-- the same name, leaves open exactly the directories that were open, level by level, counted as
-- before and in the order in which the context lists them.
pub log_pop_dir-log_push_dir :
    (current : Bytes) (depth : ℕ) (name : Bytes) (st : Dirs)
    → IsBalanced st
    → 1 ≤ depth
    → depth ≤ st.dir_max_depth + 1
    → SameDirs st (log_pop_dir current depth name (log_push_dir current depth name st))
log_pop_dir-log_push_dir current depth name st b pos le =
    let u : Dirs = log_pop_dir current depth name (log_push_dir current depth name st) in
    let balanced =
      log_pop_dir-Balanced current depth name (log_push_dir current depth name st)
        (log_push_dir-Balanced current depth name st b) in
    let (levels, count) = undone current depth name st b pos le in
    record {
      same_levels = levels;
      same_count = count;
      same_dirs =
          dirs_below_levels u.dir_max_depth st.dir_max_depth u.dir_stack_count st.dir_stack_count
            u.dir_stack st.dir_stack balanced b levels;
    }
