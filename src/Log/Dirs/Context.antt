-- ===== src/Log/Dirs/Context.antt =====
-- log.c: the context that log_get_context caches.
use maketool.Common.{
  ℕ, zero, suc, ◌+◌, ◌-◌, ◌≡◌, refl, sym, ap, ◌∙◌, true, false, ◌||◌, ◌&&◌, Option, none, some,
  List, [], ◌∷◌, ◌++◌, arith, Bytes, ltb, ◌==◌, if◌then◌else◌, ◌>>=◌, length, inl, inr, Bool-cases,
}
use mathlib.Core.Path.{subst}
use maketool.Log.Dirs.{
  Dirs, no_dirs, stackhead, prepended, removed, remove_dir, shrunk, pop_at, is_nil, with_hash,
  dirs_below, log_unique_dir, log_push_dir, log_pop_dir, log_clear_dirs, rebuilt_context,
  cached_or_rebuilt, log_get_context,
}
use maketool.Log.Dirs.Balance.{IsBalanced, log_push_dir-Balanced}
use maketool.Log.Dirs.Pops.{log_pop_dir-Balanced, log_clear_dirs-Balanced}

-- What the program does with the directories.
pub data DirEvent : Type 0 where
  enter : Bytes → ℕ → Bytes → DirEvent
  leave : Bytes → ℕ → Bytes → DirEvent
  clear : DirEvent
  context_read : DirEvent

pub dir_step : DirEvent → Dirs → Option Dirs
dir_step (enter current depth name) st = some (log_push_dir current depth name st)
dir_step (leave current depth name) st = some (log_pop_dir current depth name st)
dir_step clear st = some (log_clear_dirs st)
dir_step context_read st = log_get_context st >>= λ (con, st'). some st'

pub dir_steps : List DirEvent → Dirs → Option Dirs
unfolding dir_step
dir_steps [] st = some st
dir_steps (e ∷ es) st = dir_step e st >>= λ st'. dir_steps es st'

-- The cached context is that of the stack, unless it is marked dirty.
abbrev pub IsFresh : Dirs → Type 0
IsFresh st =
    (c : List ℕ)
    → st.context_dirty ≡ false
    → st.context ≡ some c
    → c ≡ dirs_below st.dir_max_depth st.dir_stack

some-injective : (a b : List ℕ) → some a ≡ some b → a ≡ b
some-injective a b h = cc

log_push_dir-IsFresh :
    (current : Bytes) (depth : ℕ) (name : Bytes) (st : Dirs)
    → IsFresh st
    → IsFresh (log_push_dir current depth name st)
unfolding log_push_dir with_hash prepended
log_push_dir-IsFresh current depth name st f =
    elim (Bool-cases (ltb depth 1 || ltb (st.dir_max_depth + 1) depth)) [
      | inl y ↦ rw y f
      | inr n ↦ rw n (λ c e q. absurd (cc))
    ]

is_nil_sound : (l : List ℕ) → is_nil l ≡ true → l ≡ []
unfolding is_nil
is_nil_sound l h = ground arith

dirs_below_top :
    (m : ℕ) (s : List (List ℕ)) → stackhead s (m - 1) ≡ [] → dirs_below (m - 1) s ≡ dirs_below m s
unfolding dirs_below
dirs_below_top zero s h = refl
dirs_below_top (suc m) s h =
    let low : suc m - 1 ≡ m = omega arith in
    rw low (sym (ap (λ l. l ++ dirs_below m s) (subst (λ i. stackhead s i ≡ []) low h)))

-- The end of log_pop_dir lowers the depth over a level that shows no directory.
shrunk-IsFresh : (depth : ℕ) (st : Dirs) → IsFresh st → IsFresh (shrunk depth st)
unfolding shrunk
shrunk-IsFresh depth st f =
    elim (Bool-cases (depth == st.dir_max_depth && is_nil (stackhead st.dir_stack (depth - 1)))) [
      | inr n ↦ rw n f
      | inl y ↦
          let eq : depth ≡ st.dir_max_depth = ground arith in
          rw y (λ c e q.
            f c e q
            ∙ sym (
                dirs_below_top st.dir_max_depth st.dir_stack (
                  subst (λ m. stackhead st.dir_stack (m - 1) ≡ []) eq
                    (is_nil_sound (stackhead st.dir_stack (depth - 1)) (ground arith)))))
    ]

removed-IsFresh : (i : ℕ) (o : Option (List ℕ)) (st : Dirs) → IsFresh st → IsFresh (removed i o st)
unfolding removed
removed-IsFresh i none st f = f
removed-IsFresh i (some l) st f = λ c e q. absurd (cc)

log_pop_dir-IsFresh :
    (current : Bytes) (depth : ℕ) (name : Bytes) (st : Dirs)
    → IsFresh st
    → IsFresh (log_pop_dir current depth name st)
unfolding log_pop_dir pop_at
log_pop_dir-IsFresh current depth name st f =
    let (dir, hash) = log_unique_dir current name st.dir_hash in
    let level : List ℕ = stackhead (with_hash hash st).dir_stack (depth - 1) in
    elim (Bool-cases (ltb depth 1 || ltb st.dir_max_depth depth)) [
      | inl y ↦ rw y (unfold with_hash in f)
      | inr n ↦ rw n (
          shrunk-IsFresh depth (removed (depth - 1) (remove_dir dir level) (with_hash hash st)) (
            removed-IsFresh (depth - 1) (remove_dir dir level) (with_hash hash st)
              (unfold with_hash in f)))
    ]

log_clear_dirs-IsFresh : (st : Dirs) → IsFresh (log_clear_dirs st)
unfolding log_clear_dirs
log_clear_dirs-IsFresh st = λ c e q. absurd (cc)

-- The two invariants of the directories.
pub record Coherent (st : Dirs) : Type 0 where
  pub balanced : IsBalanced st
  pub fresh : IsFresh st

-- What log_get_context does in such a state: it returns the directories that are open.
abbrev pub ContextRead : Dirs → Option (List ℕ × Dirs) → Type 0
ContextRead st r =
    (st' : Dirs) × (r ≡ some (dirs_below st.dir_max_depth st.dir_stack, st')) × Coherent st'

rebuilt-Read : (st : Dirs) → IsBalanced st → ContextRead st (rebuilt_context st)
unfolding rebuilt_context
rebuilt-Read st b =
    let all : List ℕ = dirs_below st.dir_max_depth st.dir_stack in
    let counted : (length all == st.dir_stack_count) ≡ true = ground (arith, b.counted) in
    (
      record st { context = some all; context_dirty = false },
      rw counted refl,
      record { balanced = b; fresh = λ c e q. sym (some-injective all c q) },
    )

cached_or_rebuilt-Read :
    (o : Option (List ℕ)) (st : Dirs)
    → Coherent st
    → st.context ≡ o
    → ContextRead st (cached_or_rebuilt o st)
unfolding cached_or_rebuilt
cached_or_rebuilt-Read none st k e = rebuilt-Read st k.balanced
cached_or_rebuilt-Read (some c) st k e = elim (Bool-cases st.context_dirty) [
  | inl y ↦
      subst (λ b. ContextRead st (if b then rebuilt_context st else some (c, st))) (sym y)
        (rebuilt-Read st k.balanced)
  | inr n ↦
      subst (λ b. ContextRead st (if b then rebuilt_context st else some (c, st))) (sym n)
        (st, ap (λ d. some (d, st)) (k.fresh c n e), k)
]

pub log_get_context-Read : (st : Dirs) → Coherent st → ContextRead st (log_get_context st)
unfolding log_get_context
log_get_context-Read st k = cached_or_rebuilt-Read st.context st k refl

pub no_dirs-Coherent : Coherent no_dirs
no_dirs-Coherent = record {
  balanced = record {
    in_range = omega arith;
    unused = λ i h. refl;
    counted = unfold dirs_below in refl;
  };
  fresh = λ c e q. absurd (cc);
}

pub log_push_dir-Coherent :
    (current : Bytes) (depth : ℕ) (name : Bytes) (st : Dirs)
    → Coherent st
    → Coherent (log_push_dir current depth name st)
log_push_dir-Coherent current depth name st k = record {
  balanced = log_push_dir-Balanced current depth name st k.balanced;
  fresh = log_push_dir-IsFresh current depth name st k.fresh;
}

pub log_pop_dir-Coherent :
    (current : Bytes) (depth : ℕ) (name : Bytes) (st : Dirs)
    → Coherent st
    → Coherent (log_pop_dir current depth name st)
log_pop_dir-Coherent current depth name st k = record {
  balanced = log_pop_dir-Balanced current depth name st k.balanced;
  fresh = log_pop_dir-IsFresh current depth name st k.fresh;
}

dir_step-Coherent :
    (e : DirEvent) (st : Dirs)
    → Coherent st
    → (st' : Dirs) × (dir_step e st ≡ some st') × Coherent st'
unfolding dir_step
dir_step-Coherent (enter current depth name) st k =
    (log_push_dir current depth name st, refl, log_push_dir-Coherent current depth name st k)
dir_step-Coherent (leave current depth name) st k =
    (log_pop_dir current depth name st, refl, log_pop_dir-Coherent current depth name st k)
dir_step-Coherent clear st k = (
  log_clear_dirs st,
  refl,
  record { balanced = log_clear_dirs-Balanced st k.balanced; fresh = log_clear_dirs-IsFresh st },
)
dir_step-Coherent context_read st k =
    let (st', p, k') = log_get_context-Read st k in (st', rw p refl, k')

dir_steps-Coherent :
    (es : List DirEvent) (st : Dirs)
    → Coherent st
    → (st' : Dirs) × (dir_steps es st ≡ some st') × Coherent st'
unfolding dir_steps
dir_steps-Coherent [] st k = (st, refl, k)
dir_steps-Coherent (e ∷ es) st k =
    let (mid, p, k') = dir_step-Coherent e st k in
    let (st', q, k'') = dir_steps-Coherent es mid k' in (st', rw p q, k'')

-- After any sequence of entered and left directories, at any depths and by any names, with clears
-- and requests for the context in between, log_get_context returns the directories that are then
-- open, from the deepest level down, and their number is `dir_stack_count`; its assertion holds
-- here and at each of the requests before.
pub log_get_context-dir_steps :
    (es : List DirEvent)
    → (st : Dirs) × (dir_steps es no_dirs ≡ some st)
      × ((st' : Dirs) × (log_get_context st ≡ some (dirs_below st.dir_max_depth st.dir_stack, st')))
      × (length (dirs_below st.dir_max_depth st.dir_stack) ≡ st.dir_stack_count)
log_get_context-dir_steps es =
    let (st, p, k) = dir_steps-Coherent es no_dirs no_dirs-Coherent in
    let (st', q, k') = log_get_context-Read st k in (st, p, (st', q), sym k.balanced.counted)
