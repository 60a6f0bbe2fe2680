-- ===== src/Task/Queue/Aborts.antt =====
-- task.c and main.c: what task_abort_queue does when a task of the queue calls it.
use maketool.Common.{
  ℕ, suc, ◌-◌, ◌≡◌, ◌≢◌, refl, ap, ◌∙◌, ◌⊎◌, Bool, true, false, none, some, List, [], ◌∷◌, arith,
  length, ◌==◌, ==_iff, if◌then◌else◌, ◌>>=◌, inl, inr, Option-cases,
}
use maketool.Task.Queue.{
  Task, Tasks, System, started, update, put, call, drop_task, task_destroy, remove, abort_loop,
  task_abort_queue, change_directory_start, task_run_builtin, run_head, begin_work, task_start,
  change_directory,
}
use maketool.Task.Queue.Sound.{update_self}
use maketool.Task.Queue.Safety.{begin_work_same, loop_round}

-- What task_dequeue leaves of the state.
abbrev dequeued : ℕ → Task → Tasks → Tasks
dequeued i t st = record (put i (record t { enqueued = false }) st) {
  task_all = remove i st.task_all;
}

-- task_dequeue and task_unref
drop_task_lem :
    (st : Tasks) (i : ℕ) (t : Task)
    → st.heap i ≡ some t
    → drop_task i st
      ≡ some (
          if t.refcount == 1
          then task_destroy i (dequeued i t st)
          else put i (record t { enqueued = false; refcount = t.refcount - 1 }) (dequeued i t st))
unfolding drop_task task_destroy
drop_task_lem st i t at = rw at (rw ((==_iff i i).1 refl) refl)

dropped_gone :
    (st : Tasks) (i j : ℕ) (t : Task) (b : Bool)
    → st.heap i ≡ none
    → i ≢ j
    → (if b
          then task_destroy j (dequeued j t st)
          else put j
              (record t { enqueued = false; refcount = t.refcount - 1 })
              (dequeued j t st)).heap
        i
      ≡ none
unfolding task_destroy
dropped_gone st i j t true gone n = ground (arith, gone)
dropped_gone st i j t false gone n = ground (arith, gone)

-- A task that is freed stays freed.
drop_task_gone :
    (st : Tasks) (i j : ℕ)
    → st.heap i ≡ none
    → (drop_task j st ≡ none) ⊎ ((st' : Tasks) × (drop_task j st ≡ some st') × (st'.heap i ≡ none))
drop_task_gone st i j gone = elim (Option-cases (st.heap j)) [
  | inl e ↦ inl (unfold drop_task in rw e refl)
  | inr (t, e) ↦ inr (
    _,
    drop_task_lem st j t e,
    dropped_gone st i j t (t.refcount == 1) gone (λ same. absurd (cc)),
  )
]

abort_loop_gone :
    (is : List ℕ) (st : Tasks) (i : ℕ)
    → st.heap i ≡ none
    → (abort_loop is st >>= λ st'. st'.heap i >>= λ task. some st') ≡ none
unfolding abort_loop
abort_loop_gone [] st i gone = rw gone refl
abort_loop_gone (j ∷ js) st i gone = elim (drop_task_gone st i j gone) [
  | inl e ↦ rw e refl
  | inr (st1, e, g) ↦ rw e (abort_loop_gone js st1 i g)
]

drop_single :
    (st : Tasks) (i : ℕ) (t : Task)
    → st.heap i ≡ some t
    → t.refcount ≡ 1
    → drop_task i st ≡ some (task_destroy i (dequeued i t st))
drop_single st i t at single =
    drop_task_lem st i t at
    ∙ ap
        (λ (n : ℕ). some (
          if n == 1
          then task_destroy i (dequeued i t st)
          else put i (record t { enqueued = false; refcount = t.refcount - 1 }) (dequeued i t st)))
        single

change_directory_start_fails :
    (sys : System) (st : Tasks) (i : ℕ) (is : List ℕ) (t : Task)
    → sys.has_directory i ≡ false
    → st.task_all ≡ i ∷ is
    → st.heap i ≡ some t
    → t.refcount ≡ 1
    → change_directory_start sys i st ≡ none
unfolding change_directory_start change_directory task_abort_queue abort_loop
change_directory_start_fails sys st i is t fails q at single = rw fails (
    ap (λ l. abort_loop l st >>= λ st'. st'.heap i >>= λ task. some st') q
    ∙ rw (drop_single st i t at single) freed)
  where
    freed :
        (abort_loop is (task_destroy i (dequeued i t st)) >>= λ st'.
        st'.heap i >>= λ task. some st')
        ≡ none
    freed = abort_loop_gone is (task_destroy i (dequeued i t st)) i (
        unfold task_destroy in
        update_self (update st.heap i (some (record t { enqueued = false }))) i none)

run_builtin_fails :
    (sys : System) (st : Tasks) (i : ℕ) (is : List ℕ) (t : Task)
    → sys.has_directory i ≡ false
    → st.task_all ≡ i ∷ is
    → st.heap i ≡ some t
    → t.refcount ≡ 1
    → t.command ≡ none
    → run_head sys i t st ≡ none
unfolding run_head task_run_builtin
run_builtin_fails sys st i is t fails q at single builtin =
    rw (builtin, run_head)
      (rw (change_directory_start_fails sys (call (started i) st) i is t fails q at single) refl)

-- When the task at the head of the queue is a builtin task that nobody else holds and whose
-- change_directory fails, since the directory cannot be entered, task_start faults: change_directory_start calls task_abort_queue, which
-- frees the task itself, and reads the task behind that.
pub task_start-change_directory :
    (sys : System) (st : Tasks) (i : ℕ) (is : List ℕ) (t : Task)
    → sys.has_directory i ≡ false
    → st.task_all ≡ i ∷ is
    → st.heap i ≡ some t
    → t.command ≡ none
    → t.pid ≡ none
    → t.refcount ≡ 1
    → task_start sys st ≡ none
unfolding task_start
task_start-change_directory sys st i is t fails q at builtin idle single =
    let (same_q, same_h) = begin_work_same st in
    let e =
      run_builtin_fails sys (begin_work st) i is t fails (same_q ∙ q) (ap (λ h. h i) same_h ∙ at)
        single builtin in
    rw (loop_round sys (suc (length st.task_all)) st i is t q at idle) (rw e refl)
