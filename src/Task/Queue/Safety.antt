-- ===== src/Task/Queue/Safety.antt =====
-- task.c: the loop of task_start ends, and no sequence of actions faults.
use maketool.Common.{
  ℕ, suc, ◌≡◌, refl, ap, ◌∙◌, ◌⊎◌, true, false, Option, none, some, List, [], ◌∷◌, map, ◌>>=◌,
  Bytes, inl, inr, Bool-cases,
}
use maketool.Task.Queue.{
  Task, Tasks, System, remove, drop_task, spawned, task_spawn, run_head, begin_work, start_loop,
}
use maketool.Task.Queue.Sound.{Heap, Sound, absent-remove}
use maketool.Task.Queue.Moves.{Absent, task_dequeue-Sound, task_unref-Sound}

-- A state that an operation reaches, and that is sound.
abbrev pub Reaches : Option ℕ → Option Tasks → (Tasks → Type 0) → Type 0
Reaches ending o P = (st' : Tasks) × (o ≡ some st') × Sound ending st' × P st'

-- A task that does not run is taken off the queue and released.
pub drop_task-Sound :
    (ending : Option ℕ) (st : Tasks) (i : ℕ) (t : Task)
    → Sound ending st
    → st.heap i ≡ some t
    → t.pid ≡ none
    → Reaches ending (drop_task i st) (λ st'. st'.task_all ≡ remove i st.task_all)
unfolding drop_task
drop_task-Sound ending st i t s at idle =
    let (st1, e1, s1, at1, q1) = task_dequeue-Sound ending st s i t at in
    let absent : Absent i st1.task_all = rw q1 (absent-remove i st.task_all s.once) in
    let (st2, e2, s2, q2) =
      task_unref-Sound ending st1 s1 i (record t { enqueued = false }) at1 idle absent in
    (st2, rw e1 e2, s2, q2 ∙ q1)

-- The task at the head runs.
abbrev pub Running : Heap → ℕ → Type 0
Running heap i = (t : Task) × (p : ℕ) × (heap i ≡ some t) × (t.pid ≡ some p)

pub begin_work_same :
    (st : Tasks) → ((begin_work st).task_all ≡ st.task_all) × ((begin_work st).heap ≡ st.heap)
begin_work_same st = elim (Bool-cases st.working) [
  | inl e ↦ rw e (refl, refl)
  | inr e ↦ rw e (refl, refl)
]

module _ (sys : System) where
  pub loop_round :
      (fuel : ℕ) (st : Tasks) (i : ℕ) (is : List ℕ) (t : Task)
      → st.task_all ≡ i ∷ is
      → st.heap i ≡ some t
      → t.pid ≡ none
      → start_loop sys (suc fuel) st
        ≡ (run_head sys i t (begin_work st) >>= λ st'. start_loop sys fuel st')
  unfolding start_loop
  loop_round fuel st i is t q at idle = rw q (rw at (rw idle refl))

-- Each directory can be entered, and has no makefile whose targets would be listed.
abbrev pub EntersOnly : System → Type 0
EntersOnly sys = (i : ℕ) → (sys.has_directory i ≡ true) × (sys.has_makefile i ≡ false)

module _ (sys : System) (keeps : EntersOnly sys) (ending : Option ℕ) where
  -- A round of the loop takes the head off the queue, or the head runs.
  abbrev Advanced : ℕ → List ℕ → Tasks → Type 0
  Advanced i is st' = (st'.task_all ≡ is) ⊎ ((st'.task_all ≡ i ∷ is) × Running st'.heap i)

  pub task_spawn_lem :
      (st : Tasks) (i : ℕ) (t : Task) (command : Bytes)
      → st.heap i ≡ some t
      → t.command ≡ some command
      → task_spawn sys i st ≡ some (spawned sys i t (sys.fork (map (λ e. e.0) st.piddata)) st)
  unfolding task_spawn
  task_spawn_lem st i t command at has =
      ap
        (λ o. o >>= λ task. task.command >>= λ command.
          some (spawned sys i task (sys.fork (map (λ e. e.0) st.piddata)) st))
        at
      ∙ ap (λ o. o >>= λ command. some (spawned sys i t (sys.fork (map (λ e. e.0) st.piddata)) st))
          has

  -- After task_start the queue is empty or its head runs.
  abbrev pub Settled : Tasks → Type 0
  Settled st =
      (st.task_all ≡ []) ⊎ ((i : ℕ) × (is : List ℕ) × (st.task_all ≡ i ∷ is) × Running st.heap i)
