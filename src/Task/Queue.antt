-- ===== src/Task/Queue.antt =====
-- task.c: the queue of tasks, with glib_extra.c, which calls a function when a child process ends,
-- and the callbacks of main.c that act on the queue. A Task is known by a number, as by its pointer;
-- the heap has nothing at a number whose task is freed, and a fault, `none`, is an access to it or a
-- failed assertion. What a task prints is read in Task.Input.
pub mod Sound
pub mod Moves
pub mod Processes
pub mod Safety
pub mod Actions
pub mod Aborts
use maketool.Common.{
  ℕ, zero, suc, ◌+◌, ◌-◌, Bool, true, false, ◌&&◌, Option, none, some, List, [], ◌∷◌, ◌++◌, length,
  map, ◌==◌, if◌then◌else◌, ◌>>=◌, Bytes,
}

-- struct _Task: a builtin task has no command, and a task that does not run has no pid
pub record Task : Type 0 where
  pub refcount : ℕ
  pub command : Option Bytes
  pub pid : Option ℕ
  pub enqueued : Bool
  pub paused : Bool

-- What the task package calls: the callbacks of a task, those of task_init, and free.
pub data Event : Type 0 where
  work_start work_end : Event
  started reaped destroyed : ℕ → Event

-- The static variables of task.c and of glib_extra.c.
pub record Tasks : Type 0 where
  pub heap : ℕ → Option Task
  pub next : ℕ
  pub task_all : List ℕ
  pub working : Bool
  pub piddata : List (ℕ × ℕ)
  pub events : List Event

-- What the system and the user decide: the pid that fork gives, if it can, beside those of the
-- children in the table; for a builtin task, whether its directory can be entered, whether there is a
-- makefile there to make or to list the targets of, and what happens to the tasks while that runs in
-- a main loop of its own (task_run); and whether make_reap starts the user's command after a task.
pub record System : Type 0 where
  pub fork : List ℕ → Option ℕ
  pub has_directory : ℕ → Bool
  pub has_makefile : ℕ → Bool
  pub main_loop : ℕ → Tasks → Option Tasks
  pub finish_command : ℕ → Bool

abbrev pub update : (ℕ → Option Task) → ℕ → Option Task → ℕ → Option Task
update heap i t j = if i == j then t else heap j

abbrev pub put : ℕ → Task → Tasks → Tasks
put i t st = record st { heap = update st.heap i (some t) }

abbrev pub call : Event → Tasks → Tasks
call e st = record st { events = st.events ++ e ∷ [] }

-- task_create, on a new place of the heap
unfoldable pub task_create : Option Bytes → Tasks → ℕ × Tasks
task_create command st =
    let task : Task = record {
      refcount = 1;
      command = command;
      pid = none;
      enqueued = false;
      paused = false;
    } in
    (st.next, record (put st.next task st) { next = st.next + 1 })

-- task_enqueue
unfoldable pub task_enqueue : ℕ → Tasks → Option Tasks
task_enqueue i st = st.heap i >>= λ task.
    some (record (put i (record task { enqueued = true }) st) { task_all = st.task_all ++ i ∷ [] })

-- task_destroy
unfoldable pub task_destroy : ℕ → Tasks → Tasks
task_destroy i st = call (destroyed i) (record st { heap = update st.heap i none })

-- task_unref
unfoldable pub task_unref : ℕ → Tasks → Option Tasks
unfolding task_destroy
task_unref i st = st.heap i >>= λ task. some (
    if task.refcount == 1
    then task_destroy i st
    else put i (record task { refcount = task.refcount - 1 }) st)

-- task_ref
unfoldable pub task_ref : ℕ → Tasks → Option Tasks
task_ref i st = st.heap i >>= λ task. some (put i (record task { refcount = task.refcount + 1 }) st)

-- g_list_remove
unfoldable pub remove : ℕ → List ℕ → List ℕ
remove i [] = []
remove i (j ∷ js) = if i == j then js else j ∷ remove i js

-- task_dequeue
unfoldable pub task_dequeue : ℕ → Tasks → Option (Bool × Tasks)
task_dequeue i st = st.heap i >>= λ task. some (
  task.enqueued,
  record (put i (record task { enqueued = false }) st) { task_all = remove i st.task_all },
)

-- what callers do with a task that is over: task_dequeue and task_unref
unfoldable pub drop_task : ℕ → Tasks → Option Tasks
unfolding task_dequeue task_unref
drop_task i st = task_dequeue i st >>= λ (was_enqueued, st'). task_unref i st'

-- task_abort_queue, with a round for each task of the queue
unfoldable pub abort_loop : List ℕ → Tasks → Option Tasks
abort_loop [] st = some st
abort_loop (i ∷ is) st = drop_task i st >>= λ st'. abort_loop is st'

unfoldable pub task_abort_queue : Tasks → Option Tasks
unfolding abort_loop
task_abort_queue st = abort_loop st.task_all st

-- the hash table `g_unix_piddata`
unfoldable pub g_hash_table_remove : ℕ → List (ℕ × ℕ) → List (ℕ × ℕ)
g_hash_table_remove p [] = []
g_hash_table_remove p ((q, i) ∷ table) =
    if p == q then g_hash_table_remove p table else (q, i) ∷ g_hash_table_remove p table

unfoldable pub g_hash_table_lookup : ℕ → List (ℕ × ℕ) → Option ℕ
g_hash_table_lookup p [] = none
g_hash_table_lookup p ((q, i) ∷ table) = if p == q then some i else g_hash_table_lookup p table

-- g_unix_add_reap_func
unfoldable pub g_unix_add_reap_func : ℕ → ℕ → Tasks → Tasks
unfolding g_hash_table_remove
g_unix_add_reap_func p i st = record st { piddata = (p, i) ∷ g_hash_table_remove p st.piddata }

-- task_current
unfoldable pub task_current : Tasks → Option (Option ℕ)
task_current st = elim st.task_all [
  | [] ↦ some none
  | i ∷ is ↦ st.heap i >>= λ task. some (elim task.pid [ none ↦ none | some p ↦ some i ])
]

-- task_is_running
unfoldable pub task_is_running : Tasks → Option Bool
unfolding task_current
task_is_running st = task_current st >>= λ curr. some (elim curr [ none ↦ false | some i ↦ true ])

-- task_resume_current, without the signal
unfoldable pub task_resume_current : Tasks → Option Tasks
unfolding task_current
task_resume_current st = task_current st >>= λ curr. elim curr [
  | none ↦ some st
  | some i ↦ st.heap i >>= λ task. some (put i (record task { paused = false }) st)
]

-- task_is_paused
unfoldable pub task_is_paused : Tasks → Option Bool
unfolding task_current
task_is_paused st = task_current st >>= λ curr. elim curr [
  | none ↦ some false
  | some i ↦ st.heap i >>= λ task. some task.paused
]

abbrev pub begin_work : Tasks → Tasks
begin_work st = if st.working then st else record (call work_start st) { working = true }

abbrev pub is_empty : List ℕ → Bool
is_empty [] = true
is_empty (i ∷ is) = false

-- the end of task_start
abbrev pub end_work : Tasks → Tasks
end_work st =
    if st.working && is_empty st.task_all then record (call work_end st) { working = false } else st

-- What main.c and the system do to the package, one after the other: a task is created and
-- enqueued, or created and spawned; task_start is called; a process ends or is stopped.
pub data Action : Type 0 where
  enqueue : Option Bytes → Action
  spawn : Bytes → Action
  start : Action
  ended stopped : ℕ → Action

module _ (sys : System) where
  -- what task_spawn does with the pid that fork has given
  unfoldable pub spawned : ℕ → Task → Option ℕ → Tasks → Bool × Tasks
  unfolding g_unix_add_reap_func
  spawned i task none st = (false, call (started i) (put i (record task { pid = none }) st))
  spawned i task (some p) st =
      (true, call (started i) (g_unix_add_reap_func p i (put i (record task { pid = some p }) st)))

  -- task_spawn
  unfoldable pub task_spawn : ℕ → Tasks → Option (Bool × Tasks)
  unfolding spawned
  task_spawn i st = st.heap i >>= λ task.
      task.command >>= λ command. some (spawned i task (sys.fork (map (λ e. e.0) st.piddata)) st)

  -- list_targets in the foreground, as far as it acts on tasks
  unfoldable pub list_targets : ℕ → Tasks → Option Tasks
  list_targets i st = if sys.has_makefile i then sys.main_loop i st else some st

  -- change_directory in the foreground, as far as it acts on tasks
  unfoldable pub change_directory : ℕ → Tasks → Option (Bool × Tasks)
  unfolding list_targets
  change_directory i st =
      if sys.has_directory i
      then (list_targets i st >>= λ st'. some (true, st'))
      else some (false, st)

  -- change_directory_start, which reads the task once more at its end
  unfoldable pub change_directory_start : ℕ → Tasks → Option Tasks
  unfolding change_directory
  change_directory_start i st = change_directory i st >>= λ (entered, st').
      (if entered then some st' else task_abort_queue st') >>= λ st''.
      st''.heap i >>= λ task. some st''

  -- task_run_builtin
  unfoldable pub task_run_builtin : ℕ → Tasks → Option Tasks
  unfolding change_directory_start task_dequeue
  task_run_builtin i st = change_directory_start i (call (started i) st) >>= λ st'.
      task_dequeue i st' >>= λ (was_enqueued, st''). some st''

  -- the loop of task_start, from the task at the head of the queue on
  unfoldable pub run_head : ℕ → Task → Tasks → Option Tasks
  unfolding task_run_builtin task_unref task_spawn drop_task
  run_head i task st = elim task.command [
    | none ↦ task_run_builtin i st >>= λ st'. task_unref i st'
    | some command ↦ task_spawn i st >>= λ (done, st'). if done then some st' else drop_task i st'
  ]

  -- task_start up to its last test, for as many rounds as there is fuel
  unfoldable pub start_loop : ℕ → Tasks → Option Tasks
  unfolding run_head
  start_loop zero st = none
  start_loop (suc fuel) st = elim st.task_all [
    | [] ↦ some st
    | i ∷ is ↦ st.heap i >>= λ task. elim task.pid [
      | some p ↦ some st
      | none ↦ run_head i task (begin_work st) >>= λ st'. start_loop fuel st'
    ]
  ]

  -- task_start; a round takes a task off the queue or gives it a pid, so this fuel is enough
  unfoldable pub task_start : Tasks → Option Tasks
  unfolding start_loop
  task_start st = start_loop (suc (suc (length st.task_all))) st >>= λ st'. some (end_work st')

  -- make_reap, as far as it acts on the queue: it may enqueue a task of finish_prog_task
  unfoldable pub make_reap : ℕ → Tasks → Option Tasks
  unfolding task_create task_enqueue
  make_reap i st =
      let st' : Tasks = call (reaped i) st in
      let new : ℕ × Tasks = task_create (some []) st' in
      if sys.finish_command i then task_enqueue new.0 new.1 else some st'

  -- task_reap_func for a process that has ended, once the task has no pid
  unfoldable pub finish_task : ℕ → Tasks → Option Tasks
  unfolding task_dequeue make_reap task_unref task_start
  finish_task i st = task_dequeue i st >>= λ (was_enqueued, st1). make_reap i st1 >>= λ st2.
      task_unref i st2 >>= λ st3. if was_enqueued then task_start st3 else some st3

  -- task_reap_func for a process that has ended
  unfoldable pub task_reap_func : ℕ → Tasks → Option Tasks
  unfolding finish_task
  task_reap_func i st = st.heap i >>= λ task. finish_task i (put i (record task { pid = none }) st)

  -- g_unix_dispatch_reapers for one process that wait3 reports: it has ended, or it is stopped
  unfoldable pub reap_ended : ℕ → Tasks → Option Tasks
  unfolding task_reap_func g_hash_table_remove
  reap_ended p st = elim (g_hash_table_lookup p st.piddata) [
    | none ↦ some st
    | some i ↦ task_reap_func i st >>= λ st'.
        some (record st' { piddata = g_hash_table_remove p st'.piddata })
  ]

  unfoldable pub reap_stopped : ℕ → Tasks → Option Tasks
  reap_stopped p st = elim (g_hash_table_lookup p st.piddata) [
    | none ↦ some st
    | some i ↦ st.heap i >>= λ task. some (put i (record task { paused = true }) st)
  ]

  unfoldable pub act : Action → Tasks → Option Tasks
  unfolding task_create task_enqueue task_spawn reap_ended reap_stopped task_start
  act (enqueue command) st =
      let new : ℕ × Tasks = task_create command st in task_enqueue new.0 new.1
  act (spawn command) st =
      let new : ℕ × Tasks = task_create (some command) st in
      task_spawn new.0 new.1 >>= λ (done, st'). some st'
  act start st = task_start st
  act (ended p) st = reap_ended p st
  act (stopped p) st = reap_stopped p st

  unfoldable pub act_all : List Action → Tasks → Option Tasks
  unfolding act
  act_all [] st = some st
  act_all (a ∷ rest) st = act a st >>= λ st'. act_all rest st'

-- The state when the program starts.
abbrev pub no_tasks : Tasks
no_tasks = record {
  heap = λ i. none;
  next = 0;
  task_all = [];
  working = false;
  piddata = [];
  events = [];
}
