-- ===== src/Tests/QueueTests.antt =====
-- Runs of the queue of task.c.
use maketool.Common.{
  ◌+◌, ◌≡◌, refl, ◌==◌, true, false, none, some, List, [], ◌∷◌, length, codes, if◌then◌else◌,
}
use maketool.Task.Queue.{
  Task, Tasks, System, Action, enqueue, spawn, start, ended, stopped, task_start, no_tasks, update,
}
use maketool.Task.Queue.Sound.{Sound}
use maketool.Task.Queue.Aborts.{task_start-change_directory}

-- Each process has a number of its own, a directory can be entered, and each task has a successor.
abbrev counting : System
counting = record {
  fork = λ pids. some (100 + length pids);
  has_directory = λ i. true;
  has_makefile = λ i. false;
  main_loop = λ i st. none;
  finish_command = λ i. i == 1;
}

abbrev some_actions : List Action
some_actions =
    enqueue none
    ∷ enqueue (some (codes "make"))
    ∷ start
    ∷ spawn (codes "vi")
    ∷ stopped 100
    ∷ ended 101
    ∷ ended 100
    ∷ ended 100
    ∷ []

-- The same with a directory that cannot be entered.
abbrev locked : System
locked = record counting { has_directory = λ i. false }

abbrev builtin_task : Task
builtin_task = record { refcount = 1; command = none; pid = none; enqueued = true; paused = false }

abbrev one_builtin : Tasks
one_builtin = record no_tasks {
  heap = update (λ i. none) 0 (some builtin_task);
  next = 1;
  task_all = 0 ∷ [];
}

task_start-change_directory_example : task_start locked one_builtin ≡ none
task_start-change_directory_example =
    task_start-change_directory locked one_builtin 0 [] builtin_task refl refl refl refl refl refl

-- A builtin task at the head, a command behind it, and the process of an editor.
abbrev command_task : Task
command_task = record builtin_task { command = some (codes "make") }

abbrev editor_task : Task
editor_task = record {
  refcount = 1;
  command = some (codes "vi");
  pid = some 100;
  enqueued = false;
  paused = false;
}

abbrev three_tasks : Tasks
three_tasks = record no_tasks {
  heap = λ i.
      if i == 0
      then some builtin_task
      else if i == 1
      then some command_task
      else if i == 2
      then some editor_task
      else none;
  next = 3;
  task_all = 0 ∷ 1 ∷ [];
  piddata = (100, 2) ∷ [];
}
