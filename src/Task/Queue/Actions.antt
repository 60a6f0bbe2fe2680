-- ===== src/Task/Queue/Actions.antt =====
-- task.c: what the user and the system do, one after the other, never faults.
use maketool.Common.{false, Option, none, Bytes}
use maketool.Task.Queue.{Task}
use maketool.Task.Queue.Sound.{Sound}

abbrev fresh : Option Bytes → Task
fresh command = record {
  refcount = 1;
  command = command;
  pid = none;
  enqueued = false;
  paused = false;
}
