-- ===== src/Task.antt =====
-- task.c: the child processes that the program runs.
pub mod Input
pub mod Queue
