-- ===== src/Log.antt =====
-- log.c and log.h: the log of a build.
pub mod Dirs
pub mod Records
pub mod Nodes
pub mod Errors
pub mod Apply
pub mod Files
pub mod Filenames
pub mod Lines
