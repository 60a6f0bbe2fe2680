-- ===== src/Util.antt =====
-- The text, path and time helpers of util.c and util.h; each group of functions is a module.
pub mod Escape
pub mod Expand
pub mod Paths
pub mod Elapsed
