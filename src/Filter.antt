-- ===== src/Filter.antt =====
-- filter.c and filter.h: the output filters, which classify each line that a build prints.
pub mod Types
pub mod Leads
pub mod Load
pub mod Tables
pub mod Apply
pub mod Checks
pub mod Index
pub mod Builds
pub mod Machine
