-- ===== src/Autoconf.antt =====
-- autoconf.c: the options of a configure script, without the dialogue that shows them.
pub mod Options
pub mod Help
pub mod Status
pub mod Reread
