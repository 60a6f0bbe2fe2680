-- ===== src/Makes.antt =====
-- makesys.c, makeprog.c, gmake.c, pmake.c and sunmake.c: what the program knows of make programs and
-- of the systems that write makefiles.
pub mod System
pub mod Targets
