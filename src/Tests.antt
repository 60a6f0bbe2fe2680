-- ===== src/Tests.antt =====
-- Concrete runs: the theorems applied to inputs for which their hypotheses hold.
mod TextTests
mod FilterTests
mod LogTests
mod FileTests
mod PrintTests
mod TaskTests
mod QueueTests
mod SearchTests
mod ErrorTests
mod AutoconfTests
mod PreferencesTests
