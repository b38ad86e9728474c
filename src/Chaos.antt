-- ===== src/Chaos.antt =====
-- chaos: reversible faults, with a record on disk of what is still to be reverted.
pub mod Catalogue
pub mod State
pub mod Runner
pub mod Environment
pub mod Cli
mod Tests
