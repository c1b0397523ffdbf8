-- ===== src/Daemon.antt =====
-- backrd: the state that the daemon's tasks share, and the tasks that step it.
pub mod State
pub mod Tasks
pub mod Exclusion
pub mod Updates
