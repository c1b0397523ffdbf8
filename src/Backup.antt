-- ===== src/Backup.antt =====
-- crates/backr-core/src/backup: validation of names, remote paths, snapshot names and listings.
pub mod Validate
pub mod Paths
pub mod Snapshots
pub mod Ssh
pub mod Restore
pub mod Cache
