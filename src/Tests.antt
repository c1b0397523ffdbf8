-- ===== src/Tests.antt =====
-- Tests on concrete inputs, and each theorem at an input that meets its hypotheses.
mod Backup
mod Trust
mod Pairing
mod Update
mod Daemon
mod Snapshots
mod Ipc
mod Schedule
mod Client
mod Restore
mod Cache
mod Dispatch
mod Discovery
mod Host
mod Ssh
mod Updates
mod Worker
mod Store
mod Windows
mod CommandLine
