-- ===== src/Lib.antt =====
-- Backr: verification of the core of the backup program.
--
-- Base holds what the parts share: Boolean tests, lists over the native numbers, results, and Rust's
-- `str` as a list of code points with the methods of the standard library that the program calls.
--
-- Backup models crates/backr-core/src/backup: Backup.Validate is validate.rs, Backup.Paths the joining
-- of remote paths in ssh.rs and rsync.rs, Backup.Snapshots the snapshot names and the two listings of
-- ssh.rs; Backup.Paths.Containment resolves a path as a POSIX system does. Error messages are kept
-- without the text they quote, or as constructors. Backup.Restore is the restores of
-- crates/backrd/src/ipc/handlers.rs over the file system of Update.Files, and Backup.Cache is
-- crates/backr-core/src/project_snapshot_cache.rs with the listing that reads it; Backup.Restore.Projects
-- is the restore of all projects, and Backup.Cache.Probe the listing that asks the remote host.
-- Backup.Ssh is the commands over ssh of crates/backr-core/src/backup/ssh.rs, with the outcome of each,
-- and Backup.Ssh.Operations the calls that others make of them:
-- what the local `ssh` does is an argument, an outcome `none` is a slice that panics, and
-- Backup.Ssh.Shell is how a POSIX shell splits a line into words, with what the crate shell_escape
-- promises of its escaping.
--
-- Trust models crates/backr-core/src/host_trust.rs: Keys reads one public-key line, File is the
-- authorized_keys file as an optional text, threaded through `host_append_authorized_pubkey` and
-- `host_remove_authorized_pubkey`, Torn its appends that fail in the middle, Quote is the script of
-- sudo commands. What the machine answers (the account, permissions, failing writes, sudo and the
-- privileged helper) is the record `HostEnv`, an argument; so are the classes of the regular-expression
-- library. No other process writes the file
-- during a call.
--
-- Pairing models crates/backr-core/src/pairing: Code is the session of code.rs, Listener the requests
-- and the loop of listener.rs with the state access of crates/backrd/src/daemon_state.rs. The store of
-- trusted keys is any state with an append step; HTTP and JSON are arguments, and the requests of a
-- window are a list. Client is client.rs, with known_hosts as an optional text.
--
-- Update models crates/backr-core/src/update: Release is release.rs, Engine is mod.rs, Swap is swap.rs
-- over the file system of Files, where a path is its components and each call can fail. Downloads, the
-- hash and the service are arguments. Engine hands its verified binaries to a swap that is an argument.
-- Worker is crates/backr-cli/src/update_worker.rs with the daemon's status that it asks for.
--
-- Daemon models crates/backrd/src/daemon_state.rs, scheduler.rs and the handlers of ipc/handlers.rs that
-- change the shared state: State holds the slots, Tasks the steps of the tasks in flight, one for each
-- lock, flag or file that the code touches, and `run` any interleaving of them. A step takes what the
-- world answers as an argument. Its times are seconds. Updates is the handlers that start the
-- worker for updates: a poke is two steps, the look and what it records, and every other handler, and the
-- end of each check, is one.
--
-- Ipc models crates/backr-core/src/ipc_protocol.rs and error.rs, with the mapping of errors: Requests
-- is the connection of crates/backrd/src/ipc/mod.rs over any dispatcher, Client one call of
-- src-tauri/src/ipc_client.rs, CommandLine the calls of crates/backr-cli/src/client.rs. What a
-- connection reads is a list; the room of the channel to the writer
-- is a number. The JSON library is the record `Json`, an argument.
--
-- Ipc.Value is a JSON value. Dispatch is the table of crates/backrd/src/ipc/handlers.rs, with what each
-- handler reads of its parameters and checks before its work; the work itself is in the parts above.
-- Callers has the commands of src-tauri/src/commands and the subcommands of crates/backr-cli/src/main.rs,
-- each as the calls that it sends, with those of the worker that an update runs.
--
-- Pairing.Windows models the pairing handlers of handlers.rs and the end of a listener: the two slots of
-- a window under any interleaving of the tasks that write them.
--
-- Schedule models crates/backr-core/src/scheduler.rs, with times in nanoseconds. A loop is its delay,
-- its period, and whether it was stopped; restarts follow one another.
--
-- Store models crates/backr-core/src/config.rs over the files of Update.Files: the loads and saves of
-- config.toml, in which each call can fail.
--
-- Host models crates/backr-core/src/host_disk_inventory.rs; what `du` prints is an argument, and its
-- times are nanoseconds. Pairing.Discovery is the loop of pairing/discovery.rs over the responses.
--
-- Loops are structural recursion on their lists, or on the number of rounds that a bounded loop has
-- left (the 9999 suffixes of a restore, the 30 polls of the worker), so no definition uses fuel.
--
-- Not modelled: processes, the transport of sockets and desktop integration, whose code only calls
-- libraries; and host_config.rs of backr-core.
pub mod Base
pub mod Backup
pub mod Trust
pub mod Pairing
pub mod Update
pub mod Daemon
pub mod Tests
pub mod Ipc
pub mod Schedule
pub mod Store
pub mod Host
pub mod Dispatch
pub mod Callers
