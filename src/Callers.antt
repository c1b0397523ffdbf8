-- ===== src/Callers.antt =====
-- The callers of the daemon: the commands of the desktop application in src-tauri/src/commands, and
-- the subcommands of the command line in backr-cli/src/main.rs. Each is the call that it sends.
use backr.Base.{
  Bool-eq, Result-cases, All-lines, lines-lack_newline, ap₂, trim_idem, trim-strip_cr,
  strip_cr_of_lacks, All-trim, All-trim_start_by, All-trim_end_by, lines-append, lines_line,
  map-trim-lines-finish, strip_prefix, splitn_from, splitn, ends_with_char, split-nil,
  split-cons_sep, ltb, leb, ◌==◌, if◌then◌else◌, ==_iff, ==_self, Bool-cases, Option-cases, length,
  take, head?, any, filter, length-append, length-filter, filter-append, All, All-append,
  All-append_iff, All-map, All-filter, Text, codes, eq_text, is_empty, contains_char, starts_with,
  contains, is_whitespace, trim_start_by, trim_end_by, trim, split_from, split, join, replace_char,
  strip_cr, lines_from, lines, is_digit, digits_from, parse_uint, eq_text→≡, eq_text_self,
  eq_text_iff, contains_char-eq-false_iff, split_from-append, split-append, split_from_of_lacks,
  trim_end_by_parts, trim_start_by_parts, trim_start_by-cons, trim_end_by-concat, is_empty-concat,
  ne_of_eq_text, eq_text_of_ne, ne_nil_of_is_empty, is_empty_of_ne_nil, Result, ok, err, map_err,
  ok_or, to_option, >>=-eq-ok, ℕ, zero, suc, ◌+◌, ◌-◌, ◌*◌, ◌/◌, ◌%◌, ◌^◌, ◌≤◌, ◌<◌, String, ◌≡◌,
  refl, sym, ap, ◌∙◌, subst, ◌≢◌, ◌↔◌, ◌⊎◌, inl, inr, Bool, true, false, ◌&&◌, ◌||◌, not, Option,
  none, some, List, [], ◌∷◌, ◌++◌, map, reverse, append-nil, append_assoc, map-append,
  reverse-append, arith,
}
use backr.Ipc.Value.{Value, null, bool, number, string, object, Fields, end, field, optional}
use backr.Dispatch.{Serde}
pub mod Reached

-- One call over the socket, and whether the caller shows the progress events.
pub record Call : Type 0 where
  pub method : Text
  pub params : Value
  pub streams : Bool

abbrev send : String → Fields → Call
send method fields = record { method = codes method; params = object fields; streams = false }

abbrev send_with_progress : String → Fields → Call
send_with_progress method fields = record {
  method = codes method;
  params = object fields;
  streams = true;
}

abbrev one : String → Value → Fields
one key v = field (codes key) v end

-- activity_cmd.rs
pub data ActivityCmd : Type 0 where
  get_activity_series : ActivityCmd

unfoldable pub activity_call : ActivityCmd → Call
activity_call get_activity_series = send "get_activity_series" end

-- backup_cmd.rs
pub data BackupCmd : Type 0 where
  execute_backup_cycle : Option Text → BackupCmd
  spawn_backup_job : Option Text → BackupCmd
  run_scheduled_backup : BackupCmd

unfoldable pub backup_call : BackupCmd → Call
backup_call (execute_backup_cycle project) =
    send "run_backup" (one "project" (optional string project))
backup_call (spawn_backup_job project) =
    send_with_progress "run_backup" (one "project" (optional string project))
backup_call run_scheduled_backup = send_with_progress "run_backup" (one "project" null)

-- config_cmd.rs
pub data ConfigCmd (C : Type 0) : Type 0 where
  get_config : ConfigCmd C
  save_config : C → ConfigCmd C
  test_connection : Text → Text → Text → Option ℕ → ConfigCmd C

unfoldable pub config_call : {Config : Type 0} → (Config → Value) → ConfigCmd Config → Call
config_call to_value get_config = send "get_config" end
config_call to_value (save_config next) = send "save_config" (one "config" (to_value next))
config_call to_value (test_connection host user key_path ssh_port) = send "test_connection" (
    field (codes "host") (string host) (
      field (codes "user") (string user)
        (field (codes "key_path") (string key_path) (one "ssh_port" (optional number ssh_port)))))

-- host_cmd.rs
pub data HostCmd : Type 0 where
  resolve_shell_bootstrap : HostCmd
  host_list_snapshot_projects : Text → HostCmd
  host_volume_summary : Text → HostCmd
  host_disk_inventory : Text → Bool → HostCmd
  host_trust_status : HostCmd
  host_append_authorized_pubkey : Text → HostCmd
  host_list_authorized_pubkeys : HostCmd
  host_remove_authorized_pubkey : Text → HostCmd

unfoldable pub host_call : HostCmd → Call
host_call resolve_shell_bootstrap = send "resolve_shell_bootstrap" end
host_call (host_list_snapshot_projects backup_root) =
    send "host_list_snapshot_projects" (one "backup_root" (string backup_root))
host_call (host_volume_summary backup_root) =
    send "host_volume_summary" (one "backup_root" (string backup_root))
host_call (host_disk_inventory backup_root force_refresh) =
    send "host_disk_inventory"
      (field (codes "backup_root") (string backup_root) (one "force_refresh" (bool force_refresh)))
host_call host_trust_status = send "host_trust_status" end
host_call (host_append_authorized_pubkey pubkey_line) =
    send "host_append_authorized_pubkey" (one "pubkey_line" (string pubkey_line))
host_call host_list_authorized_pubkeys = send "host_list_authorized_pubkeys" end
host_call (host_remove_authorized_pubkey raw_line) =
    send "host_remove_authorized_pubkey" (one "raw_line" (string raw_line))

-- pairing_cmd.rs
pub data PairingCmd (D : Type 0) : Type 0 where
  start_pairing : PairingCmd D
  stop_pairing : PairingCmd D
  pairing_status : PairingCmd D
  discover_hosts : PairingCmd D
  pair_with_host : Text → Text → PairingCmd D
  confirm_pairing : D → PairingCmd D

unfoldable pub pairing_call : {Draft : Type 0} → (Draft → Value) → PairingCmd Draft → Call
pairing_call to_value start_pairing = send "start_pairing" end
pairing_call to_value stop_pairing = send "stop_pairing" end
pairing_call to_value pairing_status = send "pairing_status" end
pairing_call to_value discover_hosts = send "discover_hosts" end
pairing_call to_value (pair_with_host address code) =
    send "pair_with_host" (field (codes "address") (string address) (one "code" (string code)))
pairing_call to_value (confirm_pairing draft) =
    send "confirm_pairing" (one "draft" (to_value draft))

-- project_cmd.rs
pub data ProjectCmd : Type 0 where
  list_projects : Option Bool → ProjectCmd
  get_backup_status : ProjectCmd

unfoldable pub project_call : ProjectCmd → Call
project_call (list_projects probe_remote) =
    send "list_projects" (one "probe_remote" (optional bool probe_remote))
project_call get_backup_status = send "get_backup_status" end

-- snapshot_cmd.rs
pub data SnapshotCmd : Type 0 where
  list_snapshots : Text → SnapshotCmd
  list_files : Text → Text → Text → SnapshotCmd
  read_snapshot_file : Text → Text → Text → SnapshotCmd
  restore_snapshot : Text → Text → SnapshotCmd
  restore_all_snapshots : Text → SnapshotCmd
  restore_all_projects : SnapshotCmd

unfoldable pub snapshot_call : SnapshotCmd → Call
snapshot_call (list_snapshots project) = send "list_snapshots" (one "project" (string project))
snapshot_call (list_files project snapshot path) = send "list_files" (
    field (codes "project") (string project)
      (field (codes "snapshot") (string snapshot) (one "path" (string path))))
snapshot_call (read_snapshot_file project snapshot relative_path) = send "read_snapshot_file" (
    field (codes "project") (string project)
      (field (codes "snapshot") (string snapshot) (one "relative_path" (string relative_path))))
snapshot_call (restore_snapshot project snapshot) =
    send_with_progress "restore_snapshot"
      (field (codes "project") (string project) (one "snapshot" (string snapshot)))
snapshot_call (restore_all_snapshots project) =
    send_with_progress "restore_all_snapshots" (one "project" (string project))
snapshot_call restore_all_projects = send_with_progress "restore_all_projects" end

-- system_cmd.rs
pub data SystemCmd : Type 0 where
  get_system_info : SystemCmd

unfoldable pub system_call : SystemCmd → Call
system_call get_system_info = send "get_system_info" end

-- update_cmd.rs
pub data UpdateCmd : Type 0 where
  get_update_status : UpdateCmd
  get_update_settings : UpdateCmd
  set_update_settings : Bool → UpdateCmd
  apply_update : UpdateCmd

unfoldable pub update_call : UpdateCmd → Call
update_call get_update_status = send "get_update_status" end
update_call get_update_settings = send "get_update_settings" end
update_call (set_update_settings auto_update) =
    send "set_update_settings" (one "auto_update" (bool auto_update))
update_call apply_update = send "apply_update" end

-- the commands of the desktop application, by their files, and the poke that its start sends
pub data Desktop (C D : Type 0) : Type 0 where
  activity_cmd : ActivityCmd → Desktop C D
  backup_cmd : BackupCmd → Desktop C D
  config_cmd : ConfigCmd C → Desktop C D
  host_cmd : HostCmd → Desktop C D
  pairing_cmd : PairingCmd D → Desktop C D
  project_cmd : ProjectCmd → Desktop C D
  snapshot_cmd : SnapshotCmd → Desktop C D
  system_cmd : SystemCmd → Desktop C D
  update_cmd : UpdateCmd → Desktop C D
  auto_update_tick : Desktop C D

module _ {C D : Type 0} (serde : Serde C D) where
  unfoldable pub call_of : Desktop C D → Call
  unfolding activity_call backup_call config_call host_call pairing_call project_call snapshot_call
      system_call update_call
  call_of (activity_cmd c) = activity_call c
  call_of (backup_cmd c) = backup_call c
  call_of (config_cmd c) = config_call serde.config_to_value c
  call_of (host_cmd c) = host_call c
  call_of (pairing_cmd c) = pairing_call serde.draft_to_value c
  call_of (project_cmd c) = project_call c
  call_of (snapshot_cmd c) = snapshot_call c
  call_of (system_cmd c) = system_call c
  call_of (update_cmd c) = update_call c
  call_of auto_update_tick = send "auto_update_tick" end

pub data AutoupdateAction : Type 0 where
  on : AutoupdateAction
  off : AutoupdateAction
  status : AutoupdateAction

pub data TrustAction : Type 0 where
  add : Text → TrustAction
  list : TrustAction
  remove : Text → TrustAction

pub data ConfigAction : Type 0 where
  get : Text → ConfigAction
  set : Text → Text → ConfigAction

-- `Commands` of the command line
pub data Commands : Type 0 where
  backup : Option Text → Commands
  show_status : Commands
  list_of : Option Text → Commands
  config : ConfigAction → Commands
  pair : Commands
  snapshots : Option Text → Commands
  trust : TrustAction → Commands
  update : Bool → Bool → Commands
  autoupdate : AutoupdateAction → Commands

-- the call of a subcommand, if it makes one over the asynchronous client
unfoldable pub cmd_call : Commands → Option Call
cmd_call (backup none) = some (send_with_progress "run_backup" end)
cmd_call (backup (some p)) = some (send_with_progress "run_backup" (one "project" (string p)))
cmd_call show_status = some (send "get_backup_status" end)
cmd_call (list_of none) = some (send "list_projects" (one "probe_remote" (bool false)))
cmd_call (list_of (some name)) = some (send "list_snapshots" (one "project" (string name)))
cmd_call (config (get _)) = some (send "get_config" end)
cmd_call (config (set _ _)) = none
cmd_call pair = none
cmd_call (snapshots none) = none
cmd_call (snapshots (some name)) = some (send "list_snapshots" (one "project" (string name)))
cmd_call (trust (add pubkey)) =
    some (send "host_append_authorized_pubkey" (one "pubkey_line" (string pubkey)))
cmd_call (trust list) = some (send "host_list_authorized_pubkeys" end)
cmd_call (trust (remove raw_line)) =
    some (send "host_remove_authorized_pubkey" (one "raw_line" (string raw_line)))
cmd_call (update _ _) = none
cmd_call (autoupdate on) = some (send "set_update_settings" (one "auto_update" (bool true)))
cmd_call (autoupdate off) = some (send "set_update_settings" (one "auto_update" (bool false)))
cmd_call (autoupdate status) = some (send "get_update_settings" end)

-- the subcommands that poke the daemon first
abbrev pub ticks_first : Commands → Bool
ticks_first (update _ _) = false
ticks_first (autoupdate _) = false
ticks_first _ = true

-- a call sent a number of times
unfoldable pub repeat : {A : Type 0} → ℕ → A → List A
repeat zero a = []
repeat (suc n) a = a ∷ repeat n a

-- The calls of the worker of an update that is not only checked for: its questions before the swap, and
-- its polls after it, as many as the engine and the daemon's answers make of each.
unfoldable pub worker_calls : ℕ → ℕ → Commands → List Call
worker_calls questions polls (update false _) =
    repeat questions (send "get_backup_status" end) ++ repeat polls (send "ping" end)
worker_calls questions polls _ = []

-- `run`: every call that a subcommand sends, in order
unfoldable pub run : ℕ → ℕ → Commands → List Call
run questions polls command =
    (if ticks_first command then send "auto_update_tick" end ∷ [] else [])
    ++ (elim (cmd_call command) [ none ↦ [] | some call ↦ call ∷ [] ]
        ++ worker_calls questions polls command)
