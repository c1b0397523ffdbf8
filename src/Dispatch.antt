-- ===== src/Dispatch.antt =====
-- The table of backrd/src/ipc/handlers.rs, and what each handler reads of its parameters before it
-- looks at anything else. The error texts of the validators are kept without the text they quote.
use backr.Base.{
  Bool-eq, Result-cases, All-lines, lines-lack_newline, ap₂, trim_idem, trim-strip_cr,
  strip_cr_of_lacks, All-trim, All-trim_start_by, All-trim_end_by, lines-append, lines_line,
  map-trim-lines-finish, strip_prefix, splitn_from, splitn, ends_with_char, split-nil,
  split-cons_sep, ltb, leb, ◌==◌, if◌then◌else◌, ==_iff, ==_self, Bool-cases, Option-cases, length,
  take, head?, any, filter, length-append, length-filter, filter-append, All, All-append,
  All-append_iff, All-map, All-filter, Text, codes, eq_text, is_empty, contains_char, starts_with,
  contains, is_whitespace, trim_start_by, trim_end_by, trim, split_from, split, join, replace_char,
  strip_cr, lines_from, lines, is_digit, digits_from, parse_uint, eq_text→≡, eq_text_self,
  eq_text_iff, contains_char-eq-false_iff, split_from-append, split-append, split_from_of_lacks,
  trim_end_by_parts, trim_start_by_parts, trim_start_by-cons, trim_end_by-concat, is_empty-concat,
  ne_of_eq_text, eq_text_of_ne, ne_nil_of_is_empty, is_empty_of_ne_nil, Result, ok, err, map_err,
  ok_or, to_option, >>=-eq-ok, ℕ, zero, suc, ◌+◌, ◌-◌, ◌*◌, ◌/◌, ◌%◌, ◌^◌, ◌≤◌, ◌<◌, String, ◌≡◌,
  refl, sym, ap, ◌∙◌, subst, ◌≢◌, ◌↔◌, ◌⊎◌, inl, inr, Bool, true, false, ◌&&◌, ◌||◌, not, Option,
  none, some, List, [], ◌∷◌, ◌++◌, map, reverse, append-nil, append_assoc, map-append,
  reverse-append, arith,
}
use backr.Base.Maybe
use backr.Base.Results.{◌>>=◌}
use backr.Trust.Keys.{RegexClasses}
use backr.Backup.Validate.{validate_remote_component, validate_relative_path}
use backr.Backup.Snapshots.{is_valid_snapshot_name}
use backr.Ipc.{IpcError, command_error, invalid_input, cmd_err}
use backr.Ipc.Value.{Value, get, as_str, as_bool, as_u64}
pub mod Table
pub mod Contained

-- the handlers, by the arms of the match
pub data Method : Type 0 where
  ping : Method
  run_backup : Method
  get_backup_status : Method
  get_activity_series : Method
  get_config : Method
  save_config : Method
  test_connection : Method
  get_system_info : Method
  resolve_shell_bootstrap : Method
  get_update_status : Method
  get_update_settings : Method
  set_update_settings : Method
  apply_update : Method
  auto_update_tick : Method
  list_projects : Method
  list_snapshots : Method
  list_files : Method
  read_snapshot_file : Method
  restore_snapshot : Method
  restore_all_snapshots : Method
  restore_all_projects : Method
  start_pairing : Method
  stop_pairing : Method
  pairing_status : Method
  discover_hosts : Method
  pair_with_host : Method
  confirm_pairing : Method
  host_list_snapshot_projects : Method
  host_volume_summary : Method
  host_disk_inventory : Method
  host_trust_status : Method
  host_append_authorized_pubkey : Method
  host_list_authorized_pubkeys : Method
  host_remove_authorized_pubkey : Method

-- the arms in their order
abbrev pub arms : List (Text × Method)
arms =
    (codes "ping", ping)
    ∷ (codes "run_backup", run_backup)
    ∷ (codes "get_backup_status", get_backup_status)
    ∷ (codes "get_activity_series", get_activity_series)
    ∷ (codes "get_config", get_config)
    ∷ (codes "save_config", save_config)
    ∷ (codes "test_connection", test_connection)
    ∷ (codes "get_system_info", get_system_info)
    ∷ (codes "resolve_shell_bootstrap", resolve_shell_bootstrap)
    ∷ (codes "get_update_status", get_update_status)
    ∷ (codes "get_update_settings", get_update_settings)
    ∷ (codes "set_update_settings", set_update_settings)
    ∷ (codes "apply_update", apply_update)
    ∷ (codes "auto_update_tick", auto_update_tick)
    ∷ (codes "list_projects", list_projects)
    ∷ (codes "list_snapshots", list_snapshots)
    ∷ (codes "list_files", list_files)
    ∷ (codes "read_snapshot_file", read_snapshot_file)
    ∷ (codes "restore_snapshot", restore_snapshot)
    ∷ (codes "restore_all_snapshots", restore_all_snapshots)
    ∷ (codes "restore_all_projects", restore_all_projects)
    ∷ (codes "start_pairing", start_pairing)
    ∷ (codes "stop_pairing", stop_pairing)
    ∷ (codes "pairing_status", pairing_status)
    ∷ (codes "discover_hosts", discover_hosts)
    ∷ (codes "pair_with_host", pair_with_host)
    ∷ (codes "confirm_pairing", confirm_pairing)
    ∷ (codes "host_list_snapshot_projects", host_list_snapshot_projects)
    ∷ (codes "host_volume_summary", host_volume_summary)
    ∷ (codes "host_disk_inventory", host_disk_inventory)
    ∷ (codes "host_trust_status", host_trust_status)
    ∷ (codes "host_append_authorized_pubkey", host_append_authorized_pubkey)
    ∷ (codes "host_list_authorized_pubkeys", host_list_authorized_pubkeys)
    ∷ (codes "host_remove_authorized_pubkey", host_remove_authorized_pubkey)
    ∷ []

unfoldable pub find_arm : Text → List (Text × Method) → Option Method
find_arm method [] = none
find_arm method ((name, m) ∷ rest) = if eq_text method name then some m else find_arm method rest

abbrev pub method_of : Text → Option Method
method_of method = find_arm method arms

-- What a handler knows of its call once it has read and checked the parameters.
pub data Request (C D : Type 0) : Type 0 where
  plain : Method → Request C D
  backup : Option Text → Request C D
  save : C → Request C D
  connect : Text → Text → Text → ℕ → Request C D
  set_auto_update : Bool → Request C D
  projects : Bool → Request C D
  snapshots_of : Text → Request C D
  files_of : Text → Text → Text → Request C D
  file_of : Text → Text → Text → Request C D
  restore : Text → Text → Request C D
  restore_all : Text → Request C D
  pair : Text → Text → Request C D
  confirm : D → Request C D
  host_projects : Text → Request C D
  host_volume : Text → Request C D
  host_inventory : Text → Bool → Request C D
  append_pubkey : Text → Request C D
  remove_pubkey : Text → Request C D

-- `serde_json::from_value` and `to_value` for the two structures that cross the socket whole
pub record Serde (C D : Type 0) : Type 0 where
  pub config_from_value : Value → Result C Text
  pub config_to_value : C → Value
  pub draft_from_value : Value → Result D Text
  pub draft_to_value : D → Value

abbrev invalid_error : Text → IpcError
invalid_error message = record { kind = codes "InvalidInput"; message = message }

abbrev opt_str : Value → Text → Option Text
opt_str params key = elim (get key params) [ none ↦ none | some v ↦ as_str v ]

abbrev opt_bool : Value → Text → Option Bool
opt_bool params key = elim (get key params) [ none ↦ none | some v ↦ as_bool v ]

-- `.unwrap_or(false)` of an optional Boolean
abbrev pub flag : Value → Text → Bool
flag params key = elim (opt_bool params key) [ none ↦ false | some b ↦ b ]

unfoldable pub str_param : Value → Text → Result Text IpcError
str_param params key = ok_or (opt_str params key) (invalid_error (codes "missing field: " ++ key))

-- `.map_err(|e| cmd_err(BackrCommandError::invalid_input(e)))`
abbrev pub checked : Result (Unit {0}) String → Result (Unit {0}) IpcError
checked r = map_err (λ e. cmd_err (command_error invalid_input (codes e))) r

abbrev pub checked_component : Text → Result (Unit {0}) IpcError
checked_component name = checked (validate_remote_component name)

-- `path.trim().trim_start_matches('/')`
unfoldable pub normalized : Text → Text
normalized path = trim_start_by (λ c. c == b'/') (trim path)

abbrev pub is_here : Text → Bool
is_here path = is_empty path || eq_text path (codes ".")

-- the check of `list_files` on its path, and the path that it goes on with
unfoldable pub listed_path : Option Text → Result Text IpcError
listed_path none = ok []
listed_path (some path) =
    if is_here path
    then ok []
    else checked (validate_relative_path (normalized path)) >>= λ _. ok (normalized path)

module _ {C D : Type 0} where
  unfoldable pub read_run_backup : Value → Result (Request C D) IpcError
  read_run_backup params = elim (opt_str params (codes "project")) [
    | none ↦ ok (backup none)
    | some p ↦ checked_component p >>= λ _. ok (backup (some p))
  ]

  unfoldable pub read_test_connection : Value → Result (Request C D) IpcError
  read_test_connection params = do
    host ← str_param params (codes "host")
    user ← str_param params (codes "user")
    key_path ← str_param params (codes "key_path")
    ok (
        connect host user key_path (elim (get (codes "ssh_port") params) [
          | none ↦ 22
          | some v ↦ elim (as_u64 v) [ none ↦ 22 | some n ↦ n % 65536 ]
        ]))

  unfoldable pub read_set_update_settings : Value → Result (Request C D) IpcError
  read_set_update_settings params = elim (opt_bool params (codes "auto_update")) [
    | none ↦ err (invalid_error (codes "set_update_settings: missing bool 'auto_update'"))
    | some b ↦ ok (set_auto_update b)
  ]

  -- a handler whose only parameter is a project's name
  unfoldable pub read_project : (Text → Request C D) → Value → Result (Request C D) IpcError
  read_project make params = do
    project ← str_param params (codes "project")
    _ ← checked_component project
    ok (make project)

  unfoldable pub read_list_files : Value → Result (Request C D) IpcError
  read_list_files params = do
    project ← str_param params (codes "project")
    snapshot ← str_param params (codes "snapshot")
    _ ← checked_component project
    _ ← checked_component snapshot
    path ← listed_path (opt_str params (codes "path"))
    ok (files_of project snapshot path)

  unfoldable pub read_read_snapshot_file : RegexClasses → Value → Result (Request C D) IpcError
  read_read_snapshot_file re params = do
    project ← str_param params (codes "project")
    snapshot ← str_param params (codes "snapshot")
    relative_path ← str_param params (codes "relative_path")
    _ ← checked_component project
    _ ← checked_component snapshot
    _ ←
        if is_valid_snapshot_name re snapshot
        then ok tt
        else err (cmd_err (command_error invalid_input (codes "invalid snapshot folder name")))
    _ ← checked (validate_relative_path (normalized relative_path))
    ok (file_of project snapshot (normalized relative_path))

  unfoldable pub read_restore_snapshot : Value → Result (Request C D) IpcError
  read_restore_snapshot params = do
    project ← str_param params (codes "project")
    snapshot ← str_param params (codes "snapshot")
    _ ← checked_component project
    _ ← checked_component snapshot
    ok (restore project snapshot)

  -- a handler whose only parameter is one text that it does not check
  abbrev pub read_text : Text → (Text → Request C D) → Value → Result (Request C D) IpcError
  read_text key make params = str_param params key >>= λ t. ok (make t)

module _ {C D : Type 0} (re : RegexClasses) (serde : Serde C D) where
  unfoldable pub read_save_config : Value → Result (Request C D) IpcError
  read_save_config params = do
    v ←
        ok_or (get (codes "config") params)
          (invalid_error (codes "save_config: missing 'config' parameter"))
    c ← map_err invalid_error (serde.config_from_value v)
    ok (save c)

  unfoldable pub read_confirm_pairing : Value → Result (Request C D) IpcError
  read_confirm_pairing params = do
    v ←
        ok_or (get (codes "draft") params)
          (invalid_error (codes "confirm_pairing: missing 'draft' parameter"))
    d ← map_err invalid_error (serde.draft_from_value v)
    ok (confirm d)

  -- the head of each handler
  unfoldable pub read_params : Method → Value → Result (Request C D) IpcError
  read_params run_backup params = read_run_backup params
  read_params save_config params = read_save_config params
  read_params test_connection params = read_test_connection params
  read_params set_update_settings params = read_set_update_settings params
  read_params list_projects params = ok (projects (flag params (codes "probe_remote")))
  read_params list_snapshots params = read_project snapshots_of params
  read_params list_files params = read_list_files params
  read_params read_snapshot_file params = read_read_snapshot_file re params
  read_params restore_snapshot params = read_restore_snapshot params
  read_params restore_all_snapshots params = read_project restore_all params
  read_params pair_with_host params = do
    address ← str_param params (codes "address")
    code ← str_param params (codes "code")
    ok (pair address code)
  read_params confirm_pairing params = read_confirm_pairing params
  read_params host_list_snapshot_projects params =
      read_text (codes "backup_root") host_projects params
  read_params host_volume_summary params = read_text (codes "backup_root") host_volume params
  read_params host_disk_inventory params = do
    backup_root ← str_param params (codes "backup_root")
    ok (host_inventory backup_root (flag params (codes "force_refresh")))
  read_params host_append_authorized_pubkey params =
      read_text (codes "pubkey_line") append_pubkey params
  read_params host_remove_authorized_pubkey params =
      read_text (codes "raw_line") remove_pubkey params
  read_params other params = ok (plain other)

  -- `dispatch`, up to the work of the handler
  unfoldable pub dispatch : Text → Value → Result (Request C D) IpcError
  dispatch method params = elim (method_of method) [
    | none ↦
        err (record { kind = codes "MethodNotFound"; message = codes "unknown method: " ++ method })
    | some m ↦ read_params m params
  ]
