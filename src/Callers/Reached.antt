-- ===== src/Callers/Reached.antt =====
-- What a call of the desktop application or of the command line becomes at the daemon.
use backr.Base.{
  if◌then◌else◌, Text, codes, is_empty, trim, trim_start_by, starts_with, ◌||◌, ◌==◌, ==_iff,
  Bool-cases, eq_text, Result, ok, ◌<◌, ◌≡◌, refl, ap, ◌⊎◌, inl, inr, true, false, none, some, List,
  [], ◌∷◌, ◌++◌, map, ap₂, ℕ, zero, suc, arith,
}
use backr.Trust.Keys.{RegexClasses}
use backr.Backup.Validate.Laws.{
  IsSafeComponent, IsSafeRelative, validate_remote_component_iff, validate_relative_path_iff,
}
use backr.Backup.Snapshots.{is_valid_snapshot_name}
use backr.Ipc.{IpcError}
use backr.Ipc.Value.{find_field, end}
use backr.Dispatch
use backr.Dispatch.{
  Request, Serde, plain, backup, save, connect, set_auto_update, projects, snapshots_of, files_of,
  file_of, restore, restore_all, pair, confirm, host_projects, host_volume, host_inventory,
  append_pubkey, remove_pubkey, checked_component, checked, normalized, is_here, dispatch, find_arm,
  str_param, read_params, read_run_backup, read_test_connection, read_set_update_settings,
  read_project, listed_path, read_list_files, read_read_snapshot_file, read_restore_snapshot,
  read_save_config, read_confirm_pairing,
}
use backr.Callers
use backr.Callers.{send, repeat, Call, Desktop, call_of, Commands, cmd_call, worker_calls, run}

-- A path that is not padded: no white space at its ends, and no slash before it.
abbrev pub IsTidy : Text → Type 0
IsTidy path = (trim path ≡ path) × (starts_with (codes "/") path ≡ false)

module _ {C D : Type 0} where
  -- what a command of the desktop application asks for
  pub wanted : Desktop C D → Request C D
  wanted (Callers.activity_cmd Callers.get_activity_series) = plain Dispatch.get_activity_series
  wanted (Callers.config_cmd Callers.get_config) = plain Dispatch.get_config
  wanted (Callers.host_cmd Callers.resolve_shell_bootstrap) = plain Dispatch.resolve_shell_bootstrap
  wanted (Callers.host_cmd Callers.host_trust_status) = plain Dispatch.host_trust_status
  wanted (Callers.host_cmd Callers.host_list_authorized_pubkeys) =
      plain Dispatch.host_list_authorized_pubkeys
  wanted (Callers.pairing_cmd Callers.start_pairing) = plain Dispatch.start_pairing
  wanted (Callers.pairing_cmd Callers.stop_pairing) = plain Dispatch.stop_pairing
  wanted (Callers.pairing_cmd Callers.pairing_status) = plain Dispatch.pairing_status
  wanted (Callers.pairing_cmd Callers.discover_hosts) = plain Dispatch.discover_hosts
  wanted (Callers.project_cmd Callers.get_backup_status) = plain Dispatch.get_backup_status
  wanted (Callers.snapshot_cmd Callers.restore_all_projects) = plain Dispatch.restore_all_projects
  wanted (Callers.system_cmd Callers.get_system_info) = plain Dispatch.get_system_info
  wanted (Callers.update_cmd Callers.get_update_status) = plain Dispatch.get_update_status
  wanted (Callers.update_cmd Callers.get_update_settings) = plain Dispatch.get_update_settings
  wanted (Callers.update_cmd Callers.apply_update) = plain Dispatch.apply_update
  wanted Callers.auto_update_tick = plain Dispatch.auto_update_tick
  wanted (Callers.backup_cmd (Callers.execute_backup_cycle project)) = backup project
  wanted (Callers.backup_cmd (Callers.spawn_backup_job project)) = backup project
  wanted (Callers.backup_cmd Callers.run_scheduled_backup) = backup none
  wanted (Callers.config_cmd (Callers.save_config next)) = save next
  wanted (Callers.config_cmd (Callers.test_connection host user key_path none)) =
      connect host user key_path 22
  wanted (Callers.config_cmd (Callers.test_connection host user key_path (some port))) =
      connect host user key_path port
  wanted (Callers.host_cmd (Callers.host_list_snapshot_projects root)) = host_projects root
  wanted (Callers.host_cmd (Callers.host_volume_summary root)) = host_volume root
  wanted (Callers.host_cmd (Callers.host_disk_inventory root force)) = host_inventory root force
  wanted (Callers.host_cmd (Callers.host_append_authorized_pubkey line)) = append_pubkey line
  wanted (Callers.host_cmd (Callers.host_remove_authorized_pubkey line)) = remove_pubkey line
  wanted (Callers.pairing_cmd (Callers.pair_with_host address code)) = pair address code
  wanted (Callers.pairing_cmd (Callers.confirm_pairing draft)) = confirm draft
  wanted (Callers.project_cmd (Callers.list_projects none)) = projects false
  wanted (Callers.project_cmd (Callers.list_projects (some probe))) = projects probe
  wanted (Callers.snapshot_cmd (Callers.list_snapshots project)) = snapshots_of project
  wanted (Callers.snapshot_cmd (Callers.list_files project snapshot path)) =
      files_of project snapshot (if is_empty path || eq_text path (codes ".") then [] else path)
  wanted (Callers.snapshot_cmd (Callers.read_snapshot_file project snapshot path)) =
      file_of project snapshot path
  wanted (Callers.snapshot_cmd (Callers.restore_snapshot project snapshot)) =
      restore project snapshot
  wanted (Callers.snapshot_cmd (Callers.restore_all_snapshots project)) = restore_all project
  wanted (Callers.update_cmd (Callers.set_update_settings b)) = set_auto_update b

  -- The arguments are such that the daemon takes the call: safe names, a port of 16 bits, the name of a
  -- snapshot where a file is read, and a path that is not padded and is safe below the snapshot.
  unfoldable pub Takes : RegexClasses → Desktop C D → Type 0
  Takes re (Callers.backup_cmd (Callers.execute_backup_cycle (some p))) = IsSafeComponent p
  Takes re (Callers.backup_cmd (Callers.spawn_backup_job (some p))) = IsSafeComponent p
  Takes re (Callers.config_cmd (Callers.test_connection _ _ _ (some port))) = port < 65536
  Takes re (Callers.snapshot_cmd (Callers.list_snapshots p)) = IsSafeComponent p
  Takes re (Callers.snapshot_cmd (Callers.list_files p s path)) =
      IsSafeComponent p
      × IsSafeComponent s
      × ((path ≡ []) ⊎ ((path ≡ codes ".") ⊎ (IsTidy path × IsSafeRelative path)))
  Takes re (Callers.snapshot_cmd (Callers.read_snapshot_file p s path)) =
      IsSafeComponent p
      × IsSafeComponent s
      × (is_valid_snapshot_name re s ≡ true)
      × (IsTidy path × IsSafeRelative path)
  Takes re (Callers.snapshot_cmd (Callers.restore_snapshot p s)) =
      IsSafeComponent p × IsSafeComponent s
  Takes re (Callers.snapshot_cmd (Callers.restore_all_snapshots p)) = IsSafeComponent p
  Takes re _ = Unit

-- The daemon takes a path that is not padded as it is.
normalized-tidy :
    (path : Text) → trim path ≡ path → starts_with (codes "/") path ≡ false → normalized path ≡ path
unfolding normalized starts_with trim_start_by
normalized-tidy path trimmed unslashed = rw (normalized, trimmed) (go path unslashed)
  where
    go :
        (path : Text)
        → starts_with (codes "/") path ≡ false
        → trim_start_by (λ c. c == b'/') path ≡ path
    go [] h = refl
    go (c ∷ path) h = elim (Bool-cases (c == b'/')) [
      | inr other ↦ rw (trim_start_by, other) refl
      | inl slash ↦ let q = rw ((==_iff c b'/').0 slash) at h in cc
    ]

safe_component : (p : Text) → IsSafeComponent p → checked_component p ≡ ok tt
safe_component p h = rw ((validate_remote_component_iff p).1 h) refl

module _ {C D : Type 0} (re : RegexClasses) (serde : Serde C D)
    (config_back : (c : C) → serde.config_from_value (serde.config_to_value c) ≡ ok c)
    (draft_back : (d : D) → serde.draft_from_value (serde.draft_to_value d) ≡ ok d) where
  abbrev sent : Desktop C D → Result (Request C D) IpcError
  sent c = dispatch re serde (call_of serde c).method (call_of serde c).params

  -- Each command of the desktop application reaches the handler that it means, with the arguments that
  -- it was given, where names are safe, a port has 16 bits, a path is not padded and safe, and the library
  -- reads back the values that it wrote.
  pub dispatch-call_of : (c : Desktop C D) → Takes re c → sent c ≡ ok (wanted c)
  unfolding dispatch call_of Callers.activity_call Callers.backup_call Callers.config_call
      Callers.host_call Callers.pairing_call Callers.project_call Callers.snapshot_call
      Callers.system_call Callers.update_call find_arm eq_text find_field read_params str_param
      wanted Takes read_run_backup read_test_connection read_set_update_settings read_project
      listed_path read_list_files read_read_snapshot_file read_restore_snapshot read_save_config
      read_confirm_pairing
  dispatch-call_of (Callers.activity_cmd Callers.get_activity_series) h = refl
  dispatch-call_of (Callers.config_cmd Callers.get_config) h = refl
  dispatch-call_of (Callers.host_cmd Callers.resolve_shell_bootstrap) h = refl
  dispatch-call_of (Callers.host_cmd Callers.host_trust_status) h = refl
  dispatch-call_of (Callers.host_cmd Callers.host_list_authorized_pubkeys) h = refl
  dispatch-call_of (Callers.pairing_cmd Callers.start_pairing) h = refl
  dispatch-call_of (Callers.pairing_cmd Callers.stop_pairing) h = refl
  dispatch-call_of (Callers.pairing_cmd Callers.pairing_status) h = refl
  dispatch-call_of (Callers.pairing_cmd Callers.discover_hosts) h = refl
  dispatch-call_of (Callers.project_cmd Callers.get_backup_status) h = refl
  dispatch-call_of (Callers.snapshot_cmd Callers.restore_all_projects) h = refl
  dispatch-call_of (Callers.system_cmd Callers.get_system_info) h = refl
  dispatch-call_of (Callers.update_cmd Callers.get_update_status) h = refl
  dispatch-call_of (Callers.update_cmd Callers.get_update_settings) h = refl
  dispatch-call_of (Callers.update_cmd Callers.apply_update) h = refl
  dispatch-call_of Callers.auto_update_tick h = refl
  dispatch-call_of (Callers.backup_cmd (Callers.execute_backup_cycle none)) h = refl
  dispatch-call_of (Callers.backup_cmd (Callers.execute_backup_cycle (some p))) h =
      rw (safe_component p h) refl
  dispatch-call_of (Callers.backup_cmd (Callers.spawn_backup_job none)) h = refl
  dispatch-call_of (Callers.backup_cmd (Callers.spawn_backup_job (some p))) h =
      rw (safe_component p h) refl
  dispatch-call_of (Callers.backup_cmd Callers.run_scheduled_backup) h = refl
  dispatch-call_of (Callers.config_cmd (Callers.save_config next)) h = rw (config_back next) refl
  dispatch-call_of (Callers.config_cmd (Callers.test_connection host user key_path none)) h = refl
  dispatch-call_of (Callers.config_cmd (Callers.test_connection host user key_path (some port))) h =
      ap (λ n. ok (connect host user key_path n)) (omega arith)
  dispatch-call_of (Callers.host_cmd (Callers.host_list_snapshot_projects root)) h = refl
  dispatch-call_of (Callers.host_cmd (Callers.host_volume_summary root)) h = refl
  dispatch-call_of (Callers.host_cmd (Callers.host_disk_inventory root force)) h = refl
  dispatch-call_of (Callers.host_cmd (Callers.host_append_authorized_pubkey line)) h = refl
  dispatch-call_of (Callers.host_cmd (Callers.host_remove_authorized_pubkey line)) h = refl
  dispatch-call_of (Callers.pairing_cmd (Callers.pair_with_host address code)) h = refl
  dispatch-call_of (Callers.pairing_cmd (Callers.confirm_pairing draft)) h =
      rw (draft_back draft) refl
  dispatch-call_of (Callers.project_cmd (Callers.list_projects none)) h = refl
  dispatch-call_of (Callers.project_cmd (Callers.list_projects (some probe))) h = refl
  dispatch-call_of (Callers.snapshot_cmd (Callers.list_snapshots project)) h =
      rw (safe_component project h) refl
  dispatch-call_of (Callers.snapshot_cmd (Callers.list_files project snapshot path))
        (hp, hs, inl here) =
      rw (safe_component project hp, safe_component snapshot hs, here) refl
  dispatch-call_of (Callers.snapshot_cmd (Callers.list_files project snapshot path))
        (hp, hs, inr (inl here)) =
      rw (safe_component project hp, safe_component snapshot hs, here) refl
  dispatch-call_of (Callers.snapshot_cmd (Callers.list_files project snapshot path))
        (hp, hs, inr (inr ((trimmed, unslashed), hr))) =
      elim (Bool-cases (is_empty path || eq_text path (codes "."))) [
        | inl here ↦ rw (safe_component project hp, safe_component snapshot hs, here) refl
        | inr below ↦
            rw
              (
                safe_component project hp,
                safe_component snapshot hs,
                below,
                normalized-tidy path trimmed unslashed,
                (validate_relative_path_iff path).1 hr,
              )
              refl
      ]
  dispatch-call_of (Callers.snapshot_cmd (Callers.read_snapshot_file project snapshot path))
        (hp, hs, hv, ((trimmed, unslashed), hr)) =
      rw
        (
          safe_component project hp,
          safe_component snapshot hs,
          hv,
          normalized-tidy path trimmed unslashed,
          (validate_relative_path_iff path).1 hr,
        )
        refl
  dispatch-call_of (Callers.snapshot_cmd (Callers.restore_snapshot project snapshot)) (hp, hs) =
      rw (safe_component project hp, safe_component snapshot hs) refl
  dispatch-call_of (Callers.snapshot_cmd (Callers.restore_all_snapshots project)) h =
      rw (safe_component project h) refl
  dispatch-call_of (Callers.update_cmd (Callers.set_update_settings b)) h = refl

module _ {C D : Type 0} where
  -- what a subcommand asks of the daemon, in order; the numbers are the questions and the polls of the worker
  pub asked : ℕ → ℕ → Commands → List (Request C D)
  asked q n (Callers.backup project) = plain Dispatch.auto_update_tick ∷ backup project ∷ []
  asked q n Callers.show_status =
      plain Dispatch.auto_update_tick ∷ plain Dispatch.get_backup_status ∷ []
  asked q n (Callers.list_of none) = plain Dispatch.auto_update_tick ∷ projects false ∷ []
  asked q n (Callers.list_of (some p)) = plain Dispatch.auto_update_tick ∷ snapshots_of p ∷ []
  asked q n (Callers.config (Callers.get _)) =
      plain Dispatch.auto_update_tick ∷ plain Dispatch.get_config ∷ []
  asked q n (Callers.config (Callers.set _ _)) = plain Dispatch.auto_update_tick ∷ []
  asked q n Callers.pair = plain Dispatch.auto_update_tick ∷ []
  asked q n (Callers.snapshots none) = plain Dispatch.auto_update_tick ∷ []
  asked q n (Callers.snapshots (some p)) = plain Dispatch.auto_update_tick ∷ snapshots_of p ∷ []
  asked q n (Callers.trust (Callers.add k)) = plain Dispatch.auto_update_tick ∷ append_pubkey k ∷ []
  asked q n (Callers.trust Callers.list) =
      plain Dispatch.auto_update_tick ∷ plain Dispatch.host_list_authorized_pubkeys ∷ []
  asked q n (Callers.trust (Callers.remove k)) =
      plain Dispatch.auto_update_tick ∷ remove_pubkey k ∷ []
  asked q n (Callers.update true _) = []
  asked q n (Callers.update false _) =
      repeat q (plain Dispatch.get_backup_status) ++ repeat n (plain Dispatch.ping)
  asked q n (Callers.autoupdate Callers.on) = set_auto_update true ∷ []
  asked q n (Callers.autoupdate Callers.off) = set_auto_update false ∷ []
  asked q n (Callers.autoupdate Callers.status) = plain Dispatch.get_update_settings ∷ []

-- A project named on the command line is a safe component.
unfoldable pub NamesSafe : Commands → Type 0
NamesSafe (Callers.backup (some p)) = IsSafeComponent p
NamesSafe (Callers.list_of (some p)) = IsSafeComponent p
NamesSafe (Callers.snapshots (some p)) = IsSafeComponent p
NamesSafe _ = Unit

module _ {C D : Type 0} (re : RegexClasses) (serde : Serde C D) where
  abbrev answered : Call → Result (Request C D) IpcError
  answered call = dispatch re serde call.method call.params

  map-repeat :
      (n : ℕ) (call : Call) (r : Request C D)
      → answered call ≡ ok r
      → (rest : List Call) (more : List (Request C D)) → map answered rest ≡ map ok more
      → map answered (repeat n call ++ rest) ≡ map ok (repeat n r ++ more)
  unfolding repeat
  map-repeat zero call r e rest more h = h
  map-repeat (suc n) call r e rest more h =
      ap₂ (λ x xs. x ∷ xs) e (map-repeat n call r e rest more h)

  -- the calls of the worker
  map-repeat_both :
      (q k : ℕ)
      → map answered (repeat q (send "get_backup_status" end) ++ repeat k (send "ping" end))
        ≡ map ok (repeat q (plain Dispatch.get_backup_status) ++ repeat k (plain Dispatch.ping))
  unfolding dispatch find_arm eq_text read_params repeat
  map-repeat_both q k =
      map-repeat q (send "get_backup_status" end) (plain Dispatch.get_backup_status) refl
        (repeat k (send "ping" end)) (repeat k (plain Dispatch.ping)) (polls k)
    where
      polls :
          (k : ℕ)
          → map answered (repeat k (send "ping" end)) ≡ map ok (repeat k (plain Dispatch.ping))
      polls zero = refl
      polls (suc k) = ap₂ (λ x xs. x ∷ xs) refl (polls k)

  -- Every call of a subcommand reaches its handler with the arguments of the command line, in order, where
  -- a project it names is a safe component: the poke for updates, and, of the update, however many
  -- questions and polls its worker sends.
  pub map-dispatch-run :
      (questions polls : ℕ) (command : Commands)
      → NamesSafe command
      → map answered (run questions polls command) ≡ map ok (asked questions polls command)
  unfolding dispatch run worker_calls cmd_call find_arm eq_text find_field read_params str_param
      asked NamesSafe read_run_backup read_set_update_settings read_project
  map-dispatch-run q n (Callers.backup none) h = refl
  map-dispatch-run q n (Callers.backup (some p)) h = rw (safe_component p h) refl
  map-dispatch-run q n Callers.show_status h = refl
  map-dispatch-run q n (Callers.list_of none) h = refl
  map-dispatch-run q n (Callers.list_of (some p)) h = rw (safe_component p h) refl
  map-dispatch-run q n (Callers.config (Callers.get _)) h = refl
  map-dispatch-run q n (Callers.config (Callers.set _ _)) h = refl
  map-dispatch-run q n Callers.pair h = refl
  map-dispatch-run q n (Callers.snapshots none) h = refl
  map-dispatch-run q n (Callers.snapshots (some p)) h = rw (safe_component p h) refl
  map-dispatch-run q n (Callers.trust (Callers.add k)) h = refl
  map-dispatch-run q n (Callers.trust Callers.list) h = refl
  map-dispatch-run q n (Callers.trust (Callers.remove k)) h = refl
  map-dispatch-run q n (Callers.update true _) h = refl
  map-dispatch-run q n (Callers.update false _) h = map-repeat_both q n
  map-dispatch-run q n (Callers.autoupdate Callers.on) h = refl
  map-dispatch-run q n (Callers.autoupdate Callers.off) h = refl
  map-dispatch-run q n (Callers.autoupdate Callers.status) h = refl
