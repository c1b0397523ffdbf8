-- ===== src/Daemon/State.antt =====
-- config.rs and backrd's daemon_state.rs: the configuration, the shared state, and the tasks that are
-- in flight.
use backr.Base.{Text, ℕ, Bool, false, Option, none, some, List}

pub record RemoteConfig : Type 0 where
  pub host : Text
  pub user : Text
  pub ssh_key : Text
  pub port : ℕ
  pub backup_path : Text

-- Times are seconds.
pub record Config : Type 0 where
  pub version : ℕ
  pub remote : RemoteConfig
  pub projects_path : Text
  pub interval_hours : ℕ
  pub last_backup_at : Option ℕ
  pub auto_update : Bool

-- The slots of `DaemonState`, the file config.toml, and the number of retry tasks that sleep.
pub record DaemonState : Type 0 where
  pub config : Option Config
  pub in_progress : Bool
  pub retry_pending : Bool
  pub active_project : Option Text
  pub last_backup_at : Option ℕ
  pub disk : Option Config
  pub retries : ℕ

-- `DaemonState::new`, with the file as it is found
abbrev pub new_state : Option Config → DaemonState
new_state disk = record {
  config = none;
  in_progress = false;
  retry_pending = false;
  active_project = none;
  last_backup_at = none;
  disk = disk;
  retries = 0;
}

-- `hydrate_config_from_disk`: `none` for a file that is not there, `some none` for one that does not
-- parse
unfoldable pub hydrate_config_from_disk : Option (Option Config) → DaemonState → DaemonState
hydrate_config_from_disk none s = s
hydrate_config_from_disk (some none) s = s
hydrate_config_from_disk (some (some cfg)) s = record s { config = some cfg }

-- How far a backup is. The flag `in_progress` is held in every phase but the last.
pub data Phase : Type 0 where
  claimed : Phase
  running : Config → List Text → Phase
  syncing : Config → List Text → Phase
  stamped : Config → ℕ → Phase
  saved : Config → Phase
  ended : Bool → Phase
  releasing : Phase
  trailing : Phase

-- A task between two steps: a backup that has not claimed the flag, and one that has, each scheduled or
-- on demand; a configuration to write to the file, or to the slot; a change of `auto_update`.
pub data Task : Type 0 where
  spawned : Bool → Task
  backup : Bool → Phase → Task
  save_file : Config → Task
  save_slot : Config → Task
  set_auto_update : Bool → Task

-- What the world answers to one step.
pub record Answer : Type 0 where
  -- the remote calls of one project, or a write of the file, succeed
  pub good : Bool
  -- `resolve_backup_targets`, with the path of known hosts
  pub targets : Option (List Text)
  pub now : ℕ
