-- ===== src/Tests/Daemon.antt =====
-- A daemon with a backup and a save under way.
use backr.Base.{codes, refl, true, false, none, some, List, [], ◌∷◌, arith}
use backr.Daemon.State.{Config, Answer, new_state}
use backr.Daemon.Tasks.{Daemon, Action, start_backup, start_save, wake_retry, step_task, run}
use backr.Daemon.Exclusion.{IsSound, run-IsSound}

abbrev config : Config
config = record {
  version = 1;
  remote = record {
    host = codes "nas.local";
    user = codes "backr";
    ssh_key = codes "/key";
    port = 22;
    backup_path = codes "/srv/backr";
  };
  projects_path = codes "/home/me/projects";
  interval_hours = 6;
  last_backup_at = none;
  auto_update = false;
}

abbrev fresh : Daemon
fresh = record { state = new_state (some config); tasks = [] }

fresh-IsSound : IsSound fresh
fresh-IsSound = record { exclusive = refl; awaited = omega arith }

abbrev answer : Answer
answer = record { good = true; targets = some (codes "site" ∷ []); now = 1000 }

abbrev actions : List Action
actions =
    start_backup true
    ∷ start_backup false
    ∷ step_task 0 answer
    ∷ step_task 1 answer
    ∷ start_save config
    ∷ wake_retry
    ∷ []

run-IsSound_example : IsSound (run actions fresh)
run-IsSound_example = run-IsSound actions fresh fresh-IsSound
