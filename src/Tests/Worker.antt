-- ===== src/Tests/Worker.antt =====
-- Tests of the worker that updates.
use backr.Base.{◌==◌, codes, Result, ok, ℕ, ◌≡◌, refl, inr, Bool, true, false, some, List, [], ◌++◌}
use backr.Ipc.Value.{number}
use backr.Daemon.State.{Config, DaemonState, new_state}
use backr.Update.Release.{ReleaseInfo}
use backr.Update.Engine.{World, Staged}
use backr.Update.Worker.{handle_get_backup_status, poll, health_check, run_update}
use backr.Update.Worker.Kept.{IsKept, run_update-IsKept}

-- The fourth answer is a good one.
abbrev fourth : ℕ → Bool
fourth k = k == 3

answers_fourth : health_check fourth ≡ true
unfolding health_check poll
answers_fourth = refl

abbrev cfg : Config
cfg = record {
  version = 1;
  remote = record {
    host = codes "nas";
    user = codes "backr";
    ssh_key = codes "/k";
    port = 22;
    backup_path = codes "/srv";
  };
  projects_path = codes "/p";
  interval_hours = 4;
  last_backup_at = some 100;
  auto_update = true;
}

abbrev idle : DaemonState
idle = record (new_state (some cfg)) { config = some cfg }

abbrev running : DaemonState
running = record idle { in_progress = true }

abbrev world : World Unit
world = record {
  sha256_hex = λ content. content;
  arch = codes "x86_64";
  download = λ url. ok url;
  installed_target_path = λ bin. ok bin;
}

abbrev release : ReleaseInfo
release = record { tag = codes "v2.0.0"; assets = [] }

-- an installation is the list of what was installed
abbrev swap : List Staged → List Staged → List Staged × Result (Unit {0}) (Unit {0})
swap new old = (new ++ old, ok tt)

-- The backup starts between the two questions.
run_update-IsKept_example : IsKept [] (
    run_update world swap false
      (codes "1.0.0")
      (handle_get_backup_status number 200 idle)
      (handle_get_backup_status number 210 running)
      (ok release)
      (ok tt)
      [])
run_update-IsKept_example =
    run_update-IsKept world swap number 200 210 idle running false (codes "1.0.0") (ok release)
      (ok tt) [] (inr (record { config = cfg; configured = refl; runs = refl }))
