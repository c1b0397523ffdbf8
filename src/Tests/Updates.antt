-- ===== src/Tests/Updates.antt =====
-- Tests of the daemon's updates.
use backr.Base.{
  codes, ok, ◌+◌, ◌-◌, ◌/◌, ◌≤◌, ◌≡◌, refl, true, false, none, some, List, [], ◌∷◌, arith,
}
use backr.Daemon.State.{Config, new_state}
use backr.Update.Engine.{should_check}
use backr.Daemon.Updates.{
  auto_check_window, UpdateState, Spawns, auto_update, handle_auto_update_tick, begin_check,
  finish_check, Event, tick, begun, finished, set_settings, backup, happen, happen_all, set_in,
  handle_set_update_settings,
}
use backr.Daemon.Updates.Throttled.{Within, happen_all-launched}

abbrev cfg : Config
cfg = record {
  version = 1;
  remote = record {
    host = codes "nas";
    user = codes "backr";
    ssh_key = codes "/k";
    port = 22;
    backup_path = codes "/srv";
  };
  projects_path = codes "/p";
  interval_hours = 4;
  last_backup_at = none;
  auto_update = false;
}

abbrev start : UpdateState
start = record {
  daemon = record (new_state (some cfg)) { config = some cfg };
  stamp = none;
  due = 0;
  checking = 0;
  launched = 0;
  asked = 0;
}

abbrev spawns : Spawns
spawns = record { scoped = false; plain = true }

-- Two pokes in one window and one after it; a check that ends during a backup starts nothing.
abbrev events : List Event
events =
    tick 50
    ∷ begun true 51
    ∷ set_settings (some true) (ok tt)
    ∷ tick 100
    ∷ begun true 101
    ∷ tick 200
    ∷ begun true 201
    ∷ finished (some true) true spawns
    ∷ tick 30000
    ∷ begun true 30001
    ∷ backup true
    ∷ finished (some true) true spawns
    ∷ []

one_launched : (happen_all events start).launched ≡ 1
unfolding happen_all happen handle_auto_update_tick begin_check auto_update should_check
    finish_check set_in handle_set_update_settings
one_launched = refl

in_order : Within false 50 30001 events
unfolding Within
in_order = (
  refl,
  omega arith,
  (
    refl,
    omega arith,
    (
      refl,
      omega arith,
      (
        refl,
        omega arith,
        (
          refl,
          omega arith,
          (refl, omega arith, (refl, omega arith, (refl, omega arith, omega arith))),
        ),
      ),
    ),
  ),
)

happen_all-launched_example :
    (happen_all events start).launched ≤ 1 + (30001 - 50) / auto_check_window
happen_all-launched_example = happen_all-launched events 50 30001 start refl refl refl in_order
