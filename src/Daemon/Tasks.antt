-- ===== src/Daemon/Tasks.antt =====
-- backrd's scheduler.rs and the handlers of ipc/handlers.rs that change the shared state, one step for
-- each lock, flag or file that they touch.
use backr.Base.{
  ◌==◌, if◌then◌else◌, Text, ℕ, zero, suc, ◌+◌, ◌-◌, Bool, true, false, Option, none, some, List,
  [], ◌∷◌,
}
use backr.Daemon.State.{
  Config, DaemonState, Phase, claimed, running, syncing, stamped, saved, ended, releasing, trailing,
  Task, spawned, backup, save_file, save_slot, set_auto_update, Answer,
}

-- `schedule_retry`: one flag, and a task that sleeps
unfoldable pub schedule_retry : DaemonState → DaemonState
schedule_retry s =
    if s.retry_pending then s else record s { retry_pending = true; retries = s.retries + 1 }

-- a retry task that wakes: whether it triggers a backup
unfoldable pub retry_wakes : DaemonState → DaemonState × Bool
retry_wakes s = (record s { retry_pending = false; retries = s.retries - 1 }, s.retry_pending)

-- what follows the cycle, before the flag is released
unfoldable pub conclude : Bool → Bool → DaemonState → DaemonState
conclude true true s = record s { retry_pending = false }
conclude true false s = schedule_retry s
conclude false good s = record s { active_project = none }

-- the start of `execute_backup_cycle_with_sink`
unfoldable pub begin_cycle : Option Config → Option (List Text) → Phase
begin_cycle none targets = ended false
begin_cycle (some cfg) none = ended false
begin_cycle (some cfg) (some []) = ended true
begin_cycle (some cfg) (some (p ∷ ps)) = running cfg (p ∷ ps)

-- One step of a backup; `none` when it is over.
unfoldable pub advance_backup : Bool → Phase → Answer → DaemonState → DaemonState × Option Phase
advance_backup scheduled claimed a s = (s, some (begin_cycle s.config a.targets))
advance_backup scheduled (running cfg (p ∷ ps)) a s =
    (record s { active_project = some p }, some (syncing cfg ps))
advance_backup scheduled (running cfg []) a s =
    (record s { last_backup_at = some a.now }, some (stamped cfg a.now))
advance_backup scheduled (syncing cfg ps) a s =
    (s, some (if a.good then running cfg ps else ended false))
advance_backup scheduled (stamped cfg now) a s =
    let updated : Config = record cfg { last_backup_at = some now } in
    if a.good
    then (record s { disk = some updated }, some (saved updated))
    else (s, some (ended false))
advance_backup scheduled (saved updated) a s =
    (record s { config = some updated }, some (ended true))
advance_backup scheduled (ended good) a s = (conclude scheduled good s, some releasing)
advance_backup scheduled releasing a s =
    (record s { in_progress = false }, if scheduled then some trailing else none)
advance_backup scheduled trailing a s = (record s { active_project = none }, none)

-- the compare-and-exchange of `trigger_backup` and of `handle_run_backup`
unfoldable pub claim : Bool → DaemonState → DaemonState × Option Task
claim scheduled s =
    if s.in_progress
    then (s, none)
    else (record s { in_progress = true }, some (backup scheduled claimed))

-- One step of a task.
unfoldable pub advance : Task → Answer → DaemonState → DaemonState × Option Task
advance (spawned scheduled) a s = claim scheduled s
advance (backup scheduled phase) a s =
    let (s', next) = advance_backup scheduled phase a s in
    (s', elim next [ none ↦ none | some phase' ↦ some (backup scheduled phase') ])
advance (save_file cfg) a s =
    if a.good then (record s { disk = some cfg }, some (save_slot cfg)) else (s, none)
advance (save_slot cfg) a s = (record s { config = some cfg }, none)
advance (set_auto_update auto) a s = elim s.config [
  | none ↦ (s, none)
  | some cfg ↦ (s, some (save_file (record cfg { auto_update = auto })))
]

-- The daemon: its state and the tasks in flight.
pub record Daemon : Type 0 where
  pub state : DaemonState
  pub tasks : List Task

-- What happens next: a trigger or a request for a backup, a request to save the configuration or to
-- change `auto_update`, a retry task that wakes, or one step of the task at a place.
pub data Action : Type 0 where
  start_backup : Bool → Action
  start_save : Config → Action
  start_set_auto_update : Bool → Action
  wake_retry : Action
  step_task : ℕ → Answer → Action

-- the retry task: nothing happens where none sleeps
unfoldable pub wake : Daemon → Daemon
wake d =
    if d.state.retries == 0
    then d
    else (let (s, fires) = retry_wakes d.state in
        record { state = s; tasks = if fires then spawned true ∷ d.tasks else d.tasks })

unfoldable pub step_at : ℕ → Answer → List Task → DaemonState → DaemonState × List Task
step_at n a [] s = (s, [])
step_at zero a (t ∷ ts) s =
    let (s', next) = advance t a s in (s', elim next [ none ↦ ts | some t' ↦ t' ∷ ts ])
step_at (suc n) a (t ∷ ts) s = let (s', ts') = step_at n a ts s in (s', t ∷ ts')

unfoldable pub act : Action → Daemon → Daemon
act (start_backup scheduled) d = record d { tasks = spawned scheduled ∷ d.tasks }
act (start_save cfg) d = record d { tasks = save_file cfg ∷ d.tasks }
act (start_set_auto_update auto) d = record d { tasks = set_auto_update auto ∷ d.tasks }
act wake_retry d = wake d
act (step_task n a) d =
    let (s, ts) = step_at n a d.tasks d.state in record { state = s; tasks = ts }

unfoldable pub run : List Action → Daemon → Daemon
run [] d = d
run (x ∷ xs) d = run xs (act x d)
