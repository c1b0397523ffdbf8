-- ===== src/Daemon/Updates.antt =====
-- The handlers of backrd/src/ipc/handlers.rs for updates: the preference, and what starts the worker that
-- updates. The network, the file of the last check and the start of a process are arguments.
use backr.Base.{
  Bool-eq, Result-cases, All-lines, lines-lack_newline, ap₂, trim_idem, trim-strip_cr,
  strip_cr_of_lacks, All-trim, All-trim_start_by, All-trim_end_by, lines-append, lines_line,
  map-trim-lines-finish, strip_prefix, splitn_from, splitn, ends_with_char, split-nil,
  split-cons_sep, ltb, leb, ◌==◌, if◌then◌else◌, ==_iff, ==_self, Bool-cases, Option-cases, length,
  take, head?, any, filter, length-append, length-filter, filter-append, All, All-append,
  All-append_iff, All-map, All-filter, Text, codes, eq_text, is_empty, contains_char, starts_with,
  contains, is_whitespace, trim_start_by, trim_end_by, trim, split_from, split, join, replace_char,
  strip_cr, lines_from, lines, is_digit, digits_from, parse_uint, eq_text→≡, eq_text_self,
  eq_text_iff, contains_char-eq-false_iff, split_from-append, split-append, split_from_of_lacks,
  trim_end_by_parts, trim_start_by_parts, trim_start_by-cons, trim_end_by-concat, is_empty-concat,
  ne_of_eq_text, eq_text_of_ne, ne_nil_of_is_empty, is_empty_of_ne_nil, Result, ok, err, map_err,
  ok_or, to_option, >>=-eq-ok, ℕ, zero, suc, ◌+◌, ◌-◌, ◌*◌, ◌/◌, ◌%◌, ◌^◌, ◌≤◌, ◌<◌, String, ◌≡◌,
  refl, sym, ap, ◌∙◌, subst, ◌≢◌, ◌↔◌, ◌⊎◌, inl, inr, Bool, true, false, ◌&&◌, ◌||◌, not, Option,
  none, some, List, [], ◌∷◌, ◌++◌, map, reverse, append-nil, append_assoc, map-append,
  reverse-append, arith,
}
use backr.Daemon.State.{Config, DaemonState}
use backr.Update.Engine.{should_check}
pub mod Steps
pub mod Throttled

-- `AUTO_CHECK_WINDOW`, in seconds
abbrev pub auto_check_window : ℕ
auto_check_window = 21600

pub data UpdateFault (E : Type 0) : Type 0 where
  invalid_input : UpdateFault E
  not_configured : UpdateFault E
  busy : UpdateFault E
  unlocated : E → UpdateFault E
  unsaved : E → UpdateFault E
  task_failed : UpdateFault E

pub record UpdateState : Type 0 where
  pub daemon : DaemonState
  -- the time in the file of the last check, where it can be read
  pub stamp : Option ℕ
  -- the handlers of a poke that found a check due and have not recorded it yet
  pub due : ℕ
  -- the checks that run in the background
  pub checking : ℕ
  -- the workers that checks started, and those that a call started
  pub launched : ℕ
  pub asked : ℕ

-- `guard.as_ref().map(|c| c.update.auto_update).unwrap_or(false)`
unfoldable pub auto_update : DaemonState → Bool
auto_update s = elim s.config [ none ↦ false | some cfg ↦ cfg.auto_update ]

abbrev pub handle_get_update_settings : UpdateState → Bool
handle_get_update_settings s = auto_update s.daemon

-- the change of a configuration
unfoldable pub set_in :
    {E : Type 0}
    → Option Config
    → Bool
    → Result (Unit {0}) E
    → UpdateState
    → UpdateState × Result Bool (UpdateFault E)
set_in none auto saved s = (s, err not_configured)
set_in (some cfg) auto (err e) s = (s, err (unsaved e))
set_in (some cfg) auto (ok _) s =
    let next = record cfg { auto_update = auto } in
    (record s { daemon = record s.daemon { config = some next; disk = some next } }, ok auto)

unfoldable pub handle_set_update_settings :
    {E : Type 0}
    → Option Bool
    → Result (Unit {0}) E
    → UpdateState
    → UpdateState × Result Bool (UpdateFault E)
handle_set_update_settings none saved s = (s, err invalid_input)
handle_set_update_settings (some auto) saved s = set_in s.daemon.config auto saved s

-- What the start of a process says: in a scope of systemd, and without it.
pub record Spawns : Type 0 where
  pub scoped : Bool
  pub plain : Bool

abbrev pub spawn_update_worker : Spawns → Bool
spawn_update_worker spawns = if spawns.scoped then true else spawns.plain

-- the start of the worker
unfoldable pub launch :
    {E : Type 0}
    → Result Text E
    → Bool
    → UpdateState
    → UpdateState × Result (Unit {0}) (UpdateFault E)
launch (err e) spawned s = (s, err (unlocated e))
launch (ok _) true s = (record s { asked = suc s.asked }, ok tt)
launch (ok _) false s = (s, err task_failed)

unfoldable pub handle_apply_update :
    {E : Type 0}
    → Result Text E
    → Spawns
    → UpdateState
    → UpdateState × Result (Unit {0}) (UpdateFault E)
handle_apply_update target spawns s =
    if s.daemon.in_progress then (s, err busy) else launch target (spawn_update_worker spawns) s

-- The poke of a surface, in two steps, between which other connections may run: the look at the preference
-- and at the file of the last check, and what follows where a check is due.
unfoldable pub handle_auto_update_tick : ℕ → UpdateState → UpdateState
handle_auto_update_tick now s =
    if auto_update s.daemon && should_check auto_check_window s.stamp now
    then record s { due = suc s.due }
    else s

-- The second step: `record_check` at its own time, and the start of the check. `recorded`: whether
-- `record_check` could write its file.
unfoldable pub begin_check : Bool → ℕ → ℕ → UpdateState → UpdateState
begin_check recorded now zero s = s
begin_check recorded now (suc n) s = record s {
  stamp = if recorded then some now else s.stamp;
  due = n;
  checking = suc s.checking;
}

abbrev pub available : Option Bool → Bool
available none = false
available (some update_available) = update_available

-- The end of a check in the background: whether it found a newer release (`none`: it failed), and whether
-- the worker was located.
unfoldable pub finish_check : Option Bool → Bool → Spawns → UpdateState → UpdateState
finish_check status located spawns s =
    if available status && (not s.daemon.in_progress && (located && spawn_update_worker spawns))
    then record s { launched = suc s.launched }
    else s

-- What can happen to the state.
pub data Event : Type 0 where
  tick : ℕ → Event
  begun : Bool → ℕ → Event
  finished : Option Bool → Bool → Spawns → Event
  set_settings : Option Bool → Result (Unit {0}) (Unit {0}) → Event
  applied : Result Text (Unit {0}) → Spawns → Event
  backup : Bool → Event

-- A check ends once.
abbrev pub finish_one : Option Bool → Bool → Spawns → UpdateState → ℕ → UpdateState
finish_one status located spawns s zero = s
finish_one status located spawns s (suc n) =
    finish_check status located spawns (record s { checking = n })

unfoldable pub happen : Event → UpdateState → UpdateState
happen (tick now) s = handle_auto_update_tick now s
happen (begun recorded now) s = begin_check recorded now s.due s
happen (finished status located spawns) s = finish_one status located spawns s s.checking
happen (set_settings auto saved) s = (handle_set_update_settings auto saved s).0
happen (applied target spawns) s = (handle_apply_update target spawns s).0
happen (backup runs) s = record s { daemon = record s.daemon { in_progress = runs } }

unfoldable pub happen_all : List Event → UpdateState → UpdateState
happen_all [] s = s
happen_all (e ∷ es) s = happen_all es (happen e s)
