-- ===== src/Schedule.antt =====
-- backr-core/src/scheduler.rs: the first delay, the period, and the restart of the loop that fires
-- the backups. A point in time and a duration are nanoseconds.
use backr.Base.{
  Bool-eq, Result-cases, All-lines, lines-lack_newline, ap₂, trim_idem, trim-strip_cr,
  strip_cr_of_lacks, All-trim, All-trim_start_by, All-trim_end_by, lines-append, lines_line,
  map-trim-lines-finish, strip_prefix, splitn_from, splitn, ends_with_char, split-nil,
  split-cons_sep, ltb, leb, ◌==◌, if◌then◌else◌, ==_iff, ==_self, Bool-cases, Option-cases, length,
  take, head?, any, filter, length-append, length-filter, filter-append, All, All-append,
  All-append_iff, All-map, All-filter, Text, codes, eq_text, is_empty, contains_char, starts_with,
  contains, is_whitespace, trim_start_by, trim_end_by, trim, split_from, split, join, replace_char,
  strip_cr, lines_from, lines, is_digit, digits_from, parse_uint, eq_text→≡, eq_text_self,
  eq_text_iff, contains_char-eq-false_iff, split_from-append, split-append, split_from_of_lacks,
  trim_end_by_parts, trim_start_by_parts, trim_start_by-cons, trim_end_by-concat, is_empty-concat,
  ne_of_eq_text, eq_text_of_ne, ne_nil_of_is_empty, is_empty_of_ne_nil, Result, ok, err, map_err,
  ok_or, to_option, >>=-eq-ok, ℕ, zero, suc, ◌+◌, ◌-◌, ◌*◌, ◌/◌, ◌%◌, ◌^◌, ◌≤◌, ◌<◌, String, ◌≡◌,
  refl, sym, ap, ◌∙◌, subst, ◌≢◌, ◌↔◌, ◌⊎◌, inl, inr, Bool, true, false, ◌&&◌, ◌||◌, not, Option,
  none, some, List, [], ◌∷◌, ◌++◌, map, reverse, append-nil, append_assoc, map-append,
  reverse-append, arith,
}
pub mod Delay
pub mod Single

abbrev pub second : ℕ
second = 1000000000

abbrev pub min_initial_delay_secs : ℕ
min_initial_delay_secs = 60

-- `a.max(b)`
abbrev pub larger : ℕ → ℕ → ℕ
larger a b = if leb a b then b else a

-- The number of whole seconds from the last backup to now, rounded towards zero, is negative where the
-- last backup is a second or more ahead.
unfoldable pub compute_initial_delay : Option ℕ → ℕ → ℕ → ℕ
compute_initial_delay none interval now = min_initial_delay_secs * second
compute_initial_delay (some last_ts) interval now =
    if leb second (last_ts - now)
    then interval
    else (let elapsed = (now - last_ts) / second * second in
        if leb interval elapsed
        then 0
        else larger (interval - elapsed) (min_initial_delay_secs * second))

-- `(hours as u64).saturating_mul(3600).max(60)`
unfoldable pub period_secs : ℕ → ℕ
period_secs hours = larger (if leb (2 ^ 64) (hours * 3600) then 2 ^ 64 - 1 else hours * 3600) 60

-- A spawned loop: it sleeps `delay`, then fires and sleeps `period` again and again, until its token
-- is cancelled or its task aborted.
pub record Loop : Type 0 where
  pub delay : ℕ
  pub period : ℕ
  pub cancelled : Bool
  pub aborted : Bool

-- the slots of `SchedulerState`, and every loop spawned so far, the latest first; a slot names a loop
-- by the number of loops spawned before it
pub record SchedulerState : Type 0 where
  pub handle : Option ℕ
  pub cancel : Option ℕ
  pub loops : List Loop

abbrev pub new_scheduler : SchedulerState
new_scheduler = record { handle = none; cancel = none; loops = [] }

-- the part of the configuration that the scheduler reads
pub record Settings : Type 0 where
  pub interval_hours : ℕ
  pub last_backup_at : Option ℕ

unfoldable pub on_loop : (Loop → Loop) → ℕ → List Loop → List Loop
on_loop f i [] = []
on_loop f i (l ∷ ls) = if length ls == i then f l ∷ ls else l ∷ on_loop f i ls

-- `slot.take()` and the call on what it held
abbrev pub stop_with : (Loop → Loop) → Option ℕ → List Loop → List Loop
stop_with f slot ls = elim slot [ none ↦ ls | some i ↦ on_loop f i ls ]

abbrev pub cancel_loop : Loop → Loop
cancel_loop l = record l { cancelled = true }

abbrev pub abort_loop : Loop → Loop
abort_loop l = record l { aborted = true }

-- the loop that a restart at the time `now` spawns
abbrev pub spawned_loop : Settings → ℕ → Loop
spawned_loop cfg now =
    let period = period_secs cfg.interval_hours * second in
    record {
      delay = compute_initial_delay cfg.last_backup_at period now;
      period = period;
      cancelled = false;
      aborted = false;
    }

-- the slots after a restart that left `ls`
abbrev pub after : Option Settings → ℕ → List Loop → SchedulerState
after cfg now ls = elim cfg [
  | none ↦ record { handle = none; cancel = none; loops = ls }
  | some c ↦ record {
    handle = some (length ls);
    cancel = some (length ls);
    loops = spawned_loop c now ∷ ls;
  }
]

unfoldable pub restart_scheduler : Option Settings → ℕ → SchedulerState → SchedulerState
restart_scheduler cfg now s =
    after cfg now (stop_with abort_loop s.handle (stop_with cancel_loop s.cancel s.loops))
