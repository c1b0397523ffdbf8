-- ===== src/Update/Worker.antt =====
-- backr-cli/src/update_worker.rs: the worker that updates, with the daemon's answer to its question, in
-- backrd/src/ipc/handlers.rs. The socket, the network and the service are arguments.
use backr.Base.{
  Bool-eq, Result-cases, All-lines, lines-lack_newline, ap₂, trim_idem, trim-strip_cr,
  strip_cr_of_lacks, All-trim, All-trim_start_by, All-trim_end_by, lines-append, lines_line,
  map-trim-lines-finish, strip_prefix, splitn_from, splitn, ends_with_char, split-nil,
  split-cons_sep, ltb, leb, ◌==◌, if◌then◌else◌, ==_iff, ==_self, Bool-cases, Option-cases, length,
  take, head?, any, filter, length-append, length-filter, filter-append, All, All-append,
  All-append_iff, All-map, All-filter, Text, codes, eq_text, is_empty, contains_char, starts_with,
  contains, is_whitespace, trim_start_by, trim_end_by, trim, split_from, split, join, replace_char,
  strip_cr, lines_from, lines, is_digit, digits_from, parse_uint, eq_text→≡, eq_text_self,
  eq_text_iff, contains_char-eq-false_iff, split_from-append, split-append, split_from_of_lacks,
  trim_end_by_parts, trim_start_by_parts, trim_start_by-cons, trim_end_by-concat, is_empty-concat,
  ne_of_eq_text, eq_text_of_ne, ne_nil_of_is_empty, is_empty_of_ne_nil, Result, ok, err, map_err,
  ok_or, to_option, >>=-eq-ok, ℕ, zero, suc, ◌+◌, ◌-◌, ◌*◌, ◌/◌, ◌%◌, ◌^◌, ◌≤◌, ◌<◌, String, ◌≡◌,
  refl, sym, ap, ◌∙◌, subst, ◌≢◌, ◌↔◌, ◌⊎◌, inl, inr, Bool, true, false, ◌&&◌, ◌||◌, not, Option,
  none, some, List, [], ◌∷◌, ◌++◌, map, reverse, append-nil, append_assoc, map-append,
  reverse-append, arith,
}
use backr.Ipc.Value.{
  Value, null, bool, string, object, end, field, find_field, get, as_bool, optional,
}
use backr.Daemon.State.{Config, DaemonState}
use backr.Update.Release.{ReleaseInfo, is_newer}
use backr.Update.Engine.{ApplyOutcome, UpdateError, failed, World, Staged, apply_update}
pub mod Kept

-- `last_backup_at.or(…)`
abbrev pub last_or : {A : Type 0} → Option A → Option A → Option A
last_or (some a) other = some a
last_or none other = other

-- The status, with times in seconds; `none`: there is no configuration.
unfoldable pub handle_get_backup_status : (ℕ → Value) → ℕ → DaemonState → Option Value
handle_get_backup_status write_time now s = elim s.config [
  | none ↦ none
  | some cfg ↦
      let last = last_or s.last_backup_at cfg.last_backup_at in
      let next = elim last as (λ _. ℕ) [
        | some t ↦ t + cfg.interval_hours * 3600
        | none ↦ now + cfg.interval_hours * 3600
      ] in
      some (
        object (
          field (codes "last_backup_at") (optional write_time last) (
            field (codes "next_backup_at") (write_time next) (
              field (codes "in_progress") (bool s.in_progress)
                (field (codes "active_project") (optional string s.active_project) end)))))
]

-- `send_command_blocking(…).ok().and_then(…).unwrap_or(false)`
unfoldable pub backup_in_progress : Option Value → Bool
backup_in_progress none = false
backup_in_progress (some v) = elim (get (codes "in_progress") v) [
  | none ↦ false
  | some b ↦ elim (as_bool b) [ none ↦ false | some busy ↦ busy ]
]

-- The polls of a health check from the k-th on: `ping k` says whether the daemon answers.
unfoldable pub poll : (ℕ → Bool) → ℕ → ℕ → Bool
poll ping zero k = false
poll ping (suc left) k = let rest = poll ping left (suc k) in if ping k then true else rest

unfoldable pub health_check : (ℕ → Bool) → Bool
unfolding poll
health_check ping = poll ping 30 0

pub record UpdateStatus : Type 0 where
  pub current_version : Text
  pub latest_version : Option Text
  pub update_available : Bool

unfoldable pub check_for_update : {E : Type 0} → Text → Result ReleaseInfo E → Result UpdateStatus E
check_for_update current (err e) = err e
check_for_update current (ok latest) = ok (record {
  current_version = current;
  latest_version = some latest.tag;
  update_available = is_newer latest.tag current;
})

-- what a run reports
pub data Report : Type 0 where
  checked : UpdateStatus → Report
  outcome : ApplyOutcome → Report

module _ {E S : Type 0} (world : World E) (swap : List Staged → S → S × Result (Unit {0}) E) where
  -- `first` and `second` are what the daemon answers where the engine asks whether it is busy.
  unfoldable pub run_update :
      Bool
      → Text
      → Option Value
      → Option Value
      → Result ReleaseInfo E
      → Result (Unit {0}) E
      → S
      → S × Result Report (UpdateError E)
  run_update check_only current first second latest staging s =
      if check_only
      then (
        s,
        elim (check_for_update current latest) [
          | ok status ↦ ok (checked status)
          | err e ↦ err (failed e)
        ],
      )
      else (let (s', r) =
            apply_update world swap (backup_in_progress first) (backup_in_progress second) current
              latest staging s in
          (s', elim r [ ok o ↦ ok (outcome o) | err e ↦ err e ]))
