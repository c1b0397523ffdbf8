-- ===== src/Update/Worker/Kept.antt =====
-- The worker and a backup that is under way.
use backr.Base.{
  if◌then◌else◌, Bool-cases, Text, eq_text, Result, ok, err, ℕ, ◌≡◌, refl, ap, ◌∙◌, ◌≢◌, ◌⊎◌, inl,
  inr, Bool, true, false, Option, some, List,
}
use backr.Ipc.Value.{Value, find_field}
use backr.Daemon.State.{Config, DaemonState}
use backr.Update.Release.{ReleaseInfo, is_newer}
use backr.Update.Engine.{
  ApplyOutcome, updated, up_to_date, UpdateError, failed, World, Staged, stage, swap_unless_busy,
  stage_and_apply, apply_update,
}
use backr.Update.Worker.{
  handle_get_backup_status, backup_in_progress, Report, outcome, check_for_update, run_update,
}

-- The worker reads the daemon's flag.
backup_in_progress-handle_get_backup_status :
    (write_time : ℕ → Value) (now : ℕ) (d : DaemonState) (cfg : Config)
    → d.config ≡ some cfg
    → backup_in_progress (handle_get_backup_status write_time now d) ≡ d.in_progress
unfolding backup_in_progress handle_get_backup_status find_field eq_text
backup_in_progress-handle_get_backup_status write_time now d cfg h =
    simp (handle_get_backup_status, h, backup_in_progress, find_field, eq_text) refl

-- A daemon with a configuration and a backup under way.
pub record Busy (d : DaemonState) : Type 0 where
  pub config : Config
  pub configured : d.config ≡ some config
  pub runs : d.in_progress ≡ true

-- Nothing is installed, and no update is reported.
pub record IsKept {E S : Type 0} (s : S) (r : S × Result Report (UpdateError E)) : Type 0 where
  pub same : r.0 ≡ s
  pub not_updated : (from to : Text) → r.1 ≢ ok (outcome (updated from to))

module _ {E S : Type 0} (world : World E) (swap : List Staged → S → S × Result (Unit {0}) E) where
  -- the same of the engine
  record Unchanged (s : S) (r : S × Result ApplyOutcome (UpdateError E)) : Type 0 where
    same : r.0 ≡ s
    not_updated : (from to : Text) → r.1 ≢ ok (updated from to)

  -- the second answer is that a backup runs
  late-Unchanged :
      (current : Text) (release : ReleaseInfo) (staging : Result (Unit {0}) E) (s : S)
      → Unchanged s (apply_update world swap false true current (ok release) staging s)
  unfolding apply_update stage_and_apply swap_unless_busy
  late-Unchanged current release staging s = elim (Bool-cases (is_newer release.tag current)) [
    | inr old ↦ rw (apply_update, old) (record { same = refl; not_updated = λ from to e. cc })
    | inl newer ↦ rw (apply_update, newer) (staged staging (stage world release) refl)
  ]
    where
      staged :
          (staging : Result (Unit {0}) E) (r : Result (List Staged) (UpdateError E))
          → stage world release ≡ r
          → Unchanged s (elim staging [
            | err e ↦ (s, err (failed e))
            | ok _ ↦
                let (s', r) = stage_and_apply world swap true release s in
                (
                  s',
                  elim r [
                    | err e ↦ err e
                    | ok applied ↦
                        if applied
                        then ok (updated current release.tag)
                        else ok backr.Update.Engine.backup_in_progress
                  ],
                )
          ])
      staged (err e) r h = record { same = refl; not_updated = λ from to e. cc }
      staged (ok _) (err e) h =
          rw (stage_and_apply, h) (record { same = refl; not_updated = λ from to e. cc })
      staged (ok _) (ok l) h =
          rw (stage_and_apply, h) (record { same = refl; not_updated = λ from to e. cc })

  apply_update-Unchanged :
      (busy busy_later : Bool) (current : Text) (latest : Result ReleaseInfo E)
      (staging : Result (Unit {0}) E) (s : S)
      → (busy ≡ true) ⊎ (busy_later ≡ true)
      → Unchanged s (apply_update world swap busy busy_later current latest staging s)
  unfolding apply_update
  apply_update-Unchanged true later current latest staging s h = record {
    same = refl;
    not_updated = λ from to e. cc;
  }
  apply_update-Unchanged false false current latest staging s (inl e) = cc
  apply_update-Unchanged false false current latest staging s (inr e) = cc
  apply_update-Unchanged false true current (err e) staging s h = record {
    same = refl;
    not_updated = λ from to e. cc;
  }
  apply_update-Unchanged false true current (ok release) staging s h =
      late-Unchanged current release staging s

  reported :
      (r : Result ApplyOutcome (UpdateError E)) (from to : Text)
      → r ≢ ok (updated from to)
      → ◌≢◌ {A = Result Report (UpdateError E)}
          (elim r [ ok o ↦ ok (outcome o) | err e ↦ err e ])
          (ok (outcome (updated from to)))
  reported (err e) from to h q = cc
  reported (ok o) from to h q = h (let same : o ≡ updated from to = cc in ap ok same)

  run-IsKept :
      (check_only : Bool) (current : Text) (first second : Option Value)
      (latest : Result ReleaseInfo E) (staging : Result (Unit {0}) E) (s : S)
      → Unchanged s (
          apply_update world swap
            (backup_in_progress first)
            (backup_in_progress second)
            current
            latest
            staging
            s)
      → IsKept s (run_update world swap check_only current first second latest staging s)
  unfolding run_update check_for_update
  run-IsKept true current first second (err e) staging s h = record {
    same = refl;
    not_updated = λ from to e. cc;
  }
  run-IsKept true current first second (ok l) staging s h = record {
    same = refl;
    not_updated = λ from to e. cc;
  }
  run-IsKept false current first second latest staging s h = record {
    same = h.same;
    not_updated = λ from to. reported _ from to (h.not_updated from to);
  }

  -- Where a daemon that has a configuration and a backup under way answers one of the two questions of the
  -- worker, the worker installs nothing and reports no update, whatever the network and the other answer are.
  pub run_update-IsKept :
      (write_time : ℕ → Value) (now later : ℕ) (d d' : DaemonState) (check_only : Bool)
      (current : Text) (latest : Result ReleaseInfo E) (staging : Result (Unit {0}) E) (s : S)
      → Busy d ⊎ Busy d'
      → IsKept s (
          run_update world swap check_only current
            (handle_get_backup_status write_time now d)
            (handle_get_backup_status write_time later d')
            latest
            staging
            s)
  run_update-IsKept write_time now later d d' check_only current latest staging s h =
      run-IsKept check_only current _ _ latest staging s
        (apply_update-Unchanged _ _ current latest staging s (answers h))
    where
      answers :
          Busy d ⊎ Busy d'
          → (backup_in_progress (handle_get_backup_status write_time now d) ≡ true)
            ⊎ (backup_in_progress (handle_get_backup_status write_time later d') ≡ true)
      answers (inl b) = inl (
          backup_in_progress-handle_get_backup_status write_time now d b.config b.configured
          ∙ b.runs)
      answers (inr b) = inr (
          backup_in_progress-handle_get_backup_status write_time later d' b.config b.configured
          ∙ b.runs)
