-- ===== src/Daemon/Exclusion.antt =====
-- What holds in every state that the daemon reaches.
use backr.Base.{
  ◌==◌, Bool-cases, Option-cases, Text, ℕ, zero, suc, ◌+◌, ◌≤◌, ◌≡◌, refl, ap, inl, inr, Bool, true,
  false, Option, none, some, List, [], ◌∷◌, arith,
}
use backr.Daemon.State.{
  Config, DaemonState, Phase, claimed, running, syncing, stamped, saved, ended, releasing, trailing,
  Task, spawned, backup, save_file, save_slot, set_auto_update, Answer,
}
use backr.Daemon.Tasks.{
  schedule_retry, retry_wakes, conclude, begin_cycle, advance_backup, claim, advance, Daemon,
  Action, start_backup, start_save, start_set_auto_update, wake_retry, step_task, wake, step_at,
  act, run,
}

-- Whether a phase holds the flag `in_progress`.
abbrev pub phase_holds : Phase → ℕ
phase_holds claimed = 1
phase_holds (running _ _) = 1
phase_holds (syncing _ _) = 1
phase_holds (stamped _ _) = 1
phase_holds (saved _) = 1
phase_holds (ended _) = 1
phase_holds releasing = 1
phase_holds trailing = 0

abbrev pub holds : Task → ℕ
holds (spawned _) = 0
holds (backup _ phase) = phase_holds phase
holds (save_file _) = 0
holds (save_slot _) = 0
holds (set_auto_update _) = 0

abbrev pub holders : List Task → ℕ
holders [] = 0
holders (t ∷ ts) = holds t + holders ts

abbrev pub flag : Bool → ℕ
flag true = 1
flag false = 0

abbrev pub holds_next : Option Task → ℕ
holds_next none = 0
holds_next (some t) = holds t

-- One backup holds the flag where it is set, and none where it is not; and where a retry is pending,
-- a task sleeps that will make it.
pub record IsSound (d : Daemon) : Type 0 where
  pub exclusive : holders d.tasks ≡ flag d.state.in_progress
  pub awaited : flag d.state.retry_pending ≤ d.state.retries

-- The balance of a step, and the retries.
abbrev Balanced : ℕ → DaemonState → DaemonState × Option Task → Type 0
Balanced h s (s', next) =
    (flag s'.in_progress + h ≡ flag s.in_progress + holds_next next)
    × (flag s.retry_pending ≤ s.retries → flag s'.retry_pending ≤ s'.retries)

flag-bound : (b : Bool) → flag b ≤ 1
flag-bound true = omega arith
flag-bound false = omega arith

abbrev next_of : Bool → Option Phase → Option Task
next_of scheduled none = none
next_of scheduled (some phase) = some (backup scheduled phase)

begin_cycle-holds :
    (config : Option Config) (targets : Option (List Text))
    → phase_holds (begin_cycle config targets) ≡ 1
unfolding begin_cycle
begin_cycle-holds none targets = refl
begin_cycle-holds (some cfg) none = refl
begin_cycle-holds (some cfg) (some []) = refl
begin_cycle-holds (some cfg) (some (p ∷ ps)) = refl

conclude-frame :
    (scheduled good : Bool) (s : DaemonState)
    → ((conclude scheduled good s).in_progress ≡ s.in_progress)
      × (flag s.retry_pending ≤ s.retries
          → flag (conclude scheduled good s).retry_pending ≤ (conclude scheduled good s).retries)
unfolding conclude schedule_retry
conclude-frame true true s = (refl, λ h. omega arith)
conclude-frame true false s = elim (Bool-cases s.retry_pending) [
  | inl e ↦ rw (conclude, schedule_retry, e) (refl, λ h. h)
  | inr e ↦ rw (conclude, schedule_retry, e) (refl, λ h. omega arith)
]
conclude-frame false good s = (refl, λ h. h)

advance_backup-Balanced :
    (scheduled : Bool) (phase : Phase) (a : Answer) (s : DaemonState)
    → phase_holds phase ≤ flag s.in_progress
    → Balanced
        (phase_holds phase)
        s
        (let (s', next) = advance_backup scheduled phase a s in (s', next_of scheduled next))
unfolding advance_backup
advance_backup-Balanced scheduled claimed a s h =
    (omega (arith, begin_cycle-holds s.config a.targets), λ k. k)
advance_backup-Balanced scheduled (running cfg (p ∷ ps)) a s h = (refl, λ k. k)
advance_backup-Balanced scheduled (running cfg []) a s h = (refl, λ k. k)
advance_backup-Balanced scheduled (syncing cfg ps) a s h = elim (Bool-cases a.good) [
  | inl e ↦ rw (advance_backup, e) (refl, λ k. k)
  | inr e ↦ rw (advance_backup, e) (refl, λ k. k)
]
advance_backup-Balanced scheduled (stamped cfg now) a s h = elim (Bool-cases a.good) [
  | inl e ↦ rw (advance_backup, e) (refl, λ k. k)
  | inr e ↦ rw (advance_backup, e) (refl, λ k. k)
]
advance_backup-Balanced scheduled (saved updated) a s h = (refl, λ k. k)
advance_backup-Balanced scheduled (ended good) a s h =
    let (same, kept) = conclude-frame scheduled good s in (ap (λ b. flag b + 1) same, kept)
advance_backup-Balanced true releasing a s h = (omega (arith, h, flag-bound s.in_progress), λ k. k)
advance_backup-Balanced false releasing a s h = (omega (arith, h, flag-bound s.in_progress), λ k. k)
advance_backup-Balanced scheduled trailing a s h = (refl, λ k. k)

claim-Balanced : (scheduled : Bool) (s : DaemonState) → Balanced 0 s (claim scheduled s)
unfolding claim
claim-Balanced scheduled s = elim (Bool-cases s.in_progress) [
  | inl e ↦ simp (claim, e) (refl, λ k. k)
  | inr e ↦ simp (claim, e) (refl, λ k. k)
]

advance-Balanced :
    (t : Task) (a : Answer) (s : DaemonState)
    → holds t ≤ flag s.in_progress
    → Balanced (holds t) s (advance t a s)
unfolding advance
advance-Balanced (spawned scheduled) a s h = claim-Balanced scheduled s
advance-Balanced (backup scheduled phase) a s h =
    go (advance_backup scheduled phase a s).1 (advance_backup-Balanced scheduled phase a s h)
  where
    go :
        (next : Option Phase)
        → Balanced
            (phase_holds phase)
            s
            ((advance_backup scheduled phase a s).0, next_of scheduled next)
        → Balanced (phase_holds phase) s (
          (advance_backup scheduled phase a s).0,
          elim next as (λ _. Option Task) [
            | none ↦ none
            | some phase' ↦ some (backup scheduled phase')
          ],
        )
    go none b = b
    go (some phase') b = b
advance-Balanced (save_file cfg) a s h = elim (Bool-cases a.good) [
  | inl e ↦ rw (advance, e) (refl, λ k. k)
  | inr e ↦ rw (advance, e) (refl, λ k. k)
]
advance-Balanced (save_slot cfg) a s h = (refl, λ k. k)
advance-Balanced (set_auto_update auto) a s h = elim (Option-cases s.config) [
  | inl e ↦ simp (advance, e) (refl, λ k. k)
  | inr (cfg, e) ↦ simp (advance, e) (refl, λ k. k)
]

step_at-Balanced :
    (n : ℕ) (a : Answer) (ts : List Task) (s : DaemonState)
    → holders ts ≤ flag s.in_progress
    → (let (s', ts') = step_at n a ts s in
        (flag s'.in_progress + holders ts ≡ flag s.in_progress + holders ts')
        × (flag s.retry_pending ≤ s.retries → flag s'.retry_pending ≤ s'.retries))
unfolding step_at
step_at-Balanced n a [] s h = (refl, λ k. k)
step_at-Balanced zero a (t ∷ ts) s h =
    go (advance t a s).1 (advance-Balanced t a s (omega (arith, h)))
  where
    go :
        (next : Option Task)
        → Balanced (holds t) s ((advance t a s).0, next)
        → (let ts' = elim next as (λ _. List Task) [ none ↦ ts | some t' ↦ t' ∷ ts ] in
            (flag (advance t a s).0.in_progress + holders (t ∷ ts)
              ≡ flag s.in_progress + holders ts')
            × (flag s.retry_pending ≤ s.retries
                → flag (advance t a s).0.retry_pending ≤ (advance t a s).0.retries))
    go none (b, k) = (omega (arith, b), k)
    go (some t') (b, k) = (omega (arith, b), k)
step_at-Balanced (suc n) a (t ∷ ts) s h =
    let (b, k) = step_at-Balanced n a ts s (omega (arith, h)) in (omega (arith, b), k)

wake-IsSound : (d : Daemon) → IsSound d → IsSound (wake d)
unfolding wake retry_wakes
wake-IsSound d h = elim (Bool-cases (d.state.retries == 0)) [
  | inl e ↦ simp (wake, e) h
  | inr e ↦ elim (Bool-cases d.state.retry_pending) [
    | inl f ↦
        simp (wake, e, retry_wakes, f)
          (record { exclusive = omega (arith, h.exclusive); awaited = omega arith })
    | inr f ↦
        simp (wake, e, retry_wakes, f)
          (record { exclusive = omega (arith, h.exclusive); awaited = omega arith })
  ]
]

act-IsSound : (x : Action) (d : Daemon) → IsSound d → IsSound (act x d)
unfolding act
act-IsSound (start_backup scheduled) d h = record {
  exclusive = omega (arith, h.exclusive);
  awaited = h.awaited;
}
act-IsSound (start_save cfg) d h = record {
  exclusive = omega (arith, h.exclusive);
  awaited = h.awaited;
}
act-IsSound (start_set_auto_update auto) d h = record {
  exclusive = omega (arith, h.exclusive);
  awaited = h.awaited;
}
act-IsSound wake_retry d h = wake-IsSound d h
act-IsSound (step_task n a) d h =
    let (b, k) = step_at-Balanced n a d.tasks d.state (omega (arith, h.exclusive)) in
    record { exclusive = omega (arith, b, h.exclusive); awaited = k h.awaited }

-- In every state that the daemon reaches from a sound one, by whatever actions and answers, exactly
-- one backup is under way where the flag is set, and none where it is not; and a retry that is pending
-- has a task that sleeps.
pub run-IsSound : (xs : List Action) (d : Daemon) → IsSound d → IsSound (run xs d)
unfolding run
run-IsSound [] d h = h
run-IsSound (x ∷ xs) d h = run-IsSound xs (act x d) (act-IsSound x d h)
