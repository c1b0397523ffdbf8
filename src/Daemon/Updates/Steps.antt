-- ===== src/Daemon/Updates/Steps.antt =====
-- What each step of the handlers for updates changes of the checks.
use backr.Base.{
  if◌then◌else◌, Bool-cases, Text, Result, ok, err, ℕ, zero, suc, ◌+◌, ◌≤◌, ◌≡◌, refl, sym, ◌∙◌,
  ◌≢◌, ◌⊎◌, inl, inr, Bool, true, false, ◌&&◌, not, Option, none, some, arith,
}
use backr.Update.Engine.{should_check}
use backr.Daemon.State.{Config}
use backr.Daemon.Updates.{
  auto_check_window, UpdateState, auto_update, handle_set_update_settings, Spawns,
  spawn_update_worker, handle_apply_update, handle_auto_update_tick, begin_check, finish_check,
  available, set_in, launch, UpdateFault, busy, Event, tick, begun, finished, set_settings, applied,
  backup, finish_one, happen,
}

-- what a state may still start, with what it has started
abbrev pub started : UpdateState → ℕ
started s = s.launched + s.checking

-- Nothing but a poke records a check or begins one.
pub record Quiet (s s' : UpdateState) : Type 0 where
  pub stamp : s'.stamp ≡ s.stamp
  pub due : s'.due ≡ s.due
  pub fewer : started s' ≤ started s

finish_one-Quiet :
    (status : Option Bool) (located : Bool) (spawns : Spawns) (s : UpdateState) (n : ℕ)
    → s.checking ≡ n
    → Quiet s (finish_one status located spawns s n)
unfolding finish_check
finish_one-Quiet status located spawns s zero h = record {
  stamp = refl;
  due = refl;
  fewer = omega arith;
}
finish_one-Quiet status located spawns s (suc n) h =
    go (available status && (not s.daemon.in_progress && (located && spawn_update_worker spawns)))
  where
    go :
        (b : Bool)
        → Quiet s (
            if b
            then record s { checking = n; launched = suc s.launched }
            else record s { checking = n })
    go true = record { stamp = refl; due = refl; fewer = omega arith }
    go false = record { stamp = refl; due = refl; fewer = omega arith }

set_in-Quiet :
    (config : Option Config) (auto : Bool) (saved : Result (Unit {0}) (Unit {0})) (s : UpdateState)
    → Quiet s (set_in config auto saved s).0
unfolding set_in
set_in-Quiet none auto saved s = record { stamp = refl; due = refl; fewer = omega arith }
set_in-Quiet (some cfg) auto (err e) s = record { stamp = refl; due = refl; fewer = omega arith }
set_in-Quiet (some cfg) auto (ok _) s = record { stamp = refl; due = refl; fewer = omega arith }

launch-Quiet :
    (target : Result Text (Unit {0})) (spawned : Bool) (s : UpdateState)
    → Quiet s (launch target spawned s).0
unfolding launch
launch-Quiet (err e) spawned s = record { stamp = refl; due = refl; fewer = omega arith }
launch-Quiet (ok _) true s = record { stamp = refl; due = refl; fewer = omega arith }
launch-Quiet (ok _) false s = record { stamp = refl; due = refl; fewer = omega arith }

-- an event other than a poke
pub happen-Quiet :
    (e : Event) (s : UpdateState)
    → ((now : ℕ) → e ≢ tick now)
    → ((recorded : Bool) (now : ℕ) → e ≢ begun recorded now)
    → Quiet s (happen e s)
unfolding happen handle_set_update_settings handle_apply_update
happen-Quiet (tick now) s h k = absurd (h now refl)
happen-Quiet (begun recorded now) s h k = absurd (k recorded now refl)
happen-Quiet (finished status located spawns) s h k =
    finish_one-Quiet status located spawns s s.checking refl
happen-Quiet (set_settings none saved) s h k = record {
  stamp = refl;
  due = refl;
  fewer = omega arith;
}
happen-Quiet (set_settings (some auto) saved) s h k = set_in-Quiet s.daemon.config auto saved s
happen-Quiet (applied target spawns) s h k = go s.daemon.in_progress
  where
    go :
        (b : Bool)
        → Quiet s
            (if◌then◌else◌ {A = UpdateState × Result (Unit {0}) (UpdateFault (Unit {0}))} b
              (s, err busy)
              (launch target (spawn_update_worker spawns) s)).0
    go true = record { stamp = refl; due = refl; fewer = omega arith }
    go false = launch-Quiet target (spawn_update_worker spawns) s
happen-Quiet (backup runs) s h k = record { stamp = refl; due = refl; fewer = omega arith }

-- What may be due: nothing, or, while a poke is between its steps, its own check, and then `Room`.
unfoldable pub Ready : Bool → Type 0 → UpdateState → Type 0
Ready looking Room s = (s.due ≡ 0) ⊎ ((looking ≡ true) × (s.due ≡ 1) × Room)

pub none_due : (Room : Type 0) (s : UpdateState) → Ready false Room s → s.due ≡ 0
unfolding Ready
none_due Room s ready = elim ready [ inl free ↦ free | inr (looking, _, _) ↦ cc ]

pub Ready-Quiet :
    (looking : Bool) (Room : Type 0) (s s' : UpdateState)
    → Quiet s s'
    → Ready looking Room s
    → Ready looking Room s'
unfolding Ready
Ready-Quiet looking Room s s' q ready = elim ready [
  | inl free ↦ inl (q.due ∙ free)
  | inr (looks, one, room) ↦ inr (looks, q.due ∙ one, room)
]

-- A look starts nothing, and finds a check due only after the window.
pub record Looked (now : ℕ) (s s' : UpdateState) : Type 0 where
  pub stamp : s'.stamp ≡ s.stamp
  pub same : started s' ≡ started s
  pub ready :
      (s'.due ≡ s.due)
      ⊎ ((s'.due ≡ suc s.due)
          × ((last : ℕ) → s.stamp ≡ some last → last ≤ now → last + auto_check_window ≤ now))

pub tick-Looked : (now : ℕ) (s : UpdateState) → Looked now s (handle_auto_update_tick now s)
unfolding handle_auto_update_tick should_check
tick-Looked now s =
    elim (Bool-cases (auto_update s.daemon && should_check auto_check_window s.stamp now)) [
      | inr no_check ↦
          rw (handle_auto_update_tick, no_check)
            (record { stamp = refl; same = refl; ready = inl refl })
      | inl check ↦
          rw (handle_auto_update_tick, check)
            (record {
              stamp = refl;
              same = refl;
              ready = inr (
                refl,
                λ last e later. due_after (auto_update s.daemon) s.stamp check last e later,
              );
            })
    ]
  where
    due_after :
        (auto : Bool) (stamp : Option ℕ)
        → (auto && should_check auto_check_window stamp now) ≡ true
        → (last : ℕ) → stamp ≡ some last
        → last ≤ now
        → last + auto_check_window ≤ now
    due_after false stamp h last e later = cc
    due_after true none h last e later = cc
    due_after true (some l) h last e later = let same : l ≡ last = cc in ground arith

-- The second step does nothing, or it begins one check and writes its time.
pub record Begun (now : ℕ) (s s' : UpdateState) : Type 0 where
  pub stamp : s'.stamp ≡ some now
  pub due : suc s'.due ≡ s.due
  pub one : started s' ≡ suc (started s)

pub begin_check-cases :
    (now : ℕ) (s : UpdateState) (n : ℕ)
    → s.due ≡ n
    → ((s.due ≡ 0) × (begin_check true now n s ≡ s)) ⊎ Begun now s (begin_check true now n s)
unfolding begin_check
begin_check-cases now s zero e = inl (e, refl)
begin_check-cases now s (suc n) e = inr (record { stamp = refl; due = sym e; one = omega arith })
