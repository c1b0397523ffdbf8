-- ===== src/Schedule/Single.antt =====
-- No two loops run at once, as long as restarts follow one another.
use backr.Base.{
  ==_self, length, filter, ℕ, ◌≡◌, refl, ap, Bool, ◌&&◌, not, Option, none, some, List, [], ◌∷◌,
}
use backr.Schedule.{
  Loop, SchedulerState, new_scheduler, Settings, on_loop, stop_with, cancel_loop, abort_loop,
  spawned_loop, after, restart_scheduler,
}

abbrev pub runs : Loop → Bool
runs l = not l.cancelled && not l.aborted

-- the loops that still run
abbrev pub running : SchedulerState → List Loop
running s = filter runs s.loops

-- A slot names the latest loop, or nothing.
data Names : Option ℕ → List Loop → Type 0 where
  nothing : (ls : List Loop) → filter runs ls ≡ [] → Names none ls
  latest : (l : Loop) (ls : List Loop) → filter runs ls ≡ [] → Names (some (length ls)) (l ∷ ls)

-- Both slots name the only loop that can run.
record IsTracked (s : SchedulerState) : Type 0 where
  same : s.handle ≡ s.cancel
  names : Names s.cancel s.loops

stopped_none :
    (slot : Option ℕ) (ls : List Loop)
    → Names slot ls
    → filter runs (stop_with abort_loop slot (stop_with cancel_loop slot ls)) ≡ []
unfolding on_loop
stopped_none _ _ (nothing ls h) = h
stopped_none _ _ (latest l ls h) = simp (==_self (length ls)) h

-- the loop that a restart leaves running
abbrev pub restarted : Option Settings → ℕ → List Loop
restarted cfg now = elim cfg [ none ↦ [] | some c ↦ spawned_loop c now ∷ [] ]

restart_scheduler-running :
    (cfg : Option Settings) (now : ℕ) (s : SchedulerState)
    → IsTracked s
    → (running (restart_scheduler cfg now s) ≡ restarted cfg now)
      × IsTracked (restart_scheduler cfg now s)
unfolding restart_scheduler
restart_scheduler-running cfg now s h = go cfg _ stopped
  where
    stopped :
        filter runs (stop_with abort_loop s.handle (stop_with cancel_loop s.cancel s.loops)) ≡ []
    stopped = rw (h.same) (stopped_none s.cancel s.loops h.names)

    go :
        (cfg : Option Settings) (ls : List Loop)
        → filter runs ls ≡ []
        → (running (after cfg now ls) ≡ restarted cfg now) × IsTracked (after cfg now ls)
    go none ls e = (e, record { same = refl; names = nothing ls e })
    go (some c) ls e =
        (ap (λ l. spawned_loop c now ∷ l) e, record { same = refl; names = latest _ ls e })

-- the restarts of a daemon, one after the other, each with its time
unfoldable pub run_restarts : List (Option Settings × ℕ) → SchedulerState → SchedulerState
run_restarts [] s = s
run_restarts ((cfg, now) ∷ rs) s = run_restarts rs (restart_scheduler cfg now s)

run_restarts-IsTracked :
    (rs : List (Option Settings × ℕ)) (s : SchedulerState)
    → IsTracked s
    → IsTracked (run_restarts rs s)
unfolding run_restarts
run_restarts-IsTracked [] s h = h
run_restarts-IsTracked ((cfg, now) ∷ rs) s h =
    run_restarts-IsTracked rs _ (restart_scheduler-running cfg now s h).1

-- After any restarts one after the other, the loop of the last one is the only loop that runs, and
-- none runs where it had no configuration.
pub restart_scheduler-run_restarts :
    (rs : List (Option Settings × ℕ)) (cfg : Option Settings) (now : ℕ)
    → running (restart_scheduler cfg now (run_restarts rs new_scheduler)) ≡ restarted cfg now
restart_scheduler-run_restarts rs cfg now =
    (restart_scheduler-running cfg now _
      (run_restarts-IsTracked rs new_scheduler (record { same = refl; names = nothing [] refl }))).0
