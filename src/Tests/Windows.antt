-- ===== src/Tests/Windows.antt =====
-- A pairing window that is opened, tried and left alone.
use backr.Base.{
  length, All, codes, ℕ, ◌+◌, ◌*◌, ◌≤◌, ◌<◌, ◌≡◌, refl, inr, true, Option, none, some, List, [],
  ◌∷◌, arith,
}
use backr.Pairing.Code.{PairingSession}
use backr.Pairing.Windows.{
  pairing_ttl_secs, PairingRuntime, sleeping, is_open, advance, Action, start_pairing, try_code,
  pass, step_task, step_at, act, run, no_windows,
}
use backr.Pairing.Windows.Bounded.{Waits, run-Bounded}
use backr.Pairing.Windows.Closing.{Ends, Fair, stepping, run_steps-Closed}

abbrev world : Option (ℕ × ℕ)
world = some (123456, 40000)

-- a start to its end, with a wrong code after it
abbrev opening : List Action
opening =
    start_pairing
    ∷ step_task 0 none
    ∷ step_task 0 none
    ∷ step_task 0 world
    ∷ step_task 0 none
    ∷ step_task 0 none
    ∷ try_code (codes "000000")
    ∷ pass 60
    ∷ []

opened : (run opening (no_windows 1000)).tasks ≡ sleeping 1180 ∷ []
unfolding run act step_at advance
opened = refl

quiet : All (Waits (run opening (no_windows 1000)).slots.now) (run opening (no_windows 1000)).tasks
unfolding run act step_at advance Waits
quiet = (omega arith, tt)

run-Bounded_example :
    (let s = (run opening (no_windows 1000)).slots in
      ((w : PairingRuntime) → s.pairing_runtime ≡ some w → s.now < w.opened_at + pairing_ttl_secs)
      × ((x : PairingSession) → s.pairing ≡ some x → is_open s ≡ true))
run-Bounded_example = run-Bounded opening 1000 quiet

abbrev steps : List (ℕ × Option (ℕ × ℕ))
steps = (0, none) ∷ (0, none) ∷ (0, none) ∷ []

ends : All Ends (run opening (no_windows 1000)).tasks
unfolding run act step_at advance Ends
ends = (tt, tt)

fair : Fair steps (act (pass pairing_ttl_secs) (run opening (no_windows 1000)))
unfolding run act step_at advance Fair is_open
fair = (inr (omega arith), (inr (omega arith), (inr (omega arith), tt)))

enough : 3 * length (run opening (no_windows 1000)).tasks ≤ length steps
enough = rw (opened) (omega arith)

run_steps-Closed_example :
    (let s =
        (run
          (stepping steps)
          (act (pass pairing_ttl_secs) (run opening (no_windows 1000)))).slots in
      (s.pairing_runtime ≡ none) × (s.pairing ≡ none))
run_steps-Closed_example = run_steps-Closed opening 1000 steps ends fair enough

-- the timer of a window that was stopped closes the next one, a minute after it was opened
abbrev reopening : List Action
reopening =
    start_pairing
    ∷ step_task 0 none
    ∷ step_task 0 none
    ∷ step_task 0 world
    ∷ step_task 0 none
    ∷ step_task 0 none
    ∷ pass 120
    ∷ start_pairing
    ∷ step_task 0 none
    ∷ step_task 0 none
    ∷ step_task 0 world
    ∷ step_task 0 none
    ∷ step_task 0 none
    ∷ pass 60
    ∷ []

reopened :
    (run reopening (no_windows 1000)).slots.pairing_runtime
    ≡ some (record { port = 40000; opened_at = 1120 })
unfolding run act step_at advance
reopened = refl

closed_early :
    (run
      (step_task 1 none ∷ step_task 1 none ∷ [])
      (run reopening (no_windows 1000))).slots.pairing_runtime
    ≡ none
unfolding run act step_at advance is_open
closed_early = refl
