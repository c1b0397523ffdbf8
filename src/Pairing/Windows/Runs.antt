-- ===== src/Pairing/Windows/Runs.antt =====
-- What holds of the pairing windows after any run.
use backr.Base.{
  All, Text, ℕ, ◌+◌, ◌≡◌, refl, sym, inl, inr, Bool, true, false, Option, none, some, List, [], ◌∷◌,
  arith,
}
use backr.Pairing.Code.{PairingSession}
use backr.Pairing.Windows.{
  Slots, Task, taking, clearing, binding, storing, publishing, sleeping, is_open, Windows, Action,
  start_pairing, stop_pairing, try_code, paired, pass, step_task, tried, act, run, no_windows,
}
use backr.Pairing.Windows.Tasks.{step_at-cases}
use backr.Pairing.Windows.Invariant.{closes, is_between, Timed, IsGuarded, advance-IsGuarded}

added :
    (s : Slots) (ts : List Task) (starts : Bool) → IsGuarded s ts → IsGuarded s (taking starts ∷ ts)
unfolding closes is_between Timed
added s ts starts g = record {
  closing = λ w open_. refl;
  covered = g.covered;
  timed = (tt, g.timed);
}

tried-held :
    (code : Text) (o : Option PairingSession) (x : PairingSession)
    → tried code o ≡ some x
    → (y : PairingSession) × (o ≡ some y)
unfolding tried
tried-held code none x h = cc
tried-held code (some y) x h = (y, refl)

later : (now secs : ℕ) (ts : List Task) → All (Timed now) ts → All (Timed (now + secs)) ts
unfolding Timed
later now secs [] h = tt
later now secs (t ∷ ts) (h, hs) = (go t h, later now secs ts hs)
  where
    go : (u : Task) → Timed now u → Timed (now + secs) u
    go (taking _) h' = tt
    go (clearing _) h' = tt
    go binding h' = tt
    go (storing _ _) h' = tt
    go (publishing _) h' = tt
    go (sleeping deadline) h' = omega arith

moved : {s s' : Slots} {ts ts' : List Task} → s' ≡ s → ts' ≡ ts → IsGuarded s ts → IsGuarded s' ts'
moved same kept g = rw (same, kept) g

pub act-IsGuarded :
    (x : Action) (d : Windows)
    → IsGuarded d.slots d.tasks
    → IsGuarded (act x d).slots (act x d).tasks
unfolding act is_open
act-IsGuarded start_pairing d g = added d.slots d.tasks true g
act-IsGuarded stop_pairing d g = added d.slots d.tasks false g
act-IsGuarded paired d g = added d.slots d.tasks false g
act-IsGuarded (try_code code) d g = record {
  closing = g.closing;
  covered =
      λ x held. let (y, before) = tried-held code d.slots.pairing x held in g.covered y before;
  timed = g.timed;
}
act-IsGuarded (pass secs) d g = record {
  closing = g.closing;
  covered = g.covered;
  timed = later d.slots.now secs d.tasks g.timed;
}
act-IsGuarded (step_task n a) d g = elim (step_at-cases n a d.tasks d.slots) [
  | inl (same, kept) ↦ moved same kept g
  | inr p ↦
      moved p.slots p.tasks
        (advance-IsGuarded p.task a d.slots p.before p.after (moved refl (sym p.whole) g))
]

-- What holds before the first call holds after any run.
pub run-IsGuarded :
    (xs : List Action) (d : Windows)
    → IsGuarded d.slots d.tasks
    → IsGuarded (run xs d).slots (run xs d).tasks
unfolding run
run-IsGuarded [] d g = g
run-IsGuarded (x ∷ xs) d g = run-IsGuarded xs (act x d) (act-IsGuarded x d g)

pub no_windows-IsGuarded : (now : ℕ) → IsGuarded (no_windows now).slots (no_windows now).tasks
no_windows-IsGuarded now = record { closing = λ w open_. cc; covered = λ x held. cc; timed = tt }
