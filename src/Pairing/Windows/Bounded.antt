-- ===== src/Pairing/Windows/Bounded.antt =====
-- How long a pairing window stays open, and whose a session is.
use backr.Base.{
  leb, Bool-cases, any, All, ℕ, ◌+◌, ◌<◌, ◌≡◌, ◌≢◌, inl, inr, true, some, List, [], ◌∷◌, arith,
}
use backr.Pairing.Windows.{
  pairing_ttl_secs, PairingRuntime, Task, taking, clearing, binding, storing, publishing, sleeping,
  is_open, Action, run, no_windows,
}
use backr.Pairing.Windows.Invariant.{closes, is_between}
use backr.Pairing.Windows.Runs.{run-IsGuarded, no_windows-IsGuarded}
use backr.Pairing.Code.{PairingSession}

-- a timer that has not run out, and no other task
unfoldable pub Waits : ℕ → Task → Type 0
Waits now (sleeping deadline) = now < deadline
Waits now _ = ⊥

Waits-closes :
    (now : ℕ) (w : PairingRuntime) (ts : List Task)
    → All (Waits now) ts
    → any (closes w) ts ≡ true
    → now < w.opened_at + pairing_ttl_secs
unfolding Waits closes
Waits-closes now w [] h c = cc
Waits-closes now w (sleeping deadline ∷ ts) (h, hs) c =
    elim (Bool-cases (leb deadline (w.opened_at + pairing_ttl_secs))) [
      | inl soon ↦ ground (arith, soon)
      | inr late ↦ Waits-closes now w ts hs (let q = rw (late) at c in q)
    ]
Waits-closes now w (taking _ ∷ ts) (h, hs) c = absurd h
Waits-closes now w (clearing _ ∷ ts) (h, hs) c = absurd h
Waits-closes now w (binding ∷ ts) (h, hs) c = absurd h
Waits-closes now w (storing _ _ ∷ ts) (h, hs) c = absurd h
Waits-closes now w (publishing _ ∷ ts) (h, hs) c = absurd h

Waits-between : (now : ℕ) (ts : List Task) → All (Waits now) ts → any is_between ts ≢ true
unfolding Waits is_between
Waits-between now [] h b = cc
Waits-between now (sleeping deadline ∷ ts) (h, hs) b = Waits-between now ts hs b
Waits-between now (taking _ ∷ ts) (h, hs) b = absurd h
Waits-between now (clearing _ ∷ ts) (h, hs) b = absurd h
Waits-between now (binding ∷ ts) (h, hs) b = absurd h
Waits-between now (storing _ _ ∷ ts) (h, hs) b = absurd h
Waits-between now (publishing _ ∷ ts) (h, hs) b = absurd h

-- After any calls, requests and steps of their tasks in any order, where no task is in the middle of its
-- work and no timer is overdue: a window is open for less than three minutes, and a session can be
-- paired with only while a window is open, as pairing_status reports it.
pub run-Bounded :
    (xs : List Action) (start : ℕ)
    → (let d = run xs (no_windows start) in All (Waits d.slots.now) d.tasks)
    → (let s = (run xs (no_windows start)).slots in
        ((w : PairingRuntime) → s.pairing_runtime ≡ some w → s.now < w.opened_at + pairing_ttl_secs)
        × ((x : PairingSession) → s.pairing ≡ some x → is_open s ≡ true))
run-Bounded xs start quiet =
    let d = run xs (no_windows start) in
    let g = run-IsGuarded xs (no_windows start) (no_windows-IsGuarded start) in
    (
      λ w open_. Waits-closes d.slots.now w d.tasks quiet (g.closing w open_),
      λ x held. elim (g.covered x held) [
        | inl o ↦ o
        | inr b ↦ absurd (Waits-between d.slots.now d.tasks quiet b)
      ],
    )
