-- ===== src/Daemon/Updates/Throttled.antt =====
-- How many workers the pokes of the surfaces start.
use backr.Base.{
  ℕ, suc, ◌+◌, ◌-◌, ◌*◌, ◌/◌, ◌≤◌, ◌≡◌, refl, sym, ap, ◌∙◌, subst, inl, inr, Bool, true, false,
  some, List, [], ◌∷◌, arith,
}
use backr.Daemon.Updates.{
  auto_check_window, UpdateState, handle_auto_update_tick, begin_check, Event, tick, begun,
  finished, set_settings, applied, backup, happen, happen_all,
}
use backr.Daemon.Updates.Steps.{
  started, happen-Quiet, Ready, none_due, Ready-Quiet, tick-Looked, begin_check-cases,
}

-- The pokes come one after another: each looks, and takes its second step before the next one looks
-- (`looking`: one has looked and not taken it). Their steps come at times that do not go back, from one time
-- until another, and each can write its file.
unfoldable pub Within : Bool → ℕ → ℕ → List Event → Type 0
Within looking from until [] = from ≤ until
Within looking from until (tick now ∷ es) =
    (looking ≡ false) × (from ≤ now) × Within true now until es
Within looking from until (begun recorded now ∷ es) =
    (recorded ≡ true) × (from ≤ now) × Within false now until es
Within looking from until (finished _ _ _ ∷ es) = Within looking from until es
Within looking from until (set_settings _ _ ∷ es) = Within looking from until es
Within looking from until (applied _ _ ∷ es) = Within looking from until es
Within looking from until (backup _ ∷ es) = Within looking from until es

-- how many workers there may be at the end, from a state with its last check at `last`
Few : List Event → ℕ → ℕ → ℕ → UpdateState → Type 0
Few es last until allowed s =
    (happen_all es s).launched * auto_check_window + last ≤ allowed * auto_check_window + until

Few-fewer :
    (es : List Event) (last until fewer allowed : ℕ) (s : UpdateState)
    → fewer ≤ allowed
    → Few es last until fewer s
    → Few es last until allowed s
unfolding Few
Few-fewer es last until fewer allowed s h few = omega arith

-- from a recorded check on
after_check :
    (es : List Event) (looking : Bool) (last from until : ℕ) (s : UpdateState)
    → s.stamp ≡ some last
    → last ≤ from
    → Ready looking (last + auto_check_window ≤ from) s
    → Within looking from until es
    → Few es last until (started s) s
unfolding Few Within Ready happen_all happen
after_check [] looking last from until s e early ready within = omega arith
after_check (tick now ∷ es) looking last from until s e early ready (still, later, within) =
    let looked = tick-Looked now s in
    let Room = last + auto_check_window ≤ from in
    let free : s.due ≡ 0 = none_due Room s (subst (λ b. Ready b Room s) still ready) in
    let same = looked.same in
    let ready' : Ready true (last + auto_check_window ≤ now) (handle_auto_update_tick now s) =
      elim looked.ready [
        | inl as_before ↦ inl (as_before ∙ free)
        | inr (more, due) ↦ inr (refl, more ∙ ap suc free, due last e (omega arith))
      ] in
    Few-fewer es last until _ _ _ (omega arith)
      (after_check es true last now until _ (looked.stamp ∙ e) (omega arith) ready' within)
after_check (begun recorded now ∷ es) looking last from until s e early ready
      (written, later, within) =
    rw (written) (elim (begin_check-cases now s s.due refl) [
      | inl (free, same) ↦
          subst (λ s'. Few es last until (started s) s') (sym same)
            (after_check es false last now until s e (omega arith) (inl free) within)
      | inr b ↦ elim ready [
        | inl free ↦ let due = b.due in omega arith
        | inr (looks, alone, room) ↦
            let due = b.due in
            let rest =
              after_check es false now now until (begin_check true now s.due s) b.stamp
                (omega arith) (inl (omega arith)) within in
            let one = b.one in omega arith
      ]
    ])
after_check (finished status located spawns ∷ es) looking last from until s e early ready within =
    let q = happen-Quiet (finished status located spawns) s (λ n h. cc) (λ r n h. cc) in
    Few-fewer es last until _ _ _ q.fewer (
      after_check es looking last from until _ (q.stamp ∙ e) early
        (Ready-Quiet looking _ s _ q ready) within)
after_check (set_settings auto saved ∷ es) looking last from until s e early ready within =
    let q = happen-Quiet (set_settings auto saved) s (λ n h. cc) (λ r n h. cc) in
    Few-fewer es last until _ _ _ q.fewer (
      after_check es looking last from until _ (q.stamp ∙ e) early
        (Ready-Quiet looking _ s _ q ready) within)
after_check (applied target spawns ∷ es) looking last from until s e early ready within =
    let q = happen-Quiet (applied target spawns) s (λ n h. cc) (λ r n h. cc) in
    Few-fewer es last until _ _ _ q.fewer (
      after_check es looking last from until _ (q.stamp ∙ e) early
        (Ready-Quiet looking _ s _ q ready) within)
after_check (backup runs ∷ es) looking last from until s e early ready within =
    let q = happen-Quiet (backup runs) s (λ n h. cc) (λ r n h. cc) in
    Few-fewer es last until _ _ _ q.fewer (
      after_check es looking last from until _ (q.stamp ∙ e) early
        (Ready-Quiet looking _ s _ q ready) within)

-- before the first check
before_check :
    (es : List Event) (looking : Bool) (from start until : ℕ) (s : UpdateState)
    → from ≤ start
    → Ready looking (from ≤ start) s
    → Within looking start until es
    → Few es from until (suc (started s)) s
unfolding Few Within Ready happen_all happen
before_check [] looking from start until s early ready within = omega arith
before_check (tick now ∷ es) looking from start until s early ready (still, later, within) =
    let looked = tick-Looked now s in
    let Room = from ≤ start in
    let free : s.due ≡ 0 = none_due Room s (subst (λ b. Ready b Room s) still ready) in
    let same = looked.same in
    let ready' : Ready true (from ≤ now) (handle_auto_update_tick now s) = elim looked.ready [
      | inl as_before ↦ inl (as_before ∙ free)
      | inr (more, due) ↦ inr (refl, more ∙ ap suc free, omega arith)
    ] in
    Few-fewer es from until _ _ _ (omega arith)
      (before_check es true from now until _ (omega arith) ready' within)
before_check (begun recorded now ∷ es) looking from start until s early ready
      (written, later, within) =
    rw (written) (elim (begin_check-cases now s s.due refl) [
      | inl (free, same) ↦
          subst (λ s'. Few es from until (suc (started s)) s') (sym same)
            (before_check es false from now until s (omega arith) (inl free) within)
      | inr b ↦ elim ready [
        | inl free ↦ let due = b.due in omega arith
        | inr (looks, alone, room) ↦
            let due = b.due in
            let rest =
              after_check es false now now until (begin_check true now s.due s) b.stamp
                (omega arith) (inl (omega arith)) within in
            let one = b.one in omega arith
      ]
    ])
before_check (finished status located spawns ∷ es) looking from start until s early ready within =
    let q = happen-Quiet (finished status located spawns) s (λ n h. cc) (λ r n h. cc) in
    let fewer = q.fewer in
    Few-fewer es from until _ _ _ (omega arith)
      (before_check es looking from start until _ early (Ready-Quiet looking _ s _ q ready) within)
before_check (set_settings auto saved ∷ es) looking from start until s early ready within =
    let q = happen-Quiet (set_settings auto saved) s (λ n h. cc) (λ r n h. cc) in
    let fewer = q.fewer in
    Few-fewer es from until _ _ _ (omega arith)
      (before_check es looking from start until _ early (Ready-Quiet looking _ s _ q ready) within)
before_check (applied target spawns ∷ es) looking from start until s early ready within =
    let q = happen-Quiet (applied target spawns) s (λ n h. cc) (λ r n h. cc) in
    let fewer = q.fewer in
    Few-fewer es from until _ _ _ (omega arith)
      (before_check es looking from start until _ early (Ready-Quiet looking _ s _ q ready) within)
before_check (backup runs ∷ es) looking from start until s early ready within =
    let q = happen-Quiet (backup runs) s (λ n h. cc) (λ r n h. cc) in
    let fewer = q.fewer in
    Few-fewer es from until _ _ _ (omega arith)
      (before_check es looking from start until _ early (Ready-Quiet looking _ s _ q ready) within)

-- The pokes of the surfaces, with whatever changes of the preference, calls and backups between their steps,
-- start at most one worker, and one more for each whole window between the first time and the last. The
-- conditions: the pokes do not overlap, each taking its second step before the next one looks; the clock does
-- not go back; each check can write its file; and at the start no check runs and none is due.
pub happen_all-launched :
    (es : List Event) (from until : ℕ) (s : UpdateState)
    → s.launched ≡ 0
    → s.checking ≡ 0
    → s.due ≡ 0
    → Within false from until es
    → (happen_all es s).launched ≤ 1 + (until - from) / auto_check_window
unfolding Few Ready
happen_all-launched es from until s none_launched none_checking none_due_yet within =
    let few = before_check es false from from until s (omega arith) (inl none_due_yet) within in
    omega arith
