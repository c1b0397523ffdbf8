-- ===== src/Pairing/Windows/Closing.antt =====
-- A pairing window closes.
use backr.Base.{
  ltb, Bool-cases, Option-cases, length, any, All, All-append_iff, ℕ, ◌+◌, ◌*◌, ◌≤◌, ◌<◌, ◌≡◌, refl,
  sym, subst, ◌≢◌, ◌⊎◌, inl, inr, Bool, true, false, Option, none, List, [], ◌∷◌, ◌++◌, map, arith,
}
use backr.Pairing.Windows.{
  pairing_ttl_secs, Slots, Task, taking, clearing, binding, storing, publishing, sleeping, is_open,
  advance, Windows, Action, pass, step_task, step_at, act, run, no_windows,
}
use backr.Pairing.Windows.Tasks.{remaining, step_at-Stepped}
use backr.Pairing.Windows.Invariant.{closes, is_between, Timed, IsGuarded, All-middle}
use backr.Pairing.Windows.Runs.{act-IsGuarded, run-IsGuarded, no_windows-IsGuarded}

-- a task that opens no window
unfoldable pub Ends : Task → Type 0
Ends (taking false) = Unit
Ends (clearing false) = Unit
Ends (sleeping _) = Unit
Ends _ = ⊥

-- such a task, and its timer has run out
Over : ℕ → Task → Type 0
Over now (sleeping deadline) = deadline ≤ now
Over now t = Ends t

-- Each step is of a task in flight, as long as there is one.
unfoldable pub Fair : List (ℕ × Option (ℕ × ℕ)) → Windows → Type 0
Fair [] d = Unit
Fair ((n, a) ∷ steps) d =
    ((d.tasks ≡ []) ⊎ (n < length d.tasks)) × Fair steps (act (step_task n a) d)

abbrev pub stepping : List (ℕ × Option (ℕ × ℕ)) → List Action
stepping steps = map (λ p. step_task p.0 p.1) steps

-- the steps that a task has left at most
cost : Task → ℕ
cost (taking _) = 2
cost (clearing _) = 1
cost _ = 3

work : List Task → ℕ
work [] = 0
work (t ∷ ts) = cost t + work ts

work-append : (xs ys : List Task) → work (xs ++ ys) ≡ work xs + work ys
unfolding work
work-append [] ys = omega arith
work-append (t ∷ xs) ys = omega (arith, work-append xs ys)

work_bound : (ts : List Task) → work ts ≤ 3 * length ts
unfolding work
work_bound [] = omega arith
work_bound (t ∷ ts) = omega (arith, work_bound ts, cost_bound t)
  where
    cost_bound : (u : Task) → cost u ≤ 3
    cost_bound (taking _) = unfold cost in omega arith
    cost_bound (clearing _) = unfold cost in omega arith
    cost_bound binding = unfold cost in omega arith
    cost_bound (storing _ _) = unfold cost in omega arith
    cost_bound (publishing _) = unfold cost in omega arith
    cost_bound (sleeping _) = unfold cost in omega arith

work_zero : (ts : List Task) → work ts ≤ 0 → ts ≡ []
unfolding work cost
work_zero [] h = refl
work_zero (taking _ ∷ ts) h = absurd (omega arith)
work_zero (clearing _ ∷ ts) h = absurd (omega arith)
work_zero (binding ∷ ts) h = absurd (omega arith)
work_zero (storing _ _ ∷ ts) h = absurd (omega arith)
work_zero (publishing _ ∷ ts) h = absurd (omega arith)
work_zero (sleeping _ ∷ ts) h = absurd (omega arith)

-- A step of a task that is over makes it end sooner.
record Ended (now : ℕ) (t : Task) (p : Slots × Option Task) : Type 0 where
  same : p.0.now ≡ now
  over : All (Over now) (remaining p.1)
  less : work (remaining p.1) < cost t

advance-Ended :
    (t : Task) (a : Option (ℕ × ℕ)) (s : Slots) → Over s.now t → Ended s.now t (advance t a s)
unfolding advance Over Ends work cost
advance-Ended (taking false) a s h = record { same = refl; over = (tt, tt); less = omega arith }
advance-Ended (taking true) a s h = absurd h
advance-Ended (clearing false) a s h = record { same = refl; over = tt; less = omega arith }
advance-Ended (clearing true) a s h = absurd h
advance-Ended binding a s h = absurd h
advance-Ended (storing _ _) a s h = absurd h
advance-Ended (publishing _) a s h = absurd h
advance-Ended (sleeping deadline) a s h = elim (Bool-cases (ltb s.now deadline)) [
  | inl waits ↦ absurd (ground (arith, waits, h))
  | inr over ↦ elim (Bool-cases (is_open s)) [
    | inl o ↦ rw (over, o) (record { same = refl; over = (tt, tt); less = omega arith })
    | inr shut ↦ rw (over, shut) (record { same = refl; over = tt; less = omega arith })
  ]
]

less :
    (before : List Task) (t : Task) (middle after ts : List Task)
    → ts ≡ before ++ t ∷ after
    → work middle < cost t
    → work (before ++ (middle ++ after)) < work ts
unfolding work
less before t middle after ts whole h =
    rw
      (
        whole,
        work-append before (middle ++ after),
        work-append middle after,
        work-append before (t ∷ after),
      )
      (omega (arith, h))

step-less :
    (n : ℕ) (a : Option (ℕ × ℕ)) (d : Windows)
    → All (Over d.slots.now) d.tasks
    → n < length d.tasks
    → (let e = act (step_task n a) d in
        All (Over e.slots.now) e.tasks × (work e.tasks < work d.tasks))
unfolding act work
step-less n a d over h =
    let p = step_at-Stepped n a d.tasks d.slots h in
    let whole = subst (λ ts. All (Over d.slots.now) ts) p.whole over in
    let e =
      advance-Ended p.task a d.slots
        ((All-append_iff (Over d.slots.now) p.before (p.task ∷ p.after)).0 whole).1.0 in
    rw (p.slots, p.tasks, e.same)
      (
        All-middle (Over d.slots.now) p.before p.task (remaining (advance p.task a d.slots).1)
            p.after e.over whole,
        less p.before p.task (remaining (advance p.task a d.slots).1) p.after d.tasks p.whole
            e.less,
      )

no_step :
    (n : ℕ) (a : Option (ℕ × ℕ)) (d : Windows) → d.tasks ≡ [] → (act (step_task n a) d).tasks ≡ []
unfolding act step_at
no_step n a d none_ = rw (act, none_) refl

nothing : (steps : List (ℕ × Option (ℕ × ℕ))) → work [] ≤ length steps
unfolding work
nothing steps = omega arith

steps-end :
    (steps : List (ℕ × Option (ℕ × ℕ))) (d : Windows)
    → All (Over d.slots.now) d.tasks
    → Fair steps d
    → work d.tasks ≤ length steps
    → (run (stepping steps) d).tasks ≡ []
unfolding run Fair
steps-end [] d over fair h = work_zero d.tasks h
steps-end ((n, a) ∷ steps) d over (inr used, fair) h =
    let (over', less) = step-less n a d over used in
    steps-end steps (act (step_task n a) d) over' fair (omega arith)
steps-end ((n, a) ∷ steps) d over (inl none_, fair) h =
    let gone = no_step n a d none_ in
    steps-end steps (act (step_task n a) d)
      (subst (λ ts. All (Over (act (step_task n a) d).slots.now) ts) (sym gone) tt) fair
      (subst (λ ts. work ts ≤ length steps) (sym gone) (nothing steps))

Over-later :
    (now : ℕ) (ts : List Task)
    → All Ends ts
    → All (Timed now) ts
    → All (Over (now + pairing_ttl_secs)) ts
unfolding Over Ends Timed
Over-later now [] h timed = tt
Over-later now (t ∷ ts) (h, hs) (timed, later) = (go t h timed, Over-later now ts hs later)
  where
    go : (u : Task) → Ends u → Timed now u → Over (now + pairing_ttl_secs) u
    go (taking b) e w = e
    go (clearing b) e w = e
    go binding e w = e
    go (storing _ _) e w = e
    go (publishing _) e w = e
    go (sleeping deadline) e w = w

no_any : (p : Task → Bool) (ts : List Task) → ts ≡ [] → any p ts ≢ true
no_any p ts none_ h = let q = subst (λ l. any p l ≡ true) none_ h in cc

shut : (s : Slots) → s.pairing_runtime ≡ none → is_open s ≢ true
unfolding is_open
shut s closed h = let q = rw (is_open, closed) at h in cc

-- nothing is open where no task is in flight
idle-Closed :
    (s : Slots) (ts : List Task)
    → IsGuarded s ts
    → ts ≡ []
    → (s.pairing_runtime ≡ none) × (s.pairing ≡ none)
idle-Closed s ts g none_ = (closed, ended)
  where
    closed : s.pairing_runtime ≡ none
    closed = elim (Option-cases s.pairing_runtime) [
      | inl c ↦ c
      | inr (w, o) ↦ absurd (no_any (closes w) ts none_ (g.closing w o))
    ]

    ended : s.pairing ≡ none
    ended = elim (Option-cases s.pairing) [
      | inl c ↦ c
      | inr (x, held) ↦ elim (g.covered x held) [
        | inl o ↦ absurd (shut s closed o)
        | inr b ↦ absurd (no_any is_between ts none_ b)
      ]
    ]

-- After any calls, requests and steps of their tasks in any order, where no call of start_pairing is in
-- the middle of its work: three minutes later, three steps for each task in flight close the window and
-- end its session, in whatever order the tasks take them.
pub run_steps-Closed :
    (xs : List Action) (start : ℕ) (steps : List (ℕ × Option (ℕ × ℕ)))
    → All Ends (run xs (no_windows start)).tasks
    → Fair steps (act (pass pairing_ttl_secs) (run xs (no_windows start)))
    → 3 * length (run xs (no_windows start)).tasks ≤ length steps
    → (let s =
          (run (stepping steps) (act (pass pairing_ttl_secs) (run xs (no_windows start)))).slots in
        (s.pairing_runtime ≡ none) × (s.pairing ≡ none))
unfolding act
run_steps-Closed xs start steps ends fair enough =
    let d = run xs (no_windows start) in
    let later = act (pass pairing_ttl_secs) d in
    let g = run-IsGuarded xs (no_windows start) (no_windows-IsGuarded start) in
    let g' = act-IsGuarded (pass pairing_ttl_secs) d g in
    idle-Closed (run (stepping steps) later).slots (run (stepping steps) later).tasks
      (run-IsGuarded (stepping steps) later g')
      (steps-end steps later (Over-later d.slots.now d.tasks ends g.timed) fair
        (omega (arith, work_bound d.tasks, enough)))
