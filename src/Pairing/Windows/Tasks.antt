-- ===== src/Pairing/Windows/Tasks.antt =====
-- One step of one task among the tasks in flight.
use backr.Base.{
  if◌then◌else◌, length, any, ℕ, zero, suc, ◌<◌, ◌≡◌, refl, ap, ◌⊎◌, inl, inr, Bool, true, false,
  Option, none, some, List, [], ◌∷◌, ◌++◌, arith,
}
use backr.Pairing.Windows.{Slots, Task, advance, step_at}

-- the task that goes on, if it does
abbrev pub remaining : Option Task → List Task
remaining none = []
remaining (some t) = t ∷ []

-- A step of the task `t` among others, with what it leaves.
pub record Stepped (n : ℕ) (a : Option (ℕ × ℕ)) (ts : List Task) (s : Slots) : Type 0 where
  pub before : List Task
  pub task : Task
  pub after : List Task
  pub whole : ts ≡ before ++ task ∷ after
  pub slots : (step_at n a ts s).0 ≡ (advance task a s).0
  pub tasks : (step_at n a ts s).1 ≡ before ++ (remaining (advance task a s).1 ++ after)

here : (a : Option (ℕ × ℕ)) (t : Task) (ts : List Task) (s : Slots) → Stepped zero a (t ∷ ts) s
unfolding step_at
here a t ts s = record {
  before = [];
  task = t;
  after = ts;
  whole = refl;
  slots = refl;
  tasks = go (advance t a s).1;
}
  where
    go : (next : Option Task) → (elim next [ none ↦ ts | some t' ↦ t' ∷ ts ]) ≡ remaining next ++ ts
    go none = refl
    go (some t') = refl

further :
    (n : ℕ) (a : Option (ℕ × ℕ)) (t : Task) (ts : List Task) (s : Slots)
    → Stepped n a ts s
    → Stepped (suc n) a (t ∷ ts) s
unfolding step_at
further n a t ts s p = record {
  before = t ∷ p.before;
  task = p.task;
  after = p.after;
  whole = ap (λ l. t ∷ l) p.whole;
  slots = p.slots;
  tasks = ap (λ l. t ∷ l) p.tasks;
}

-- A step at a place without a task changes nothing; any other is a step of one task.
pub step_at-cases :
    (n : ℕ) (a : Option (ℕ × ℕ)) (ts : List Task) (s : Slots)
    → (((step_at n a ts s).0 ≡ s) × ((step_at n a ts s).1 ≡ ts)) ⊎ Stepped n a ts s
unfolding step_at
step_at-cases n a [] s = inl (refl, refl)
step_at-cases zero a (t ∷ ts) s = inr (here a t ts s)
step_at-cases (suc n) a (t ∷ ts) s = elim (step_at-cases n a ts s) [
  | inl (same, kept) ↦ inl (same, ap (λ l. t ∷ l) kept)
  | inr p ↦ inr (further n a t ts s p)
]

-- A place that is in use steps a task.
pub step_at-Stepped :
    (n : ℕ) (a : Option (ℕ × ℕ)) (ts : List Task) (s : Slots) → n < length ts → Stepped n a ts s
step_at-Stepped n a [] s h = absurd (omega arith)
step_at-Stepped zero a (t ∷ ts) s h = here a t ts s
step_at-Stepped (suc n) a (t ∷ ts) s h = further n a t ts s (step_at-Stepped n a ts s (omega arith))

any_or : (b c : Bool) → ((if b then true else c) ≡ true) → (b ≡ true) ⊎ (c ≡ true)
any_or true c h = inl refl
any_or false c h = inr h

any-append_right : (p : Task → Bool) (xs ys : List Task) → any p ys ≡ true → any p (xs ++ ys) ≡ true
any-append_right p [] ys h = h
any-append_right p (x ∷ xs) ys h = ground (arith, any-append_right p xs ys h)

-- Where a list has a task of some kind, it is the one in the middle or one of the others.
pub any-split :
    (p : Task → Bool) (before : List Task) (t : Task) (after : List Task)
    → any p (before ++ t ∷ after) ≡ true
    → (p t ≡ true) ⊎ ((middle : List Task) → any p (before ++ (middle ++ after)) ≡ true)
any-split p [] t after h = elim (any_or (p t) (any p after) h) [
  | inl it ↦ inl it
  | inr rest ↦ inr (λ middle. any-append_right p middle after rest)
]
any-split p (x ∷ before) t after h = elim (any_or (p x) (any p (before ++ t ∷ after)) h) [
  | inl first ↦ inr (λ middle. rw (first) refl)
  | inr rest ↦ elim (any-split p before t after rest) [
    | inl it ↦ inl it
    | inr others ↦
        inr (λ middle. any-append_right p (x ∷ []) (before ++ (middle ++ after)) (others middle))
  ]
]

pub any-middle :
    (p : Task → Bool) (before : List Task) (t : Task) (after : List Task)
    → p t ≡ true
    → any p (before ++ ((t ∷ []) ++ after)) ≡ true
any-middle p [] t after h = rw h refl
any-middle p (x ∷ before) t after h = ground (arith, any-middle p before t after h)
