-- ===== src/Pairing/Windows/Invariant.antt =====
-- What holds of the pairing windows between any two steps.
use backr.Base.{
  ltb, leb, Bool-cases, any, All, All-append_iff, ℕ, ◌+◌, ◌≤◌, ◌≡◌, refl, sym, ap, ◌∙◌, subst, ◌≢◌,
  ◌⊎◌, inl, inr, Bool, true, false, Option, none, some, List, [], ◌∷◌, ◌++◌, arith,
}
use backr.Pairing.Code.{PairingSession, new_session}
use backr.Pairing.Windows.{
  pairing_ttl_secs, PairingRuntime, Slots, Task, taking, clearing, binding, storing, publishing,
  sleeping, is_open, advance,
}
use backr.Pairing.Windows.Tasks.{remaining, any-split, any-middle}

-- a task that is going to close the window, in time
unfoldable pub closes : PairingRuntime → Task → Bool
closes w (taking _) = true
closes w (sleeping deadline) = leb deadline (w.opened_at + pairing_ttl_secs)
closes w _ = false

-- a task between its writes of the two slots
unfoldable pub is_between : Task → Bool
is_between (clearing _) = true
is_between (publishing _) = true
is_between _ = false

-- a timer runs for three minutes at most
unfoldable pub Timed : ℕ → Task → Type 0
Timed now (sleeping deadline) = deadline ≤ now + pairing_ttl_secs
Timed now _ = Unit

pub record IsGuarded (s : Slots) (ts : List Task) : Type 0 where
  -- an open window has a task that closes it in time
  pub closing : (w : PairingRuntime) → s.pairing_runtime ≡ some w → any (closes w) ts ≡ true
  -- a session belongs to an open window, or a task is between its two writes
  pub covered :
      (x : PairingSession) → s.pairing ≡ some x → (is_open s ≡ true) ⊎ (any is_between ts ≡ true)
  pub timed : All (Timed s.now) ts

true-ne-false : true ≢ false
true-ne-false h = cc

others :
    (p : Task → Bool) (before : List Task) (t : Task) (after middle : List Task)
    → p t ≡ false
    → any p (before ++ t ∷ after) ≡ true
    → any p (before ++ (middle ++ after)) ≡ true
others p before t after middle differs h = elim (any-split p before t after h) [
  | inl same ↦ absurd (true-ne-false (sym same ∙ differs))
  | inr rest ↦ rest middle
]

pub All-middle :
    (P : Task → Type 0) (before : List Task) (t : Task) (middle after : List Task)
    → All P middle
    → All P (before ++ t ∷ after)
    → All P (before ++ (middle ++ after))
All-middle P before t middle after h hs =
    let (hb, ht) = (All-append_iff P before (t ∷ after)).0 hs in
    (All-append_iff P before (middle ++ after)).1 (hb, (All-append_iff P middle after).1 (h, ht.1))

open_of : (s : Slots) (w : PairingRuntime) → s.pairing_runtime ≡ some w → is_open s ≡ true
unfolding is_open
open_of s w open_ = rw (is_open, open_) refl

leb_self : (n : ℕ) → leb n n ≡ true
leb_self n = ground arith

opened_of : {v w : PairingRuntime} → some v ≡ some w → v.opened_at ≡ w.opened_at
opened_of {v} {w} e = ap (λ o. elim o [ none ↦ 0 | some r ↦ r.opened_at ]) e

leb_of_opened :
    (s : Slots) (w : PairingRuntime) (port : ℕ)
    → ◌≡◌ {A = Option PairingRuntime} (some (record { port = port; opened_at = s.now })) (some w)
    → leb (s.now + pairing_ttl_secs) (w.opened_at + pairing_ttl_secs) ≡ true
leb_of_opened s w port e =
    subst (λ t. leb (s.now + pairing_ttl_secs) (t + pairing_ttl_secs) ≡ true)
      (let same : s.now ≡ w.opened_at = opened_of e in same) (leb_self (s.now + pairing_ttl_secs))

-- A step of one task keeps what holds.
pub advance-IsGuarded :
    (t : Task) (a : Option (ℕ × ℕ)) (s : Slots) (before after : List Task)
    → IsGuarded s (before ++ t ∷ after)
    → IsGuarded (advance t a s).0 (before ++ (remaining (advance t a s).1 ++ after))
unfolding advance closes is_between Timed is_open
advance-IsGuarded (taking starts) a s before after g = record {
  closing = λ w open_. cc;
  covered = λ x held. inr (any-middle is_between before (clearing starts) after refl);
  timed =
      All-middle (Timed s.now) before (taking starts) (clearing starts ∷ []) after (tt, tt) g.timed;
}
advance-IsGuarded (clearing true) a s before after g = record {
  closing = λ w open_.
      others (closes w) before (clearing true) after (binding ∷ []) refl (g.closing w open_);
  covered = λ x held. cc;
  timed = All-middle (Timed s.now) before (clearing true) (binding ∷ []) after (tt, tt) g.timed;
}
advance-IsGuarded (clearing false) a s before after g = record {
  closing = λ w open_. others (closes w) before (clearing false) after [] refl (g.closing w open_);
  covered = λ x held. cc;
  timed = All-middle (Timed s.now) before (clearing false) [] after tt g.timed;
}
advance-IsGuarded binding none s before after g = record {
  closing = λ w open_. others (closes w) before binding after [] refl (g.closing w open_);
  covered = λ x held. elim (g.covered x held) [
    | inl o ↦ inl o
    | inr b ↦ inr (others is_between before binding after [] refl b)
  ];
  timed = All-middle (Timed s.now) before binding [] after tt g.timed;
}
advance-IsGuarded binding (some (n, port)) s before after g = record {
  closing = λ w open_.
      others (closes w) before binding after (storing (new_session n) port ∷ []) refl
        (g.closing w open_);
  covered = λ x held. elim (g.covered x held) [
    | inl o ↦ inl o
    | inr b ↦
        inr (others is_between before binding after (storing (new_session n) port ∷ []) refl b)
  ];
  timed =
      All-middle (Timed s.now) before binding (storing (new_session n) port ∷ []) after (tt, tt)
        g.timed;
}
advance-IsGuarded (storing session port) a s before after g = record {
  closing = λ w open_.
      others (closes w) before (storing session port) after (publishing port ∷ []) refl
        (g.closing w open_);
  covered = λ x held. inr (any-middle is_between before (publishing port) after refl);
  timed =
      All-middle (Timed s.now) before (storing session port) (publishing port ∷ []) after (tt, tt)
        g.timed;
}
advance-IsGuarded (publishing port) a s before after g = record {
  closing = λ w open_.
      any-middle (closes w) before (sleeping (s.now + pairing_ttl_secs)) after
        (leb_of_opened s w port open_);
  covered = λ x held. inl refl;
  timed =
      All-middle (Timed s.now) before (publishing port) (sleeping (s.now + pairing_ttl_secs) ∷ [])
        after (omega arith, tt) g.timed;
}
advance-IsGuarded (sleeping deadline) a s before after g = elim (Bool-cases (ltb s.now deadline)) [
  | inl waits ↦ rw (waits) g
  | inr over ↦ elim (Bool-cases (is_open s)) [
    | inl o ↦
        rw (over, o)
          (record {
            closing = λ w open_. any-middle (closes w) before (taking false) after refl;
            covered = λ x held. inl o;
            timed =
                All-middle (Timed s.now) before (sleeping deadline) (taking false ∷ []) after
                  (tt, tt) g.timed;
          })
    | inr shut ↦
        rw (over, shut)
          (record {
            closing = λ w open_. absurd (true-ne-false (sym (open_of s w open_) ∙ shut));
            covered = λ x held. elim (g.covered x held) [
              | inl o ↦ inl o
              | inr b ↦ inr (others is_between before (sleeping deadline) after [] refl b)
            ];
            timed = All-middle (Timed s.now) before (sleeping deadline) [] after tt g.timed;
          })
  ]
]
