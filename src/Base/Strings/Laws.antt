-- ===== src/Base/Strings/Laws.antt =====
-- Laws of the text operations that the components share.
use Prim.Native.Nat.{ℕ}
use mathlib.Core.Path.{◌≡◌, refl, ap, sym, ◌∙◌}
use mathlib.Core.Logic.{◌≢◌, ◌↔◌, inl, inr}
use mathlib.Core.Bool.{Bool, true, false, ◌&&◌}
use mathlib.Core.List.{[], ◌∷◌, ◌++◌, append-nil, append_assoc}
use native.Mathlib.Omega.{arith}
use backr.Base.Tests.{Bool-cases}
use backr.Base.Lists.{All}
use backr.Base.Strings.{
  Text, eq_text, contains_char, trim_start_by, trim_end_by, split_from, split, is_empty,
}

pub eq_text→≡ : (s t : Text) → eq_text s t ≡ true → s ≡ t
unfolding eq_text
eq_text→≡ [] [] h = refl
eq_text→≡ [] (b ∷ t) h = cc
eq_text→≡ (a ∷ s) [] h = cc
eq_text→≡ (a ∷ s) (b ∷ t) h = ground (arith, eq_text→≡ s t)

pub eq_text_self : (s : Text) → eq_text s s ≡ true
unfolding eq_text
eq_text_self [] = refl
eq_text_self (a ∷ s) = ground (arith, eq_text_self s)

pub eq_text_iff : (s t : Text) → (eq_text s t ≡ true) ↔ (s ≡ t)
eq_text_iff s t = (eq_text→≡ s t, λ e. ap (eq_text s) (sym e) ∙ eq_text_self s)

pub contains_char-eq-false_iff :
    (c : ℕ) (s : Text) → (contains_char c s ≡ false) ↔ All (λ a. a ≢ c) s
unfolding contains_char
contains_char-eq-false_iff c [] = (λ _. tt, λ _. refl)
contains_char-eq-false_iff c (a ∷ s) =
    let (to, from) = contains_char-eq-false_iff c s in
    (λ h. (ground arith, to (ground arith)), λ h. ground (arith, from h.1))

-- Splitting at a separator in the middle.
pub split_from-append :
    (sep : ℕ) (cur a b : Text)
    → split_from sep cur (a ++ sep ∷ b) ≡ split_from sep cur a ++ split_from sep [] b
unfolding split_from
split_from-append sep cur [] b = ground arith
split_from-append sep cur (c ∷ a) b =
    ground (arith, split_from-append sep [] a b, split_from-append sep (cur ++ c ∷ []) a b)

pub split-append : (sep : ℕ) (a b : Text) → split sep (a ++ sep ∷ b) ≡ split sep a ++ split sep b
split-append sep a b = split_from-append sep [] a b

-- A text without the separator is one piece.
pub split_from_of_lacks :
    (sep : ℕ) (cur s : Text) → All (λ c. c ≢ sep) s → split_from sep cur s ≡ (cur ++ s) ∷ []
unfolding split_from
split_from_of_lacks sep cur [] h = ground (arith, append-nil cur)
split_from_of_lacks sep cur (c ∷ s) (h, hs) =
    ground (arith, split_from_of_lacks sep (cur ++ c ∷ []) s hs, append_assoc cur (c ∷ []) s)

is_empty→≡ : (s : Text) → is_empty s ≡ true → s ≡ []
is_empty→≡ [] h = refl
is_empty→≡ (c ∷ s) h = cc

&&-true : (a b : Bool) → (a && b) ≡ true → (a ≡ true) × (b ≡ true)
&&-true a b h = ground arith

pub is_empty-concat : (s : Text) (c : ℕ) → is_empty (s ++ c ∷ []) ≡ false
is_empty-concat [] c = refl
is_empty-concat (d ∷ s) c = refl

-- What `trim_end_by` cuts off passes the test.
pub trim_end_by_parts :
    (p : ℕ → Bool) (s : Text)
    → (cut : Text) × (s ≡ trim_end_by p s ++ cut) × All (λ c. p c ≡ true) cut
unfolding trim_end_by
trim_end_by_parts p [] = ([], refl, tt)
trim_end_by_parts p (c ∷ s) =
    let (cut, e, h) = trim_end_by_parts p s in
    elim (Bool-cases (is_empty (trim_end_by p s) && p c)) [
      | inl both ↦
          let (none_left, passes) = &&-true _ _ both in
          (
            c ∷ cut,
            rw both (ap (λ r. c ∷ r) (e ∙ ap (λ r. r ++ cut) (is_empty→≡ _ none_left))),
            (passes, h),
          )
      | inr kept ↦ (cut, rw kept (ap (λ r. c ∷ r) e), h)
    ]

pub trim_start_by_parts :
    (p : ℕ → Bool) (s : Text)
    → (cut : Text) × (s ≡ cut ++ trim_start_by p s) × All (λ c. p c ≡ true) cut
unfolding trim_start_by
trim_start_by_parts p [] = ([], refl, tt)
trim_start_by_parts p (c ∷ s) =
    let (cut, e, h) = trim_start_by_parts p s in
    elim (Bool-cases (p c)) [
      | inl passes ↦ (c ∷ cut, rw passes (ap (λ r. c ∷ r) e), (passes, h))
      | inr kept ↦ ([], rw kept, tt)
    ]

-- A text whose first character fails the test is left alone, and so at the end.
pub trim_start_by-cons :
    (p : ℕ → Bool) (c : ℕ) (s : Text) → p c ≡ false → trim_start_by p (c ∷ s) ≡ c ∷ s
unfolding trim_start_by
trim_start_by-cons p c s h = rw h

pub trim_end_by-concat :
    (p : ℕ → Bool) (s : Text) (c : ℕ) → p c ≡ false → trim_end_by p (s ++ c ∷ []) ≡ s ++ c ∷ []
unfolding trim_end_by
trim_end_by-concat p [] c h = rw h
trim_end_by-concat p (d ∷ s) c h = rw (trim_end_by-concat p s c h) (rw (is_empty-concat s c))

pub ne_of_eq_text : (s t : Text) → eq_text s t ≡ false → s ≢ t
ne_of_eq_text s t h e = ground (arith, (eq_text_iff s t).1 e)

pub eq_text_of_ne : (s t : Text) → s ≢ t → eq_text s t ≡ false
eq_text_of_ne s t h = ground (arith, (eq_text_iff s t).0)

pub ne_nil_of_is_empty : (s : Text) → is_empty s ≡ false → s ≢ []
ne_nil_of_is_empty [] h = cc
ne_nil_of_is_empty (c ∷ s) h = cc

pub is_empty_of_ne_nil : (s : Text) → s ≢ [] → is_empty s ≡ false
is_empty_of_ne_nil [] h = absurd (h refl)
is_empty_of_ne_nil (c ∷ s) h = refl

pub split-nil : (sep : ℕ) → split sep [] ≡ [] ∷ []
unfolding split_from
split-nil sep = refl

pub split-cons_sep : (sep : ℕ) (b : Text) → split sep (sep ∷ b) ≡ [] ∷ split sep b
split-cons_sep sep b = split-append sep [] b ∙ ap (λ l. l ++ split sep b) (split-nil sep)
