-- ===== src/Base/Strings/Trim.antt =====
-- Laws of `trim` and of `strip_cr`, which undoes a carriage return that `trim` would cut off.
use Prim.Native.Nat.{ℕ}
use mathlib.Core.Path.{◌≡◌, refl, ap, sym, ◌∙◌}
use mathlib.Core.Logic.{◌≢◌, ◌⊎◌, inl, inr}
use mathlib.Core.Bool.{Bool, true, ◌&&◌}
use mathlib.Core.List.{[], ◌∷◌, ◌++◌}
use native.Mathlib.Omega.{arith}
use backr.Base.Tests.{Bool-cases}
use backr.Base.Lists.{All}
use backr.Base.Strings.{Text, trim_start_by, trim_end_by, trim, is_whitespace, strip_cr, is_empty}

-- Cutting at the end twice is cutting once, and a character that passes may be put back.
pub trim_end_by-append_pass :
    (p : ℕ → Bool) (s : Text) (c : ℕ) → p c ≡ true → trim_end_by p (s ++ c ∷ []) ≡ trim_end_by p s
unfolding trim_end_by
trim_end_by-append_pass p [] c h = rw h
trim_end_by-append_pass p (d ∷ s) c h = rw (trim_end_by-append_pass p s c h)

pub trim_end_by_idem : (p : ℕ → Bool) (s : Text) → trim_end_by p (trim_end_by p s) ≡ trim_end_by p s
unfolding trim_end_by
trim_end_by_idem p [] = refl
trim_end_by_idem p (c ∷ s) = elim (Bool-cases (is_empty (trim_end_by p s) && p c)) [
  | inl gone ↦ rw gone
  | inr kept ↦ rw (kept, trim_end_by_idem p s, kept)
]

-- The start of a text that does not begin with a passing character is safe from both ends.
IsTrimmedStart : (p : ℕ → Bool) → Text → Type 0
IsTrimmedStart p s = trim_start_by p s ≡ s

trim_start-trim_end :
    (p : ℕ → Bool) (s : Text)
    → trim_start_by p (trim_end_by p (trim_start_by p s)) ≡ trim_end_by p (trim_start_by p s)
unfolding trim_start_by trim_end_by
trim_start-trim_end p [] = refl
trim_start-trim_end p (c ∷ s) = elim (Bool-cases (p c)) [
  | inl passes ↦ rw passes (trim_start-trim_end p s)
  | inr stays ↦ ground arith
]

pub trim_idem : (s : Text) → trim (trim s) ≡ trim s
unfolding trim
trim_idem s =
    ap (trim_end_by is_whitespace) (trim_start-trim_end is_whitespace s)
    ∙ trim_end_by_idem is_whitespace (trim_start_by is_whitespace s)

trim_append_space :
    (p : ℕ → Bool) (s : Text) (c : ℕ)
    → p c ≡ true
    → trim_end_by p (trim_start_by p (s ++ c ∷ [])) ≡ trim_end_by p (trim_start_by p s)
unfolding trim_start_by
trim_append_space p [] c h = rw h
trim_append_space p (d ∷ s) c h = elim (Bool-cases (p d)) [
  | inl passes ↦ rw passes (trim_append_space p s c h)
  | inr stays ↦ rw stays (trim_end_by-append_pass p (d ∷ s) c h)
]

strip_cr_cases : (s : Text) → (strip_cr s ≡ s) ⊎ (s ≡ strip_cr s ++ 13 ∷ [])
unfolding strip_cr
strip_cr_cases [] = inl refl
strip_cr_cases (c ∷ []) = ground arith
strip_cr_cases (c ∷ (d ∷ s)) = elim (strip_cr_cases (d ∷ s)) [
  | inl same ↦ inl (ap (λ t. c ∷ t) same)
  | inr cut ↦ inr (ap (λ t. c ∷ t) cut)
]

-- The carriage return that ends a line is white space.
pub trim-strip_cr : (s : Text) → trim (strip_cr s) ≡ trim s
unfolding trim
trim-strip_cr s = elim (strip_cr_cases s) [
  | inl same ↦ rw same
  | inr cut ↦ sym (
      ap (λ t. trim_end_by is_whitespace (trim_start_by is_whitespace t)) cut
      ∙ trim_append_space is_whitespace (strip_cr s) 13 cr_is_space)
]
  where
    cr_is_space : is_whitespace 13 ≡ true
    cr_is_space = unfold is_whitespace in refl

-- A text without carriage returns keeps its end.
pub trim-newline : (s : Text) → trim (s ++ 10 ∷ []) ≡ trim (strip_cr s)
unfolding trim
trim-newline s = trim_append_space is_whitespace s 10 newline_is_space ∙ sym (trim-strip_cr s)
  where
    newline_is_space : is_whitespace 10 ≡ true
    newline_is_space = unfold is_whitespace in refl

pub strip_cr_of_lacks : (s : Text) → All (λ c. c ≢ 13) s → strip_cr s ≡ s
unfolding strip_cr
strip_cr_of_lacks [] h = refl
strip_cr_of_lacks (c ∷ []) h = ground arith
strip_cr_of_lacks (c ∷ (d ∷ s)) (h, hs) = ap (λ t. c ∷ t) (strip_cr_of_lacks (d ∷ s) hs)

-- What holds at every character of a text holds at every character that trimming leaves.
pub All-trim_start_by :
    (P : ℕ → Type 0) (p : ℕ → Bool) (s : Text) → All P s → All P (trim_start_by p s)
unfolding trim_start_by
All-trim_start_by P p [] h = tt
All-trim_start_by P p (c ∷ s) (h, hs) = elim (Bool-cases (p c)) [
  | inl passes ↦ rw passes (All-trim_start_by P p s hs)
  | inr stays ↦ rw stays (h, hs)
]

pub All-trim_end_by : (P : ℕ → Type 0) (p : ℕ → Bool) (s : Text) → All P s → All P (trim_end_by p s)
unfolding trim_end_by
All-trim_end_by P p [] h = tt
All-trim_end_by P p (c ∷ s) (h, hs) = elim (Bool-cases (is_empty (trim_end_by p s) && p c)) [
  | inl gone ↦ rw gone tt
  | inr kept ↦ rw kept (h, All-trim_end_by P p s hs)
]

pub All-trim : (P : ℕ → Type 0) (s : Text) → All P s → All P (trim s)
unfolding trim
All-trim P s h = All-trim_end_by P is_whitespace _ (All-trim_start_by P is_whitespace s h)
