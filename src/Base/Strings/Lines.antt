-- ===== src/Base/Strings/Lines.antt =====
-- Laws of `lines`.
use Prim.Native.Nat.{ℕ}
use mathlib.Core.Path.{◌≡◌, refl, ap}
use mathlib.Core.Logic.{◌≢◌, inl, inr}
use mathlib.Core.Bool.{false, ◌&&◌}
use mathlib.Core.List.{[], ◌∷◌, ◌++◌, map, append-nil, append_assoc}
use native.Mathlib.Omega.{arith}
use backr.Base.Tests.{◌==◌, Bool-cases, ==_iff}
use backr.Base.Lists.{All}
use backr.Base.Strings.Trim.{trim-strip_cr}
use backr.Base.Strings.{ends_with_char, Text, trim, strip_cr, lines_from, lines, is_empty}

-- Text behind a newline starts its own lines.
pub lines_from-append :
    (cur s t : Text) → lines_from cur (s ++ 10 ∷ t) ≡ lines_from cur (s ++ 10 ∷ []) ++ lines t
unfolding lines_from
lines_from-append [] [] t = refl
lines_from-append (d ∷ cur) [] t = refl
lines_from-append [] (c ∷ s) t =
    ground (arith, lines_from-append [] s t, lines_from-append (c ∷ []) s t)
lines_from-append (d ∷ cur) (c ∷ s) t =
    ground (arith, lines_from-append [] s t, lines_from-append ((d ∷ cur) ++ c ∷ []) s t)

pub lines-append : (s t : Text) → lines (s ++ 10 ∷ t) ≡ lines (s ++ 10 ∷ []) ++ lines t
lines-append s t = lines_from-append [] s t

-- One finished line.
lines_from_line :
    (cur s : Text) → All (λ c. c ≢ 10) s → lines_from cur (s ++ 10 ∷ []) ≡ strip_cr (cur ++ s) ∷ []
unfolding lines_from
lines_from_line [] [] h = refl
lines_from_line (d ∷ cur) [] h = ground (arith, append-nil (d ∷ cur))
lines_from_line [] (c ∷ s) (h, hs) = ground (arith, lines_from_line (c ∷ []) s hs)
lines_from_line (d ∷ cur) (c ∷ s) (h, hs) =
    ground (arith, lines_from_line ((d ∷ cur) ++ c ∷ []) s hs, append_assoc (d ∷ cur) (c ∷ []) s)

pub lines_line : (s : Text) → All (λ c. c ≢ 10) s → lines (s ++ 10 ∷ []) ≡ strip_cr s ∷ []
lines_line s h = lines_from_line [] s h

-- Ending an unfinished last line changes no line but by white space.
lines_from-finish :
    (cur s : Text)
    → (is_empty cur && is_empty s) ≡ false
    → ends_with_char 10 s ≡ false
    → map trim (lines_from cur (s ++ 10 ∷ [])) ≡ map trim (lines_from cur s)
unfolding lines_from ends_with_char
lines_from-finish [] [] h e = cc
lines_from-finish (d ∷ cur) [] h e = ap (λ l. l ∷ []) (trim-strip_cr (d ∷ cur))
lines_from-finish [] (c ∷ []) h e = ground (arith, trim-strip_cr (c ∷ []))
lines_from-finish (d ∷ cur) (c ∷ []) h e = ground (arith, trim-strip_cr ((d ∷ cur) ++ c ∷ []))
lines_from-finish [] (c ∷ (b ∷ s)) h e =
    ground (arith, lines_from-finish [] (b ∷ s) refl e, lines_from-finish (c ∷ []) (b ∷ s) refl e)
lines_from-finish (d ∷ cur) (c ∷ (b ∷ s)) h e = ground (
  arith,
  lines_from-finish [] (b ∷ s) refl e,
  lines_from-finish ((d ∷ cur) ++ c ∷ []) (b ∷ s) refl e,
)

pub map-trim-lines-finish :
    (s : Text)
    → s ≢ []
    → ends_with_char 10 s ≡ false
    → map trim (lines (s ++ 10 ∷ [])) ≡ map trim (lines s)
map-trim-lines-finish [] h e = absurd (h refl)
map-trim-lines-finish (c ∷ s) h e = lines_from-finish [] (c ∷ s) refl e

All-strip_cr : (P : ℕ → Type 0) (s : Text) → All P s → All P (strip_cr s)
unfolding strip_cr
All-strip_cr P [] h = tt
All-strip_cr P (c ∷ []) (h, hs) = elim (Bool-cases (c == 13)) [
  | inl cut ↦ rw cut tt
  | inr kept ↦ rw kept (h, tt)
]
All-strip_cr P (c ∷ (d ∷ s)) (h, hs) = (h, All-strip_cr P (d ∷ s) hs)

All-concat : (P : ℕ → Type 0) (s : Text) (c : ℕ) → All P s → P c → All P (s ++ c ∷ [])
All-concat P [] c _ h = (h, tt)
All-concat P (d ∷ s) c (p, hs) h = (p, All-concat P s c hs h)

module _ (P : ℕ → Type 0) where
  All-lines_from :
      (cur s : Text) → All P cur → All (λ c. c ≢ 10 → P c) s → All (All P) (lines_from cur s)
  unfolding lines_from strip_cr
  All-lines_from [] [] hc hs = tt
  All-lines_from (d ∷ cur) [] hc hs = (hc, tt)
  All-lines_from [] (c ∷ s) hc (h, hs) = elim (Bool-cases (c == 10)) [
    | inl newline ↦ rw (newline, All) (tt, All-lines_from [] s tt hs)
    | inr inside ↦
        rw (inside, All) (All-lines_from (c ∷ []) s (h (λ e. ground (arith, ==_iff c 10)), tt) hs)
  ]
  All-lines_from (d ∷ cur) (c ∷ s) hc (h, hs) = elim (Bool-cases (c == 10)) [
    | inl newline ↦ rw (newline, All) (All-strip_cr P (d ∷ cur) hc, All-lines_from [] s tt hs)
    | inr inside ↦
        rw (inside, All)
          (All-lines_from ((d ∷ cur) ++ c ∷ []) s
            (All-concat P (d ∷ cur) c hc (h (λ e. ground (arith, ==_iff c 10)))) hs)
  ]

  -- What holds at every character of a text but its newlines holds in every line.
  pub All-lines : (s : Text) → All (λ c. c ≢ 10 → P c) s → All (All P) (lines s)
  All-lines s h = All-lines_from [] s tt h

All-newline : (s : Text) → All (λ c. c ≢ 10 → c ≢ 10) s
All-newline [] = tt
All-newline (c ∷ s) = (λ h. h, All-newline s)

-- No line holds a newline.
pub lines-lack_newline : (s : Text) → All (All (λ c. c ≢ 10)) (lines s)
lines-lack_newline s = All-lines (λ c. c ≢ 10) s (All-newline s)
