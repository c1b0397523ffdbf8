-- ===== src/Pairing/Bits.antt =====
-- Rust's `^` and `|` on integers of a given width, and the UTF-8 bytes of a text.
use backr.Base.{
  ap₂, ltb, ◌==◌, if◌then◌else◌, Bool-cases, All, Text, ℕ, zero, suc, ◌+◌, ◌*◌, ◌/◌, ◌%◌, ◌<◌, ◌≡◌,
  refl, sym, ◌∙◌, subst, ◌↔◌, inl, inr, List, [], ◌∷◌, ◌++◌, arith,
}

-- `a ^ b` on `w` bits
unfoldable pub xor : ℕ → ℕ → ℕ → ℕ
xor zero a b = 0
xor (suc w) a b = let rest = xor w (a / 2) (b / 2) in (if a % 2 == b % 2 then 0 else 1) + 2 * rest

-- `a | b` on `w` bits
unfoldable pub or : ℕ → ℕ → ℕ → ℕ
or zero a b = 0
or (suc w) a b = let rest = or w (a / 2) (b / 2) in (if a % 2 + b % 2 == 0 then 0 else 1) + 2 * rest

-- What fits into `w` bits.
abbrev pub Fits : ℕ → ℕ → Type 0
Fits zero a = a ≡ 0
Fits (suc w) a = Fits w (a / 2)

xor_self : (w a : ℕ) → xor w a a ≡ 0
unfolding xor
xor_self zero a = refl
xor_self (suc w) a = ground (arith, xor_self w (a / 2))

pub xor-eq-zero_iff : (w a b : ℕ) → Fits w a → Fits w b → (xor w a b ≡ 0) ↔ (a ≡ b)
unfolding xor
xor-eq-zero_iff zero a b fa fb = (λ _. fa ∙ sym fb, λ _. refl)
xor-eq-zero_iff (suc w) a b fa fb = (
  λ h. ground (arith, xor-eq-zero_iff w (a / 2) (b / 2) fa fb),
  λ h. subst (λ c. xor (suc w) a c ≡ 0) h (xor_self (suc w) a),
)

pub or-eq-zero_iff : (w a b : ℕ) → Fits w a → Fits w b → (or w a b ≡ 0) ↔ ((a ≡ 0) × (b ≡ 0))
unfolding or
or-eq-zero_iff zero a b fa fb = (λ _. (fa, fb), λ _. refl)
or-eq-zero_iff (suc w) a b fa fb = (
  λ h. (
    ground (arith, or-eq-zero_iff w (a / 2) (b / 2) fa fb),
    ground (arith, or-eq-zero_iff w (a / 2) (b / 2) fa fb),
  ),
  λ h. ground (arith, or-eq-zero_iff w (a / 2) (b / 2) fa fb),
)

pub xor-Fits : (w a b : ℕ) → Fits w (xor w a b)
unfolding xor
xor-Fits zero a b = refl
xor-Fits (suc w) a b = subst (Fits w) (half w a b) (xor-Fits w (a / 2) (b / 2))
  where
    half : (w a b : ℕ) → xor w (a / 2) (b / 2) ≡ xor (suc w) a b / 2
    half w a b = ground arith

pub or-Fits : (w a b : ℕ) → Fits w (or w a b)
unfolding or
or-Fits zero a b = refl
or-Fits (suc w) a b = subst (Fits w) (half w a b) (or-Fits w (a / 2) (b / 2))
  where
    half : (w a b : ℕ) → or w (a / 2) (b / 2) ≡ or (suc w) a b / 2
    half w a b = ground arith

-- The UTF-8 bytes of one character, and of a text: `s.as_bytes()`.
unfoldable pub utf8_char : ℕ → List ℕ
utf8_char c =
    if ltb c 0x80
    then c ∷ []
    else if ltb c 0x800
    then (0xc0 + c / 64) ∷ (0x80 + c % 64) ∷ []
    else if ltb c 0x10000
    then (0xe0 + c / 4096) ∷ (0x80 + c / 64 % 64) ∷ (0x80 + c % 64) ∷ []
    else (0xf0 + c / 262144) ∷ (0x80 + c / 4096 % 64) ∷ (0x80 + c / 64 % 64) ∷ (0x80 + c % 64) ∷ []

unfoldable pub as_bytes : Text → List ℕ
as_bytes [] = []
as_bytes (c ∷ s) = utf8_char c ++ as_bytes s

-- The first byte, and the other bytes, which ASCII does not have.
utf8_char-cons :
    (c : ℕ)
    → (a : ℕ) × (r : List ℕ) × (utf8_char c ≡ a ∷ r)
      × ((a < 0x80) ↔ (c < 0x80))
      × (c < 0x80 → (a ≡ c) × (r ≡ []))
unfolding utf8_char
utf8_char-cons c = elim (Bool-cases (ltb c 0x80)) [
  | inl ascii ↦ rw ascii (c, [], refl, (λ h. h, λ h. h), λ _. (refl, refl))
  | inr wide ↦ elim (Bool-cases (ltb c 0x800)) [
    | inl two ↦
        rw (wide, two) (_, _, refl, (λ h. ground arith, λ h. ground arith), λ h. ground arith)
    | inr three ↦ elim (Bool-cases (ltb c 0x10000)) [
      | inl e ↦
          rw (wide, three, e)
            (_, _, refl, (λ h. ground arith, λ h. ground arith), λ h. ground arith)
      | inr e ↦
          rw (wide, three, e)
            (_, _, refl, (λ h. ground arith, λ h. ground arith), λ h. ground arith)
    ]
  ]
]

-- Only an ASCII text has the bytes of an ASCII text.
pub as_bytes-ascii : (s t : Text) → All (λ c. c < 0x80) t → as_bytes s ≡ as_bytes t → s ≡ t
unfolding as_bytes
as_bytes-ascii [] [] h e = refl
as_bytes-ascii [] (c ∷ t) (h, hs) e = let (a, r, q, _, _) = utf8_char-cons c in cc
as_bytes-ascii (c ∷ s) [] h e = let (a, r, q, _, _) = utf8_char-cons c in cc
as_bytes-ascii (c ∷ s) (d ∷ t) (h, hs) e =
    let (a, r, q, small, same) = utf8_char-cons c in
    let (b, r', q', small', same') = utf8_char-cons d in
    let (b-eq, r'-eq) = same' h in
    let ab : a ≡ b = cc in
    let (a-eq, r-eq) = same (ground arith) in
    ap₂ (λ (x : ℕ) (y : Text). x ∷ y) (sym a-eq ∙ (ab ∙ b-eq)) (as_bytes-ascii s t hs cc)
