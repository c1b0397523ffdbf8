-- ===== src/Pairing/Code/Compare.antt =====
-- `constant_time_eq` decides equality.
use backr.Base.{
  ap₂, Bool-eq, ltb, ◌==◌, ==_iff, Bool-cases, length, All, All-append, All-map, Text, eq_text,
  eq_text_iff, ℕ, ◌<◌, ◌≡◌, refl, ap, ◌≢◌, ◌↔◌, inl, inr, true, false, List, [], ◌∷◌, arith,
}
use backr.Pairing.Bits.{
  xor, or, Fits, xor-eq-zero_iff, or-eq-zero_iff, xor-Fits, or-Fits, as_bytes, as_bytes-ascii,
  utf8_char,
}
use backr.Pairing.Code.{fold_diff, constant_time_eq}

pub Fits-byte : (b : ℕ) → b < 256 → Fits 8 b
Fits-byte b h = ground arith

fold_diff-eq-zero_iff :
    (d : ℕ) (a b : List ℕ)
    → Fits 8 d
    → All (Fits 8) a
    → All (Fits 8) b
    → length a ≡ length b
    → (fold_diff d a b ≡ 0) ↔ ((d ≡ 0) × (a ≡ b))
unfolding fold_diff
fold_diff-eq-zero_iff d [] [] fd fa fb e = (λ h. (h, refl), λ h. h.0)
fold_diff-eq-zero_iff d [] (y ∷ ys) fd fa fb e = ground arith
fold_diff-eq-zero_iff d (x ∷ xs) [] fd fa fb e = ground arith
fold_diff-eq-zero_iff d (x ∷ xs) (y ∷ ys) fd (fx, fa) (fy, fb) e =
    let (to, from) =
      fold_diff-eq-zero_iff (or 8 d (xor 8 x y)) xs ys (or-Fits 8 d (xor 8 x y)) fa fb
        (ground arith) in
    let (or_to, or_from) = or-eq-zero_iff 8 d (xor 8 x y) fd (xor-Fits 8 x y) in
    let (xor_to, xor_from) = xor-eq-zero_iff 8 x y fx fy in
    (
      λ h.
          let (o, same) = to h in
          let (d0, x0) = or_to o in (d0, ap₂ (λ (u : ℕ) (v : List ℕ). u ∷ v) (xor_to x0) same),
      λ h. from (or_from (h.0, xor_from cc), cc),
    )

-- For two sequences of bytes, the comparison that folds the difference of every pair of bytes holds
-- exactly when the sequences are the same.
pub constant_time_eq_iff :
    (a b : List ℕ)
    → All (λ x. x < 256) a
    → All (λ x. x < 256) b
    → (constant_time_eq a b ≡ true) ↔ (a ≡ b)
unfolding constant_time_eq
constant_time_eq_iff a b ha hb = elim (Bool-cases (length a == length b)) [
  | inl same ↦
      let (to, from) =
        fold_diff-eq-zero_iff 0 a b refl (All-map _ _ Fits-byte a ha) (All-map _ _ Fits-byte b hb)
          ((==_iff (length a) (length b)).0 same) in
      rw same (
        λ h. (to ((==_iff (fold_diff 0 a b) 0).0 h)).1,
        λ e. (==_iff (fold_diff 0 a b) 0).1 (from (refl, e)),
      )
  | inr differ ↦
      rw differ (λ h. cc, λ e. absurd (ne_of_differ (length a) (length b) differ (ap length e)))
]
  where
    ne_of_differ : (m n : ℕ) → (m == n) ≡ false → m ≢ n
    ne_of_differ m n differ e = ground arith

-- A text of Rust's characters.
abbrev pub IsChars : Text → Type 0
IsChars s = All (λ c. c < 0x110000) s

utf8_char-bytes : (c : ℕ) → c < 0x110000 → All (λ x. x < 256) (utf8_char c)
unfolding utf8_char
utf8_char-bytes c h = elim (Bool-cases (ltb c 0x80)) [
  | inl ascii ↦ rw ascii (ground arith, tt)
  | inr wide ↦ elim (Bool-cases (ltb c 0x800)) [
    | inl two ↦ rw (wide, two) (ground arith, (ground arith, tt))
    | inr three ↦ elim (Bool-cases (ltb c 0x10000)) [
      | inl e ↦ rw (wide, three, e) (ground arith, (ground arith, (ground arith, tt)))
      | inr e ↦
          rw (wide, three, e) (ground arith, (ground arith, (ground arith, (ground arith, tt))))
    ]
  ]
]

as_bytes-bytes : (s : Text) → IsChars s → All (λ x. x < 256) (as_bytes s)
unfolding as_bytes
as_bytes-bytes [] h = tt
as_bytes-bytes (c ∷ s) (h, hs) =
    All-append _ (utf8_char c) (as_bytes s) (utf8_char-bytes c h) (as_bytes-bytes s hs)

-- On texts, for an ASCII code.
pub constant_time_eq-as_bytes :
    (s t : Text)
    → IsChars s
    → All (λ c. c < 0x80) t
    → constant_time_eq (as_bytes s) (as_bytes t) ≡ eq_text s t
constant_time_eq-as_bytes s t hs ht =
    let (to, from) =
      constant_time_eq_iff (as_bytes s) (as_bytes t) (as_bytes-bytes s hs)
        (as_bytes-bytes t (All-map _ _ (λ c h. ground arith) t ht)) in
    Bool-eq _ _ (λ h. (eq_text_iff s t).1 (as_bytes-ascii s t ht (to h)))
      (λ h. from (ap as_bytes ((eq_text_iff s t).0 h)))
