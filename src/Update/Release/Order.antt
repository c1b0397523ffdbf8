-- ===== src/Update/Release/Order.antt =====
-- `is_newer` is a strict order on version strings.
use backr.Base.{
  Bool-cases, Option-cases, Text, ◌≡◌, refl, sym, ap, ◌∙◌, subst, ◌≢◌, ◌⊎◌, inl, inr, true, false,
  Option, some, arith,
}
use backr.Update.Release.{Version, parse_version, newer, is_newer}

newer_irrefl : (v : Version) → newer v v ≡ false
newer_irrefl v = ground arith

newer_trans : (a b c : Version) → newer a b ≡ true → newer b c ≡ true → newer a c ≡ true
newer_trans a b c h k = ground arith

is_newer-parts :
    (l c : Text)
    → is_newer l c ≡ true
    → (v : Version) × (w : Version) × (parse_version l ≡ some v)
      × (parse_version c ≡ some w)
      × (newer v w ≡ true)
unfolding is_newer
is_newer-parts l c h = elim (Option-cases (parse_version l)) [
  | inl e ↦ absurd (false-ne-true (sym (rw (is_newer, e) refl) ∙ h))
  | inr (v, e) ↦ elim (Option-cases (parse_version c)) [
    | inl f ↦ absurd (false-ne-true (sym (rw (is_newer, e, f) refl) ∙ h))
    | inr (w, f) ↦ (v, w, e, f, sym (rw (is_newer, e, f) refl) ∙ h)
  ]
]
  where
    false-ne-true : false ≢ true
    false-ne-true q = cc

is_newer_of :
    (l c : Text) (v w : Version)
    → parse_version l ≡ some v
    → parse_version c ≡ some w
    → is_newer l c ≡ newer v w
unfolding is_newer
is_newer_of l c v w e f = rw (is_newer, e, f) refl

-- A release that is newer than one that is newer than the third is newer than the third.
is_newer_trans : (a b c : Text) → is_newer a b ≡ true → is_newer b c ≡ true → is_newer a c ≡ true
is_newer_trans a b c h k =
    let (v, w, e, f, vw) = is_newer-parts a b h in
    let (w', x, f', g, wx) = is_newer-parts b c k in
    is_newer_of a c v x e g
    ∙ newer_trans v w x vw (subst (λ u. newer u x ≡ true) (some-injective w' w (sym f' ∙ f)) wx)
  where
    some-injective : (x y : Version) → ◌≡◌ {A = Option Version} (some x) (some y) → x ≡ y
    some-injective x y q = cc

newer-asymm : (v w : Version) → newer v w ≡ true → newer w v ≡ false
newer-asymm v w h = ground arith

Version-eq : (v w : Version) → v.major ≡ w.major → v.minor ≡ w.minor → v.patch ≡ w.patch → v ≡ w
Version-eq v w a b c = cc

newer-connected :
    (v w : Version)
    → (newer v w ≡ true) × (newer w v ≡ false)
      ⊎ ((newer w v ≡ true) × (newer v w ≡ false) ⊎ (v ≡ w))
newer-connected v w = elim (Bool-cases (newer v w)) [
  | inl h ↦ inl (h, newer-asymm v w h)
  | inr h ↦ elim (Bool-cases (newer w v)) [
    | inl k ↦ inr (inl (k, h))
    | inr k ↦ inr (inr (Version-eq v w (ground arith) (ground arith) (ground arith)))
  ]
]

-- Of two versions that parse, one is newer and the other is not, or they are the same version and
-- neither is newer.
is_newer-connected :
    (a b : Text) (v w : Version)
    → parse_version a ≡ some v
    → parse_version b ≡ some w
    → (is_newer a b ≡ true) × (is_newer b a ≡ false)
      ⊎ ((is_newer b a ≡ true) × (is_newer a b ≡ false)
          ⊎ ((v ≡ w) × (is_newer a b ≡ false) × (is_newer b a ≡ false)))
is_newer-connected a b v w e f = elim (newer-connected v w) [
  | inl (h, k) ↦ inl (is_newer_of a b v w e f ∙ h, is_newer_of b a w v f e ∙ k)
  | inr (inl (h, k)) ↦ inr (inl (is_newer_of b a w v f e ∙ h, is_newer_of a b v w e f ∙ k))
  | inr (inr same) ↦ inr (
      inr (
        same,
        is_newer_of a b v w e f ∙ (ap (λ x. newer x w) same ∙ newer_irrefl w),
        is_newer_of b a w v f e ∙ (ap (λ x. newer w x) same ∙ newer_irrefl w),
      ))
]
