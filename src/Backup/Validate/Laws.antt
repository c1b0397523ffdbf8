-- ===== src/Backup/Validate/Laws.antt =====
-- What the validators of validate.rs accept.
use backr.Base.{
  All, All-map, Text, codes, eq_text, is_empty, contains_char, starts_with, split,
  contains_char-eq-false_iff, ne_of_eq_text, eq_text_of_ne, ne_nil_of_is_empty, is_empty_of_ne_nil,
  ok, ℕ, ◌≡◌, refl, ◌≢◌, ◌↔◌, false, List, [], ◌∷◌, arith,
}
use backr.Backup.Validate.{validate_remote_component, check_segments, validate_relative_path}

-- A character that may stand in a path component: no separator of either kind, no NUL, no newline.
abbrev pub IsPlainChar : ℕ → Type 0
IsPlainChar c = (c ≢ b'/') × (c ≢ 92) × (c ≢ 0) × (c ≢ 10)

-- A component that names an entry of the directory it is joined to.
abbrev pub IsSafeComponent : Text → Type 0
IsSafeComponent name = (name ≢ []) × (name ≢ codes ".") × (name ≢ codes "..") × All IsPlainChar name

All-plain :
    (s : Text)
    → All (λ c. c ≢ b'/') s
    → All (λ c. c ≢ 92) s
    → All (λ c. c ≢ 0) s
    → All (λ c. c ≢ 10) s
    → All IsPlainChar s
All-plain [] _ _ _ _ = tt
All-plain (c ∷ s) (a, as') (b, bs) (d, ds) (e, es) = ((a, b, d, e), All-plain s as' bs ds es)

component_tests :
    (name : Text)
    → validate_remote_component name ≡ ok tt
    → (is_empty name ≡ false)
      × (eq_text name (codes ".") ≡ false)
      × (eq_text name (codes "..") ≡ false)
      × (contains_char b'/' name ≡ false)
      × (contains_char 92 name ≡ false)
      × (contains_char 0 name ≡ false)
      × (contains_char 10 name ≡ false)
unfolding validate_remote_component
component_tests name h = ground arith

component_passes :
    (name : Text)
    → is_empty name ≡ false
    → eq_text name (codes ".") ≡ false
    → eq_text name (codes "..") ≡ false
    → contains_char b'/' name ≡ false
    → contains_char 92 name ≡ false
    → contains_char 0 name ≡ false
    → contains_char 10 name ≡ false
    → validate_remote_component name ≡ ok tt
unfolding validate_remote_component
component_passes name a b c d e f g = ground arith

All-lacks : (c : ℕ) (s : Text) → contains_char c s ≡ false → All (λ a. a ≢ c) s
All-lacks c s = (contains_char-eq-false_iff c s).0

lacks_of_All :
    (P : ℕ → Type 0) (c : ℕ) (s : Text)
    → ((a : ℕ) → P a → a ≢ c)
    → All P s
    → contains_char c s ≡ false
lacks_of_All P c s f h = (contains_char-eq-false_iff c s).1 (All-map P (λ a. a ≢ c) f s h)

-- The component validator accepts exactly the safe components: those that are not empty, "." or ".."
-- and that hold no "/", no backslash, no NUL and no newline.
pub validate_remote_component_iff :
    (name : Text) → (validate_remote_component name ≡ ok tt) ↔ IsSafeComponent name
validate_remote_component_iff name = (
  λ h.
      let (a, b, c, d, e, f, g) = component_tests name h in
      (
        ne_nil_of_is_empty name a,
        ne_of_eq_text name _ b,
        ne_of_eq_text name _ c,
        All-plain name (All-lacks _ name d) (All-lacks _ name e) (All-lacks _ name f)
            (All-lacks _ name g),
      ),
  λ (a, b, c, h).
      component_passes name (is_empty_of_ne_nil name a) (eq_text_of_ne name _ b)
        (eq_text_of_ne name _ c) (lacks_of_All IsPlainChar _ name (λ x p. p.0) h)
        (lacks_of_All IsPlainChar _ name (λ x p. p.1) h)
        (lacks_of_All IsPlainChar _ name (λ x p. p.2) h)
        (lacks_of_All IsPlainChar _ name (λ x p. p.3) h),
)

-- A relative path that stays below the directory it is joined to: not empty, not absolute, free of
-- NUL and newline, and with no ".." between its slashes.
abbrev pub IsSafeRelative : Text → Type 0
IsSafeRelative path =
    (path ≢ [])
    × (starts_with (codes "/") path ≡ false)
    × All (λ c. (c ≢ 0) × (c ≢ 10)) path
    × All (λ s. s ≢ codes "..") (split b'/' path)

check_segments_iff :
    (segments : List Text) → (check_segments segments ≡ ok tt) ↔ All (λ s. s ≢ codes "..") segments
unfolding check_segments
check_segments_iff [] = (λ _. tt, λ _. refl)
check_segments_iff (s ∷ rest) =
    let (to, from) = check_segments_iff rest in
    (
      λ h. (ne_of_eq_text s _ (ground arith), to (ground arith)),
      λ (n, h). rw (eq_text_of_ne s _ n) (from h),
    )

All-both : (s : Text) → All (λ c. c ≢ 0) s → All (λ c. c ≢ 10) s → All (λ c. (c ≢ 0) × (c ≢ 10)) s
All-both [] _ _ = tt
All-both (c ∷ s) (a, as') (b, bs) = ((a, b), All-both s as' bs)

relative_tests :
    (path : Text)
    → validate_relative_path path ≡ ok tt
    → (is_empty path ≡ false)
      × (starts_with (codes "/") path ≡ false)
      × (contains_char 0 path ≡ false)
      × (contains_char 10 path ≡ false)
      × (check_segments (split b'/' path) ≡ ok tt)
unfolding validate_relative_path
relative_tests path h = ground arith

relative_passes :
    (path : Text)
    → is_empty path ≡ false
    → starts_with (codes "/") path ≡ false
    → contains_char 0 path ≡ false
    → contains_char 10 path ≡ false
    → check_segments (split b'/' path) ≡ ok tt
    → validate_relative_path path ≡ ok tt
unfolding validate_relative_path
relative_passes path a b c d e = ground arith

-- The path validator accepts exactly the safe relative paths.
pub validate_relative_path_iff :
    (path : Text) → (validate_relative_path path ≡ ok tt) ↔ IsSafeRelative path
validate_relative_path_iff path = (
  λ h.
      let (a, b, c, d, e) = relative_tests path h in
      (
        ne_nil_of_is_empty path a,
        b,
        All-both path (All-lacks _ path c) (All-lacks _ path d),
        (check_segments_iff (split b'/' path)).0 e,
      ),
  λ (a, b, h, segments).
      relative_passes path (is_empty_of_ne_nil path a) b (lacks_of_All _ _ path (λ x p. p.0) h)
        (lacks_of_All _ _ path (λ x p. p.1) h) ((check_segments_iff (split b'/' path)).1 segments),
)
