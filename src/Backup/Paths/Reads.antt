-- ===== src/Backup/Paths/Reads.antt =====
-- The path that a file of a snapshot is read from.
use backr.Base.{
  ◌==◌, Bool-cases, All, Text, codes, is_empty, contains_char, starts_with, contains, trim_start_by,
  trim, split_from, split, Result, ok, ℕ, ◌≡◌, refl, sym, ap, ◌∙◌, subst, ◌≢◌, inl, inr, true,
  false, ◌||◌, List, [], ◌∷◌, ◌++◌, append_assoc,
}
use backr.Backup.Paths.{slash, remote_path_join, snapshot_root, read_file_path, ReadPathError}
use backr.Backup.Validate.{validate_remote_component}
use backr.Backup.Validate.Laws.{validate_remote_component_iff}
use backr.Backup.Paths.Containment.{
  resolve, resolve-remote_path_join, resolve-snapshot_root, walk-down,
}

-- A text without two dots in a row has no segment "..".
starts_with-append : (p a b : Text) → starts_with p a ≡ true → starts_with p (a ++ b) ≡ true
unfolding starts_with
starts_with-append [] a b h = refl
starts_with-append (c ∷ p) [] b h = cc
starts_with-append (c ∷ p) (d ∷ a) b h = elim (Bool-cases (c == d)) [
  | inl same ↦ rw (same) (starts_with-append p a b (let q = rw (same) at h in q))
  | inr other ↦ let q = rw (other) at h in cc
]

contains-append_left : (p a b : Text) → contains p (a ++ b) ≡ false → contains p a ≡ false
unfolding contains starts_with
contains-append_left p [] b h = elim (Bool-cases (starts_with p [])) [
  | inr no_prefix ↦ no_prefix
  | inl prefix ↦ absurd (begins p b prefix h)
]
  where
    begins : (p b : Text) → starts_with p [] ≡ true → contains p b ≡ false → ⊥
    begins [] [] e h = cc
    begins [] (c ∷ b) e h = cc
    begins (d ∷ p) b e h = cc
contains-append_left p (c ∷ a) b h = elim (Bool-cases (starts_with p (c ∷ a))) [
  | inl prefix ↦ let q = rw (contains, starts_with-append p (c ∷ a) b prefix) at h in cc
  | inr other ↦ elim (Bool-cases (starts_with p (c ∷ (a ++ b)))) [
    | inl prefix ↦ let q = rw (contains, prefix) at h in cc
    | inr none_here ↦
        rw (contains, other)
          (contains-append_left p a b (let q = rw (contains, none_here) at h in q))
  ]
]

contains-append_right : (p a b : Text) → contains p (a ++ b) ≡ false → contains p b ≡ false
unfolding contains
contains-append_right p [] b h = h
contains-append_right p (c ∷ a) b h = elim (Bool-cases (starts_with p (c ∷ (a ++ b)))) [
  | inl prefix ↦ let q = rw (contains, prefix) at h in cc
  | inr other ↦ contains-append_right p a b (let q = rw (contains, other) at h in q)
]

lacks_dots : (s : Text) → contains (codes "..") s ≡ false → s ≢ codes ".."
unfolding contains starts_with
lacks_dots s h e = let q = subst (λ t. contains (codes "..") t ≡ false) e h in cc

split_from-dots :
    (sep : ℕ) (cur s : Text)
    → contains (codes "..") (cur ++ s) ≡ false
    → All (λ t. t ≢ codes "..") (split_from sep cur s)
unfolding split_from
split_from-dots sep cur [] h = (lacks_dots cur (contains-append_left _ cur [] h), tt)
split_from-dots sep cur (c ∷ s) h = elim (Bool-cases (c == sep)) [
  | inl same ↦
      rw (split_from, same)
        (
          lacks_dots cur (contains-append_left _ cur (c ∷ s) h),
          split_from-dots sep [] s
              (contains-append_right _ (c ∷ []) s (contains-append_right _ cur (c ∷ s) h)),
        )
  | inr other ↦
      rw (split_from, other)
        (split_from-dots sep (cur ++ c ∷ []) s (rw (append_assoc cur (c ∷ []) s) h))
]

-- A file that is read lies below its snapshot, whatever relative path is given.
pub resolve-read_file_path :
    (backup_root project snapshot path full : Text)
    → validate_remote_component project ≡ ok tt
    → validate_remote_component snapshot ≡ ok tt
    → read_file_path backup_root project snapshot path ≡ ok full
    → (more : List Text) × (resolve full ≡ more ++ snapshot ∷ project ∷ resolve backup_root)
unfolding read_file_path
resolve-read_file_path root project snapshot path full hp hs h = elim (Bool-cases (is_empty rel)) [
  | inl blank ↦ let q = rw (read_file_path, blank) at h in cc
  | inr named ↦ elim (Bool-cases (contains (codes "..") rel)) [
    | inl dots ↦ let q = rw (read_file_path, named, dots) at h in cc
    | inr plain ↦ elim (Bool-cases (contains_char 0 rel || contains_char 10 rel)) [
      | inl control ↦ let q = rw (read_file_path, named, plain, control) at h in cc
      | inr clean ↦ below rel (let q = rw (read_file_path, named, plain, clean) at h in q) plain
    ]
  ]
]
  where
    rel : Text
    rel = trim_start_by slash (trim path)

    base : Text
    base = snapshot_root root project snapshot

    ok_path : {a : Text} → ◌≡◌ {A = Result Text ReadPathError} (ok a) (ok full) → a ≡ full
    ok_path e = cc

    below :
        (rel : Text)
        → ◌≡◌ {A = Result Text ReadPathError} (ok (remote_path_join base rel)) (ok full)
        → contains (codes "..") rel ≡ false
        → (more : List Text) × (resolve full ≡ more ++ snapshot ∷ project ∷ resolve root)
    below rel e plain =
        let (more, down) =
          walk-down (resolve base) (split b'/' rel) (split_from-dots b'/' [] rel plain) in
        (
          more,
          ap resolve (sym (ok_path e))
              ∙ (resolve-remote_path_join base rel
                  ∙ (down
                      ∙ ap (λ d. more ++ d)
                          (resolve-snapshot_root root project snapshot
                            ((validate_remote_component_iff project).0 hp)
                            ((validate_remote_component_iff snapshot).0 hs)))),
        )
