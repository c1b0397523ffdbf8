-- ===== src/Backup/Paths/Containment.antt =====
-- A remote path that the daemon builds from validated names stays below the backup root, whatever
-- "." and ".." the configured root itself holds.
use backr.Base.{
  split-nil, split-cons_sep, if◌then◌else◌, ==_iff, Bool-cases, All, All-map, Text, codes, eq_text,
  is_empty, trim_start_by, trim_end_by, split_from, split, eq_text→≡, split-append,
  split_from_of_lacks, trim_end_by_parts, trim_start_by_parts, eq_text_of_ne, is_empty_of_ne_nil,
  ok, ◌≡◌, refl, sym, ap, ◌∙◌, ◌≢◌, ◌⊎◌, inl, inr, Bool, true, ◌||◌, List, [], ◌∷◌, ◌++◌,
  append-nil, append_assoc, arith,
}
use backr.Backup.Paths.{
  slash, remote_path_join, remote_project_dir, absolute_remote_snapshot_path, snapshot_root,
  scan_base,
}
use backr.Backup.Validate.{validate_remote_component, validate_relative_path}
use backr.Backup.Validate.Laws.{
  IsSafeComponent, validate_remote_component_iff, validate_relative_path_iff,
}
use mathlib.Core.List.{tail}

-- How the operating system walks a path: the directories entered so far, the innermost first.
abbrev pub enter : List Text → Text → List Text
enter dirs segment =
    if is_empty segment || eq_text segment (codes ".")
    then dirs
    else if eq_text segment (codes "..")
    then tail dirs
    else segment ∷ dirs

abbrev pub walk : List Text → List Text → List Text
walk dirs [] = dirs
walk dirs (segment ∷ rest) = walk (enter dirs segment) rest

-- The directory that a path leads to.
abbrev pub resolve : Text → List Text
resolve path = walk [] (split b'/' path)

walk-append : (dirs xs ys : List Text) → walk dirs (xs ++ ys) ≡ walk (walk dirs xs) ys
walk-append dirs [] ys = refl
walk-append dirs (x ∷ xs) ys = walk-append (enter dirs x) xs ys

resolve-append : (a b : Text) → resolve (a ++ b'/' ∷ b) ≡ walk (resolve a) (split b'/' b)
resolve-append a b = rw split-append (walk-append [] (split b'/' a) (split b'/' b))

walk-slashes :
    (dirs : List Text) (cut rest : Text)
    → All (λ c. slash c ≡ true) cut
    → walk dirs (split b'/' (cut ++ rest)) ≡ walk dirs (split b'/' rest)
walk-slashes dirs [] rest h = refl
walk-slashes dirs (c ∷ cut) rest (h, hs) =
    rw ((==_iff c b'/').0 h) (rw split-cons_sep (walk-slashes dirs cut rest hs))

-- Slashes at the end lead nowhere.
resolve-slashes : (a cut : Text) → All (λ c. slash c ≡ true) cut → resolve (a ++ cut) ≡ resolve a
resolve-slashes a [] h = rw append-nil
resolve-slashes a (c ∷ cut) (h, hs) = rw ((==_iff c b'/').0 h) (
    resolve-append a cut
    ∙ (ap (λ s. walk (resolve a) (split b'/' s)) (sym (append-nil cut))
        ∙ (walk-slashes (resolve a) cut [] hs ∙ ap (walk (resolve a)) (split-nil b'/'))))

walk-trim_start :
    (dirs : List Text) (child : Text)
    → walk dirs (split b'/' (trim_start_by slash child)) ≡ walk dirs (split b'/' child)
walk-trim_start dirs child =
    let (cut, e, h) = trim_start_by_parts slash child in
    sym (ap (λ s. walk dirs (split b'/' s)) e ∙ walk-slashes dirs cut (trim_start_by slash child) h)

resolve-trim_end : (base : Text) → resolve (trim_end_by slash base) ≡ resolve base
resolve-trim_end base =
    let (cut, e, h) = trim_end_by_parts slash base in
    sym (ap resolve e ∙ resolve-slashes (trim_end_by slash base) cut h)

or-cases : (a b : Bool) → (a || b) ≡ true → (a ≡ true) ⊎ (b ≡ true)
or-cases a b h = ground arith

walk-dot : (dirs : List Text) → walk dirs (split b'/' (codes ".")) ≡ dirs
unfolding split_from eq_text
walk-dot dirs = refl

-- An empty child and "." stay where they are.
walk-here :
    (dirs : List Text) (child : Text)
    → (is_empty child || eq_text child (codes ".")) ≡ true
    → walk dirs (split b'/' child) ≡ dirs
walk-here dirs [] h = ap (walk dirs) (split-nil b'/')
walk-here dirs (c ∷ s) h =
    ap (λ t. walk dirs (split b'/' t)) (eq_text→≡ (c ∷ s) (codes ".") h) ∙ walk-dot dirs

-- Joining a path enters its segments from where the base leads, for every base and child.
pub resolve-remote_path_join :
    (base child : Text)
    → resolve (remote_path_join base child) ≡ walk (resolve base) (split b'/' child)
unfolding remote_path_join
resolve-remote_path_join base child =
    elim (Bool-cases (is_empty child || eq_text child (codes "."))) [
      | inl here ↦ rw here (resolve-trim_end base ∙ sym (walk-here (resolve base) child here))
      | inr deeper ↦ rw deeper (
          resolve-append (trim_end_by slash base) (trim_start_by slash child)
          ∙ (walk-trim_start (resolve (trim_end_by slash base)) child
              ∙ ap (λ d. walk d (split b'/' child)) (resolve-trim_end base)))
    ]

-- A safe component is one directory further down.
walk-component :
    (dirs : List Text) (name : Text)
    → IsSafeComponent name
    → walk dirs (split b'/' name) ≡ name ∷ dirs
walk-component dirs name (a, b, c, h) = rw (
  split_from_of_lacks b'/' [] name (All-map _ _ (λ x p. p.0) name h),
  is_empty_of_ne_nil name a,
  eq_text_of_ne name _ b,
  eq_text_of_ne name _ c,
)

-- Segments without ".." only go down.
pub walk-down :
    (dirs segments : List Text)
    → All (λ s. s ≢ codes "..") segments
    → (more : List Text) × (walk dirs segments ≡ more ++ dirs)
walk-down dirs [] h = ([], refl)
walk-down dirs (s ∷ rest) (h, hs) = elim (Bool-cases (is_empty s || eq_text s (codes "."))) [
  | inl here ↦ rw here (walk-down dirs rest hs)
  | inr deeper ↦
      let (more, e) = walk-down (s ∷ dirs) rest hs in
      (more ++ s ∷ [], rw (deeper, eq_text_of_ne s _ h) (e ∙ sym (append_assoc more (s ∷ []) dirs)))
]

-- The directory that a snapshot is written to and restored from lies two levels below the backup
-- root, for every root and every project and snapshot name that passes validation.
pub resolve-absolute_remote_snapshot_path :
    (backup_root project snapshot : Text)
    → validate_remote_component project ≡ ok tt
    → validate_remote_component snapshot ≡ ok tt
    → resolve (absolute_remote_snapshot_path backup_root project snapshot)
      ≡ snapshot ∷ project ∷ resolve backup_root
unfolding absolute_remote_snapshot_path
resolve-absolute_remote_snapshot_path root project snapshot hp hs =
    resolve-remote_path_join (remote_path_join root project) snapshot
    ∙ (walk-component _ snapshot ((validate_remote_component_iff snapshot).0 hs)
        ∙ ap (λ d. snapshot ∷ d)
            (resolve-remote_path_join root project
              ∙ walk-component _ project ((validate_remote_component_iff project).0 hp)))

pub resolve-snapshot_root :
    (backup_root project snapshot : Text)
    → IsSafeComponent project
    → IsSafeComponent snapshot
    → resolve (snapshot_root backup_root project snapshot)
      ≡ snapshot ∷ project ∷ resolve backup_root
unfolding snapshot_root remote_project_dir
resolve-snapshot_root root project snapshot hp hs =
    resolve-remote_path_join (remote_path_join (remote_path_join root project) snapshot) []
    ∙ (ap (walk _) (split-nil b'/')
        ∙ (resolve-remote_path_join (remote_path_join root project) snapshot
            ∙ (walk-component _ snapshot hs
                ∙ ap (λ d. snapshot ∷ d)
                    (resolve-remote_path_join root project ∙ walk-component _ project hp))))

-- Reading a file and listing a directory lead below the snapshot, for every relative path that
-- passes validation.
pub resolve-scan_base :
    (backup_root project snapshot path : Text)
    → validate_remote_component project ≡ ok tt
    → validate_remote_component snapshot ≡ ok tt
    → validate_relative_path path ≡ ok tt
    → (more : List Text) × (resolve (scan_base backup_root project snapshot path)
        ≡ more ++ snapshot ∷ project ∷ resolve backup_root)
unfolding scan_base
resolve-scan_base root project snapshot path hp hs hr =
    let sp = (validate_remote_component_iff project).0 hp in
    let ss = (validate_remote_component_iff snapshot).0 hs in
    let (_, _, _, down) = (validate_relative_path_iff path).0 hr in
    elim (Bool-cases (is_empty path || eq_text path (codes "."))) [
      | inl here ↦ ([], rw here (resolve-snapshot_root root project snapshot sp ss))
      | inr deeper ↦
          let (more, e) =
            walk-down (resolve (snapshot_root root project snapshot)) (split b'/' path) down in
          (
            more,
            rw deeper (
                resolve-remote_path_join (snapshot_root root project snapshot) path
                ∙ (e ∙ ap (λ d. more ++ d) (resolve-snapshot_root root project snapshot sp ss))),
          )
    ]

pub resolve-remote_project_dir :
    (backup_root project : Text)
    → validate_remote_component project ≡ ok tt
    → resolve (remote_project_dir backup_root project) ≡ project ∷ resolve backup_root
unfolding remote_project_dir
resolve-remote_project_dir root project hp =
    resolve-remote_path_join root project
    ∙ walk-component _ project ((validate_remote_component_iff project).0 hp)
