-- ===== src/Backup/Restore/Fresh.antt =====
-- Restores never write into a directory that was there.
use backr.Base.{
  Result-cases, Bool-cases, Option-cases, length, filter, All, Text, Result, ok, err, ℕ, zero, suc,
  ◌≡◌, refl, sym, ap, subst, ◌≢◌, inl, inr, Bool, true, false, some, List, [], ◌∷◌,
}
use backr.Daemon.State.{Config}
use backr.Update.Files.{PathBuf, Files, directory, eq_path, put, put_self, exists}
use backr.Backup.Snapshots.{is_valid_snapshot_name, sort_desc}
use backr.Backup.Restore.{
  RestoreError, invalid_parent, RestoreWorld, restore_destination_folder_base, candidate,
  free_suffix, uniquify_path, remote_url, restore_into, restore_single_snapshot_to_home,
  restore_each, restore_every_valid_snapshot_for_project,
}

-- Paths that did not exist, and of which no two are the same.
unfoldable pub Fresh : Files → List PathBuf → Type 0
Fresh fs [] = Unit {0}
Fresh fs (p ∷ ps) = (exists fs p ≡ false) × All (λ q. q ≢ p) ps × Fresh fs ps

-- What exists still exists.
unfoldable pub Grows : Files → Files → Type 0
Grows fs fs' = (q : PathBuf) → exists fs q ≡ true → exists fs' q ≡ true

pub ok_injective : {A E : Type 0} {a b : A} → ◌≡◌ {A = Result A E} (ok a) (ok b) → a ≡ b
ok_injective e = cc

free_suffix-free :
    {E : Type 0} (fs : Files) (file_name : Text) (parent : PathBuf) (i n : ℕ) (path : PathBuf)
    → free_suffix {Err = E} fs file_name parent i n ≡ ok path
    → exists fs path ≡ false
unfolding free_suffix
free_suffix-free fs file_name parent i zero path h = cc
free_suffix-free fs file_name parent i (suc n) path h =
    elim (Bool-cases (exists fs (candidate file_name parent i))) [
      | inl taken ↦
          free_suffix-free fs file_name parent (suc i) n path
            (let q = rw (free_suffix, taken) at h in q)
      | inr free ↦
          let q = rw (free_suffix, free) at h in
          subst (λ p. exists fs p ≡ false) (ok_injective q) free
    ]

uniquify_path-free :
    {E : Type 0} (fs : Files) (path dest : PathBuf)
    → uniquify_path {Err = E} fs path ≡ ok dest
    → exists fs dest ≡ false
unfolding uniquify_path
uniquify_path-free {E} fs path dest h = elim (Bool-cases (exists fs path)) [
  | inr free ↦
      let q = rw (uniquify_path, free) at h in
      subst (λ p. exists fs p ≡ false) (ok_injective q) free
  | inl taken ↦ go path (let q = rw (uniquify_path, taken) at h in q)
]
  where
    go :
        (path : PathBuf)
        → (elim path as (λ _. Result PathBuf (RestoreError E)) [
          | [] ↦ err invalid_parent
          | file_name ∷ parent ↦ free_suffix fs file_name parent 1 9999
        ])
          ≡ ok dest
        → exists fs dest ≡ false
    go [] h = cc
    go (file_name ∷ parent) h = free_suffix-free fs file_name parent 1 9999 dest h

put-Grows : (fs : Files) (p : PathBuf) → Grows fs (put p (some directory) fs)
unfolding Grows put
put-Grows fs p q h = elim (Bool-cases (eq_path q p)) [
  | inl same ↦ rw (exists, put, same) refl
  | inr other ↦ rw (exists, put, other) h
]

module _ {E : Type 0} (w : RestoreWorld E) (cfg : Config) (project stamp : Text)
    (keeps : (url : Text) (p : PathBuf) (fs : Files) → Grows fs (w.rsync_restore url p fs).0) where
  -- A restore that succeeds made a new directory.
  pub record Made (fs : Files) (r : Files × Result PathBuf (RestoreError E)) (path : PathBuf)
      : Type 0 where
    pub free : exists fs path ≡ false
    pub there : exists r.0 path ≡ true

  restore_into-Grows :
      (snapshot : Text) (p : PathBuf) (fs : Files)
      → Grows fs (restore_into w cfg project stamp snapshot p fs).0
  unfolding restore_into Grows
  restore_into-Grows snapshot p fs q h = elim (Option-cases (w.mkdir_error p)) [
    | inr (e, fails) ↦ rw (restore_into, fails) h
    | inl makes ↦ rw (restore_into, makes) (keeps _ p _ q (put-Grows fs p q h))
  ]

  restore_into-there :
      (snapshot : Text) (p path : PathBuf) (fs : Files)
      → (restore_into w cfg project stamp snapshot p fs).1 ≡ ok path
      → (p ≡ path) × (exists (restore_into w cfg project stamp snapshot p fs).0 p ≡ true)
  unfolding restore_into Grows put
  restore_into-there snapshot p path fs h = elim (Option-cases (w.mkdir_error p)) [
    | inr (e, fails) ↦ let q = rw (restore_into, fails) at h in cc
    | inl makes ↦
        elim (Result-cases
          (w.rsync_restore (remote_url cfg project snapshot) p (put p (some directory) fs)).1) [
            | inr (e, bad) ↦ let q = rw (restore_into, makes, bad) at h in cc
            | inl (_, good) ↦
                let q = rw (restore_into, makes, good) at h in
                (
                  ok_injective q,
                  rw (restore_into, makes)
                      (keeps _ p _ p (rw (exists, put_self p (some directory) fs) refl)),
                )
          ]
  ]

  pub restore_single-Grows :
      (snapshot : Text) (fs : Files)
      → Grows fs (restore_single_snapshot_to_home w cfg project stamp snapshot fs).0
  unfolding restore_single_snapshot_to_home Grows
  restore_single-Grows snapshot fs q h = elim (Option-cases w.home_dir) [
    | inl lost ↦ rw (restore_single_snapshot_to_home, lost) h
    | inr (home, found) ↦
        elim (Result-cases (
          uniquify_path {Err = E} fs
            (restore_destination_folder_base w.re stamp snapshot ∷ home))) [
              | inr (e, full) ↦ rw (restore_single_snapshot_to_home, found, full) h
              | inl (p, free) ↦
                  rw (restore_single_snapshot_to_home, found, free)
                    (restore_into-Grows snapshot p fs q h)
            ]
  ]

  pub restore_single-Made :
      (snapshot : Text) (fs : Files) (path : PathBuf)
      → (restore_single_snapshot_to_home w cfg project stamp snapshot fs).1 ≡ ok path
      → Made fs (restore_single_snapshot_to_home w cfg project stamp snapshot fs) path
  unfolding restore_single_snapshot_to_home
  restore_single-Made snapshot fs path h = elim (Option-cases w.home_dir) [
    | inl lost ↦ let q = rw (restore_single_snapshot_to_home, lost) at h in cc
    | inr (home, found) ↦
        elim (Result-cases (
          uniquify_path {Err = E} fs
            (restore_destination_folder_base w.re stamp snapshot ∷ home))) [
              | inr (e, full) ↦ let q = rw (restore_single_snapshot_to_home, found, full) at h in cc
              | inl (p, free) ↦
                  let q = rw (restore_single_snapshot_to_home, found, free) at h in
                  let (same, there) = restore_into-there snapshot p path fs q in
                  rw (restore_single_snapshot_to_home, found, free)
                    (record {
                      free = subst (λ x. exists fs x ≡ false) same (uniquify_path-free fs _ p free);
                      there =
                          subst
                            (λ x.
                              exists (restore_into w cfg project stamp snapshot p fs).0 x ≡ true)
                            same there;
                    })
            ]
  ]

  -- What is fresh after a restore was fresh before it, and is not the restored path.
  pub Fresh-earlier :
      (fs fs' : Files) (path : PathBuf) (ps : List PathBuf)
      → Grows fs fs'
      → exists fs' path ≡ true
      → Fresh fs' ps
      → Fresh fs ps × All (λ q. q ≢ path) ps
  unfolding Fresh Grows
  Fresh-earlier fs fs' path [] grows there tt = (tt, tt)
  Fresh-earlier fs fs' path (p ∷ ps) grows there (free, apart, rest) =
      let (rest', apart') = Fresh-earlier fs fs' path ps grows there rest in
      ((absent (exists fs p) refl, apart, rest'), (λ same. differs same, apart'))
    where
      absent : (b : Bool) → exists fs p ≡ b → exists fs p ≡ false
      absent false e = e
      absent true e = let q = grows p e in cc

      differs : p ≡ path → ⊥
      differs same = let q = subst (λ x. exists fs' x ≡ true) (sym same) there in cc

  -- What a chain of restores that succeeds has made.
  pub record Restored (fs : Files) (snapshots : List Text) (paths : List PathBuf) : Type 0 where
    pub fresh : Fresh fs paths
    pub each : length paths ≡ length snapshots

  abbrev pub after : Text → Files → Files
  after s fs = (restore_single_snapshot_to_home w cfg project stamp s fs).0

  Restored-first :
      (s : Text) (ss : List Text) (fs : Files) (p : PathBuf) (ps : List PathBuf)
      → (restore_single_snapshot_to_home w cfg project stamp s fs).1 ≡ ok p
      → Restored (after s fs) ss ps
      → Restored fs (s ∷ ss) (p ∷ ps)
  unfolding Fresh
  Restored-first s ss fs p ps good tail =
      let made = restore_single-Made s fs p good in
      let (fresh, apart) =
        Fresh-earlier fs (after s fs) p ps (restore_single-Grows s fs) made.there tail.fresh in
      record { fresh = (made.free, apart, fresh); each = ap suc tail.each }

  pub restore_each-Restored :
      (snapshots : List Text) (fs : Files) (paths : List PathBuf)
      → (restore_each w cfg project stamp snapshots fs).1 ≡ ok paths
      → Restored fs snapshots paths
  unfolding restore_each Fresh
  restore_each-Restored [] fs paths h =
      subst (λ ps. Restored fs [] ps) (ok_injective h) (record { fresh = tt; each = refl })
  restore_each-Restored (s ∷ ss) fs paths h =
      elim (Result-cases (restore_single_snapshot_to_home w cfg project stamp s fs).1) [
        | inr (e, bad) ↦ let q = rw (restore_each, bad) at h in cc
        | inl (p, good) ↦ elim (Result-cases (restore_each w cfg project stamp ss (after s fs)).1) [
          | inr (e, bad) ↦ let q = rw (restore_each, good, bad) at h in cc
          | inl (ps, rest) ↦
              let q = rw (restore_each, good, rest) at h in
              let tail = restore_each-Restored ss (after s fs) ps rest in
              subst (λ x. Restored fs (s ∷ ss) x) (ok_injective q)
                (Restored-first s ss fs p ps good tail)
        ]
      ]

  -- Restoring every snapshot of a project makes, where it succeeds, one directory for each name of the
  -- listing that is a snapshot's, none of which existed before, and no two of which are the same; rsync
  -- is taken to remove nothing that exists.
  pub restore_every_valid_snapshot_for_project-Restored :
      (names : List Text) (fs : Files) (paths : List PathBuf)
      → (restore_every_valid_snapshot_for_project w cfg project stamp (ok names) fs).1 ≡ ok paths
      → Restored fs (sort_desc (filter (is_valid_snapshot_name w.re) names)) paths
  restore_every_valid_snapshot_for_project-Restored names fs paths h =
      restore_each-Restored (sort_desc (filter (is_valid_snapshot_name w.re) names)) fs paths h
