-- ===== src/Backup/Restore/Projects.antt =====
-- The restore of every project, in backrd/src/ipc/handlers.rs.
use backr.Base.{
  Result-cases, All, All-append_iff, Text, Result, ok, err, ◌≡◌, refl, sym, subst, ◌≢◌, inl, inr,
  Bool, true, false, List, [], ◌∷◌, ◌++◌,
}
use backr.Daemon.State.{Config}
use backr.Update.Files.{PathBuf, Files, exists}
use backr.Backup.Restore.{
  RestoreError, RestoreWorld, restore_single_snapshot_to_home, restore_each,
  restore_every_valid_snapshot_for_project,
}
use backr.Backup.Restore.Fresh.{
  Fresh, Grows, ok_injective, Fresh-earlier, restore_single-Grows, restore_single-Made, after,
  restore_every_valid_snapshot_for_project-Restored,
}

-- a project with the directories of its snapshots
abbrev pub Row : Type 0
Row = Text × List PathBuf

-- `if !destinations.is_empty() { rows.push(…) }`
abbrev pub with_row : Text → List PathBuf → List Row → List Row
with_row project [] rows = rows
with_row project (p ∷ ps) rows = (project, p ∷ ps) ∷ rows

module _ {E : Type 0} (w : RestoreWorld E) (cfg : Config) (stamp : Text)
    (listing : Text → Result (List Text) E) where
  abbrev restore_project : Text → Files → Files × Result (List PathBuf) (RestoreError E)
  restore_project project fs =
      restore_every_valid_snapshot_for_project w cfg project stamp (listing project) fs

  -- the loop over the projects
  unfoldable pub restore_all_projects :
      List Text → Files → Files × Result (List Row) (RestoreError E)
  restore_all_projects [] fs = (fs, ok [])
  restore_all_projects (project ∷ projects) fs =
      let (fs', r) = restore_project project fs in
      elim r [
        | err e ↦ (fs', err e)
        | ok destinations ↦
            let (fs'', rest) = restore_all_projects projects fs' in
            (fs'', elim rest [ ok rows ↦ ok (with_row project destinations rows) | err e ↦ err e ])
      ]

-- every directory of the rows
abbrev pub destinations_of : List Row → List PathBuf
destinations_of [] = []
destinations_of ((_, paths) ∷ rows) = paths ++ destinations_of rows

destinations-with_row :
    (project : Text) (paths : List PathBuf) (rows : List Row)
    → destinations_of (with_row project paths rows) ≡ paths ++ destinations_of rows
destinations-with_row project [] rows = refl
destinations-with_row project (p ∷ ps) rows = refl

module _ {E : Type 0} (w : RestoreWorld E) (cfg : Config) (stamp : Text)
    (listing : Text → Result (List Text) E)
    (keeps : (url : Text) (p : PathBuf) (fs : Files) → Grows fs (w.rsync_restore url p fs).0) where
  restore_each-Grows :
      (project : Text) (snapshots : List Text) (fs : Files)
      → Grows fs (restore_each w cfg project stamp snapshots fs).0
  unfolding restore_each Grows
  restore_each-Grows project [] fs q h = h
  restore_each-Grows project (s ∷ ss) fs q h =
      let one = restore_single-Grows w cfg project stamp keeps s fs q h in
      elim (Result-cases (restore_single_snapshot_to_home w cfg project stamp s fs).1) [
        | inr (e, bad) ↦ rw (restore_each, bad) one
        | inl (p, good) ↦ rw (restore_each, good) (restore_each-Grows project ss _ q one)
      ]

  restore_each-There :
      (project : Text) (snapshots : List Text) (fs : Files) (paths : List PathBuf)
      → (restore_each w cfg project stamp snapshots fs).1 ≡ ok paths
      → All (λ q. exists (restore_each w cfg project stamp snapshots fs).0 q ≡ true) paths
  unfolding restore_each Grows
  restore_each-There project [] fs paths h =
      subst (λ ps. All (λ q. exists fs q ≡ true) ps) (ok_injective h) tt
  restore_each-There project (s ∷ ss) fs paths h =
      elim (Result-cases (restore_single_snapshot_to_home w cfg project stamp s fs).1) [
        | inr (e, bad) ↦ let q = rw (restore_each, bad) at h in cc
        | inl (p, good) ↦
            elim (Result-cases
              (restore_each w cfg project stamp ss (after w cfg project stamp keeps s fs)).1) [
                | inr (e, bad) ↦ let q = rw (restore_each, good, bad) at h in cc
                | inl (ps, rest) ↦
                    let q = rw (restore_each, good, rest) at h in
                    let made = restore_single-Made w cfg project stamp keeps s fs p good in
                    rw (restore_each, good)
                      (subst
                        (λ l.
                          All
                            (λ x.
                              exists
                                (restore_each w cfg project stamp ss
                                  (after w cfg project stamp keeps s fs)).0
                                x
                              ≡ true)
                            l)
                        (ok_injective q)
                        (
                          restore_each-Grows project ss (after w cfg project stamp keeps s fs) p
                              made.there,
                          restore_each-There project ss (after w cfg project stamp keeps s fs) ps
                              rest,
                        ))
              ]
      ]

  Fresh-before : (fs fs' : Files) (ps : List PathBuf) → Grows fs fs' → Fresh fs' ps → Fresh fs ps
  unfolding Fresh Grows
  Fresh-before fs fs' [] grows fresh = tt
  Fresh-before fs fs' (p ∷ ps) grows (free, apart, rest) =
      (absent (exists fs p) refl, apart, Fresh-before fs fs' ps grows rest)
    where
      absent : (b : Bool) → exists fs p ≡ b → exists fs p ≡ false
      absent false e = e
      absent true e = let q = grows p e in cc

  -- What is fresh before and exists after, with what is fresh after it.
  Fresh-append :
      (fs fs' : Files) (ps qs : List PathBuf)
      → Grows fs fs'
      → Fresh fs ps
      → All (λ q. exists fs' q ≡ true) ps
      → Fresh fs' qs
      → Fresh fs (ps ++ qs)
  unfolding Fresh
  Fresh-append fs fs' [] qs grows fresh there later = Fresh-before fs fs' qs grows later
  Fresh-append fs fs' (p ∷ ps) qs grows (free, apart, rest) (here, there) later = (
    free,
    (All-append_iff (λ q. q ≢ p) ps qs).1
        (apart, (Fresh-earlier w cfg [] stamp keeps fs fs' p qs grows here later).1),
    Fresh-append fs fs' ps qs grows rest there later,
  )

  -- one project, of any listing
  record Settled (fs : Files) (r : Files × Result (List PathBuf) (RestoreError E))
      (paths : List PathBuf) : Type 0 where
    grows : Grows fs r.0
    fresh : Fresh fs paths
    there : All (λ q. exists r.0 q ≡ true) paths

  restore_project-Settled :
      (project : Text) (names : Result (List Text) E) (fs : Files) (paths : List PathBuf)
      → (restore_every_valid_snapshot_for_project w cfg project stamp names fs).1 ≡ ok paths
      → Settled fs (restore_every_valid_snapshot_for_project w cfg project stamp names fs) paths
  restore_project-Settled project (err e) fs paths h = cc
  restore_project-Settled project (ok names) fs paths h = record {
    grows = restore_each-Grows project _ fs;
    fresh =
        (restore_every_valid_snapshot_for_project-Restored w cfg project stamp keeps names fs paths
          h).fresh;
    there = restore_each-There project _ fs paths h;
  }

  -- Restoring every snapshot of every project makes, where it succeeds, directories that did not exist
  -- before, and no two of them are the same, of one project or of two; rsync is taken to remove nothing
  -- that exists.
  pub restore_all_projects-Fresh :
      (projects : List Text) (fs : Files) (rows : List Row)
      → (restore_all_projects w cfg stamp listing projects fs).1 ≡ ok rows
      → Fresh fs (destinations_of rows)
  unfolding restore_all_projects Fresh
  restore_all_projects-Fresh [] fs rows h =
      subst (λ l. Fresh fs (destinations_of l)) (ok_injective h) tt
  restore_all_projects-Fresh (project ∷ projects) fs rows h =
      elim (Result-cases (restore_project w cfg stamp listing project fs).1) [
        | inr (e, bad) ↦ let q = rw (restore_all_projects, bad) at h in cc
        | inl (paths, good) ↦
            let done = restore_project-Settled project (listing project) fs paths good in
            let fs' = (restore_project w cfg stamp listing project fs).0 in
            elim (Result-cases (restore_all_projects w cfg stamp listing projects fs').1) [
              | inr (e, bad) ↦ let q = rw (restore_all_projects, good, bad) at h in cc
              | inl (rest, more) ↦
                  let q = rw (restore_all_projects, good, more) at h in
                  subst (λ l. Fresh fs (destinations_of l)) (ok_injective q)
                    (subst (λ l. Fresh fs l) (sym (destinations-with_row project paths rest))
                      (Fresh-append fs fs' paths (destinations_of rest) done.grows done.fresh
                        done.there (restore_all_projects-Fresh projects fs' rest more)))
            ]
      ]
