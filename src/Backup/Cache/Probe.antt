-- ===== src/Backup/Cache/Probe.antt =====
-- The listing of the projects with a probe of the remote host, in backrd/src/ipc/handlers.rs. What the
-- remote host answers for a project is an argument.
use backr.Base.{
  Result-cases, ap₂, if◌then◌else◌, Bool-cases, length, head?, any, All, Text, eq_text, eq_text→≡,
  eq_text_self, Result, ok, err, ℕ, ◌≡◌, refl, sym, ap, ◌∙◌, subst, ◌≢◌, inl, inr, Bool, true,
  false, Option, none, some, List, [], ◌∷◌, ◌++◌, map, append_assoc, arith,
}
use backr.Daemon.State.{Config}
use backr.Backup.Cache.{
  CachedProjectStats, SnapshotCacheFile, insert, remote_cache_key, load_snapshot_cache,
  kept_projects, save_snapshot_cache, ProjectRow, row_from, list_projects,
}

map-same : {A B : Type 0} {f g : A → B} (l : List A) → ((x : A) → f x ≡ g x) → map f l ≡ map g l
map-same [] h = refl
map-same (x ∷ l) h = ap₂ (λ y ys. y ∷ ys) (h x) (map-same l h)

map-map :
    {A B C : Type 0} (g : B → C) (f : A → B) (l : List A) → map g (map f l) ≡ map (λ x. g (f x)) l
map-map g f [] = refl
map-map g f (x ∷ l) = ap (λ ys. g (f x) ∷ ys) (map-map g f l)

any-here : (n : Text) (before ns : List Text) → any (eq_text n) (before ++ n ∷ ns) ≡ true
any-here n [] ns = rw (eq_text_self n) refl
any-here n (x ∷ before) ns = ground (arith, any-here n before ns)

all_named : (before ns : List Text) → All (λ n. any (eq_text n) (before ++ ns) ≡ true) ns
all_named before [] = tt
all_named before (n ∷ ns) = (
  any-here n before ns,
  subst (λ names. All (λ m. any (eq_text m) names ≡ true) ns) (append_assoc before (n ∷ []) ns)
      (all_named (before ++ n ∷ []) ns),
)

module _ {T E : Type 0} (parse_snapshot_timestamp : Text → Option T)
    (snapshots : Text → Result (List Text) E) where
  -- the statistics of the names that a listing gives, the newest first
  unfoldable pub stats_of : List Text → CachedProjectStats T
  stats_of snaps = record {
    last_backup_at = elim (head? snaps) [ none ↦ none | some s ↦ parse_snapshot_timestamp s ];
    snapshot_count = length snaps;
  }

  -- the row of one project, and the projects after it
  unfoldable pub probe :
      Text
      → (Text → Option (CachedProjectStats T))
      → ProjectRow T × (Text → Option (CachedProjectStats T))
  probe name projects = elim (snapshots name) [
    | ok snaps ↦ (
      record {
        name = name;
        last_backup_at = (stats_of snaps).last_backup_at;
        snapshot_count = (stats_of snaps).snapshot_count;
        stats_from_cache = false;
      },
      insert name (stats_of snaps) projects,
    )
    | err _ ↦ (row_from name (projects name), projects)
  ]

  unfoldable pub probe_each :
      List Text
      → (Text → Option (CachedProjectStats T))
      → List (ProjectRow T) × (Text → Option (CachedProjectStats T))
  probe_each [] projects = ([], projects)
  probe_each (name ∷ names) projects =
      let (row, projects') = probe name projects in
      let (rows, projects'') = probe_each names projects' in (row ∷ rows, projects'')

  -- The listing of `names` where `probe_remote` is true, with the file as it is left.
  unfoldable pub probe_projects :
      Config
      → List Text
      → T
      → Option E
      → Option (SnapshotCacheFile T)
      → Option (SnapshotCacheFile T) × List (ProjectRow T)
  probe_projects cfg names now fault file =
      let key = remote_cache_key cfg in
      let (rows, projects) = probe_each names (kept_projects key (load_snapshot_cache file)) in
      (
        (save_snapshot_cache fault
            (record { remote_key = key; updated_at = some now; projects = projects }) file).0,
        rows,
      )

  -- what is known of a project after the probe
  abbrev known : (Text → Option (CachedProjectStats T)) → Text → Option (CachedProjectStats T)
  known base p = elim (snapshots p) [ ok snaps ↦ some (stats_of snaps) | err _ ↦ base p ]

  -- the row of a project in the listing with a probe
  unfoldable pub probed : (Text → Option (CachedProjectStats T)) → Text → ProjectRow T
  probed base n = (probe n base).0

  -- The probe of one project changes nothing for the others, nor for itself asked again.
  known-probe :
      (base : Text → Option (CachedProjectStats T)) (n p : Text)
      → known (probe n base).1 p ≡ known base p
  unfolding probe
  known-probe base n p = elim (Result-cases (snapshots p)) [
    | inl (snaps, reached) ↦ rw (known, reached) refl
    | inr (e, broken) ↦ elim (Result-cases (snapshots n)) [
      | inr (e', broken') ↦ rw (known, broken, probe, broken') refl
      | inl (snaps, reached) ↦ elim (Bool-cases (eq_text p n)) [
        | inl same ↦
            absurd (clash e snaps (sym broken ∙ (ap snapshots (eq_text→≡ p n same) ∙ reached)))
        | inr apart ↦ rw (known, broken, probe, reached, apart) refl
      ]
    ]
  ]
    where
      clash : (e : E) (snaps : List Text) → ◌≢◌ {A = Result (List Text) E} (err e) (ok snaps)
      clash e snaps h = cc

  probed-probe :
      (base : Text → Option (CachedProjectStats T)) (n p : Text)
      → probed (probe n base).1 p ≡ probed base p
  unfolding probe probed
  probed-probe base n p = elim (Result-cases (snapshots p)) [
    | inl (snaps, reached) ↦ rw (probed, probe, reached) refl
    | inr (e, broken) ↦
        let same = known-probe base n p in
        rw (probed, probe, broken) (ap (row_from p) (let q = rw (known, broken) at same in q))
  ]

  probe_self :
      (base : Text → Option (CachedProjectStats T)) (n p : Text)
      → eq_text p n ≡ true
      → (probe n base).1 p ≡ known base p
  unfolding probe
  probe_self base n p same = elim (Result-cases (snapshots n)) [
    | inl (snaps, reached) ↦
        rw (probe, reached, same, known, ap snapshots (eq_text→≡ p n same) ∙ reached) refl
    | inr (e, broken) ↦ rw (probe, broken, known, ap snapshots (eq_text→≡ p n same) ∙ broken) refl
  ]

  probe_other :
      (base : Text → Option (CachedProjectStats T)) (n p : Text)
      → eq_text p n ≡ false
      → (probe n base).1 p ≡ base p
  unfolding probe
  probe_other base n p apart = elim (Result-cases (snapshots n)) [
    | inl (snaps, reached) ↦ rw (probe, reached, apart) refl
    | inr (e, broken) ↦ rw (probe, broken) refl
  ]

  -- after the probes, a project that was asked for is known
  probe_each-known :
      (names : List Text) (base : Text → Option (CachedProjectStats T)) (p : Text)
      → (probe_each names base).1 p ≡ (if any (eq_text p) names then known base p else base p)
  unfolding probe_each probe
  probe_each-known [] base p = refl
  probe_each-known (n ∷ names) base p =
      probe_each-known names (probe n base).1 p
      ∙ (ap (λ o. if any (eq_text p) names then o else (probe n base).1 p) (known-probe base n p)
          ∙ go (any (eq_text p) names))
    where
      both :
          (b : Bool) {o : Option (CachedProjectStats T)}
          → o ≡ known base p
          → (if b then known base p else o) ≡ known base p
      both true e = refl
      both false e = e

      go :
          (b : Bool)
          → (if b then known base p else (probe n base).1 p)
            ≡ (if (if eq_text p n then true else b) then known base p else base p)
      go b = elim (Bool-cases (eq_text p n)) [
        | inl same ↦ rw (same) (both b (probe_self base n p same))
        | inr apart ↦
            rw (apart) (ap (λ o. if b then known base p else o) (probe_other base n p apart))
      ]

  probe_each-rows :
      (names : List Text) (base : Text → Option (CachedProjectStats T))
      → (probe_each names base).0 ≡ map (probed base) names
  unfolding probe_each probed
  probe_each-rows [] base = refl
  probe_each-rows (n ∷ names) base =
      ap (λ rows. probed base n ∷ rows)
        (probe_each-rows names (probe n base).1 ∙ map-same names (λ p. probed-probe base n p))

  -- a row without the mark of where it comes from
  pub figures : ProjectRow T → Text × (Option T × ℕ)
  figures row = (row.name, (row.last_backup_at, row.snapshot_count))

  figures-known :
      (base : Text → Option (CachedProjectStats T)) (n : Text)
      → figures (row_from n (known base n)) ≡ figures (probed base n)
  unfolding figures probed probe
  figures-known base n = elim (Result-cases (snapshots n)) [
    | inl (snaps, reached) ↦ rw (known, probed, probe, reached) refl
    | inr (e, broken) ↦ rw (known, probed, probe, broken) refl
  ]

  listed-known :
      (ns names : List Text) (base : Text → Option (CachedProjectStats T))
      → All (λ n. any (eq_text n) names ≡ true) ns
      → map (λ n. figures (row_from n ((probe_each names base).1 n))) ns
        ≡ map (λ n. figures (probed base n)) ns
  listed-known [] names base h = refl
  listed-known (n ∷ ns) names base (h, hs) =
      ap₂ (λ r rs. r ∷ rs)
        (ap (λ o. figures (row_from n o)) (probe_each-known names base n ∙ rw (h) refl)
          ∙ figures-known base n)
        (listed-known ns names base hs)

  list-written :
      (cfg : Config) (names : List Text) (now : T) (projects : Text → Option (CachedProjectStats T))
      → list_projects cfg names (
          some (record {
            remote_key = remote_cache_key cfg;
            updated_at = some now;
            projects = projects;
          }))
        ≡ map (λ n. row_from n (projects n)) names
  unfolding list_projects kept_projects
  list-written cfg names now projects =
      map-same names (λ n. rw (eq_text_self (remote_cache_key cfg)) refl)

  -- A listing without a probe shows after one with a probe, whose file was written, what that one
  -- showed: for each of the names the same time and the same number of snapshots, those that the remote
  -- host gave where it answered, and else those of the file before.
  pub list_projects-probe_projects :
      (cfg : Config) (names : List Text) (now : T) (file : Option (SnapshotCacheFile T))
      → map figures (list_projects cfg names (probe_projects cfg names now none file).0)
        ≡ map figures (probe_projects cfg names now none file).1
  unfolding probe_projects
  list_projects-probe_projects cfg names now file =
      let base = kept_projects (remote_cache_key cfg) (load_snapshot_cache file) in
      ap (map figures) (list-written cfg names now (probe_each names base).1)
      ∙ (map-map figures (λ n. row_from n ((probe_each names base).1 n)) names
          ∙ (listed-known names names base (all_named [] names)
              ∙ (sym (map-map figures (probed base) names)
                  ∙ ap (map figures) (sym (probe_each-rows names base)))))
