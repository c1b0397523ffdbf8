-- ===== src/Store/Kept.antt =====
-- What the loads and saves of the configuration leave of the files.
use backr.Base.{
  Result-cases, Bool-cases, Option-cases, length, Text, Result, ok, err, ◌<◌, ◌≡◌, refl, sym, ap,
  ◌∙◌, ◌≢◌, ◌⊎◌, inl, inr, Bool, false, not, Option, none, some, [], ◌∷◌, arith,
}
use backr.Ipc.{BackrError}
use backr.Daemon.State.{Config}
use backr.Update.Files.{
  PathBuf, Files, Node, file, directory, put, put-other, put_self, eq_path, eq_path→≡, exists,
  rename,
}
use backr.Store.{
  ConfigWorld, create_dir_all, config_path, backup_name, backup_unreadable_config, read_to_string,
  load_text, load_config,
}

pub eq_path_of_ne : (p q : PathBuf) → p ≢ q → eq_path p q ≡ false
eq_path_of_ne p q differ = elim (Bool-cases (eq_path p q)) [
  | inl same ↦ absurd (differ (eq_path→≡ p q same))
  | inr other ↦ other
]

pub at_path : {f g : Files} → some f ≡ some g → (q : PathBuf) → g q ≡ f q
at_path {f} {g} e q = ap (λ o. elim o [ none ↦ f q | some x ↦ x q ]) (sym e)

ne_of_longer : (p q : PathBuf) → length p < length q → q ≢ p
ne_of_longer p q h e =
    let same : length q ≡ length p = ap length e in absurd (omega (arith, same, h))

-- A rename fails, or moves a node.
pub rename-cases :
    (fails : Bool) (a b : PathBuf) (fs : Files)
    → (rename fails a b fs ≡ none)
      ⊎ ((node : Node) × (fs a ≡ some node)
          × (rename fails a b fs ≡ some (put b (some node) (put a none fs))))
unfolding rename
rename-cases fails a b fs = elim (Option-cases (fs a)) [
  | inl absent ↦ inl (rw (rename, absent) refl)
  | inr (node, held) ↦ elim (Bool-cases fails) [
    | inl broken ↦ inl (rw (rename, held, broken) refl)
    | inr works ↦ inr (node, held, rw (rename, held, works) refl)
  ]
]

-- Making the directories of a path touches no path that is longer.
pub create_dir_all-longer :
    (p q : PathBuf) (fs fs' : Files)
    → create_dir_all p fs ≡ some fs'
    → length p < length q
    → fs' q ≡ fs q
unfolding create_dir_all
create_dir_all-longer [] q fs fs' made h = at_path made q
create_dir_all-longer (name ∷ p) q fs fs' made h = elim (Option-cases (create_dir_all p fs)) [
  | inl fails ↦ let x = rw (create_dir_all, fails) at made in cc
  | inr (fs1, made1) ↦
      go fs1 (fs1 (name ∷ p)) refl (let x = rw (create_dir_all, made1) at made in x)
      ∙ create_dir_all-longer p q fs fs1 made1 (omega arith)
]
  where
    go :
        (fs1 : Files) (o : Option Node)
        → fs1 (name ∷ p) ≡ o
        → (elim (fs1 (name ∷ p)) [
          | none ↦ some (put (name ∷ p) (some directory) fs1)
          | some node ↦ elim node [ file _ _ ↦ none | directory ↦ some fs1 ]
        ])
          ≡ some fs'
        → fs' q ≡ fs1 q
    go fs1 none missing x =
        let y = rw (missing) at x in
        at_path y q
        ∙ put-other (name ∷ p) q (some directory) fs1
            (eq_path_of_ne q (name ∷ p) (ne_of_longer (name ∷ p) q h))
    go fs1 (some directory) held x = let y = rw (held) at x in at_path y q
    go fs1 (some (file _ _)) held x = let y = rw (held) at x in cc

-- A path is as it was, or is a directory that did not exist.
abbrev pub Made : Files → Files → PathBuf → Type 0
Made fs fs' q = (fs' q ≡ fs q) ⊎ ((fs q ≡ none) × (fs' q ≡ some directory))

pub Made-trans : (fs fs1 fs' : Files) (q : PathBuf) → Made fs fs1 q → Made fs1 fs' q → Made fs fs' q
Made-trans fs fs1 fs' q (inl e) (inl e') = inl (e' ∙ e)
Made-trans fs fs1 fs' q (inl e) (inr (missing, made)) = inr (sym e ∙ missing, made)
Made-trans fs fs1 fs' q (inr (missing, made)) (inl e') = inr (missing, e' ∙ made)
Made-trans fs fs1 fs' q (inr (missing, made)) (inr (missing', made')) = inr (missing, made')

pub create_dir_all-Made :
    (p q : PathBuf) (fs fs' : Files) → create_dir_all p fs ≡ some fs' → Made fs fs' q
unfolding create_dir_all
create_dir_all-Made [] q fs fs' made = inl (at_path made q)
create_dir_all-Made (name ∷ p) q fs fs' made = elim (Option-cases (create_dir_all p fs)) [
  | inl fails ↦ let x = rw (create_dir_all, fails) at made in cc
  | inr (fs1, made1) ↦
      Made-trans fs fs1 fs' q (create_dir_all-Made p q fs fs1 made1)
        (go fs1 (fs1 (name ∷ p)) refl (let x = rw (create_dir_all, made1) at made in x))
]
  where
    go :
        (fs1 : Files) (o : Option Node)
        → fs1 (name ∷ p) ≡ o
        → (elim (fs1 (name ∷ p)) [
          | none ↦ some (put (name ∷ p) (some directory) fs1)
          | some node ↦ elim node [ file _ _ ↦ none | directory ↦ some fs1 ]
        ])
          ≡ some fs'
        → Made fs1 fs' q
    go fs1 none missing x =
        let y = rw (missing) at x in
        elim (Bool-cases (eq_path q (name ∷ p))) [
          | inr apart ↦ inl (at_path y q ∙ put-other (name ∷ p) q (some directory) fs1 apart)
          | inl same ↦
              let e = eq_path→≡ q (name ∷ p) same in
              inr (
                ap fs1 e ∙ missing,
                at_path y q
                    ∙ (ap (put (name ∷ p) (some directory) fs1) e
                        ∙ put_self (name ∷ p) (some directory) fs1),
              )
        ]
    go fs1 (some directory) held x = let y = rw (held) at x in inl (at_path y q)
    go fs1 (some (file _ _)) held x = let y = rw (held) at x in cc

module _ (world : ConfigWorld) where
  -- The file of the configuration could be read, and does not parse.
  pub Unparsed : PathBuf → Files → Type 0
  Unparsed path fs =
      (raw : Text) × (executable : Bool) × (e : Text) × (fs path ≡ some (file raw executable))
      × (world.from_str raw ≡ err e)

  -- A load leaves every file as it is, or moves a configuration that does not parse to the backup and
  -- gives none.
  unfoldable pub IsKept : PathBuf → Files → Files × Result (Option Config) BackrError → Type 0
  IsKept path fs (fs', r) =
      ((q : PathBuf) → fs' q ≡ fs q)
      ⊎ (Unparsed path fs
          × (fs' (backup_name world path) ≡ fs path)
          × (r ≡ ok none)
          × ((q : PathBuf) → q ≢ path → q ≢ backup_name world path → fs' q ≡ fs q))

  moved :
      (path : PathBuf) (fs : Files)
      → Unparsed path fs
      → (let (fs', r) = backup_unreadable_config world path fs in
          IsKept path fs (fs', elim r [ err e ↦ err e | ok _ ↦ ok none ]))
  unfolding backup_unreadable_config IsKept
  moved path fs bad = elim (rename-cases (not world.movable) path (backup_name world path) fs) [
    | inl stays ↦ rw (backup_unreadable_config, stays) (inl (λ q. refl))
    | inr (node, held, goes) ↦
        rw (backup_unreadable_config, goes)
          (inr (
            bad,
            put_self (backup_name world path) (some node) (put path none fs) ∙ sym held,
            refl,
            λ q other apart.
                put-other (backup_name world path) q (some node) (put path none fs)
                  (eq_path_of_ne q _ apart)
                ∙ put-other path q none fs (eq_path_of_ne q path other),
          ))
  ]

  -- Where the directory of configurations is known: whatever the file holds and whichever calls fail, a load leaves every file as it is; or the file does not
  -- parse, stands under the backup's name afterwards, in place of what stood there, every other file is as
  -- it was, and the load gives none.
  pub load_config-IsKept :
      (path : PathBuf) (fs : Files)
      → config_path world ≡ ok path
      → IsKept path fs (load_config world fs)
  unfolding load_config load_text IsKept read_to_string Unparsed
  load_config-IsKept path fs located = elim (Bool-cases (exists fs path)) [
    | inr absent ↦ rw (load_config, located, absent) (inl (λ q. refl))
    | inl present ↦ elim (Result-cases (read_to_string world path fs)) [
      | inr (e, unread) ↦ rw (load_config, located, present, unread) (inl (λ q. refl))
      | inl (raw, read) ↦ elim (Result-cases (world.from_str raw)) [
        | inl (cfg, parsed) ↦
            rw (load_config, located, present, read, load_text, parsed) (inl (λ q. refl))
        | inr (e, bad) ↦
            rw (load_config, located, present, read, load_text, bad)
              (moved path fs (unparsed raw read e bad))
      ]
    ]
  ]
    where
      unparsed :
          (raw : Text)
          → read_to_string world path fs ≡ ok raw
          → (e : Text) → world.from_str raw ≡ err e
          → Unparsed path fs
      unparsed raw read e bad = of_node (fs path) refl
        where
          of_node : (o : Option Node) → fs path ≡ o → Unparsed path fs
          of_node none missing = let q = rw (read_to_string, missing) at read in cc
          of_node (some directory) held = let q = rw (read_to_string, held) at read in cc
          of_node (some (file content executable)) held = elim (Bool-cases world.readable) [
            | inr closed ↦ let q = rw (read_to_string, held, closed) at read in cc
            | inl opens ↦
                let q = rw (read_to_string, held, opens) at read in
                let same : content ≡ raw = cc in
                (raw, executable, e, held ∙ ap (λ t. some (file t executable)) same, bad)
          ]
