-- ===== src/Store/RoundTrip.antt =====
-- What a save writes, and that a load reads it back.
use backr.Base.{
  Result-cases, if◌then◌else◌, Bool-cases, Option-cases, length, Text, codes, eq_text, Result, ok,
  err, ◌<◌, ◌≡◌, refl, sym, ap, ◌∙◌, subst, ◌≢◌, ◌⊎◌, inl, inr, Bool, true, false, not, none, some,
  Option, ◌∷◌, ◌++◌, arith,
}
use backr.Ipc.{BackrError, toml_ser, msg}
use backr.Daemon.State.{Config}
use backr.Update.Files.{PathBuf, Files, file, put, put-other, put_self, eq_path, exists}
use backr.Store.{
  ConfigWorld, failed, create_dir_all, file_name, app_dir, config_path, expanded, read_to_string,
  load_text, load_config, tmp_name, write, replace, save_config,
}
use backr.Store.Kept.{
  Made, Made-trans, create_dir_all-Made, eq_path_of_ne, rename-cases, create_dir_all-longer,
}

abbrev path_in : PathBuf → PathBuf
path_in base = file_name ∷ app_dir base

-- The configuration stays as it was and the save fails, or it is the printed one as a whole; every other
-- path, but for the temporary file, is as it was, or is a directory that did not exist.
unfoldable pub AllOrNothing :
    ConfigWorld → Config → PathBuf → Files → Files × Result (Unit {0}) BackrError → Type 0
AllOrNothing world cfg base fs (fs', r) =
    (((fs' (path_in base) ≡ fs (path_in base)) × (e : BackrError) × (r ≡ err e))
      ⊎ ((text : Text) × (world.to_string_pretty cfg ≡ ok text)
          × (r ≡ ok tt)
          × (fs' (path_in base) ≡ some (file text false))))
    × ((q : PathBuf)
        → q ≢ path_in base
        → q ≢ codes "config.toml.tmp" ∷ app_dir base
        → Made fs fs' q)

module _ (world : ConfigWorld) where
  tmp-apart : (base : PathBuf) → eq_path (path_in base) (tmp_name world (app_dir base)) ≡ false
  unfolding eq_path eq_text
  tmp-apart base = refl

  -- a write touches its own path alone
  write-other :
      (path q : PathBuf) (content : Text) (fs : Files)
      → eq_path q path ≡ false
      → (write world path content fs).0 q ≡ fs q
  unfolding write
  write-other path q content fs apart = elim (Bool-cases world.writable) [
    | inl works ↦ rw (write, works) (put-other path q (some (file content false)) fs apart)
    | inr broken ↦ elim (Option-cases (world.torn content)) [
      | inl nothing ↦ rw (write, broken, nothing) refl
      | inr (part, torn) ↦
          rw (write, broken, torn) (put-other path q (some (file part false)) fs apart)
    ]
  ]

  write-done :
      (path : PathBuf) (content : Text) (fs : Files)
      → ((write world path content fs).1 ≡ false)
        ⊎ (((write world path content fs).1 ≡ true)
            × ((write world path content fs).0 path ≡ some (file content false)))
  unfolding write
  write-done path content fs = elim (Bool-cases world.writable) [
    | inl works ↦ rw (write, works) (inr (refl, put_self path (some (file content false)) fs))
    | inr broken ↦ elim (Option-cases (world.torn content)) [
      | inl nothing ↦ rw (write, broken, nothing) (inl refl)
      | inr (part, torn) ↦ rw (write, broken, torn) (inl refl)
    ]
  ]

  replace-AllOrNothing :
      (cfg : Config) (base : PathBuf) (text : Text) (fs : Files)
      → world.to_string_pretty cfg ≡ ok text
      → AllOrNothing world cfg base fs (replace world (app_dir base) text fs)
  unfolding replace AllOrNothing
  replace-AllOrNothing cfg base text fs printed =
      let tmp = tmp_name world (app_dir base) in
      let path = path_in base in
      let w = write world tmp text fs in
      elim (write-done tmp text fs) [
        | inl torn ↦
            rw (replace, torn)
              (
                inl (write-other tmp path text fs (tmp-apart base), failed, refl),
                λ q other apart. inl (write-other tmp q text fs (eq_path_of_ne q tmp apart)),
              )
        | inr (done, whole) ↦ elim (rename-cases (not world.movable) tmp path w.0) [
          | inl stays ↦
              rw (replace, done, stays)
                (
                  inl (write-other tmp path text fs (tmp-apart base), failed, refl),
                  λ q other apart. inl (write-other tmp q text fs (eq_path_of_ne q tmp apart)),
                )
          | inr (node, held, goes) ↦
              rw (replace, done, goes)
                (
                  inr (
                    text,
                    printed,
                    refl,
                    put_self path (some node) (put tmp none w.0) ∙ (sym held ∙ whole),
                  ),
                  λ q other apart. inl (
                      put-other path q (some node) (put tmp none w.0) (eq_path_of_ne q path other)
                      ∙ (put-other tmp q none w.0 (eq_path_of_ne q tmp apart)
                          ∙ write-other tmp q text fs (eq_path_of_ne q tmp apart))),
                )
        ]
      ]

  if_creatable-longer :
      (b : Bool) (p q : PathBuf) (fs fs1 : Files)
      → (if b then create_dir_all p fs else none) ≡ some fs1
      → length p < length q
      → fs1 q ≡ fs q
  if_creatable-longer true p q fs fs1 made long = create_dir_all-longer p q fs fs1 made long
  if_creatable-longer false p q fs fs1 made long = cc

  if_creatable-Made :
      (b : Bool) (p q : PathBuf) (fs fs1 : Files)
      → (if b then create_dir_all p fs else none) ≡ some fs1
      → Made fs fs1 q
  if_creatable-Made true p q fs fs1 made = create_dir_all-Made p q fs fs1 made
  if_creatable-Made false p q fs fs1 made = cc

  AllOrNothing-earlier :
      (cfg : Config) (base : PathBuf) (fs fs1 : Files) (p : Files × Result (Unit {0}) BackrError)
      → fs1 (path_in base) ≡ fs (path_in base)
      → ((q : PathBuf) → Made fs fs1 q)
      → AllOrNothing world cfg base fs1 p
      → AllOrNothing world cfg base fs p
  unfolding AllOrNothing
  AllOrNothing-earlier cfg base fs fs1 (fs', r) same made (inl (kept, e, fails), rest) = (
    inl (kept ∙ same, e, fails),
    λ q other apart. Made-trans fs fs1 fs' q (made q) (rest q other apart),
  )
  AllOrNothing-earlier cfg base fs fs1 (fs', r) same made (inr done, rest) =
      (inr done, λ q other apart. Made-trans fs fs1 fs' q (made q) (rest q other apart))

  save_config-replace :
      (cfg : Config) (base : PathBuf) (text : Text) (fs fs1 : Files)
      → world.config_dir ≡ some base
      → (if world.creatable then create_dir_all (app_dir base) fs else none) ≡ some fs1
      → world.to_string_pretty cfg ≡ ok text
      → save_config world cfg fs ≡ replace world (app_dir base) text fs1
  unfolding save_config
  save_config-replace cfg base text fs fs1 located made printed =
      simp (save_config, located, made, printed)

  -- Where the directory of configurations is known: whichever calls of a save fail, the file of the configuration is as it was and the save fails, or the
  -- file holds the whole new configuration and the save succeeds. Every other path is as it was, but for the
  -- temporary file and the directories that were missing and are made.
  pub save_config-AllOrNothing :
      (cfg : Config) (base : PathBuf) (fs : Files)
      → world.config_dir ≡ some base
      → AllOrNothing world cfg base fs (save_config world cfg fs)
  unfolding save_config AllOrNothing
  save_config-AllOrNothing cfg base fs located =
      elim (Option-cases (if world.creatable then create_dir_all (app_dir base) fs else none)) [
        | inl fails ↦
            rw (save_config, located, fails) (inl (refl, failed, refl), λ q other apart. inl refl)
        | inr (fs1, made) ↦ elim (Result-cases (world.to_string_pretty cfg)) [
          | inr (e, unprinted) ↦
              rw (save_config, located, made, unprinted)
                (
                  inl (
                    if_creatable-longer world.creatable (app_dir base) (path_in base) fs fs1 made
                        (omega arith),
                    toml_ser e,
                    refl,
                  ),
                  λ q other apart. if_creatable-Made world.creatable (app_dir base) q fs fs1 made,
                )
          | inl (text, printed) ↦
              subst (λ p. AllOrNothing world cfg base fs p)
                (sym (save_config-replace cfg base text fs fs1 located made printed))
                (AllOrNothing-earlier cfg base fs fs1 (replace world (app_dir base) text fs1)
                  (if_creatable-longer world.creatable (app_dir base) (path_in base) fs fs1 made
                    (omega arith))
                  (λ q. if_creatable-Made world.creatable (app_dir base) q fs fs1 made)
                  (replace-AllOrNothing cfg base text fs1 printed))
        ]
      ]

  loaded :
      (fs : Files) (base : PathBuf) (text : Text) (cfg : Config)
      → world.config_dir ≡ some base
      → world.readable ≡ true
      → fs (path_in base) ≡ some (file text false)
      → world.from_str text ≡ ok cfg
      → load_config world fs ≡ (fs, expanded world cfg)
  unfolding load_config load_text config_path read_to_string
  loaded fs base text cfg located readable held parsed =
      let present : exists fs (path_in base) ≡ true = rw (exists, held) refl in
      simp (
        load_config, config_path, located, present, held, read_to_string, readable, load_text,
        parsed,
      )

  -- What a load of this configuration gives: the configuration with both paths expanded, or the error of one.
  pub Reloaded : Config → Result (Option Config) BackrError → Type 0
  Reloaded cfg r =
      ((ssh_key : Text) × (projects_path : Text) × (world.expand cfg.remote.ssh_key ≡ ok ssh_key)
        × (world.expand cfg.projects_path ≡ ok projects_path)
        × (r
            ≡ ok (
                some (record cfg {
                  remote = record cfg.remote { ssh_key = ssh_key };
                  projects_path = projects_path;
                }))))
      ⊎ ((e : Text) × ((world.expand cfg.remote.ssh_key ≡ err e)
            ⊎ (world.expand cfg.projects_path ≡ err e))
          × (r ≡ err (msg (codes "could not expand path: " ++ e))))

  expanded-Reloaded : (cfg : Config) → Reloaded cfg (expanded world cfg)
  unfolding expanded Reloaded
  expanded-Reloaded cfg = elim (Result-cases (world.expand cfg.remote.ssh_key)) [
    | inr (e, bad) ↦ inr (e, inl bad, simp (expanded, bad) refl)
    | inl (ssh_key, key_good) ↦ elim (Result-cases (world.expand cfg.projects_path)) [
      | inr (e, bad) ↦ inr (e, inr bad, simp (expanded, key_good, bad) refl)
      | inl (projects_path, good) ↦
          inl (ssh_key, projects_path, key_good, good, simp (expanded, key_good, good) refl)
    ]
  ]

  no_ok : {e : BackrError} {r : Result (Unit {0}) BackrError} → r ≡ ok tt → r ≢ err e
  no_ok h k = cc

  -- Where the directory of configurations is known: a load after a save that succeeded gives the configuration that was saved, with its two paths
  -- expanded, or the error of the expansion of one, and leaves the files, where the file can be read and
  -- the library reads back what it printed.
  pub load_config-save_config :
      (cfg : Config) (base : PathBuf) (fs : Files)
      → world.config_dir ≡ some base
      → ((text : Text) → world.to_string_pretty cfg ≡ ok text → world.from_str text ≡ ok cfg)
      → world.readable ≡ true
      → (save_config world cfg fs).1 ≡ ok tt
      → ((load_config world (save_config world cfg fs).0).0 ≡ (save_config world cfg fs).0)
        × Reloaded cfg (load_config world (save_config world cfg fs).0).1
  unfolding AllOrNothing
  load_config-save_config cfg base fs located back readable saved =
      elim (save_config-AllOrNothing cfg base fs located).0 [
        | inl (_, e, fails) ↦ absurd (no_ok saved fails)
        | inr (text, printed, done, held) ↦
            let e =
              loaded (save_config world cfg fs).0 base text cfg located readable held
                (back text printed) in
            (ap (λ p. p.0) e, subst (λ p. Reloaded cfg p.1) (sym e) (expanded-Reloaded cfg))
      ]
