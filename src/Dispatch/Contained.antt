-- ===== src/Dispatch/Contained.antt =====
-- What the checks of the handlers keep out: no accepted request names a remote path outside of the
-- directory that it is about.
use backr.Base.{
  Result-cases, if◌then◌else◌, Bool-cases, Option-cases, Text, codes, Result, ok, err, map_err,
  ok_or, >>=-eq-ok, String, ◌≡◌, refl, subst, inl, inr, Option, none, some, List, [], ◌∷◌, ◌++◌,
}
use backr.Trust.Keys.{RegexClasses}
use backr.Backup.Validate.{validate_remote_component, validate_relative_path}
use backr.Backup.Validate.Laws.{validate_remote_component_iff}
use backr.Backup.Paths.{
  remote_project_dir, absolute_remote_snapshot_path, scan_base, read_file_path, ReadPathError,
  ReadPathError,
}
use backr.Backup.Paths.Containment.{
  resolve, resolve-snapshot_root, resolve-remote_project_dir, resolve-scan_base,
  resolve-absolute_remote_snapshot_path,
}
use backr.Backup.Paths.Reads.{resolve-read_file_path}
use backr.Backup.Snapshots.{is_valid_snapshot_name}
use backr.Ipc.Value.{Value, get}
use backr.Dispatch.{
  Method, Request, Serde, backup, snapshots_of, files_of, file_of, restore, restore_all, checked,
  checked_component, listed_path, normalized, is_here, opt_str, str_param, read_run_backup,
  read_project, read_list_files, read_read_snapshot_file, read_restore_snapshot, read_params,
  method_of, dispatch, run_backup, save_config, test_connection, set_update_settings, list_projects,
  list_snapshots, list_files, read_snapshot_file, restore_snapshot, restore_all_snapshots,
  pair_with_host, confirm_pairing, host_list_snapshot_projects, host_volume_summary,
  host_disk_inventory, host_append_authorized_pubkey, host_remove_authorized_pubkey, ping,
  get_backup_status, get_activity_series, get_config, get_system_info, resolve_shell_bootstrap,
  get_update_status, get_update_settings, apply_update, auto_update_tick, restore_all_projects,
  start_pairing, stop_pairing, pairing_status, discover_hosts, host_trust_status,
  host_list_authorized_pubkeys, opt_bool, read_save_config, read_confirm_pairing,
  read_test_connection, read_set_update_settings,
}

-- The path that is opened, if any, leads below these directories.
pub OpensBelow : List Text → Result Text ReadPathError → Type 0
OpensBelow dirs (ok full) = (more : List Text) × (resolve full ≡ more ++ dirs)
OpensBelow dirs (err _) = Unit

opens-below :
    (root p s path : Text)
    → validate_remote_component p ≡ ok tt
    → validate_remote_component s ≡ ok tt
    → OpensBelow (s ∷ p ∷ resolve root) (read_file_path root p s path)
unfolding OpensBelow
opens-below root p s path hp hs = elim (Result-cases (read_file_path root p s path)) [
  | inl (full, opened) ↦ rw (opened) (resolve-read_file_path root p s path full hp hs opened)
  | inr (e, refused) ↦ rw (refused) tt
]

module _ {C D : Type 0} where
  -- Whatever backup root is configured, the request's paths lead below its project or snapshot.
  pub Contained : Request C D → Type 0
  Contained (backup (some p)) =
      (root : Text) → resolve (remote_project_dir root p) ≡ p ∷ resolve root
  Contained (snapshots_of p) =
      (root : Text) → resolve (remote_project_dir root p) ≡ p ∷ resolve root
  Contained (restore_all p) = (root : Text) → resolve (remote_project_dir root p) ≡ p ∷ resolve root
  Contained (restore p s) =
      (root : Text) → resolve (absolute_remote_snapshot_path root p s) ≡ s ∷ p ∷ resolve root
  Contained (files_of p s path) =
      (root : Text)
      → (more : List Text) × (resolve (scan_base root p s path) ≡ more ++ s ∷ p ∷ resolve root)
  Contained (file_of p s path) =
      (root : Text) → OpensBelow (s ∷ p ∷ resolve root) (read_file_path root p s path)
  Contained _ = Unit

ok_injective : {A E : Type 0} {a b : A} → ◌≡◌ {A = Result A E} (ok a) (ok b) → a ≡ b
ok_injective e = cc

checked_ok : (r : Result (Unit {0}) String) (u : Unit {0}) → checked r ≡ ok u → r ≡ ok tt
checked_ok (ok tt) u h = refl
checked_ok (err e) u h = cc

-- The snapshot itself is the place of an empty path, as it is of ".".
listed-here :
    (root p s : Text)
    → validate_remote_component p ≡ ok tt
    → validate_remote_component s ≡ ok tt
    → (more : List Text) × (resolve (scan_base root p s []) ≡ more ++ s ∷ p ∷ resolve root)
unfolding scan_base
listed-here root p s hp hs = (
  [],
  resolve-snapshot_root root p s ((validate_remote_component_iff p).0 hp)
      ((validate_remote_component_iff s).0 hs),
)

listed-below :
    (p s : Text) (given : Option Text) (path : Text)
    → listed_path given ≡ ok path
    → validate_remote_component p ≡ ok tt
    → validate_remote_component s ≡ ok tt
    → (root : Text)
    → (more : List Text) × (resolve (scan_base root p s path) ≡ more ++ s ∷ p ∷ resolve root)
unfolding listed_path
listed-below p s none path h hp hs root =
    subst
      (λ t. (more : List Text) × (resolve (scan_base root p s t) ≡ more ++ s ∷ p ∷ resolve root))
      (ok_injective h) (listed-here root p s hp hs)
listed-below p s (some given) path h hp hs root = elim (Bool-cases (is_here given)) [
  | inl here ↦
      let q = rw (listed_path, here) at h in
      subst
        (λ t. (more : List Text) × (resolve (scan_base root p s t) ≡ more ++ s ∷ p ∷ resolve root))
        (ok_injective q) (listed-here root p s hp hs)
  | inr deeper ↦
      let q = rw (listed_path, deeper) at h in
      let (u, below, h₁) = >>=-eq-ok (checked (validate_relative_path (normalized given))) _ q in
      subst
        (λ t. (more : List Text) × (resolve (scan_base root p s t) ≡ more ++ s ∷ p ∷ resolve root))
        (ok_injective h₁)
        (resolve-scan_base root p s (normalized given) hp hs (checked_ok _ u below))
]

module _ {C D : Type 0} where
  read_project-Contained :
      (params : Value) (make : Text → Request C D) (r : Request C D)
      → ((p : Text) → validate_remote_component p ≡ ok tt → Contained (make p))
      → read_project make params ≡ ok r
      → Contained r
  unfolding read_project
  read_project-Contained params make r keeps h =
      let (p, named, h₁) = >>=-eq-ok (str_param params (codes "project")) _ h in
      let (u, safe, h₂) = >>=-eq-ok (checked_component p) _ h₁ in
      subst (λ x. Contained x) (ok_injective h₂) (keeps p (checked_ok _ u safe))

  read_run_backup-Contained :
      (params : Value) (r : Request C D) → read_run_backup params ≡ ok r → Contained r
  unfolding read_run_backup Contained
  read_run_backup-Contained params r h = elim (Option-cases (opt_str params (codes "project"))) [
    | inl all ↦
        let q = rw (read_run_backup, all) at h in subst (λ x. Contained x) (ok_injective q) tt
    | inr (p, named) ↦
        let q = rw (read_run_backup, named) at h in
        let (u, safe, h₁) = >>=-eq-ok (checked_component p) _ q in
        subst (λ x. Contained x) (ok_injective h₁)
          (λ root. resolve-remote_project_dir root p (checked_ok _ u safe))
  ]

  read_restore_snapshot-Contained :
      (params : Value) (r : Request C D) → read_restore_snapshot params ≡ ok r → Contained r
  unfolding read_restore_snapshot Contained
  read_restore_snapshot-Contained params r h =
      let (p, named, h₁) = >>=-eq-ok (str_param params (codes "project")) _ h in
      let (s, of, h₂) = >>=-eq-ok (str_param params (codes "snapshot")) _ h₁ in
      let (u, safe, h₃) = >>=-eq-ok (checked_component p) _ h₂ in
      let (v, sound, h₄) = >>=-eq-ok (checked_component s) _ h₃ in
      subst (λ x. Contained x) (ok_injective h₄)
        (λ root.
          resolve-absolute_remote_snapshot_path root p s (checked_ok _ u safe)
            (checked_ok _ v sound))

  read_list_files-Contained :
      (params : Value) (r : Request C D) → read_list_files params ≡ ok r → Contained r
  unfolding read_list_files Contained
  read_list_files-Contained params r h =
      let (p, named, h₁) = >>=-eq-ok (str_param params (codes "project")) _ h in
      let (s, of, h₂) = >>=-eq-ok (str_param params (codes "snapshot")) _ h₁ in
      let (u, safe, h₃) = >>=-eq-ok (checked_component p) _ h₂ in
      let (v, sound, h₄) = >>=-eq-ok (checked_component s) _ h₃ in
      let (path, below, h₅) = >>=-eq-ok (listed_path (opt_str params (codes "path"))) _ h₄ in
      subst (λ x. Contained x) (ok_injective h₅)
        (listed-below p s (opt_str params (codes "path")) path below (checked_ok _ u safe)
          (checked_ok _ v sound))

  read_read_snapshot_file-Contained :
      (re : RegexClasses) (params : Value) (r : Request C D)
      → read_read_snapshot_file re params ≡ ok r
      → Contained r
  unfolding read_read_snapshot_file Contained
  read_read_snapshot_file-Contained re params r h =
      let (p, named, h₁) = >>=-eq-ok (str_param params (codes "project")) _ h in
      let (s, of, h₂) = >>=-eq-ok (str_param params (codes "snapshot")) _ h₁ in
      let (path, at_, h₃) = >>=-eq-ok (str_param params (codes "relative_path")) _ h₂ in
      let (u, safe, h₄) = >>=-eq-ok (checked_component p) _ h₃ in
      let (v, sound, h₅) = >>=-eq-ok (checked_component s) _ h₄ in
      let (_, valid, h₆) = >>=-eq-ok (if is_valid_snapshot_name re s then ok tt else _) _ h₅ in
      let (_, below, h₇) = >>=-eq-ok (checked (validate_relative_path (normalized path))) _ h₆ in
      subst (λ x. Contained x) (ok_injective h₇)
        (λ root.
          opens-below root p s (normalized path) (checked_ok _ u safe) (checked_ok _ v sound))

module _ {C D : Type 0} (re : RegexClasses) (serde : Serde C D) where
  read_params-Contained :
      (m : Method) (params : Value) (r : Request C D)
      → read_params re serde m params ≡ ok r
      → Contained r
  unfolding read_params Contained read_save_config read_confirm_pairing read_test_connection
      read_set_update_settings
  read_params-Contained run_backup params r h = read_run_backup-Contained params r h
  read_params-Contained list_snapshots params r h =
      read_project-Contained params snapshots_of r
        (λ p safe root. resolve-remote_project_dir root p safe) h
  read_params-Contained restore_all_snapshots params r h =
      read_project-Contained params restore_all r
        (λ p safe root. resolve-remote_project_dir root p safe) h
  read_params-Contained list_files params r h = read_list_files-Contained params r h
  read_params-Contained read_snapshot_file params r h =
      read_read_snapshot_file-Contained re params r h
  read_params-Contained restore_snapshot params r h = read_restore_snapshot-Contained params r h
  read_params-Contained save_config params r h =
      let (a1, _, h1) = >>=-eq-ok (ok_or (get (codes "config") params) _) _ h in
      let (a2, _, h2) = >>=-eq-ok (map_err _ (serde.config_from_value a1)) _ h1 in
      subst (λ x. Contained x) (ok_injective h2) tt
  read_params-Contained confirm_pairing params r h =
      let (a1, _, h1) = >>=-eq-ok (ok_or (get (codes "draft") params) _) _ h in
      let (a2, _, h2) = >>=-eq-ok (map_err _ (serde.draft_from_value a1)) _ h1 in
      subst (λ x. Contained x) (ok_injective h2) tt
  read_params-Contained pair_with_host params r h =
      let (a1, _, h1) = >>=-eq-ok (str_param params (codes "address")) _ h in
      let (a2, _, h2) = >>=-eq-ok (str_param params (codes "code")) _ h1 in
      subst (λ x. Contained x) (ok_injective h2) tt
  read_params-Contained test_connection params r h =
      let (a1, _, h1) = >>=-eq-ok (str_param params (codes "host")) _ h in
      let (a2, _, h2) = >>=-eq-ok (str_param params (codes "user")) _ h1 in
      let (a3, _, h3) = >>=-eq-ok (str_param params (codes "key_path")) _ h2 in
      subst (λ x. Contained x) (ok_injective h3) tt
  read_params-Contained host_list_snapshot_projects params r h =
      let (a1, _, h1) = >>=-eq-ok (str_param params (codes "backup_root")) _ h in
      subst (λ x. Contained x) (ok_injective h1) tt
  read_params-Contained host_volume_summary params r h =
      let (a1, _, h1) = >>=-eq-ok (str_param params (codes "backup_root")) _ h in
      subst (λ x. Contained x) (ok_injective h1) tt
  read_params-Contained host_disk_inventory params r h =
      let (a1, _, h1) = >>=-eq-ok (str_param params (codes "backup_root")) _ h in
      subst (λ x. Contained x) (ok_injective h1) tt
  read_params-Contained host_append_authorized_pubkey params r h =
      let (a1, _, h1) = >>=-eq-ok (str_param params (codes "pubkey_line")) _ h in
      subst (λ x. Contained x) (ok_injective h1) tt
  read_params-Contained host_remove_authorized_pubkey params r h =
      let (a1, _, h1) = >>=-eq-ok (str_param params (codes "raw_line")) _ h in
      subst (λ x. Contained x) (ok_injective h1) tt
  read_params-Contained set_update_settings params r h =
      elim (Option-cases (opt_bool params (codes "auto_update"))) [
        | inl lacks ↦ let q = rw (read_set_update_settings, lacks) at h in cc
        | inr (b, has) ↦
            let q = rw (read_set_update_settings, has) at h in
            subst (λ x. Contained x) (ok_injective q) tt
      ]
  read_params-Contained list_projects params r h = subst (λ x. Contained x) (ok_injective h) tt
  read_params-Contained ping params r h = subst (λ x. Contained x) (ok_injective h) tt
  read_params-Contained get_backup_status params r h = subst (λ x. Contained x) (ok_injective h) tt
  read_params-Contained get_activity_series params r h =
      subst (λ x. Contained x) (ok_injective h) tt
  read_params-Contained get_config params r h = subst (λ x. Contained x) (ok_injective h) tt
  read_params-Contained get_system_info params r h = subst (λ x. Contained x) (ok_injective h) tt
  read_params-Contained resolve_shell_bootstrap params r h =
      subst (λ x. Contained x) (ok_injective h) tt
  read_params-Contained get_update_status params r h = subst (λ x. Contained x) (ok_injective h) tt
  read_params-Contained get_update_settings params r h =
      subst (λ x. Contained x) (ok_injective h) tt
  read_params-Contained apply_update params r h = subst (λ x. Contained x) (ok_injective h) tt
  read_params-Contained auto_update_tick params r h = subst (λ x. Contained x) (ok_injective h) tt
  read_params-Contained restore_all_projects params r h =
      subst (λ x. Contained x) (ok_injective h) tt
  read_params-Contained start_pairing params r h = subst (λ x. Contained x) (ok_injective h) tt
  read_params-Contained stop_pairing params r h = subst (λ x. Contained x) (ok_injective h) tt
  read_params-Contained pairing_status params r h = subst (λ x. Contained x) (ok_injective h) tt
  read_params-Contained discover_hosts params r h = subst (λ x. Contained x) (ok_injective h) tt
  read_params-Contained host_trust_status params r h = subst (λ x. Contained x) (ok_injective h) tt
  read_params-Contained host_list_authorized_pubkeys params r h =
      subst (λ x. Contained x) (ok_injective h) tt

  -- A request that the daemon accepts, whatever it carries, leads below the directory of its project,
  -- or of its snapshot, under every backup root.
  pub dispatch-Contained :
      (method : Text) (params : Value) (r : Request C D)
      → dispatch re serde method params ≡ ok r
      → Contained r
  unfolding dispatch
  dispatch-Contained method params r h = elim (Option-cases (method_of method)) [
    | inl unknown ↦ let q = rw (dispatch, unknown) at h in cc
    | inr (m, known) ↦ read_params-Contained m params r (let q = rw (dispatch, known) at h in q)
  ]
