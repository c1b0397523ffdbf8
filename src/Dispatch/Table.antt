-- ===== src/Dispatch/Table.antt =====
-- The names of the table.
use backr.Base.{
  Bool-cases, All, Text, codes, eq_text, eq_text→≡, ◌≡◌, refl, ap, ◌∙◌, ◌↔◌, inl, inr, some, List,
  [], ◌∷◌,
}
use backr.Dispatch.{
  Method, ping, run_backup, get_backup_status, get_activity_series, get_config, save_config,
  test_connection, get_system_info, resolve_shell_bootstrap, get_update_status, get_update_settings,
  set_update_settings, apply_update, auto_update_tick, list_projects, list_snapshots, list_files,
  read_snapshot_file, restore_snapshot, restore_all_snapshots, restore_all_projects, start_pairing,
  stop_pairing, pairing_status, discover_hosts, pair_with_host, confirm_pairing,
  host_list_snapshot_projects, host_volume_summary, host_disk_inventory, host_trust_status,
  host_append_authorized_pubkey, host_list_authorized_pubkeys, host_remove_authorized_pubkey, arms,
  find_arm, method_of,
}

-- the name of a handler's method
pub name_of : Method → Text
name_of ping = codes "ping"
name_of run_backup = codes "run_backup"
name_of get_backup_status = codes "get_backup_status"
name_of get_activity_series = codes "get_activity_series"
name_of get_config = codes "get_config"
name_of save_config = codes "save_config"
name_of test_connection = codes "test_connection"
name_of get_system_info = codes "get_system_info"
name_of resolve_shell_bootstrap = codes "resolve_shell_bootstrap"
name_of get_update_status = codes "get_update_status"
name_of get_update_settings = codes "get_update_settings"
name_of set_update_settings = codes "set_update_settings"
name_of apply_update = codes "apply_update"
name_of auto_update_tick = codes "auto_update_tick"
name_of list_projects = codes "list_projects"
name_of list_snapshots = codes "list_snapshots"
name_of list_files = codes "list_files"
name_of read_snapshot_file = codes "read_snapshot_file"
name_of restore_snapshot = codes "restore_snapshot"
name_of restore_all_snapshots = codes "restore_all_snapshots"
name_of restore_all_projects = codes "restore_all_projects"
name_of start_pairing = codes "start_pairing"
name_of stop_pairing = codes "stop_pairing"
name_of pairing_status = codes "pairing_status"
name_of discover_hosts = codes "discover_hosts"
name_of pair_with_host = codes "pair_with_host"
name_of confirm_pairing = codes "confirm_pairing"
name_of host_list_snapshot_projects = codes "host_list_snapshot_projects"
name_of host_volume_summary = codes "host_volume_summary"
name_of host_disk_inventory = codes "host_disk_inventory"
name_of host_trust_status = codes "host_trust_status"
name_of host_append_authorized_pubkey = codes "host_append_authorized_pubkey"
name_of host_list_authorized_pubkeys = codes "host_list_authorized_pubkeys"
name_of host_remove_authorized_pubkey = codes "host_remove_authorized_pubkey"

pub method_of-name_of : (m : Method) → method_of (name_of m) ≡ some m
unfolding name_of find_arm eq_text
method_of-name_of ping = refl
method_of-name_of run_backup = refl
method_of-name_of get_backup_status = refl
method_of-name_of get_activity_series = refl
method_of-name_of get_config = refl
method_of-name_of save_config = refl
method_of-name_of test_connection = refl
method_of-name_of get_system_info = refl
method_of-name_of resolve_shell_bootstrap = refl
method_of-name_of get_update_status = refl
method_of-name_of get_update_settings = refl
method_of-name_of set_update_settings = refl
method_of-name_of apply_update = refl
method_of-name_of auto_update_tick = refl
method_of-name_of list_projects = refl
method_of-name_of list_snapshots = refl
method_of-name_of list_files = refl
method_of-name_of read_snapshot_file = refl
method_of-name_of restore_snapshot = refl
method_of-name_of restore_all_snapshots = refl
method_of-name_of restore_all_projects = refl
method_of-name_of start_pairing = refl
method_of-name_of stop_pairing = refl
method_of-name_of pairing_status = refl
method_of-name_of discover_hosts = refl
method_of-name_of pair_with_host = refl
method_of-name_of confirm_pairing = refl
method_of-name_of host_list_snapshot_projects = refl
method_of-name_of host_volume_summary = refl
method_of-name_of host_disk_inventory = refl
method_of-name_of host_trust_status = refl
method_of-name_of host_append_authorized_pubkey = refl
method_of-name_of host_list_authorized_pubkeys = refl
method_of-name_of host_remove_authorized_pubkey = refl

-- Every arm stands under the name of its handler.
abbrev IsNamed : Text × Method → Type 0
IsNamed (name, m) = name ≡ name_of m

find_arm-name :
    (method : Text) (m : Method) (table : List (Text × Method))
    → All IsNamed table
    → find_arm method table ≡ some m
    → method ≡ name_of m
unfolding find_arm
find_arm-name method m [] h e = cc
find_arm-name method m ((name, m') ∷ rest) (h, hs) e = elim (Bool-cases (eq_text method name)) [
  | inl same ↦
      let q = rw (find_arm, same) at e in
      eq_text→≡ method name same ∙ (h ∙ ap name_of (some_injective q))
  | inr other ↦ find_arm-name method m rest hs (let q = rw (find_arm, other) at e in q)
]
  where
    some_injective : {a b : Method} → some a ≡ some b → a ≡ b
    some_injective e = cc

arms-IsNamed : All IsNamed arms
unfolding name_of
arms-IsNamed = (
  refl,
  (
    refl,
    (
      refl,
      (
        refl,
        (
          refl,
          (
            refl,
            (
              refl,
              (
                refl,
                (
                  refl,
                  (
                    refl,
                    (
                      refl,
                      (
                        refl,
                        (
                          refl,
                          (
                            refl,
                            (
                              refl,
                              (
                                refl,
                                (
                                  refl,
                                  (
                                    refl,
                                    (
                                      refl,
                                      (
                                        refl,
                                        (
                                          refl,
                                          (
                                            refl,
                                            (
                                              refl,
                                              (
                                                refl,
                                                (
                                                  refl,
                                                  (
                                                    refl,
                                                    (
                                                      refl,
                                                      (
                                                        refl,
                                                        (
                                                          refl,
                                                          (
                                                            refl,
                                                            (refl, (refl, (refl, (refl, tt)))),
                                                          ),
                                                        ),
                                                      ),
                                                    ),
                                                  ),
                                                ),
                                              ),
                                            ),
                                          ),
                                        ),
                                      ),
                                    ),
                                  ),
                                ),
                              ),
                            ),
                          ),
                        ),
                      ),
                    ),
                  ),
                ),
              ),
            ),
          ),
        ),
      ),
    ),
  ),
)

pub method_of_iff :
    (method : Text) (m : Method) → (method_of method ≡ some m) ↔ (method ≡ name_of m)
method_of_iff method m =
    (find_arm-name method m arms arms-IsNamed, λ e. rw (e) (method_of-name_of m))
