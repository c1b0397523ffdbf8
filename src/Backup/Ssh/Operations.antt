-- ===== src/Backup/Ssh/Operations.antt =====
-- ssh.rs: the calls that others make, each one command over ssh.
use backr.Base.{
  if◌then◌else◌, Text, codes, eq_text, trim, Result, ok, err, map_err, ℕ, Bool, true, Option, some,
  List, [], ◌∷◌, ◌++◌,
}
use backr.Base.Maybe.{◌>>=◌}
use backr.Trust.Keys.{RegexClasses}
use backr.Backup.Paths.{remote_project_dir, scan_base, read_file_path}
use backr.Backup.Snapshots.{parse_snapshot_names, RemoteFindEntry, parse_children}
use backr.Backup.Ssh.{
  SshError, handshake_failed, bad_path, bad_row, SshWorld, Target, ssh_base_command_for_host,
  join_remote_command, run_and_capture, run_and_capture_stdout_exact,
}

module _ {E : Type 0} (w : SshWorld E) where
  abbrev pub destination : Target → Text
  destination t = t.user ++ (b'@' ∷ t.host)

  -- Each call gives `none` where the slice of the host panics.
  unfoldable pub ssh_exec_trimmed : Target → Bool → List Text → Option (Result Text (SshError E))
  ssh_exec_trimmed t accept_new remote_argv = ssh_base_command_for_host w t accept_new >>= λ args.
      some (run_and_capture w (args ++ destination t ∷ join_remote_command w remote_argv ∷ []))

  unfoldable pub ensure_remote_dir_exists : Target → Text → Option (Result Unit (SshError E))
  ensure_remote_dir_exists t dir =
      ssh_exec_trimmed t true (codes "mkdir" ∷ codes "-p" ∷ dir ∷ []) >>= λ r.
      some (elim r [ err e ↦ err e | ok _ ↦ ok tt ])

  unfoldable pub test_connection : Target → Option (Result Unit (SshError E))
  test_connection t = ssh_base_command_for_host w t true >>= λ args.
      some
        (elim (run_and_capture w (args ++ destination t ∷ codes "echo" ∷ codes "backr_ok" ∷ [])) [
          | err e ↦ err e
          | ok out ↦ if eq_text (trim out) (codes "backr_ok") then ok tt else err handshake_failed
        ])

  -- `max_bytes` as it is printed is an argument
  unfoldable pub remote_read_file_bytes :
      Target → Text → Text → Text → Text → Text → Option (Result (List ℕ) (SshError E))
  remote_read_file_bytes t backup_root project snapshot relative_file_path max_bytes =
      elim (read_file_path backup_root project snapshot relative_file_path) [
        | err e ↦ some (err (bad_path e))
        | ok abs ↦ ssh_base_command_for_host w t true >>= λ args. some (
            run_and_capture_stdout_exact w (
              args
              ++ destination t
                ∷ join_remote_command w (codes "head" ∷ codes "-c" ∷ max_bytes ∷ abs ∷ [])
                ∷ []))
      ]

  abbrev pub find_snapshots : Text → Text → List Text
  find_snapshots backup_root project =
      codes "find"
      ∷ remote_project_dir backup_root project
      ∷ codes "-mindepth"
      ∷ codes "1"
      ∷ codes "-maxdepth"
      ∷ codes "1"
      ∷ codes "-type"
      ∷ codes "d"
      ∷ codes "-printf"
      ∷ (codes "%f" ++ 0x1e ∷ [])
      ∷ []

  abbrev pub find_children : Text → Text → Text → Text → List Text
  find_children backup_root project snapshot remote_subpath =
      codes "find"
      ∷ scan_base backup_root project snapshot remote_subpath
      ∷ codes "-mindepth"
      ∷ codes "1"
      ∷ codes "-maxdepth"
      ∷ codes "1"
      ∷ codes "-printf"
      ∷ (codes "%y"
          ++ (0x1f ∷ codes "%s" ++ (0x1f ∷ codes "%T@" ++ (0x1f ∷ codes "%f" ++ 0x1e ∷ []))))
      ∷ []

  unfoldable pub remote_list_snapshot_names :
      RegexClasses → Target → Text → Text → Option (Result (List Text) (SshError E))
  remote_list_snapshot_names re t backup_root project =
      ssh_exec_trimmed t true (find_snapshots backup_root project) >>= λ r.
      some (elim r [ err e ↦ err e | ok raw ↦ ok (parse_snapshot_names re raw) ])

  unfoldable pub remote_list_children :
      {F : Type 0}
      → (Text → Option F)
      → Target
      → Text
      → Text
      → Text
      → Text
      → Option (Result (List (RemoteFindEntry F)) (SshError E))
  remote_list_children parse_f64 t backup_root project snapshot remote_subpath =
      ssh_exec_trimmed t true (find_children backup_root project snapshot remote_subpath) >>= λ r.
      some (elim r [ err e ↦ err e | ok raw ↦ map_err bad_row (parse_children parse_f64 raw) ])
