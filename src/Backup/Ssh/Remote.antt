-- ===== src/Backup/Ssh/Remote.antt =====
-- ssh.rs: what the remote host is asked to run.
use backr.Base.{
  Result-cases, if◌then◌else◌, Bool-cases, Text, codes, trim, join, Result, ok, err, ℕ, ◌≡◌, refl,
  sym, ap, ◌∙◌, ◌⊎◌, inl, inr, Bool, true, Option, none, some, List, [], ◌∷◌, ◌++◌, append-nil,
}
use backr.Backup.Validate.{validate_remote_component}
use backr.Backup.Paths.{read_file_path, ReadPathError}
use backr.Backup.Paths.Containment.{resolve}
use backr.Backup.Paths.Reads.{resolve-read_file_path}
use backr.Backup.Ssh.{
  Output, SshError, io, remote, not_utf8, bad_path, SshWorld, Target, ssh_base_command_for_host,
  error_detail, command_output, run_and_capture, run_and_capture_stdout_exact, join_remote_command,
}
use backr.Backup.Ssh.Operations.{destination, ssh_exec_trimmed, remote_read_file_bytes}
use backr.Backup.Ssh.Shell.{gap, words_from, push, shell_words, Escapes, words_from-blank}

module _ {E : Type 0} (w : SshWorld E) (escapes : Escapes w.escape) where
  -- The shell takes the joined command apart again.
  pub shell_words-join_remote_command :
      (argv : List Text) → shell_words (join_remote_command w argv) ≡ some argv
  unfolding join_remote_command join words_from
  shell_words-join_remote_command [] = refl
  shell_words-join_remote_command (a ∷ []) =
      ap (words_from gap) (sym (append-nil (w.escape a))) ∙ escapes.opens a []
  shell_words-join_remote_command (a ∷ (b ∷ argv)) =
      escapes.opens a (32 ∷ join_remote_command w (b ∷ argv))
      ∙ (words_from-blank a (join_remote_command w (b ∷ argv))
          ∙ ap (push a) (shell_words-join_remote_command (b ∷ argv)))

  -- what a call gives for an answer of the remote host, with the output as bytes or trimmed
  unfoldable pub exact_reply : Result Output E → Result (List ℕ) (SshError E)
  exact_reply (err e) = err (io e)
  exact_reply (ok out) =
      if out.success then ok out.stdout else err (remote (error_detail w out.stderr))

  unfoldable pub trimmed_reply : Result Output E → Result Text (SshError E)
  trimmed_reply r = elim (exact_reply r) [
    | err e ↦ err e
    | ok stdout ↦ elim (w.from_utf8 stdout) [ none ↦ err not_utf8 | some text ↦ ok (trim text) ]
  ]

  command_output-exact_reply :
      (args : List Text) → run_and_capture_stdout_exact w args ≡ exact_reply (w.output args)
  unfolding run_and_capture_stdout_exact command_output exact_reply
  command_output-exact_reply args = elim (Result-cases (w.output args)) [
    | inr (e, broken) ↦ rw (run_and_capture_stdout_exact, command_output, broken) refl
    | inl (out, done) ↦ elim (Bool-cases out.success) [
      | inl good ↦ rw (run_and_capture_stdout_exact, command_output, done, good) refl
      | inr bad ↦ rw (run_and_capture_stdout_exact, command_output, done, bad) refl
    ]
  ]

  run_and_capture-trimmed_reply :
      (args : List Text) → run_and_capture w args ≡ trimmed_reply (w.output args)
  unfolding run_and_capture command_output exact_reply trimmed_reply
  run_and_capture-trimmed_reply args = elim (Result-cases (w.output args)) [
    | inr (e, broken) ↦ rw (run_and_capture, command_output, broken) refl
    | inl (out, done) ↦ elim (Bool-cases out.success) [
      | inl good ↦ rw (run_and_capture, command_output, done, good) refl
      | inr bad ↦ rw (run_and_capture, command_output, done, bad) refl
    ]
  ]

  -- OpenSSH hands the one argument behind the destination to the shell of the remote host, and `answers` is
  -- what that host says to words.
  module _ (answers : Target → Bool → Option (List Text) → Result Output E)
      (hands : (t : Target) (accept_new : Bool) (args : List Text) (line : Text)
        → ssh_base_command_for_host w t accept_new ≡ some args
        → w.output (args ++ destination w t ∷ line ∷ [])
          ≡ answers t accept_new (shell_words line)) where
    -- Whatever characters the arguments hold, the remote host runs the command with these arguments, and
    -- its answer comes back; a file is read from the checked path. OpenSSH hands the command to a shell,
    -- and the escaping is one that the shell reads back.
    pub ssh_exec_trimmed-answers :
        (t : Target) (accept_new : Bool) (args argv : List Text)
        → ssh_base_command_for_host w t accept_new ≡ some args
        → ssh_exec_trimmed w t accept_new argv
          ≡ some (trimmed_reply (answers t accept_new (some argv)))
    unfolding ssh_exec_trimmed
    ssh_exec_trimmed-answers t accept_new args argv h =
        rw (ssh_exec_trimmed, h)
          (ap some (
            run_and_capture-trimmed_reply
              (args ++ destination w t ∷ join_remote_command w argv ∷ [])
            ∙ ap trimmed_reply (
                hands t accept_new args (join_remote_command w argv) h
                ∙ ap (answers t accept_new) (shell_words-join_remote_command argv))))

    -- A file that a caller asks for is refused before ssh runs, or the remote host is asked for the first
    -- bytes of a file below the snapshot and its answer comes back as it is, where the names of the project
    -- and the snapshot are valid. OpenSSH hands the command to a shell, and the escaping is one that the
    -- shell reads back.
    pub remote_read_file_bytes-answers :
        (t : Target) (args : List Text) (backup_root project snapshot path max_bytes : Text)
        → ssh_base_command_for_host w t true ≡ some args
        → validate_remote_component project ≡ ok tt
        → validate_remote_component snapshot ≡ ok tt
        → ((e : ReadPathError) × (remote_read_file_bytes w t backup_root project snapshot path
                max_bytes
              ≡ some (err (bad_path e))))
          ⊎ ((abs : Text) × (remote_read_file_bytes w t backup_root project snapshot path max_bytes
                ≡ some (
                    exact_reply
                      (answers t true (some (codes "head" ∷ codes "-c" ∷ max_bytes ∷ abs ∷ [])))))
              × ((more : List Text) × (resolve abs
                    ≡ more ++ snapshot ∷ project ∷ resolve backup_root)))
    unfolding remote_read_file_bytes
    remote_read_file_bytes-answers t args root project snapshot path n h hp hs =
        elim (Result-cases (read_file_path root project snapshot path)) [
          | inr (e, refused) ↦ inl (e, rw (remote_read_file_bytes, refused) refl)
          | inl (abs, good) ↦
              let argv = codes "head" ∷ codes "-c" ∷ n ∷ abs ∷ [] in
              inr (
                abs,
                rw (remote_read_file_bytes, good, h)
                    (ap some (
                      command_output-exact_reply
                        (args ++ destination w t ∷ join_remote_command w argv ∷ [])
                      ∙ ap exact_reply (
                          hands t true args (join_remote_command w argv) h
                          ∙ ap (answers t true) (shell_words-join_remote_command argv)))),
                resolve-read_file_path root project snapshot path abs hp hs good,
              )
        ]
