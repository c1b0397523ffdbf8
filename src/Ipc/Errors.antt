-- ===== src/Ipc/Errors.antt =====
-- What is left of an error of the daemon when the desktop application reads it.
use backr.Base.{
  eq_text, eq_text→≡, ne_of_eq_text, Text, codes, Bool-cases, Result, ok, err, map_err, ◌≢◌, ◌⊎◌,
  inl, inr, false, ◌≡◌, refl, ap,
}
use backr.Ipc.{
  IpcError, ErrorKind, not_configured, ssh_failed, rsync_failed, io, backup_in_progress,
  invalid_input, config, pairing, task_failed, BackrCommandError, command_error, debug_kind,
  cmd_err, kind_of, map_daemon_error,
}

kind_of-debug_kind : (k : ErrorKind) → kind_of (debug_kind k) ≡ k
unfolding kind_of debug_kind eq_text
kind_of-debug_kind not_configured = refl
kind_of-debug_kind ssh_failed = refl
kind_of-debug_kind rsync_failed = refl
kind_of-debug_kind io = refl
kind_of-debug_kind backup_in_progress = refl
kind_of-debug_kind invalid_input = refl
kind_of-debug_kind config = refl
kind_of-debug_kind pairing = refl
kind_of-debug_kind task_failed = refl

-- An error of a command has the same kind and message after the daemon sent it and the desktop
-- application mapped it back.
pub map_daemon_error-cmd_err : (e : BackrCommandError) → map_daemon_error (cmd_err e) ≡ e
unfolding map_daemon_error cmd_err
map_daemon_error-cmd_err e = ap (λ k. command_error k e.message) (kind_of-debug_kind e.kind)

-- What the desktop application makes of an error: the daemon's message, with the kind that the text of the
-- kind names, or as invalid input where it names none.
pub Received : {V : Type 0} → Result V IpcError → Result V BackrCommandError → Type 0
Received (ok v) o = o ≡ ok v
Received (err e) o =
    ((k : ErrorKind) × (e.kind ≡ debug_kind k) × (o ≡ err (command_error k e.message)))
    ⊎ ((k : ErrorKind) → e.kind ≢ debug_kind k) × (o ≡ err (command_error invalid_input e.message))

apart_all :
    (s : Text)
    → eq_text s (codes "NotConfigured") ≡ false
    → eq_text s (codes "SshFailed") ≡ false
    → eq_text s (codes "RsyncFailed") ≡ false
    → eq_text s (codes "Io") ≡ false
    → eq_text s (codes "BackupInProgress") ≡ false
    → eq_text s (codes "InvalidInput") ≡ false
    → eq_text s (codes "Config") ≡ false
    → eq_text s (codes "Pairing") ≡ false
    → eq_text s (codes "TaskFailed") ≡ false
    → (k : ErrorKind) → s ≢ debug_kind k
unfolding debug_kind
apart_all s n0 n1 n2 n3 n4 n5 n6 n7 n8 not_configured = ne_of_eq_text s _ n0
apart_all s n0 n1 n2 n3 n4 n5 n6 n7 n8 ssh_failed = ne_of_eq_text s _ n1
apart_all s n0 n1 n2 n3 n4 n5 n6 n7 n8 rsync_failed = ne_of_eq_text s _ n2
apart_all s n0 n1 n2 n3 n4 n5 n6 n7 n8 io = ne_of_eq_text s _ n3
apart_all s n0 n1 n2 n3 n4 n5 n6 n7 n8 backup_in_progress = ne_of_eq_text s _ n4
apart_all s n0 n1 n2 n3 n4 n5 n6 n7 n8 invalid_input = ne_of_eq_text s _ n5
apart_all s n0 n1 n2 n3 n4 n5 n6 n7 n8 config = ne_of_eq_text s _ n6
apart_all s n0 n1 n2 n3 n4 n5 n6 n7 n8 pairing = ne_of_eq_text s _ n7
apart_all s n0 n1 n2 n3 n4 n5 n6 n7 n8 task_failed = ne_of_eq_text s _ n8

kind_of-cases :
    (s : Text)
    → ((k : ErrorKind) × (s ≡ debug_kind k) × (kind_of s ≡ k))
      ⊎ ((k : ErrorKind) → s ≢ debug_kind k) × (kind_of s ≡ invalid_input)
unfolding kind_of debug_kind
kind_of-cases s = elim (Bool-cases (eq_text s (codes "NotConfigured"))) [
  | inl y ↦ inl (not_configured, eq_text→≡ s _ y, rw (kind_of, y) refl)
  | inr n0 ↦ elim (Bool-cases (eq_text s (codes "SshFailed"))) [
    | inl y ↦ inl (ssh_failed, eq_text→≡ s _ y, rw (kind_of, n0, y) refl)
    | inr n1 ↦ elim (Bool-cases (eq_text s (codes "RsyncFailed"))) [
      | inl y ↦ inl (rsync_failed, eq_text→≡ s _ y, rw (kind_of, n0, n1, y) refl)
      | inr n2 ↦ elim (Bool-cases (eq_text s (codes "Io"))) [
        | inl y ↦ inl (io, eq_text→≡ s _ y, rw (kind_of, n0, n1, n2, y) refl)
        | inr n3 ↦ elim (Bool-cases (eq_text s (codes "BackupInProgress"))) [
          | inl y ↦ inl (backup_in_progress, eq_text→≡ s _ y, rw (kind_of, n0, n1, n2, n3, y) refl)
          | inr n4 ↦ elim (Bool-cases (eq_text s (codes "InvalidInput"))) [
            | inl y ↦ inl (invalid_input, eq_text→≡ s _ y, rw (kind_of, n0, n1, n2, n3, n4, y) refl)
            | inr n5 ↦ elim (Bool-cases (eq_text s (codes "Config"))) [
              | inl y ↦ inl (config, eq_text→≡ s _ y, rw (kind_of, n0, n1, n2, n3, n4, n5, y) refl)
              | inr n6 ↦ elim (Bool-cases (eq_text s (codes "Pairing"))) [
                | inl y ↦
                    inl (pairing, eq_text→≡ s _ y, rw (kind_of, n0, n1, n2, n3, n4, n5, n6, y) refl)
                | inr n7 ↦ elim (Bool-cases (eq_text s (codes "TaskFailed"))) [
                  | inl y ↦ inl (
                    task_failed,
                    eq_text→≡ s _ y,
                    rw (kind_of, n0, n1, n2, n3, n4, n5, n6, n7, y) refl,
                  )
                  | inr n8 ↦ inr (
                    apart_all s n0 n1 n2 n3 n4 n5 n6 n7 n8,
                    rw (kind_of, n0, n1, n2, n3, n4, n5, n6, n7, n8) refl,
                  )
                ]
              ]
            ]
          ]
        ]
      ]
    ]
  ]
]

pub map_err-Received :
    {V : Type 0} (r : Result V IpcError) → Received r (map_err map_daemon_error r)
unfolding Received map_daemon_error
map_err-Received (ok v) = refl
map_err-Received (err e) = elim (kind_of-cases e.kind) [
  | inl (k, named, same) ↦ inl (k, named, ap (λ x. err (command_error x e.message)) same)
  | inr (unnamed, same) ↦ inr (unnamed, ap (λ x. err (command_error x e.message)) same)
]
