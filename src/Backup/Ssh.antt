-- ===== src/Backup/Ssh.antt =====
-- ssh.rs: the commands that are run over ssh, and what comes back. The local ssh, the directory of the
-- control sockets, the crate shell_escape and the tables of Unicode are arguments.
use backr.Base.{
  Bool-eq, Result-cases, All-lines, lines-lack_newline, ap₂, trim_idem, trim-strip_cr,
  strip_cr_of_lacks, All-trim, All-trim_start_by, All-trim_end_by, lines-append, lines_line,
  map-trim-lines-finish, strip_prefix, splitn_from, splitn, ends_with_char, split-nil,
  split-cons_sep, ltb, leb, ◌==◌, if◌then◌else◌, ==_iff, ==_self, Bool-cases, Option-cases, length,
  take, head?, any, filter, length-append, length-filter, filter-append, All, All-append,
  All-append_iff, All-map, All-filter, Text, codes, eq_text, is_empty, contains_char, starts_with,
  contains, is_whitespace, trim_start_by, trim_end_by, trim, split_from, split, join, replace_char,
  strip_cr, lines_from, lines, is_digit, digits_from, parse_uint, eq_text→≡, eq_text_self,
  eq_text_iff, contains_char-eq-false_iff, split_from-append, split-append, split_from_of_lacks,
  trim_end_by_parts, trim_start_by_parts, trim_start_by-cons, trim_end_by-concat, is_empty-concat,
  ne_of_eq_text, eq_text_of_ne, ne_nil_of_is_empty, is_empty_of_ne_nil, Result, ok, err, map_err,
  ok_or, to_option, >>=-eq-ok, ℕ, zero, suc, ◌+◌, ◌-◌, ◌*◌, ◌/◌, ◌%◌, ◌^◌, ◌≤◌, ◌<◌, String, ◌≡◌,
  refl, sym, ap, ◌∙◌, subst, ◌≢◌, ◌↔◌, ◌⊎◌, inl, inr, Bool, true, false, ◌&&◌, ◌||◌, not, Option,
  none, some, List, [], ◌∷◌, ◌++◌, map, reverse, append-nil, append_assoc, map-append,
  reverse-append, arith,
}
use backr.Base.Maybe.{◌>>=◌}
use backr.Pairing.Bits.{utf8_char, as_bytes}
use backr.Backup.Cache.{port_text}
use backr.Backup.Paths.{remote_project_dir, scan_base, read_file_path, ReadPathError}
use backr.Trust.Keys.{RegexClasses}
use backr.Backup.Snapshots.{parse_snapshot_names, RemoteFindEntry, RowError, parse_children}
pub mod Shell
pub mod Operations
pub mod Remote
pub mod Wrapper
pub mod Socket
pub mod Detail

pub record Output : Type 0 where
  pub success : Bool
  pub stdout : List ℕ
  -- decoded by `String::from_utf8_lossy`
  pub stderr : Text

pub data SshError (E : Type 0) : Type 0 where
  io : E → SshError E
  remote : Text → SshError E
  not_utf8 : SshError E
  handshake_failed : SshError E
  bad_path : ReadPathError → SshError E
  bad_row : RowError → SshError E

pub record SshWorld (E : Type 0) : Type 0 where
  -- `cmd.output()` of `ssh` with these arguments
  pub output : List Text → Result Output E
  pub from_utf8 : List ℕ → Option Text
  pub ssh_control_dir : Result Text E
  pub escape : Text → Text
  pub is_alphanumeric : ℕ → Bool

-- where a call goes, and with which keys
pub record Target : Type 0 where
  pub ssh_key : Text
  pub known_hosts : Text
  pub host : Text
  pub user : Text
  pub ssh_port : ℕ

-- `&s[..n]`: `none` where byte `n` is inside a character or behind the end, which panics
unfoldable pub take_bytes : ℕ → Text → Option Text
take_bytes n [] = if n == 0 then some [] else none
take_bytes n (c ∷ s) =
    let size = length (utf8_char c) in
    let rest = take_bytes (n - size) s in
    if n == 0 then some [] else if ltb n size then none else (rest >>= λ t. some (c ∷ t))

-- the length in bytes, `s.len()`
abbrev pub bytes : Text → ℕ
bytes s = length (as_bytes s)

module _ {E : Type 0} (w : SshWorld E) where
  abbrev pub suffix : ℕ → Text
  suffix ssh_port = b'-' ∷ port_text ssh_port ++ codes ".sock"

  abbrev pub max_host_len : ℕ → ℕ
  max_host_len ssh_port = 80 - 6 - bytes (suffix ssh_port)

  abbrev pub safe_host_char : ℕ → ℕ
  safe_host_char c = if w.is_alphanumeric c || (c == b'.' || c == b'-') then c else b'_'

  unfoldable pub truncated_host : Text → ℕ → Option Text
  truncated_host host ssh_port =
      let safe_host = map safe_host_char host in
      if ltb (max_host_len ssh_port) (bytes safe_host)
      then take_bytes (max_host_len ssh_port) safe_host
      else some safe_host

  -- the name of the socket in its directory
  unfoldable pub socket_name : Text → ℕ → Option Text
  socket_name host ssh_port =
      truncated_host host ssh_port >>= λ short. some (codes "backr-" ++ (short ++ suffix ssh_port))

  -- The socket, or the error of its directory; `none` where the slice of the host panics.
  unfoldable pub ssh_control_socket_path : Text → ℕ → Option (Result Text E)
  ssh_control_socket_path host ssh_port = elim w.ssh_control_dir [
    | err e ↦ some (err e)
    | ok dir ↦ (socket_name host ssh_port >>= λ name. some (ok (dir ++ (b'/' ∷ name))))
  ]

  abbrev pub host_check : Bool → Text
  host_check accept_new =
      if accept_new
      then codes "StrictHostKeyChecking=accept-new"
      else codes "StrictHostKeyChecking=yes"

  -- the options that share one connection, where there is a socket
  abbrev pub control_args : Result Text E → List Text
  control_args (err _) = []
  control_args (ok socket_path) =
      codes "-o"
      ∷ codes "ControlMaster=auto"
      ∷ codes "-o"
      ∷ (codes "ControlPath=" ++ socket_path)
      ∷ codes "-o"
      ∷ codes "ControlPersist=60"
      ∷ []

  abbrev pub base_args : Target → Bool → List Text
  base_args t accept_new =
      codes "-p"
      ∷ port_text t.ssh_port
      ∷ codes "-i"
      ∷ t.ssh_key
      ∷ codes "-o"
      ∷ codes "ConnectTimeout=15"
      ∷ codes "-o"
      ∷ codes "BatchMode=yes"
      ∷ codes "-o"
      ∷ codes "IdentitiesOnly=yes"
      ∷ codes "-o"
      ∷ host_check accept_new
      ∷ codes "-o"
      ∷ (codes "UserKnownHostsFile=" ++ t.known_hosts)
      ∷ []

  -- the arguments of `ssh`
  unfoldable pub ssh_base_command_for_host : Target → Bool → Option (List Text)
  ssh_base_command_for_host t accept_new = ssh_control_socket_path t.host t.ssh_port >>= λ control.
      some (base_args t accept_new ++ control_args control)

  abbrev pub control_text : Result Text E → Text
  control_text (err _) = []
  control_text (ok socket_path) =
      codes " -o ControlMaster=auto -o ControlPath="
      ++ (w.escape socket_path ++ codes " -o ControlPersist=60")

  abbrev pub base_text : Target → Bool → Text
  base_text t accept_new =
      codes "ssh -p "
      ++ (port_text t.ssh_port
          ++ (codes " -i "
              ++ (w.escape t.ssh_key
                  ++ (codes " -o "
                      ++ (host_check accept_new
                          ++ (codes " -o BatchMode=yes -o IdentitiesOnly=yes -o UserKnownHostsFile="
                              ++ w.escape t.known_hosts))))))

  unfoldable pub ssh_rsh_string : Target → Bool → Option Text
  ssh_rsh_string t accept_new = ssh_control_socket_path t.host t.ssh_port >>= λ control.
      some (base_text t accept_new ++ control_text control)

  unfoldable pub join_remote_command : List Text → Text
  join_remote_command remote_argv = join (codes " ") (map w.escape remote_argv)

  -- the lines that may say what went wrong
  abbrev pub tells : Text → Bool
  tells l = not (is_empty l) && not (starts_with (codes "Warning: Permanently added") l)

  -- `rfind`
  unfoldable pub last_that : (Text → Bool) → List Text → Option Text
  last_that p [] = none
  last_that p (l ∷ ls) = elim (last_that p ls) [
    | some m ↦ some m
    | none ↦ if p l then some l else none
  ]

  unfoldable pub error_detail : Text → Text
  error_detail stderr = elim (last_that tells (map trim (lines stderr))) [
    | some l ↦ l
    | none ↦ codes "no SSH error output"
  ]

  unfoldable pub command_output : List Text → Result Output (SshError E)
  command_output args = elim (w.output args) [
    | err e ↦ err (io e)
    | ok out ↦ if not out.success then err (remote (error_detail out.stderr)) else ok out
  ]

  unfoldable pub run_and_capture : List Text → Result Text (SshError E)
  run_and_capture args = elim (command_output args) [
    | err e ↦ err e
    | ok out ↦ elim (w.from_utf8 out.stdout) [ none ↦ err not_utf8 | some text ↦ ok (trim text) ]
  ]

  unfoldable pub run_and_capture_stdout_exact : List Text → Result (List ℕ) (SshError E)
  run_and_capture_stdout_exact args = elim (command_output args) [
    | err e ↦ err e
    | ok out ↦ ok out.stdout
  ]
