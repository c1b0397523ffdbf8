-- ===== src/Ipc.antt =====
-- ipc_protocol.rs and error.rs of backr-core: the messages of the daemon's socket, and the errors
-- that cross it by the mapping of ipc/handlers.rs and of src-tauri/src/ipc_client.rs.
use backr.Base.{
  Bool-eq, Result-cases, All-lines, lines-lack_newline, ap₂, trim_idem, trim-strip_cr,
  strip_cr_of_lacks, All-trim, All-trim_start_by, All-trim_end_by, lines-append, lines_line,
  map-trim-lines-finish, strip_prefix, splitn_from, splitn, ends_with_char, split-nil,
  split-cons_sep, ltb, leb, ◌==◌, if◌then◌else◌, ==_iff, ==_self, Bool-cases, Option-cases, length,
  take, head?, any, filter, length-append, length-filter, filter-append, All, All-append,
  All-append_iff, All-map, All-filter, Text, codes, eq_text, is_empty, contains_char, starts_with,
  contains, is_whitespace, trim_start_by, trim_end_by, trim, split_from, split, join, replace_char,
  strip_cr, lines_from, lines, is_digit, digits_from, parse_uint, eq_text→≡, eq_text_self,
  eq_text_iff, contains_char-eq-false_iff, split_from-append, split-append, split_from_of_lacks,
  trim_end_by_parts, trim_start_by_parts, trim_start_by-cons, trim_end_by-concat, is_empty-concat,
  ne_of_eq_text, eq_text_of_ne, ne_nil_of_is_empty, is_empty_of_ne_nil, Result, ok, err, map_err,
  ok_or, to_option, >>=-eq-ok, ℕ, zero, suc, ◌+◌, ◌-◌, ◌*◌, ◌/◌, ◌%◌, ◌^◌, ◌≤◌, ◌<◌, String, ◌≡◌,
  refl, sym, ap, ◌∙◌, subst, ◌≢◌, ◌↔◌, ◌⊎◌, inl, inr, Bool, true, false, ◌&&◌, ◌||◌, not, Option,
  none, some, List, [], ◌∷◌, ◌++◌, map, reverse, append-nil, append_assoc, map-append,
  reverse-append, arith,
}
pub mod Value
pub mod Errors
pub mod Requests
pub mod Client
pub mod CommandLine
pub mod Answers

pub data ErrorKind : Type 0 where
  not_configured : ErrorKind
  ssh_failed : ErrorKind
  rsync_failed : ErrorKind
  io : ErrorKind
  backup_in_progress : ErrorKind
  invalid_input : ErrorKind
  config : ErrorKind
  pairing : ErrorKind
  task_failed : ErrorKind

pub record BackrCommandError : Type 0 where
  pub kind : ErrorKind
  pub message : Text

-- `BackrError`, where an error of a library is its text
pub data BackrError : Type 0 where
  config_error : Text → BackrError
  io_error : Text → BackrError
  utf8 : Text → BackrError
  toml_ser : Text → BackrError
  toml_de : Text → BackrError
  remote : Text → BackrError
  regex : Text → BackrError
  already_running : BackrError
  update : Text → BackrError
  msg : Text → BackrError

abbrev pub command_error : ErrorKind → Text → BackrCommandError
command_error k m = record { kind = k; message = m }

-- `BackrCommandError::backup_in_progress()`
abbrev pub backup_in_progress_error : BackrCommandError
backup_in_progress_error =
    command_error backup_in_progress (codes "a backup is already in progress")

-- `BackrCommandError::from(e)`
unfoldable pub from_backr_error : BackrError → BackrCommandError
from_backr_error (config_error m) = command_error config m
from_backr_error (io_error e) = command_error io e
from_backr_error (utf8 e) = command_error io e
from_backr_error (toml_ser e) = command_error config e
from_backr_error (toml_de e) = command_error config e
from_backr_error (remote m) = command_error ssh_failed m
from_backr_error (regex e) = command_error config e
from_backr_error already_running = backup_in_progress_error
from_backr_error (update m) = command_error task_failed m
from_backr_error (msg m) = command_error invalid_input m

pub record IpcError : Type 0 where
  pub kind : Text
  pub message : Text

-- the derived `Debug` of `ErrorKind`
unfoldable pub debug_kind : ErrorKind → Text
debug_kind not_configured = codes "NotConfigured"
debug_kind ssh_failed = codes "SshFailed"
debug_kind rsync_failed = codes "RsyncFailed"
debug_kind io = codes "Io"
debug_kind backup_in_progress = codes "BackupInProgress"
debug_kind invalid_input = codes "InvalidInput"
debug_kind config = codes "Config"
debug_kind pairing = codes "Pairing"
debug_kind task_failed = codes "TaskFailed"

unfoldable pub cmd_err : BackrCommandError → IpcError
cmd_err e = record { kind = debug_kind e.kind; message = e.message }

abbrev pub core_err : BackrError → IpcError
core_err e = cmd_err (from_backr_error e)

-- the match on `err.kind` in `map_daemon_error`
unfoldable pub kind_of : Text → ErrorKind
kind_of s =
    if eq_text s (codes "NotConfigured")
    then not_configured
    else if eq_text s (codes "SshFailed")
    then ssh_failed
    else if eq_text s (codes "RsyncFailed")
    then rsync_failed
    else if eq_text s (codes "Io")
    then io
    else if eq_text s (codes "BackupInProgress")
    then backup_in_progress
    else if eq_text s (codes "InvalidInput")
    then invalid_input
    else if eq_text s (codes "Config")
    then config
    else if eq_text s (codes "Pairing")
    then pairing
    else if eq_text s (codes "TaskFailed")
    then task_failed
    else invalid_input

unfoldable pub map_daemon_error : IpcError → BackrCommandError
map_daemon_error e = record { kind = kind_of e.kind; message = e.message }

-- the messages, over the JSON values of the library
pub record IpcRequest (V : Type 0) : Type 0 where
  pub id : Text
  pub method : Text
  pub params : V

pub record IpcResponse (V : Type 0) : Type 0 where
  pub id : Text
  pub result : Option V
  pub error : Option IpcError

pub record IpcEvent (V : Type 0) : Type 0 where
  pub event : Text
  pub data_ : V

-- `IpcResponse::ok` and `IpcResponse::err`
abbrev pub ok_response : {Value : Type 0} → Text → Value → IpcResponse Value
ok_response i v = record { id = i; result = some v; error = none }

abbrev pub err_response : {Value : Type 0} → Text → IpcError → IpcResponse Value
err_response i e = record { id = i; result = none; error = some e }

-- What the program calls of the library for JSON.
pub record Json (V : Type 0) : Type 0 where
  pub null : V
  pub from_str : Text → Result V Text
  pub get : Text → V → Option V
  pub as_str : V → Option Text
  pub event_from_value : V → Option (IpcEvent V)
  pub response_from_value : V → Result (IpcResponse V) Text
  pub request_from_str : Text → Result (IpcRequest V) Text
  pub print_request : IpcRequest V → Result Text Text
  pub print_response : IpcResponse V → Result Text Text
  pub print_event : IpcEvent V → Result Text Text
