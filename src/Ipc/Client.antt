-- ===== src/Ipc/Client.antt =====
-- src-tauri/src/ipc_client.rs: one call of the daemon by the desktop application. The message for a
-- line that is not JSON is kept without the line that it quotes.
use backr.Base.{
  if◌then◌else◌, Text, codes, eq_text, Result, ok, err, Bool, false, ◌&&◌, Option, none, some, List,
  [], ◌∷◌, ◌++◌,
}
use backr.Ipc.{IpcRequest, Json, BackrCommandError, command_error, io, map_daemon_error}

-- what a bounded read of the next line gives
pub data Read : Type 0 where
  elapsed : Read
  failed : Text → Read
  closed : Read
  line : Text → Read

abbrev pub request_id : Text
request_id = codes "1"

-- the idle bound of a call in seconds, as it is printed
unfoldable pub idle_timeout : Bool → Text
idle_timeout streams = if streams then codes "600" else codes "20"

abbrev io_err : Text → BackrCommandError
io_err m = command_error io m

abbrev pub request_for : {Value : Type 0} → Text → Value → IpcRequest Value
request_for method params = record { id = request_id; method = method; params = params }

module _ {V : Type 0} (json : Json V) where
  unfoldable pub is_final_response : V → Text → Bool
  is_final_response parsed i = elim (json.get (codes "id") parsed) [
    | none ↦ false
    | some v ↦ elim (json.as_str v) [ none ↦ false | some t ↦ eq_text t i ]
  ]

  -- what an event line makes the client emit
  unfoldable pub emitted : Bool → V → List V
  emitted streams parsed = elim (json.event_from_value parsed) [
    | none ↦ []
    | some ev ↦ if eq_text ev.event (codes "backup_progress") && streams then ev.data_ ∷ [] else []
  ]

  -- the outcome that a final response carries
  unfoldable pub outcome_of : V → Result V BackrCommandError
  outcome_of parsed = elim (json.response_from_value parsed) [
    | err e ↦ err (io_err (codes "malformed response from backrd: " ++ e))
    | ok r ↦ elim r.error [
      | some e ↦ err (map_daemon_error e)
      | none ↦ elim r.result [ none ↦ ok json.null | some v ↦ ok v ]
    ]
  ]

  -- The loop over the reads, with the outcome, if it ends, and the events emitted before it.
  unfoldable pub read_lines : Bool → List Read → List V × Option (Result V BackrCommandError)
  read_lines streams [] = ([], none)
  read_lines streams (elapsed ∷ _) = (
    [],
    some (
        err (
          io_err (
            codes "backrd accepted the connection but sent no response within "
            ++ (idle_timeout streams ++ codes "s")))),
  )
  read_lines streams (failed e ∷ _) =
      ([], some (err (io_err (codes "error reading from backrd socket: " ++ e))))
  read_lines streams (closed ∷ _) =
      ([], some (err (io_err (codes "backrd socket closed before sending a response"))))
  read_lines streams (line raw ∷ reads) = elim (json.from_str raw) [
    | err e ↦ ([], some (err (io_err (codes "invalid JSON from backrd: " ++ e))))
    | ok parsed ↦ elim (json.get (codes "event") parsed) [
      | some _ ↦ let (evs, r) = read_lines streams reads in (emitted streams parsed ++ evs, r)
      | none ↦
          if is_final_response parsed request_id
          then ([], some (outcome_of parsed))
          else read_lines streams reads
    ]
  ]
