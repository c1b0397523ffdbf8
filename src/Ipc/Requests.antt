-- ===== src/Ipc/Requests.antt =====
-- ipc/mod.rs of backrd: the requests that one connection reads, and their answers.
use backr.Base.{
  Text, codes, is_empty, trim, Result, ok, err, ℕ, zero, suc, true, false, Option, none, some, List,
  [], ◌∷◌, ◌++◌,
}
use backr.Ipc.{IpcError, IpcRequest, IpcResponse, ok_response, err_response, Json}

abbrev pub malformed_request_response : {Value : Type 0} → Text → IpcResponse Value
malformed_request_response e =
    err_response (codes "null")
      (record { kind = codes "InvalidInput"; message = codes "failed to parse request: " ++ e })

-- the answer to the result of `handlers::dispatch`
abbrev pub response_of :
    {Value : Type 0} → IpcRequest Value → Result Value IpcError → IpcResponse Value
response_of q r = elim r [ ok v ↦ ok_response q.id v | err e ↦ err_response q.id e ]

module _ {V : Type 0} (json : Json V) where
  -- `send_json` into a channel that takes `room` more messages before its writer is gone
  unfoldable pub send_json : ℕ → IpcResponse V → Option (Text × ℕ)
  send_json room r = elim (json.print_response r) [
    | err _ ↦ none
    | ok text ↦ elim room [ zero ↦ none | suc left ↦ some (text, left) ]
  ]

module _ {V S : Type 0} (json : Json V) (dispatch : Text → V → S → S × Result V IpcError) where
  -- the answer to a line that is not blank, and the daemon's state after it
  unfoldable pub answer : Text → S → S × IpcResponse V
  answer trimmed s = elim (json.request_from_str trimmed) [
    | err e ↦ (s, malformed_request_response e)
    | ok q ↦ let (s', r) = dispatch q.method q.params s in (s', response_of q r)
  ]

  -- The loop over the reads; an empty line is the end of the stream. It gives the daemon's state and
  -- the lines that the writer takes.
  unfoldable pub run_request_loop : List (Result Text Text) → ℕ → S → S × List Text
  run_request_loop [] room s = (s, [])
  run_request_loop (err _ ∷ reads) room s = (s, [])
  run_request_loop (ok line ∷ reads) room s = elim (is_empty line) [
    | true ↦ (s, [])
    | false ↦ elim (is_empty (trim line)) [
      | true ↦ run_request_loop reads room s
      | false ↦
          let (s', r) = answer (trim line) s in
          elim (send_json json room r) [
            | none ↦ (s', [])
            | some (text, left) ↦
                let (s'', texts) = run_request_loop reads left s' in (s'', text ∷ texts)
          ]
    ]
  ]
