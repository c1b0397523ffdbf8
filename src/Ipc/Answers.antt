-- ===== src/Ipc/Answers.antt =====
-- A call of the desktop application over the connection that the daemon serves.
use backr.Base.{
  if◌then◌else◌, All, Text, codes, eq_text, is_empty, trim, is_empty-concat, Result, ok, err,
  map_err, ℕ, suc, ◌≡◌, refl, ap, ◌⊎◌, inl, inr, Bool, true, false, ◌&&◌, Option, none, some, List,
  [], ◌∷◌, ◌++◌, map,
}
use backr.Ipc.{
  IpcError, IpcRequest, IpcResponse, IpcEvent, Json, BackrCommandError, map_daemon_error,
}
use backr.Ipc.Errors.{Received, map_err-Received}
use backr.Ipc.Requests.{response_of, answer, send_json, run_request_loop}
use backr.Ipc.Client.{Read, line, request_for, is_final_response, emitted, outcome_of, read_lines}

module _ {V : Type 0} (json : Json V) where
  -- The library prints `q` as `text`, and reads it from that line.
  pub record IsRequestText (q : IpcRequest V) (text : Text) : Type 0 where
    pub printed : json.print_request q ≡ ok text
    pub visible : is_empty (trim (text ++ 10 ∷ [])) ≡ false
    pub decoded : json.request_from_str (trim (text ++ 10 ∷ [])) ≡ ok q

  -- a field that holds null is read as an absent one
  abbrev pub SameResult : Option V → Option V → Type 0
  SameResult sent back = (back ≡ sent) ⊎ ((sent ≡ some json.null) × (back ≡ none))

  -- The library prints `r` as `text` and reads that line as `value`, an object without the key of
  -- events.
  pub record IsResponseText (r : IpcResponse V) (text : Text) : Type 0 where
    pub value : V
    pub id : V
    pub back : IpcResponse V
    pub printed : json.print_response r ≡ ok text
    pub parsed : json.from_str text ≡ ok value
    pub untagged : json.get (codes "event") value ≡ none
    pub keyed : json.get (codes "id") value ≡ some id
    pub named : json.as_str id ≡ some r.id
    pub decoded : json.response_from_value value ≡ ok back
    pub error : back.error ≡ r.error
    pub result : SameResult r.result back.result

  -- The library reads the line `text` as the event `e`.
  pub record IsEventText (p : Text × IpcEvent V) : Type 0 where
    pub value : V
    pub tag : V
    pub parsed : json.from_str p.0 ≡ ok value
    pub tagged : json.get (codes "event") value ≡ some tag
    pub decoded : json.event_from_value value ≡ some p.1

  -- the data of the progress events, for a call that streams
  unfoldable pub progress : Bool → List (Text × IpcEvent V) → List V
  progress streams [] = []
  progress streams ((_, e) ∷ es) =
      if eq_text e.event (codes "backup_progress") && streams
      then e.data_ ∷ progress streams es
      else progress streams es

  abbrev pub event_lines : List (Text × IpcEvent V) → List Read
  event_lines es = map (λ p. line p.0) es

  emitted-progress :
      (streams : Bool) (text : Text) (e : IpcEvent V) (es : List (Text × IpcEvent V)) (value : V)
      → json.event_from_value value ≡ some e
      → emitted json streams value ++ progress streams es ≡ progress streams ((text, e) ∷ es)
  unfolding emitted progress
  emitted-progress streams text e es value decoded =
      rw (emitted, decoded) (go (eq_text e.event (codes "backup_progress") && streams))
    where
      go :
          (b : Bool)
          → (if b then e.data_ ∷ [] else []) ++ progress streams es
            ≡ (if b then e.data_ ∷ progress streams es else progress streams es)
      go true = refl
      go false = refl

  read_lines-event_lines :
      (streams : Bool) (es : List (Text × IpcEvent V)) (rest : List Read)
      (r : Option (Result V BackrCommandError))
      → All IsEventText es
      → read_lines json streams rest ≡ ([], r)
      → read_lines json streams (event_lines es ++ rest) ≡ (progress streams es, r)
  unfolding read_lines progress
  read_lines-event_lines streams [] rest r h e = e
  read_lines-event_lines streams (p ∷ es) rest r (h, hs) e =
      rw (read_lines, h.parsed, h.tagged, read_lines-event_lines streams es rest r hs e)
        (ap (λ evs. (evs, r)) (emitted-progress streams p.0 p.1 es h.value h.decoded))

  same_null :
      {v : V} → some v ≡ some json.null → ◌≡◌ {A = Result V BackrCommandError} (ok json.null) (ok v)
  same_null e = cc

  outcome_of-response :
      (q : IpcRequest V) (r : Result V IpcError) (text : Text)
      → (h : IsResponseText (response_of q r) text)
      → outcome_of json h.value ≡ map_err map_daemon_error r
  unfolding outcome_of
  outcome_of-response q (err e) text h = rw (outcome_of, h.decoded, h.error) refl
  outcome_of-response q (ok v) text h = elim h.result [
    | inl same ↦ rw (outcome_of, h.decoded, h.error, same) refl
    | inr (nothing, absent) ↦ rw (outcome_of, h.decoded, h.error, absent) (same_null nothing)
  ]

  read_lines-response :
      (streams : Bool) (method : Text) (params : V) (r : Result V IpcError) (text : Text)
      (rest : List Read)
      → IsResponseText (response_of (request_for method params) r) text
      → read_lines json streams (line text ∷ rest) ≡ ([], some (map_err map_daemon_error r))
  unfolding read_lines is_final_response eq_text
  read_lines-response streams method params (ok v) text rest h =
      rw (read_lines, h.parsed, h.untagged, is_final_response, h.keyed, h.named)
        (ap (λ o. ([], some o)) (outcome_of-response (request_for method params) (ok v) text h))
  read_lines-response streams method params (err e) text rest h =
      rw (read_lines, h.parsed, h.untagged, is_final_response, h.keyed, h.named)
        (ap (λ o. ([], some o)) (outcome_of-response (request_for method params) (err e) text h))

module _ {V S : Type 0} (json : Json V) (dispatch : Text → V → S → S × Result V IpcError) where
  answer-request :
      (s : S) (q : IpcRequest V) (trimmed : Text)
      → json.request_from_str trimmed ≡ ok q
      → (let (s', r) = dispatch q.method q.params s in
          answer json dispatch trimmed s ≡ (s', response_of q r))
  unfolding answer
  answer-request s q trimmed e = rw (answer, e) refl

  run_request_loop-request :
      (s : S) (q : IpcRequest V) (asked answered : Text) (room : ℕ)
      (reads : List (Result Text Text))
      → IsRequestText json q asked
      → json.print_response (response_of q (dispatch q.method q.params s).1) ≡ ok answered
      → run_request_loop json dispatch (ok (asked ++ 10 ∷ []) ∷ reads) (suc room) s ≡ (
          let (s', texts) =
            run_request_loop json dispatch reads room (dispatch q.method q.params s).0 in
          (s', answered ∷ texts))
  unfolding run_request_loop send_json
  run_request_loop-request s q asked answered room reads h printed =
      rw
        (
          run_request_loop,
          is_empty-concat asked 10,
          h.visible,
          answer-request s q _ h.decoded,
          send_json,
          printed,
        )
        (ap
          (λ a.
            let (s', texts) = run_request_loop json dispatch reads room a.0 in
            (s', answered ∷ texts))
          (answer-request s q _ h.decoded))

  -- The daemon takes the line of a call, runs the handler once, and writes one answer. The client that
  -- reads that answer after any events gives the handler's result, or an error with its message, and with
  -- its kind where that is one of the nine of the commands (any other is read as invalid input), and emits
  -- the progress events of the lines before it, in order, where the call streams.
  pub read_lines-run_request_loop :
      (s : S) (streams : Bool) (method : Text) (params : V) (asked answered : Text) (room : ℕ)
      (reads : List (Result Text Text)) (es : List (Text × IpcEvent V)) (rest : List Read)
      → IsRequestText json (request_for method params) asked
      → IsResponseText json
          (response_of (request_for method params) (dispatch method params s).1)
          answered
      → All (IsEventText json) es
      → (run_request_loop json dispatch (ok (asked ++ 10 ∷ []) ∷ reads) (suc room) s ≡ (
          let (s', texts) =
            run_request_loop json dispatch reads room (dispatch method params s).0 in
          (s', answered ∷ texts)))
        × ((o : Result V BackrCommandError) × (read_lines json streams
                (event_lines json es ++ line answered ∷ rest)
              ≡ (progress json streams es, some o))
            × Received (dispatch method params s).1 o)
  read_lines-run_request_loop s streams method params asked answered room reads es rest q r h = (
    run_request_loop-request s (request_for method params) asked answered room reads q r.printed,
    (
      map_err map_daemon_error (dispatch method params s).1,
      read_lines-event_lines json streams es (line answered ∷ rest) _ h
          (read_lines-response json streams method params _ answered rest r),
      map_err-Received (dispatch method params s).1,
    ),
  )
