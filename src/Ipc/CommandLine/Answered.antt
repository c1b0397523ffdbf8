-- ===== src/Ipc/CommandLine/Answered.antt =====
-- A call of the command line over the connection that the daemon serves.
use backr.Base.{
  if◌then◌else◌, All, Text, codes, eq_text, is_empty, trim, eq_text_iff, is_empty-concat, Result,
  ok, err, ok_or, ℕ, suc, ◌≡◌, refl, ap, ◌∙◌, ◌⊎◌, inl, inr, Bool, true, false, ◌||◌, Option, none,
  some, List, [], ◌∷◌, ◌++◌, map,
}
use backr.Ipc.{IpcError, IpcRequest, IpcResponse, IpcEvent, Json}
use backr.Ipc.Requests.{response_of, answer, send_json, run_request_loop}
use backr.Ipc.CommandLine.{
  CallError, daemon_error, missing_fields, message_of, extract_result, resp_id, is_answer, printed,
  event_name_of, send_command_stream_progress,
}

or_true : (a : Bool) {b : Bool} → b ≡ true → (a || b) ≡ true
or_true true h = refl
or_true false h = h

-- the line that a text is read as
abbrev pub line_of : Text → Text
line_of text = text ++ 10 ∷ []

module _ {V : Type 0} (json : Json V) (to_string : V → Text) where
  -- the field of an error, with its message
  pub record HoldsMessage (message : Text) (value : V) : Type 0 where
    pub error : V
    pub field : V
    pub found : json.get (codes "error") value ≡ some error
    pub inside : json.get (codes "message") error ≡ some field
    pub named : json.as_str field ≡ some message

  unfoldable pub ErrorField : Option IpcError → V → Type 0
  ErrorField none value = json.get (codes "error") value ≡ none
  ErrorField (some e) value = HoldsMessage e.message value

  -- The library reads the line of `text` as an object with the fields of `r` and no key of events.
  pub record IsAnswerText (r : IpcResponse V) (text : Text) : Type 0 where
    pub value : V
    pub id : V
    pub visible : is_empty (trim (line_of text)) ≡ false
    pub parsed : json.from_str (trim (line_of text)) ≡ ok value
    pub untagged : json.get (codes "event") value ≡ none
    pub keyed : json.get (codes "id") value ≡ some id
    pub named : json.as_str id ≡ some r.id
    pub error : ErrorField r.error value
    pub result : json.get (codes "result") value ≡ r.result

  -- The library reads the line of `p.0` as the event `p.1`.
  pub record IsEventLine (p : Text × IpcEvent V) : Type 0 where
    pub value : V
    pub tag : V
    pub visible : is_empty (trim (line_of p.0)) ≡ false
    pub parsed : json.from_str (trim (line_of p.0)) ≡ ok value
    pub tagged : json.get (codes "event") value ≡ some tag
    pub named : json.as_str tag ≡ some p.1.event
    pub carried : json.get (codes "data") value ≡ some p.1.data_

  -- the texts of the progress events, each as it is printed
  unfoldable pub shown : List (Text × IpcEvent V) → List Text
  shown [] = []
  shown ((_, e) ∷ es) =
      (if eq_text e.event (codes "backup_progress")
        then elim (json.as_str e.data_) [ none ↦ to_string e.data_ | some s ↦ s ] ∷ []
        else [])
      ++ shown es

  abbrev pub event_reads : List (Text × IpcEvent V) → List (Result Text Text)
  event_reads es = map (λ p. ok (line_of p.0)) es

  -- what the caller sees of a response
  unfoldable pub view : IpcResponse V → Result V CallError
  view r = elim r.error [
    | none ↦ ok_or r.result missing_fields
    | some e ↦ err (daemon_error e.message)
  ]

  stream_progress-event_reads :
      (i : Text) (es : List (Text × IpcEvent V)) (rest : List (Result Text Text))
      (r : Option (Result V CallError))
      → All IsEventLine es
      → send_command_stream_progress json to_string i rest ≡ ([], r)
      → send_command_stream_progress json to_string i (event_reads es ++ rest) ≡ (shown es, r)
  unfolding send_command_stream_progress shown printed event_name_of
  stream_progress-event_reads i [] rest r h e = e
  stream_progress-event_reads i (p ∷ es) rest r (h, hs) e =
      rw
        (
          send_command_stream_progress,
          is_empty-concat p.0 10,
          h.visible,
          h.parsed,
          event_name_of,
          h.tagged,
          h.named,
          printed,
          h.carried,
          stream_progress-event_reads i es rest r hs e,
        )
        refl

  extract_result-view :
      (r : IpcResponse V) (value : V) (o : Option IpcError)
      → r.error ≡ o
      → ErrorField o value
      → json.get (codes "result") value ≡ r.result
      → extract_result json to_string value ≡ view r
  unfolding extract_result view message_of ErrorField
  extract_result-view r value none none_ field result =
      rw (extract_result, field, view, none_, result) refl
  extract_result-view r value (some e) failed field result =
      rw (extract_result, field.found, message_of, field.inside, field.named, view, failed) refl

  -- the response to this call, or to a line that the daemon could not read
  abbrev pub Answers : Text → IpcResponse V → Type 0
  Answers i r = (r.id ≡ i) ⊎ (r.id ≡ codes "null")

  is_answer-Answers :
      (i : Text) (r : IpcResponse V) (value id : V)
      → json.get (codes "id") value ≡ some id
      → json.as_str id ≡ some r.id
      → Answers i r
      → is_answer json to_string i value ≡ true
  unfolding is_answer resp_id
  is_answer-Answers i r value id keyed named (inl mine) =
      rw (is_answer, resp_id, keyed, named) (rw ((eq_text_iff r.id i).1 mine) refl)
  is_answer-Answers i r value id keyed named (inr null) =
      rw (is_answer, resp_id, keyed, named)
        (or_true (eq_text r.id i) ((eq_text_iff r.id (codes "null")).1 null))

  stream_progress-answer :
      (i : Text) (r : IpcResponse V) (text : Text) (rest : List (Result Text Text))
      → IsAnswerText r text
      → Answers i r
      → send_command_stream_progress json to_string i (ok (line_of text) ∷ rest)
        ≡ ([], some (view r))
  unfolding send_command_stream_progress event_name_of
  stream_progress-answer i r text rest h mine =
      rw
        (
          send_command_stream_progress,
          is_empty-concat text 10,
          h.visible,
          h.parsed,
          event_name_of,
          h.untagged,
          is_answer-Answers i r h.value h.id h.keyed h.named mine,
        )
        (ap (λ o. ([], some o)) (extract_result-view r h.value r.error refl h.error h.result))

module _ {V S : Type 0} (json : Json V) (to_string : V → Text)
    (dispatch : Text → V → S → S × Result V IpcError) where
  -- where the daemon can read the request, it has the call's id
  unfoldable pub Asks : Text → Result (IpcRequest V) Text → Type 0
  Asks i (ok q) = q.id ≡ i
  Asks i (err _) = Unit

  -- what the caller is to get of a request as the daemon reads it
  unfoldable pub expected : S → Result (IpcRequest V) Text → Result V CallError
  expected s (ok q) = elim (dispatch q.method q.params s).1 [
    | ok v ↦ ok v
    | err e ↦ err (daemon_error e.message)
  ]
  expected s (err e) = err (daemon_error (codes "failed to parse request: " ++ e))

  view-response_of :
      (q : IpcRequest V) (r : Result V IpcError)
      → view json to_string (response_of q r)
        ≡ elim r [ ok v ↦ ok v | err e ↦ err (daemon_error e.message) ]
  unfolding view
  view-response_of q (ok v) = refl
  view-response_of q (err e) = refl

  id-response_of : (q : IpcRequest V) (r : Result V IpcError) → (response_of q r).id ≡ q.id
  id-response_of q (ok v) = refl
  id-response_of q (err e) = refl

  answered :
      (s : S) (i trimmed : Text) (read : Result (IpcRequest V) Text)
      → json.request_from_str trimmed ≡ read
      → Asks i read
      → Answers json to_string i (answer json dispatch trimmed s).1
        × (view json to_string (answer json dispatch trimmed s).1 ≡ expected s read)
  unfolding answer view expected Asks
  answered s i trimmed (ok q) decoded same =
      rw (answer, decoded)
        (
          inl (id-response_of q (dispatch q.method q.params s).1 ∙ same),
          view-response_of q (dispatch q.method q.params s).1,
        )
  answered s i trimmed (err e) refused h = rw (answer, refused) (inr refl, refl)

  run_request_loop-answer :
      (s : S) (asked text : Text) (room : ℕ) (reads : List (Result Text Text))
      → is_empty (trim (line_of asked)) ≡ false
      → json.print_response (answer json dispatch (trim (line_of asked)) s).1 ≡ ok text
      → run_request_loop json dispatch (ok (line_of asked) ∷ reads) (suc room) s ≡ (
          let (s', texts) =
            run_request_loop json dispatch reads room
              (answer json dispatch (trim (line_of asked)) s).0 in
          (s', text ∷ texts))
  unfolding run_request_loop send_json
  run_request_loop-answer s asked text room reads visible printed_ =
      rw (run_request_loop, is_empty-concat asked 10, visible, send_json, printed_) refl

  -- The daemon takes the line of a call of the command line and writes one answer to it, also where it
  -- cannot read the line. The client that reads that answer behind any events prints the progress
  -- events of those lines in order, and gives the handler's result, or fails with the message of the
  -- handler's error, or with the daemon's message on the line that it could not read.
  pub stream_progress-run_request_loop :
      (s : S) (i asked text : Text) (room : ℕ) (reads : List (Result Text Text))
      (es : List (Text × IpcEvent V)) (rest : List (Result Text Text))
      → is_empty (trim (line_of asked)) ≡ false
      → Asks i (json.request_from_str (trim (line_of asked)))
      → json.print_response (answer json dispatch (trim (line_of asked)) s).1 ≡ ok text
      → IsAnswerText json to_string (answer json dispatch (trim (line_of asked)) s).1 text
      → All (IsEventLine json to_string) es
      → (run_request_loop json dispatch (ok (line_of asked) ∷ reads) (suc room) s ≡ (
          let (s', texts) =
            run_request_loop json dispatch reads room
              (answer json dispatch (trim (line_of asked)) s).0 in
          (s', text ∷ texts)))
        × (send_command_stream_progress json to_string i
              (event_reads json to_string es ++ ok (line_of text) ∷ rest)
            ≡ (
              shown json to_string es,
              some (expected s (json.request_from_str (trim (line_of asked)))),
            ))
  stream_progress-run_request_loop s i asked text room reads es rest visible asks printed_ h hs =
      let (mine, seen) = answered s i (trim (line_of asked)) _ refl asks in
      (
        run_request_loop-answer s asked text room reads visible printed_,
        stream_progress-event_reads json to_string i es (ok (line_of text) ∷ rest) _ hs
              (stream_progress-answer json to_string i _ text rest h mine)
            ∙ ap (λ o. (shown json to_string es, some o)) seen,
      )
