-- ===== src/Tests/CommandLine.antt =====
-- A backup asked for on the command line, with a line of progress before the answer.
use backr.Base.{
  if◌then◌else◌, Text, codes, eq_text, is_empty, is_whitespace, trim_start_by, trim_end_by, trim,
  Result, ok, err, ℕ, suc, ◌≡◌, refl, sym, subst, false, Option, none, some, List, [], ◌∷◌, ◌++◌,
}
use backr.Ipc.{IpcError, IpcRequest, IpcEvent, Json}
use backr.Ipc.Requests.{response_of, answer, run_request_loop}
use backr.Ipc.CommandLine.{send_command_stream_progress, request_of}
use backr.Ipc.CommandLine.Answered.{
  line_of, IsAnswerText, IsEventLine, shown, event_reads, expected, Asks, ErrorField,
  stream_progress-run_request_loop,
}

data Message : Type 0 where
  empty_message : Message
  text_message : Text → Message
  answer_message : Message
  event_message : Message

abbrev request_text : Text
request_text = codes "{run_backup}"

abbrev answer_text : Text
answer_text = codes "{done}"

abbrev event_text : Text
event_text = codes "{progress}"

abbrev run_backup : IpcRequest Message
run_backup = request_of (codes "7") (codes "run_backup") empty_message

abbrev event : IpcEvent Message
event = record { event = codes "backup_progress"; data_ = text_message (codes "50%") }

message_of_text : Text → Result Message Text
message_of_text t =
    if eq_text t answer_text
    then ok answer_message
    else if eq_text t event_text
    then ok event_message
    else err (codes "expected value")

get_of : Text → Message → Option Message
get_of k answer_message =
    if eq_text k (codes "id")
    then some (text_message (codes "7"))
    else if eq_text k (codes "result")
    then some (text_message (codes "done"))
    else none
get_of k event_message =
    if eq_text k (codes "event")
    then some (text_message (codes "backup_progress"))
    else if eq_text k (codes "data")
    then some (text_message (codes "50%"))
    else none
get_of k (text_message _) = none
get_of k empty_message = none

abbrev json : Json Message
json = record {
  null = empty_message;
  from_str = message_of_text;
  get = get_of;
  as_str = λ v. elim v [ text_message t ↦ some t | _ ↦ none ];
  event_from_value = λ v. elim v [ event_message ↦ some event | _ ↦ none ];
  response_from_value = λ v. err (codes "not asked for");
  request_from_str =
      λ t. if eq_text t request_text then ok run_backup else err (codes "bad request");
  print_request = λ _. ok request_text;
  print_response = λ _. ok answer_text;
  print_event = λ _. ok event_text;
}

abbrev to_string : Message → Text
to_string _ = codes "{}"

abbrev dispatch : Text → Message → ℕ → ℕ × Result Message IpcError
dispatch method params n = (suc n, ok (text_message (codes "done")))

abbrev events : List (Text × IpcEvent Message)
events = (event_text, event) ∷ []

asked : json.request_from_str (trim (line_of request_text)) ≡ ok run_backup
unfolding eq_text trim trim_end_by trim_start_by is_whitespace
asked = refl

visible : is_empty (trim (line_of request_text)) ≡ false
unfolding trim trim_end_by trim_start_by is_whitespace
visible = refl

reply :
    (answer json dispatch (trim (line_of request_text)) 0).1
    ≡ response_of run_backup (ok (text_message (codes "done")))
unfolding answer
reply = rw (answer, asked) refl

response-IsAnswerText :
    IsAnswerText json to_string
      (response_of run_backup (ok (text_message (codes "done"))))
      answer_text
unfolding eq_text message_of_text get_of trim trim_end_by trim_start_by is_whitespace ErrorField
response-IsAnswerText = record {
  value = answer_message;
  id = text_message (codes "7");
  visible = refl;
  parsed = refl;
  untagged = refl;
  keyed = refl;
  named = refl;
  error = refl;
  result = refl;
}

event_text-IsEventLine : IsEventLine json to_string (event_text, event)
unfolding eq_text message_of_text get_of trim trim_end_by trim_start_by is_whitespace
event_text-IsEventLine = record {
  value = event_message;
  tag = text_message (codes "backup_progress");
  visible = refl;
  parsed = refl;
  tagged = refl;
  named = refl;
  carried = refl;
}

answered :
    IsAnswerText json to_string (answer json dispatch (trim (line_of request_text)) 0).1 answer_text
answered = subst (λ r. IsAnswerText json to_string r answer_text) (sym reply) response-IsAnswerText

asks :
    Asks json to_string dispatch (codes "7") (json.request_from_str (trim (line_of request_text)))
unfolding Asks eq_text trim trim_end_by trim_start_by is_whitespace
asks = refl

stream_progress-run_request_loop_example :
    (run_request_loop json dispatch (ok (line_of request_text) ∷ []) 1 0 ≡ (
      let (s', texts) =
        run_request_loop json dispatch [] 0
          (answer json dispatch (trim (line_of request_text)) 0).0 in
      (s', answer_text ∷ texts)))
    × (send_command_stream_progress json to_string
          (codes "7")
          (event_reads json to_string events ++ ok (line_of answer_text) ∷ [])
        ≡ (
          shown json to_string events,
          some (
              expected json to_string dispatch 0
                (json.request_from_str (trim (line_of request_text)))),
        ))
stream_progress-run_request_loop_example =
    stream_progress-run_request_loop json to_string dispatch 0 (codes "7") request_text answer_text
      0 [] events [] visible asks refl answered (event_text-IsEventLine, tt)
