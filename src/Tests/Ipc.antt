-- ===== src/Tests/Ipc.antt =====
-- A call of get_config that the daemon refuses, with a progress event before the answer.
use backr.Base.{
  if◌then◌else◌, Text, codes, eq_text, is_whitespace, trim_start_by, trim_end_by, trim, Result, ok,
  err, ℕ, suc, ◌≡◌, refl, inl, true, Option, none, some, List, [], ◌∷◌, ◌++◌,
}
use backr.Ipc.{
  IpcError, IpcRequest, IpcResponse, IpcEvent, Json, BackrCommandError, command_error,
  not_configured, cmd_err,
}
use backr.Ipc.Errors.{Received}
use backr.Ipc.Requests.{response_of, run_request_loop}
use backr.Ipc.Client.{line, request_for, read_lines}
use backr.Ipc.Answers.{
  IsRequestText, IsResponseText, IsEventText, progress, event_lines, read_lines-run_request_loop,
}

data Value : Type 0 where
  null_value : Value
  text_value : Text → Value
  response_value : Value
  event_value : Value

abbrev request_text : Text
request_text = codes "{get_config}"

abbrev response_text : Text
response_text = codes "{error}"

abbrev event_text : Text
event_text = codes "{progress}"

abbrev refused : BackrCommandError
refused = command_error not_configured (codes "no config")

abbrev get_config : IpcRequest Value
get_config = request_for (codes "get_config") null_value

abbrev refusal : IpcResponse Value
refusal = response_of get_config (err (cmd_err refused))

abbrev event : IpcEvent Value
event = record { event = codes "backup_progress"; data_ = text_value (codes "50%") }

value_of_text : Text → Result Value Text
value_of_text t =
    if eq_text t response_text
    then ok response_value
    else if eq_text t event_text
    then ok event_value
    else err (codes "expected value")

get_of : Text → Value → Option Value
get_of k response_value = if eq_text k (codes "id") then some (text_value (codes "1")) else none
get_of k event_value =
    if eq_text k (codes "event") then some (text_value (codes "backup_progress")) else none
get_of k (text_value _) = none
get_of k null_value = none

abbrev json : Json Value
json = record {
  null = null_value;
  from_str = value_of_text;
  get = get_of;
  as_str = λ v. elim v [ text_value t ↦ some t | _ ↦ none ];
  event_from_value = λ v. elim v [ event_value ↦ some event | _ ↦ none ];
  response_from_value =
      λ v. elim v [ response_value ↦ ok refusal | _ ↦ err (codes "missing field") ];
  request_from_str =
      λ t. if eq_text t request_text then ok get_config else err (codes "bad request");
  print_request = λ _. ok request_text;
  print_response = λ _. ok response_text;
  print_event = λ _. ok event_text;
}

abbrev dispatch : Text → Value → ℕ → ℕ × Result Value IpcError
dispatch method params n = (suc n, err (cmd_err refused))

abbrev events : List (Text × IpcEvent Value)
events = (event_text, event) ∷ []

request_text-IsRequestText : IsRequestText json get_config request_text
unfolding eq_text trim trim_end_by trim_start_by is_whitespace
request_text-IsRequestText = record { printed = refl; visible = refl; decoded = refl }

response_text-IsResponseText : IsResponseText json refusal response_text
unfolding eq_text value_of_text get_of
response_text-IsResponseText = record {
  value = response_value;
  id = text_value (codes "1");
  back = refusal;
  printed = refl;
  parsed = refl;
  untagged = refl;
  keyed = refl;
  named = refl;
  decoded = refl;
  error = refl;
  result = inl refl;
}

event_text-IsEventText : IsEventText json (event_text, event)
unfolding eq_text value_of_text get_of
event_text-IsEventText = record {
  value = event_value;
  tag = text_value (codes "backup_progress");
  parsed = refl;
  tagged = refl;
  decoded = refl;
}

read_lines-run_request_loop_example :
    (run_request_loop json dispatch (ok (request_text ++ 10 ∷ []) ∷ []) 1 0
      ≡ (let (s', texts) = run_request_loop json dispatch [] 0 1 in (s', response_text ∷ texts)))
    × ((o : Result Value BackrCommandError) × (read_lines json true
            (event_lines json events ++ line response_text ∷ [])
          ≡ (progress json true events, some o))
        × Received (dispatch (codes "get_config") null_value 0).1 o)
read_lines-run_request_loop_example =
    read_lines-run_request_loop json dispatch 0 true (codes "get_config") null_value request_text
      response_text 0 [] events [] request_text-IsRequestText response_text-IsResponseText
      (event_text-IsEventText, tt)
