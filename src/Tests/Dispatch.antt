-- ===== src/Tests/Dispatch.antt =====
-- Calls of the daemon, with texts in place of the structures that cross the socket whole.
use backr.Base.{
  Text, codes, eq_text, contains_char, is_whitespace, is_digit, ok, ok_or, ◌≡◌, refl, ◌≢◌, some,
  map,
}
use backr.Trust.Keys.{RegexClasses}
use backr.Backup.Validate.{validate_remote_component}
use backr.Backup.Validate.Laws.{IsSafeComponent, validate_remote_component_iff}
use backr.Ipc.Value.{Value, string, object, field, end, as_str, find_field}
use backr.Dispatch.{
  Serde, restore, dispatch, find_arm, read_params, read_restore_snapshot, str_param,
}
use backr.Dispatch.Contained.{Contained, dispatch-Contained}
use backr.Callers
use backr.Callers.{call_of, run}
use backr.Callers.Reached.{wanted, Takes, dispatch-call_of, asked, NamesSafe, map-dispatch-run}

abbrev classes : RegexClasses
classes = record { digit = is_digit; space = is_whitespace }

abbrev serde : Serde Text Text
serde = record {
  config_from_value = λ v. ok_or (as_str v) (codes "not a text");
  config_to_value = string;
  draft_from_value = λ v. ok_or (as_str v) (codes "not a text");
  draft_to_value = string;
}

notes-IsSafeComponent : IsSafeComponent (codes "notes")
unfolding validate_remote_component eq_text contains_char
notes-IsSafeComponent = (validate_remote_component_iff (codes "notes")).0 refl

abbrev restoring : Callers.Desktop Text Text
restoring = Callers.snapshot_cmd (Callers.restore_all_snapshots (codes "notes"))

restoring-Takes : Takes classes restoring
unfolding Takes
restoring-Takes = notes-IsSafeComponent

dispatch-call_of_example :
    dispatch classes serde (call_of serde restoring).method (call_of serde restoring).params
    ≡ ok (wanted restoring)
dispatch-call_of_example =
    dispatch-call_of classes serde (λ c. refl) (λ d. refl) restoring restoring-Takes

abbrev listing : Callers.Commands
listing = Callers.list_of (some (codes "notes"))

listing-NamesSafe : NamesSafe listing
unfolding NamesSafe
listing-NamesSafe = notes-IsSafeComponent

map-dispatch-run_example :
    map (λ call. dispatch classes serde call.method call.params) (run 0 0 listing)
    ≡ map ok (asked 0 0 listing)
map-dispatch-run_example = map-dispatch-run classes serde 0 0 listing listing-NamesSafe

abbrev params : Value
params = object (
    field (codes "project") (string (codes "notes"))
      (field (codes "snapshot") (string (codes "monday")) end))

accepted :
    dispatch classes serde (codes "restore_snapshot") params
    ≡ ok (restore (codes "notes") (codes "monday"))
unfolding dispatch find_arm eq_text read_params read_restore_snapshot str_param find_field
    validate_remote_component contains_char
accepted = refl

dispatch-Contained_example :
    Contained {C = Text} {D = Text} (restore (codes "notes") (codes "monday"))
dispatch-Contained_example =
    dispatch-Contained classes serde (codes "restore_snapshot") params _ accepted

-- a snapshot that leads up is refused
refused :
    dispatch classes serde (codes "restore_snapshot") (
      object (
        field
          (codes "project")
          (string (codes "notes"))
          (field (codes "snapshot") (string (codes "..")) end)))
    ≢ ok (restore (codes "notes") (codes ".."))
unfolding dispatch find_arm eq_text read_params read_restore_snapshot str_param find_field
    validate_remote_component contains_char
refused h = cc
