-- ===== src/Ipc/CommandLine.antt =====
-- backr-cli/src/client.rs: one call of the daemon by the command line, by its three clients. The socket
-- and the clock that names a request are arguments; a read gives a line with its end, none at the end
-- of the stream, or an error.
use backr.Base.{
  Bool-eq, Result-cases, All-lines, lines-lack_newline, ap₂, trim_idem, trim-strip_cr,
  strip_cr_of_lacks, All-trim, All-trim_start_by, All-trim_end_by, lines-append, lines_line,
  map-trim-lines-finish, strip_prefix, splitn_from, splitn, ends_with_char, split-nil,
  split-cons_sep, ltb, leb, ◌==◌, if◌then◌else◌, ==_iff, ==_self, Bool-cases, Option-cases, length,
  take, head?, any, filter, length-append, length-filter, filter-append, All, All-append,
  All-append_iff, All-map, All-filter, Text, codes, eq_text, is_empty, contains_char, starts_with,
  contains, is_whitespace, trim_start_by, trim_end_by, trim, split_from, split, join, replace_char,
  strip_cr, lines_from, lines, is_digit, digits_from, parse_uint, eq_text→≡, eq_text_self,
  eq_text_iff, contains_char-eq-false_iff, split_from-append, split-append, split_from_of_lacks,
  trim_end_by_parts, trim_start_by_parts, trim_start_by-cons, trim_end_by-concat, is_empty-concat,
  ne_of_eq_text, eq_text_of_ne, ne_nil_of_is_empty, is_empty_of_ne_nil, Result, ok, err, map_err,
  ok_or, to_option, >>=-eq-ok, ℕ, zero, suc, ◌+◌, ◌-◌, ◌*◌, ◌/◌, ◌%◌, ◌^◌, ◌≤◌, ◌<◌, String, ◌≡◌,
  refl, sym, ap, ◌∙◌, subst, ◌≢◌, ◌↔◌, ◌⊎◌, inl, inr, Bool, true, false, ◌&&◌, ◌||◌, not, Option,
  none, some, List, [], ◌∷◌, ◌++◌, map, reverse, append-nil, append_assoc, map-append,
  reverse-append, arith,
}
use backr.Ipc.{IpcRequest, Json}
pub mod Same
pub mod Answered

-- what a call fails with
pub data CallError : Type 0 where
  read_failed : Text → CallError
  closed_early : CallError
  invalid_json : Text → CallError
  daemon_error : Text → CallError
  missing_fields : CallError

module _ {V : Type 0} (json : Json V) (to_string : V → Text) where
  -- `message` of an error, or the whole of it
  unfoldable pub message_of : V → Text
  message_of e = elim (json.get (codes "message") e) [
    | none ↦ to_string e
    | some m ↦ elim (json.as_str m) [ none ↦ to_string e | some t ↦ t ]
  ]

  unfoldable pub extract_result : V → Result V CallError
  extract_result obj = elim (json.get (codes "error") obj) [
    | some e ↦ err (daemon_error (message_of e))
    | none ↦ ok_or (json.get (codes "result") obj) missing_fields
  ]

  unfoldable pub resp_id : V → Text
  resp_id obj = elim (json.get (codes "id") obj) [
    | none ↦ []
    | some v ↦ elim (json.as_str v) [ none ↦ [] | some t ↦ t ]
  ]

  -- the answer to this call, or to a line that the daemon could not read
  unfoldable pub is_answer : Text → V → Bool
  is_answer i obj = eq_text (resp_id obj) i || eq_text (resp_id obj) (codes "null")

  -- The loop of `send_command` over the reads, with the outcome if it ends.
  unfoldable pub send_command : Text → List (Result Text Text) → Option (Result V CallError)
  send_command i [] = none
  send_command i (err e ∷ _) = some (err (read_failed e))
  send_command i (ok line ∷ reads) = elim (is_empty line) [
    | true ↦ some (err closed_early)
    | false ↦ elim (is_empty (trim line)) [
      | true ↦ send_command i reads
      | false ↦ elim (json.from_str (trim line)) [
        | err e ↦ some (err (invalid_json e))
        | ok obj ↦ elim (json.get (codes "event") obj) [
          | some _ ↦ send_command i reads
          | none ↦ elim (is_answer i obj) [
            | true ↦ some (extract_result obj)
            | false ↦ send_command i reads
          ]
        ]
      ]
    ]
  ]

  -- what an event makes `send_command_stream_progress` print
  unfoldable pub printed : Text → V → List Text
  printed event_name obj =
      if eq_text event_name (codes "backup_progress")
      then elim (json.get (codes "data") obj) [
        | none ↦ []
        | some data_ ↦ elim (json.as_str data_) [ none ↦ to_string data_ | some s ↦ s ] ∷ []
      ]
      else []

  -- `obj.get("event").and_then(|v| v.as_str())`
  unfoldable pub event_name_of : V → Option Text
  event_name_of obj = elim (json.get (codes "event") obj) [ none ↦ none | some v ↦ json.as_str v ]

  -- The loop of `send_command_stream_progress`, with what it prints on the way.
  unfoldable pub send_command_stream_progress :
      Text → List (Result Text Text) → List Text × Option (Result V CallError)
  send_command_stream_progress i [] = ([], none)
  send_command_stream_progress i (err e ∷ _) = ([], some (err (read_failed e)))
  send_command_stream_progress i (ok line ∷ reads) =
      let rest = send_command_stream_progress i reads in
      elim (is_empty line) [
        | true ↦ ([], some (err closed_early))
        | false ↦ elim (is_empty (trim line)) [
          | true ↦ rest
          | false ↦ elim (json.from_str (trim line)) [
            | err e ↦ ([], some (err (invalid_json e)))
            | ok obj ↦ elim (event_name_of obj) [
              | some name ↦ (printed name obj ++ rest.0, rest.1)
              | none ↦ elim (is_answer i obj) [
                | true ↦ ([], some (extract_result obj))
                | false ↦ rest
              ]
            ]
          ]
        ]
      ]

  -- The loop of `send_command_blocking` over the lines, which come without their ends and stop with the
  -- stream.
  unfoldable pub send_command_blocking : Text → List (Result Text Text) → Result V CallError
  send_command_blocking i [] = err closed_early
  send_command_blocking i (err e ∷ _) = err (read_failed e)
  send_command_blocking i (ok line ∷ reads) = elim (is_empty (trim line)) [
    | true ↦ send_command_blocking i reads
    | false ↦ elim (json.from_str (trim line)) [
      | err e ↦ err (invalid_json e)
      | ok obj ↦ elim (json.get (codes "event") obj) [
        | some _ ↦ send_command_blocking i reads
        | none ↦ elim (is_answer i obj) [
          | true ↦ extract_result obj
          | false ↦ send_command_blocking i reads
        ]
      ]
    ]
  ]

-- the request of a call
abbrev pub request_of : {Value : Type 0} → Text → Text → Value → IpcRequest Value
request_of i method params = record { id = i; method = method; params = params }
