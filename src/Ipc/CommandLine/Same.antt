-- ===== src/Ipc/CommandLine/Same.antt =====
-- The three clients of the command line compared: they differ in how they read lines and in what they
-- print.
use backr.Base.{
  trim-newline, Result-cases, Bool-cases, Option-cases, All, Text, codes, is_empty, trim, strip_cr,
  is_empty-concat, Result, ok, err, ◌≡◌, refl, inl, inr, Option, none, some, List, [], ◌∷◌, ◌++◌,
  map,
}
use backr.Ipc.{Json}
use backr.Ipc.CommandLine.{
  send_command, send_command_stream_progress, send_command_blocking, event_name_of, is_answer,
}

-- What the two kinds of reader make of the lines of a stream and of its end, or of its failure.
abbrev pub read_line_of : List Text → Option Text → List (Result Text Text)
read_line_of ls failure =
    map (λ l. ok (l ++ 10 ∷ [])) ls ++ elim failure [ none ↦ ok [] ∷ [] | some e ↦ err e ∷ [] ]

abbrev pub lines_of : List Text → Option Text → List (Result Text Text)
lines_of ls failure =
    map (λ l. ok (strip_cr l)) ls ++ elim failure [ none ↦ [] | some e ↦ err e ∷ [] ]

module _ {V : Type 0} (json : Json V) (to_string : V → Text) where
  -- Over the same stream the blocking client gives what the asynchronous one gives, whatever the lines
  -- are and whether the stream ends or fails.
  send_command-blocking :
      (i : Text) (ls : List Text) (failure : Option Text)
      → send_command json to_string i (read_line_of ls failure)
        ≡ some (send_command_blocking json to_string i (lines_of ls failure))
  unfolding send_command send_command_blocking
  send_command-blocking i [] none = refl
  send_command-blocking i [] (some e) = refl
  send_command-blocking i (l ∷ ls) failure = elim (Bool-cases (is_empty (trim (strip_cr l)))) [
    | inl blank ↦
        rw (send_command, is_empty-concat l 10, trim-newline l, send_command_blocking, blank)
          (send_command-blocking i ls failure)
    | inr shown ↦ elim (Result-cases (json.from_str (trim (strip_cr l)))) [
      | inr (e, bad) ↦
          rw
            (
              send_command,
              is_empty-concat l 10,
              trim-newline l,
              send_command_blocking,
              shown,
              trim-newline l,
              bad,
            )
            refl
      | inl (obj, good) ↦ elim (Option-cases (json.get (codes "event") obj)) [
        | inr (tag, tagged) ↦
            rw
              (
                send_command,
                is_empty-concat l 10,
                trim-newline l,
                send_command_blocking,
                shown,
                trim-newline l,
                good,
                tagged,
              )
              (send_command-blocking i ls failure)
        | inl untagged ↦ elim (Bool-cases (is_answer json to_string i obj)) [
          | inl mine ↦
              rw
                (
                  send_command,
                  is_empty-concat l 10,
                  trim-newline l,
                  send_command_blocking,
                  shown,
                  trim-newline l,
                  good,
                  untagged,
                  mine,
                )
                refl
          | inr other ↦
              rw
                (
                  send_command,
                  is_empty-concat l 10,
                  trim-newline l,
                  send_command_blocking,
                  shown,
                  trim-newline l,
                  good,
                  untagged,
                  other,
                )
                (send_command-blocking i ls failure)
        ]
      ]
    ]
  ]

  -- A line that parses has a text under the key of events, if it has the key.
  unfoldable pub TagIsText : Result Text Text → Type 0
  TagIsText (err _) = Unit
  TagIsText (ok line) =
      (obj tag : V)
      → json.from_str (trim line) ≡ ok obj
      → json.get (codes "event") obj ≡ some tag
      → (name : Text) × (json.as_str tag ≡ some name)

  -- The client that prints progress gives what the other gives, where the tag of every event is a text.
  send_command-stream_progress :
      (i : Text) (reads : List (Result Text Text))
      → All TagIsText reads
      → (send_command_stream_progress json to_string i reads).1
        ≡ send_command json to_string i reads
  unfolding send_command send_command_stream_progress event_name_of TagIsText
  send_command-stream_progress i [] h = refl
  send_command-stream_progress i (err e ∷ reads) h = refl
  send_command-stream_progress i (ok line ∷ reads) (h, hs) = elim (Bool-cases (is_empty line)) [
    | inl stop ↦ rw (send_command_stream_progress, send_command, stop) refl
    | inr more ↦ elim (Bool-cases (is_empty (trim line))) [
      | inl blank ↦
          rw (send_command_stream_progress, send_command, event_name_of, more, blank)
            (send_command-stream_progress i reads hs)
      | inr shown ↦ elim (Result-cases (json.from_str (trim line))) [
        | inr (e, bad) ↦
            rw (send_command_stream_progress, send_command, event_name_of, more, shown, bad) refl
        | inl (obj, good) ↦ elim (Option-cases (json.get (codes "event") obj)) [
          | inr (tag, tagged) ↦
              let (name, named) = h obj tag good tagged in
              rw
                (
                  send_command_stream_progress, send_command, event_name_of, more, shown, good,
                  tagged, named,
                )
                (send_command-stream_progress i reads hs)
          | inl untagged ↦ elim (Bool-cases (is_answer json to_string i obj)) [
            | inl mine ↦
                rw
                  (
                    send_command_stream_progress, send_command, event_name_of, more, shown, good,
                    untagged, mine,
                  )
                  refl
            | inr other ↦
                rw
                  (
                    send_command_stream_progress, send_command, event_name_of, more, shown, good,
                    untagged, other,
                  )
                  (send_command-stream_progress i reads hs)
          ]
        ]
      ]
    ]
  ]
