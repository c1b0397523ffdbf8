-- ===== src/Trust/File.antt =====
-- host_trust.rs: reading, appending to and removing from authorized_keys.
use backr.Base.{
  splitn, ends_with_char, if◌then◌else◌, head?, any, filter, Text, codes, eq_text, is_empty,
  starts_with, trim, join, lines, Result, ok, err, ℕ, zero, suc, ◌%◌, ◌^◌, String, Bool, true,
  false, ◌&&◌, ◌||◌, not, Option, none, some, List, [], ◌∷◌, ◌++◌,
}
use backr.Base.Results.{◌>>=◌}
use backr.Trust.Keys.{
  RegexClasses, PubkeyError, normalize_pubkey_line, validate_pubkey_line, is_ok, count_pubkey_lines,
}
use backr.Trust.Quote.{build_sudo_append_snippet}

-- What the machine answers during one call. The file itself is the state: `none` if there is none.
pub record HostEnv : Type 0 where
  pub re : RegexClasses
  -- `authorized_keys_path`: the account and its home, from the marker and `getent`
  pub located : Result (Text × Text) Text
  -- `read_to_string` of an existing file
  pub readable : Bool
  -- opening the file for appending
  pub appendable : Bool
  -- how many `write_all` calls succeed, and what a failing one leaves in the file
  pub writes : ℕ
  pub torn : Text → Text
  -- replacing the file by `fs::write`
  pub replaceable : Bool
  -- `sudo -n /bin/cat`
  pub sudo_cat : Option Text → Option Text
  -- the privileged helper, given the line: the file afterwards, or a failure
  pub helper : Option Text → Text → Option (Option Text)

pub data TrustError : Type 0 where
  bad_line : PubkeyError → TrustError
  no_account : Text → TrustError
  io : TrustError
  cannot_write : TrustError

pub record AppendResult : Type 0 where
  pub appended : Bool
  pub skipped_duplicate : Bool
  pub pubkey_line_count : ℕ
  pub sudo_script : Option Text
  pub message : String

pub record PubkeyEntry : Type 0 where
  pub key_type : Text
  pub key_b64 : Text
  pub comment : Text
  pub raw_line : Text

abbrev pub or_empty : Option Text → Text
or_empty none = []
or_empty (some content) = content

abbrev pub is_nil : List Text → Bool
is_nil [] = true
is_nil (_ ∷ _) = false

pub record RemoveResult : Type 0 where
  pub removed : Bool
  pub pubkey_line_count : ℕ

module _ (env : HostEnv) where
  -- `read_to_string`, if there is a file
  abbrev pub read : Option Text → Result Text TrustError
  read none = err io
  read (some content) = if env.readable then ok content else err io

  -- a direct read, then `sudo -n /bin/cat`, else 0
  unfoldable pub count_trusted_keys : Option Text → ℕ
  count_trusted_keys file = elim (read file) [
    | ok content ↦ count_pubkey_lines env.re content
    | err _ ↦ elim (env.sudo_cat file) [
      | none ↦ 0
      | some content ↦ count_pubkey_lines env.re content
    ]
  ]

  -- the `write_all` calls in turn; the first that fails ends the call
  unfoldable pub write_pieces : List Text → Text → ℕ → Text × Bool
  write_pieces [] content k = (content, true)
  write_pieces (p ∷ ps) content zero = (content ++ env.torn p, false)
  write_pieces (p ∷ ps) content (suc k) = write_pieces ps (content ++ p) k

  -- a newline, if the last line is unfinished, the key, and a newline
  unfoldable pub pieces : Text → Text → List Text
  pieces existing line =
      if not (is_empty existing) && not (ends_with_char 10 existing)
      then (10 ∷ []) ∷ line ∷ (10 ∷ []) ∷ []
      else line ∷ (10 ∷ []) ∷ []

  -- `existing.lines().any(…)`
  unfoldable pub is_present : Text → Text → Bool
  is_present existing line =
      any (λ l. is_ok (validate_pubkey_line env.re (trim l)) && eq_text (trim l) line)
        (lines existing)

  -- the branch where the file opens
  unfoldable pub append_direct : Text → Text → Option Text × Result AppendResult TrustError
  append_direct existing line =
      let (content, done) = write_pieces (pieces existing line) existing env.writes in
      (
        some content,
        (if done
            then ok (record {
              appended = true;
              skipped_duplicate = false;
              pubkey_line_count = count_pubkey_lines env.re content;
              sudo_script = none;
              message = "Public key added to authorized_keys.";
            })
            else err io),
      )

  -- the branch where it does not: the privileged helper, else the commands to run by hand
  unfoldable pub append_escalated :
      Text × Text → Option Text → Text → Option Text × Result AppendResult TrustError
  append_escalated (user, home) file line = elim (env.helper file line) [
    | some file' ↦ (
      file',
      ok (record {
        appended = true;
        skipped_duplicate = false;
        pubkey_line_count = count_trusted_keys file';
        sudo_script = none;
        message = "Public key added to authorized_keys (via privileged helper).";
      }),
    )
    | none ↦ (
      file,
      ok (record {
        appended = false;
        skipped_duplicate = false;
        pubkey_line_count = count_trusted_keys file;
        sudo_script = some (build_sudo_append_snippet user line home);
        message = "Cannot write authorized_keys as this user — run the sudo commands below.";
      }),
    )
  ]

  unfoldable pub append_checked :
      Text × Text → Option Text → Text → Text → Option Text × Result AppendResult TrustError
  append_checked account file existing line =
      if is_present existing line
      then (
        file,
        ok (record {
          appended = false;
          skipped_duplicate = true;
          pubkey_line_count = count_pubkey_lines env.re existing;
          sudo_script = none;
          message = "That public key is already present.";
        }),
      )
      else if env.appendable
      then append_direct existing line
      else append_escalated account file line

  -- the line that a caller gave, normalised and recognised
  unfoldable pub accepted_line : Text → Result Text PubkeyError
  accepted_line raw = do
    line ← normalize_pubkey_line raw
    validate_pubkey_line env.re line >>= λ _. ok line

  -- `String::new()` where there is no file
  abbrev pub existing_of : Option Text → Result Text TrustError
  existing_of none = ok []
  existing_of (some content) = read (some content)

  unfoldable pub host_append_authorized_pubkey :
      Text → Option Text → Option Text × Result AppendResult TrustError
  host_append_authorized_pubkey raw file = elim (accepted_line raw) [
    | err e ↦ (file, err (bad_line e))
    | ok line ↦ elim env.located [
      | err e ↦ (file, err (no_account e))
      | ok account ↦ elim (existing_of file) [
        | err e ↦ (file, err e)
        | ok existing ↦ append_checked account file existing line
      ]
    ]
  ]

  -- an append that wrote nothing and skipped nothing is a failure
  abbrev definite : Result AppendResult TrustError → Result (Unit {0}) TrustError
  definite (err e) = err e
  definite (ok r) = if r.appended || r.skipped_duplicate then ok tt else err cannot_write

  unfoldable pub append_pubkey_for_pairing :
      Text → Option Text → Option Text × Result (Unit {0}) TrustError
  append_pubkey_for_pairing line file =
      let (file', r) = host_append_authorized_pubkey line file in (file', definite r)

  -- one line of `parse_pubkey_entries`
  unfoldable pub entry_of : Text → Option PubkeyEntry
  entry_of l =
      let t = trim l in
      if is_empty t || starts_with (codes "#") t
      then none
      else if not (is_ok (validate_pubkey_line env.re t))
      then none
      else elim (splitn 3 b' ' t) [
        | [] ↦ none
        | key_type ∷ rest ↦ elim rest [
          | [] ↦ none
          | key_b64 ∷ rest' ↦ some (record {
            key_type = key_type;
            key_b64 = key_b64;
            comment = trim (or_empty (head? rest'));
            raw_line = t;
          })
        ]
      ]

  -- `filter_map` over the lines
  unfoldable pub entries_of : List Text → List PubkeyEntry
  entries_of [] = []
  entries_of (l ∷ ls) =
      let rest = entries_of ls in elim (entry_of l) [ none ↦ rest | some e ↦ e ∷ rest ]

  abbrev pub parse_pubkey_entries : Text → List PubkeyEntry
  parse_pubkey_entries content = entries_of (lines content)

  unfoldable pub host_list_authorized_pubkeys : Option Text → Result (List PubkeyEntry) TrustError
  host_list_authorized_pubkeys file = elim env.located [
    | err e ↦ err (no_account e)
    | ok _ ↦ elim (existing_of file) [
      | err e ↦ err e
      | ok content ↦ ok (parse_pubkey_entries content)
    ]
  ]

  unfoldable pub without_line : Text → Text → List Text
  without_line target content = filter (λ l. not (eq_text (trim l) target)) (lines content)

  -- `kept.join("\n")`, with a newline behind the last line if there is a text
  unfoldable pub rebuilt : List Text → Text
  rebuilt kept = let t = join (10 ∷ []) kept in if is_empty t then [] else t ++ 10 ∷ []

  -- `as u32`
  abbrev as_u32 : ℕ → ℕ
  as_u32 n = n % 2 ^ 32

  unfoldable pub remove_from : Text → Text → Option Text × Result RemoveResult TrustError
  remove_from target content =
      let kept = without_line target content in
      let removed = filter (λ l. eq_text (trim l) target) (lines content) in
      let next = rebuilt kept in
      if is_nil removed
      then (
        some content,
        ok (record {
          removed = false;
          pubkey_line_count = as_u32 (count_pubkey_lines env.re content);
        }),
      )
      else if env.replaceable
      then (
        some next,
        ok (record { removed = true; pubkey_line_count = as_u32 (count_pubkey_lines env.re next) }),
      )
      else (some (env.torn next), err io)

  unfoldable pub host_remove_authorized_pubkey :
      Text → Option Text → Option Text × Result RemoveResult TrustError
  host_remove_authorized_pubkey raw_line file = elim env.located [
    | err e ↦ (file, err (no_account e))
    | ok _ ↦ elim file [
      | none ↦ (none, ok (record { removed = false; pubkey_line_count = 0 }))
      | some content ↦ elim (read (some content)) [
        | err e ↦ (some content, err e)
        | ok existing ↦ remove_from (trim raw_line) existing
      ]
    ]
  ]
