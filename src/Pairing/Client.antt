-- ===== src/Pairing/Client.antt =====
-- pairing/client.rs: the request to a host, the draft of a configuration, and the pinned host key.
-- The key pair and the HTTP exchange are arguments.
use backr.Base.{
  Bool-eq, Result-cases, All-lines, lines-lack_newline, ap₂, trim_idem, trim-strip_cr,
  strip_cr_of_lacks, All-trim, All-trim_start_by, All-trim_end_by, lines-append, lines_line,
  map-trim-lines-finish, strip_prefix, splitn_from, splitn, ends_with_char, split-nil,
  split-cons_sep, ltb, leb, ◌==◌, if◌then◌else◌, ==_iff, ==_self, Bool-cases, Option-cases, length,
  take, head?, any, filter, length-append, length-filter, filter-append, All, All-append,
  All-append_iff, All-map, All-filter, Text, codes, eq_text, is_empty, contains_char, starts_with,
  contains, is_whitespace, trim_start_by, trim_end_by, trim, split_from, split, join, replace_char,
  strip_cr, lines_from, lines, is_digit, digits_from, parse_uint, eq_text→≡, eq_text_self,
  eq_text_iff, contains_char-eq-false_iff, split_from-append, split-append, split_from_of_lacks,
  trim_end_by_parts, trim_start_by_parts, trim_start_by-cons, trim_end_by-concat, is_empty-concat,
  ne_of_eq_text, eq_text_of_ne, ne_nil_of_is_empty, is_empty_of_ne_nil, Result, ok, err, map_err,
  ok_or, to_option, >>=-eq-ok, ℕ, zero, suc, ◌+◌, ◌-◌, ◌*◌, ◌/◌, ◌%◌, ◌^◌, ◌≤◌, ◌<◌, String, ◌≡◌,
  refl, sym, ap, ◌∙◌, subst, ◌≢◌, ◌↔◌, ◌⊎◌, inl, inr, Bool, true, false, ◌&&◌, ◌||◌, not, Option,
  none, some, List, [], ◌∷◌, ◌++◌, map, reverse, append-nil, append_assoc, map-append,
  reverse-append, arith,
}
use backr.Base.Results.{◌>>=◌}
use backr.Daemon.State.{RemoteConfig, Config}
pub mod Pinned
pub mod Drafted

pub record PairReply : Type 0 where
  pub ssh_user : Text
  pub ssh_port : ℕ
  pub backup_root : Text
  pub host_pubkey : Text
  pub host_key_fingerprint : Text

pub record PairDraft : Type 0 where
  pub config : Config
  pub host_key_fingerprint : Text
  pub host_pubkey : Text
  pub ssh_target : Text

pub data PairError : Type 0 where
  local_failure : Text → PairError
  rejected_key : PairError
  wrong_code : PairError
  not_pairing : PairError
  rejected : ℕ → PairError
  bad_reply : Text → PairError

-- What `pair_with_host` finds outside of it.
pub record PairWorld : Type 0 where
  pub ensure_ssh_key : Result Text PairError
  pub ssh_key_path : Result Text PairError
  pub default_projects_path : Text
  pub request_body : Text → Text → Text
  pub http_post_json : Text → Text → Text → Result (ℕ × Text) PairError
  pub from_json : Text → Result PairReply PairError

-- the match on the status
unfoldable pub check_status : ℕ → Result (Unit {0}) PairError
check_status status =
    if status == 200
    then ok tt
    else if status == 400
    then err rejected_key
    else if status == 403
    then err wrong_code
    else if status == 409
    then err not_pairing
    else err (rejected status)

-- `address.split(':').next().unwrap_or(address)`
unfoldable pub target_of : Text → Text
target_of address = elim (split b':' address) [ [] ↦ address | part ∷ _ ↦ part ]

abbrev pub draft_of : Text → Text → Text → PairReply → PairDraft
draft_of address key_path projects reply = record {
  config = record {
    version = 1;
    remote = record {
      host = target_of address;
      user = reply.ssh_user;
      ssh_key = key_path;
      port = reply.ssh_port;
      backup_path = reply.backup_root;
    };
    projects_path = projects;
    interval_hours = 3;
    last_backup_at = none;
    auto_update = false;
  };
  host_key_fingerprint = reply.host_key_fingerprint;
  host_pubkey = reply.host_pubkey;
  ssh_target = target_of address;
}

unfoldable pub pair_with_host : PairWorld → Text → Text → Result PairDraft PairError
pair_with_host w address code = do
  pubkey ← w.ensure_ssh_key
  key_path ← w.ssh_key_path
  (status, body) ← w.http_post_json address (codes "/pair") (w.request_body pubkey code)
  _ ← check_status status
  reply ← w.from_json body
  ok (draft_of address key_path w.default_projects_path reply)

-- The failures that a call on the file of known hosts can meet; a torn write leaves a part of the line.
pub record PinFaults : Type 0 where
  pub located : Result (Unit {0}) Text
  pub unreadable : Bool
  pub opening : Option Text
  pub writing : Option (Text × ℕ)

abbrev pub entry_of : Text → Text → Text
entry_of host pubkey = host ++ b' ' ∷ pubkey

-- the text of a file that may be absent
abbrev pub content : Option Text → Text
content file = elim file [ none ↦ [] | some text ↦ text ]

abbrev pub holds_entry : Text → Text → Bool
holds_entry entry text = any (λ l. eq_text (trim l) entry) (lines text)

-- opening the file to append, and writing the line
unfoldable pub append_entry : PinFaults → Text → Option Text → Option Text × Result (Unit {0}) Text
append_entry f entry file = elim f.opening [
  | some e ↦ (file, err e)
  | none ↦ elim f.writing [
    | none ↦ (some (content file ++ (entry ++ 10 ∷ [])), ok tt)
    | some (e, n) ↦ (some (content file ++ take n (entry ++ 10 ∷ [])), err e)
  ]
]

unfoldable pub pin_known_host :
    PinFaults → Text → Text → Option Text → Option Text × Result (Unit {0}) Text
pin_known_host f host pubkey file = elim f.located [
  | err e ↦ (file, err e)
  | ok _ ↦
      if holds_entry (entry_of host pubkey) (if f.unreadable then [] else content file)
      then (file, ok tt)
      else append_entry f (entry_of host pubkey) file
]

unfoldable pub confirm_pair_draft :
    PinFaults → PairDraft → Option Text → Option Text × Result Config Text
confirm_pair_draft f draft file =
    if is_empty (trim draft.host_pubkey)
    then (file, ok draft.config)
    else (let (file', r) = pin_known_host f draft.ssh_target (trim draft.host_pubkey) file in
        (file', elim r [ ok _ ↦ ok draft.config | err e ↦ err e ]))
