-- ===== src/Pairing/Listener.antt =====
-- pairing/listener.rs, with the state access of backrd's daemon_state.rs: one request of a pairing
-- window, and the loop that serves a window. Trusting a key is a step on a store of its own, which the
-- callers choose; the HTTP and JSON libraries are parameters.
use backr.Base.{
  Bool-eq, Result-cases, All-lines, lines-lack_newline, ap₂, trim_idem, trim-strip_cr,
  strip_cr_of_lacks, All-trim, All-trim_start_by, All-trim_end_by, lines-append, lines_line,
  map-trim-lines-finish, strip_prefix, splitn_from, splitn, ends_with_char, split-nil,
  split-cons_sep, ltb, leb, ◌==◌, if◌then◌else◌, ==_iff, ==_self, Bool-cases, Option-cases, length,
  take, head?, any, filter, length-append, length-filter, filter-append, All, All-append,
  All-append_iff, All-map, All-filter, Text, codes, eq_text, is_empty, contains_char, starts_with,
  contains, is_whitespace, trim_start_by, trim_end_by, trim, split_from, split, join, replace_char,
  strip_cr, lines_from, lines, is_digit, digits_from, parse_uint, eq_text→≡, eq_text_self,
  eq_text_iff, contains_char-eq-false_iff, split_from-append, split-append, split_from_of_lacks,
  trim_end_by_parts, trim_start_by_parts, trim_start_by-cons, trim_end_by-concat, is_empty-concat,
  ne_of_eq_text, eq_text_of_ne, ne_nil_of_is_empty, is_empty_of_ne_nil, Result, ok, err, map_err,
  ok_or, to_option, >>=-eq-ok, ℕ, zero, suc, ◌+◌, ◌-◌, ◌*◌, ◌/◌, ◌%◌, ◌^◌, ◌≤◌, ◌<◌, String, ◌≡◌,
  refl, sym, ap, ◌∙◌, subst, ◌≢◌, ◌↔◌, ◌⊎◌, inl, inr, Bool, true, false, ◌&&◌, ◌||◌, not, Option,
  none, some, List, [], ◌∷◌, ◌++◌, map, reverse, append-nil, append_assoc, map-append,
  reverse-append, arith,
}
use backr.Base.Results.{◌>>=◌}
use backr.Trust.Keys.{RegexClasses, PubkeyError, normalize_pubkey_line, validate_pubkey_line}
use backr.Pairing.Code.{
  CodeValidation, valid, invalid, locked, already_used, PairingSession, validate,
}
pub mod Window

pub record PairRequest : Type 0 where
  pub pubkey : Text
  pub code : Text

pub record HostPairInfo : Type 0 where
  pub ssh_user : Text
  pub ssh_port : ℕ
  pub backup_root : Text
  pub host_key_fingerprint : Text
  pub host_pubkey : Text
  pub hostname : Text

pub data PairRejection (E : Type 0) : Type 0 where
  bad_code : CodeValidation → PairRejection E
  bad_pubkey : PubkeyError → PairRejection E
  append_failed : E → PairRejection E

-- The two slots of the daemon's state, and the store of trusted keys.
pub record PairingState (S : Type 0) : Type 0 where
  pub pairing : Option PairingSession
  pub pairing_runtime : Bool
  pub store : S

-- A request as the HTTP library gives it: `none` for a body that is not read.
pub record Request : Type 0 where
  pub is_post : Bool
  pub url : Text
  pub body : Option Text

pub record Response : Type 0 where
  pub status : ℕ
  pub text : Text

-- what a successful pair leaves: no runtime, no session
abbrev pub close_window : {S : Type 0} → PairingState S → PairingState S
close_window s = record s { pairing = none; pairing_runtime = false }

module _ (re : RegexClasses) {S E : Type 0} (append : Text → S → S × Result (Unit {0}) E) where
  -- the public key, normalised and recognised
  unfoldable pub pair_line : Text → Result Text PubkeyError
  pair_line pubkey = normalize_pubkey_line pubkey >>= λ l. validate_pubkey_line re l >>= λ _. ok l

  -- once the code is right
  unfoldable pub trust :
      PairingSession
      → Text
      → HostPairInfo
      → S
      → (PairingSession × S) × Result HostPairInfo (PairRejection E)
  trust session line host store =
      let (store', r) = append line store in
      ((session, store'), map_err append_failed r >>= λ _. ok host)

  unfoldable pub process_pair :
      PairingSession
      → PairRequest
      → HostPairInfo
      → S
      → (PairingSession × S) × Result HostPairInfo (PairRejection E)
  process_pair session req host store = elim (pair_line req.pubkey) [
    | err e ↦ ((session, store), err (bad_pubkey e))
    | ok line ↦
        let (session', v) = validate req.code session in
        elim v [
          | valid ↦ trust session' line host store
          | invalid k ↦ ((session', store), err (bad_code (invalid k)))
          | locked ↦ ((session', store), err (bad_code locked))
          | already_used ↦ ((session', store), err (bad_code already_used))
        ]
  ]

  abbrev map_some :
      Result HostPairInfo (PairRejection E) → Result HostPairInfo (Option (PairRejection E))
  map_some r = map_err some r

  unfoldable pub process_pair_request :
      PairRequest
      → HostPairInfo
      → PairingState S
      → PairingState S × Result HostPairInfo (Option (PairRejection E))
  process_pair_request req host s = elim s.pairing [
    | none ↦ (s, err none)
    | some session ↦
        let ((session', store'), r) = process_pair session req host s.store in
        (record s { pairing = some session'; store = store' }, map_some r)
  ]

  module _ (from_json : Text → Option PairRequest) (to_json : HostPairInfo → Text) where
    -- the answer to a pair request, and whether the window ends
    unfoldable pub respond : Result HostPairInfo (Option (PairRejection E)) → Response × Bool
    respond (ok info) = (record { status = 200; text = to_json info }, true)
    respond (err (some (bad_code _))) =
        (record { status = 403; text = codes "invalid or expired code" }, false)
    respond (err (some (bad_pubkey _))) =
        (record { status = 400; text = codes "invalid public key" }, false)
    respond (err (some (append_failed _))) =
        (record { status = 500; text = codes "could not trust key" }, false)
    respond (err none) = (record { status = 409; text = codes "no active pairing" }, false)

    unfoldable pub handle_request :
        HostPairInfo → Request → PairingState S → PairingState S × (Response × Bool)
    handle_request host request s =
        if not request.is_post || not (eq_text request.url (codes "/pair"))
        then (s, (record { status = 404; text = codes "not found" }, false))
        else elim request.body [
          | none ↦ (s, (record { status = 400; text = codes "bad body" }, false))
          | some body ↦ elim (from_json body) [
            | none ↦ (s, (record { status = 400; text = codes "bad json" }, false))
            | some req ↦ let (s', r) = process_pair_request req host s in (s', respond r)
          ]
        ]

    -- the loop over the incoming requests, up to a successful pair
    unfoldable pub serve :
        HostPairInfo → List Request → PairingState S → PairingState S × List Response
    serve host [] s = (s, [])
    serve host (request ∷ requests) s =
        let (s', (response, paired)) = handle_request host request s in
        let (s'', responses) = serve host requests s' in
        if paired then (close_window s', response ∷ []) else (s'', response ∷ responses)
