-- ===== src/Pairing/Listener/Window.antt =====
-- The step that one request of a pairing window takes.
pub mod Loop
use backr.Base.{
  Bool-eq, Result-cases, All-lines, lines-lack_newline, ap₂, trim_idem, trim-strip_cr,
  strip_cr_of_lacks, All-trim, All-trim_start_by, All-trim_end_by, lines-append, lines_line,
  map-trim-lines-finish, strip_prefix, splitn_from, splitn, ends_with_char, split-nil,
  split-cons_sep, ltb, leb, ◌==◌, if◌then◌else◌, ==_iff, ==_self, Bool-cases, Option-cases, length,
  take, head?, any, filter, length-append, length-filter, filter-append, All, All-append,
  All-append_iff, All-map, All-filter, Text, codes, eq_text, is_empty, contains_char, starts_with,
  contains, is_whitespace, trim_start_by, trim_end_by, trim, split_from, split, join, replace_char,
  strip_cr, lines_from, lines, is_digit, digits_from, parse_uint, eq_text→≡, eq_text_self,
  eq_text_iff, contains_char-eq-false_iff, split_from-append, split-append, split_from_of_lacks,
  trim_end_by_parts, trim_start_by_parts, trim_start_by-cons, trim_end_by-concat, is_empty-concat,
  ne_of_eq_text, eq_text_of_ne, ne_nil_of_is_empty, is_empty_of_ne_nil, Result, ok, err, map_err,
  ok_or, to_option, >>=-eq-ok, ℕ, zero, suc, ◌+◌, ◌-◌, ◌*◌, ◌/◌, ◌%◌, ◌^◌, ◌≤◌, ◌<◌, String, ◌≡◌,
  refl, sym, ap, ◌∙◌, subst, ◌≢◌, ◌↔◌, ◌⊎◌, inl, inr, Bool, true, false, ◌&&◌, ◌||◌, not, Option,
  none, some, List, [], ◌∷◌, ◌++◌, map, reverse, append-nil, append_assoc, map-append,
  reverse-append, arith,
}
use backr.Base.Results.{◌>>=◌}
use backr.Trust.Keys.{RegexClasses, PubkeyError}
use backr.Pairing.Bits.{as_bytes}
use backr.Pairing.Code.{
  CodeValidation, valid, invalid, locked, already_used, PairingSession, validate, constant_time_eq,
}
use backr.Pairing.Code.Attempts.{Attempt, used, spent, opened, refused, validate-Attempt}
use backr.Pairing.Listener.{
  PairRequest, HostPairInfo, PairRejection, bad_code, bad_pubkey, append_failed, PairingState,
  Request, Response, pair_line, trust, process_pair, process_pair_request, respond, handle_request,
  close_window, serve,
}

module _ (re : RegexClasses) {S E : Type 0} (append : Text → S → S × Result (Unit {0}) E)
    (from_json : Text → Option PairRequest) (to_json : HostPairInfo → Text)
    (host : HostPairInfo) where
  -- The pair request that a request carries.
  abbrev pub Asks : Request → PairRequest → Type 0
  Asks request req =
      (request.is_post ≡ true)
      × (eq_text request.url (codes "/pair") ≡ true)
      × (body : Text) × (request.body ≡ some body)
      × (from_json body ≡ some req)

  -- A request to trust `line` with the right code for `session`.
  pub record Rightful (session : PairingSession) (req : PairRequest) (line : Text) : Type 0 where
    pub key : pair_line re append req.pubkey ≡ ok line
    pub code : constant_time_eq (as_bytes req.code) (as_bytes session.code) ≡ true

  -- What one pair request does to the open session and to the store.
  pub data Pair (session : PairingSession) (req : PairRequest) (store : S)
      : (PairingSession × S) × Result HostPairInfo (PairRejection E) → Type 0 where
    unread : (e : PubkeyError) → Pair session req store ((session, store), err (bad_pubkey e))
    denied :
        (v : CodeValidation)
        → (session' : PairingSession) → session'.code ≡ session.code
        → session'.consumed ≡ session.consumed
        → Pair session req store ((session', store), err (bad_code v))
    trusted :
        (line : Text)
        → Rightful session req line
        → session.consumed ≡ false
        → Pair session req store
            (trust re append (record session { consumed = true }) line host store)

  process_pair-Pair :
      (session : PairingSession) (req : PairRequest) (store : S)
      → Pair session req store (process_pair re append session req host store)
  unfolding process_pair
  process_pair-Pair session req store = elim (Result-cases (pair_line re append req.pubkey)) [
    | inr (e, bad) ↦ rw (process_pair, bad) (unread e)
    | inl (line, good) ↦
        rw (process_pair, good)
          (go line good (validate req.code session) refl (validate-Attempt req.code session))
  ]
    where
      go :
          (line : Text)
          → pair_line re append req.pubkey ≡ ok line
          → (r : PairingSession × CodeValidation) → validate req.code session ≡ r
          → Attempt req.code session r
          → Pair session req store (
              let (session', v) = r in
              elim v [
                | valid ↦ trust re append session' line host store
                | invalid k ↦ ((session', store), err (bad_code (invalid k)))
                | locked ↦ ((session', store), err (bad_code locked))
                | already_used ↦ ((session', store), err (bad_code already_used))
              ])
      go line good _ e (used h) = denied already_used session refl refl
      go line good _ e (spent h) = denied locked session refl refl
      go line good _ e (opened h right) = trusted line (record { key = good; code = right }) h
      go line good _ e (refused k h) = denied (invalid k) _ refl refl

  abbrev pub status_of : Response × Bool → ℕ
  status_of (r, _) = r.status

  -- What one HTTP request does to the daemon's state.
  pub data Step (request : Request) (s : PairingState S)
      : PairingState S × (Response × Bool) → Type 0 where
    -- nothing is touched
    idle : (r : Response) → r.status ≢ 200 → Step request s (s, (r, false))
    -- an attempt is charged, and nothing is trusted
    charged :
        (session session' : PairingSession)
        → s.pairing ≡ some session
        → session'.code ≡ session.code
        → session'.consumed ≡ session.consumed
        → (r : Response) → r.status ≢ 200
        → Step request s (record s { pairing = some session' }, (r, false))
    -- the code is spent, and the key is handed to the store
    spends :
        (session : PairingSession) (req : PairRequest) (line : Text)
        → s.pairing ≡ some session
        → session.consumed ≡ false
        → Asks request req
        → Rightful session req line
        → (r : Response) (paired : Bool) → (paired ≡ true) ↔ (r.status ≡ 200)
        → (paired ≡ true) ↔ ((append line s.store).1 ≡ ok tt)
        → Step request s (
          record s {
            pairing = some (record session { consumed = true });
            store = (append line s.store).0;
          },
          (r, paired),
        )

  status-ne : (n : ℕ) → (n == 200) ≡ false → n ≢ 200
  status-ne n h e = ground arith

  answer : Result HostPairInfo (PairRejection E) → Response × Bool
  answer r = respond re append from_json to_json (map_err some r)

  spends-Step :
      (request : Request) (req : PairRequest) (s : PairingState S) (session : PairingSession)
      (line : Text)
      → s.pairing ≡ some session
      → Asks request req
      → session.consumed ≡ false
      → Rightful session req line
      → (let ((session', store'), r) =
            trust re append (record session { consumed = true }) line host s.store in
          Step request s (record s { pairing = some session'; store = store' }, answer r))
  unfolding trust answer respond
  spends-Step request req s session line open_session asks fresh right =
      go (append line s.store).1 refl
    where
      go :
          (r : Result (Unit {0}) E)
          → (append line s.store).1 ≡ r
          → Step request s (
            record s {
              pairing = some (record session { consumed = true });
              store = (append line s.store).0;
            },
            answer (map_err append_failed r >>= λ _. ok host),
          )
      go (ok tt) e =
          spends session req line open_session fresh asks right _ true (λ _. refl, λ _. refl)
            (λ _. e, λ _. refl)
      go (err x) e =
          spends session req line open_session fresh asks right _ false
            (λ h. cc, λ h. absurd (status-ne 500 refl h)) (λ h. cc, λ h. cc)

  pair-Step :
      (request : Request) (req : PairRequest) (s : PairingState S) (session : PairingSession)
      → s.pairing ≡ some session
      → Asks request req
      → (let ((session', store'), r) = process_pair re append session req host s.store in
          Step request s (record s { pairing = some session'; store = store' }, answer r))
  unfolding answer respond
  pair-Step request req s session open_session asks =
      go (process_pair re append session req host s.store) (process_pair-Pair session req s.store)
    where
      go :
          (p : (PairingSession × S) × Result HostPairInfo (PairRejection E))
          → Pair session req s.store p
          → Step request s (record s { pairing = some p.0.0; store = p.0.1 }, answer p.1)
      go _ (unread e) = charged session session open_session refl refl _ (status-ne 400 refl)
      go _ (denied v session' same still) =
          charged session session' open_session same still _ (status-ne 403 refl)
      go _ (trusted line right fresh) =
          spends-Step request req s session line open_session asks fresh right

  request-Step :
      (request : Request) (req : PairRequest) (s : PairingState S)
      → Asks request req
      → Step request s (
          let (s', r) = process_pair_request re append req host s in
          (s', respond re append from_json to_json r))
  unfolding process_pair_request respond answer
  request-Step request req s asks = elim (Option-cases s.pairing) [
    | inl shut ↦ simp (process_pair_request, shut) (idle _ (status-ne 409 refl))
    | inr (session, open_session) ↦
        simp (process_pair_request, open_session)
          (pair-Step request req s session open_session asks)
  ]

  pub handle_request-Step :
      (request : Request) (s : PairingState S)
      → Step request s (handle_request re append from_json to_json host request s)
  unfolding handle_request
  handle_request-Step request s = elim (Bool-cases request.is_post) [
    | inr other ↦ simp (handle_request, other) (idle _ (status-ne 404 refl))
    | inl post ↦ elim (Bool-cases (eq_text request.url (codes "/pair"))) [
      | inr other ↦ simp (handle_request, post, other) (idle _ (status-ne 404 refl))
      | inl pair ↦ elim (Option-cases request.body) [
        | inl torn ↦ simp (handle_request, post, pair, torn) (idle _ (status-ne 400 refl))
        | inr (body, read) ↦ elim (Option-cases (from_json body)) [
          | inl other ↦ simp (handle_request, post, pair, read, other) (idle _ (status-ne 400 refl))
          | inr (req, json) ↦
              simp (handle_request, post, pair, read, json)
                (request-Step request req s (post, pair, body, read, json))
        ]
      ]
    ]
  ]
