-- ===== src/Pairing/Listener/Window/Loop.antt =====
-- What the loop of a pairing window can do.
use backr.Base.{
  ◌==◌, if◌then◌else◌, ==_iff, Bool-cases, any, Text, Result, ok, ℕ, ◌≡◌, refl, sym, ap, ◌∙◌, subst,
  ◌≢◌, ◌↔◌, ◌⊎◌, inl, inr, Bool, true, false, Option, none, some, List, [], ◌∷◌,
}
use backr.Trust.Keys.{RegexClasses}
use backr.Pairing.Bits.{as_bytes}
use backr.Pairing.Code.{PairingSession, constant_time_eq}
use backr.Pairing.Listener.{
  PairRequest, HostPairInfo, PairingState, Request, Response, close_window, handle_request, serve,
}
use backr.Pairing.Listener.Window.{Asks, Rightful, Step, idle, charged, spends, handle_request-Step}

false-ne-true : false ≢ true
false-ne-true e = cc

abbrev pub is_success : Response → Bool
is_success r = r.status == 200

module _ (re : RegexClasses) {S E : Type 0} (append : Text → S → S × Result (Unit {0}) E)
    (from_json : Text → Option PairRequest) (to_json : HostPairInfo → Text)
    (host : HostPairInfo) where
  abbrev run : List Request → PairingState S → PairingState S × List Response
  run requests s = serve re append from_json to_json host requests s

  -- One of the requests asks for it.
  abbrev pub Sent : List Request → PairRequest → Type 0
  Sent [] req = ⊥
  Sent (request ∷ requests) req =
      Asks re append from_json to_json host request req ⊎ Sent requests req

  -- A window that still has its session.
  abbrev pub Held : PairingState S → Type 0
  Held s = (session : PairingSession) × (s.pairing ≡ some session)

  -- The key that a window handed to the store, once, on a right code that one of its requests gave;
  -- where the store took it, and only there, a request was answered with success, and the window and
  -- its session are closed.
  pub record Trusts (requests : List Request) (session : PairingSession) (s : PairingState S)
      (r : PairingState S × List Response) : Type 0 where
    pub line : Text
    pub req : PairRequest
    pub sent : Sent requests req
    pub right : Rightful re append from_json to_json host session req line
    pub stored : r.0.store ≡ (append line s.store).0
    pub answered : ((append line s.store).1 ≡ ok tt) ↔ (any is_success r.1 ≡ true)
    pub closed : any is_success r.1 ≡ true → (r.0.pairing_runtime ≡ false) × (r.0.pairing ≡ none)
    pub stays : any is_success r.1 ≡ false → (r.0.pairing_runtime ≡ s.pairing_runtime) × Held r.0

  -- A window whose code is spent, or that has no session.
  abbrev pub Spent : PairingState S → Type 0
  Spent s = (session : PairingSession) → s.pairing ≡ some session → session.consumed ≡ true

  -- The rest of the loop, behind one request.
  next : List Request → PairingState S × (Response × Bool) → PairingState S × List Response
  next requests (s', (response, paired)) =
      let (s'', responses) = run requests s' in
      if paired then (close_window s', response ∷ []) else (s'', response ∷ responses)

  serve-next :
      (request : Request) (requests : List Request) (s : PairingState S)
      → run (request ∷ requests) s
        ≡ next requests (handle_request re append from_json to_json host request s)
  unfolding serve next
  serve-next request requests s = refl

  -- Nothing was trusted, and the window is as open as before.
  abbrev pub Quiet : PairingState S → PairingState S × List Response → Type 0
  Quiet s r =
      (r.0.store ≡ s.store)
      × (r.0.pairing_runtime ≡ s.pairing_runtime)
      × (any is_success r.1 ≡ false)

  failed-eq : (n : ℕ) → n ≢ 200 → (n == 200) ≡ false
  failed-eq n h = elim (Bool-cases (n == 200)) [
    | inl e ↦ absurd (h ((==_iff n 200).0 e))
    | inr e ↦ e
  ]

  next-Quiet :
      (requests : List Request) (s s' : PairingState S) (response : Response)
      → Quiet s (run requests s')
      → response.status ≢ 200
      → Quiet s (next requests (s', (response, false)))
  unfolding next
  next-Quiet requests s s' response (st, rt, none_ok) ne =
      (st, rt, rw (failed-eq response.status ne) none_ok)

  -- With the code spent, or with no session, no request is ever accepted: nothing is stored, no answer
  -- is a success, and the window is not closed.
  pub serve-Spent :
      (requests : List Request) (s : PairingState S) → Spent s → Quiet s (run requests s)
  unfolding serve
  serve-Spent [] s h = (refl, refl, refl)
  serve-Spent (request ∷ requests) s h = subst (Quiet s) (sym (serve-next request requests s)) (
      go _ (handle_request-Step re append from_json to_json host request s)
        (λ s'. serve-Spent requests s'))
    where
      consumed_of : Option PairingSession → Bool
      consumed_of none = true
      consumed_of (some x) = x.consumed

      true-ne-false : true ≢ false
      true-ne-false q = cc

      go :
          (p : PairingState S × (Response × Bool))
          → Step re append from_json to_json host request s p
          → ((s' : PairingState S) → Spent s' → Quiet s' (run requests s'))
          → Quiet s (next requests p)
      go _ (idle r ne) rest = next-Quiet requests s s r (rest s h) ne
      go _ (charged session session' e same still r ne) rest =
          next-Quiet requests s (record s { pairing = some session' }) r
            (rest (record s { pairing = some session' })
              (λ x q. ap consumed_of (sym q) ∙ (still ∙ h session e)))
            ne
      go _ (spends session req line e fresh asks right r paired ends stored) rest =
          absurd (true-ne-false (sym (h session e) ∙ fresh))

  consumed-Spent :
      (s : PairingState S) (session : PairingSession)
      → Spent (record s { pairing = some (record session { consumed = true }) })
  consumed-Spent s session x e = consumed_eq (record session { consumed = true }) x e refl
    where
      consumed_eq :
          (a b : PairingSession)
          → ◌≡◌ {A = Option PairingSession} (some a) (some b)
          → a.consumed ≡ true
          → b.consumed ≡ true
      consumed_eq a b q h = cc

  -- Requests after the code is spent leave the session where it is.
  serve-Held :
      (requests : List Request) (s : PairingState S) (session : PairingSession)
      → s.pairing ≡ some session
      → session.consumed ≡ true
      → Held (run requests s).0
  unfolding serve next
  serve-Held [] s session e used = (session, e)
  serve-Held (request ∷ requests) s session e used =
      subst (λ r. Held r.0) (sym (serve-next request requests s))
        (go _ (handle_request-Step re append from_json to_json host request s)
          (λ s'. serve-Held requests s'))
    where
      same_flag :
          (a b : PairingSession)
          → ◌≡◌ {A = Option PairingSession} (some a) (some b)
          → b.consumed ≡ true
          → a.consumed ≡ true
      same_flag a b q h = cc

      not_both : (b : Bool) → b ≡ true → b ≢ false
      not_both b h k = false-ne-true (sym k ∙ h)

      go :
          (p : PairingState S × (Response × Bool))
          → Step re append from_json to_json host request s p
          → ((s' : PairingState S) (x : PairingSession)
              → s'.pairing ≡ some x
              → x.consumed ≡ true
              → Held (run requests s').0)
          → Held (next requests p).0
      go _ (idle r ne) rest = rest s session e used
      go _ (charged x x' e' same still r ne) rest =
          rest (record s { pairing = some x' }) x' refl
            (still ∙ same_flag x session (sym e' ∙ e) used)
      go _ (spends x req line e' fresh asks right r paired ends stored) rest =
          absurd (not_both x.consumed (same_flag x session (sym e' ∙ e) used) fresh)

  spends-Trusts :
      (request : Request) (requests : List Request) (s : PairingState S)
      (session x : PairingSession) (req : PairRequest) (line : Text)
      → Asks re append from_json to_json host request req
      → Rightful re append from_json to_json host session req line
      → (r : Response) (paired : Bool) → (paired ≡ true) ↔ (r.status ≡ 200)
      → (paired ≡ true) ↔ ((append line s.store).1 ≡ ok tt)
      → Trusts (request ∷ requests) session s (
          next requests (
            record s {
              pairing = some (record x { consumed = true });
              store = (append line s.store).0;
            },
            (r, paired),
          ))
  unfolding next
  spends-Trusts request requests s session x req line asks right r true ends stored = record {
    line = line;
    req = req;
    sent = inl asks;
    right = right;
    stored = refl;
    answered = (λ _. rw (ends.0 refl) refl, λ _. stored.0 refl);
    closed = λ _. (refl, refl);
    stays = λ e. absurd (false-ne-true (sym e ∙ rw (ends.0 refl) refl));
  }
  spends-Trusts request requests s session x req line asks right r false ends stored =
      let (st, rt, quiet) =
        serve-Spent requests
          (record s {
            pairing = some (record x { consumed = true });
            store = (append line s.store).0;
          })
          (consumed-Spent (record s { store = (append line s.store).0 }) x) in
      let failed = failed-eq r.status (λ e. false-ne-true (ends.1 e)) in
      record {
        line = line;
        req = req;
        sent = inl asks;
        right = right;
        stored = st;
        answered = (
          λ e. absurd (false-ne-true (stored.1 e)),
          λ e. absurd (false-ne-true (sym (rw failed quiet) ∙ e)),
        );
        closed = λ e. absurd (false-ne-true (sym (rw failed quiet) ∙ e));
        stays = λ _. (
          rt,
          serve-Held requests
              (record s {
                pairing = some (record x { consumed = true });
                store = (append line s.store).0;
              })
              (record x { consumed = true }) refl refl,
        );
      }

  right-same :
      (session session' : PairingSession) (req : PairRequest) (line : Text)
      → session'.code ≡ session.code
      → Rightful re append from_json to_json host session' req line
      → Rightful re append from_json to_json host session req line
  right-same session session' req line same right = record {
    key = right.key;
    code = subst (λ c. constant_time_eq (as_bytes req.code) (as_bytes c) ≡ true) same right.code;
  }

  -- The code of the open session.
  same_code :
      (session x : PairingSession)
      → ◌≡◌ {A = Option PairingSession} (some x) (some session)
      → x.code ≡ session.code
  same_code session x e = cc

  next-Trusts :
      (request : Request) (requests : List Request) (s : PairingState S)
      (pairing : Option PairingSession) (session session' : PairingSession) (response : Response)
      → session'.code ≡ session.code
      → response.status ≢ 200
      → Trusts requests session'
          (record s { pairing = pairing })
          (run requests (record s { pairing = pairing }))
      → Trusts
          (request ∷ requests)
          session
          s
          (next requests (record s { pairing = pairing }, (response, false)))
  unfolding next
  next-Trusts request requests s pairing session session' response same ne t = record {
    line = t.line;
    req = t.req;
    sent = inr t.sent;
    right = right-same session session' t.req t.line same t.right;
    stored = t.stored;
    answered = rw (failed-eq response.status ne) t.answered;
    closed = rw (failed-eq response.status ne) t.closed;
    stays = rw (failed-eq response.status ne) t.stays;
  }

  -- A window either trusts nothing, answers nothing with success and stays as open as it was, with its
  -- session; or hands one accepted key to the store, once, on a right code, and is then closed with its
  -- session exactly when a request was answered with success.
  pub serve-Trusts :
      (requests : List Request) (s : PairingState S) (session : PairingSession)
      → s.pairing ≡ some session
      → (Quiet s (run requests s) × Held (run requests s).0)
        ⊎ Trusts requests session s (run requests s)
  unfolding serve next
  serve-Trusts [] s session e = inl ((refl, refl, refl), (session, e))
  serve-Trusts (request ∷ requests) s session e =
      subst (λ r. (Quiet s r × Held r.0) ⊎ Trusts (request ∷ requests) session s r)
        (sym (serve-next request requests s))
        (go _ (handle_request-Step re append from_json to_json host request s)
          (λ s' session'. serve-Trusts requests s' session'))
    where
      go :
          (p : PairingState S × (Response × Bool))
          → Step re append from_json to_json host request s p
          → ((s' : PairingState S) (session' : PairingSession)
              → s'.pairing ≡ some session'
              → (Quiet s' (run requests s') × Held (run requests s').0)
                ⊎ Trusts requests session' s' (run requests s'))
          → (Quiet s (next requests p) × Held (next requests p).0)
            ⊎ Trusts (request ∷ requests) session s (next requests p)
      go _ (idle r ne) rest = elim (rest s session e) [
        | inl (q, held) ↦ inl (next-Quiet requests s s r q ne, held)
        | inr t ↦ inr (next-Trusts request requests s s.pairing session session r refl ne t)
      ]
      go _ (charged x x' e' same still r ne) rest =
          elim (rest (record s { pairing = some x' }) x' refl) [
            | inl (q, held) ↦
                inl (next-Quiet requests s (record s { pairing = some x' }) r q ne, held)
            | inr t ↦ inr (
                next-Trusts request requests s (some x') session x' r
                  (same ∙ same_code session x (sym e' ∙ e)) ne t)
          ]
      go _ (spends x req line e' fresh asks right r paired ends stored) rest =
          let right' = right-same session x req line (same_code session x (sym e' ∙ e)) right in
          inr (spends-Trusts request requests s session x req line asks right' r paired ends stored)
