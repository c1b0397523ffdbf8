-- ===== src/Tests/Pairing.antt =====
-- A pairing window and its code.
use backr.Base.{
  splitn, take, any, Text, codes, eq_text, is_whitespace, is_digit, Result, ok, ℕ, ◌≡◌, refl, sym,
  ap, ◌↔◌, ◌⊎◌, Bool, true, Option, none, some, List, [], ◌∷◌, ◌++◌, arith,
}
use backr.Trust.Keys.{RegexClasses}
use backr.Pairing.Code.{PairingSession, new_session, constant_time_eq}
use backr.Pairing.Code.Compare.{constant_time_eq_iff}
use backr.Pairing.Code.Attempts.{IsSession, is_valid, answers, accepted-first}
use backr.Pairing.Listener.{PairRequest, HostPairInfo, PairingState, Request, serve}
use backr.Pairing.Listener.Window.Loop.{Quiet, Held, Trusts, serve-Trusts, serve-Spent}

abbrev session : PairingSession
session = new_session 4711

session-IsSession : IsSession session
session-IsSession = record {
  ascii =
      (omega arith, (omega arith, (omega arith, (omega arith, (omega arith, (omega arith, tt))))));
  budget = omega arith;
}

abbrev sent : List ℕ
sent = 1 ∷ 2 ∷ []

abbrev shown : List ℕ
shown = 1 ∷ 3 ∷ []

constant_time_eq_iff_example : (constant_time_eq sent shown ≡ true) ↔ (sent ≡ shown)
constant_time_eq_iff_example =
    constant_time_eq_iff sent shown (omega arith, (omega arith, tt))
      (omega arith, (omega arith, tt))

accepted-first_example :
    any is_valid (answers (codes "0" ∷ codes "004711" ∷ []) session)
    ≡ any (λ i. eq_text i session.code) (take 5 (codes "0" ∷ codes "004711" ∷ []))
accepted-first_example =
    accepted-first (codes "0" ∷ codes "004711" ∷ []) session 5
      (
        (omega arith, tt),
        (
          (
            omega arith,
            (omega arith, (omega arith, (omega arith, (omega arith, (omega arith, tt))))),
          ),
          tt,
        ),
      )
      session-IsSession refl refl

abbrev host : HostPairInfo
host = record {
  ssh_user = codes "backr";
  ssh_port = 22;
  backup_root = codes "/srv/backr";
  host_key_fingerprint = [];
  host_pubkey = [];
  hostname = codes "nas.local";
}

-- Trusting a key puts its line on a list.
abbrev append : Text → List Text → List Text × Result (Unit {0}) Text
append line store = (line ∷ store, ok tt)

-- A body is its key and its code, on two lines.
abbrev from_json : Text → Option PairRequest
from_json body = elim (splitn 2 10 body) [
  | [] ↦ none
  | pubkey ∷ rest ↦ elim rest [
    | [] ↦ none
    | code ∷ _ ↦ some (record { pubkey = pubkey; code = code })
  ]
]

abbrev re : RegexClasses
re = record { space = is_whitespace; digit = is_digit }

abbrev window : PairingState (List Text)
window = record { pairing = some session; pairing_runtime = true; store = [] }

abbrev request : Text → Request
request code = record {
  is_post = true;
  url = codes "/pair";
  body = some (codes "ssh-rsa AAA me\n" ++ code);
}

serve-Trusts_example :
    (Quiet re append from_json
        (λ i. i.hostname)
        host
        window
        (serve re append from_json
          (λ i. i.hostname)
          host
          (request (codes "000000") ∷ request (codes "004711") ∷ [])
          window)
      × Held re append from_json
          (λ i. i.hostname)
          host
          (serve re append from_json
            (λ i. i.hostname)
            host
            (request (codes "000000") ∷ request (codes "004711") ∷ [])
            window).0)
    ⊎ Trusts re append from_json
        (λ i. i.hostname)
        host
        (request (codes "000000") ∷ request (codes "004711") ∷ [])
        session
        window
        (serve re append from_json
          (λ i. i.hostname)
          host
          (request (codes "000000") ∷ request (codes "004711") ∷ [])
          window)
serve-Trusts_example =
    serve-Trusts re append from_json (λ i. i.hostname) host
      (request (codes "000000") ∷ request (codes "004711") ∷ []) window session refl

abbrev spent : PairingState (List Text)
spent = record {
  pairing = some (record session { consumed = true });
  pairing_runtime = true;
  store = [];
}

spent-consumed : (s : PairingSession) → spent.pairing ≡ some s → s.consumed ≡ true
spent-consumed s e = sym (ap consumed_of e)
  where
    consumed_of : Option PairingSession → Bool
    consumed_of none = true
    consumed_of (some x) = x.consumed

serve-Spent_example :
    Quiet re append from_json
      (λ i. i.hostname)
      host
      spent
      (serve re append from_json (λ i. i.hostname) host (request (codes "004711") ∷ []) spent)
serve-Spent_example =
    serve-Spent re append from_json (λ i. i.hostname) host (request (codes "004711") ∷ []) spent
      spent-consumed
