-- ===== src/Pairing/Client/Drafted.antt =====
-- What a draft of a configuration rests on.
use backr.Base.{
  ◌==◌, ==_iff, Bool-cases, Text, codes, contains_char, split_from, Result, ok, >>=-eq-ok, ℕ, ◌≡◌,
  refl, ap, ◌∙◌, subst, inl, inr, false, List, [], ◌∷◌, ◌++◌, arith,
}
use backr.Pairing.Client.{
  PairReply, PairDraft, PairError, PairWorld, check_status, target_of, draft_of, pair_with_host,
}

check_status_ok : (status : ℕ) → check_status status ≡ ok tt → status ≡ 200
unfolding check_status
check_status_ok status h = elim (Bool-cases (status == 200)) [
  | inl e ↦ (==_iff status 200).0 e
  | inr e ↦ ground arith
]

abbrev head_or : Text → List Text → Text
head_or whole parts = elim parts [ [] ↦ whole | part ∷ _ ↦ part ]

contains_char-append_last :
    (sep c : ℕ) (cur : Text)
    → contains_char sep cur ≡ false
    → (c == sep) ≡ false
    → contains_char sep (cur ++ c ∷ []) ≡ false
unfolding contains_char
contains_char-append_last sep c [] h e = rw (e) refl
contains_char-append_last sep c (x ∷ cur) h e = elim (Bool-cases (x == sep)) [
  | inl same ↦ let q = rw (same) at h in cc
  | inr other ↦ rw (other) (contains_char-append_last sep c cur (let q = rw (other) at h in q) e)
]

split_from-head :
    (sep : ℕ) (whole cur s : Text)
    → contains_char sep cur ≡ false
    → contains_char sep (head_or whole (split_from sep cur s)) ≡ false
unfolding split_from
split_from-head sep whole cur [] h = h
split_from-head sep whole cur (c ∷ s) h = elim (Bool-cases (c == sep)) [
  | inl same ↦ rw (split_from, same) h
  | inr other ↦
      rw (split_from, other)
        (split_from-head sep whole (cur ++ c ∷ []) s (contains_char-append_last sep c cur h other))
]

target_of-lacks_port : (address : Text) → contains_char b':' (target_of address) ≡ false
unfolding target_of contains_char
target_of-lacks_port address = split_from-head b':' address [] address refl

ok_injective : {a b : PairDraft} → ◌≡◌ {A = Result PairDraft PairError} (ok a) (ok b) → a ≡ b
ok_injective e = cc

-- A draft rests on an answer 200 of the host to this key and code, connects to the address without
-- its port, and carries the key and the fingerprint of that answer.
pub record Drafted (w : PairWorld) (address code : Text) (draft : PairDraft) : Type 0 where
  pub pubkey : Text
  pub body : Text
  pub reply : PairReply
  pub key : w.ensure_ssh_key ≡ ok pubkey
  pub answered :
      w.http_post_json address (codes "/pair") (w.request_body pubkey code) ≡ ok (200, body)
  pub read : w.from_json body ≡ ok reply
  pub host_key : draft.host_pubkey ≡ reply.host_pubkey
  pub fingerprint : draft.host_key_fingerprint ≡ reply.host_key_fingerprint
  pub connects : draft.config.remote.host ≡ draft.ssh_target
  pub portless : contains_char b':' draft.ssh_target ≡ false

answered-Drafted :
    (w : PairWorld) (address code pubkey path : Text) (status : ℕ) (body : Text) (reply : PairReply)
    → w.ensure_ssh_key ≡ ok pubkey
    → w.http_post_json address (codes "/pair") (w.request_body pubkey code) ≡ ok (status, body)
    → check_status status ≡ ok tt
    → w.from_json body ≡ ok reply
    → Drafted w address code (draft_of address path w.default_projects_path reply)
answered-Drafted w address code pubkey path status body reply key posted checked read = record {
  pubkey = pubkey;
  body = body;
  reply = reply;
  key = key;
  answered = posted ∙ ap (λ n. ok (n, body)) (check_status_ok status checked);
  read = read;
  host_key = refl;
  fingerprint = refl;
  connects = refl;
  portless = target_of-lacks_port address;
}

-- A host that answers with another status than 200 gives no draft; a draft rests on the answer to this
-- machine's key and the code, carries its host key and fingerprint, and connects to the address up to
-- its first colon, which is the host that `confirm_pair_draft` pins.
pair_with_host-Drafted :
    (w : PairWorld) (address code : Text) (draft : PairDraft)
    → pair_with_host w address code ≡ ok draft
    → Drafted w address code draft
unfolding pair_with_host
pair_with_host-Drafted w address code draft h =
    let (pubkey, key, h₁) = >>=-eq-ok w.ensure_ssh_key _ h in
    let (path, located, h₂) = >>=-eq-ok w.ssh_key_path _ h₁ in
    let ((status, body), posted, h₃) = >>=-eq-ok (w.http_post_json address _ _) _ h₂ in
    let (_, checked, h₄) = >>=-eq-ok (check_status status) _ h₃ in
    let (reply, read, h₅) = >>=-eq-ok (w.from_json body) _ h₄ in
    subst (λ d. Drafted w address code d) (ok_injective h₅)
      (answered-Drafted w address code pubkey path status body reply key posted checked read)
