-- ===== src/Trust/Torn.antt =====
-- Appending a key when a write of it fails in the middle: what stands in authorized_keys then.
use backr.Base.{
  Result-cases, lines-append, ends_with_char, ◌==◌, if◌then◌else◌, ==_iff, Bool-cases, All, Text,
  is_empty, trim, lines_from, lines, Result, ok, err, ℕ, zero, suc, ◌≡◌, refl, sym, ap, ◌∙◌, subst,
  ◌≢◌, ◌⊎◌, inl, inr, Bool, true, false, ◌&&◌, not, Option, none, some, List, [], ◌∷◌, ◌++◌, map,
  append-nil, append_assoc, map-append,
}
use backr.Trust.Keys.{count_pubkey_lines}
use backr.Trust.Counting.{finished, finished-cases, map-trim-lines-finished}
use backr.Trust.Append.{accepted_line-parts}
use backr.Trust.File.{
  HostEnv, TrustError, AppendResult, write_pieces, pieces, is_present, append_direct,
  append_escalated, append_checked, accepted_line, host_append_authorized_pubkey, io,
}

-- the lines of a file, without the white space at their ends
abbrev trims : Text → List Text
trims text = map trim (lines text)

trims-finished : (s u : Text) → trims (finished s ++ u) ≡ trims s ++ trims u
trims-finished s u = elim (finished-cases s) [
  | inl (fe, se) ↦ rw (fe, se) (unfold lines_from in refl)
  | inr (t, e, same) ↦ rw e (
      ap (λ x. map trim (lines x)) (append_assoc t (10 ∷ []) u)
      ∙ (ap (map trim) (lines-append t u)
          ∙ (map-append trim (lines (t ++ 10 ∷ [])) (lines u) ∙ ap (λ x. x ++ trims u) same)))
]

lines_from_open :
    (c : ℕ) (cur s : Text) → All (λ a. a ≢ 10) s → lines_from (c ∷ cur) s ≡ ((c ∷ cur) ++ s) ∷ []
unfolding lines_from
lines_from_open c cur [] h = ap (λ x. (c ∷ x) ∷ []) (sym (append-nil cur))
lines_from_open c cur (a ∷ s) (ne, h) = elim (Bool-cases (a == 10)) [
  | inl newline ↦ absurd (ne ((==_iff a 10).0 newline))
  | inr other ↦
      rw (lines_from, other)
        (lines_from_open c (cur ++ a ∷ []) s h
          ∙ ap (λ x. (c ∷ x) ∷ []) (append_assoc cur (a ∷ []) s))
]

-- an unfinished line
lines_open : (c : ℕ) (s : Text) → All (λ a. a ≢ 10) (c ∷ s) → lines (c ∷ s) ≡ (c ∷ s) ∷ []
unfolding lines_from
lines_open c s (ne, h) = elim (Bool-cases (c == 10)) [
  | inl newline ↦ absurd (ne ((==_iff c 10).0 newline))
  | inr other ↦ rw (lines_from, other) (lines_from_open c [] s h)
]

prefix_of_one : (t rest : Text) → 10 ∷ [] ≡ t ++ rest → (t ≡ []) ⊎ (t ≡ 10 ∷ [])
prefix_of_one [] rest h = inl refl
prefix_of_one (c ∷ []) rest h = inr cc
prefix_of_one (c ∷ (d ∷ t)) rest h = cc

All-prefix : (s t : Text) → All (λ a. a ≢ 10) (s ++ t) → All (λ a. a ≢ 10) s
All-prefix [] t h = tt
All-prefix (c ∷ s) t (p, h) = (p, All-prefix s t h)

-- What stands behind `base`, and whether all was written.
data Line (base line : Text) : Text × Bool → Type 0 where
  begun : (part rest : Text) → line ≡ part ++ rest → Line base line (base ++ part, false)
  whole : (b : Bool) → Line base line (base ++ (line ++ 10 ∷ []), b)

-- The answer says that the key was written.
pub wrote : Result AppendResult TrustError → Bool
wrote (err _) = false
wrote (ok r) = r.appended

-- What an append leaves: the lines of the file as they were, or, behind them, a beginning of the accepted
-- line, the whole of it where the answer says that the key was written.
pub data Survives (env : HostEnv) (content raw : Text)
    : Option Text × Result AppendResult TrustError → Type 0 where
  same :
      (text : Text) (r : Result AppendResult TrustError)
      → map trim (lines text) ≡ map trim (lines content)
      → wrote r ≡ false
      → Survives env content raw (some text, r)
  grown :
      (line part rest text : Text) (r : Result AppendResult TrustError)
      → accepted_line env raw ≡ ok line
      → line ≡ part ++ rest
      → map trim (lines text) ≡ map trim (lines content) ++ trim part ∷ []
      → (wrote r ≡ true → part ≡ line)
      → Survives env content raw (some text, r)

module _ (env : HostEnv) (torn : (p : Text) → (rest : Text) × (p ≡ env.torn p ++ rest)) where
  torn_newline : (env.torn (10 ∷ []) ≡ []) ⊎ (env.torn (10 ∷ []) ≡ 10 ∷ [])
  torn_newline = let (rest, e) = torn (10 ∷ []) in prefix_of_one (env.torn (10 ∷ [])) rest e

  write_pieces-Line :
      (base line : Text) (k : ℕ) → Line base line (write_pieces env (line ∷ (10 ∷ []) ∷ []) base k)
  unfolding write_pieces
  write_pieces-Line base line zero = let (rest, e) = torn line in begun (env.torn line) rest e
  write_pieces-Line base line (suc zero) = elim torn_newline [
    | inl none_written ↦ rw (none_written) (
        subst (λ x. Line base line (x, false)) (sym (append-nil (base ++ line)))
          (begun line [] (sym (append-nil line))))
    | inr written ↦ rw (written) (
        subst (λ x. Line base line (x, false)) (sym (append_assoc base line (10 ∷ [])))
          (whole false))
  ]
  write_pieces-Line base line (suc (suc k)) =
      subst (λ x. Line base line (x, true)) (sym (append_assoc base line (10 ∷ []))) (whole true)

  -- The file is as it was, with nothing said to be written, or a line stands behind its finished lines.
  written-cases :
      (existing line : Text) (k : ℕ)
      → (write_pieces env (pieces env existing line) existing k ≡ (existing, false))
        ⊎ Line (finished existing) line (write_pieces env (pieces env existing line) existing k)
  unfolding pieces write_pieces
  written-cases existing line k =
      elim (Bool-cases (not (is_empty existing) && not (ends_with_char 10 existing))) [
        | inr ended ↦ rw (ended) (inr (write_pieces-Line existing line k))
        | inl open_line ↦ rw (open_line) (guarded k)
      ]
    where
      guarded :
          (k : ℕ)
          → (write_pieces env ((10 ∷ []) ∷ line ∷ (10 ∷ []) ∷ []) existing k ≡ (existing, false))
            ⊎ Line
                (existing ++ 10 ∷ [])
                line
                (write_pieces env ((10 ∷ []) ∷ line ∷ (10 ∷ []) ∷ []) existing k)
      guarded zero = elim torn_newline [
        | inl none_written ↦ inl (rw (none_written) (ap (λ x. (x, false)) (append-nil existing)))
        | inr written ↦ rw (written) (
            inr (
              subst (λ x. Line (existing ++ 10 ∷ []) line (x, false))
                (append-nil (existing ++ 10 ∷ [])) (begun [] line refl)))
      ]
      guarded (suc k) = inr (write_pieces-Line (existing ++ 10 ∷ []) line k)

  behind-Survives :
      (content raw line : Text) (r : Bool → Result AppendResult TrustError)
      → accepted_line env raw ≡ ok line
      → All (λ a. a ≢ 10) line
      → wrote (r false) ≡ false
      → (p : Text × Bool) → Line (finished content) line p
      → Survives env content raw (some p.0, r p.1)
  behind-Survives content raw line r accepted one_line failed _ (begun [] rest e) =
      same _ (r false)
        (trims-finished content [] ∙ (unfold lines_from in append-nil (trims content))) failed
  behind-Survives content raw line r accepted one_line failed _ (begun (c ∷ part) rest e) =
      grown line (c ∷ part) rest _ (r false) accepted e
        (trims-finished content (c ∷ part)
          ∙ ap (λ x. trims content ++ map trim x)
              (lines_open c part
                (All-prefix (c ∷ part) rest (subst (All (λ a. a ≢ 10)) e one_line))))
        (λ says. absurd (not_both (wrote (r false)) says failed))
    where
      not_both : (b : Bool) → b ≡ true → b ≢ false
      not_both b h k = cc
  behind-Survives content raw line r accepted one_line failed _ (whole b) =
      grown line line [] _ (r b) accepted (sym (append-nil line))
        (map-trim-lines-finished content line one_line) (λ _. refl)

  append_direct-Survives :
      (content raw line : Text)
      → accepted_line env raw ≡ ok line
      → All (λ a. a ≢ 10) line
      → Survives env content raw (append_direct env content line)
  unfolding append_direct wrote
  append_direct-Survives content raw line accepted one_line =
      elim (written-cases content line env.writes) [
        | inl nothing ↦ rw (append_direct, nothing) (same content (err io) refl refl)
        | inr l ↦ behind-Survives content raw line (answer env.writes) accepted one_line refl _ l
      ]
    where
      answer : ℕ → Bool → Result AppendResult TrustError
      answer k done =
          if done
          then ok (record {
            appended = true;
            skipped_duplicate = false;
            pubkey_line_count =
                count_pubkey_lines env.re (write_pieces env (pieces env content line) content k).0;
            sudo_script = none;
            message = "Public key added to authorized_keys.";
          })
          else err io

  -- However many writes of an append succeed, and whatever beginning of its text a failing one leaves, every
  -- line of authorized_keys stands as it did, up to the white space at its ends, and behind them at most one
  -- more, a beginning of the accepted key, the whole key where the answer says that it was written; where the
  -- privileged helper is not there.
  pub host_append-Survives :
      (raw content : Text)
      → ((line : Text) → env.helper (some content) line ≡ none)
      → Survives env content raw (host_append_authorized_pubkey env raw (some content))
  unfolding host_append_authorized_pubkey append_checked append_escalated wrote
  host_append-Survives raw content no_helper = elim (Result-cases (accepted_line env raw)) [
    | inr (e, bad) ↦ rw (host_append_authorized_pubkey, bad) (same content _ refl refl)
    | inl (line, accepted) ↦ elim (Result-cases env.located) [
      | inr (e, lost) ↦
          rw (host_append_authorized_pubkey, accepted, lost) (same content _ refl refl)
      | inl (account, located) ↦ elim (Bool-cases env.readable) [
        | inr shut ↦
            simp (host_append_authorized_pubkey, accepted, located, shut) (same content _ refl refl)
        | inl readable ↦
            simp (host_append_authorized_pubkey, accepted, located, readable)
              (checked account line accepted)
      ]
    ]
  ]
    where
      checked :
          (account : Text × Text) (line : Text)
          → accepted_line env raw ≡ ok line
          → Survives env content raw (append_checked env account (some content) content line)
      checked account line accepted = elim (Bool-cases (is_present env content line)) [
        | inl present ↦ rw (append_checked, present) (same content _ refl refl)
        | inr absent ↦ elim (Bool-cases env.appendable) [
          | inl opens ↦
              simp (append_checked, absent, opens)
                (append_direct-Survives content raw line accepted
                  (accepted_line-parts env raw line accepted).0.one_line)
          | inr shut ↦
              simp (append_checked, absent, shut)
                (simp (append_escalated, no_helper line) (same content _ refl refl))
        ]
      ]
