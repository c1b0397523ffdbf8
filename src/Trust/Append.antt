-- ===== src/Trust/Append.antt =====
-- Appending a key: what is written, that a key is written once, and that no key is lost.
use backr.Base.{
  All-lines, lines-lack_newline, trim_idem, All-trim, ends_with_char, ◌==◌, if◌then◌else◌, ==_iff,
  Bool-cases, any, All, Text, codes, eq_text, is_empty, starts_with, trim_start_by, trim_end_by,
  trim, replace_char, lines, eq_text_self, Result, ok, err, >>=-eq-ok, ℕ, zero, suc, ◌+◌, ◌≤◌, ◌≡◌,
  refl, ap, ◌∙◌, subst, ◌≢◌, inl, inr, Bool, true, false, ◌&&◌, not, Option, none, some, List, [],
  ◌∷◌, ◌++◌, map, append_assoc, arith,
}
use backr.Base.Results.{◌>>=◌}
use backr.Trust.Keys.{
  RegexClasses, PubkeyError, comment_line, normalize_pubkey_line, validate_pubkey_line, is_ok,
  is_valid_line, count_pubkey_lines, empty_pubkey_line,
}
use backr.Trust.Counting.{finished, count-finished, map-trim-lines-finished}
use backr.Trust.File.{
  HostEnv, TrustError, AppendResult, write_pieces, pieces, is_present, append_direct,
  append_checked, accepted_line, host_append_authorized_pubkey,
}

replace_char-lacks : (c : ℕ) (s : Text) → All (λ a. a ≢ c) (replace_char c [] s)
unfolding replace_char
replace_char-lacks c [] = tt
replace_char-lacks c (a ∷ s) = elim (Bool-cases (a == c)) [
  | inl cut ↦ rw cut (replace_char-lacks c s)
  | inr kept ↦ rw kept (λ e. ground (arith, ==_iff a c), replace_char-lacks c s)
]

-- A line that stands alone: trimmed, not empty, with no newline and no carriage return.
pub record IsKeyLine (line : Text) : Type 0 where
  pub trimmed : trim line ≡ line
  pub some_text : is_empty line ≡ false
  pub one_line : All (λ c. c ≢ 10) line
  pub no_return : All (λ c. c ≢ 13) line

ok_of_if :
    (b : Bool) (l line : Text)
    → (if b then err empty_pubkey_line else ok l) ≡ ok line
    → (b ≡ false) × (l ≡ line)
ok_of_if true l line h = cc
ok_of_if false l line h = (refl, cc)

normalized_first :
    (ls : List Text) (line : Text)
    → All (All (λ c. c ≢ 10)) ls
    → All (All (λ c. c ≢ 13)) ls
    → (let l = trim (elim ls [ [] ↦ [] | first ∷ _ ↦ first ]) in
        if is_empty l then err empty_pubkey_line else ok l)
      ≡ ok line
    → IsKeyLine line
unfolding trim trim_start_by trim_end_by
normalized_first [] line a b h = let (e, _) = ok_of_if true [] line h in cc
normalized_first (l ∷ ls) line (a, _) (b, _) h =
    let (some_text, e) = ok_of_if (is_empty (trim l)) (trim l) line h in
    subst IsKeyLine e (record {
      trimmed = trim_idem l;
      some_text = some_text;
      one_line = All-trim (λ c. c ≢ 10) l a;
      no_return = All-trim (λ c. c ≢ 13) l b;
    })

All-return : (s : Text) → All (λ c. c ≢ 13) s → All (λ c. c ≢ 10 → c ≢ 13) s
All-return [] h = tt
All-return (c ∷ s) (h, hs) = (λ _. h, All-return s hs)

pub normalize-IsKeyLine : (raw line : Text) → normalize_pubkey_line raw ≡ ok line → IsKeyLine line
unfolding normalize_pubkey_line
normalize-IsKeyLine raw line h =
    normalized_first (lines (replace_char 13 [] (trim raw))) line
      (lines-lack_newline (replace_char 13 [] (trim raw)))
      (All-lines (λ c. c ≢ 13) _ (All-return _ (replace_char-lacks 13 (trim raw)))) h

-- An accepted line is a key line, and is recognised.
accepted-parts :
    (re : RegexClasses) (m : Result Text PubkeyError) (line : Text)
    → (m >>= λ l. validate_pubkey_line re l >>= λ _. ok l) ≡ ok line
    → (m ≡ ok line) × (is_ok (validate_pubkey_line re line) ≡ true)
accepted-parts re (err e) line h = cc
accepted-parts re (ok l) line h =
    let (u, v, e) = >>=-eq-ok (validate_pubkey_line re l) (λ _. ok l) h in
    (e, subst (λ x. is_ok (validate_pubkey_line re x) ≡ true) (ok-injective l line e) (rw v refl))
  where
    ok-injective : (a b : Text) → ◌≡◌ {A = Result Text PubkeyError} (ok a) (ok b) → a ≡ b
    ok-injective a b q = cc

not_comment :
    (re : RegexClasses) (line : Text)
    → is_ok (validate_pubkey_line re line) ≡ true
    → starts_with (codes "#") line ≡ false
unfolding validate_pubkey_line
not_comment re line valid = elim (Bool-cases (starts_with (codes "#") line)) [
  | inl comment ↦ absurd (refused _ (starts_with (codes "#") line) comment valid)
  | inr plain ↦ plain
]
  where
    refused :
        (r : Result (Unit {0}) PubkeyError) (b : Bool)
        → b ≡ true
        → is_ok (if b then err comment_line else r) ≡ true
        → ⊥
    refused r true e h = cc
    refused r false e h = cc

pub any-map :
    {A B : Type 0} (p : B → Bool) (f : A → B) (l : List A) → any (λ x. p (f x)) l ≡ any p (map f l)
any-map p f [] = refl
any-map p f (x ∷ l) = ground (arith, any-map p f l)

any-last :
    {A : Type 0} (p : A → Bool) (l : List A) (x : A) → p x ≡ true → any p (l ++ x ∷ []) ≡ true
any-last p [] x h = rw h refl
any-last p (y ∷ l) x h = ground (arith, any-last p l x h)

module _ (env : HostEnv) where
  pub accepted_line-parts :
      (raw line : Text)
      → accepted_line env raw ≡ ok line
      → IsKeyLine line × (is_ok (validate_pubkey_line env.re line) ≡ true)
  unfolding accepted_line
  accepted_line-parts raw line h =
      let (e, v) = accepted-parts env.re (normalize_pubkey_line raw) line h in
      (normalize-IsKeyLine raw line e, v)

  -- With no failing write, the file is finished and the line stands behind it.
  write-pieces :
      (existing line : Text) (k : ℕ)
      → 3 ≤ k
      → write_pieces env (pieces env existing line) existing k
        ≡ (finished existing ++ (line ++ 10 ∷ []), true)
  unfolding write_pieces pieces
  write-pieces existing line (suc (suc (suc k))) _ =
      elim (Bool-cases (not (is_empty existing) && not (ends_with_char 10 existing))) [
        | inl open_line ↦
            rw open_line (ap (λ x. (x, true)) (append_assoc (existing ++ 10 ∷ []) line (10 ∷ [])))
        | inr ended ↦ rw ended (ap (λ x. (x, true)) (append_assoc existing line (10 ∷ [])))
      ]
  write-pieces existing line (suc (suc zero)) h = ground arith
  write-pieces existing line (suc zero) h = ground arith
  write-pieces existing line zero h = ground arith

  is_present-lines :
      (content line : Text)
      → is_present env content line
        ≡ any
            (λ t. is_ok (validate_pubkey_line env.re t) && eq_text t line)
            (map trim (lines content))
  unfolding is_present
  is_present-lines content line = any-map _ trim (lines content)

  -- What was appended is present.
  pub is_present-finished :
      (existing line : Text)
      → IsKeyLine line
      → is_ok (validate_pubkey_line env.re line) ≡ true
      → is_present env (finished existing ++ (line ++ 10 ∷ [])) line ≡ true
  is_present-finished existing line key valid =
      is_present-lines (finished existing ++ (line ++ 10 ∷ [])) line
      ∙ (ap (any _) (map-trim-lines-finished existing line key.one_line)
          ∙ any-last _ (map trim (lines existing)) (trim line)
              (rw (key.trimmed, valid) (eq_text_self line)))

  unfoldable pub added : Text → ℕ → Option Text × Result AppendResult TrustError
  added content n = (
    some content,
    ok (record {
      appended = true;
      skipped_duplicate = false;
      pubkey_line_count = n;
      sudo_script = none;
      message = "Public key added to authorized_keys.";
    }),
  )

  append_direct-adds :
      (existing line : Text)
      → 3 ≤ env.writes
      → IsKeyLine line
      → is_valid_line env.re line ≡ true
      → append_direct env existing line
        ≡ added (finished existing ++ (line ++ 10 ∷ [])) (count_pubkey_lines env.re existing + 1)
  unfolding append_direct added
  append_direct-adds existing line writes key valid =
      rw (append_direct, write-pieces existing line env.writes writes)
        (ap (added (finished existing ++ (line ++ 10 ∷ [])))
          (count-finished env.re existing line key.one_line (rw key.trimmed valid)))

  pub valid_of :
      (line : Text)
      → IsKeyLine line
      → is_ok (validate_pubkey_line env.re line) ≡ true
      → is_valid_line env.re line ≡ true
  unfolding is_valid_line
  valid_of line key valid = rw (is_valid_line, key.some_text, not_comment env.re line valid) valid

  pub append_checked-adds :
      (account : Text × Text) (file : Option Text) (existing line : Text)
      → env.appendable ≡ true
      → 3 ≤ env.writes
      → IsKeyLine line
      → is_ok (validate_pubkey_line env.re line) ≡ true
      → is_present env existing line ≡ false
      → append_checked env account file existing line
        ≡ added (finished existing ++ (line ++ 10 ∷ [])) (count_pubkey_lines env.re existing + 1)
  unfolding append_checked added
  append_checked-adds account file existing line appendable writes key valid absent =
      rw (append_checked, absent)
        (simp appendable (append_direct-adds existing line writes key (valid_of line key valid)))

  -- An accepted key that the file lacks is written behind it, on a line of its own, where the account
  -- is known, the file is readable and opens for appending, and the three writes succeed; the answer
  -- counts one key more.
  host_append-adds :
      (raw line content : Text) (account : Text × Text)
      → accepted_line env raw ≡ ok line
      → env.located ≡ ok account
      → env.readable ≡ true
      → env.appendable ≡ true
      → 3 ≤ env.writes
      → is_present env content line ≡ false
      → host_append_authorized_pubkey env raw (some content) ≡ (
        some (finished content ++ (line ++ 10 ∷ [])),
        ok (record {
          appended = true;
          skipped_duplicate = false;
          pubkey_line_count = count_pubkey_lines env.re content + 1;
          sudo_script = none;
          message = "Public key added to authorized_keys.";
        }),
      )
  unfolding added host_append_authorized_pubkey
  host_append-adds raw line content account accepted located readable appendable writes absent =
      let (key, valid) = accepted_line-parts raw line accepted in
      rw (host_append_authorized_pubkey, accepted, located)
        (simp readable (
          append_checked-adds account (some content) content line appendable writes key valid
            absent))

  -- A key that the file holds already is not written again, and the call says so.
  host_append-skips :
      (raw line content : Text) (account : Text × Text)
      → accepted_line env raw ≡ ok line
      → env.located ≡ ok account
      → env.readable ≡ true
      → is_present env content line ≡ true
      → host_append_authorized_pubkey env raw (some content) ≡ (
        some content,
        ok (record {
          appended = false;
          skipped_duplicate = true;
          pubkey_line_count = count_pubkey_lines env.re content;
          sudo_script = none;
          message = "That public key is already present.";
        }),
      )
  unfolding host_append_authorized_pubkey append_checked
  host_append-skips raw line content account accepted located readable present =
      rw (host_append_authorized_pubkey, accepted, located)
        (simp readable (rw (append_checked, present) refl))

  -- Sending the key again after it was added changes nothing, where the account is known and the file
  -- is readable.
  pub host_append-again :
      (raw line content : Text) (account : Text × Text)
      → accepted_line env raw ≡ ok line
      → env.located ≡ ok account
      → env.readable ≡ true
      → host_append_authorized_pubkey env raw (some (finished content ++ (line ++ 10 ∷ []))) ≡ (
        some (finished content ++ (line ++ 10 ∷ [])),
        ok (record {
          appended = false;
          skipped_duplicate = true;
          pubkey_line_count = count_pubkey_lines env.re content + 1;
          sudo_script = none;
          message = "That public key is already present.";
        }),
      )
  host_append-again raw line content account accepted located readable =
      let (key, valid) = accepted_line-parts raw line accepted in
      subst
        (λ n.
          host_append_authorized_pubkey env raw (some (finished content ++ (line ++ 10 ∷ [])))
          ≡ (some (finished content ++ (line ++ 10 ∷ [])), skipped n))
        (count-finished env.re content line key.one_line (rw key.trimmed (valid_of line key valid)))
        (host_append-skips raw line (finished content ++ (line ++ 10 ∷ [])) account accepted located
          readable (is_present-finished content line key valid))
    where
      skipped : ℕ → Result AppendResult TrustError
      skipped n = ok (record {
        appended = false;
        skipped_duplicate = true;
        pubkey_line_count = n;
        sudo_script = none;
        message = "That public key is already present.";
      })
