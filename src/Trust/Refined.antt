-- ===== src/Trust/Refined.antt =====
-- The trusted keys as a list without repetition by appending, and the file that stands for it.
use backr.Base.{
  Result-cases, if◌then◌else◌, Bool-cases, any, filter, filter-append, Text, eq_text, trim,
  lines_from, lines, eq_text→≡, Result, ok, err, ◌≤◌, ◌≡◌, refl, sym, ap, ◌∙◌, subst, ◌≢◌, inl, inr,
  Bool, true, false, ◌&&◌, Option, none, some, List, [], ◌∷◌, ◌++◌, map,
}
use backr.Trust.Keys.{RegexClasses, is_ok, validate_pubkey_line, is_valid_line}
use backr.Trust.File.{
  HostEnv, TrustError, RemoveResult, accepted_line, is_present, append_checked,
  host_append_authorized_pubkey, host_remove_authorized_pubkey, existing_of,
}
use backr.Trust.Counting.{finished, map-trim-lines-finished}
use backr.Trust.Append.{
  IsKeyLine, accepted_line-parts, append_checked-adds, valid_of, added, any-map,
}
use backr.Trust.Remove.{keys_of, others, Removes, host_remove-Removes}

-- what a host is asked to do with its keys
pub data HostCommand : Type 0 where
  append : Text → HostCommand
  remove : Text → HostCommand

-- the promise: an ordered list of keys
abbrev pub insert : Text → List Text → List Text
insert line keys = if any (λ k. eq_text k line) keys then keys else keys ++ line ∷ []

-- the keys of a file that may be absent
abbrev pub keys_in : RegexClasses → Option Text → List Text
keys_in re none = []
keys_in re (some content) = keys_of re content

-- A host that knows the account, and whose file can be read, appended to and replaced.
pub record IsHealthy (env : HostEnv) : Type 0 where
  pub account : Text × Text
  pub located : env.located ≡ ok account
  pub readable : env.readable ≡ true
  pub appendable : env.appendable ≡ true
  pub writes : 3 ≤ env.writes
  pub replaceable : env.replaceable ≡ true

true-ne-false : true ≢ false
true-ne-false h = cc

any-filter :
    (p q : Text → Bool) (l : List Text)
    → ((x : Text) → q x ≡ true → p x ≡ true)
    → any q (filter p l) ≡ any q l
any-filter p q [] h = refl
any-filter p q (x ∷ l) h = elim (Bool-cases (p x)) [
  | inl passes ↦ rw (passes) (ap (λ b. if q x then true else b) (any-filter p q l h))
  | inr fails ↦ elim (Bool-cases (q x)) [
    | inl held ↦ absurd (true-ne-false (sym (h x held) ∙ fails))
    | inr other ↦ rw (fails, other) (any-filter p q l h)
  ]
]

any-both :
    (p : Text → Bool) (l : List Text) (line : Text)
    → p line ≡ true
    → any (λ t. p t && eq_text t line) l ≡ any (λ t. eq_text t line) l
any-both p [] line h = refl
any-both p (x ∷ l) line h = elim (Bool-cases (eq_text x line)) [
  | inl same ↦ rw (same, subst (λ t. p t ≡ true) (sym (eq_text→≡ x line same)) h) refl
  | inr other ↦ elim (Bool-cases (p x)) [
    | inl yes_ ↦ rw (yes_, other) (any-both p l line h)
    | inr no_ ↦ rw (no_, other) (any-both p l line h)
  ]
]

module _ (env : HostEnv) where
  abbrev pub apply : HostCommand → Option Text → Option Text
  apply (append raw) file = (host_append_authorized_pubkey env raw file).0
  apply (remove raw) file = (host_remove_authorized_pubkey env raw file).0

  abbrev pub apply_all : List HostCommand → Option Text → Option Text
  apply_all [] file = file
  apply_all (c ∷ cs) file = apply_all cs (apply c file)

  -- the command on the list of keys: a line that is no key is refused
  abbrev pub promised : HostCommand → List Text → List Text
  promised (append raw) keys = elim (accepted_line env raw) [
    | err _ ↦ keys
    | ok line ↦ insert line keys
  ]
  promised (remove raw) keys = others (trim raw) keys

  abbrev pub promised_all : List HostCommand → List Text → List Text
  promised_all [] keys = keys
  promised_all (c ∷ cs) keys = promised_all cs (promised c keys)

  keys-finished :
      (existing line : Text)
      → IsKeyLine line
      → is_ok (validate_pubkey_line env.re line) ≡ true
      → keys_of env.re (finished existing ++ (line ++ 10 ∷ []))
        ≡ keys_of env.re existing ++ line ∷ []
  unfolding keys_of
  keys-finished existing line key valid =
      ap (filter (is_valid_line env.re)) (map-trim-lines-finished existing line key.one_line)
      ∙ (filter-append (is_valid_line env.re) (map trim (lines existing)) (trim line ∷ [])
          ∙ rw (key.trimmed, valid_of env line key valid) refl)

  is_present-keys :
      (content line : Text)
      → IsKeyLine line
      → is_ok (validate_pubkey_line env.re line) ≡ true
      → is_present env content line ≡ any (λ k. eq_text k line) (keys_of env.re content)
  unfolding keys_of is_present
  is_present-keys content line key valid =
      any-map (λ t. is_ok (validate_pubkey_line env.re t) && eq_text t line) trim (lines content)
      ∙ (any-both (λ t. is_ok (validate_pubkey_line env.re t)) (map trim (lines content)) line valid
          ∙ sym (
              any-filter (is_valid_line env.re) (λ k. eq_text k line) (map trim (lines content))
                (λ x same.
                  subst (λ t. is_valid_line env.re t ≡ true) (sym (eq_text→≡ x line same))
                    (valid_of env line key valid))))

  append_checked-promised :
      (h : IsHealthy env) (file : Option Text) (existing line : Text)
      → IsKeyLine line
      → is_ok (validate_pubkey_line env.re line) ≡ true
      → keys_in env.re file ≡ keys_of env.re existing
      → keys_in env.re (append_checked env h.account file existing line).0
        ≡ insert line (keys_in env.re file)
  unfolding append_checked added
  append_checked-promised h file existing line key valid same =
      elim (Bool-cases (is_present env existing line)) [
        | inl present ↦
            rw
              (
                append_checked,
                present,
                same,
                sym (is_present-keys existing line key valid),
                present,
              )
              refl
        | inr absent ↦
            ap (λ p. keys_in env.re p.0)
              (append_checked-adds env h.account file existing line h.appendable h.writes key valid
                absent)
            ∙ (keys-finished existing line key valid
                ∙ rw (same, sym (is_present-keys existing line key valid), absent) refl)
      ]

  pub existing-healthy :
      (h : IsHealthy env) (file : Option Text)
      → (existing : Text) × (existing_of env file ≡ ok existing)
        × (keys_in env.re file ≡ keys_of env.re existing)
  unfolding keys_of lines_from
  existing-healthy h none = ([], refl, refl)
  existing-healthy h (some content) = (content, rw (h.readable) refl, refl)

  removed-keys :
      (target content : Text) (p : Option Text × Result RemoveResult TrustError)
      → Removes env target content p
      → keys_in env.re p.0 ≡ others target (keys_of env.re content)
  unfolding Removes
  removed-keys target content p (content', result, same, answered, keys) = rw (same) keys

  -- One command keeps file and list in step.
  apply-promised :
      (h : IsHealthy env) (c : HostCommand) (file : Option Text)
      → keys_in env.re (apply c file) ≡ promised c (keys_in env.re file)
  unfolding host_append_authorized_pubkey host_remove_authorized_pubkey
  apply-promised h (append raw) file = elim (Result-cases (accepted_line env raw)) [
    | inr (e, refused) ↦ rw (keys_in, promised, host_append_authorized_pubkey, refused) refl
    | inl (line, accepted) ↦
        let (existing, found, same) = existing-healthy h file in
        let (key, valid) = accepted_line-parts env raw line accepted in
        rw (keys_in, promised, host_append_authorized_pubkey, accepted, h.located, found)
          (append_checked-promised h file existing line key valid same)
  ]
  apply-promised h (remove raw) none = rw (host_remove_authorized_pubkey, h.located) refl
  apply-promised h (remove raw) (some content) =
      removed-keys (trim raw) content (host_remove_authorized_pubkey env raw (some content))
        (host_remove-Removes env raw content h.account h.located h.readable h.replaceable)

  -- Whatever keys a host is asked to trust and to forget, one after the other, its file holds the keys
  -- of the ordered list on which each accepted key was put at the end, if it was not there, and each
  -- forgotten one was taken out, where the account is known and the file can be read, appended to and
  -- replaced.
  pub apply_all-promised_all :
      (h : IsHealthy env) (cs : List HostCommand) (file : Option Text)
      → keys_in env.re (apply_all cs file) ≡ promised_all cs (keys_in env.re file)
  apply_all-promised_all h [] file = refl
  apply_all-promised_all h (c ∷ cs) file =
      apply_all-promised_all h cs (apply c file) ∙ ap (promised_all cs) (apply-promised h c file)
