-- ===== src/Trust/Keys.antt =====
-- host_trust.rs: one public-key line, and the count of such lines in a file.
use backr.Base.{
  strip_prefix, if◌then◌else◌, length, any, filter, Text, codes, is_empty, starts_with, trim,
  replace_char, lines, Result, ok, err, ℕ, Bool, true, false, ◌&&◌, not, none, some, List, [], ◌∷◌,
}

-- What the regular-expression library matches by `\s` and by `\d`.
pub record RegexClasses : Type 0 where
  pub space : ℕ → Bool
  pub digit : ℕ → Bool

pub data PubkeyError : Type 0 where
  empty_pubkey_line comment_line unrecognized : PubkeyError

-- `raw.trim().replace('\r', "")`, its first line, trimmed
unfoldable pub normalize_pubkey_line : Text → Result Text PubkeyError
normalize_pubkey_line raw =
    let t = replace_char 13 [] (trim raw) in
    let line = trim (elim (lines t) [ [] ↦ [] | first ∷ _ ↦ first ]) in
    if is_empty line then err empty_pubkey_line else ok line

-- The alternatives of `PUBKEY_PREFIX_RE`.
abbrev pub key_types : List Text
key_types =
    codes "ssh-rsa"
    ∷ codes "ssh-ed25519"
    ∷ codes "ssh-dss"
    ∷ codes "ecdsa-sha2-nistp256"
    ∷ codes "ecdsa-sha2-nistp384"
    ∷ codes "ecdsa-sha2-nistp521"
    ∷ codes "sk-ssh-ed25519"
    ∷ codes "sk-ecdsa-sha2-nistp256"
    ∷ []

-- `r.is_ok()`
abbrev pub is_ok : Result (Unit {0}) PubkeyError → Bool
is_ok (ok _) = true
is_ok (err _) = false

module _ (re : RegexClasses) where
  -- `^t\s` for one alternative
  unfoldable pub key_type_matches : Text → Text → Bool
  key_type_matches line t = elim (strip_prefix t line) [
    | none ↦ false
    | some [] ↦ false
    | some (c ∷ _) ↦ re.space c
  ]

  -- `PUBKEY_PREFIX_RE.is_match(line)`
  unfoldable pub is_pubkey_prefix : Text → Bool
  unfolding key_type_matches
  is_pubkey_prefix line = any (key_type_matches line) key_types

  unfoldable pub validate_pubkey_line : Text → Result (Unit {0}) PubkeyError
  validate_pubkey_line line =
      if starts_with (codes "#") line
      then err comment_line
      else if not (is_pubkey_prefix line)
      then err unrecognized
      else ok tt

  -- the test of the filter in `count_pubkey_lines`, on a trimmed line
  unfoldable pub is_valid_line : Text → Bool
  is_valid_line t =
      not (is_empty t) && (not (starts_with (codes "#") t) && is_ok (validate_pubkey_line t))

  unfoldable pub count_pubkey_lines : Text → ℕ
  unfolding is_valid_line
  count_pubkey_lines content = length (filter (λ l. is_valid_line (trim l)) (lines content))
