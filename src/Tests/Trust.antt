-- ===== src/Tests/Trust.antt =====
-- A host that trusts one more key.
use backr.Base.{
  ends_with_char, ◌++◌, List, strip_prefix, Text, codes, eq_text, starts_with, is_whitespace,
  trim_start_by, trim_end_by, trim, replace_char, strip_cr, lines_from, is_digit, ok, ◌≡◌, refl,
  true, false, none, some, [], ◌∷◌, arith,
}
use backr.Trust.Keys.{
  RegexClasses, normalize_pubkey_line, validate_pubkey_line, is_pubkey_prefix, key_type_matches,
}
use backr.Trust.File.{
  host_append_authorized_pubkey, append_checked, append_direct, write_pieces, pieces, HostEnv,
  accepted_line, is_present,
}
use backr.Trust.Torn.{Survives, host_append-Survives}
use backr.Trust.Refined.{
  HostCommand, append, remove, keys_in, IsHealthy, apply_all, promised_all, apply_all-promised_all,
}

abbrev pub re : RegexClasses
re = record { space = is_whitespace; digit = is_digit }

abbrev env : HostEnv
env = record {
  re = re;
  located = ok (codes "backr", codes "/home/backr");
  readable = true;
  appendable = true;
  writes = 3;
  torn = λ _. [];
  replaceable = true;
  sudo_cat = λ _. none;
  helper = λ _ _. none;
}

abbrev key : Text
key = codes "ssh-rsa AAA me"

abbrev content : Text
content = codes "ssh-dss BBB"

key_accepted : accepted_line env (codes " ssh-rsa AAA me\r\n") ≡ ok key
unfolding accepted_line normalize_pubkey_line validate_pubkey_line is_pubkey_prefix key_type_matches
    strip_prefix starts_with trim trim_start_by trim_end_by is_whitespace replace_char lines_from
    strip_cr
key_accepted = refl

key_absent : is_present env content key ≡ false
unfolding is_present validate_pubkey_line is_pubkey_prefix key_type_matches strip_prefix starts_with
    trim trim_start_by trim_end_by is_whitespace lines_from strip_cr eq_text
key_absent = refl

env-IsHealthy : IsHealthy env
env-IsHealthy = record {
  account = (codes "backr", codes "/home/backr");
  located = refl;
  readable = refl;
  appendable = refl;
  writes = omega arith;
  replaceable = refl;
}

-- one key is trusted twice, and another is forgotten
abbrev commands : List HostCommand
commands = append (codes " ssh-rsa AAA me\r\n") ∷ remove (codes "ssh-dss BBB") ∷ append key ∷ []

apply_all-promised_all_example :
    keys_in re (apply_all env commands (some content))
    ≡ promised_all env commands (keys_in re (some content))
apply_all-promised_all_example = apply_all-promised_all env env-IsHealthy commands (some content)

-- The second write of an append leaves one letter.
abbrev first_letter : Text → Text
first_letter p = elim p [ [] ↦ [] | c ∷ _ ↦ c ∷ [] ]

abbrev short_env : HostEnv
short_env = record env { writes = 1; torn = first_letter }

first_letter-torn : (p : Text) → (rest : Text) × (p ≡ first_letter p ++ rest)
first_letter-torn [] = ([], refl)
first_letter-torn (c ∷ p) = (p, refl)

torn_file :
    (host_append_authorized_pubkey short_env (codes " ssh-rsa AAA me\r\n") (some content)).0
    ≡ some (codes "ssh-dss BBB\ns")
unfolding host_append_authorized_pubkey append_checked append_direct write_pieces pieces
    ends_with_char accepted_line normalize_pubkey_line validate_pubkey_line is_pubkey_prefix
    key_type_matches strip_prefix starts_with trim trim_start_by trim_end_by is_whitespace
    replace_char lines_from strip_cr eq_text is_present
torn_file = refl

host_append-Survives_example :
    Survives short_env content
      (codes " ssh-rsa AAA me\r\n")
      (host_append_authorized_pubkey short_env (codes " ssh-rsa AAA me\r\n") (some content))
host_append-Survives_example =
    host_append-Survives short_env first_letter-torn (codes " ssh-rsa AAA me\r\n") content
      (λ line. refl)
