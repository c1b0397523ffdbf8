-- ===== src/Pairing/Code.antt =====
-- pairing/code.rs: the pairing session, a single-use code with a budget of wrong attempts.
use backr.Base.{
  Result-cases, All-lines, lines-lack_newline, ap₂, trim_idem, trim-strip_cr, strip_cr_of_lacks,
  All-trim, All-trim_start_by, All-trim_end_by, lines-append, lines_line, map-trim-lines-finish,
  strip_prefix, splitn_from, splitn, ends_with_char, split-nil, split-cons_sep, ltb, leb, ◌==◌,
  if◌then◌else◌, ==_iff, ==_self, Bool-cases, Option-cases, length, take, head?, any, filter,
  length-append, length-filter, filter-append, All, All-append, All-append_iff, All-map, All-filter,
  Text, codes, eq_text, is_empty, contains_char, starts_with, contains, is_whitespace,
  trim_start_by, trim_end_by, trim, split_from, split, join, replace_char, strip_cr, lines_from,
  lines, is_digit, digits_from, parse_uint, eq_text→≡, eq_text_self, eq_text_iff,
  contains_char-eq-false_iff, split_from-append, split-append, split_from_of_lacks,
  trim_end_by_parts, trim_start_by_parts, trim_start_by-cons, trim_end_by-concat, is_empty-concat,
  ne_of_eq_text, eq_text_of_ne, ne_nil_of_is_empty, is_empty_of_ne_nil, Result, ok, err, map_err,
  ok_or, to_option, >>=-eq-ok, ℕ, zero, suc, ◌+◌, ◌-◌, ◌*◌, ◌/◌, ◌%◌, ◌^◌, ◌≤◌, ◌<◌, String, ◌≡◌,
  refl, sym, ap, ◌∙◌, subst, ◌≢◌, ◌↔◌, ◌⊎◌, inl, inr, Bool, true, false, ◌&&◌, ◌||◌, not, Option,
  none, some, List, [], ◌∷◌, ◌++◌, map, reverse, append-nil, append_assoc, map-append,
  reverse-append, arith,
}
use backr.Pairing.Bits.{xor, or, as_bytes}
pub mod Compare
pub mod Attempts

abbrev pub max_attempts : ℕ
max_attempts = 5

pub data CodeValidation : Type 0 where
  valid : CodeValidation
  invalid : ℕ → CodeValidation
  locked already_used : CodeValidation

pub record PairingSession : Type 0 where
  pub code : Text
  pub attempts_left : ℕ
  pub consumed : Bool

-- `format!("{:06}", n)` for `n` below 1,000,000
abbrev pub six_digits : ℕ → Text
six_digits n =
    (b'0' + n / 100000 % 10)
    ∷ (b'0' + n / 10000 % 10)
    ∷ (b'0' + n / 1000 % 10)
    ∷ (b'0' + n / 100 % 10)
    ∷ (b'0' + n / 10 % 10)
    ∷ (b'0' + n % 10)
    ∷ []

-- `PairingSession::new`, with the random number drawn from `0..1_000_000`
abbrev pub new_session : ℕ → PairingSession
new_session n = record { code = six_digits n; attempts_left = max_attempts; consumed = false }

-- the fold of the loop over `a.iter().zip(b.iter())`
unfoldable pub fold_diff : ℕ → List ℕ → List ℕ → ℕ
fold_diff diff [] bs = diff
fold_diff diff (x ∷ xs) [] = diff
fold_diff diff (x ∷ xs) (y ∷ ys) = fold_diff (or 8 diff (xor 8 x y)) xs ys

unfoldable pub constant_time_eq : List ℕ → List ℕ → Bool
constant_time_eq a b = if not (length a == length b) then false else fold_diff 0 a b == 0

unfoldable pub validate : Text → PairingSession → PairingSession × CodeValidation
validate input s =
    if s.consumed
    then (s, already_used)
    else if s.attempts_left == 0
    then (s, locked)
    else if constant_time_eq (as_bytes input) (as_bytes s.code)
    then (record s { consumed = true }, valid)
    else (record s { attempts_left = s.attempts_left - 1 }, invalid (s.attempts_left - 1))
