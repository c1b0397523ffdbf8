-- ===== src/Update/Release.antt =====
-- update/release.rs: versions, assets, and the checksum manifest.
use backr.Base.{
  Bool-eq, Result-cases, All-lines, lines-lack_newline, ap₂, trim_idem, trim-strip_cr,
  strip_cr_of_lacks, All-trim, All-trim_start_by, All-trim_end_by, lines-append, lines_line,
  map-trim-lines-finish, strip_prefix, splitn_from, splitn, ends_with_char, split-nil,
  split-cons_sep, ltb, leb, ◌==◌, if◌then◌else◌, ==_iff, ==_self, Bool-cases, Option-cases, length,
  take, head?, any, filter, length-append, length-filter, filter-append, All, All-append,
  All-append_iff, All-map, All-filter, Text, codes, eq_text, is_empty, contains_char, starts_with,
  contains, is_whitespace, trim_start_by, trim_end_by, trim, split_from, split, join, replace_char,
  strip_cr, lines_from, lines, is_digit, digits_from, parse_uint, eq_text→≡, eq_text_self,
  eq_text_iff, contains_char-eq-false_iff, split_from-append, split-append, split_from_of_lacks,
  trim_end_by_parts, trim_start_by_parts, trim_start_by-cons, trim_end_by-concat, is_empty-concat,
  ne_of_eq_text, eq_text_of_ne, ne_nil_of_is_empty, is_empty_of_ne_nil, Result, ok, err, map_err,
  ok_or, to_option, >>=-eq-ok, ℕ, zero, suc, ◌+◌, ◌-◌, ◌*◌, ◌/◌, ◌%◌, ◌^◌, ◌≤◌, ◌<◌, String, ◌≡◌,
  refl, sym, ap, ◌∙◌, subst, ◌≢◌, ◌↔◌, ◌⊎◌, inl, inr, Bool, true, false, ◌&&◌, ◌||◌, not, Option,
  none, some, List, [], ◌∷◌, ◌++◌, map, reverse, append-nil, append_assoc, map-append,
  reverse-append, arith,
}
use backr.Base.Maybe.{◌>>=◌}
use backr.Pairing.Bits.{as_bytes}
pub mod Order

pub record ReleaseAsset : Type 0 where
  pub name : Text
  pub url : Text

pub record ReleaseInfo : Type 0 where
  pub tag : Text
  pub assets : List ReleaseAsset

-- `assets.iter().find(|a| a.name == name)`
unfoldable pub find_asset : Text → List ReleaseAsset → Option ReleaseAsset
find_asset name [] = none
find_asset name (a ∷ assets) = if eq_text a.name name then some a else find_asset name assets

abbrev pub asset : ReleaseInfo → Text → Option ReleaseAsset
asset release name = find_asset name release.assets

abbrev pub asset_name : Text → Text → Text
asset_name bin arch = bin ++ (codes "-linux-" ++ arch)

abbrev pub checksum_asset_name : Text
checksum_asset_name = codes "SHA256SUMS"

abbrev pub release_binaries : List Text
release_binaries = codes "backrd" ∷ codes "backr-app" ∷ codes "backr" ∷ []

abbrev pub binary_asset : Text → ReleaseInfo → Text → Option ReleaseAsset
binary_asset arch release bin = asset release (asset_name bin arch)

abbrev pub checksum_asset : ReleaseInfo → Option ReleaseAsset
checksum_asset release = asset release checksum_asset_name

-- `(major, minor, patch)`
pub record Version : Type 0 where
  pub major : ℕ
  pub minor : ℕ
  pub patch : ℕ

-- `t.split(['-', '+']).next()`
unfoldable pub core_of : Text → Text
core_of [] = []
core_of (c ∷ s) = let rest = core_of s in if c == b'-' || c == b'+' then [] else c ∷ rest

abbrev pub max_u64 : ℕ
max_u64 = 2 ^ 64 - 1

-- the first three parts, each parsed as it is taken
unfoldable pub version_of : List Text → Option Version
version_of [] = none
version_of (a ∷ []) = parse_uint max_u64 a >>= λ _. none
version_of (a ∷ (b ∷ [])) = parse_uint max_u64 a >>= λ _. parse_uint max_u64 b >>= λ _. none
version_of (a ∷ (b ∷ (c ∷ _))) = do
  major ← parse_uint max_u64 a
  minor ← parse_uint max_u64 b
  patch ← parse_uint max_u64 c
  some (record { major = major; minor = minor; patch = patch })

-- `t.strip_prefix('v').unwrap_or(t)`
abbrev pub without_v : Text → Text
without_v t = elim (strip_prefix (codes "v") t) [ none ↦ t | some rest ↦ rest ]

unfoldable pub parse_version : Text → Option Version
parse_version s = version_of (split b'.' (core_of (without_v (trim s))))

-- `l > c` on tuples
abbrev pub newer : Version → Version → Bool
newer l c =
    ltb c.major l.major
    || (c.major == l.major && (ltb c.minor l.minor || (c.minor == l.minor && ltb c.patch l.patch)))

unfoldable pub is_newer : Text → Text → Bool
is_newer latest current = elim (parse_version latest) [
  | none ↦ false
  | some l ↦ elim (parse_version current) [ none ↦ false | some c ↦ newer l c ]
]

-- `to_ascii_lowercase` of one character
abbrev pub ascii_lower : ℕ → ℕ
ascii_lower c = if leb b'A' c && leb c b'Z' then c + 32 else c

abbrev pub eq_ignore_ascii_case : Text → Text → Bool
eq_ignore_ascii_case a b = eq_text (map ascii_lower a) (map ascii_lower b)

-- `line.split_once(char::is_whitespace)`
unfoldable pub split_once_space : Text → Option (Text × Text)
split_once_space [] = none
split_once_space (c ∷ s) =
    let rest = split_once_space s in
    if is_whitespace c
    then some ([], s)
    else elim rest [ none ↦ none | some (a, b) ↦ some (c ∷ a, b) ]

abbrev pub star_or_space : ℕ → Bool
star_or_space c = c == b' ' || c == b'*'

-- one line of the manifest: the name and the checksum in lower case
unfoldable pub manifest_entry : Text → Option (Text × Text)
manifest_entry raw =
    let line = trim raw in
    if is_empty line then none else do
      (hex, rest) ← split_once_space line
      let name = trim (trim_start_by star_or_space rest) in
          if length (as_bytes hex) == 64 && not (is_empty name)
          then some (name, map ascii_lower hex)
          else none

-- the map of the manifest: a later line wins
unfoldable pub insert_entries : List Text → (Text → Option Text) → Text → Option Text
insert_entries [] sums = sums
insert_entries (l ∷ ls) sums = elim (manifest_entry l) [
  | none ↦ insert_entries ls sums
  | some (name, hex) ↦ insert_entries ls (λ n. if eq_text n name then some hex else sums n)
]

unfoldable pub parse_sha256sums : Text → Text → Option Text
parse_sha256sums text = insert_entries (lines text) (λ _. none)

-- the test of `verify_sha256`, for the digest that the hashing library computes
abbrev pub checksum_matches : (Text → Text) → Text → Text → Bool
checksum_matches sha256_hex content expected =
    eq_ignore_ascii_case (sha256_hex content) (trim expected)
