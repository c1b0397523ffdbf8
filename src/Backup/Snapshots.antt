-- ===== src/Backup/Snapshots.antt =====
-- backup/ssh.rs: snapshot names, and what the remote `find` prints. A character class of the regular
-- expressions and the parser of floating-point numbers are arguments.
use backr.Base.{
  Bool-eq, Result-cases, All-lines, lines-lack_newline, ap₂, trim_idem, trim-strip_cr,
  strip_cr_of_lacks, All-trim, All-trim_start_by, All-trim_end_by, lines-append, lines_line,
  map-trim-lines-finish, strip_prefix, splitn_from, splitn, ends_with_char, split-nil,
  split-cons_sep, ltb, leb, ◌==◌, if◌then◌else◌, ==_iff, ==_self, Bool-cases, Option-cases, length,
  take, head?, any, filter, length-append, length-filter, filter-append, All, All-append,
  All-append_iff, All-map, All-filter, Text, codes, eq_text, is_empty, contains_char, starts_with,
  contains, is_whitespace, trim_start_by, trim_end_by, trim, split_from, split, join, replace_char,
  strip_cr, lines_from, lines, is_digit, digits_from, parse_uint, eq_text→≡, eq_text_self,
  eq_text_iff, contains_char-eq-false_iff, split_from-append, split-append, split_from_of_lacks,
  trim_end_by_parts, trim_start_by_parts, trim_start_by-cons, trim_end_by-concat, is_empty-concat,
  ne_of_eq_text, eq_text_of_ne, ne_nil_of_is_empty, is_empty_of_ne_nil, Result, ok, err, map_err,
  ok_or, to_option, >>=-eq-ok, ℕ, zero, suc, ◌+◌, ◌-◌, ◌*◌, ◌/◌, ◌%◌, ◌^◌, ◌≤◌, ◌<◌, String, ◌≡◌,
  refl, sym, ap, ◌∙◌, subst, ◌≢◌, ◌↔◌, ◌⊎◌, inl, inr, Bool, true, false, ◌&&◌, ◌||◌, not, Option,
  none, some, List, [], ◌∷◌, ◌++◌, map, reverse, append-nil, append_assoc, map-append,
  reverse-append, arith,
}
use backr.Trust.Keys.{RegexClasses}
pub mod Sorted
pub mod Names
pub mod Rows

-- The order of `str`: by code points, which is the order of the bytes.
unfoldable pub text_le : Text → Text → Bool
text_le [] t = true
text_le (_ ∷ _) [] = false
text_le (a ∷ s) (b ∷ t) = if a == b then text_le s t else ltb a b

-- `names.sort_by(|a, b| b.cmp(a))`
unfoldable pub insert_desc : Text → List Text → List Text
insert_desc x [] = x ∷ []
insert_desc x (y ∷ ys) = let rest = insert_desc x ys in if text_le y x then x ∷ y ∷ ys else y ∷ rest

unfoldable pub sort_desc : List Text → List Text
sort_desc [] = []
sort_desc (x ∷ xs) = insert_desc x (sort_desc xs)

-- `^\d{4}-\d{2}-\d{2}_\d{2}-\d{2}-\d{2}$`, with `none` for a digit
abbrev pub two_digits : List (Option ℕ) → List (Option ℕ)
two_digits rest = none ∷ none ∷ rest

abbrev pub snapshot_pattern : List (Option ℕ)
snapshot_pattern = two_digits (
    two_digits (
      some b'-'
      ∷ two_digits (
          some b'-'
          ∷ two_digits
              (some b'_' ∷ two_digits (some b'-' ∷ two_digits (some b'-' ∷ two_digits []))))))

unfoldable pub matches : RegexClasses → List (Option ℕ) → Text → Bool
matches re [] [] = true
matches re [] (_ ∷ _) = false
matches re (_ ∷ _) [] = false
matches re (none ∷ pattern) (c ∷ s) = if re.digit c then matches re pattern s else false
matches re (some d ∷ pattern) (c ∷ s) = if c == d then matches re pattern s else false

unfoldable pub is_valid_snapshot_name : RegexClasses → Text → Bool
is_valid_snapshot_name re name = matches re snapshot_pattern name

-- the names in what `find` printed, newest first
unfoldable pub parse_snapshot_names : RegexClasses → Text → List Text
parse_snapshot_names re raw = sort_desc (
    filter (is_valid_snapshot_name re) (filter (λ s. not (is_empty s)) (map trim (split 0x1e raw))))

-- One row of a listing.
pub record RemoteFindEntry (F : Type 0) : Type 0 where
  pub file_type : ℕ
  pub size : ℕ
  pub mtime_unix : F
  pub name : Text

pub data RowError : Type 0 where
  malformed_row : RowError
  missing_file_type : RowError
  invalid_size : RowError
  invalid_mtime : RowError

abbrev is_dot : Text → Bool
is_dot name = is_empty name || (eq_text name (codes ".") || eq_text name (codes ".."))

module _ {F : Type 0} (parse_f64 : Text → Option F) where
  -- the four columns of a record; `none` where the record is passed over
  unfoldable pub row_of : Text → Text → Text → Text → Result (Option (RemoteFindEntry F)) RowError
  row_of ty size mtime name = if is_dot name then ok none else elim ty [
    | [] ↦ err missing_file_type
    | file_type ∷ _ ↦ elim (parse_uint (2 ^ 64 - 1) size) [
      | none ↦ err invalid_size
      | some n ↦ elim (parse_f64 mtime) [
        | none ↦ err invalid_mtime
        | some f ↦
            ok (some (record { file_type = file_type; size = n; mtime_unix = f; name = name }))
      ]
    ]
  ]

  unfoldable pub columns_row : List Text → Result (Option (RemoteFindEntry F)) RowError
  columns_row [] = err malformed_row
  columns_row (_ ∷ []) = err malformed_row
  columns_row (_ ∷ (_ ∷ [])) = err malformed_row
  columns_row (_ ∷ (_ ∷ (_ ∷ []))) = err malformed_row
  columns_row (ty ∷ (size ∷ (mtime ∷ (name ∷ _)))) = row_of ty size mtime name

  unfoldable pub parse_row : Text → Result (Option (RemoteFindEntry F)) RowError
  parse_row raw =
      let record_text = trim_end_by is_whitespace raw in
      if is_empty record_text then ok none else columns_row (splitn 4 0x1f record_text)

  unfoldable pub parse_rows : List Text → Result (List (RemoteFindEntry F)) RowError
  parse_rows [] = ok []
  parse_rows (r ∷ rs) = elim (parse_row r) [
    | err e ↦ err e
    | ok row ↦ elim (parse_rows rs) [
      | err e ↦ err e
      | ok rest ↦ ok (elim row [ none ↦ rest | some entry ↦ entry ∷ rest ])
    ]
  ]

  -- the rows in what `find` printed
  unfoldable pub parse_children : Text → Result (List (RemoteFindEntry F)) RowError
  parse_children raw = parse_rows (split 0x1e raw)
