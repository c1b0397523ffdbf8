-- ===== src/Tests/Snapshots.antt =====
-- Listings of a remote project.
use backr.Base.{
  false, split_from, filter, All, Text, codes, eq_text, contains_char, is_whitespace, trim_start_by,
  trim_end_by, trim, is_digit, digits_from, parse_uint, contains_char-eq-false_iff, ok, ℕ, ◌≡◌,
  refl, Option, List, [], ◌∷◌,
}
use backr.Trust.Keys.{RegexClasses}
use backr.Backup.Snapshots.{
  sort_desc, insert_desc, text_le, matches, is_valid_snapshot_name, parse_snapshot_names,
  parse_children,
}
use backr.Backup.Snapshots.Sorted.{IsDescending, occurrences}
use backr.Backup.Snapshots.Names.{
  print_names, IsPlainName, is_dated, parse_snapshot_names-print_names,
}
use backr.Backup.Snapshots.Rows.{
  Row, print_rows, PlainRows, no_rows, a_row, entry, parse_children-print_rows,
}

abbrev re : RegexClasses
re = record { space = is_whitespace; digit = is_digit }

abbrev names : List Text
names = codes "2026-05-11_09-30-45" ∷ codes "a b" ∷ codes "2026-06-01_00-00-00" ∷ []

plain_name : (n : Text) → contains_char 0x1e n ≡ false → trim n ≡ n → IsPlainName n
plain_name n whole trimmed = record {
  one_record = (contains_char-eq-false_iff 0x1e n).0 whole;
  trimmed = trimmed;
}

names-plain : All IsPlainName names
unfolding trim trim_start_by trim_end_by is_whitespace contains_char
names-plain = (
  plain_name (codes "2026-05-11_09-30-45") refl refl,
  (plain_name (codes "a b") refl refl, (plain_name (codes "2026-06-01_00-00-00") refl refl, tt)),
)

-- the two snapshots, the later one first
listed :
    parse_snapshot_names re (trim (print_names names))
    ≡ codes "2026-06-01_00-00-00" ∷ codes "2026-05-11_09-30-45" ∷ []
unfolding parse_snapshot_names trim trim_start_by trim_end_by is_whitespace split_from
    is_valid_snapshot_name matches sort_desc insert_desc text_le print_names
listed = refl

parse_snapshot_names-print_names_example :
    (parse_snapshot_names re (trim (print_names names))
      ≡ sort_desc (filter (is_dated is_digit) names))
    × IsDescending (parse_snapshot_names re (trim (print_names names)))
    × ((n : Text)
        → occurrences n (parse_snapshot_names re (trim (print_names names)))
          ≡ occurrences n (filter (is_dated is_digit) names))
parse_snapshot_names-print_names_example = parse_snapshot_names-print_names re names names-plain

-- Times are read as whole seconds.
abbrev parse_f64 : Text → Option ℕ
parse_f64 s = parse_uint 1000000 s

abbrev row : Row
row = record { file_type = b'f'; size = codes "12"; mtime = codes "77"; name = codes "a.rs" }

rows-plain : PlainRows parse_f64 (row ∷ []) (entry parse_f64 row 12 77 ∷ [])
unfolding trim_end_by is_whitespace eq_text parse_uint digits_from
rows-plain =
    a_row row 12 77 [] []
      (record {
        type_field = ((λ e. cc, λ e. cc), tt);
        type_stays = refl;
        size_field = ((λ e. cc, λ e. cc), ((λ e. cc, λ e. cc), tt));
        mtime_field = ((λ e. cc, λ e. cc), ((λ e. cc, λ e. cc), tt));
        size = refl;
        mtime = refl;
        name_record = (λ e. cc, (λ e. cc, (λ e. cc, (λ e. cc, tt))));
        name_end = refl;
        name_empty = refl;
        name_dot = refl;
        name_dots = refl;
      })
      no_rows

parse_children-print_rows_example :
    parse_children parse_f64 (trim (print_rows (row ∷ []))) ≡ ok (entry parse_f64 row 12 77 ∷ [])
parse_children-print_rows_example =
    parse_children-print_rows parse_f64 (row ∷ []) (entry parse_f64 row 12 77 ∷ []) rows-plain
