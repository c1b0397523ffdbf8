-- ===== src/Backup/Validate.antt =====
-- crates/backr-core/src/backup/validate.rs
pub mod Laws
use backr.Base.{
  ltb, leb, ◌==◌, if◌then◌else◌, ==_iff, ==_self, Bool-cases, Option-cases, length, take, head?,
  any, filter, length-append, length-filter, filter-append, All, All-append, All-append_iff,
  All-map, All-filter, Text, codes, eq_text, is_empty, contains_char, starts_with, contains,
  is_whitespace, trim_start_by, trim_end_by, trim, split_from, split, join, replace_char, strip_cr,
  lines_from, lines, is_digit, digits_from, parse_uint, eq_text→≡, eq_text_self, eq_text_iff,
  contains_char-eq-false_iff, split_from-append, split-append, split_from_of_lacks,
  trim_end_by_parts, trim_start_by_parts, trim_start_by-cons, trim_end_by-concat, is_empty-concat,
  Result, ok, err, map_err, ok_or, to_option, >>=-eq-ok, ℕ, zero, suc, ◌+◌, ◌-◌, ◌*◌, ◌/◌, ◌%◌, ◌^◌,
  ◌≤◌, ◌<◌, String, ◌≡◌, refl, sym, ap, ◌∙◌, subst, ◌≢◌, ◌↔◌, ◌⊎◌, inl, inr, Bool, true, false,
  ◌&&◌, ◌||◌, not, Option, none, some, List, [], ◌∷◌, ◌++◌, map, reverse, append-nil, append_assoc,
  map-append, reverse-append, arith,
}

unfoldable pub validate_remote_component : Text → Result (Unit {0}) String
validate_remote_component name =
    if is_empty name
    then err "path component must not be empty"
    else if eq_text name (codes ".")
    then err "path component must not be \".\" (current directory)"
    else if eq_text name (codes "..")
    then err "path component must not be \"..\" (parent directory traversal)"
    else if contains_char b'/' name
    then err
        "path component must not contain '/' (use validate_relative_path for multi-segment paths)"
    else if contains_char 92 name
    then err "path component must not contain '\\'"
    else if contains_char 0 name
    then err "path component must not contain NUL bytes"
    else if contains_char 10 name
    then err "path component must not contain newline characters"
    else ok tt

-- the loop over `path.split('/')`
unfoldable pub check_segments : List Text → Result (Unit {0}) String
check_segments [] = ok tt
check_segments (segment ∷ rest) =
    if eq_text segment (codes "..")
    then err "relative path must not contain \"..\" segments (path traversal)"
    else check_segments rest

unfoldable pub validate_relative_path : Text → Result (Unit {0}) String
unfolding check_segments
validate_relative_path path =
    if is_empty path
    then err "relative path must not be empty"
    else if starts_with (codes "/") path
    then err "relative path must not be absolute (no leading '/')"
    else if contains_char 0 path
    then err "relative path must not contain NUL bytes"
    else if contains_char 10 path
    then err "relative path must not contain newline characters"
    else check_segments (split b'/' path)
