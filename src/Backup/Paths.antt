-- ===== src/Backup/Paths.antt =====
-- crates/backr-core/src/backup/ssh.rs and rsync.rs: remote paths.
pub mod Containment
pub mod Reads
use backr.Base.{
  ltb, leb, ◌==◌, if◌then◌else◌, ==_iff, ==_self, Bool-cases, Option-cases, length, take, head?,
  any, filter, length-append, length-filter, filter-append, All, All-append, All-append_iff,
  All-map, All-filter, Text, codes, eq_text, is_empty, contains_char, starts_with, contains,
  is_whitespace, trim_start_by, trim_end_by, trim, split_from, split, join, replace_char, strip_cr,
  lines_from, lines, is_digit, digits_from, parse_uint, eq_text→≡, eq_text_self, eq_text_iff,
  contains_char-eq-false_iff, split_from-append, split-append, split_from_of_lacks,
  trim_end_by_parts, trim_start_by_parts, trim_start_by-cons, trim_end_by-concat, is_empty-concat,
  Result, ok, err, map_err, ok_or, to_option, >>=-eq-ok, ℕ, zero, suc, ◌+◌, ◌-◌, ◌*◌, ◌/◌, ◌%◌, ◌^◌,
  ◌≤◌, ◌<◌, String, ◌≡◌, refl, sym, ap, ◌∙◌, subst, ◌≢◌, ◌↔◌, ◌⊎◌, inl, inr, Bool, true, false,
  ◌&&◌, ◌||◌, not, Option, none, some, List, [], ◌∷◌, ◌++◌, map, reverse, append-nil, append_assoc,
  map-append, reverse-append, arith,
}

abbrev slash : ℕ → Bool
slash c = c == b'/'

-- Joins two remote Unix path segments without duplicating slashes.
unfoldable pub remote_path_join : Text → Text → Text
remote_path_join base child =
    let trimmed = trim_end_by slash base in
    if is_empty child || eq_text child (codes ".")
    then trimmed
    else trimmed ++ b'/' ∷ trim_start_by slash child

unfoldable pub remote_project_dir : Text → Text → Text
remote_project_dir backup_root project = remote_path_join backup_root project

unfoldable pub absolute_remote_snapshot_path : Text → Text → Text → Text
absolute_remote_snapshot_path backup_root project snapshot =
    remote_path_join (remote_path_join backup_root project) snapshot

unfoldable pub remote_snapshot_dest_folder : Text → Text → Text → Text
remote_snapshot_dest_folder backup_root project snapshot_name =
    absolute_remote_snapshot_path backup_root project snapshot_name

-- `snapshot_root` of `remote_read_file_bytes` and `remote_list_children`
unfoldable pub snapshot_root : Text → Text → Text → Text
snapshot_root backup_root project snapshot =
    remote_path_join (remote_path_join (remote_project_dir backup_root project) snapshot) []

-- `scan_base` of `remote_list_children`
unfoldable pub scan_base : Text → Text → Text → Text → Text
scan_base backup_root project snapshot subpath =
    if is_empty subpath || eq_text subpath (codes ".")
    then snapshot_root backup_root project snapshot
    else remote_path_join (snapshot_root backup_root project snapshot) subpath

pub data ReadPathError : Type 0 where
  empty_file_path : ReadPathError
  invalid_relative_path : ReadPathError

-- The checks of `remote_read_file_bytes`, and the path that it hands to `head -c`.
unfoldable pub read_file_path : Text → Text → Text → Text → Result Text ReadPathError
read_file_path backup_root project snapshot relative_file_path =
    let rel = trim_start_by slash (trim relative_file_path) in
    if is_empty rel
    then err empty_file_path
    else if contains (codes "..") rel || (contains_char 0 rel || contains_char 10 rel)
    then err invalid_relative_path
    else ok (remote_path_join (snapshot_root backup_root project snapshot) rel)
