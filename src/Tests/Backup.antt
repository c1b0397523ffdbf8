-- ===== src/Tests/Backup.antt =====
-- Names and paths of backup/.
use backr.Base.{
  Text, codes, eq_text, contains_char, starts_with, split_from, ok, err, ◌≡◌, refl, ◌↔◌,
}
use backr.Backup.Validate.{validate_remote_component, validate_relative_path, check_segments}
use backr.Backup.Validate.Laws.{
  IsSafeComponent, IsSafeRelative, validate_remote_component_iff, validate_relative_path_iff,
}

abbrev project : Text
project = codes "site"

abbrev snapshot : Text
snapshot = codes "2026-05-16_14-00-00"

abbrev root : Text
root = codes "/srv/backr/"

project_ok : validate_remote_component project ≡ ok tt
unfolding validate_remote_component eq_text contains_char
project_ok = refl

snapshot_ok : validate_remote_component snapshot ≡ ok tt
unfolding validate_remote_component eq_text contains_char
snapshot_ok = refl

path_ok : validate_relative_path (codes "src/a.rs") ≡ ok tt
unfolding validate_relative_path check_segments starts_with contains_char split_from eq_text
path_ok = refl

parent_refused :
    validate_remote_component (codes "..")
    ≡ err "path component must not be \"..\" (parent directory traversal)"
unfolding validate_remote_component eq_text
parent_refused = refl

validate_remote_component_iff_example :
    (validate_remote_component project ≡ ok tt) ↔ IsSafeComponent project
validate_remote_component_iff_example = validate_remote_component_iff project

validate_relative_path_iff_example :
    (validate_relative_path (codes "src/a.rs") ≡ ok tt) ↔ IsSafeRelative (codes "src/a.rs")
validate_relative_path_iff_example = validate_relative_path_iff (codes "src/a.rs")
