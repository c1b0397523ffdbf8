-- ===== src/Tests/Restore.antt =====
-- Two snapshots of a project, one of which was restored before.
use backr.Backup.Restore.Projects.{
  Row, restore_all_projects, destinations_of, restore_all_projects-Fresh,
}
use backr.Backup.Restore.Fresh.{Fresh}
use backr.Base.{
  Result, Text, codes, eq_text, is_whitespace, is_digit, ok, ◌≡◌, refl, false, none, some, List, [],
  ◌∷◌, ◌++◌,
}
use backr.Daemon.State.{Config}
use backr.Update.Files.{PathBuf, Files, directory, eq_path, put}
use backr.Trust.Keys.{RegexClasses}
use backr.Backup.Snapshots.{is_valid_snapshot_name, matches, sort_desc, insert_desc, text_le}
use backr.Backup.Restore.{
  RestoreWorld, restore_destination_folder_base, candidate, decimal, free_suffix, uniquify_path,
  restore_into, restore_single_snapshot_to_home, restore_each,
  restore_every_valid_snapshot_for_project,
}
use backr.Backup.Restore.Fresh.{Grows}

abbrev config : Config
config = record {
  version = 1;
  remote = record {
    host = codes "h";
    user = codes "u";
    ssh_key = codes "k";
    port = 22;
    backup_path = codes "/b";
  };
  projects_path = codes "/p";
  interval_hours = 3;
  last_backup_at = none;
  auto_update = false;
}

abbrev home : PathBuf
home = codes "u" ∷ codes "home" ∷ []

abbrev classes : RegexClasses
classes = record { digit = is_digit; space = is_whitespace }

abbrev world : RestoreWorld Text
world = record {
  re = classes;
  home_dir = some home;
  mkdir_error = λ _. none;
  rsync_restore = λ url path fs. (fs, ok tt);
}

abbrev first : Text
first = codes "2024-01-02_03-04-05"

abbrev second : Text
second = codes "2024-01-03_03-04-05"

abbrev folder : Text → PathBuf
folder name = (codes "Projects-" ++ name) ∷ home

abbrev files : Files
files = put (folder first) (some directory) (λ _. none)

abbrev listed : List Text
listed = first ∷ codes "lost" ∷ second ∷ []

abbrev stamp : Text
stamp = codes "2024-02-01_00-00-00"

abbrev places : List PathBuf
places = folder second ∷ candidate (codes "Projects-" ++ first) home 1 ∷ []

restored :
    (restore_every_valid_snapshot_for_project world config (codes "x") stamp (ok listed) files).1
    ≡ ok places
unfolding restore_each restore_single_snapshot_to_home restore_into uniquify_path free_suffix
    decimal restore_destination_folder_base is_valid_snapshot_name matches sort_desc insert_desc put
    eq_path eq_text text_le
restored = refl

rsync-Grows : (url : Text) (p : PathBuf) (fs : Files) → Grows fs (world.rsync_restore url p fs).0
unfolding Grows
rsync-Grows url p fs q h = h

-- two projects with a snapshot of the same name
abbrev listing : Text → Result (List Text) Text
listing _ = ok (second ∷ [])

abbrev rows : List Row
rows =
    (codes "x", folder second ∷ [])
    ∷ (codes "y", candidate (codes "Projects-" ++ second) home 1 ∷ [])
    ∷ []

restored_all :
    (restore_all_projects world config stamp listing (codes "x" ∷ codes "y" ∷ []) files).1 ≡ ok rows
unfolding restore_all_projects restore_each restore_single_snapshot_to_home restore_into
    uniquify_path free_suffix decimal restore_destination_folder_base is_valid_snapshot_name matches
    sort_desc insert_desc put eq_path eq_text text_le
restored_all = refl

restore_all_projects-Fresh_example : Fresh files (destinations_of rows)
restore_all_projects-Fresh_example =
    restore_all_projects-Fresh world config stamp listing rsync-Grows (codes "x" ∷ codes "y" ∷ [])
      files rows restored_all
