-- ===== src/Tests/Cache.antt =====
-- Two backups to one host, and one to another.
use backr.Base.{
  Result, ok, err, if◌then◌else◌, eq_text, Text, codes, ℕ, ◌≡◌, false, Option, none, some, List, [],
  ◌∷◌, map,
}
use backr.Daemon.State.{Config}
use backr.Backup.Cache.{record_backup_success, SnapshotCacheFile, list_projects}
use backr.Backup.Cache.Probe.{probe_projects, figures, list_projects-probe_projects}

abbrev config_for : Text → Config
config_for host = record {
  version = 1;
  remote = record {
    host = host;
    user = codes "u";
    ssh_key = codes "k";
    port = 22;
    backup_path = codes "/b";
  };
  projects_path = codes "/p";
  interval_hours = 3;
  last_backup_at = none;
  auto_update = false;
}

abbrev parse : Text → Option ℕ
parse _ = some 5

-- the file after a backup to another host and two to this one
abbrev after : Text → Text → ℕ → Option (SnapshotCacheFile ℕ) → Option (SnapshotCacheFile ℕ)
after host project count file =
    (record_backup_success {E = Text} parse (config_for host) project (codes "2024-01-02_03-04-05")
      count 7 none file).0

abbrev recorded : Option (SnapshotCacheFile ℕ)
recorded =
    after (codes "new") (codes "b") 1
      (after (codes "new") (codes "a") 4 (after (codes "old") (codes "c") 9 none))

-- a remote host that answers for one of two projects
abbrev snapshots : Text → Result (List Text) Text
snapshots p =
    if eq_text p (codes "a") then ok (codes "2024-01-02_03-04-05" ∷ []) else err (codes "timeout")

list_projects-probe_projects_example :
    (let cfg = config_for (codes "new") in
      map (figures parse snapshots) (
        list_projects cfg
          (codes "a" ∷ codes "c" ∷ [])
          (probe_projects parse snapshots cfg (codes "a" ∷ codes "c" ∷ []) 8 none recorded).0)
      ≡ map
          (figures parse snapshots)
          (probe_projects parse snapshots cfg (codes "a" ∷ codes "c" ∷ []) 8 none recorded).1)
list_projects-probe_projects_example =
    list_projects-probe_projects parse snapshots (config_for (codes "new"))
      (codes "a" ∷ codes "c" ∷ []) 8 recorded
