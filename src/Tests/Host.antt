-- ===== src/Tests/Host.antt =====
-- The sizes of one project, scanned once and asked for again.
use backr.Base.{Text, codes, true, false, none, some, [], ◌∷◌}
use backr.Host.Inventory.{HostDiskInventory, DuWorld}

abbrev root : Text
root = codes "/srv/backr"

abbrev world : DuWorld
world = record {
  is_dir = true;
  cache_secs = none;
  now = 1000;
  done_at = 2000;
  du_root = some (codes "4096\t/srv/backr\n");
  du_child = λ _. some (codes "512\t/srv/backr/notes\n");
  read_dir = some (codes "notes" ∷ []);
  writable = true;
}

abbrev later : DuWorld
later = record world { now = 200000000000; du_root = none }

abbrev sizes : HostDiskInventory
sizes = record {
  backup_root = root;
  backup_root_bytes = 4096;
  projects = record { name = codes "notes"; bytes = 512 } ∷ [];
  from_cache = false;
  scanned_at = 2000;
}
