-- ===== src/Tests/Store.antt =====
-- A configuration that is saved and loaded, and one that does not parse.
use backr.Base.{
  if◌then◌else◌, Text, codes, eq_text, starts_with, ◌++◌, Result, ok, err, ◌≡◌, refl, subst, true,
  false, none, some, [], ◌∷◌,
}
use backr.Daemon.State.{Config}
use backr.Update.Files.{PathBuf, Files, file, put, eq_path, rename}
use backr.Store.{
  ConfigWorld, config_path, load_config, save_config, create_dir_all, write, replace, file_name,
  app_dir,
}
use backr.Store.Kept.{IsKept, load_config-IsKept}
use backr.Store.RoundTrip.{
  AllOrNothing, Reloaded, save_config-AllOrNothing, load_config-save_config,
}

abbrev base : PathBuf
base = codes ".config" ∷ codes "me" ∷ []

abbrev settings : Config
settings = record {
  version = 1;
  remote = record {
    host = codes "nas";
    user = codes "backr";
    ssh_key = codes "/k";
    port = 22;
    backup_path = codes "/srv";
  };
  projects_path = codes "/p";
  interval_hours = 6;
  last_backup_at = none;
  auto_update = false;
}

-- every configuration is printed as its host
abbrev world : ConfigWorld
world = record {
  config_dir = some base;
  from_str = λ t. if eq_text t (codes "nas") then ok settings else err (codes "expected a table");
  to_string_pretty = λ c.
      if eq_text c.remote.host (codes "nas") then ok (codes "nas") else err (codes "unsupported");
  expand = λ t. if starts_with (codes "~") t then ok (codes "/home/u" ++ t) else ok t;
  stamp = codes "20260101T000000Z";
  readable = true;
  creatable = true;
  writable = true;
  torn = λ _. none;
  movable = true;
}

abbrev no_files : Files
no_files p = none

located : config_path world ≡ ok (file_name ∷ app_dir base)
unfolding config_path
located = refl

-- a file that is not a configuration
abbrev broken : Files
broken = put (file_name ∷ app_dir base) (some (file (codes "?") false)) no_files

load_config-IsKept_example :
    IsKept world (file_name ∷ app_dir base) broken (load_config world broken)
load_config-IsKept_example = load_config-IsKept world (file_name ∷ app_dir base) broken located

save_config-AllOrNothing_example :
    AllOrNothing world settings base no_files (save_config world settings no_files)
save_config-AllOrNothing_example = save_config-AllOrNothing world settings base no_files refl

saved : (save_config world settings no_files).1 ≡ ok tt
unfolding save_config create_dir_all write replace rename put eq_path eq_text
saved = refl

printed_text : {s t : Text} → ◌≡◌ {A = Result Text Text} (ok s) (ok t) → s ≡ t
printed_text e = cc

back : (text : Text) → world.to_string_pretty settings ≡ ok text → world.from_str text ≡ ok settings
unfolding eq_text
back text printed = subst (λ t. world.from_str t ≡ ok settings) (printed_text printed) refl

load_config-save_config_example :
    ((load_config world (save_config world settings no_files).0).0
      ≡ (save_config world settings no_files).0)
    × Reloaded world settings (load_config world (save_config world settings no_files).0).1
load_config-save_config_example =
    load_config-save_config world settings base no_files refl back refl saved
