-- ===== src/Backup/Cache.antt =====
-- backr-core/src/project_snapshot_cache.rs, and the listing without a probe of the remote host in
-- backrd/src/ipc/handlers.rs. The file is the document that is read from it, or nothing where it is
-- missing or not readable; the names of snapshots are read as times by an argument.
use backr.Base.{
  Bool-eq, Result-cases, All-lines, lines-lack_newline, ap₂, trim_idem, trim-strip_cr,
  strip_cr_of_lacks, All-trim, All-trim_start_by, All-trim_end_by, lines-append, lines_line,
  map-trim-lines-finish, strip_prefix, splitn_from, splitn, ends_with_char, split-nil,
  split-cons_sep, ltb, leb, ◌==◌, if◌then◌else◌, ==_iff, ==_self, Bool-cases, Option-cases, length,
  take, head?, any, filter, length-append, length-filter, filter-append, All, All-append,
  All-append_iff, All-map, All-filter, Text, codes, eq_text, is_empty, contains_char, starts_with,
  contains, is_whitespace, trim_start_by, trim_end_by, trim, split_from, split, join, replace_char,
  strip_cr, lines_from, lines, is_digit, digits_from, parse_uint, eq_text→≡, eq_text_self,
  eq_text_iff, contains_char-eq-false_iff, split_from-append, split-append, split_from_of_lacks,
  trim_end_by_parts, trim_start_by_parts, trim_start_by-cons, trim_end_by-concat, is_empty-concat,
  ne_of_eq_text, eq_text_of_ne, ne_nil_of_is_empty, is_empty_of_ne_nil, Result, ok, err, map_err,
  ok_or, to_option, >>=-eq-ok, ℕ, zero, suc, ◌+◌, ◌-◌, ◌*◌, ◌/◌, ◌%◌, ◌^◌, ◌≤◌, ◌<◌, String, ◌≡◌,
  refl, sym, ap, ◌∙◌, subst, ◌≢◌, ◌↔◌, ◌⊎◌, inl, inr, Bool, true, false, ◌&&◌, ◌||◌, not, Option,
  none, some, List, [], ◌∷◌, ◌++◌, map, reverse, append-nil, append_assoc, map-append,
  reverse-append, arith,
}
use backr.Daemon.State.{RemoteConfig, Config}
use backr.Backup.Restore.{decimal}
pub mod Probe

pub record CachedProjectStats (T : Type 0) : Type 0 where
  pub last_backup_at : Option T
  pub snapshot_count : ℕ

-- The map is the function that looks a project up.
pub record SnapshotCacheFile (T : Type 0) : Type 0 where
  pub remote_key : Text
  pub updated_at : Option T
  pub projects : Text → Option (CachedProjectStats T)

abbrev pub empty_cache : {Time : Type 0} → SnapshotCacheFile Time
empty_cache = record { remote_key = []; updated_at = none; projects = λ _. none }

-- a port as it is printed
abbrev pub port_text : ℕ → Text
port_text n =
    if ltb n 10000
    then decimal n
    else (b'0' + n / 10000)
      ∷ (b'0' + n / 1000 % 10)
      ∷ (b'0' + n / 100 % 10)
      ∷ (b'0' + n / 10 % 10)
      ∷ (b'0' + n % 10)
      ∷ []

unfoldable pub remote_cache_key : Config → Text
remote_cache_key cfg =
    cfg.remote.host
    ++ (b'|' ∷ cfg.remote.user
        ++ (b'|' ∷ port_text cfg.remote.port ++ (b'|' ∷ cfg.remote.backup_path)))

abbrev pub load_snapshot_cache :
    {Time : Type 0} → Option (SnapshotCacheFile Time) → SnapshotCacheFile Time
load_snapshot_cache file = elim file [ none ↦ empty_cache | some doc ↦ doc ]

abbrev pub insert : {A : Type 0} → Text → A → (Text → Option A) → Text → Option A
insert k v m n = if eq_text n k then some v else m n

-- the write to a temporary file and the rename, which fail together
abbrev pub save_snapshot_cache :
    {Time Err : Type 0}
    → Option Err
    → SnapshotCacheFile Time
    → Option (SnapshotCacheFile Time)
    → Option (SnapshotCacheFile Time) × Result (Unit {0}) Err
save_snapshot_cache fault doc file = elim fault [
  | some e ↦ (file, err e)
  | none ↦ (some doc, ok tt)
]

-- the projects that are kept for a remote host
unfoldable pub kept_projects :
    {Time : Type 0} → Text → SnapshotCacheFile Time → Text → Option (CachedProjectStats Time)
kept_projects key disk p = if eq_text disk.remote_key key then disk.projects p else none

module _ {T E : Type 0} (parse_snapshot_timestamp : Text → Option T) where
  unfoldable pub record_backup_success :
      Config
      → Text
      → Text
      → ℕ
      → T
      → Option E
      → Option (SnapshotCacheFile T)
      → Option (SnapshotCacheFile T) × Result (Unit {0}) E
  record_backup_success cfg project new_snapshot_name snapshot_count_after now fault file =
      let key = remote_cache_key cfg in
      save_snapshot_cache fault
        (record {
          remote_key = key;
          updated_at = some now;
          projects =
              insert project
                (record {
                  last_backup_at = parse_snapshot_timestamp new_snapshot_name;
                  snapshot_count = snapshot_count_after;
                })
                (kept_projects key (load_snapshot_cache file));
        })
        file

-- A project in the listing without a probe.
pub record ProjectRow (T : Type 0) : Type 0 where
  pub name : Text
  pub last_backup_at : Option T
  pub snapshot_count : ℕ
  pub stats_from_cache : Bool

abbrev pub row_from : {Time : Type 0} → Text → Option (CachedProjectStats Time) → ProjectRow Time
row_from name stats = elim stats [
  | some c ↦ record {
    name = name;
    last_backup_at = c.last_backup_at;
    snapshot_count = c.snapshot_count;
    stats_from_cache = true;
  }
  | none ↦ record {
    name = name;
    last_backup_at = none;
    snapshot_count = 0;
    stats_from_cache = false;
  }
]

-- the listing of `names` where `probe_remote` is false
unfoldable pub list_projects :
    {Time : Type 0} → Config → List Text → Option (SnapshotCacheFile Time) → List (ProjectRow Time)
list_projects cfg names file =
    map (λ n. row_from n (kept_projects (remote_cache_key cfg) (load_snapshot_cache file) n)) names
