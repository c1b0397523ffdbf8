-- ===== src/Host/Inventory.antt =====
-- host_disk_inventory.rs of backr-core: the sizes of the projects, by `du` or from the file of an earlier
-- scan. What `du` prints, the names of the directories and the clock are arguments; times are
-- nanoseconds, and the map of a document is a list without a name twice.
use backr.Base.{
  Bool-eq, Result-cases, All-lines, lines-lack_newline, ap₂, trim_idem, trim-strip_cr,
  strip_cr_of_lacks, All-trim, All-trim_start_by, All-trim_end_by, lines-append, lines_line,
  map-trim-lines-finish, strip_prefix, splitn_from, splitn, ends_with_char, split-nil,
  split-cons_sep, ltb, leb, ◌==◌, if◌then◌else◌, ==_iff, ==_self, Bool-cases, Option-cases, length,
  take, head?, any, filter, length-append, length-filter, filter-append, All, All-append,
  All-append_iff, All-map, All-filter, Text, codes, eq_text, is_empty, contains_char, starts_with,
  contains, is_whitespace, trim_start_by, trim_end_by, trim, split_from, split, join, replace_char,
  strip_cr, lines_from, lines, is_digit, digits_from, parse_uint, eq_text→≡, eq_text_self,
  eq_text_iff, contains_char-eq-false_iff, split_from-append, split-append, split_from_of_lacks,
  trim_end_by_parts, trim_start_by_parts, trim_start_by-cons, trim_end_by-concat, is_empty-concat,
  ne_of_eq_text, eq_text_of_ne, ne_nil_of_is_empty, is_empty_of_ne_nil, Result, ok, err, map_err,
  ok_or, to_option, >>=-eq-ok, ℕ, zero, suc, ◌+◌, ◌-◌, ◌*◌, ◌/◌, ◌%◌, ◌^◌, ◌≤◌, ◌<◌, String, ◌≡◌,
  refl, sym, ap, ◌∙◌, subst, ◌≢◌, ◌↔◌, ◌⊎◌, inl, inr, Bool, true, false, ◌&&◌, ◌||◌, not, Option,
  none, some, List, [], ◌∷◌, ◌++◌, map, reverse, append-nil, append_assoc, map-append,
  reverse-append, arith,
}
use backr.Backup.Snapshots.{text_le, sort_desc}
pub mod Cached

pub record HostDiskProjectBytes : Type 0 where
  pub name : Text
  pub bytes : ℕ

pub record HostDiskInventory : Type 0 where
  pub backup_root : Text
  pub backup_root_bytes : ℕ
  pub projects : List HostDiskProjectBytes
  pub from_cache : Bool
  pub scanned_at : ℕ

pub record DuCacheFile : Type 0 where
  pub backup_root : Text
  pub scanned_at : ℕ
  pub backup_root_bytes : ℕ
  pub projects : List HostDiskProjectBytes

-- what a call is given, and whether its write of the file succeeds
pub record DuWorld : Type 0 where
  pub is_dir : Bool
  pub cache_secs : Option Text
  pub now : ℕ
  -- when a scan is over
  pub done_at : ℕ
  -- the output of `du`, of the root and of each directory below it
  pub du_root : Option Text
  pub du_child : Text → Option Text
  pub read_dir : Option (List Text)
  pub writable : Bool

pub data ScanError : Type 0 where
  not_a_directory : ScanError
  du_failed : ScanError
  empty_output : ScanError
  invalid_size : ScanError
  unlisted : ScanError

abbrev pub u64_max : ℕ
u64_max = 2 ^ 64 - 1

-- in seconds
unfoldable pub du_cache_ttl : Option Text → ℕ
du_cache_ttl none = 300
du_cache_ttl (some s) = elim (parse_uint u64_max s) [
  | none ↦ 300
  | some n ↦ if n == 0 then 300 else n
]

-- the text up to the first white space
unfoldable pub first_word : Text → Text
first_word [] = []
first_word (c ∷ s) = if is_whitespace c then [] else c ∷ first_word s

unfoldable pub du_sb_one : Option Text → Result ℕ ScanError
du_sb_one none = err du_failed
du_sb_one (some line) =
    let first = first_word (trim_start_by is_whitespace line) in
    if is_empty first then err empty_output else ok_or (parse_uint u64_max first) invalid_size

-- the directories whose size is known, in order
unfoldable pub sized : DuWorld → List Text → List HostDiskProjectBytes
sized world [] = []
sized world (name ∷ names) =
    let rest = sized world names in
    elim (du_sb_one (world.du_child name)) [
      | err _ ↦ rest
      | ok b ↦ record { name = name; bytes = b } ∷ rest
    ]

unfoldable pub inventory_from_scan : DuWorld → Text → Result DuCacheFile ScanError
inventory_from_scan world root = elim (du_sb_one world.du_root) [
  | err e ↦ err e
  | ok root_bytes ↦ elim world.read_dir [
    | none ↦ err unlisted
    | some names ↦ ok (record {
      backup_root = root;
      scanned_at = world.done_at;
      backup_root_bytes = root_bytes;
      projects = sized world (reverse (sort_desc names));
    })
  ]
]

-- `projects.sort_by(|a, b| a.name.cmp(&b.name))`
unfoldable pub insert_by_name :
    HostDiskProjectBytes → List HostDiskProjectBytes → List HostDiskProjectBytes
insert_by_name x [] = x ∷ []
insert_by_name x (y ∷ ys) =
    let rest = insert_by_name x ys in if text_le x.name y.name then x ∷ y ∷ ys else y ∷ rest

unfoldable pub sort_by_name : List HostDiskProjectBytes → List HostDiskProjectBytes
sort_by_name [] = []
sort_by_name (x ∷ xs) = insert_by_name x (sort_by_name xs)

unfoldable pub cache_entry_to_inventory : DuCacheFile → Bool → HostDiskInventory
cache_entry_to_inventory doc from_cache = record {
  backup_root = doc.backup_root;
  backup_root_bytes = doc.backup_root_bytes;
  projects = sort_by_name doc.projects;
  from_cache = from_cache;
  scanned_at = doc.scanned_at;
}

-- the age of a document is within the limit; one from the future is not
unfoldable pub is_fresh : DuWorld → DuCacheFile → Bool
is_fresh world doc =
    leb doc.scanned_at world.now
    && leb (world.now - doc.scanned_at) (du_cache_ttl world.cache_secs * 1000000000)

-- the document, if it is about this root
unfoldable pub about : Text → Option DuCacheFile → Option DuCacheFile
about root none = none
about root (some doc) = if eq_text doc.backup_root root then some doc else none

-- the document that answers without a scan
unfoldable pub usable : DuWorld → Text → Bool → Option DuCacheFile → Option DuCacheFile
usable world root true cached = none
usable world root false cached = elim (about root cached) [
  | none ↦ none
  | some doc ↦ if is_fresh world doc then some doc else none
]

-- The call, with the file as it is read and as it is left.
unfoldable pub host_disk_inventory :
    DuWorld
    → Text
    → Bool
    → Option DuCacheFile
    → Option DuCacheFile × Result HostDiskInventory ScanError
host_disk_inventory world root force_refresh cached =
    if not world.is_dir
    then (cached, err not_a_directory)
    else elim (usable world root force_refresh cached) [
      | some doc ↦ (cached, ok (cache_entry_to_inventory doc true))
      | none ↦ elim (inventory_from_scan world root) [
        | ok doc ↦
            ((if world.writable then some doc else cached), ok (cache_entry_to_inventory doc false))
        | err scan_err ↦ elim (about root cached) [
          | some doc ↦ (cached, ok (cache_entry_to_inventory doc true))
          | none ↦ (cached, err scan_err)
        ]
      ]
    ]
