-- ===== src/Backup/Restore.antt =====
-- The restores of backrd/src/ipc/handlers.rs: where a snapshot is restored to. What rsync and the
-- making of directories do is an argument.
use backr.Base.{
  Bool-eq, Result-cases, All-lines, lines-lack_newline, ap₂, trim_idem, trim-strip_cr,
  strip_cr_of_lacks, All-trim, All-trim_start_by, All-trim_end_by, lines-append, lines_line,
  map-trim-lines-finish, strip_prefix, splitn_from, splitn, ends_with_char, split-nil,
  split-cons_sep, ltb, leb, ◌==◌, if◌then◌else◌, ==_iff, ==_self, Bool-cases, Option-cases, length,
  take, head?, any, filter, length-append, length-filter, filter-append, All, All-append,
  All-append_iff, All-map, All-filter, Text, codes, eq_text, is_empty, contains_char, starts_with,
  contains, is_whitespace, trim_start_by, trim_end_by, trim, split_from, split, join, replace_char,
  strip_cr, lines_from, lines, is_digit, digits_from, parse_uint, eq_text→≡, eq_text_self,
  eq_text_iff, contains_char-eq-false_iff, split_from-append, split-append, split_from_of_lacks,
  trim_end_by_parts, trim_start_by_parts, trim_start_by-cons, trim_end_by-concat, is_empty-concat,
  ne_of_eq_text, eq_text_of_ne, ne_nil_of_is_empty, is_empty_of_ne_nil, Result, ok, err, map_err,
  ok_or, to_option, >>=-eq-ok, ℕ, zero, suc, ◌+◌, ◌-◌, ◌*◌, ◌/◌, ◌%◌, ◌^◌, ◌≤◌, ◌<◌, String, ◌≡◌,
  refl, sym, ap, ◌∙◌, subst, ◌≢◌, ◌↔◌, ◌⊎◌, inl, inr, Bool, true, false, ◌&&◌, ◌||◌, not, Option,
  none, some, List, [], ◌∷◌, ◌++◌, map, reverse, append-nil, append_assoc, map-append,
  reverse-append, arith,
}
use backr.Daemon.State.{RemoteConfig, Config}
use backr.Trust.Keys.{RegexClasses}
use backr.Update.Files.{PathBuf, Files, directory, put, exists}
use backr.Backup.Paths.{absolute_remote_snapshot_path}
use backr.Backup.Snapshots.{is_valid_snapshot_name, sort_desc}
pub mod Fresh
pub mod Projects

pub data RestoreError (E : Type 0) : Type 0 where
  no_home : RestoreError E
  invalid_parent : RestoreError E
  no_free_suffix : RestoreError E
  failed : E → RestoreError E

abbrev pub is_ascii_alphanumeric : ℕ → Bool
is_ascii_alphanumeric c =
    (leb b'0' c && leb c b'9') || ((leb b'A' c && leb c b'Z') || (leb b'a' c && leb c b'z'))

-- the closure of the first `map`
abbrev pub safe_char : ℕ → ℕ
safe_char c = if is_ascii_alphanumeric c || (c == b'-' || c == b'_') then c else b'_'

unfoldable pub restore_destination_folder_base : RegexClasses → Text → Text → Text
restore_destination_folder_base re stamp snapshot =
    if is_valid_snapshot_name re snapshot
    then codes "Projects-" ++ snapshot
    else (let safe = trim_end_by (λ c. c == b'_') (take 120 (map safe_char snapshot)) in
        codes "Projects-" ++ ((if is_empty safe then codes "snapshot" else safe) ++ (b'-' ∷ stamp)))

-- `format!("{i}")` for a number below 10000
unfoldable pub decimal : ℕ → Text
decimal i =
    if ltb i 10
    then (b'0' + i) ∷ []
    else if ltb i 100
    then (b'0' + i / 10) ∷ (b'0' + i % 10) ∷ []
    else if ltb i 1000
    then (b'0' + i / 100) ∷ (b'0' + i / 10 % 10) ∷ (b'0' + i % 10) ∷ []
    else (b'0' + i / 1000) ∷ (b'0' + i / 100 % 10) ∷ (b'0' + i / 10 % 10) ∷ (b'0' + i % 10) ∷ []

abbrev pub candidate : Text → PathBuf → ℕ → PathBuf
candidate file_name parent i = (file_name ++ (b'-' ∷ decimal i)) ∷ parent

-- the loop over `n` numbers from `i` on
unfoldable pub free_suffix :
    {Err : Type 0} → Files → Text → PathBuf → ℕ → ℕ → Result PathBuf (RestoreError Err)
free_suffix fs file_name parent i zero = err no_free_suffix
free_suffix fs file_name parent i (suc n) = elim (exists fs (candidate file_name parent i)) [
  | false ↦ ok (candidate file_name parent i)
  | true ↦ free_suffix fs file_name parent (suc i) n
]

unfoldable pub uniquify_path : {Err : Type 0} → Files → PathBuf → Result PathBuf (RestoreError Err)
uniquify_path fs path = if not (exists fs path) then ok path else elim path [
  | [] ↦ err invalid_parent
  | file_name ∷ parent ↦ free_suffix fs file_name parent 1 9999
]

-- What a restore meets outside of it; `rsync_restore` gives the files after the transfer from a remote
-- place to a directory.
pub record RestoreWorld (E : Type 0) : Type 0 where
  pub re : RegexClasses
  pub home_dir : Option PathBuf
  pub mkdir_error : PathBuf → Option E
  pub rsync_restore : Text → PathBuf → Files → Files × Result (Unit {0}) E

abbrev pub remote_url : Config → Text → Text → Text
remote_url cfg project snapshot =
    cfg.remote.user
    ++ (b'@' ∷ cfg.remote.host
        ++ (b':' ∷ absolute_remote_snapshot_path cfg.remote.backup_path project snapshot
            ++ b'/' ∷ []))

module _ {E : Type 0} (w : RestoreWorld E) (cfg : Config) (project stamp : Text) where
  -- `create_dir_all` and the transfer into the new directory
  unfoldable pub restore_into : Text → PathBuf → Files → Files × Result PathBuf (RestoreError E)
  restore_into snapshot destination fs = elim (w.mkdir_error destination) [
    | some e ↦ (fs, err (failed e))
    | none ↦
        let (fs', r) =
          w.rsync_restore (remote_url cfg project snapshot) destination
            (put destination (some directory) fs) in
        (fs', elim r [ ok _ ↦ ok destination | err e ↦ err (failed e) ])
  ]

  unfoldable pub restore_single_snapshot_to_home :
      Text → Files → Files × Result PathBuf (RestoreError E)
  restore_single_snapshot_to_home snapshot fs = elim w.home_dir [
    | none ↦ (fs, err no_home)
    | some home ↦
        elim (uniquify_path fs (restore_destination_folder_base w.re stamp snapshot ∷ home)) [
          | err e ↦ (fs, err e)
          | ok destination ↦ restore_into snapshot destination fs
        ]
  ]

  -- the loop over the snapshots
  unfoldable pub restore_each : List Text → Files → Files × Result (List PathBuf) (RestoreError E)
  restore_each [] fs = (fs, ok [])
  restore_each (snapshot ∷ snapshots) fs =
      let (fs', r) = restore_single_snapshot_to_home snapshot fs in
      elim r [
        | err e ↦ (fs', err e)
        | ok path ↦
            let (fs'', rest) = restore_each snapshots fs' in
            (fs'', elim rest [ ok paths ↦ ok (path ∷ paths) | err e ↦ err e ])
      ]

  -- `names` is what the listing of the snapshots gives
  abbrev pub restore_every_valid_snapshot_for_project :
      Result (List Text) E → Files → Files × Result (List PathBuf) (RestoreError E)
  restore_every_valid_snapshot_for_project names fs = elim names [
    | err e ↦ (fs, err (failed e))
    | ok listed ↦ restore_each (sort_desc (filter (is_valid_snapshot_name w.re) listed)) fs
  ]
