-- ===== src/Store.antt =====
-- config.rs of backr-core: the file config.toml, over the files of Update.Files. The library for TOML,
-- the directory of configurations, the expansion of paths and the clock are arguments.
use backr.Base.{
  Bool-eq, Result-cases, All-lines, lines-lack_newline, ap₂, trim_idem, trim-strip_cr,
  strip_cr_of_lacks, All-trim, All-trim_start_by, All-trim_end_by, lines-append, lines_line,
  map-trim-lines-finish, strip_prefix, splitn_from, splitn, ends_with_char, split-nil,
  split-cons_sep, ltb, leb, ◌==◌, if◌then◌else◌, ==_iff, ==_self, Bool-cases, Option-cases, length,
  take, head?, any, filter, length-append, length-filter, filter-append, All, All-append,
  All-append_iff, All-map, All-filter, Text, codes, eq_text, is_empty, contains_char, starts_with,
  contains, is_whitespace, trim_start_by, trim_end_by, trim, split_from, split, join, replace_char,
  strip_cr, lines_from, lines, is_digit, digits_from, parse_uint, eq_text→≡, eq_text_self,
  eq_text_iff, contains_char-eq-false_iff, split_from-append, split-append, split_from_of_lacks,
  trim_end_by_parts, trim_start_by_parts, trim_start_by-cons, trim_end_by-concat, is_empty-concat,
  ne_of_eq_text, eq_text_of_ne, ne_nil_of_is_empty, is_empty_of_ne_nil, Result, ok, err, map_err,
  ok_or, to_option, >>=-eq-ok, ℕ, zero, suc, ◌+◌, ◌-◌, ◌*◌, ◌/◌, ◌%◌, ◌^◌, ◌≤◌, ◌<◌, String, ◌≡◌,
  refl, sym, ap, ◌∙◌, subst, ◌≢◌, ◌↔◌, ◌⊎◌, inl, inr, Bool, true, false, ◌&&◌, ◌||◌, not, Option,
  none, some, List, [], ◌∷◌, ◌++◌, map, reverse, append-nil, append_assoc, map-append,
  reverse-append, arith,
}
use backr.Base.Results.{◌>>=◌}
use backr.Ipc.{BackrError, config_error, io_error, toml_ser, msg}
use backr.Daemon.State.{Config}
use backr.Update.Files.{PathBuf, Files, Node, file, directory, put, exists, rename}
pub mod Kept
pub mod RoundTrip

-- What the program is given, and which of its calls fail.
pub record ConfigWorld : Type 0 where
  pub config_dir : Option PathBuf
  pub from_str : Text → Result Config Text
  pub to_string_pretty : Config → Result Text Text
  pub expand : Text → Result Text Text
  pub stamp : Text
  pub readable : Bool
  pub creatable : Bool
  pub writable : Bool
  -- what a write that fails has left of the file, if anything
  pub torn : Text → Option Text
  pub movable : Bool

abbrev pub failed : BackrError
failed = io_error (codes "the call failed")

-- `create_dir_all`: every missing directory of a path; a file on the way is an error. The directories
-- that a failed call has made are left out.
unfoldable pub create_dir_all : PathBuf → Files → Option Files
create_dir_all [] fs = some fs
create_dir_all (name ∷ parent) fs = elim (create_dir_all parent fs) [
  | none ↦ none
  | some fs' ↦ elim (fs' (name ∷ parent)) [
    | none ↦ some (put (name ∷ parent) (some directory) fs')
    | some node ↦ elim node [ file _ _ ↦ none | directory ↦ some fs' ]
  ]
]

abbrev pub file_name : Text
file_name = codes "config.toml"

abbrev pub app_dir : PathBuf → PathBuf
app_dir base = codes "backr" ∷ base

module _ (world : ConfigWorld) where
  unfoldable pub config_path : Result PathBuf BackrError
  config_path = elim world.config_dir [
    | none ↦ err (config_error (codes "could not resolve user config directory"))
    | some base ↦ ok (file_name ∷ app_dir base)
  ]

  abbrev pub expand_path_str : Text → Result Text BackrError
  expand_path_str value =
      map_err (λ e. msg (codes "could not expand path: " ++ e)) (world.expand value)

  -- `path.with_file_name(…)` of a path below the root
  unfoldable pub backup_name : PathBuf → PathBuf
  backup_name [] = []
  backup_name (_ ∷ parent) = (codes "config.toml.bak-" ++ world.stamp) ∷ parent

  unfoldable pub backup_unreadable_config : PathBuf → Files → Files × Result PathBuf BackrError
  backup_unreadable_config path fs = elim (rename (not world.movable) path (backup_name path) fs) [
    | none ↦ (fs, err failed)
    | some fs' ↦ (fs', ok (backup_name path))
  ]

  -- the two paths of a configuration, expanded
  unfoldable pub expanded : Config → Result (Option Config) BackrError
  expanded cfg = do
    ssh_key ← expand_path_str cfg.remote.ssh_key
    projects_path ← expand_path_str cfg.projects_path
    ok (
        some (record cfg {
          remote = record cfg.remote { ssh_key = ssh_key };
          projects_path = projects_path;
        }))

  -- `read_to_string`
  unfoldable pub read_to_string : PathBuf → Files → Result Text BackrError
  read_to_string path fs = elim (fs path) [
    | none ↦ err failed
    | some node ↦ elim node [
      | directory ↦ err failed
      | file content _ ↦ if world.readable then ok content else err failed
    ]
  ]

  -- what follows the reading of the file
  unfoldable pub load_text : PathBuf → Text → Files → Files × Result (Option Config) BackrError
  load_text path raw fs = elim (world.from_str raw) [
    | ok cfg ↦ (fs, expanded cfg)
    | err _ ↦
        let (fs', r) = backup_unreadable_config path fs in
        (fs', elim r [ err e ↦ err e | ok _ ↦ ok none ])
  ]

  unfoldable pub load_config : Files → Files × Result (Option Config) BackrError
  load_config fs = elim config_path [
    | err e ↦ (fs, err e)
    | ok path ↦
        if not (exists fs path)
        then (fs, ok none)
        else elim (read_to_string path fs) [ err e ↦ (fs, err e) | ok raw ↦ load_text path raw fs ]
  ]

  -- `path.with_extension("toml.tmp")`
  abbrev pub tmp_name : PathBuf → PathBuf
  tmp_name parent = codes "config.toml.tmp" ∷ parent

  -- `fs::write`, which truncates the file first
  unfoldable pub write : PathBuf → Text → Files → Files × Bool
  write path content fs =
      if world.writable
      then (put path (some (file content false)) fs, true)
      else elim (world.torn content) [
        | none ↦ (fs, false)
        | some part ↦ (put path (some (file part false)) fs, false)
      ]

  -- the temporary file, and the rename over the configuration
  unfoldable pub replace : PathBuf → Text → Files → Files × Result (Unit {0}) BackrError
  replace parent serialized fs =
      let (fs', done) = write (tmp_name parent) serialized fs in
      if not done
      then (fs', err failed)
      else elim (rename (not world.movable) (tmp_name parent) (file_name ∷ parent) fs') [
        | none ↦ (fs', err failed)
        | some fs'' ↦ (fs'', ok tt)
      ]

  unfoldable pub save_config : Config → Files → Files × Result (Unit {0}) BackrError
  save_config cfg fs = elim world.config_dir [
    | none ↦ (fs, err (config_error (codes "could not resolve user config directory")))
    | some base ↦ elim (if world.creatable then create_dir_all (app_dir base) fs else none) [
      | none ↦ (fs, err failed)
      | some fs' ↦ elim (world.to_string_pretty cfg) [
        | err e ↦ (fs', err (toml_ser e))
        | ok serialized ↦ replace (app_dir base) serialized fs'
      ]
    ]
  ]
