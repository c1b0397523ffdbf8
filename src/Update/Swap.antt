-- ===== src/Update/Swap.antt =====
-- update/swap.rs: replacing the installed binaries in lockstep, with a rollback.
use backr.Base.{
  Bool-eq, Result-cases, All-lines, lines-lack_newline, ap₂, trim_idem, trim-strip_cr,
  strip_cr_of_lacks, All-trim, All-trim_start_by, All-trim_end_by, lines-append, lines_line,
  map-trim-lines-finish, strip_prefix, splitn_from, splitn, ends_with_char, split-nil,
  split-cons_sep, ltb, leb, ◌==◌, if◌then◌else◌, ==_iff, ==_self, Bool-cases, Option-cases, length,
  take, head?, any, filter, length-append, length-filter, filter-append, All, All-append,
  All-append_iff, All-map, All-filter, Text, codes, eq_text, is_empty, contains_char, starts_with,
  contains, is_whitespace, trim_start_by, trim_end_by, trim, split_from, split, join, replace_char,
  strip_cr, lines_from, lines, is_digit, digits_from, parse_uint, eq_text→≡, eq_text_self,
  eq_text_iff, contains_char-eq-false_iff, split_from-append, split-append, split_from_of_lacks,
  trim_end_by_parts, trim_start_by_parts, trim_start_by-cons, trim_end_by-concat, is_empty-concat,
  ne_of_eq_text, eq_text_of_ne, ne_nil_of_is_empty, is_empty_of_ne_nil, Result, ok, err, map_err,
  ok_or, to_option, >>=-eq-ok, ℕ, zero, suc, ◌+◌, ◌-◌, ◌*◌, ◌/◌, ◌%◌, ◌^◌, ◌≤◌, ◌<◌, String, ◌≡◌,
  refl, sym, ap, ◌∙◌, subst, ◌≢◌, ◌↔◌, ◌⊎◌, inl, inr, Bool, true, false, ◌&&◌, ◌||◌, not, Option,
  none, some, List, [], ◌∷◌, ◌++◌, map, reverse, append-nil, append_assoc, map-append,
  reverse-append, arith,
}
use backr.Update.Files.{
  PathBuf, Node, file, directory, Files, put, exists, is_file, is_dir, rename, remove_file,
}
pub mod Frame
pub mod Atomic
pub mod Settled

pub record BinarySwap : Type 0 where
  pub target : PathBuf
  pub staged : PathBuf

-- Which calls of the file system fail, by the target or the staged file that they are for. Each
-- happens at most once for a target.
pub record Faults : Type 0 where
  pub backup : PathBuf → Bool
  pub copy : PathBuf → Bool
  pub chmod : PathBuf → Bool
  pub install : PathBuf → Bool
  pub undo : PathBuf → Bool
  pub remove : PathBuf → Bool
  pub restore : PathBuf → Bool
  pub cleanup : PathBuf → Bool
  -- what a failing copy leaves behind
  pub torn : PathBuf → Option Node

-- What the service answers. The answer to the `start` behind a rollback is dropped by the code.
pub record ServiceControl (E : Type 0) : Type 0 where
  pub stop : Result (Unit {0}) E
  pub start : Result (Unit {0}) E
  pub health_check : Result (Unit {0}) E

pub data SwapError (E : Type 0) : Type 0 where
  staged_missing : PathBuf → SwapError E
  no_parent : PathBuf → SwapError E
  directory_missing : PathBuf → SwapError E
  service : E → SwapError E
  could_not_back_up could_not_stage no_permissions could_not_install : PathBuf → SwapError E
  rolled_back : SwapError E → SwapError E

-- `file_name().unwrap_or_default()` with a suffix, under the same directory
unfoldable pub bak_path : PathBuf → PathBuf
bak_path [] = codes ".bak" ∷ []
bak_path (name ∷ dir) = (name ++ codes ".bak") ∷ dir

-- `dir.join(format!(".{file_name}.new"))`
unfoldable pub tmp_path : Text → PathBuf → PathBuf
tmp_path name dir = (codes "." ++ (name ++ codes ".new")) ∷ dir

module _ (faults : Faults) where
  unfoldable pub rollback_one : BinarySwap → Files → Files
  rollback_one s fs =
      if exists fs (bak_path s.target)
      then (let fs' = remove_file (faults.remove s.target) s.target fs in
          elim (rename (faults.restore s.target) (bak_path s.target) s.target fs') [
            | none ↦ fs'
            | some fs'' ↦ fs''
          ])
      else fs

  unfoldable pub rollback_all : List BinarySwap → Files → Files
  rollback_all [] fs = fs
  rollback_all (s ∷ done) fs = rollback_all done (rollback_one s fs)

  unfoldable pub discard_baks : List BinarySwap → Files → Files
  discard_baks [] fs = fs
  discard_baks (s ∷ swaps) fs =
      discard_baks swaps (remove_file (faults.cleanup s.target) (bak_path s.target) fs)

module _ {E : Type 0} where
  -- the loop before anything is touched
  unfoldable pub preflight : List BinarySwap → Files → Result (Unit {0}) (SwapError E)
  preflight [] fs = ok tt
  preflight (s ∷ swaps) fs =
      let rest = preflight swaps fs in
      if not (is_file fs s.staged) then err (staged_missing s.staged) else elim s.target [
        | [] ↦ err (no_parent s.target)
        | _ ∷ dir ↦ if not (is_dir fs dir) then err (directory_missing dir) else rest
      ]

  module _ (faults : Faults) where
    -- the permissions of the temporary file, then its rename
    unfoldable pub install_staged :
        PathBuf → PathBuf → Text → Files → Files × Result (Unit {0}) (SwapError E)
    install_staged tmp target content fs =
        if faults.chmod target
        then (fs, err (no_permissions target))
        else elim (rename (faults.install target) tmp target
            (put tmp (some (file content true)) fs)) [
              | none ↦ (put tmp (some (file content true)) fs, err (could_not_install target))
              | some fs' ↦ (fs', ok tt)
            ]

    unfoldable pub copy_staged :
        PathBuf → PathBuf → PathBuf → Files → Files × Result (Unit {0}) (SwapError E)
    copy_staged tmp staged target fs = elim (fs staged) [
      | none ↦ (fs, err (could_not_stage target))
      | some node ↦ elim node [
        | directory ↦ (fs, err (could_not_stage target))
        | file content exec ↦
            if faults.copy target
            then (put tmp (faults.torn target) fs, err (could_not_stage target))
            else install_staged tmp target content (put tmp (some (file content exec)) fs)
      ]
    ]

    unfoldable pub install_executable :
        PathBuf → PathBuf → Files → Files × Result (Unit {0}) (SwapError E)
    install_executable staged [] fs = (fs, err (no_parent []))
    install_executable staged (name ∷ dir) fs =
        copy_staged (tmp_path name dir) staged (name ∷ dir) fs

    -- the install, and the just-moved original put back if it fails
    unfoldable pub install_or_undo : BinarySwap → Files → Files × Result (Unit {0}) (SwapError E)
    install_or_undo s fs =
        let (fs', r) = install_executable s.staged s.target fs in
        elim r [
          | ok _ ↦ (fs', ok tt)
          | err e ↦ elim (rename (faults.undo s.target) (bak_path s.target) s.target fs') [
            | none ↦ (fs', err e)
            | some fs'' ↦ (fs'', err e)
          ]
        ]

    unfoldable pub swap_one : BinarySwap → Files → Files × Result (Unit {0}) (SwapError E)
    swap_one s fs =
        if exists fs s.target
        then elim (rename (faults.backup s.target) s.target (bak_path s.target) fs) [
          | none ↦ (fs, err (could_not_back_up s.target))
          | some fs' ↦ install_or_undo s fs'
        ]
        else install_or_undo s fs

    -- the loop of swaps: the ones that are done, the last one first, and the first failure
    unfoldable pub swap_all :
        List BinarySwap → List BinarySwap → Files → Files × (List BinarySwap × Option (SwapError E))
    swap_all [] done fs = (fs, (done, none))
    swap_all (s ∷ swaps) done fs =
        let (fs', r) = swap_one s fs in
        elim r [ ok _ ↦ swap_all swaps (s ∷ done) fs' | err e ↦ (fs', (done, some e)) ]

    -- `service.start().and_then(|()| service.health_check())`
    abbrev pub started : ServiceControl E → Option (SwapError E)
    started control = elim control.start [
      | err e ↦ some (service e)
      | ok _ ↦ elim control.health_check [ err e ↦ some (service e) | ok _ ↦ none ]
    ]

    abbrev pub failure_of : Option (SwapError E) → ServiceControl E → Option (SwapError E)
    failure_of (some e) control = some e
    failure_of none control = started control

    unfoldable pub apply_swap :
        List BinarySwap → ServiceControl E → Files → Files × Result (Unit {0}) (SwapError E)
    apply_swap swaps control fs = elim (preflight swaps fs) [
      | err e ↦ (fs, err e)
      | ok _ ↦ elim control.stop [
        | err e ↦ (fs, err (service e))
        | ok _ ↦
            let (fs', (done, failed)) = swap_all swaps [] fs in
            elim (failure_of failed control) [
              | none ↦ (discard_baks faults swaps fs', ok tt)
              | some e ↦ (rollback_all faults done fs', err (rolled_back e))
            ]
      ]
    ]
