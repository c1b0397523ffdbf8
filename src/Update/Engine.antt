-- ===== src/Update/Engine.antt =====
-- update/mod.rs: one attempt to update, from the release to the swap. The network, the hash and the
-- service are arguments; what is installed is a state that the swap steps.
use backr.Base.{
  Bool-eq, Result-cases, All-lines, lines-lack_newline, ap₂, trim_idem, trim-strip_cr,
  strip_cr_of_lacks, All-trim, All-trim_start_by, All-trim_end_by, lines-append, lines_line,
  map-trim-lines-finish, strip_prefix, splitn_from, splitn, ends_with_char, split-nil,
  split-cons_sep, ltb, leb, ◌==◌, if◌then◌else◌, ==_iff, ==_self, Bool-cases, Option-cases, length,
  take, head?, any, filter, length-append, length-filter, filter-append, All, All-append,
  All-append_iff, All-map, All-filter, Text, codes, eq_text, is_empty, contains_char, starts_with,
  contains, is_whitespace, trim_start_by, trim_end_by, trim, split_from, split, join, replace_char,
  strip_cr, lines_from, lines, is_digit, digits_from, parse_uint, eq_text→≡, eq_text_self,
  eq_text_iff, contains_char-eq-false_iff, split_from-append, split-append, split_from_of_lacks,
  trim_end_by_parts, trim_start_by_parts, trim_start_by-cons, trim_end_by-concat, is_empty-concat,
  ne_of_eq_text, eq_text_of_ne, ne_nil_of_is_empty, is_empty_of_ne_nil, Result, ok, err, map_err,
  ok_or, to_option, >>=-eq-ok, ℕ, zero, suc, ◌+◌, ◌-◌, ◌*◌, ◌/◌, ◌%◌, ◌^◌, ◌≤◌, ◌<◌, String, ◌≡◌,
  refl, sym, ap, ◌∙◌, subst, ◌≢◌, ◌↔◌, ◌⊎◌, inl, inr, Bool, true, false, ◌&&◌, ◌||◌, not, Option,
  none, some, List, [], ◌∷◌, ◌++◌, map, reverse, append-nil, append_assoc, map-append,
  reverse-append, arith,
}
use backr.Update.Release.{
  ReleaseInfo, ReleaseAsset, checksum_asset, binary_asset, release_binaries, parse_sha256sums,
  checksum_matches, is_newer,
}
pub mod Verified

pub data ApplyOutcome : Type 0 where
  updated : Text → Text → ApplyOutcome
  up_to_date : Text → ApplyOutcome
  backup_in_progress : ApplyOutcome

pub data UpdateError (E : Type 0) : Type 0 where
  no_checksum_asset : UpdateError E
  missing_asset : Text → UpdateError E
  no_checksum_for : Text → UpdateError E
  checksum_mismatch : Text → UpdateError E
  failed : E → UpdateError E

-- What is outside the program: the hash, the architecture, the downloads, and the file system that a
-- path in the home directory is resolved in.
pub record World (E : Type 0) : Type 0 where
  pub sha256_hex : Text → Text
  pub arch : Text
  pub download : Text → Result Text E
  pub installed_target_path : Text → Result Text E

-- A verified binary: where it goes, and its content.
pub record Staged : Type 0 where
  pub target : Text
  pub content : Text

module _ {E : Type 0} (world : World E) where
  -- one turn of the loop over the binaries, up to the target
  unfoldable pub stage_verified :
      (Text → Option Text) → Text → ReleaseAsset → Text → Result Staged (UpdateError E)
  stage_verified sums bin asset content = elim (sums asset.name) [
    | none ↦ err (no_checksum_for asset.name)
    | some expected ↦
        if checksum_matches world.sha256_hex content expected
        then elim (world.installed_target_path bin) [
          | err e ↦ err (failed e)
          | ok target ↦ ok (record { target = target; content = content })
        ]
        else err (checksum_mismatch asset.name)
  ]

  unfoldable pub stage_one :
      ReleaseInfo → (Text → Option Text) → Text → Result Staged (UpdateError E)
  stage_one latest sums bin = elim (binary_asset world.arch latest bin) [
    | none ↦ err (missing_asset bin)
    | some asset ↦ elim (world.download asset.url) [
      | err e ↦ err (failed e)
      | ok content ↦ stage_verified sums bin asset content
    ]
  ]

  unfoldable pub stage_all :
      ReleaseInfo → (Text → Option Text) → List Text → Result (List Staged) (UpdateError E)
  stage_all latest sums [] = ok []
  stage_all latest sums (bin ∷ bins) = elim (stage_one latest sums bin) [
    | err e ↦ err e
    | ok staged ↦ elim (stage_all latest sums bins) [ err e ↦ err e | ok rest ↦ ok (staged ∷ rest) ]
  ]

  -- the manifest, then the binaries
  unfoldable pub stage : ReleaseInfo → Result (List Staged) (UpdateError E)
  stage latest = elim (checksum_asset latest) [
    | none ↦ err no_checksum_asset
    | some asset ↦ elim (world.download asset.url) [
      | err e ↦ err (failed e)
      | ok text ↦ stage_all latest (parse_sha256sums text) release_binaries
    ]
  ]

  module _ {S : Type 0} (swap : List Staged → S → S × Result (Unit {0}) E) where
    -- the second look at `is_busy`, and the swap
    unfoldable pub swap_unless_busy : Bool → List Staged → S → S × Result Bool (UpdateError E)
    swap_unless_busy busy staged s =
        if busy
        then (s, ok false)
        else (let (s', r) = swap staged s in
            (s', elim r [ ok _ ↦ ok true | err e ↦ err (failed e) ]))

    unfoldable pub stage_and_apply : Bool → ReleaseInfo → S → S × Result Bool (UpdateError E)
    stage_and_apply busy latest s = elim (stage latest) [
      | err e ↦ (s, err e)
      | ok staged ↦ swap_unless_busy busy staged s
    ]

    -- `busy` and `busy_later` are the two answers of `is_busy`; `latest` is the answer of the network,
    -- and `staging` that of the staging directory
    unfoldable pub apply_update :
        Bool
        → Bool
        → Text
        → Result ReleaseInfo E
        → Result (Unit {0}) E
        → S
        → S × Result ApplyOutcome (UpdateError E)
    apply_update busy busy_later current latest staging s =
        if busy then (s, ok backup_in_progress) else elim latest [
          | err e ↦ (s, err (failed e))
          | ok release ↦
              if not (is_newer release.tag current)
              then (s, ok (up_to_date current))
              else elim staging [
                | err e ↦ (s, err (failed e))
                | ok _ ↦
                    let (s', r) = stage_and_apply busy_later release s in
                    (
                      s',
                      elim r [
                        | err e ↦ err e
                        | ok applied ↦
                            if applied
                            then ok (updated current release.tag)
                            else ok backup_in_progress
                      ],
                    )
              ]
        ]

-- `should_check`: whether the window is over since the recorded check, in seconds; no stamp, or one
-- that is not read, is due.
unfoldable pub should_check : ℕ → Option ℕ → ℕ → Bool
should_check window none now = true
should_check window (some last) now = if ltb now last then true else leb window (now - last)
