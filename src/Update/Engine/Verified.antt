-- ===== src/Update/Engine/Verified.antt =====
-- What an attempt to update installs.
use backr.Base.{
  Text, codes, ◌++◌, Result, ok, ◌≡◌, ◌≢◌, ◌↔◌, Bool, true, false, Option, some, List, [], ◌∷◌,
}
use backr.Update.Release.{
  ReleaseInfo, ReleaseAsset, asset, release_binaries, parse_sha256sums, checksum_matches, is_newer,
}
use backr.Update.Engine.{ApplyOutcome, updated, UpdateError, World, Staged}

-- The release has this asset.
pub Offers : ReleaseInfo → ReleaseAsset → Type 0
Offers release a =
    (before : List ReleaseAsset) × (behind : List ReleaseAsset) × (release.assets
      ≡ before ++ a ∷ behind)

-- The checksums are those of the release's file SHA256SUMS, as it was downloaded.
pub record Manifest {E : Type 0} (world : World E) (latest : ReleaseInfo)
    (sums : Text → Option Text) : Type 0 where
  pub manifest : ReleaseAsset
  pub text : Text
  pub offered : Offers latest manifest
  pub named : manifest.name ≡ codes "SHA256SUMS"
  pub downloaded : world.download manifest.url ≡ ok text
  pub parsed : sums ≡ parse_sha256sums text

module _ {E : Type 0} (world : World E) where
  -- The staged binary is an asset of the release that has the checksum that the manifest gives it.
  pub record Verified (latest : ReleaseInfo) (sums : Text → Option Text) (bin : Text)
      (staged : Staged) : Type 0 where
    pub asset : ReleaseAsset
    pub expected : Text
    pub offered : Offers latest asset
    pub named : asset.name ≡ bin ++ (codes "-linux-" ++ world.arch)
    pub downloaded : world.download asset.url ≡ ok staged.content
    pub listed : sums asset.name ≡ some expected
    pub matches : checksum_matches world.sha256_hex staged.content expected ≡ true
    pub located : world.installed_target_path bin ≡ ok staged.target

  -- The staged binaries, one for each name, in order.
  abbrev pub AllVerified : ReleaseInfo → (Text → Option Text) → List Text → List Staged → Type 0
  AllVerified latest sums [] [] = Unit
  AllVerified latest sums [] (_ ∷ _) = ⊥
  AllVerified latest sums (_ ∷ _) [] = ⊥
  AllVerified latest sums (bin ∷ bins) (staged ∷ rest) =
      Verified latest sums bin staged × AllVerified latest sums bins rest

  module _ {S : Type 0} (swap : List Staged → S → S × Result (Unit {0}) E) where
    -- The swap was run: with no backup in progress, on the verified binaries of a newer release; and
    -- the update says so exactly when the swap succeeded.
    pub record Installs (busy busy_later : Bool) (current : Text) (latest : Result ReleaseInfo E)
        (s : S) (r : S × Result ApplyOutcome (UpdateError E)) : Type 0 where
      pub idle : busy ≡ false
      pub idle_later : busy_later ≡ false
      pub release : ReleaseInfo
      pub fetched : latest ≡ ok release
      pub newer : is_newer release.tag current ≡ true
      pub sums : Text → Option Text
      pub manifest : Manifest world release sums
      pub staged : List Staged
      pub verified : AllVerified release sums release_binaries staged
      pub stored : r.0 ≡ (swap staged s).0
      pub answered : ((swap staged s).1 ≡ ok tt) ↔ (r.1 ≡ ok (updated current release.tag))

    abbrev pub Unchanged : S → S × Result ApplyOutcome (UpdateError E) → Type 0
    Unchanged s r = (r.0 ≡ s) × ((a b : Text) → r.1 ≢ ok (updated a b))
