-- ===== src/Tests/Update.antt =====
-- An update of the three binaries.
use backr.Base.{
  strip_prefix, Text, codes, eq_text, is_whitespace, trim_start_by, trim_end_by, trim, split_from,
  digits_from, parse_uint, Result, ok, err, ℕ, ◌+◌, ◌≡◌, refl, true, false, none, some, List, [],
  ◌∷◌,
}
use backr.Update.Files.{PathBuf, file, Files, eq_path}
use backr.Update.Swap.{BinarySwap, Faults, ServiceControl, apply_swap, bak_path, tmp_path}
use backr.Update.Swap.Frame.{tmp_of}
use backr.Update.Swap.Atomic.{Sound, named-Apart}
use backr.Update.Swap.Settled.{AllOrNothing, apply_swap-AllOrNothing}
use backr.Update.Release.{ReleaseInfo, parse_version, version_of, core_of}
use backr.Update.Engine.{World, Staged}

abbrev bin : PathBuf
bin = codes "bin" ∷ codes "local" ∷ []

abbrev staging : PathBuf
staging = codes "staging" ∷ []

abbrev daemon : BinarySwap
daemon = record { target = codes "backrd" ∷ bin; staged = codes "backrd-linux" ∷ staging }

abbrev app : BinarySwap
app = record { target = codes "backr-app" ∷ bin; staged = codes "backr-app-linux" ∷ staging }

abbrev cli : BinarySwap
cli = record { target = codes "backr" ∷ bin; staged = codes "backr-linux" ∷ staging }

abbrev no_faults : Faults
no_faults = record {
  backup = λ _. false;
  copy = λ _. false;
  chmod = λ _. false;
  install = λ _. false;
  undo = λ _. false;
  remove = λ _. false;
  restore = λ _. false;
  cleanup = λ _. false;
  torn = λ _. none;
}

-- Every installed binary is there, and the health check fails.
abbrev installed : Files
installed p = some (file (codes "old") true)

abbrev unhealthy : ServiceControl Text
unhealthy = record { stop = ok tt; start = ok tt; health_check = err (codes "no ping") }

app-Sound : Sound Text no_faults (daemon ∷ []) app (cli ∷ [])
unfolding bak_path tmp_path tmp_of eq_path eq_text
app-Sound = record {
  apart = named-Apart (codes "backr-app") bin;
  staged_target = refl;
  staged_bak = refl;
  staged_before = (record { target = refl; bak = refl; tmp = refl }, tt);
  target_before = (record { target = refl; bak = refl; tmp = refl }, tt);
  target_behind = (record { target = refl; bak = refl; tmp = refl }, tt);
  bak_behind = (record { target = refl; bak = refl; tmp = refl }, tt);
  undo = refl;
  restore = refl;
}

apply_swap-AllOrNothing_example :
    AllOrNothing Text no_faults app
      (file (codes "old") true)
      installed
      (apply_swap no_faults (daemon ∷ app ∷ cli ∷ []) unhealthy installed)
apply_swap-AllOrNothing_example =
    apply_swap-AllOrNothing Text no_faults app (file (codes "old") true) (daemon ∷ []) (cli ∷ [])
      unhealthy installed app-Sound refl

parsed_110 : parse_version (codes "v1.10.0") ≡ some (record { major = 1; minor = 10; patch = 0 })
unfolding parse_version version_of core_of split_from trim trim_start_by trim_end_by is_whitespace
    strip_prefix parse_uint digits_from
parsed_110 = refl

parsed_18 : parse_version (codes "1.8.0") ≡ some (record { major = 1; minor = 8; patch = 0 })
unfolding parse_version version_of core_of split_from trim trim_start_by trim_end_by is_whitespace
    strip_prefix parse_uint digits_from
parsed_18 = refl

abbrev world : World Text
world = record {
  sha256_hex = λ _. codes "00";
  arch = codes "x86_64";
  download = λ url. ok url;
  installed_target_path = λ b. ok b;
}

abbrev release : ReleaseInfo
release = record {
  tag = codes "v1.10.0";
  assets =
      record {
        name = codes "SHA256SUMS";
        url = codes "00 backrd-linux-x86_64\n00 backr-app-linux-x86_64\n00 backr-linux-x86_64\n";
      }
      ∷ record { name = codes "backrd-linux-x86_64"; url = codes "1" }
      ∷ record { name = codes "backr-app-linux-x86_64"; url = codes "2" }
      ∷ record { name = codes "backr-linux-x86_64"; url = codes "3" }
      ∷ [];
}

abbrev swap : List Staged → ℕ → ℕ × Result (Unit {0}) Text
swap staged n = (n + 1, ok tt)
