-- ===== src/Models/Runs.antt =====
-- Runs of the choice and of the download, and the theorems of `Models` at concrete inputs.
use Prim.Native.Nat.{compare, Ordering}
use seck.Base.{ℕ, ◌≡◌, refl, true, false, Option, none, some, [], ◌∷◌, equal, Bytes}
use seck.Base.Outcome.{ok, err}
use seck.Base.Strings.{codes, contains}
use seck.Models.Hosts.{is_allowed}
use seck.Models.Download.{
  Files, put, Network, Disk, download_verified, verify_file, placeholder_hash,
}
use seck.Models.Recommend.{Entry, Manifest, recommend_for_ram, store_path}
use seck.Models.Command.{pulled, pull, run, airgap_on}
use seck.Models.Laws.{IsOutcome, download_verified-IsOutcome, pull-verify_file}

subdomain : is_allowed (codes "x.github.com") ≡ true
unfolding is_allowed equal
subdomain = refl

lookalike : is_allowed (codes "xgithub.com") ≡ false
unfolding is_allowed equal
lookalike = refl

-- A server that sends `abc` in two pieces, and a digest that is the text itself.
abbrev network : Network
network = record {
  to_uppercase = λ t. t;
  to_lowercase = λ t. t;
  hex_encode = λ b. b;
  sha3_256 = λ b. b;
  parse = λ u. some (some (codes "github.com"));
  get = λ u. some (some (codes "ab") ∷ some (codes "c") ∷ []);
}

abbrev disk : Disk
disk = record { create_dir_all = true; new_file = true; write_all = λ b. true; persist = true }

abbrev no_files : Files
no_files p = none

abbrev tiny : Entry ℕ
tiny = record {
  name = codes "tiny";
  base_arch = codes "x";
  params_billion = 1;
  gguf_url = codes "https://github.com/m.gguf";
  sha3_256 = codes "abc";
  recommended_min_ram_gb = 4;
  license = codes "x";
  source = codes "x";
}

abbrev twice : Entry ℕ
twice = record tiny { name = codes "twice"; recommended_min_ram_gb = 8 }

abbrev manifest : Manifest ℕ
manifest = record { version = codes "1"; entries = tiny ∷ twice ∷ [] }

abbrev by_number : ℕ → ℕ → Option Ordering
by_number a b = some (compare a b)

-- Of two entries of one size, the later one.
last_of_equals : recommend_for_ram by_number manifest 16 ≡ some twice
unfolding recommend_for_ram
last_of_equals = refl

placeholder :
    download_verified network disk (codes "u") (codes "REPLACE_AT_RELEASE") (codes "d") no_files
    ≡ (err (placeholder_hash (codes "REPLACE_AT_RELEASE")), no_files)
unfolding download_verified contains
placeholder = refl

download_verified-IsOutcome_example :
    IsOutcome network disk
      (codes "u")
      (codes "abc")
      (codes "d")
      no_files
      (download_verified network disk (codes "u") (codes "abc") (codes "d") no_files)
download_verified-IsOutcome_example =
    download_verified-IsOutcome network disk (codes "u") (codes "abc") (codes "d") no_files

abbrev dest : Bytes
dest = codes "/c/abc/m.gguf"

pull_tiny :
    run ℕ by_number network disk (codes "/c") manifest (pull (codes "tiny") false) no_files
    ≡ (ok (pulled tiny dest), put dest (codes "abc") no_files)
unfolding run download_verified contains is_allowed equal store_path
pull_tiny = refl

pull_offline :
    run ℕ by_number network disk (codes "/c") manifest (pull (codes "tiny") true) no_files
    ≡ (err airgap_on, no_files)
unfolding run
pull_offline = refl

pull-verify_file_example :
    (false ≡ false)
    × (verify_file network disk (put dest (codes "abc") no_files) dest (codes "abc") ≡ true)
pull-verify_file_example =
    pull-verify_file network disk ℕ by_number (codes "/c") manifest (codes "tiny") false no_files
      (put dest (codes "abc") no_files) tiny dest pull_tiny
