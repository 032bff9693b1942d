-- ===== src/Models/Command.antt =====
-- The command `models` of crates/seck-cli/src/models.rs, whose output is given as data.
use seck.Base.{ℕ, Bool, Option, none, some, List, [], ◌∷◌, if◌then◌else◌, equal, Bytes, Text}
use seck.Base.Outcome.{Result, ok, err}
use seck.Models.Recommend.{Entry, Manifest, recommend_for_ram, store_path}
use seck.Models.Download.{DlError, Files, Network, Disk, download_verified}
use Prim.Native.Nat.{Ordering}

pub data ModelsOp : Type 0 where
  list : ModelsOp
  recommend : ℕ → ModelsOp
  pull : Text → Bool → ModelsOp
  verify : Bytes → Text → ModelsOp

pub data ModelsError : Type 0 where
  no_model_fits : ℕ → ModelsError
  airgap_on : ModelsError
  no_entry_named : Text → ModelsError
  download : Text → DlError → ModelsError
  read : Bytes → ModelsError
  mismatch : Text → Text → ModelsError

module _ (F : Type 0) (partial_cmp : F → F → Option Ordering) (n : Network) (d : Disk)
    (cache_root : Bytes) where
  pub data Output : Type 0 where
    listed : List (Entry F) → Output
    recommended : Entry F → Output
    pulled : Entry F → Bytes → Output
    verified : Bytes → Output

  -- `entries.iter().find(|e| e.name == name)`
  unfoldable pub find_named : Text → List (Entry F) → Option (Entry F)
  find_named name [] = none
  find_named name (e ∷ es) =
      let rest = find_named name es in if equal e.name name then some e else rest

  abbrev pub finished :
      Entry F → Bytes → Result DlError (Unit {0}) × Files → Result ModelsError Output × Files
  finished e dest (ok u, files) = (ok (pulled e dest), files)
  finished e dest (err x, files) = (err (download e.name x), files)

  unfoldable pub pull_entry : Entry F → Files → Result ModelsError Output × Files
  pull_entry e files =
      let dest = store_path cache_root e.sha3_256 e.gguf_url in
      finished e dest (download_verified n d e.gguf_url e.sha3_256 dest files)

  unfoldable pub run : Manifest F → ModelsOp → Files → Result ModelsError Output × Files
  unfolding find_named pull_entry
  run manifest list files = (ok (listed manifest.entries), files)
  run manifest (recommend ram_gb) files = elim (recommend_for_ram partial_cmp manifest ram_gb) [
    | some e ↦ (ok (recommended e), files)
    | none ↦ (err (no_model_fits ram_gb), files)
  ]
  run manifest (pull name airgap) files =
      if airgap then (err airgap_on, files) else elim (find_named name manifest.entries) [
        | none ↦ (err (no_entry_named name), files)
        | some e ↦ pull_entry e files
      ]
  run manifest (verify path sha3_256_hex) files = elim (files path) [
    | none ↦ (err (read path), files)
    | some bytes ↦
        let got = n.hex_encode (n.sha3_256 bytes) in
        let want = n.to_lowercase sha3_256_hex in
        if equal got want then (ok (verified path), files) else (err (mismatch want got), files)
  ]
