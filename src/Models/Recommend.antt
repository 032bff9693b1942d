-- ===== src/Models/Recommend.antt =====
-- `recommend_for_ram` of crates/seck-models/src/recommend.rs and `store_path` of
-- crates/seck-models/src/store.rs. The numbers of parameters are floats: their type and their
-- comparison are parameters.
use Prim.Native.Nat.{Ordering}
use seck.Base.Paths.{path_join}
use seck.Base.{
  ℕ, Option, none, some, List, [], ◌∷◌, ◌++◌, leb, if◌then◌else◌, ◌==◌, take, Bytes, Text,
}

pub record Entry {ℓ} (F : Type ℓ) : Type ℓ where
  pub name : Text
  pub base_arch : Text
  pub params_billion : F
  pub gguf_url : Text
  pub sha3_256 : Text
  pub recommended_min_ram_gb : ℕ
  pub license : Text
  pub source : Text

pub record Manifest {ℓ} (F : Type ℓ) : Type ℓ where
  pub version : Text
  pub entries : List (Entry F)

module _ {ℓ} {F : Type ℓ} (partial_cmp : F → F → Option Ordering) where
  -- The later of two entries, unless the earlier one is greater. An uncomparable pair is equal.
  abbrev pub larger : Entry F → Entry F → Entry F
  larger a b = elim (partial_cmp a.params_billion b.params_billion) [
    | none ↦ b
    | some o ↦ elim o [ Ordering.gt ↦ a | _ ↦ b ]
  ]

  -- `iter().filter(..).max_by(..)`
  unfoldable pub max_of : ℕ → Option (Entry F) → List (Entry F) → Option (Entry F)
  max_of ram_gb best [] = best
  max_of ram_gb best (e ∷ es) =
      max_of ram_gb
        (if leb e.recommended_min_ram_gb ram_gb
          then elim best [ none ↦ some e | some b ↦ some (larger b e) ]
          else best)
        es

  unfoldable pub recommend_for_ram : Manifest F → ℕ → Option (Entry F)
  unfolding max_of
  recommend_for_ram m ram_gb = max_of ram_gb none m.entries

-- What follows the last `/`.
unfoldable pub basename : Text → Text → Text
basename acc [] = acc
basename acc (c ∷ s) = basename (if c == b'/' then [] else acc ++ c ∷ []) s

-- `get(..16)`, which is the whole of a shorter text. The digest is ASCII.
unfoldable pub store_path : Bytes → Text → Text → Bytes
unfolding basename path_join
store_path cache_root sha3_256_hex gguf_url =
    path_join (path_join cache_root (take 16 sha3_256_hex)) (basename [] gguf_url)
