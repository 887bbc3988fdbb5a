-- ===== src/Encoding/Keys/Disjoint.antt =====
-- crates/gamestore-engine/src/encoding.rs: when two keys can be equal, or share a prefix.
use game_store.Prelude.{ℕ, ◌≡◌, ◌≢◌, refl, ap, true, none, ◌++◌, arith, length, drop}
use game_store.Bytes.{Bytes, starts_with}
use game_store.Bytes.Prefix.{append-drop_of_starts_with}
use game_store.Encoding.Keys.{
  meta_key, versioned_prefix, subkey, subkey_prefix, zscore_key, zscore_prefix, parse_versioned,
  parse_owner_version, parse_subkey,
}
use game_store.Encoding.Keys.RoundTrip.{Fits, parse_versioned-versioned_prefix, parse_subkey-subkey}

-- Two subkeys whose keys and versions are in range are equal only if their keys, versions and
-- fields are.
pub subkey-injective :
    (k k' : Bytes) (v v' : ℕ) (f f' : Bytes)
    → Fits k v
    → Fits k' v'
    → subkey k v f ≡ subkey k' v' f'
    → (k ≡ k') × (v ≡ v') × (f ≡ f')
subkey-injective k k' v v' f f' h h' e =
    ground (arith, parse_subkey-subkey k v f h, parse_subkey-subkey k' v' f' h', ap parse_subkey e)

-- A versioned record starts with the prefix of an owner and version only if they are its own.
pub owner_of_starts_with :
    (p : ℕ) (k k' : Bytes) (v v' : ℕ) (rest : Bytes)
    → Fits k v
    → Fits k' v'
    → starts_with (versioned_prefix p k v) (versioned_prefix p k' v' ++ rest) ≡ true
    → (k ≡ k') × (v ≡ v')
owner_of_starts_with p k k' v v' rest h h' e = ground (
  arith,
  parse_versioned-versioned_prefix p k v
      (drop (length (versioned_prefix p k v)) (versioned_prefix p k' v' ++ rest)) h,
  parse_versioned-versioned_prefix p k' v' rest h',
  ap (λ raw. parse_versioned raw p)
      (append-drop_of_starts_with (versioned_prefix p k v) (versioned_prefix p k' v' ++ rest) e),
)

pub subkey-ne-meta_key : (k k' : Bytes) (v : ℕ) (f : Bytes) → subkey k v f ≢ meta_key k'
unfolding subkey subkey_prefix versioned_prefix meta_key
subkey-ne-meta_key k k' v f e = ground arith

pub zscore_key-ne-meta_key : (k k' : Bytes) (v s : ℕ) (m : Bytes) → zscore_key k v s m ≢ meta_key k'
unfolding zscore_key zscore_prefix versioned_prefix meta_key
zscore_key-ne-meta_key k k' v s m e = ground arith

pub subkey-ne-zscore_key :
    (k k' : Bytes) (v v' : ℕ) (f : Bytes) (s : ℕ) (m : Bytes) → subkey k v f ≢ zscore_key k' v' s m
unfolding subkey subkey_prefix zscore_key zscore_prefix versioned_prefix
subkey-ne-zscore_key k k' v v' f s m e = ground arith

pub meta_key-injective : (k k' : Bytes) → meta_key k ≡ meta_key k' → k ≡ k'
unfolding meta_key
meta_key-injective k k' e = cc

-- Metadata keys have no version.
pub parse_owner_version-meta_key : (k : Bytes) → parse_owner_version (meta_key k) ≡ none
unfolding parse_owner_version meta_key
parse_owner_version-meta_key k = refl
