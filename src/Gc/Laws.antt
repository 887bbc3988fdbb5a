-- ===== src/Gc/Laws.antt =====
-- crates/gamestore-engine/src/gc.rs: lemmas on the version map and on should_keep.
use game_store.Prelude.{
  ℕ, Bool, true, false, none, some, List, [], ◌∷◌, ◌≡◌, ◌≢◌, ◌++◌, ◌⊎◌, refl, ◌==◌, if◌then◌else◌,
  arith,
}
use game_store.Bytes.{Bytes, ◌==ᵇ◌}
use game_store.Bytes.Order.{eq_of_==ᵇ, ==ᵇ_refl}
use game_store.Encoding.Keys.{
  subkey_prefix_byte, zscore_prefix_byte, versioned_prefix, meta_key, subkey, zscore_key,
}
use game_store.Encoding.Keys.RoundTrip.{
  Fits, parse_owner_version-subkey, parse_owner_version-zscore_key,
}
use game_store.Encoding.Keys.Disjoint.{parse_owner_version-meta_key}
use game_store.Gc.{VersionMap, find, without, set, remove, get, clear, should_keep}

find-without :
    (k j : Bytes) (vs : List (Bytes × ℕ))
    → find j (without k vs) ≡ (if k ==ᵇ j then none else find j vs)
unfolding find without
find-without k j [] = ground arith
find-without k j ((i, v) ∷ vs) =
    ground (arith, find-without k j vs, eq_of_==ᵇ k j, eq_of_==ᵇ i k, eq_of_==ᵇ i j, ==ᵇ_refl j)

pub get-set :
    (k j : Bytes) (v : ℕ) (vm : VersionMap)
    → get (set k v vm) j ≡ (if k ==ᵇ j then some v else get vm j)
unfolding get set
get-set k j v vm = unfold find in ground (arith, find-without k j vm.inner)

pub get-remove :
    (k j : Bytes) (vm : VersionMap) → get (remove k vm) j ≡ (if k ==ᵇ j then none else get vm j)
unfolding get remove
get-remove k j vm = find-without k j vm.inner

pub get-clear : (j : Bytes) (vm : VersionMap) → get (clear vm) j ≡ none
unfolding get clear
get-clear j vm = refl

-- Metadata records are always kept.
pub should_keep-meta_key : (vm : VersionMap) (k : Bytes) → should_keep vm (meta_key k) ≡ true
unfolding should_keep
should_keep-meta_key vm k = rw (parse_owner_version-meta_key k, should_keep)

-- What the predicate says of a record of a given owner and version.
abbrev pub is_current : VersionMap → Bytes → ℕ → Bool
is_current vm k v = elim (get vm k) [ some current ↦ v == current | none ↦ false ]

pub should_keep-subkey :
    (vm : VersionMap) (k : Bytes) (v : ℕ) (f : Bytes)
    → Fits k v
    → should_keep vm (subkey k v f) ≡ is_current vm k v
unfolding should_keep
should_keep-subkey vm k v f h = rw (parse_owner_version-subkey k v f h, should_keep)

pub should_keep-zscore_key :
    (vm : VersionMap) (k : Bytes) (v s : ℕ) (m : Bytes)
    → Fits k v
    → should_keep vm (zscore_key k v s m) ≡ is_current vm k v
unfolding should_keep
should_keep-zscore_key vm k v s m h = rw (parse_owner_version-zscore_key k v s m h, should_keep)

-- A subkey or a score-index key of an owner whose current version is another one, or who has none.
pub record IsStale (vm : VersionMap) (raw : Bytes) : Type 0 where
  pub prefix : ℕ
  pub versioned : (prefix ≡ subkey_prefix_byte) ⊎ (prefix ≡ zscore_prefix_byte)
  pub user_key : Bytes
  pub version : ℕ
  pub rest : Bytes
  pub shape : raw ≡ versioned_prefix prefix user_key version ++ rest
  pub outdated : get vm user_key ≢ some version
