-- ===== src/Gc.antt =====
-- crates/gamestore-engine/src/gc.rs: the map from keys to their current structure versions, and the
-- predicate of the compaction filter.
pub mod Laws
use game_store.Prelude.{
  ℕ, Bool, true, false, Option, none, some, List, [], ◌∷◌, ◌==◌, if◌then◌else◌, length,
}
use game_store.Bytes.{Bytes, ◌==ᵇ◌}
use game_store.Encoding.Keys.{parse_owner_version}

-- The hash map as an association list, newest entry first; it holds a key once.
pub record VersionMap : Type 0 where
  pub inner : List (Bytes × ℕ)

find : Bytes → List (Bytes × ℕ) → Option ℕ
find k [] = none
find k ((j, v) ∷ vs) = if j ==ᵇ k then some v else find k vs

without : Bytes → List (Bytes × ℕ) → List (Bytes × ℕ)
without k [] = []
without k ((j, v) ∷ vs) = let rest = without k vs in if j ==ᵇ k then rest else (j, v) ∷ rest

unfoldable pub new : VersionMap
new = record { inner = [] }

unfoldable pub set : Bytes → ℕ → VersionMap → VersionMap
unfolding without
set user_key version vm = record { inner = (user_key, version) ∷ without user_key vm.inner }

unfoldable pub remove : Bytes → VersionMap → VersionMap
unfolding without
remove user_key vm = record { inner = without user_key vm.inner }

unfoldable pub get : VersionMap → Bytes → Option ℕ
unfolding find
get vm user_key = find user_key vm.inner

unfoldable pub clear : VersionMap → VersionMap
clear vm = record { inner = [] }

unfoldable pub len : VersionMap → ℕ
len vm = length vm.inner

unfoldable pub is_empty : VersionMap → Bool
unfolding len
is_empty vm = len vm == 0

-- `true` keeps the record.
unfoldable pub should_keep : VersionMap → Bytes → Bool
should_keep vm key = elim (parse_owner_version key) [
  | none ↦ true
  | some (user_key, version) ↦ elim (get vm user_key) [
    | some current ↦ version == current
    | none ↦ false
  ]
]
