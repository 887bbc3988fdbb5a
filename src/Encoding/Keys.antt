-- ===== src/Encoding/Keys.antt =====
-- crates/gamestore-engine/src/encoding.rs: metadata keys, subkeys and score-index keys, and the
-- parser of the versioned ones. `usize` is 64 bits wide.
pub mod RoundTrip
pub mod Sound
pub mod Disjoint
use game_store.Prelude.{
  ℕ, ◌+◌, ◌%◌, ◌^◌, Bool, true, false, not, Option, none, some, [], ◌∷◌, ◌++◌, ◌||◌, ◌&&◌, ltb,
  ◌==◌, if◌then◌else◌, length, drop, get_or,
}
use game_store.Bytes.{Bytes, to_be, from_be, slice}
use game_store.Encoding.Score.{encode_score, decode_score}

abbrev pub meta_prefix : ℕ
meta_prefix = 1

abbrev pub subkey_prefix_byte : ℕ
subkey_prefix_byte = 2

abbrev pub zscore_prefix_byte : ℕ
zscore_prefix_byte = 3

unfoldable pub meta_key : Bytes → Bytes
meta_key user_key = meta_prefix ∷ user_key

-- The shape that the two versioned families share. `user_key.len() as u32` drops the high bits.
unfoldable pub versioned_prefix : ℕ → Bytes → ℕ → Bytes
versioned_prefix prefix user_key version =
    prefix ∷ (to_be 4 (length user_key % 2 ^ 32) ++ (user_key ++ to_be 8 version))

unfoldable pub subkey_prefix : Bytes → ℕ → Bytes
subkey_prefix user_key version = versioned_prefix subkey_prefix_byte user_key version

unfoldable pub subkey : Bytes → ℕ → Bytes → Bytes
subkey user_key version field = subkey_prefix user_key version ++ field

unfoldable pub zscore_prefix : Bytes → ℕ → Bytes
zscore_prefix user_key version = versioned_prefix zscore_prefix_byte user_key version

unfoldable pub zscore_key : Bytes → ℕ → ℕ → Bytes → Bytes
zscore_key user_key version score member =
    zscore_prefix user_key version ++ (encode_score score ++ member)

-- `usize::checked_add`
checked_add : ℕ → ℕ → Option ℕ
checked_add a b = if ltb (a + b) (2 ^ 64) then some (a + b) else none

infixl 5 ◌>>=◌
abbrev ◌>>=◌ {ℓ κ} : {A : Type ℓ} {B : Type κ} → Option A → (A → Option B) → Option B
none >>= f = none
some a >>= f = f a

unfoldable pub parse_versioned : Bytes → ℕ → Option (Bytes × ℕ × Bytes)
unfolding checked_add
parse_versioned raw prefix =
    if (length raw == 0) || (not (get_or raw 0 0 == prefix) || ltb (length raw) (1 + 4 + 8))
    then none
    else do
      let klen = from_be (slice raw 1 5)
      key_end ← checked_add 5 klen
      ver_end ← checked_add key_end 8
      if ltb (length raw) ver_end
          then none
          else some (slice raw 5 key_end, from_be (slice raw key_end ver_end), drop ver_end raw)

unfoldable pub parse_subkey : Bytes → Option (Bytes × ℕ × Bytes)
parse_subkey raw = parse_versioned raw subkey_prefix_byte

unfoldable pub parse_owner_version : Bytes → Option (Bytes × ℕ)
parse_owner_version [] = none
parse_owner_version (prefix ∷ raw) =
    if not (prefix == subkey_prefix_byte) && not (prefix == zscore_prefix_byte) then none else do
      (user_key, version, rest) ← parse_versioned (prefix ∷ raw) prefix
      some (user_key, version)

-- `None` if the suffix of a score-index key is shorter than a score.
unfoldable pub split_score_suffix : Bytes → Option (ℕ × Bytes)
split_score_suffix suffix =
    if ltb (length suffix) 8 then none else some (decode_score (slice suffix 0 8), drop 8 suffix)

abbrev pub list_initial_index : ℕ
list_initial_index = 2 ^ 63

unfoldable pub list_index_field : ℕ → Bytes
list_index_field index = to_be 8 index
