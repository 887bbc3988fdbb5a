-- ===== src/Encoding/Keys/RoundTrip.antt =====
-- crates/gamestore-engine/src/encoding.rs: the key parsers on encoded keys.
use game_store.Prelude.{
  ℕ, ◌+◌, ◌%◌, ◌^◌, ◌<◌, ◌≡◌, ◌⊎◌, inl, inr, refl, sym, ap, ◌∙◌, some, ◌∷◌, ◌++◌, arith, length,
  drop, length-append, take-append, drop-append, append_assoc,
}
use game_store.Bytes.{Bytes, to_be, from_be, slice}
use game_store.Bytes.BigEndian.{length-to_be, from_be-to_be}
use game_store.Encoding.Score.{encode_score, decode_score}
use game_store.Encoding.Score.Order.{length-encode_score, decode_score-encode_score}
use game_store.Encoding.Keys.{
  subkey_prefix_byte, zscore_prefix_byte, versioned_prefix, subkey, subkey_prefix, zscore_key,
  zscore_prefix, parse_versioned, parse_subkey, parse_owner_version, split_score_suffix,
}

-- A key length that the four length bytes can hold, and a `u64` version.
abbrev pub Fits : Bytes → ℕ → Type 0
Fits user_key version = (length user_key < 2 ^ 32) × (version < 2 ^ 64)

module _ (prefix : ℕ) (user_key : Bytes) (version : ℕ) (rest : Bytes)
    (fits : Fits user_key version) where
  abbrev len_bytes : Bytes
  len_bytes = to_be 4 (length user_key % 2 ^ 32)

  abbrev raw : Bytes
  raw = prefix ∷ (len_bytes ++ (user_key ++ (to_be 8 version ++ rest)))

  len_slice : slice raw 1 5 ≡ len_bytes
  len_slice = take-append len_bytes _ 4 (sym (length-to_be 4 _))

  len_value : from_be len_bytes ≡ length user_key
  len_value = from_be-to_be 4 (length user_key % 2 ^ 32) (omega arith) ∙ omega arith

  key_slice : slice raw 5 (5 + length user_key) ≡ user_key
  key_slice =
      rw (drop-append len_bytes (user_key ++ (to_be 8 version ++ rest)) 4 (sym (length-to_be 4 _)))
        (take-append user_key _ _ (omega arith))

  after_key : drop (5 + length user_key) raw ≡ to_be 8 version ++ rest
  after_key =
      ap (drop (5 + length user_key)) split
      ∙ drop-append (prefix ∷ (len_bytes ++ user_key)) (to_be 8 version ++ rest)
          (5 + length user_key)
          (omega
            (arith, length-append len_bytes user_key, length-to_be 4 (length user_key % 2 ^ 32)))
    where
      split : raw ≡ (prefix ∷ (len_bytes ++ user_key)) ++ (to_be 8 version ++ rest)
      split = simp append_assoc

  version_slice : slice raw (5 + length user_key) (5 + length user_key + 8) ≡ to_be 8 version
  version_slice =
      rw after_key (take-append (to_be 8 version) rest _ (omega (arith, length-to_be 8 version)))

  after_version : drop (5 + length user_key + 8) raw ≡ rest
  after_version =
      ap (drop (5 + length user_key + 8)) split
      ∙ drop-append (prefix ∷ (len_bytes ++ (user_key ++ to_be 8 version))) rest
          (5 + length user_key + 8)
          (omega (
            arith,
            length-append len_bytes (user_key ++ to_be 8 version),
            length-append user_key (to_be 8 version),
            length-to_be 4 (length user_key % 2 ^ 32),
            length-to_be 8 version,
          ))
    where
      split : raw ≡ (prefix ∷ (len_bytes ++ (user_key ++ to_be 8 version))) ++ rest
      split = simp append_assoc

  length-raw : length raw ≡ 13 + length user_key + length rest
  length-raw = omega (
    arith,
    length-append len_bytes (user_key ++ (to_be 8 version ++ rest)),
    length-append user_key (to_be 8 version ++ rest),
    length-append (to_be 8 version) rest,
    length-to_be 4 (length user_key % 2 ^ 32),
    length-to_be 8 version,
  )

  parse_raw : parse_versioned raw prefix ≡ some (user_key, version, rest)
  unfolding parse_versioned
  parse_raw = ground (
    arith,
    ap from_be len_slice,
    len_value,
    key_slice,
    ap from_be version_slice,
    from_be-to_be 8 version fits.1,
    after_version,
    length-raw,
  )

  pub parse_versioned-versioned_prefix :
      parse_versioned (versioned_prefix prefix user_key version ++ rest) prefix
      ≡ some (user_key, version, rest)
  unfolding versioned_prefix
  parse_versioned-versioned_prefix = rw shape parse_raw
    where
      shape : (prefix ∷ (len_bytes ++ (user_key ++ to_be 8 version))) ++ rest ≡ raw
      shape = simp append_assoc

-- A subkey whose key and version are in range parses back to its key, version and field.
pub parse_subkey-subkey :
    (user_key : Bytes) (version : ℕ) (field : Bytes)
    → Fits user_key version
    → parse_subkey (subkey user_key version field) ≡ some (user_key, version, field)
unfolding parse_subkey subkey subkey_prefix
parse_subkey-subkey user_key version field fits =
    parse_versioned-versioned_prefix subkey_prefix_byte user_key version field fits

owner_of_versioned :
    (prefix : ℕ) (user_key : Bytes) (version : ℕ) (rest : Bytes)
    → (prefix ≡ subkey_prefix_byte) ⊎ (prefix ≡ zscore_prefix_byte)
    → Fits user_key version
    → parse_owner_version (versioned_prefix prefix user_key version ++ rest)
      ≡ some (user_key, version)
unfolding parse_owner_version versioned_prefix
owner_of_versioned prefix user_key version rest family fits =
    ground (arith, parse_versioned-versioned_prefix prefix user_key version rest fits)

-- The owner and version parsed from a subkey in range are those it was made of.
pub parse_owner_version-subkey :
    (user_key : Bytes) (version : ℕ) (field : Bytes)
    → Fits user_key version
    → parse_owner_version (subkey user_key version field) ≡ some (user_key, version)
unfolding subkey subkey_prefix
parse_owner_version-subkey user_key version field fits =
    owner_of_versioned subkey_prefix_byte user_key version field (inl refl) fits

-- The owner and version parsed from a score-index key in range are those it was made of.
pub parse_owner_version-zscore_key :
    (user_key : Bytes) (version score : ℕ) (member : Bytes)
    → Fits user_key version
    → parse_owner_version (zscore_key user_key version score member) ≡ some (user_key, version)
unfolding zscore_key zscore_prefix
parse_owner_version-zscore_key user_key version score member fits =
    owner_of_versioned zscore_prefix_byte user_key version (encode_score score ++ member) (inr refl)
      fits

-- The suffix of a score-index key splits into the bits of its score and its member.
pub split_score_suffix-encode_score :
    (score : ℕ) (member : Bytes)
    → score < 2 ^ 64
    → split_score_suffix (encode_score score ++ member) ≡ some (score, member)
unfolding split_score_suffix
split_score_suffix-encode_score score member h = ground (
  arith,
  length-append (encode_score score) member,
  length-encode_score score,
  ap decode_score (take-append (encode_score score) member 8 (sym (length-encode_score score))),
  drop-append (encode_score score) member 8 (sym (length-encode_score score)),
  decode_score-encode_score score h,
)
