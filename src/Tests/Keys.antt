-- ===== src/Tests/Keys.antt =====
-- Tests of the encodings and of the compaction predicate.
use game_store.Prelude.{ℕ, ◌++◌, true, some, [], ◌∷◌, ◌≡◌, refl, arith, All, if◌then◌else◌}
use game_store.Bytes.{Bytes, IsByte, text, bytes_lt, from_be}
use game_store.Encoding.Keys.{
  subkey, parse_versioned, parse_subkey, versioned_prefix, subkey_prefix_byte,
}
use game_store.Encoding.Keys.RoundTrip.{Fits, parse_subkey-subkey}
use game_store.Encoding.Keys.Sound.{parse_versioned_sound}
use game_store.Encoding.Keys.Disjoint.{subkey-injective}
use game_store.Encoding.Meta
use game_store.Encoding.Meta.{
  Meta, type_hash, type_list, field_count, set_field_count, list_bounds, set_list_bounds,
}
use game_store.Encoding.Meta.RoundTrip.{decode-encode}
use game_store.Encoding.Score.{encode_score, decode_score, f64_lt, f64_eq}
use game_store.Encoding.Score.Order.{
  decode_score-encode_score, bytes_lt-encode_score, f64_lt_of_bytes_lt,
}
use game_store.Gc
use game_store.Tests.Fixtures.{user_key}

-- The bits of -1.5 and 2.0.
abbrev low : ℕ
low = 13832806255468478464

abbrev high : ℕ
high = 4611686018427387904

abbrev version : ℕ
version = 7

fits : Fits user_key 7
unfolding text
fits = (omega arith, omega arith)

abbrev hash_meta : Meta
hash_meta = record { type_id = type_hash; version = 7; expire_ms = 99; payload = [] }

parse_subkey-subkey_example :
    parse_subkey (subkey user_key 7 (text "f")) ≡ some (user_key, 7, text "f")
parse_subkey-subkey_example = parse_subkey-subkey user_key 7 (text "f") fits

subkey-injective_example : (user_key ≡ user_key) × (version ≡ version) × (text "f" ≡ text "f")
subkey-injective_example =
    subkey-injective user_key user_key version version (text "f") (text "f") fits fits refl

decode-encode_example : Meta.decode (Meta.encode hash_meta) ≡ some hash_meta
decode-encode_example =
    decode-encode hash_meta (record { version = omega arith; expire_ms = omega arith })

decode_score-encode_score_example : decode_score (encode_score low) ≡ low
decode_score-encode_score_example = decode_score-encode_score low (omega arith)

below : f64_lt low high ≡ true
unfolding f64_lt
below = refl

bytes_lt-encode_score_example : bytes_lt (encode_score low) (encode_score high) ≡ true
bytes_lt-encode_score_example = bytes_lt-encode_score low high (omega arith) (omega arith) below

f64_lt_of_bytes_lt_example : (if f64_lt low high then true else f64_eq low high) ≡ true
f64_lt_of_bytes_lt_example =
    f64_lt_of_bytes_lt low high (omega arith) (omega arith) refl refl
      (bytes_lt-encode_score low high (omega arith) (omega arith) below)

abbrev old_record : Bytes
old_record = 2 ∷ 0 ∷ 0 ∷ 0 ∷ 1 ∷ 65 ∷ 0 ∷ 0 ∷ 0 ∷ 0 ∷ 0 ∷ 0 ∷ 0 ∷ 7 ∷ 66 ∷ []

abbrev newer : Gc.VersionMap
newer = Gc.set (65 ∷ []) 8 Gc.new

parsed : parse_versioned old_record subkey_prefix_byte ≡ some (65 ∷ [], 7, 66 ∷ [])
unfolding parse_versioned from_be
parsed = refl

old_bytes : All IsByte old_record
old_bytes = search (arith)

parse_versioned_sound_example :
    (old_record ≡ versioned_prefix subkey_prefix_byte (65 ∷ []) 7 ++ 66 ∷ []) × Fits (65 ∷ []) 7
parse_versioned_sound_example =
    parse_versioned_sound old_record subkey_prefix_byte (65 ∷ []) 7 (66 ∷ []) old_bytes parsed
