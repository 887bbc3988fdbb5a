-- ===== src/Encoding/Score/Order.antt =====
-- crates/gamestore-engine/src/encoding.rs: the order of encoded scores, and their decoding.
use game_store.Prelude.{ℕ, ◌^◌, ◌<◌, ◌≡◌, sym, ◌∙◌, true, false, arith, length, ltb, if◌then◌else◌}
use game_store.Bytes.{bytes_lt}
use game_store.Bytes.BigEndian.{length-to_be, from_be-to_be}
use game_store.Bytes.Order.{bytes_lt-to_be}
use game_store.Encoding.Score.{
  encode_score, decode_score, ordered, unordered, f64_lt, f64_eq, is_nan,
}

pub length-encode_score : (s : ℕ) → length (encode_score s) ≡ 8
unfolding encode_score
length-encode_score s = length-to_be 8 _

ordered-lt : (s : ℕ) → s < 2 ^ 64 → ordered s < 256 ^ 8
ordered-lt s h = ground arith

unordered-ordered : (s : ℕ) → s < 2 ^ 64 → unordered (ordered s) ≡ s
unordered-ordered s h = ground arith

ltb-ordered :
    (a b : ℕ) → a < 2 ^ 64 → b < 2 ^ 64 → f64_lt a b ≡ true → ltb (ordered a) (ordered b) ≡ true
unfolding f64_lt
ltb-ordered a b ha hb h = ground arith

f64_lt_of_ordered :
    (a b : ℕ)
    → a < 2 ^ 64
    → b < 2 ^ 64
    → is_nan a ≡ false
    → is_nan b ≡ false
    → ltb (ordered a) (ordered b) ≡ true
    → (if f64_lt a b then true else f64_eq a b) ≡ true
unfolding f64_lt f64_eq
f64_lt_of_ordered a b ha hb na nb h = ground arith

-- Decoding an encoded 64-bit score gives its bits.
pub decode_score-encode_score : (s : ℕ) → s < 2 ^ 64 → decode_score (encode_score s) ≡ s
unfolding encode_score decode_score
decode_score-encode_score s h =
    rw (from_be-to_be 8 (ordered s) (ordered-lt s h)) (unordered-ordered s h)

-- For 64-bit patterns, a score below another as IEEE 754 doubles is encoded in lower bytes.
pub bytes_lt-encode_score :
    (a b : ℕ)
    → a < 2 ^ 64
    → b < 2 ^ 64
    → f64_lt a b ≡ true
    → bytes_lt (encode_score a) (encode_score b) ≡ true
unfolding encode_score
bytes_lt-encode_score a b ha hb h =
    bytes_lt-to_be 8 (ordered a) (ordered b) (ordered-lt a ha) (ordered-lt b hb)
    ∙ ltb-ordered a b ha hb h

-- For 64-bit patterns that are no NaN, lower encoded bytes mean a lower or an equal score as IEEE
-- 754 doubles.
pub f64_lt_of_bytes_lt :
    (a b : ℕ)
    → a < 2 ^ 64
    → b < 2 ^ 64
    → is_nan a ≡ false
    → is_nan b ≡ false
    → bytes_lt (encode_score a) (encode_score b) ≡ true
    → (if f64_lt a b then true else f64_eq a b) ≡ true
unfolding encode_score
f64_lt_of_bytes_lt a b ha hb na nb h =
    f64_lt_of_ordered a b ha hb na nb
      (sym (bytes_lt-to_be 8 (ordered a) (ordered b) (ordered-lt a ha) (ordered-lt b hb)) ∙ h)
