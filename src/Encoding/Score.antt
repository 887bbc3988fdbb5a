-- ===== src/Encoding/Score.antt =====
-- crates/gamestore-engine/src/encoding.rs: scores as order-preserving bytes. An `f64` is its bit
-- pattern, a number below 2 ^ 64, as `to_bits` gives it; comparisons are those of IEEE 754.
pub mod Order
use game_store.Prelude.{
  ℕ, ◌+◌, ◌-◌, ◌%◌, ◌^◌, Bool, true, false, not, ◌&&◌, ◌||◌, ltb, leb, ◌==◌, if◌then◌else◌,
}
use game_store.Bytes.{Bytes, to_be, from_be}

-- `bits & (1 << 63) != 0`
abbrev pub sign_bit : ℕ → Bool
sign_bit bits = leb (2 ^ 63) bits

-- `bits ^ (1 << 63)`
abbrev flip_sign : ℕ → ℕ
flip_sign bits = if sign_bit bits then bits - 2 ^ 63 else bits + 2 ^ 63

-- `!bits`
abbrev complement : ℕ → ℕ
complement bits = 2 ^ 64 - 1 - bits

-- The bits whose unsigned order is that of the scores, and the way back.
abbrev pub ordered : ℕ → ℕ
ordered bits = if sign_bit bits then complement bits else flip_sign bits

abbrev pub unordered : ℕ → ℕ
unordered bits = if sign_bit bits then flip_sign bits else complement bits

unfoldable pub encode_score : ℕ → Bytes
encode_score score = to_be 8 (ordered score)

unfoldable pub decode_score : Bytes → ℕ
decode_score raw = unordered (from_be raw)

-- The bit pattern without its sign.
abbrev pub magnitude : ℕ → ℕ
magnitude bits = bits % 2 ^ 63

-- All exponent bits are set, and some bit of the fraction.
abbrev pub is_nan : ℕ → Bool
is_nan bits = ltb 0x7ff0_0000_0000_0000 (magnitude bits)

-- `a == b` on `f64`: a NaN equals nothing, and the two zeros are equal.
unfoldable pub f64_eq : ℕ → ℕ → Bool
f64_eq a b =
    (not (is_nan a) && not (is_nan b)) && ((a == b) || ((magnitude a == 0) && (magnitude b == 0)))

-- `a < b` on `f64`.
unfoldable pub f64_lt : ℕ → ℕ → Bool
f64_lt a b =
    (not (is_nan a) && not (is_nan b))
    && (if sign_bit a
        then (if sign_bit b
            then ltb (magnitude b) (magnitude a)
            else not ((magnitude a == 0) && (magnitude b == 0)))
        else (if sign_bit b then false else ltb (magnitude a) (magnitude b)))
