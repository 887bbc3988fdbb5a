-- ===== src/Protocol/Text.antt =====
-- What the decoder and the encoder use of Rust's text conversions: UTF-8, `i64` and `f64` as text.
pub mod Digits
use game_store.Prelude.{
  ℕ, zero, suc, ◌+◌, ◌-◌, ◌*◌, ◌/◌, ◌%◌, ◌^◌, Bool, true, false, ◌&&◌, ◌||◌, not, Option, none,
  some, List, [], ◌∷◌, ◌++◌, ◌==◌, ltb, leb, if◌then◌else◌,
}
use game_store.Prelude.Int.{ℤ, pos, negsuc}
use game_store.Bytes.{Bytes}

-- How many continuation bytes are awaited, and the range of the first of them.
abbrev pub Awaited : Type 0
Awaited = ℕ × ℕ × ℕ

abbrev pub between : ℕ → ℕ → ℕ → Bool
between lo b hi = leb lo b && leb b hi

-- The first byte of a character.
unfoldable pub leading : ℕ → Option Awaited
leading b =
    if ltb b 0x80
    then some (0, 0, 0)
    else if between 0xc2 b 0xdf
    then some (1, 0x80, 0xbf)
    else if b == 0xe0
    then some (2, 0xa0, 0xbf)
    else if b == 0xed
    then some (2, 0x80, 0x9f)
    else if between 0xe1 b 0xef
    then some (2, 0x80, 0xbf)
    else if b == 0xf0
    then some (3, 0x90, 0xbf)
    else if between 0xf1 b 0xf3
    then some (3, 0x80, 0xbf)
    else if b == 0xf4
    then some (3, 0x80, 0x8f)
    else none

unfoldable pub utf8_step : Awaited → ℕ → Option Awaited
unfolding leading
utf8_step (zero, lo, hi) b = leading b
utf8_step (suc n, lo, hi) b = if between lo b hi then some (n, 0x80, 0xbf) else none

unfoldable pub utf8_from : Awaited → Bytes → Bool
unfolding utf8_step
utf8_from (n, lo, hi) [] = n == 0
utf8_from awaited (b ∷ bs) = elim (utf8_step awaited b) [
  | none ↦ false
  | some next ↦ utf8_from next bs
]

-- `std::str::from_utf8` succeeds.
unfoldable pub is_utf8 : Bytes → Bool
unfolding utf8_from
is_utf8 bytes = utf8_from (0, 0, 0) bytes

abbrev pub is_digit : ℕ → Bool
is_digit b = between 48 b 57

unfoldable pub digits_from : ℕ → Bytes → Option ℕ
digits_from acc [] = some acc
digits_from acc (b ∷ bs) =
    let rest = digits_from (acc * 10 + (b - 48)) bs in if is_digit b then rest else none

-- One digit or more.
unfoldable pub digits : Bytes → Option ℕ
unfolding digits_from
digits [] = none
digits (b ∷ bs) = digits_from 0 (b ∷ bs)

abbrev pub negated : ℕ → Option ℤ
negated n = if n == 0 then some (pos 0) else if leb n (2 ^ 63) then some (negsuc (n - 1)) else none

abbrev pub non_negative : ℕ → Option ℤ
non_negative n = if ltb n (2 ^ 63) then some (pos n) else none

-- `str::parse::<i64>`: an optional sign, then digits in range.
unfoldable pub i64_from_text : Bytes → Option ℤ
unfolding digits
i64_from_text [] = none
i64_from_text (b ∷ bs) =
    if b == 45
    then elim (digits bs) [ none ↦ none | some n ↦ negated n ]
    else if b == 43
    then elim (digits bs) [ none ↦ none | some n ↦ non_negative n ]
    else elim (digits (b ∷ bs)) [ none ↦ none | some n ↦ non_negative n ]

-- The decimal digits of a number that has at most the given number of them.
unfoldable pub decimal : ℕ → ℕ → Bytes
decimal zero n = []
decimal (suc places) n =
    let rest = decimal places (n / 10) in
    if ltb n 10 then (48 + n) ∷ [] else rest ++ (48 + n % 10) ∷ []

-- `write!("{n}")` of an `i64`, which has at most 19 digits.
unfoldable pub format_i64 : ℤ → Bytes
unfolding decimal
format_i64 (pos n) = decimal 19 n
format_i64 (negsuc n) = 45 ∷ decimal 19 (suc n)

-- Rust's text conversions of `f64`, on bit patterns.
pub record FloatText : Type 0 where
  pub parse : Bytes → Option ℕ
  pub format : ℕ → Bytes
