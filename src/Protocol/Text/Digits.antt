-- ===== src/Protocol/Text/Digits.antt =====
-- crates/gamestore-protocol/src/encode.rs and decode.rs: numbers in decimal, printed and parsed.
use game_store.Prelude.{
  ℕ, zero, suc, ◌≢◌, ◌+◌, ◌-◌, ◌*◌, ◌/◌, ◌%◌, ◌^◌, ◌<◌, ◌≤◌, true, some, [], ◌∷◌, ◌++◌, ◌≡◌, refl,
  ap, ◌∙◌, arith, All, ltb, if◌then◌else◌, Bool-cases, inl, inr,
}
use game_store.Prelude.Int.{ℤ, pos, negsuc, IsI64}
use game_store.Bytes.{Bytes}
use game_store.Protocol.Text.{
  digits_from, digits, i64_from_text, decimal, format_i64, is_utf8, utf8_from, utf8_step, leading,
}

abbrev pub IsDigit : ℕ → Type 0
IsDigit b = (48 ≤ b) × (b ≤ 57)

abbrev pub IsAscii : ℕ → Type 0
IsAscii b = b < 128

digits_from-snoc :
    (acc : ℕ) (xs : Bytes) (d m : ℕ)
    → IsDigit d
    → digits_from acc xs ≡ some m
    → digits_from acc (xs ++ d ∷ []) ≡ some (m * 10 + (d - 48))
unfolding digits_from
digits_from-snoc acc [] d m h e = ground arith
digits_from-snoc acc (x ∷ xs) d m h e =
    ground (arith, digits_from-snoc (acc * 10 + (x - 48)) xs d m h)

All-snoc : (P : ℕ → Type 0) (xs : Bytes) (d : ℕ) → All P xs → P d → All P (xs ++ d ∷ [])
All-snoc P [] d h p = (p, tt)
All-snoc P (x ∷ xs) d h p = (h.0, All-snoc P xs d h.1 p)

pub decimal-IsDigit : (places n : ℕ) → All IsDigit (decimal places n)
unfolding decimal
decimal-IsDigit zero n = tt
decimal-IsDigit (suc places) n = elim (Bool-cases (ltb n 10)) [
  | inl small ↦ rw small ((omega arith, ground arith), tt)
  | inr large ↦ rw large (
      All-snoc IsDigit (decimal places (n / 10)) (48 + n % 10) (decimal-IsDigit places (n / 10))
        (omega arith, omega arith))
]

decimal_step :
    (places n : ℕ)
    → decimal (suc places) n
      ≡ (if ltb n 10 then (48 + n) ∷ [] else decimal places (n / 10) ++ (48 + n % 10) ∷ [])
unfolding decimal
decimal_step places n = refl

one_digit : (n : ℕ) → n < 10 → digits_from 0 ((48 + n) ∷ []) ≡ some n
unfolding digits_from
one_digit n h = ground arith

digits_from-decimal :
    (places n : ℕ) → n < 10 ^ suc places → digits_from 0 (decimal (suc places) n) ≡ some n
digits_from-decimal zero n h =
    ap (digits_from 0) (decimal_step zero n) ∙ rw (small) (one_digit n (omega arith))
  where
    small : ltb n 10 ≡ true
    small = ground arith
digits_from-decimal (suc places) n h =
    ap (digits_from 0) (decimal_step (suc places) n) ∙ elim (Bool-cases (ltb n 10)) [
      | inl small ↦ rw small (one_digit n (ground arith))
      | inr large ↦ rw large (
          digits_from-snoc 0 (decimal (suc places) (n / 10)) (48 + n % 10) (n / 10)
            (omega arith, omega arith) (digits_from-decimal places (n / 10) (omega arith))
          ∙ ap some (omega arith))
    ]

-- A text of digits, and not an empty one, is a number.
i64_of_digits :
    (xs : Bytes) (n : ℕ)
    → All IsDigit xs
    → xs ≢ []
    → digits_from 0 xs ≡ some n
    → n < 2 ^ 63
    → i64_from_text xs ≡ some (pos n)
unfolding i64_from_text digits
i64_of_digits [] n h ne e bound = absurd (ne refl)
i64_of_digits (x ∷ xs) n h ne e bound = ground arith

decimal-ne : (places n : ℕ) → decimal (suc places) n ≢ []
decimal-ne places n e = elim (Bool-cases (ltb n 10)) [
  | inl small ↦ absurd (ground (arith, decimal_step places n))
  | inr large ↦
      absurd
        (snoc-ne (decimal places (n / 10)) (48 + n % 10) (ground (arith, decimal_step places n)))
]
  where
    snoc-ne : (xs : Bytes) (d : ℕ) → xs ++ d ∷ [] ≢ []
    snoc-ne [] d e = ground arith
    snoc-ne (x ∷ xs) d e = ground arith

i64_of_minus :
    (xs : Bytes) (n : ℕ)
    → xs ≢ []
    → digits_from 0 xs ≡ some (suc n)
    → n < 2 ^ 63
    → i64_from_text (45 ∷ xs) ≡ some (negsuc n)
unfolding i64_from_text digits
i64_of_minus [] n ne e bound = absurd (ne refl)
i64_of_minus (x ∷ xs) n ne e bound = ground arith

-- The bytes of a printed number: digits and the minus sign.
abbrev pub IsNumeral : ℕ → Type 0
IsNumeral b = (45 ≤ b) × (b ≤ 57)

pub numerals : (xs : Bytes) → All IsDigit xs → All IsNumeral xs
numerals [] h = tt
numerals (x ∷ xs) h = ((omega arith, h.0.1), numerals xs h.1)

pub format_i64-IsNumeral : (z : ℤ) → All IsNumeral (format_i64 z)
unfolding format_i64
format_i64-IsNumeral (pos n) = numerals (decimal 19 n) (decimal-IsDigit 19 n)
format_i64-IsNumeral (negsuc n) =
    ((omega arith, omega arith), numerals (decimal 19 (suc n)) (decimal-IsDigit 19 (suc n)))

utf8_of_numerals : (xs : Bytes) (lo hi : ℕ) → All IsNumeral xs → utf8_from (0, lo, hi) xs ≡ true
unfolding utf8_from utf8_step leading
utf8_of_numerals [] lo hi h = ground arith
utf8_of_numerals (x ∷ xs) lo hi h = ground (arith, utf8_of_numerals xs 0 0 h.1)

pub is_utf8_of_numerals : (xs : Bytes) → All IsNumeral xs → is_utf8 xs ≡ true
unfolding is_utf8
is_utf8_of_numerals xs h = utf8_of_numerals xs 0 0 h

-- A printed `i64` parses back.
pub i64_from_text-format_i64 : (z : ℤ) → IsI64 z → i64_from_text (format_i64 z) ≡ some z
unfolding format_i64
i64_from_text-format_i64 (pos n) h =
    i64_of_digits (decimal 19 n) n (decimal-IsDigit 19 n) (decimal-ne 18 n)
      (digits_from-decimal 18 n (omega arith)) h
i64_from_text-format_i64 (negsuc n) h =
    i64_of_minus (decimal 19 (suc n)) n (decimal-ne 18 (suc n))
      (digits_from-decimal 18 (suc n) (omega arith)) h

digits_nonempty : (xs : Bytes) → xs ≢ [] → digits xs ≡ digits_from 0 xs
unfolding digits
digits_nonempty [] ne = absurd (ne refl)
digits_nonempty (x ∷ xs) ne = refl

pub digits-decimal : (places n : ℕ) → n < 10 ^ suc places → digits (decimal (suc places) n) ≡ some n
digits-decimal places n h =
    digits_nonempty (decimal (suc places) n) (decimal-ne places n) ∙ digits_from-decimal places n h
