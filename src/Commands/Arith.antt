-- ===== src/Commands/Arith.antt =====
-- What the commands use of Rust's `i64` arithmetic, and the value of an integral double.
use game_store.Prelude.{
  ℕ, suc, ◌+◌, ◌-◌, ◌*◌, ◌/◌, ◌%◌, ◌^◌, Option, none, some, ◌==◌, ltb, leb, if◌then◌else◌,
}
use game_store.Prelude.Int.{ℤ, pos, negsuc, sub_ℕ, ◌+ℤ◌}

-- The result, if it is in the range of `i64`.
unfoldable pub checked : ℤ → Option ℤ
checked (pos n) = if ltb n (2 ^ 63) then some (pos n) else none
checked (negsuc n) = if ltb n (2 ^ 63) then some (negsuc n) else none

-- `a.checked_mul(b)` with a positive `b`
unfoldable pub checked_mul : ℤ → ℕ → Option ℤ
unfolding checked
checked_mul (pos n) b = checked (pos (n * b))
checked_mul (negsuc n) b = checked (sub_ℕ 0 (suc n * b))

unfoldable pub checked_add : ℤ → ℤ → Option ℤ
unfolding checked
checked_add a b = checked (a +ℤ b)

unfoldable pub saturate : ℤ → ℤ
saturate (pos n) = if ltb n (2 ^ 63) then pos n else pos (2 ^ 63 - 1)
saturate (negsuc n) = if ltb n (2 ^ 63) then negsuc n else negsuc (2 ^ 63 - 1)

unfoldable pub saturating_add : ℤ → ℤ → ℤ
unfolding saturate
saturating_add a b = saturate (a +ℤ b)

-- `as u64`
unfoldable pub to_u64 : ℤ → ℕ
to_u64 (pos n) = n % 2 ^ 64
to_u64 (negsuc n) = (2 ^ 64 - suc n % 2 ^ 64) % 2 ^ 64

-- `n / b`, which rounds towards 0.
unfoldable pub quotient : ℤ → ℕ → ℤ
quotient (pos n) b = pos (n / b)
quotient (negsuc n) b = sub_ℕ 0 (suc n / b)

-- The integer m / 2 ^ k, if it is one.
abbrev pub whole : ℕ → ℕ → Option ℕ
whole m k = if m % 2 ^ k == 0 then some (m / 2 ^ k) else none

-- The size of a double of the given biased exponent and fraction, if it is an integer below 1e17.
-- From the exponent 1023 + 57 on it is at least 2 ^ 57, which is more.
unfoldable pub whole_size : ℕ → ℕ → Option ℕ
whole_size exponent fraction =
    if exponent == 0
    then (if fraction == 0 then some 0 else none)
    else if ltb exponent 1023
    then none
    else if leb exponent 1075
    then whole (2 ^ 52 + fraction) (1075 - exponent)
    else if ltb exponent 1080
    then some ((2 ^ 52 + fraction) * 2 ^ (exponent - 1075))
    else none

-- `score as i64`, of a double with `score == score.trunc() && score.is_finite() && score.abs() < 1e17`.
unfoldable pub integral_value : ℕ → Option ℤ
unfolding whole_size
integral_value bits = elim (whole_size (bits / 2 ^ 52 % 2 ^ 11) (bits % 2 ^ 52)) [
  | none ↦ none
  | some size ↦
      if ltb size 100000000000000000
      then some (if ltb bits (2 ^ 63) then pos size else sub_ℕ 0 size)
      else none
]
