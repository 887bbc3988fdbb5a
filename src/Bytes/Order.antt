-- ===== src/Bytes/Order.antt =====
-- Byte strings: lemmas on equality and on the lexicographic order.
use native.Mathlib.Nat.{pow-zero}
use game_store.Prelude.{
  ℕ, zero, suc, ◌/◌, ◌%◌, ◌^◌, ◌<◌, ◌≡◌, ◌≢◌, ◌↔◌, refl, ap, sym, ◌∙◌, true, false, [], ◌∷◌, ◌++◌,
  ◌&&◌, ◌||◌, ltb, ◌==◌, arith, length,
}
use game_store.Bytes.{Bytes, to_be, from_be, ◌==ᵇ◌, bytes_lt}
use game_store.Bytes.BigEndian.{length-to_be, from_be-to_be, div_lt}

pub ==ᵇ_refl : (xs : Bytes) → (xs ==ᵇ xs) ≡ true
unfolding ◌==ᵇ◌
==ᵇ_refl [] = refl
==ᵇ_refl (x ∷ xs) = ground (arith, ==ᵇ_refl xs)

pub eq_of_==ᵇ : (xs ys : Bytes) → (xs ==ᵇ ys) ≡ true → xs ≡ ys
unfolding ◌==ᵇ◌
eq_of_==ᵇ [] [] h = refl
eq_of_==ᵇ [] (y ∷ ys) h = cc
eq_of_==ᵇ (x ∷ xs) [] h = cc
eq_of_==ᵇ (x ∷ xs) (y ∷ ys) h = ground (arith, eq_of_==ᵇ xs ys)

pub ==ᵇ_iff : (xs ys : Bytes) → ((xs ==ᵇ ys) ≡ true) ↔ (xs ≡ ys)
==ᵇ_iff xs ys = (eq_of_==ᵇ xs ys, λ e. rw (← e) (==ᵇ_refl xs))

pub ==ᵇ_ne : (xs ys : Bytes) → xs ≢ ys → (xs ==ᵇ ys) ≡ false
==ᵇ_ne xs ys h = ground (arith, eq_of_==ᵇ xs ys)

pub bytes_lt_irrefl : (xs : Bytes) → bytes_lt xs xs ≡ false
unfolding bytes_lt
bytes_lt_irrefl [] = refl
bytes_lt_irrefl (x ∷ xs) = ground (arith, bytes_lt_irrefl xs)

pub bytes_lt_trans :
    (xs ys zs : Bytes) → bytes_lt xs ys ≡ true → bytes_lt ys zs ≡ true → bytes_lt xs zs ≡ true
unfolding bytes_lt
bytes_lt_trans [] [] zs h k = cc
bytes_lt_trans [] (y ∷ ys) [] h k = cc
bytes_lt_trans [] (y ∷ ys) (z ∷ zs) h k = refl
bytes_lt_trans (x ∷ xs) [] zs h k = cc
bytes_lt_trans (x ∷ xs) (y ∷ ys) [] h k = cc
bytes_lt_trans (x ∷ xs) (y ∷ ys) (z ∷ zs) h k = ground (arith, bytes_lt_trans xs ys zs)

-- Two byte strings of which neither is below the other are equal.
pub bytes_lt_trichotomy :
    (xs ys : Bytes) → bytes_lt xs ys ≡ false → bytes_lt ys xs ≡ false → xs ≡ ys
unfolding bytes_lt
bytes_lt_trichotomy [] [] h k = refl
bytes_lt_trichotomy [] (y ∷ ys) h k = cc
bytes_lt_trichotomy (x ∷ xs) [] h k = cc
bytes_lt_trichotomy (x ∷ xs) (y ∷ ys) h k = ground (arith, bytes_lt_trichotomy xs ys)

bytes_lt-snoc :
    (xs ys : Bytes) (x y : ℕ)
    → length xs ≡ length ys
    → bytes_lt (xs ++ x ∷ []) (ys ++ y ∷ []) ≡ (bytes_lt xs ys || ((xs ==ᵇ ys) && ltb x y))
unfolding bytes_lt ◌==ᵇ◌
bytes_lt-snoc [] [] x y h = ground arith
bytes_lt-snoc [] (b ∷ ys) x y h = absurd (omega arith)
bytes_lt-snoc (a ∷ xs) [] x y h = absurd (omega arith)
bytes_lt-snoc (a ∷ xs) (b ∷ ys) x y h = ground (arith, bytes_lt-snoc xs ys x y)

-- Numbers of one width that fit have the same bytes exactly when they are equal.
pub to_be-injective : (w a b : ℕ) → a < 256 ^ w → b < 256 ^ w → to_be w a ≡ to_be w b → a ≡ b
to_be-injective w a b ha hb e = sym (from_be-to_be w a ha) ∙ ap from_be e ∙ from_be-to_be w b hb

to_be-==ᵇ : (w a b : ℕ) → a < 256 ^ w → b < 256 ^ w → (to_be w a ==ᵇ to_be w b) ≡ (a == b)
to_be-==ᵇ w a b ha hb =
    ground (arith, eq_of_==ᵇ (to_be w a) (to_be w b), to_be-injective w a b, ==ᵇ_refl (to_be w a))

-- Big-endian encodings of one width are ordered as byte strings the way the numbers are.
pub bytes_lt-to_be :
    (w a b : ℕ) → a < 256 ^ w → b < 256 ^ w → bytes_lt (to_be w a) (to_be w b) ≡ ltb a b
unfolding to_be
bytes_lt-to_be zero a b ha hb = unfold bytes_lt in ground (arith, pow-zero 256)
bytes_lt-to_be (suc w) a b ha hb =
    bytes_lt-snoc (to_be w (a / 256)) (to_be w (b / 256)) (a % 256) (b % 256)
      (length-to_be w (a / 256) ∙ sym (length-to_be w (b / 256)))
    ∙ rw
        (
          bytes_lt-to_be w (a / 256) (b / 256) (div_lt w a ha) (div_lt w b hb),
          to_be-==ᵇ w (a / 256) (b / 256) (div_lt w a ha) (div_lt w b hb),
        )
        (ground arith)
