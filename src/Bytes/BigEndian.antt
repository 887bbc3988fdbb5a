-- ===== src/Bytes/BigEndian.antt =====
-- Byte strings: lemmas on the big-endian conversions.
use native.Mathlib.Nat.{pow-suc, pow-zero}
use game_store.Prelude.{
  ℕ, zero, suc, ◌+◌, ◌*◌, ◌/◌, ◌%◌, ◌^◌, ◌<◌, ◌≡◌, refl, ap, ◌∙◌, [], ◌∷◌, ◌++◌, arith, length,
  length-append, All,
}
use game_store.Bytes.{Bytes, IsByte, to_be, from_be, from_be_acc}

pub length-to_be : (w n : ℕ) → length (to_be w n) ≡ w
unfolding to_be
length-to_be zero n = refl
length-to_be (suc w) n =
    omega (arith, length-append (to_be w (n / 256)) ((n % 256) ∷ []), length-to_be w (n / 256))

pub from_be_acc-snoc :
    (acc : ℕ) (bs : Bytes) (b : ℕ) → from_be_acc acc (bs ++ b ∷ []) ≡ from_be_acc acc bs * 256 + b
unfolding from_be_acc
from_be_acc-snoc acc [] b = refl
from_be_acc-snoc acc (c ∷ bs) b = from_be_acc-snoc (acc * 256 + c) bs b

pub div_lt : (w n : ℕ) → n < 256 ^ suc w → n / 256 < 256 ^ w
div_lt w n h = omega (arith, pow-suc 256 w)

-- Decoding the encoding of a number that fits gives the number.
pub from_be-to_be : (w n : ℕ) → n < 256 ^ w → from_be (to_be w n) ≡ n
unfolding from_be to_be
from_be-to_be zero n h = omega (arith, pow-zero 256)
from_be-to_be (suc w) n h =
    from_be_acc-snoc 0 (to_be w (n / 256)) (n % 256)
    ∙ omega (arith, from_be-to_be w (n / 256) (div_lt w n h))

pub All-to_be : (w n : ℕ) → All IsByte (to_be w n)
unfolding to_be
All-to_be zero n = tt
All-to_be (suc w) n = snoc (to_be w (n / 256)) (All-to_be w (n / 256))
  where
    snoc : (bs : Bytes) → All IsByte bs → All IsByte (bs ++ (n % 256) ∷ [])
    snoc [] h = omega arith
    snoc (b ∷ bs) h = (h.0, snoc bs h.1)

-- A list that is not empty ends in a last element.
data Snoc : Bytes → Type 0 where
  empty : Snoc []
  snoc : (bs : Bytes) (b : ℕ) → Snoc bs → Snoc (bs ++ b ∷ [])

Snoc-cons : (a : ℕ) (bs : Bytes) → Snoc bs → Snoc (a ∷ bs)
Snoc-cons a bs empty = snoc [] a empty
Snoc-cons a bs (snoc cs c s) = snoc (a ∷ cs) c (Snoc-cons a cs s)

last_cases : (bs : Bytes) → Snoc bs
last_cases [] = empty
last_cases (a ∷ bs) = Snoc-cons a bs (last_cases bs)

All-snoc : (bs : Bytes) (b : ℕ) → All IsByte (bs ++ b ∷ []) → All IsByte bs × IsByte b
All-snoc [] b h = (tt, h.0)
All-snoc (c ∷ bs) b h = let r = All-snoc bs b h.1 in ((h.0, r.0), r.1)

to_be_step : (w x c : ℕ) → c < 256 → to_be (suc w) (x * 256 + c) ≡ to_be w x ++ c ∷ []
unfolding to_be
to_be_step w x c h =
    let high : (x * 256 + c) / 256 ≡ x = omega arith in
    let low : (x * 256 + c) % 256 ≡ c = omega arith in rw (high, low)

to_be-from_be_view : (bs : Bytes) → Snoc bs → All IsByte bs → to_be (length bs) (from_be bs) ≡ bs
unfolding from_be
to_be-from_be_view bs empty h = unfold to_be in refl
to_be-from_be_view bs (snoc cs c s) h =
    let e : length (cs ++ c ∷ []) ≡ suc (length cs) = omega (arith, length-append cs (c ∷ [])) in
    let parts = All-snoc cs c h in
    rw (e, from_be_acc-snoc 0 cs c, to_be_step (length cs) (from_be cs) c parts.1)
      (ap (λ t. t ++ c ∷ []) (to_be-from_be_view cs s parts.0))

-- Encoding the decoding of bytes gives the bytes.
pub to_be-from_be : (bs : Bytes) → All IsByte bs → to_be (length bs) (from_be bs) ≡ bs
to_be-from_be bs h = to_be-from_be_view bs (last_cases bs) h

-- What `w` bytes decode to is below `256 ^ w`.
from_be_view-lt : (bs : Bytes) → Snoc bs → All IsByte bs → from_be bs < 256 ^ length bs
unfolding from_be from_be_acc
from_be_view-lt bs empty h = omega (arith, pow-zero 256)
from_be_view-lt bs (snoc cs c s) h =
    let e : length (cs ++ c ∷ []) ≡ suc (length cs) = omega (arith, length-append cs (c ∷ [])) in
    let parts = All-snoc cs c h in
    rw (e, from_be_acc-snoc 0 cs c)
      (omega (arith, from_be_view-lt cs s parts.0, pow-suc 256 (length cs)))

pub from_be-lt : (bs : Bytes) → All IsByte bs → from_be bs < 256 ^ length bs
from_be-lt bs h = from_be_view-lt bs (last_cases bs) h
