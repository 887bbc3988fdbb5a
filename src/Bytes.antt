-- ===== src/Bytes.antt =====
-- Byte strings: Rust's `&[u8]`, `Vec<u8>`, `Bytes` and `String` as lists of byte values, with the
-- big-endian conversions, the lexicographic order and the prefix test of the standard library.
pub mod BigEndian
pub mod Order
pub mod Prefix
use Prim.Native.Char.{code}
use Prim.Native.String.{String}
use game_store.Prelude.{
  ℕ, zero, suc, ◌+◌, ◌-◌, ◌*◌, ◌/◌, ◌%◌, ◌<◌, Bool, true, false, List, [], ◌∷◌, ◌++◌, ◌&&◌, ltb,
  ◌==◌, if◌then◌else◌, take, drop,
}

abbrev pub Bytes : Type 0
Bytes = List ℕ

abbrev pub IsByte : ℕ → Type 0
IsByte b = b < 256

-- The bytes of an ASCII text.
unfoldable pub text : String → Bytes
text String.[] = []
text (String.◌∷◌ c s) = code c ∷ text s

-- `to_be_bytes` of an unsigned integer of `w` bytes.
unfoldable pub to_be : ℕ → ℕ → Bytes
to_be zero n = []
to_be (suc w) n = to_be w (n / 256) ++ (n % 256) ∷ []

unfoldable pub from_be_acc : ℕ → Bytes → ℕ
from_be_acc acc [] = acc
from_be_acc acc (b ∷ bs) = from_be_acc (acc * 256 + b) bs

-- `from_be_bytes`
unfoldable pub from_be : Bytes → ℕ
unfolding from_be_acc
from_be bs = from_be_acc 0 bs

-- `raw[from..to]`
abbrev pub slice : Bytes → ℕ → ℕ → Bytes
slice raw from to = take (to - from) (drop from raw)

infix 50 ◌==ᵇ◌
unfoldable pub ◌==ᵇ◌ : Bytes → Bytes → Bool
[] ==ᵇ [] = true
[] ==ᵇ (y ∷ ys) = false
(x ∷ xs) ==ᵇ [] = false
(x ∷ xs) ==ᵇ (y ∷ ys) = (x == y) && (xs ==ᵇ ys)

-- `<` on byte strings.
unfoldable pub bytes_lt : Bytes → Bytes → Bool
bytes_lt [] [] = false
bytes_lt [] (y ∷ ys) = true
bytes_lt (x ∷ xs) [] = false
bytes_lt (x ∷ xs) (y ∷ ys) =
    let rest = bytes_lt xs ys in if ltb x y then true else if ltb y x then false else rest

unfoldable pub starts_with : Bytes → Bytes → Bool
starts_with [] raw = true
starts_with (p ∷ ps) [] = false
starts_with (p ∷ ps) (x ∷ xs) = (p == x) && starts_with ps xs
