-- ===== src/Commands/Text.antt =====
-- What the commands and the server use of Rust's text functions: ASCII case, lossy UTF-8 and white
-- space.
use game_store.Prelude.{
  ℕ, zero, suc, ◌+◌, ◌-◌, Bool, true, false, ◌&&◌, ◌||◌, none, some, [], ◌∷◌, ◌++◌, ◌==◌,
  if◌then◌else◌, map,
}
use game_store.Bytes.{Bytes, ◌==ᵇ◌}
use game_store.Protocol.Text.{Awaited, between, leading}

abbrev pub upper_byte : ℕ → ℕ
upper_byte b = if between 97 b 122 then b - 32 else b

abbrev pub lower_byte : ℕ → ℕ
lower_byte b = if between 65 b 90 then b + 32 else b

unfoldable pub to_ascii_uppercase : Bytes → Bytes
to_ascii_uppercase bytes = map upper_byte bytes

unfoldable pub to_ascii_lowercase : Bytes → Bytes
to_ascii_lowercase bytes = map lower_byte bytes

unfoldable pub eq_ignore_ascii_case : Bytes → Bytes → Bool
unfolding to_ascii_lowercase
eq_ignore_ascii_case a b = to_ascii_lowercase a ==ᵇ to_ascii_lowercase b

-- U+FFFD.
abbrev pub replacement : Bytes
replacement = 0xef ∷ 0xbf ∷ 0xbd ∷ []

-- The first byte of a character, or an invalid one; `next` goes on behind it.
unfoldable pub lossy_lead : (Awaited → Bytes → Bytes) → ℕ → Bytes
unfolding leading
lossy_lead next b = elim (leading b) [
  | none ↦ replacement ++ next (0, 0, 0) []
  | some (n, lo, hi) ↦ if n == 0 then b ∷ next (0, 0, 0) [] else next (n, lo, hi) (b ∷ [])
]

-- A character that has begun, with its bytes so far, is replaced as a whole where it breaks off.
unfoldable pub lossy_from : Bytes → Awaited → Bytes → Bytes
unfolding lossy_lead
lossy_from [] (zero, lo, hi) begun = []
lossy_from [] (suc n, lo, hi) begun = replacement
lossy_from (b ∷ bs) (zero, lo, hi) begun = let next = lossy_from bs in lossy_lead next b
lossy_from (b ∷ bs) (suc n, lo, hi) begun =
    let next = lossy_from bs in
    if between lo b hi
    then (if n == 0 then begun ++ b ∷ next (0, 0, 0) [] else next (n, 0x80, 0xbf) (begun ++ b ∷ []))
    else replacement ++ lossy_lead next b

-- `String::from_utf8_lossy`
unfoldable pub from_utf8_lossy : Bytes → Bytes
unfolding lossy_from
from_utf8_lossy bytes = lossy_from bytes (0, 0, 0) []

-- The length of the `char::is_whitespace` character that UTF-8 text starts with, or 0.
unfoldable pub white_space : Bytes → ℕ
white_space [] = 0
white_space (b ∷ []) = if between 9 b 13 || (b == 32) then 1 else 0
white_space (b ∷ c ∷ []) =
    if between 9 b 13 || (b == 32)
    then 1
    else if (b == 0xc2) && ((c == 0x85) || (c == 0xa0))
    then 2
    else 0
white_space (b ∷ c ∷ d ∷ rest) =
    if between 9 b 13 || (b == 32)
    then 1
    else if (b == 0xc2) && ((c == 0x85) || (c == 0xa0))
    then 2
    else if ((b == 0xe1) && ((c == 0x9a) && (d == 0x80)))
        || (((b == 0xe2)
              && ((c == 0x80) && (between 0x80 d 0x8a || (between 0xa8 d 0xa9 || (d == 0xaf)))))
            || (((b == 0xe2) && ((c == 0x81) && (d == 0x9f)))
                || ((b == 0xe3) && ((c == 0x80) && (d == 0x80)))))
    then 3
    else 0

-- `s.chars().any(|c| c.is_whitespace())`
unfoldable pub has_white_space : Bytes → Bool
unfolding white_space
has_white_space [] = false
has_white_space (b ∷ bs) =
    let rest = has_white_space bs in if white_space (b ∷ bs) == 0 then rest else true

-- Only white space, behind bytes that are taken already.
unfoldable pub is_blank : ℕ → Bytes → Bool
unfolding white_space
is_blank taken [] = true
is_blank (suc taken) (b ∷ bs) = is_blank taken bs
is_blank zero (b ∷ bs) =
    let width = white_space (b ∷ bs) in
    let rest = is_blank (width - 1) bs in if width == 0 then false else rest

unfoldable pub trim_start_from : ℕ → Bytes → Bytes
unfolding white_space
trim_start_from taken [] = []
trim_start_from (suc taken) (b ∷ bs) = trim_start_from taken bs
trim_start_from zero (b ∷ bs) =
    let width = white_space (b ∷ bs) in
    let rest = trim_start_from (width - 1) bs in if width == 0 then b ∷ bs else rest

unfoldable pub trim_end : Bytes → Bytes
unfolding is_blank
trim_end [] = []
trim_end (b ∷ bs) = let rest = trim_end bs in if is_blank 0 (b ∷ bs) then [] else b ∷ rest

-- `str::trim`
unfoldable pub trim : Bytes → Bytes
unfolding trim_start_from trim_end
trim bytes = trim_end (trim_start_from 0 bytes)
