-- ===== src/Protocol/Inline.antt =====
-- crates/gamestore-protocol/src/decode.rs: the tokens of an inline command. A loop that moves its index
-- by more than one counts down the bytes that it has already taken.
use game_store.Prelude.{
  ℕ, zero, suc, ◌+◌, ◌-◌, ◌*◌, Bool, false, ◌&&◌, ◌||◌, not, Option, none, some, List, [], ◌∷◌,
  ◌==◌, leb, if◌then◌else◌, length, get_or,
}
use game_store.Bytes.{Bytes}
use game_store.Protocol.Text.{between}

unfoldable pub is_space : ℕ → Bool
is_space b = (b == 32) || ((b == 9) || ((b == 13) || ((b == 10) || ((b == 11) || (b == 12)))))

unfoldable pub is_hex : ℕ → Bool
is_hex b = between 48 b 57 || (between 97 b 102 || between 65 b 70)

unfoldable pub hex_val : ℕ → ℕ
hex_val b =
    if between 48 b 57
    then b - 48
    else if between 97 b 102
    then b - 97 + 10
    else if between 65 b 70
    then b - 65 + 10
    else 0

-- The byte of an escape sequence behind its backslash, and the number of bytes that it takes.
unfoldable pub unescape_double : Bytes → ℕ × ℕ
unfolding is_hex hex_val
unescape_double rest =
    let first = get_or rest 0 0 in
    if (first == 120)
      && (leb 3 (length rest) && (is_hex (get_or rest 1 0) && is_hex (get_or rest 2 0)))
    then (hex_val (get_or rest 1 0) * 16 + hex_val (get_or rest 2 0), 3)
    else if first == 110
    then (10, 1)
    else if first == 114
    then (13, 1)
    else if first == 116
    then (9, 1)
    else if first == 98
    then (8, 1)
    else if first == 97
    then (7, 1)
    else (first, 1)

-- A token and the rest of the line; `none` where the quotes are at fault.
abbrev pub Token : Type 0
Token = Option (Bytes × Bytes)

abbrev pub cons_token : ℕ → Token → Token
cons_token b none = none
cons_token b (some (token, rest)) = some (b ∷ token, rest)

-- A closing quote is followed by a space or by the end of the line.
unfoldable pub closed : Bytes → Token
unfolding is_space
closed [] = some ([], [])
closed (b ∷ rest) = if is_space b then some ([], b ∷ rest) else none

unfoldable pub is_escape : ℕ → Bytes → Bool
is_escape b rest = (b == 92) && not (length rest == 0)

unfoldable pub double_quoted : ℕ → Bytes → Token
unfolding closed is_escape unescape_double
double_quoted taken [] = none
double_quoted (suc taken) (b ∷ rest) = double_quoted taken rest
double_quoted zero (b ∷ rest) =
    let later = double_quoted (if is_escape b rest then (unescape_double rest).1 else 0) rest in
    if b == 34
    then closed rest
    else cons_token (if is_escape b rest then (unescape_double rest).0 else b) later

unfoldable pub is_quote_escape : ℕ → Bytes → Bool
is_quote_escape b [] = false
is_quote_escape b (next ∷ rest) = (b == 92) && (next == 39)

unfoldable pub single_quoted : ℕ → Bytes → Token
unfolding closed is_quote_escape
single_quoted taken [] = none
single_quoted (suc taken) (b ∷ rest) = single_quoted taken rest
single_quoted zero (b ∷ rest) =
    let later = single_quoted (if is_quote_escape b rest then 1 else 0) rest in
    if b == 39 then closed rest else cons_token (if is_quote_escape b rest then 39 else b) later

unfoldable pub bare_word : Bytes → Bytes × Bytes
unfolding is_space
bare_word [] = ([], [])
bare_word (b ∷ rest) =
    let (word, rest') = bare_word rest in if is_space b then ([], b ∷ rest) else (b ∷ word, rest')

-- The token that starts with a given byte, which is no space.
unfoldable pub token_at : ℕ → Bytes → Token
unfolding double_quoted single_quoted bare_word
token_at b rest =
    if b == 34
    then double_quoted 0 rest
    else if b == 39
    then single_quoted 0 rest
    else some (bare_word (b ∷ rest))

-- The bytes behind the first that a token takes.
unfoldable pub token_taken : Bytes → Token → ℕ
token_taken rest none = 0
token_taken rest (some (token, rest')) = length rest - length rest'

abbrev pub cons_argument : Token → Option (List Bytes) → Option (List Bytes)
cons_argument none args = none
cons_argument (some (token, rest)) none = none
cons_argument (some (token, rest)) (some args) = some (token ∷ args)

unfoldable pub split_from : ℕ → Bytes → Option (List Bytes)
unfolding is_space token_at token_taken
split_from taken [] = some []
split_from (suc taken) (b ∷ rest) = split_from taken rest
split_from zero (b ∷ rest) =
    let later = split_from (if is_space b then 0 else token_taken rest (token_at b rest)) rest in
    if is_space b then later else cons_argument (token_at b rest) later

unfoldable pub split_inline : Bytes → Option (List Bytes)
unfolding split_from
split_inline line = split_from 0 line
