-- ===== src/Protocol/Parser.antt =====
-- crates/gamestore-protocol/src/decode.rs: the outcome of a parse step, lines and headers. A position
-- in the buffer is the rest of the buffer from there.
pub mod Lines
use game_store.Prelude.{
  ℕ, ◌+◌, Bool, true, false, ◌&&◌, not, Option, none, some, List, [], ◌∷◌, ◌==◌, ltb, if◌then◌else◌,
  length, take, drop,
}
use game_store.Prelude.Int.{ℤ}
use game_store.Bytes.{Bytes, ◌==ᵇ◌}
use game_store.Protocol.Error.{ProtocolError, malformed, limit_exceeded}
use game_store.Protocol.Text.{is_utf8, i64_from_text}

-- `Result<Option<(T, usize)>, ProtocolError>`, with the rest of the buffer behind what was parsed.
pub data Parsed {ℓ} (A : Type ℓ) : Type ℓ where
  done : A → Bytes → Parsed A
  incomplete : Parsed A
  failed : ProtocolError → Parsed A

abbrev pub Parser {ℓ} : Type ℓ → Type ℓ
Parser A = Bytes → Parsed A

module _ {ℓ} {A : Type ℓ} where
  abbrev pub pure : A → Parser A
  pure a input = done a input

  abbrev pub fail : ProtocolError → Parser A
  fail e input = failed e

module _ {ℓ κ} {A : Type ℓ} {B : Type κ} where
  abbrev pub proceed : Parsed A → (A → Parser B) → Parsed B
  proceed (done a rest) f = f a rest
  proceed incomplete f = incomplete
  proceed (failed e) f = failed e

  infixl 5 ◌>>=◌
  abbrev pub ◌>>=◌ : Parser A → (A → Parser B) → Parser B
  (m >>= f) input = proceed (m input) f

pub record Limits : Type 0 where
  pub max_bulk_len : ℕ
  pub max_array_len : ℕ
  pub max_inline_len : ℕ
  pub max_depth : ℕ

abbrev pub default_limits : Limits
default_limits = record {
  max_bulk_len = 536870912;
  max_array_len = 1048576;
  max_inline_len = 65536;
  max_depth = 128;
}

abbrev pub crlf : Bytes
crlf = 13 ∷ 10 ∷ []

abbrev pub prepend : ℕ → Parsed Bytes → Parsed Bytes
prepend b (done line rest) = done (b ∷ line) rest
prepend b incomplete = incomplete
prepend b (failed e) = failed e

unfoldable pub read_line : Parser Bytes
read_line [] = incomplete
read_line (x ∷ []) = incomplete
read_line (x ∷ y ∷ input) =
    let later = prepend x (read_line (y ∷ input)) in
    if (x == 13) && (y == 10) then done [] input else later

-- `str_from`
abbrev pub checked_text : Bytes → Parser Bytes
checked_text bytes = if is_utf8 bytes then pure bytes else fail malformed

unfoldable pub parse_i64 : Bytes → Parser ℤ
parse_i64 bytes =
    if is_utf8 bytes
    then elim (i64_from_text bytes) [ none ↦ fail malformed | some n ↦ pure n ]
    else fail malformed

-- The length or count in a header line.
unfoldable pub read_count : Parser ℤ
unfolding read_line parse_i64
read_count = do line ← read_line; parse_i64 line

-- The payload of a given length with the CRLF behind it.
unfoldable pub read_payload : ℕ → Parser Bytes
read_payload len input =
    if ltb (length input) (len + 2)
    then incomplete
    else if take 2 (drop len input) ==ᵇ crlf
    then done (take len input) (drop (len + 2) input)
    else failed malformed
