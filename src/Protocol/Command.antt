-- ===== src/Protocol/Command.antt =====
-- crates/gamestore-protocol/src/decode.rs: the decoder of requests, multibulk or inline.
use game_store.Prelude.{ℕ, zero, suc, none, some, List, [], ◌∷◌, ◌==◌, ltb, if◌then◌else◌, length}
use game_store.Prelude.Int.{ℤ, pos, negsuc}
use game_store.Bytes.{Bytes}
use game_store.Protocol.Error.{malformed, limit_exceeded, inline_syntax}
use game_store.Protocol.Parser.{
  Parsed, done, incomplete, failed, Parser, pure, fail, ◌>>=◌, Limits, read_line, read_count,
  read_payload,
}
use game_store.Protocol.Inline.{split_inline}

-- The `$` of a bulk argument.
unfoldable pub expect_bulk : Parser (Unit {0})
expect_bulk [] = incomplete
expect_bulk (b ∷ rest) = if b == 36 then done tt rest else failed malformed

unfoldable pub argument_of_length : Limits → ℤ → Parser Bytes
unfolding read_payload
argument_of_length limits (negsuc n) = fail malformed
argument_of_length limits (pos len) =
    if ltb limits.max_bulk_len len then fail limit_exceeded else read_payload len

unfoldable pub parse_arguments : Limits → ℕ → Parser (List Bytes)
unfolding expect_bulk read_count argument_of_length
parse_arguments limits zero = pure []
parse_arguments limits (suc count) = do
  dollar ← expect_bulk
  len ← read_count
  arg ← argument_of_length limits len
  args ← parse_arguments limits count
  pure (arg ∷ args)

unfoldable pub arguments_of_count : Limits → ℤ → Parser (List Bytes)
unfolding parse_arguments
arguments_of_count limits (negsuc n) = pure []
arguments_of_count limits (pos count) =
    if count == 0
    then pure []
    else if ltb limits.max_array_len count
    then fail limit_exceeded
    else parse_arguments limits count

-- The request behind its `*`.
unfoldable pub parse_multibulk : Limits → Parser (List Bytes)
unfolding read_count arguments_of_count
parse_multibulk limits = do count ← read_count; arguments_of_count limits count

-- An inline command, of what the search for its end found.
unfoldable pub inline_command : Limits → Bytes → Parsed Bytes → Parsed (List Bytes)
unfolding split_inline
inline_command limits buf (done line rest) =
    if ltb limits.max_inline_len (length line)
    then failed limit_exceeded
    else elim (split_inline line) [ none ↦ failed inline_syntax | some args ↦ done args rest ]
inline_command limits buf incomplete =
    if ltb limits.max_inline_len (length buf) then failed limit_exceeded else incomplete
inline_command limits buf (failed e) = failed e

unfoldable pub decode_command : Limits → Bytes → Parsed (List Bytes)
unfolding parse_multibulk inline_command read_line
decode_command limits [] = incomplete
decode_command limits (b ∷ buf) =
    if b == 42
    then parse_multibulk limits buf
    else inline_command limits (b ∷ buf) (read_line (b ∷ buf))
