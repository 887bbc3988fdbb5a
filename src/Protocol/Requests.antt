-- ===== src/Protocol/Requests.antt =====
-- crates/gamestore-protocol/src/decode.rs: decode_command on the requests that clients send,
-- arrays of bulk strings.
use game_store.Prelude.{
  suc, List, [], ◌∷◌, ◌++◌, ◌≡◌, refl, ap, ◌∙◌, arith, All, length, append_assoc,
}
use game_store.Prelude.Int.{pos}
use game_store.Bytes.{Bytes}
use game_store.Protocol.Frame.{RespVersion, Frames, bulk, array, end, item, count_frames}
use game_store.Protocol.Text.{FloatText, format_i64}
use game_store.Protocol.Parser.{done, Limits, crlf}
use game_store.Protocol.Encode.{encode, encode_items}
use game_store.Protocol.Sendable.{IsWithin}
use game_store.Protocol.RoundTrip.{read_count-header, payload_framed}
use game_store.Protocol.Command.{
  expect_bulk, argument_of_length, parse_arguments, arguments_of_count, parse_multibulk,
  decode_command,
}

-- The arguments as bulk strings.
abbrev pub bulks : List Bytes → Frames
bulks [] = end
bulks (b ∷ args) = item (bulk b) (bulks args)

-- The arguments and their number are within the limits.
abbrev pub IsRequest : Limits → List Bytes → Type 0
IsRequest limits args =
    IsWithin limits.max_array_len (length args)
    × All (λ b. IsWithin limits.max_bulk_len (length b)) args

count_frames-bulks : (args : List Bytes) → count_frames (bulks args) ≡ length args
unfolding count_frames
count_frames-bulks [] = refl
count_frames-bulks (b ∷ args) = ap suc (count_frames-bulks args)

module _ (floats : FloatText) (version : RespVersion) (limits : Limits) where
  argument_of_length-append :
      (b rest : Bytes)
      → IsWithin limits.max_bulk_len (length b)
      → argument_of_length limits (pos (length b)) ((b ++ crlf) ++ rest) ≡ done b rest
  unfolding argument_of_length
  argument_of_length-append b rest h = ground (arith, payload_framed b rest)

  parse_arguments-bulks :
      (args : List Bytes) (rest : Bytes)
      → All (λ b. IsWithin limits.max_bulk_len (length b)) args
      → parse_arguments limits (length args) (encode_items floats version (bulks args) ++ rest)
        ≡ done args rest
  unfolding parse_arguments expect_bulk encode
  parse_arguments-bulks [] rest h = refl
  parse_arguments-bulks (b ∷ args) rest h =
      let behind = encode_items floats version (bulks args) ++ rest in
      ap (parse_arguments limits (suc (length args))) (
        append_assoc (encode floats version (bulk b)) (encode_items floats version (bulks args))
          rest)
      ∙ rw (
        read_count-header (length b) (b ++ crlf) behind h.0.1,
        argument_of_length-append b behind h.0,
        parse_arguments-bulks args rest h.1,
      )

  -- A request that is sent as an array of bulk strings within the limits decodes to its arguments,
  -- and the bytes behind it stay in the buffer.
  pub decode_command-encode :
      (args : List Bytes) (rest : Bytes)
      → IsRequest limits args
      → decode_command limits (encode floats version (array (bulks args)) ++ rest) ≡ done args rest
  unfolding decode_command parse_multibulk encode arguments_of_count
  decode_command-encode args rest h =
      let body = encode_items floats version (bulks args) in
      ap (λ n. decode_command limits ((42 ∷ ((format_i64 (pos n) ++ crlf) ++ body)) ++ rest))
        (count_frames-bulks args)
      ∙ rw (read_count-header (length args) body rest h.0.1) (finish args h)
    where
      finish :
          (xs : List Bytes)
          → IsRequest limits xs
          → arguments_of_count limits
              (pos (length xs))
              (encode_items floats version (bulks xs) ++ rest)
            ≡ done xs rest
      finish [] g = refl
      finish (b ∷ xs) g = ground (arith, parse_arguments-bulks (b ∷ xs) rest g.1)
