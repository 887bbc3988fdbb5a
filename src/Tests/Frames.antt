-- ===== src/Tests/Frames.antt =====
-- Tests of the protocol.
use game_store.Prelude.{◌++◌, true, some, List, [], ◌∷◌, ◌≡◌, refl, arith}
use game_store.Prelude.Int.{negsuc}
use game_store.Bytes.{Bytes, text}
use game_store.Protocol.Frame.{
  v2, v3, Frame, simple, integer, bulk, array, null, boolean, double, map, end, item, end_pairs,
  pair, count_frames, count_pairs,
}
use game_store.Protocol.Text.{FloatText, digits, decimal, is_utf8}
use game_store.Protocol.Text.Digits.{numerals, decimal-IsDigit, digits-decimal}
use game_store.Protocol.Parser.{done, default_limits}
use game_store.Protocol.Decode.{decode}
use game_store.Protocol.Encode.{encode}
use game_store.Protocol.Sendable.{IsFloatText, IsSendable, IsFinite, IsLine}
use game_store.Protocol.RoundTrip.{decode-encode_back}
use game_store.Protocol.Command.{decode_command}
use game_store.Protocol.Inline.{split_inline}
use game_store.Protocol.Requests.{bulks, IsRequest, decode_command-encode}

-- Doubles printed as their bits.
abbrev pub bit_text : FloatText
bit_text = record { parse = digits; format = decimal 20 }

bit_text-IsFloatText : IsFloatText bit_text
bit_text-IsFloatText = record {
  format-IsNumeral = λ d h. numerals (decimal 20 d) (decimal-IsDigit 20 d);
  parse-format = λ d h. digits-decimal 19 d (omega arith);
}

abbrev reply : Frame
reply = array (
    item (bulk (text "a")) (
      item (integer (negsuc 4)) (
        item (map (pair (simple (text "k")) (double 4611686018427387904) end_pairs))
          (item null (item (boolean true) end)))))

reply-IsSendable : IsSendable default_limits 128 reply
unfolding count_frames count_pairs text is_utf8
reply-IsSendable = (
  (omega arith, omega arith),
  (
    (omega arith, omega arith),
    (omega arith, (((omega arith, omega arith), (line, finite, tt)), (tt, (tt, tt)))),
  ),
)
  where
    line : IsLine (107 ∷ [])
    line = ((λ e. ground arith, tt), refl)

    finite : IsFinite 4611686018427387904
    finite = (omega arith, omega arith)

decode-encode_back_example :
    decode bit_text default_limits (encode bit_text v3 reply ++ 43 ∷ []) ≡ done reply (43 ∷ [])
decode-encode_back_example =
    decode-encode_back bit_text bit_text-IsFloatText default_limits v3 reply (43 ∷ [])
      reply-IsSendable

abbrev pub arguments : List Bytes
arguments = text "GET" ∷ text "u:1" ∷ []

arguments-IsRequest : IsRequest default_limits arguments
unfolding text
arguments-IsRequest =
    ((omega arith, omega arith), ((omega arith, omega arith), ((omega arith, omega arith), tt)))

decode_command-encode_example :
    decode_command default_limits (encode bit_text v2 (array (bulks arguments)) ++ 42 ∷ [])
    ≡ done arguments (42 ∷ [])
decode_command-encode_example =
    decode_command-encode bit_text v2 default_limits arguments (42 ∷ []) arguments-IsRequest

-- SET k "a b\tc\x41"
quoted :
    split_inline (text "SET k \"a b\\tc\\x41\"")
    ≡ some (text "SET" ∷ text "k" ∷ (97 ∷ 32 ∷ 98 ∷ 9 ∷ 99 ∷ 65 ∷ []) ∷ [])
unfolding split_inline text
quoted = refl
