-- ===== src/Protocol/Encode.antt =====
-- crates/gamestore-protocol/src/encode.rs: the encoder, as the bytes that it appends.
use game_store.Prelude.{ℕ, ◌+◌, [], ◌∷◌, ◌++◌, ◌==◌, if◌then◌else◌, length}
use game_store.Prelude.Int.{pos}
use game_store.Bytes.{Bytes, text}
use game_store.Encoding.Score.{is_nan, magnitude, sign_bit}
use game_store.Protocol.Frame.{
  RespVersion, v2, v3, Frame, Frames, Pairs, simple, error, integer, bulk, array, null, boolean,
  double, big_number, bulk_error, verbatim, map, set, push, end, item, end_pairs, pair,
  count_frames, count_pairs,
}
use game_store.Protocol.Text.{FloatText, format_i64}
use game_store.Protocol.Parser.{crlf}
use game_store.Protocol.Decode.{infinity}

-- A header: the type byte, a number and CRLF.
abbrev pub header : ℕ → ℕ → Bytes
header t n = t ∷ (format_i64 (pos n) ++ crlf)

unfoldable pub put_double : FloatText → ℕ → Bytes
put_double floats d =
    if is_nan d
    then text "nan"
    else if magnitude d == infinity
    then if sign_bit d then text "-inf" else text "inf"
    else floats.format d

unfoldable pub encode_null : RespVersion → Bytes
encode_null v2 = text "$-1" ++ crlf
encode_null v3 = text "_" ++ crlf

unfoldable mutual
  unfolding put_double encode_null count_frames count_pairs

  pub encode : FloatText → RespVersion → Frame → Bytes
  encode floats version (simple s) = 43 ∷ (s ++ crlf)
  encode floats version (error s) = 45 ∷ (s ++ crlf)
  encode floats version (integer n) = 58 ∷ (format_i64 n ++ crlf)
  encode floats version (bulk b) = header 36 (length b) ++ (b ++ crlf)
  encode floats version null = encode_null version
  encode floats version (array items) =
      header 42 (count_frames items) ++ encode_items floats version items
  encode floats version (boolean b) = 35 ∷ (if b then 116 else 102) ∷ crlf
  encode floats version (double d) = 44 ∷ (put_double floats d ++ crlf)
  encode floats version (big_number s) = 40 ∷ (s ++ crlf)
  encode floats version (bulk_error s) = header 33 (length s) ++ (s ++ crlf)
  encode floats version (verbatim (a, b, c) data_bytes) =
      header 61 (3 + 1 + length data_bytes) ++ (a ∷ b ∷ c ∷ 58 ∷ (data_bytes ++ crlf))
  encode floats version (map pairs) =
      header 37 (count_pairs pairs) ++ encode_pairs floats version pairs
  encode floats version (set items) =
      header 126 (count_frames items) ++ encode_items floats version items
  encode floats version (push items) =
      header 62 (count_frames items) ++ encode_items floats version items

  pub encode_items : FloatText → RespVersion → Frames → Bytes
  encode_items floats version end = []
  encode_items floats version (item f fs) =
      encode floats version f ++ encode_items floats version fs

  pub encode_pairs : FloatText → RespVersion → Pairs → Bytes
  encode_pairs floats version end_pairs = []
  encode_pairs floats version (pair k v ps) =
      encode floats version k ++ (encode floats version v ++ encode_pairs floats version ps)
