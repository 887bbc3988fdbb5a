-- ===== src/Protocol/RoundTrip.antt =====
-- crates/gamestore-protocol/src/decode.rs and encode.rs: the decoder on what the encoder writes.
use game_store.Prelude.{
  ℕ, zero, suc, ◌+◌, ◌^◌, ◌<◌, Bool, true, false, some, [], ◌∷◌, ◌++◌, ◌≡◌, refl, ap, ◌∙◌, arith,
  All, if◌then◌else◌, length, append_assoc,
}
use game_store.Prelude.Int.{ℤ, pos, IsI64}
use game_store.Bytes.{Bytes, ◌==ᵇ◌, text}
use game_store.Protocol.Frame.{
  RespVersion, v2, v3, Frame, Frames, Pairs, simple, error, integer, bulk, array, null, boolean,
  double, big_number, bulk_error, verbatim, map, set, push, end, item, end_pairs, pair,
  count_frames, count_pairs,
}
use game_store.Protocol.Text.{FloatText, is_utf8, format_i64, i64_from_text}
use game_store.Protocol.Text.Digits.{IsNumeral, is_utf8_of_numerals}
use game_store.Protocol.Parser.{
  done, Parser, Limits, read_line, read_count, read_payload, parse_i64, crlf, proceed,
}
use game_store.Protocol.Parser.Lines.{
  read_line-append, read_payload-append, read_count-format_i64, read_line-format_i64,
  parse_i64-format_i64, numerals_without_return,
}
use game_store.Protocol.Decode.{
  text_line, parse_integer, parse_null, parse_boolean, parse_double, double_from_text, parse_bulk,
  bulk_of_length, bulk_frame, parse_verbatim, verbatim_of_length, verbatim_frame, Aggregate,
  array_kind, set_kind, push_kind, aggregate_frame, parse_items, parse_pairs, aggregate_of_count,
  parse_aggregate, map_of_count, parse_map, parse_typed, parse_frame, decode,
}
use game_store.Protocol.Encode.{put_double, encode_null, encode, encode_items, encode_pairs}
use game_store.Protocol.Sendable.{
  IsLine, IsWithin, IsFinite, IsFloatText, IsSendable, AreSendable, ArePairsSendable,
}

text_line-append :
    (make : Bytes → Frame) (s rest : Bytes)
    → IsLine s
    → text_line make ((s ++ crlf) ++ rest) ≡ done (make s) rest
unfolding text_line
text_line-append make s rest h =
    ap (text_line make) (append_assoc s crlf rest) ∙ rw (read_line-append s rest h.0, h.1)

-- A header, and what is behind it.
pub read_count-header :
    (n : ℕ) (body rest : Bytes)
    → n < 2 ^ 63
    → read_count (((format_i64 (pos n) ++ crlf) ++ body) ++ rest) ≡ done (pos n) (body ++ rest)
read_count-header n body rest h =
    ap read_count (simp append_assoc) ∙ read_count-format_i64 (pos n) (body ++ rest) h

pub payload_framed : (b rest : Bytes) → read_payload (length b) ((b ++ crlf) ++ rest) ≡ done b rest
payload_framed b rest =
    ap (read_payload (length b)) (append_assoc b crlf rest) ∙ read_payload-append b rest

module _ (limits : Limits) where
  parse_bulk-append :
      (b rest : Bytes)
      → IsWithin limits.max_bulk_len (length b)
      → parse_bulk limits false (((format_i64 (pos (length b)) ++ crlf) ++ (b ++ crlf)) ++ rest)
        ≡ done (bulk b) rest
  unfolding parse_bulk bulk_of_length bulk_frame
  parse_bulk-append b rest h =
      rw (read_count-header (length b) (b ++ crlf) rest h.1) (ground (arith, payload_framed b rest))

  parse_bulk_error-append :
      (s rest : Bytes)
      → IsWithin limits.max_bulk_len (length s)
      → is_utf8 s ≡ true
      → parse_bulk limits true (((format_i64 (pos (length s)) ++ crlf) ++ (s ++ crlf)) ++ rest)
        ≡ done (bulk_error s) rest
  unfolding parse_bulk bulk_of_length bulk_frame
  parse_bulk_error-append s rest h u =
      rw (read_count-header (length s) (s ++ crlf) rest h.1) (ground (arith, payload_framed s rest))

  parse_verbatim-append :
      (a b c : ℕ) (d rest : Bytes)
      → IsWithin limits.max_bulk_len (3 + 1 + length d)
      → parse_verbatim limits (
          ((format_i64 (pos (3 + 1 + length d)) ++ crlf) ++ (a ∷ b ∷ c ∷ 58 ∷ (d ++ crlf))) ++ rest)
        ≡ done (verbatim (a, b, c) d) rest
  unfolding parse_verbatim verbatim_of_length verbatim_frame
  parse_verbatim-append a b c d rest h =
      rw (read_count-header (3 + 1 + length d) (a ∷ b ∷ c ∷ 58 ∷ (d ++ crlf)) rest h.1)
        (ground (arith, framed))
    where
      same_length : 3 + 1 + length d ≡ length (a ∷ b ∷ c ∷ 58 ∷ d)
      same_length = omega arith

      framed :
          read_payload (3 + 1 + length d) ((a ∷ b ∷ c ∷ 58 ∷ (d ++ crlf)) ++ rest)
          ≡ done (a ∷ b ∷ c ∷ 58 ∷ d) rest
      framed =
          ap (λ n. read_payload n ((a ∷ b ∷ c ∷ 58 ∷ (d ++ crlf)) ++ rest)) same_length
          ∙ payload_framed (a ∷ b ∷ c ∷ 58 ∷ d) rest

  -- An aggregate's elements, once the parser of an element is known to read them.
  parse_aggregate-append :
      (p : Parser Frame) (kind : Aggregate) (fs : Frames) (body rest : Bytes)
      → IsWithin limits.max_array_len (count_frames fs)
      → parse_items p (count_frames fs) (body ++ rest) ≡ done fs rest
      → parse_aggregate limits p kind
          (((format_i64 (pos (count_frames fs)) ++ crlf) ++ body) ++ rest)
        ≡ done (aggregate_frame kind fs) rest
  unfolding parse_aggregate aggregate_of_count
  parse_aggregate-append p kind fs body rest h e =
      rw (read_count-header (count_frames fs) body rest h.1) (ground arith)

  parse_map-append :
      (p : Parser Frame) (ps : Pairs) (body rest : Bytes)
      → IsWithin limits.max_array_len (count_pairs ps)
      → parse_pairs p (count_pairs ps) (body ++ rest) ≡ done ps rest
      → parse_map limits p (((format_i64 (pos (count_pairs ps)) ++ crlf) ++ body) ++ rest)
        ≡ done (map ps) rest
  unfolding parse_map map_of_count
  parse_map-append p ps body rest h e =
      rw (read_count-header (count_pairs ps) body rest h.1) (ground arith)

  parse_integer-append :
      (n : ℤ) (rest : Bytes)
      → IsI64 n
      → parse_integer ((format_i64 n ++ crlf) ++ rest) ≡ done (integer n) rest
  unfolding parse_integer
  parse_integer-append n rest h =
      ap parse_integer (append_assoc (format_i64 n) crlf rest)
      ∙ rw (read_line-format_i64 n rest, parse_i64-format_i64 n rest h)

  parse_null-append :
      (version : RespVersion) (floats : FloatText) (levels : ℕ) (rest : Bytes)
      → parse_frame floats limits (suc levels) (encode_null version ++ rest) ≡ done null rest
  unfolding encode_null text parse_frame parse_typed parse_null parse_bulk bulk_of_length read_count
      read_line parse_i64 is_utf8 i64_from_text
  parse_null-append v2 floats levels rest = refl
  parse_null-append v3 floats levels rest = refl

  parse_boolean-append :
      (b : Bool) (rest : Bytes)
      → parse_boolean (((if b then 116 else 102) ∷ crlf) ++ rest) ≡ done (boolean b) rest
  unfolding parse_boolean read_line text ◌==ᵇ◌
  parse_boolean-append true rest = refl
  parse_boolean-append false rest = refl

module _ (floats : FloatText) (laws : IsFloatText floats) where
  put_double-finite : (d : ℕ) → IsFinite d → put_double floats d ≡ floats.format d
  unfolding put_double
  put_double-finite d h = ground arith

  not_named :
      (s : Bytes) (c : ℕ) (name : Bytes) → All IsNumeral s → 57 < c → (s ==ᵇ (c ∷ name)) ≡ false
  unfolding ◌==ᵇ◌
  not_named [] c name h big = refl
  not_named (x ∷ s) c name h big = ground arith

  not_signed :
      (s : Bytes) (b c : ℕ) (name : Bytes)
      → All IsNumeral s
      → 57 < c
      → (s ==ᵇ (b ∷ c ∷ name)) ≡ false
  unfolding ◌==ᵇ◌
  not_signed [] b c name h big = refl
  not_signed (x ∷ s) b c name h big = ground (arith, not_named s c name h.1 big)

  double_from_text-format :
      (d : ℕ) → IsFinite d → double_from_text floats (floats.format d) ≡ some d
  unfolding double_from_text text
  double_from_text-format d h =
      let s = floats.format d in
      let n = laws.format-IsNumeral d h in
      ground (
        arith,
        not_named s 105 (110 ∷ 102 ∷ []) n (omega arith),
        not_signed s 43 105 (110 ∷ 102 ∷ []) n (omega arith),
        not_signed s 45 105 (110 ∷ 102 ∷ []) n (omega arith),
        not_named s 110 (97 ∷ 110 ∷ []) n (omega arith),
        not_signed s 45 110 (97 ∷ 110 ∷ []) n (omega arith),
        laws.parse-format d h,
      )

  parse_double-append :
      (d : ℕ) (rest : Bytes)
      → IsFinite d
      → parse_double floats ((put_double floats d ++ crlf) ++ rest) ≡ done (double d) rest
  unfolding parse_double
  parse_double-append d rest h =
      let s = floats.format d in
      let n = laws.format-IsNumeral d h in
      ap (λ t. parse_double floats ((t ++ crlf) ++ rest)) (put_double-finite d h)
      ∙ ap (parse_double floats) (append_assoc s crlf rest)
      ∙ rw (read_line-append s rest (numerals_without_return s n), is_utf8_of_numerals s n)
          (rw (double_from_text-format d h, proceed) refl)

  module _ (limits : Limits) (version : RespVersion) where
    mutual
      unfolding encode parse_frame parse_typed parse_items parse_pairs count_frames count_pairs
          aggregate_frame

      pub parse_frame-encode :
          (levels : ℕ) (f : Frame) (rest : Bytes)
          → IsSendable limits levels f
          → parse_frame floats limits (suc levels) (encode floats version f ++ rest) ≡ done f rest
      parse_frame-encode levels (simple s) rest h = text_line-append simple s rest h
      parse_frame-encode levels (error s) rest h = text_line-append error s rest h
      parse_frame-encode levels (integer n) rest h = parse_integer-append limits n rest h
      parse_frame-encode levels (bulk b) rest h = parse_bulk-append limits b rest h
      parse_frame-encode levels (array items) rest h =
          parse_aggregate-append limits (parse_frame floats limits levels) array_kind items
            (encode_items floats version items) rest h.0
            (parse_items-encode_items levels items rest h.1)
      parse_frame-encode levels null rest h = parse_null-append limits version floats levels rest
      parse_frame-encode levels (boolean b) rest h = parse_boolean-append limits b rest
      parse_frame-encode levels (double d) rest h = parse_double-append d rest h
      parse_frame-encode levels (big_number s) rest h = text_line-append big_number s rest h
      parse_frame-encode levels (bulk_error s) rest h =
          parse_bulk_error-append limits s rest h.0 h.1
      parse_frame-encode levels (verbatim (a, b, c) d) rest h =
          parse_verbatim-append limits a b c d rest h
      parse_frame-encode levels (map pairs) rest h =
          parse_map-append limits (parse_frame floats limits levels) pairs
            (encode_pairs floats version pairs) rest h.0
            (parse_pairs-encode_pairs levels pairs rest h.1)
      parse_frame-encode levels (set items) rest h =
          parse_aggregate-append limits (parse_frame floats limits levels) set_kind items
            (encode_items floats version items) rest h.0
            (parse_items-encode_items levels items rest h.1)
      parse_frame-encode levels (push items) rest h =
          parse_aggregate-append limits (parse_frame floats limits levels) push_kind items
            (encode_items floats version items) rest h.0
            (parse_items-encode_items levels items rest h.1)

      parse_items-encode_items :
          (levels : ℕ) (fs : Frames) (rest : Bytes)
          → AreSendable limits levels fs
          → parse_items
              (parse_frame floats limits levels)
              (count_frames fs)
              (encode_items floats version fs ++ rest)
            ≡ done fs rest
      parse_items-encode_items levels end rest h = refl
      parse_items-encode_items zero (item f fs) rest h = absurd h
      parse_items-encode_items (suc levels) (item f fs) rest h =
          ap (parse_items (parse_frame floats limits (suc levels)) (suc (count_frames fs)))
            (append_assoc (encode floats version f) (encode_items floats version fs) rest)
          ∙ rw (
            parse_frame-encode levels f (encode_items floats version fs ++ rest) h.0,
            parse_items-encode_items (suc levels) fs rest h.1,
          )

      parse_pairs-encode_pairs :
          (levels : ℕ) (ps : Pairs) (rest : Bytes)
          → ArePairsSendable limits levels ps
          → parse_pairs
              (parse_frame floats limits levels)
              (count_pairs ps)
              (encode_pairs floats version ps ++ rest)
            ≡ done ps rest
      parse_pairs-encode_pairs levels end_pairs rest h = refl
      parse_pairs-encode_pairs zero (pair k v ps) rest h = absurd h
      parse_pairs-encode_pairs (suc levels) (pair k v ps) rest h =
          let behind = encode_pairs floats version ps ++ rest in
          ap (parse_pairs (parse_frame floats limits (suc levels)) (suc (count_pairs ps))) (
            append_assoc (encode floats version k)
              (encode floats version v ++ encode_pairs floats version ps) rest
            ∙ ap (λ t. encode floats version k ++ t)
                (append_assoc (encode floats version v) (encode_pairs floats version ps) rest))
          ∙ rw (
            parse_frame-encode levels k (encode floats version v ++ behind) h.0,
            parse_frame-encode levels v behind h.1,
            parse_pairs-encode_pairs (suc levels) ps rest h.2,
          )

    -- A value whose texts have no carriage return and are UTF-8, whose doubles are finite, and
    -- whose lengths, counts and nesting are within the limits, decodes from its encoding in either
    -- protocol version, and the bytes behind it stay in the buffer. The text of doubles is assumed
    -- to parse back.
    pub decode-encode_back :
        (f : Frame) (rest : Bytes)
        → IsSendable limits limits.max_depth f
        → decode floats limits (encode floats version f ++ rest) ≡ done f rest
    unfolding decode
    decode-encode_back f rest h =
        ap (λ n. parse_frame floats limits n (encode floats version f ++ rest)) deeper
        ∙ parse_frame-encode limits.max_depth f rest h
      where
        deeper : limits.max_depth + 1 ≡ suc limits.max_depth
        deeper = omega arith
