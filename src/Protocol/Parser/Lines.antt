-- ===== src/Protocol/Parser/Lines.antt =====
-- crates/gamestore-protocol/src/decode.rs: read_line, parse_i64 and payloads on what was written.
use game_store.Prelude.{
  ℕ, ◌+◌, ◌≢◌, [], ◌∷◌, ◌++◌, ◌≡◌, refl, sym, ap, ◌∙◌, arith, All, length, drop, length-append,
  take-append, drop-append, append_assoc,
}
use game_store.Prelude.Int.{ℤ, IsI64}
use game_store.Protocol.Text.{format_i64}
use game_store.Protocol.Text.Digits.{
  IsNumeral, format_i64-IsNumeral, is_utf8_of_numerals, i64_from_text-format_i64,
}
use game_store.Bytes.{Bytes, ◌==ᵇ◌}
use game_store.Protocol.Parser.{done, read_line, read_payload, read_count, parse_i64, crlf}

abbrev pub IsPlain : ℕ → Type 0
IsPlain b = b ≢ 13

pub read_line-append :
    (line rest : Bytes) → All IsPlain line → read_line (line ++ (crlf ++ rest)) ≡ done line rest
unfolding read_line
read_line-append [] rest h = refl
read_line-append (x ∷ []) rest h = ground (arith, read_line-append [] rest tt)
read_line-append (x ∷ y ∷ line) rest h = ground (arith, read_line-append (y ∷ line) rest h.1)

pub read_payload-append :
    (b rest : Bytes) → read_payload (length b) (b ++ (crlf ++ rest)) ≡ done b rest
unfolding read_payload ◌==ᵇ◌
read_payload-append b rest = ground (
  arith,
  behind,
  length-append b (crlf ++ rest),
  take-append b (crlf ++ rest) (length b) refl,
  drop-append b (crlf ++ rest) (length b) refl,
)
  where
    behind : drop (length b + 2) (b ++ (crlf ++ rest)) ≡ rest
    behind =
        ap (drop (length b + 2)) (sym (append_assoc b crlf rest))
        ∙ drop-append (b ++ crlf) rest (length b + 2) (sym (length-append b crlf))

pub numerals_without_return : (xs : Bytes) → All IsNumeral xs → All IsPlain xs
numerals_without_return [] h = tt
numerals_without_return (x ∷ xs) h = ((λ e. ground arith), numerals_without_return xs h.1)

pub parse_i64-format_i64 :
    (z : ℤ) (rest : Bytes) → IsI64 z → parse_i64 (format_i64 z) rest ≡ done z rest
unfolding parse_i64
parse_i64-format_i64 z rest h = ground (
  arith,
  i64_from_text-format_i64 z h,
  is_utf8_of_numerals (format_i64 z) (format_i64-IsNumeral z),
)

pub read_line-format_i64 :
    (z : ℤ) (rest : Bytes) → read_line (format_i64 z ++ (crlf ++ rest)) ≡ done (format_i64 z) rest
read_line-format_i64 z rest =
    read_line-append (format_i64 z) rest
      (numerals_without_return (format_i64 z) (format_i64-IsNumeral z))

-- A printed count is read back.
pub read_count-format_i64 :
    (z : ℤ) (rest : Bytes) → IsI64 z → read_count (format_i64 z ++ (crlf ++ rest)) ≡ done z rest
unfolding read_count
read_count-format_i64 z rest h = rw (read_line-format_i64 z rest) (parse_i64-format_i64 z rest h)
