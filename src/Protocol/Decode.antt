-- ===== src/Protocol/Decode.antt =====
-- crates/gamestore-protocol/src/decode.rs: the decoder of RESP values. The nesting levels that are
-- left count down to the depth limit.
use game_store.Prelude.{
  ℕ, zero, suc, ◌+◌, Bool, true, false, ◌&&◌, ◌||◌, not, Option, none, some, [], ◌∷◌, ◌==◌, ltb,
  if◌then◌else◌, length, drop, get_or,
}
use game_store.Prelude.Int.{ℤ, pos, negsuc}
use game_store.Bytes.{Bytes, ◌==ᵇ◌, text}
use game_store.Protocol.Error.{malformed, limit_exceeded}
use game_store.Protocol.Frame
use game_store.Protocol.Frame.{Frame, Frames, Pairs}
use game_store.Protocol.Text.{FloatText}
use game_store.Protocol.Parser.{
  Parsed, incomplete, failed, Parser, pure, fail, ◌>>=◌, Limits, read_line, checked_text, parse_i64,
  read_count, read_payload,
}

abbrev pub infinity : ℕ
infinity = 0x7ff0_0000_0000_0000

abbrev pub neg_infinity : ℕ
neg_infinity = 0xfff0_0000_0000_0000

abbrev pub nan : ℕ
nan = 0x7ff8_0000_0000_0000

unfoldable pub text_line : (Bytes → Frame) → Parser Frame
unfolding read_line
text_line make = do line ← read_line; s ← checked_text line; pure (make s)

unfoldable pub parse_integer : Parser Frame
unfolding read_line parse_i64
parse_integer = do line ← read_line; n ← parse_i64 line; pure (Frame.integer n)

unfoldable pub parse_null : Parser Frame
unfolding read_line
parse_null = do line ← read_line; if length line == 0 then pure Frame.null else fail malformed

unfoldable pub parse_boolean : Parser Frame
unfolding read_line
parse_boolean = do
  line ← read_line
  if line ==ᵇ text "t"
      then pure (Frame.boolean true)
      else if line ==ᵇ text "f"
      then pure (Frame.boolean false)
      else fail malformed

unfoldable pub double_from_text : FloatText → Bytes → Option ℕ
double_from_text floats s =
    if (s ==ᵇ text "inf") || (s ==ᵇ text "+inf")
    then some infinity
    else if s ==ᵇ text "-inf"
    then some neg_infinity
    else if (s ==ᵇ text "nan") || (s ==ᵇ text "-nan")
    then some nan
    else floats.parse s

unfoldable pub parse_double : FloatText → Parser Frame
unfolding read_line double_from_text
parse_double floats = do
  line ← read_line
  s ← checked_text line
  elim (double_from_text floats s) [ none ↦ fail malformed | some d ↦ pure (Frame.double d) ]

-- A bulk string's or bulk error's frame, of its payload.
unfoldable pub bulk_frame : Bool → Bytes → Parser Frame
bulk_frame false payload = pure (Frame.bulk payload)
bulk_frame true payload = do s ← checked_text payload; pure (Frame.bulk_error s)

unfoldable pub bulk_of_length : Limits → Bool → ℤ → Parser Frame
unfolding read_payload bulk_frame
bulk_of_length limits is_error (negsuc n) =
    if (n == 0) && not is_error then pure Frame.null else fail malformed
bulk_of_length limits is_error (pos len) =
    if ltb limits.max_bulk_len len
    then fail limit_exceeded
    else do payload ← read_payload len; bulk_frame is_error payload

unfoldable pub parse_bulk : Limits → Bool → Parser Frame
unfolding read_count bulk_of_length
parse_bulk limits is_error = do len ← read_count; bulk_of_length limits is_error len

unfoldable pub verbatim_frame : Bytes → Parser Frame
verbatim_frame body =
    if get_or body 3 0 == 58
    then pure (Frame.verbatim (get_or body 0 0, get_or body 1 0, get_or body 2 0) (drop 4 body))
    else fail malformed

unfoldable pub verbatim_of_length : Limits → ℤ → Parser Frame
unfolding read_payload verbatim_frame
verbatim_of_length limits (negsuc n) = fail malformed
verbatim_of_length limits (pos len) =
    if ltb len 4
    then fail malformed
    else if ltb limits.max_bulk_len len
    then fail limit_exceeded
    else do body ← read_payload len; verbatim_frame body

unfoldable pub parse_verbatim : Limits → Parser Frame
unfolding read_count verbatim_of_length
parse_verbatim limits = do len ← read_count; verbatim_of_length limits len

pub data Aggregate : Type 0 where
  array_kind set_kind push_kind : Aggregate

unfoldable pub aggregate_frame : Aggregate → Frames → Frame
aggregate_frame array_kind items = Frame.array items
aggregate_frame set_kind items = Frame.set items
aggregate_frame push_kind items = Frame.push items

-- `count` elements, each parsed with the given parser.
unfoldable pub parse_items : Parser Frame → ℕ → Parser Frames
parse_items p zero = pure Frame.end
parse_items p (suc count) = do f ← p; fs ← parse_items p count; pure (Frame.item f fs)

unfoldable pub parse_pairs : Parser Frame → ℕ → Parser Pairs
parse_pairs p zero = pure Frame.end_pairs
parse_pairs p (suc count) = do k ← p; v ← p; ps ← parse_pairs p count; pure (Frame.pair k v ps)

-- A negative count: the null array, or an error.
unfoldable pub negative_count : Aggregate → ℕ → Parser Frame
negative_count array_kind n = if n == 0 then pure Frame.null else fail malformed
negative_count set_kind n = fail malformed
negative_count push_kind n = fail malformed

unfoldable pub aggregate_of_count : Limits → Parser Frame → Aggregate → ℤ → Parser Frame
unfolding negative_count parse_items aggregate_frame
aggregate_of_count limits p kind (negsuc n) = negative_count kind n
aggregate_of_count limits p kind (pos count) =
    if ltb limits.max_array_len count
    then fail limit_exceeded
    else do items ← parse_items p count; pure (aggregate_frame kind items)

unfoldable pub parse_aggregate : Limits → Parser Frame → Aggregate → Parser Frame
unfolding read_count aggregate_of_count
parse_aggregate limits p kind = do count ← read_count; aggregate_of_count limits p kind count

unfoldable pub map_of_count : Limits → Parser Frame → ℤ → Parser Frame
unfolding parse_pairs
map_of_count limits p (negsuc n) = fail malformed
map_of_count limits p (pos count) =
    if ltb limits.max_array_len count
    then fail limit_exceeded
    else do ps ← parse_pairs p count; pure (Frame.map ps)

unfoldable pub parse_map : Limits → Parser Frame → Parser Frame
unfolding read_count map_of_count
parse_map limits p = do count ← read_count; map_of_count limits p count

-- The dispatch on the type byte; `p` parses the elements, one level deeper.
unfoldable pub parse_typed : FloatText → Limits → Parser Frame → ℕ → Parser Frame
unfolding text_line parse_integer parse_null parse_boolean parse_double parse_bulk parse_verbatim
    parse_aggregate parse_map
parse_typed floats limits p t =
    if t == 43
    then text_line Frame.simple
    else if t == 45
    then text_line Frame.error
    else if t == 40
    then text_line Frame.big_number
    else if t == 58
    then parse_integer
    else if t == 95
    then parse_null
    else if t == 35
    then parse_boolean
    else if t == 44
    then parse_double floats
    else if t == 36
    then parse_bulk limits false
    else if t == 33
    then parse_bulk limits true
    else if t == 61
    then parse_verbatim limits
    else if t == 42
    then parse_aggregate limits p array_kind
    else if t == 126
    then parse_aggregate limits p set_kind
    else if t == 62
    then parse_aggregate limits p push_kind
    else if t == 37
    then parse_map limits p
    else fail malformed

-- With `levels` nesting levels left; at none the value is nested too deeply.
unfoldable pub parse_frame : FloatText → Limits → ℕ → Parser Frame
unfolding parse_typed
parse_frame floats limits zero input = failed malformed
parse_frame floats limits (suc levels) [] = incomplete
parse_frame floats limits (suc levels) (t ∷ body) =
    parse_typed floats limits (parse_frame floats limits levels) t body

-- One value from the front of the buffer: what was found, and the buffer after it.
unfoldable pub decode : FloatText → Limits → Bytes → Parsed Frame
unfolding parse_frame
decode floats limits buf = parse_frame floats limits (limits.max_depth + 1) buf
