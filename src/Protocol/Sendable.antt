-- ===== src/Protocol/Sendable.antt =====
-- crates/gamestore-protocol/src/decode.rs: the values for which the round trip is stated: texts
-- without a carriage return, lengths and counts within the limits, and no deeper nesting than
-- allowed.
use game_store.Prelude.{ℕ, zero, suc, ◌+◌, ◌^◌, ◌<◌, ◌≤◌, true, ◌≡◌, All, some, length}
use game_store.Prelude.Int.{IsI64}
use game_store.Bytes.{Bytes}
use game_store.Encoding.Score.{magnitude}
use game_store.Protocol.Frame.{
  Frame, Frames, Pairs, simple, error, integer, bulk, array, null, boolean, double, big_number,
  bulk_error, verbatim, map, set, push, end, item, end_pairs, pair, count_frames, count_pairs,
}
use game_store.Protocol.Text.{FloatText, is_utf8}
use game_store.Protocol.Text.Digits.{IsNumeral}
use game_store.Protocol.Parser.{Limits}
use game_store.Protocol.Parser.Lines.{IsPlain}
use game_store.Protocol.Decode.{infinity}

-- A text that fits a line.
abbrev pub IsLine : Bytes → Type 0
IsLine s = All IsPlain s × (is_utf8 s ≡ true)

-- A number that a header can hold, and that a limit allows.
abbrev pub IsWithin : ℕ → ℕ → Type 0
IsWithin limit n = (n ≤ limit) × (n < 2 ^ 63)

-- The bits of a double that is neither a NaN nor an infinity.
abbrev pub IsFinite : ℕ → Type 0
IsFinite d = (d < 2 ^ 64) × (magnitude d < infinity)

-- Rust prints a finite double with digits, a point and a sign, so that it parses back exactly.
pub record IsFloatText (floats : FloatText) : Type 0 where
  pub format-IsNumeral : (d : ℕ) → IsFinite d → All IsNumeral (floats.format d)
  pub parse-format : (d : ℕ) → IsFinite d → floats.parse (floats.format d) ≡ some d

abbrev mutual
  -- Accepted where `levels` levels of nesting are allowed below the value.
  pub IsSendable : Limits → ℕ → Frame → Type 0
  IsSendable limits levels (simple s) = IsLine s
  IsSendable limits levels (error s) = IsLine s
  IsSendable limits levels (integer n) = IsI64 n
  IsSendable limits levels (bulk b) = IsWithin limits.max_bulk_len (length b)
  IsSendable limits levels (array items) =
      IsWithin limits.max_array_len (count_frames items) × AreSendable limits levels items
  IsSendable limits levels null = Unit
  IsSendable limits levels (boolean b) = Unit
  IsSendable limits levels (double d) = IsFinite d
  IsSendable limits levels (big_number s) = IsLine s
  IsSendable limits levels (bulk_error s) =
      IsWithin limits.max_bulk_len (length s) × (is_utf8 s ≡ true)
  IsSendable limits levels (verbatim format payload) =
      IsWithin limits.max_bulk_len (3 + 1 + length payload)
  IsSendable limits levels (map pairs) =
      IsWithin limits.max_array_len (count_pairs pairs) × ArePairsSendable limits levels pairs
  IsSendable limits levels (set items) =
      IsWithin limits.max_array_len (count_frames items) × AreSendable limits levels items
  IsSendable limits levels (push items) =
      IsWithin limits.max_array_len (count_frames items) × AreSendable limits levels items

  pub AreSendable : Limits → ℕ → Frames → Type 0
  AreSendable limits levels end = Unit
  AreSendable limits zero (item f fs) = ⊥
  AreSendable limits (suc levels) (item f fs) =
      IsSendable limits levels f × AreSendable limits (suc levels) fs

  pub ArePairsSendable : Limits → ℕ → Pairs → Type 0
  ArePairsSendable limits levels end_pairs = Unit
  ArePairsSendable limits zero (pair k v ps) = ⊥
  ArePairsSendable limits (suc levels) (pair k v ps) =
      IsSendable limits levels k
      × IsSendable limits levels v
      × ArePairsSendable limits (suc levels) ps
