-- ===== src/Protocol/Frame.antt =====
-- crates/gamestore-protocol/src/frame.rs: the RESP values and the protocol versions. A Rust `String`
-- is its bytes, a double its 64 bits.
use game_store.Prelude.{ℕ, suc, Bool, Option, none, some, ◌==◌, if◌then◌else◌}
use game_store.Prelude.Int.{ℤ, pos, negsuc}
use game_store.Bytes.{Bytes, text}

pub data RespVersion : Type 0 where
  v2 v3 : RespVersion

unfoldable pub as_i64 : RespVersion → ℤ
as_i64 v2 = pos 2
as_i64 v3 = pos 3

unfoldable pub from_i64 : ℤ → Option RespVersion
from_i64 (pos n) = if n == 2 then some v2 else if n == 3 then some v3 else none
from_i64 (negsuc n) = none

mutual
  pub data Frame : Type 0 where
    simple : Bytes → Frame
    error : Bytes → Frame
    integer : ℤ → Frame
    bulk : Bytes → Frame
    array : Frames → Frame
    null : Frame
    boolean : Bool → Frame
    double : ℕ → Frame
    big_number : Bytes → Frame
    bulk_error : Bytes → Frame
    -- the three bytes of the format, and the data
    verbatim : ℕ × ℕ × ℕ → Bytes → Frame
    map : Pairs → Frame
    set : Frames → Frame
    push : Frames → Frame

  pub data Frames : Type 0 where
    end : Frames
    item : Frame → Frames → Frames

  pub data Pairs : Type 0 where
    end_pairs : Pairs
    pair : Frame → Frame → Pairs → Pairs

-- The number of elements, `items.len()`.
unfoldable pub count_frames : Frames → ℕ
count_frames end = 0
count_frames (item f fs) = suc (count_frames fs)

unfoldable pub count_pairs : Pairs → ℕ
count_pairs end_pairs = 0
count_pairs (pair k v ps) = suc (count_pairs ps)

unfoldable pub ok : Frame
ok = simple (text "OK")

unfoldable pub as_bulk : Frame → Option Bytes
as_bulk (bulk b) = some b
as_bulk f = none
