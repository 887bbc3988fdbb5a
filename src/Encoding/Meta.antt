-- ===== src/Encoding/Meta.antt =====
-- crates/gamestore-engine/src/encoding.rs: the metadata record `Meta`.
pub mod RoundTrip
use game_store.Prelude.{
  ℕ, ◌+◌, ◌%◌, ◌^◌, Bool, true, false, not, Option, none, some, [], ◌∷◌, ◌++◌, ◌||◌, ◌&&◌, ltb, leb,
  ◌==◌, if◌then◌else◌, length, drop, get_or,
}
use game_store.Bytes.{Bytes, to_be, from_be, slice}

abbrev pub type_string : ℕ
type_string = 1

abbrev pub type_hash : ℕ
type_hash = 2

abbrev pub type_set : ℕ
type_set = 3

abbrev pub type_zset : ℕ
type_zset = 4

abbrev pub type_list : ℕ
type_list = 5

abbrev pub meta_header_len : ℕ
meta_header_len = 1 + 8 + 8

pub record Meta : Type 0 where
  pub type_id : ℕ
  pub version : ℕ
  pub expire_ms : ℕ
  pub payload : Bytes

unfoldable pub encode : Meta → Bytes
encode m = m.type_id ∷ (to_be 8 m.version ++ (to_be 8 m.expire_ms ++ m.payload))

unfoldable pub decode : Bytes → Option Meta
decode raw =
    if ltb (length raw) meta_header_len
    then none
    else some (record {
      type_id = get_or raw 0 0;
      version = from_be (slice raw 1 9);
      expire_ms = from_be (slice raw 9 17);
      payload = drop meta_header_len raw;
    })

unfoldable pub field_count : Meta → ℕ
field_count m =
    let counted =
      (m.type_id == type_hash) || ((m.type_id == type_set) || (m.type_id == type_zset)) in
    if counted && leb 4 (length m.payload) then from_be (slice m.payload 0 4) else 0

-- The count is a `u32`.
unfoldable pub set_field_count : Meta → ℕ → Meta
set_field_count m n = record m { payload = to_be 4 n }

unfoldable pub list_bounds : Meta → Option (ℕ × ℕ)
list_bounds m =
    if not (m.type_id == type_list) || ltb (length m.payload) 16
    then none
    else some (from_be (slice m.payload 0 8), from_be (slice m.payload 8 16))

unfoldable pub set_list_bounds : Meta → ℕ → ℕ → Meta
set_list_bounds m head tail = record m { payload = to_be 8 head ++ to_be 8 tail }
