-- ===== src/Encoding/Meta/RoundTrip.antt =====
-- crates/gamestore-engine/src/encoding.rs: metadata, counts and list bounds, written and read.
use game_store.Prelude.{
  ℕ, ◌^◌, ◌<◌, ◌≡◌, sym, ap, ◌∙◌, ◌⊎◌, some, [], ◌++◌, append-nil, arith, take, drop, length-append,
  take-append, drop-append, append_assoc,
}
use game_store.Bytes.{to_be}
use game_store.Bytes.BigEndian.{length-to_be, from_be-to_be}
use game_store.Encoding.Meta.{
  Meta, encode, decode, field_count, set_field_count, list_bounds, set_list_bounds, type_list,
  type_hash, type_set, type_zset,
}

-- The fields are in the range of their Rust types.
pub record IsEncodable (m : Meta) : Type 0 where
  pub version : m.version < 2 ^ 64
  pub expire_ms : m.expire_ms < 2 ^ 64

-- Metadata whose version and expiry fit 64 bits decodes from its encoding.
pub decode-encode : (m : Meta) → IsEncodable m → decode (encode m) ≡ some m
unfolding decode encode
decode-encode m h = ground (
  arith,
  length-append (to_be 8 m.version) (to_be 8 m.expire_ms ++ m.payload),
  length-append (to_be 8 m.expire_ms) m.payload,
  length-to_be 8 m.version,
  length-to_be 8 m.expire_ms,
  take-append (to_be 8 m.version) (to_be 8 m.expire_ms ++ m.payload) 8
      (sym (length-to_be 8 m.version)),
  from_be-to_be 8 m.version h.version,
  from_be-to_be 8 m.expire_ms h.expire_ms,
  tail_8,
  tail_16,
  take-append (to_be 8 m.expire_ms) m.payload 8 (sym (length-to_be 8 m.expire_ms)),
)
  where
    tail_8 :
        drop 8 (to_be 8 m.version ++ (to_be 8 m.expire_ms ++ m.payload))
        ≡ to_be 8 m.expire_ms ++ m.payload
    tail_8 = drop-append (to_be 8 m.version) _ 8 (sym (length-to_be 8 m.version))

    tail_16 : drop 16 (to_be 8 m.version ++ (to_be 8 m.expire_ms ++ m.payload)) ≡ m.payload
    tail_16 = rw (← append_assoc (to_be 8 m.version) (to_be 8 m.expire_ms) m.payload) (
        drop-append (to_be 8 m.version ++ to_be 8 m.expire_ms) m.payload 16 (
          omega (
            arith,
            length-append (to_be 8 m.version) (to_be 8 m.expire_ms),
            length-to_be 8 m.version,
            length-to_be 8 m.expire_ms,
          )))

-- For a hash, set or sorted set, the field count that was set, if it fits 32 bits, is the one that
-- is read.
pub field_count-set_field_count :
    (m : Meta) (n : ℕ)
    → (m.type_id ≡ type_hash) ⊎ (m.type_id ≡ type_set) ⊎ (m.type_id ≡ type_zset)
    → n < 2 ^ 32
    → field_count (set_field_count m n) ≡ n
unfolding field_count set_field_count
field_count-set_field_count m n counted h = ground (
  arith,
  length-to_be 4 n,
  from_be-to_be 4 n h,
  ap (λ t. take 4 t) (sym (append-nil (to_be 4 n)))
      ∙ take-append (to_be 4 n) [] 4 (sym (length-to_be 4 n)),
)

-- For a list, the bounds that were set, if they fit 64 bits, are the ones that are read.
pub list_bounds-set_list_bounds :
    (m : Meta) (head tail : ℕ)
    → m.type_id ≡ type_list
    → head < 2 ^ 64
    → tail < 2 ^ 64
    → list_bounds (set_list_bounds m head tail) ≡ some (head, tail)
unfolding list_bounds set_list_bounds
list_bounds-set_list_bounds m head tail e h h' = ground (
  arith,
  length-append (to_be 8 head) (to_be 8 tail),
  length-to_be 8 head,
  length-to_be 8 tail,
  from_be-to_be 8 head h,
  from_be-to_be 8 tail h',
  take-append (to_be 8 head) (to_be 8 tail) 8 (sym (length-to_be 8 head)),
  drop-append (to_be 8 head) (to_be 8 tail) 8 (sym (length-to_be 8 head)),
  ap (λ t. take 8 t) (sym (append-nil (to_be 8 tail)))
      ∙ take-append (to_be 8 tail) [] 8 (sym (length-to_be 8 tail)),
)
