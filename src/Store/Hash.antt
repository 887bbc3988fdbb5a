-- ===== src/Store/Hash.antt =====
-- crates/gamestore-engine/src/store.rs: the Hash operations.
pub mod View
pub mod Write
pub mod Refine
pub mod ReadBack
use game_store.Prelude.{
  ℕ, ◌+◌, ◌-◌, ◌%◌, ◌^◌, Bool, true, false, Option, none, some, List, [], ◌∷◌, ◌==◌, ltb,
  if◌then◌else◌, length, drop,
}
use game_store.Bytes.{Bytes}
use game_store.Encoding.Keys.{meta_key, subkey, subkey_prefix}
use game_store.Encoding.Meta
use game_store.Encoding.Meta.{Meta, type_hash, field_count, set_field_count}
use game_store.Engine.Error.{Result, ok, err}
use game_store.Engine.Batch.{WriteBatch, push_put, push_delete}
use game_store.Store.Exec.{Exec, pure, lift, ◌>>=◌, ◌>>◌}
use game_store.Store.Base.{
  Host, Store, engine_get, engine_write, engine_scan_prefix, load_typed, new_composite_meta,
  logical_delete,
}
use game_store.Store.Strings.{is_some}

-- `k[prefix.len()..]` of each item of a scan, with its value; `item?` ends at an error.
unfoldable pub stripped : ℕ → List (Result (Bytes × Bytes)) → Result (List (Bytes × Bytes))
stripped n [] = ok []
stripped n (err e ∷ items) = err e
stripped n (ok (k, v) ∷ items) = elim (stripped n items) [
  | ok rest ↦ ok ((drop n k, v) ∷ rest)
  | err e ↦ err e
]

module _ ⦃h : Host⦄ where
  -- `Some(m) => m, None => { new_composite_meta; set_field_count(0) }`
  unfoldable pub counted_meta : Bytes → ℕ → Option Meta → Exec (Store h) Meta
  unfolding new_composite_meta
  counted_meta key type_id (some m) = pure m
  counted_meta key type_id none = do m ← new_composite_meta key type_id; pure (set_field_count m 0)

  -- The loop of `hset`: the count as `u32`, the number created, and the batch.
  unfoldable pub hset_pairs :
      Bytes → ℕ → List (Bytes × Bytes) → ℕ → ℕ → WriteBatch → Exec (Store h) (ℕ × ℕ × WriteBatch)
  unfolding is_some
  hset_pairs key version [] count created batch = pure (count, created, batch)
  hset_pairs key version ((field, value) ∷ pairs) count created batch = do
    old ← engine_get (subkey key version field)
    hset_pairs key version pairs (if is_some old then count else (count + 1) % 2 ^ 32)
        (if is_some old then created else created + 1)
        (push_put batch (subkey key version field) value)

  unfoldable pub hset : Bytes → List (Bytes × Bytes) → Exec (Store h) ℕ
  unfolding load_typed counted_meta hset_pairs
  hset key pairs = do
    found ← load_typed key type_hash
    m ← counted_meta key type_hash found
    (count, created, batch) ← hset_pairs key m.version pairs (field_count m) 0 []
    engine_write (push_put batch (meta_key key) (Meta.encode (set_field_count m count)))
    pure created

  unfoldable pub hget_loaded : Bytes → Bytes → Option Meta → Exec (Store h) (Option Bytes)
  hget_loaded key field none = pure none
  hget_loaded key field (some m) = engine_get (subkey key m.version field)

  unfoldable pub hget : Bytes → Bytes → Exec (Store h) (Option Bytes)
  unfolding load_typed hget_loaded
  hget key field = do found ← load_typed key type_hash; hget_loaded key field found

  unfoldable pub hgetall_loaded : Bytes → Option Meta → Exec (Store h) (List (Bytes × Bytes))
  unfolding stripped
  hgetall_loaded key none = pure []
  hgetall_loaded key (some m) = do
    items ← engine_scan_prefix (subkey_prefix key m.version)
    lift (stripped (length (subkey_prefix key m.version)) items)

  unfoldable pub hgetall : Bytes → Exec (Store h) (List (Bytes × Bytes))
  unfolding load_typed hgetall_loaded
  hgetall key = do found ← load_typed key type_hash; hgetall_loaded key found

  -- The loop of `hdel`; the count saturates at 0.
  unfoldable pub hdel_fields :
      Bytes → ℕ → List Bytes → ℕ → ℕ → WriteBatch → Exec (Store h) (ℕ × ℕ × WriteBatch)
  unfolding is_some
  hdel_fields key version [] count removed batch = pure (count, removed, batch)
  hdel_fields key version (field ∷ fields) count removed batch = do
    old ← engine_get (subkey key version field)
    hdel_fields key version fields (if is_some old then count - 1 else count)
        (if is_some old then removed + 1 else removed)
        (if is_some old then push_delete batch (subkey key version field) else batch)

  -- The end that `hdel`, `srem` and `zrem` share: the last member takes the key with it.
  unfoldable pub finish_removal : Bytes → Meta → ℕ × ℕ × WriteBatch → Exec (Store h) ℕ
  unfolding logical_delete
  finish_removal key m (count, removed, batch) =
      if removed == 0
      then pure removed
      else if count == 0
      then (do engine_write batch; logical_delete key; pure removed)
      else (do
        engine_write (push_put batch (meta_key key) (Meta.encode (set_field_count m count)))
        pure removed)

  unfoldable pub hdel_loaded : Bytes → List Bytes → Option Meta → Exec (Store h) ℕ
  unfolding hdel_fields finish_removal
  hdel_loaded key fields none = pure 0
  hdel_loaded key fields (some m) = do
    removal ← hdel_fields key m.version fields (field_count m) 0 []
    finish_removal key m removal

  unfoldable pub hdel : Bytes → List Bytes → Exec (Store h) ℕ
  unfolding load_typed hdel_loaded
  hdel key fields = do found ← load_typed key type_hash; hdel_loaded key fields found

  unfoldable pub count_of : Option Meta → ℕ
  count_of none = 0
  count_of (some m) = field_count m

  unfoldable pub hlen : Bytes → Exec (Store h) ℕ
  unfolding load_typed count_of
  hlen key = do found ← load_typed key type_hash; pure (count_of found)

  unfoldable pub hexists : Bytes → Bytes → Exec (Store h) Bool
  unfolding hget is_some
  hexists key field = do value ← hget key field; pure (is_some value)
