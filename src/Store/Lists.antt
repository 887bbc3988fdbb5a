-- ===== src/Store/Lists.antt =====
-- crates/gamestore-engine/src/store.rs: the List operations. Indexes are `u64`, with their wrap-around.
pub mod Span
pub mod Length
use game_store.Prelude.{
  ℕ, zero, suc, ◌+◌, ◌-◌, ◌%◌, ◌^◌, Bool, true, false, Option, none, some, List, [], ◌∷◌, ◌==◌, ltb,
  if◌then◌else◌, length,
}
use game_store.Prelude.Int.{ℤ, pos, signed64}
use game_store.Bytes.{Bytes, text}
use game_store.Encoding.Keys.{meta_key, subkey, list_index_field, list_initial_index}
use game_store.Encoding.Meta
use game_store.Encoding.Meta.{Meta, type_list, list_bounds, set_list_bounds}
use game_store.Engine.Error.{Result, ok, err, corruption}
use game_store.Engine.Batch.{WriteBatch, push_put, push_delete}
use game_store.Store.Exec.{Exec, pure, lift, ◌>>=◌, ◌>>◌}
use game_store.Store.Base.{
  Host, Store, engine_get, engine_write, load_typed, new_composite_meta, logical_delete,
}
use game_store.Store.ZSet.{normalize_range}

abbrev pub add64 : ℕ → ℕ → ℕ
add64 a b = (a + b) % 2 ^ 64

abbrev pub sub64 : ℕ → ℕ → ℕ
sub64 a b = (a + 2 ^ 64 - b) % 2 ^ 64

unfoldable pub bounds_of : Meta → Result (ℕ × ℕ)
bounds_of m = elim (list_bounds m) [
  | none ↦ err (corruption (text "undecodable list bounds"))
  | some bounds ↦ ok bounds
]

-- The key of the element at an index.
abbrev pub element_key : Bytes → ℕ → ℕ → Bytes
element_key key version index = subkey key version (list_index_field index)

unfoldable pub element : Option Bytes → Result Bytes
element none = err (corruption (text "missing list element record"))
element (some value) = ok value

-- The loop of `push`: the bounds after it and the batch.
unfoldable pub push_values : Bytes → ℕ → Bool → List Bytes → ℕ → ℕ → WriteBatch → ℕ × ℕ × WriteBatch
push_values key version left [] head tail batch = (head, tail, batch)
push_values key version left (value ∷ values) head tail batch =
    push_values key version left values (if left then sub64 head 1 else head)
      (if left then tail else add64 tail 1)
      (push_put batch (element_key key version (if left then sub64 head 1 else tail)) value)

module _ ⦃h : Host⦄ where
  unfoldable pub list_meta : Bytes → Option Meta → Exec (Store h) Meta
  unfolding new_composite_meta
  list_meta key (some m) = pure m
  list_meta key none = do
    m ← new_composite_meta key type_list
    pure (set_list_bounds m list_initial_index list_initial_index)

  unfoldable pub push_at : Bytes → List Bytes → Bool → Meta → ℕ × ℕ → Exec (Store h) ℤ
  unfolding push_values
  push_at key values left m (head, tail) = do
    let (head', tail', batch) = push_values key m.version left values head tail []
    engine_write (push_put batch (meta_key key) (Meta.encode (set_list_bounds m head' tail')))
    pure (signed64 (sub64 tail' head'))

  unfoldable pub push : Bytes → List Bytes → Bool → Exec (Store h) ℤ
  unfolding load_typed list_meta bounds_of push_at
  push key values left = do
    found ← load_typed key type_list
    m ← list_meta key found
    bounds ← lift (bounds_of m)
    push_at key values left m bounds

  -- The loop of `pop`, with the number of elements still wanted: the elements popped, the bounds
  -- and the batch.
  unfoldable pub pop_values :
      Bytes → ℕ → Bool → ℕ → ℕ → ℕ → WriteBatch → Exec (Store h) (List Bytes × ℕ × ℕ × WriteBatch)
  unfolding element
  pop_values key version left zero head tail batch s = (ok ([], head, tail, batch), s)
  pop_values key version left (suc wanted) head tail batch s = elim (ltb head tail) [
    | false ↦ (ok ([], head, tail, batch), s)
    | true ↦
        let sk = element_key key version (if left then head else sub64 tail 1) in
        (do
          raw ← engine_get sk
          value ← lift (element raw)
          (out, head', tail', batch') ←
              pop_values key version left wanted (if left then add64 head 1 else head)
                (if left then tail else sub64 tail 1) (push_delete batch sk)
          pure (value ∷ out, head', tail', batch'))
          s
  ]

  unfoldable pub pop_finish :
      Bytes → Meta → List Bytes × ℕ × ℕ × WriteBatch → Exec (Store h) (List Bytes)
  unfolding logical_delete
  pop_finish key m (out, head, tail, batch) =
      if length out == 0
      then pure out
      else if head == tail
      then (do engine_write batch; logical_delete key; pure out)
      else (do
        engine_write (push_put batch (meta_key key) (Meta.encode (set_list_bounds m head tail)))
        pure out)

  unfoldable pub pop_loaded : Bytes → ℕ → Bool → Option Meta → Exec (Store h) (List Bytes)
  unfolding bounds_of pop_values pop_finish
  pop_loaded key count left none = pure []
  pop_loaded key count left (some m) = do
    (head, tail) ← lift (bounds_of m)
    popped ← pop_values key m.version left count head tail []
    pop_finish key m popped

  unfoldable pub pop : Bytes → ℕ → Bool → Exec (Store h) (List Bytes)
  unfolding load_typed pop_loaded
  pop key count left = do found ← load_typed key type_list; pop_loaded key count left found

  -- The elements of `rounds` indexes from `index` on.
  unfoldable pub lrange_values : Bytes → ℕ → ℕ → ℕ → Exec (Store h) (List Bytes)
  unfolding element
  lrange_values key version zero index = pure []
  lrange_values key version (suc rounds) index = do
    raw ← engine_get (element_key key version index)
    value ← lift (element raw)
    rest ← lrange_values key version rounds (add64 index 1)
    pure (value ∷ rest)

  unfoldable pub lrange_slice : Bytes → Meta → ℕ → Option (ℕ × ℕ) → Exec (Store h) (List Bytes)
  unfolding lrange_values
  lrange_slice key m head none = pure []
  lrange_slice key m head (some (lo, hi)) =
      lrange_values key m.version (hi + 1 - lo) (add64 head lo)

  unfoldable pub lrange_loaded : Bytes → ℤ → ℤ → Option Meta → Exec (Store h) (List Bytes)
  unfolding bounds_of lrange_slice
  lrange_loaded key start stop none = pure []
  lrange_loaded key start stop (some m) = do
    (head, tail) ← lift (bounds_of m)
    lrange_slice key m head (normalize_range start stop (signed64 (sub64 tail head)))

  unfoldable pub lrange : Bytes → ℤ → ℤ → Exec (Store h) (List Bytes)
  unfolding load_typed lrange_loaded
  lrange key start stop = do found ← load_typed key type_list; lrange_loaded key start stop found

  unfoldable pub list_len : Option Meta → ℤ
  list_len none = pos 0
  list_len (some m) = elim (list_bounds m) [
    | none ↦ pos 0
    | some (head, tail) ↦ signed64 (sub64 tail head)
  ]

  unfoldable pub llen : Bytes → Exec (Store h) ℤ
  unfolding load_typed list_len
  llen key = do found ← load_typed key type_list; pure (list_len found)
