-- ===== src/Store/Set.antt =====
-- crates/gamestore-engine/src/store.rs: the Set operations.
pub mod Added
pub mod Replies
pub mod Members
use game_store.Prelude.{
  ℕ, ◌+◌, ◌-◌, ◌%◌, ◌^◌, Bool, true, false, ◌||◌, Option, none, some, List, [], ◌∷◌, ◌==◌,
  if◌then◌else◌, length, map,
}
use game_store.Bytes.{Bytes, ◌==ᵇ◌}
use game_store.Encoding.Keys.{meta_key, subkey, subkey_prefix}
use game_store.Encoding.Meta
use game_store.Encoding.Meta.{Meta, type_set, field_count, set_field_count}
use game_store.Engine.Batch.{WriteBatch, push_put, push_delete}
use game_store.Store.Exec.{Exec, pure, lift, ◌>>=◌, ◌>>◌}
use game_store.Store.Base.{Host, Store, engine_get, engine_write, engine_scan_prefix, load_typed}
use game_store.Store.Strings.{is_some}
use game_store.Store.Hash.{counted_meta, finish_removal, count_of, stripped}

-- The members met so far in one call, the `HashSet` of the loops.
unfoldable pub contains : List Bytes → Bytes → Bool
contains [] member = false
contains (x ∷ seen) member = (x ==ᵇ member) || contains seen member

module _ ⦃h : Host⦄ where
  -- A member that `sadd` passes over: a repeated one, which is not looked up, or a stored one.
  unfoldable pub seen_or_stored : Bytes → ℕ → List Bytes → Bytes → Exec (Store h) Bool
  unfolding is_some contains
  seen_or_stored key version seen member =
      if contains seen member
      then pure true
      else do old ← engine_get (subkey key version member); pure (is_some old)

  -- A member that `srem` removes: a stored one, at its first mention.
  unfoldable pub unseen_and_stored : Bytes → ℕ → List Bytes → Bytes → Exec (Store h) Bool
  unfolding is_some contains
  unseen_and_stored key version seen member =
      if contains seen member
      then pure false
      else do old ← engine_get (subkey key version member); pure (is_some old)

  unfoldable pub sadd_members :
      Bytes → ℕ → List Bytes → List Bytes → ℕ → ℕ → WriteBatch → Exec (Store h) (ℕ × ℕ × WriteBatch)
  unfolding seen_or_stored
  sadd_members key version [] seen count added batch = pure (count, added, batch)
  sadd_members key version (member ∷ members) seen count added batch = do
    present ← seen_or_stored key version seen member
    sadd_members key version members (member ∷ seen)
        (if present then count else (count + 1) % 2 ^ 32) (if present then added else added + 1)
        (if present then batch else push_put batch (subkey key version member) [])

  unfoldable pub sadd : Bytes → List Bytes → Exec (Store h) ℕ
  unfolding load_typed counted_meta sadd_members
  sadd key members = do
    found ← load_typed key type_set
    m ← counted_meta key type_set found
    (count, added, batch) ← sadd_members key m.version members [] (field_count m) 0 []
    if added == 0 then pure added else (do
      engine_write (push_put batch (meta_key key) (Meta.encode (set_field_count m count)))
      pure added)

  unfoldable pub srem_members :
      Bytes → ℕ → List Bytes → List Bytes → ℕ → ℕ → WriteBatch → Exec (Store h) (ℕ × ℕ × WriteBatch)
  unfolding unseen_and_stored
  srem_members key version [] seen count removed batch = pure (count, removed, batch)
  srem_members key version (member ∷ members) seen count removed batch = do
    present ← unseen_and_stored key version seen member
    srem_members key version members (member ∷ seen) (if present then count - 1 else count)
        (if present then removed + 1 else removed)
        (if present then push_delete batch (subkey key version member) else batch)

  unfoldable pub srem_loaded : Bytes → List Bytes → Option Meta → Exec (Store h) ℕ
  unfolding srem_members finish_removal
  srem_loaded key members none = pure 0
  srem_loaded key members (some m) = do
    removal ← srem_members key m.version members [] (field_count m) 0 []
    finish_removal key m removal

  unfoldable pub srem : Bytes → List Bytes → Exec (Store h) ℕ
  unfolding load_typed srem_loaded
  srem key members = do found ← load_typed key type_set; srem_loaded key members found

  unfoldable pub sismember_loaded : Bytes → Bytes → Option Meta → Exec (Store h) Bool
  unfolding is_some
  sismember_loaded key member none = pure false
  sismember_loaded key member (some m) = do
    value ← engine_get (subkey key m.version member)
    pure (is_some value)

  unfoldable pub sismember : Bytes → Bytes → Exec (Store h) Bool
  unfolding load_typed sismember_loaded
  sismember key member = do found ← load_typed key type_set; sismember_loaded key member found

  unfoldable pub smembers_loaded : Bytes → Option Meta → Exec (Store h) (List Bytes)
  unfolding stripped
  smembers_loaded key none = pure []
  smembers_loaded key (some m) = do
    items ← engine_scan_prefix (subkey_prefix key m.version)
    members ← lift (stripped (length (subkey_prefix key m.version)) items)
    pure (map (λ r. r.0) members)

  unfoldable pub smembers : Bytes → Exec (Store h) (List Bytes)
  unfolding load_typed smembers_loaded
  smembers key = do found ← load_typed key type_set; smembers_loaded key found

  unfoldable pub scard : Bytes → Exec (Store h) ℕ
  unfolding load_typed count_of
  scard key = do found ← load_typed key type_set; pure (count_of found)
