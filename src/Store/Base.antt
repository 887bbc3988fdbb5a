-- ===== src/Store/Base.antt =====
-- crates/gamestore-engine/src/store.rs: the state of a store, the clocks, and the helpers that
-- load, expire and delete metadata.
use game_store.Prelude.{
  ℕ, ◌+◌, ◌%◌, ◌/◌, ◌^◌, max, Bool, false, Option, none, some, List, [], ◌∷◌, ◌==◌, leb,
  if◌then◌else◌, ◌||◌, length,
}
use game_store.Bytes.{Bytes, text}
use game_store.Encoding.Keys.{meta_key, meta_prefix}
use game_store.Encoding.Score.{decode_score}
use game_store.Encoding.Meta
use game_store.Encoding.Meta.{Meta, type_hash, type_set, type_zset, type_list}
use game_store.Engine.Error.{Result, ok, err, corruption, wrong_type}
use game_store.Engine.Batch.{WriteBatch, put, delete}
use game_store.Engine.Interface.{GeneralEngine}
use game_store.Gc
use game_store.Gc.{VersionMap}
use game_store.Store.Exec.{Exec, pure, lift, raise, gets, modify, ◌>>=◌, ◌>>◌}

-- What the store runs on: a backend, and the wall clock as the microseconds since the epoch that
-- its successive readings give.
pub record Host : Type 1 where
  pub engine : GeneralEngine
  pub wall : ℕ → ℕ

-- `Store`, with the process's `VERSION_CLOCK` and the number of clock readings made so far.
pub record Store (h : Host) : Type 0 where
  pub engine : h.engine.State
  pub versions : VersionMap
  pub version_clock : ℕ
  pub readings : ℕ

module _ ⦃h : Host⦄ where
  abbrev pub tick : Exec (Store h) (Unit {0})
  tick = modify (λ s. record s { readings = s.readings + 1 })

  unfoldable pub now_ms : Exec (Store h) ℕ
  now_ms = do now ← gets (λ s. h.wall s.readings / 1000 % 2 ^ 64); tick; pure now

  unfoldable pub now_micros : Exec (Store h) ℕ
  now_micros = do now ← gets (λ s. h.wall s.readings % 2 ^ 64); tick; pure now

  -- One round of the loop: with no other thread the exchange succeeds.
  unfoldable pub next_version : Exec (Store h) ℕ
  unfolding now_micros
  next_version = do
    prev ← gets (λ s. s.version_clock)
    now ← now_micros
    let candidate = max ((prev + 1) % 2 ^ 64) now
    modify (λ s. record s { version_clock = candidate })
    pure candidate

  abbrev pub engine_get : Bytes → Exec (Store h) (Option Bytes)
  engine_get key s = (h.engine.get s.engine key, s)

  abbrev pub engine_write : WriteBatch → Exec (Store h) (Unit {0})
  engine_write batch s =
      ((h.engine.write s.engine batch).0, record s { engine = (h.engine.write s.engine batch).1 })

  abbrev pub engine_scan_prefix : Bytes → Exec (Store h) (List (Result (Bytes × Bytes)))
  engine_scan_prefix prefix s = (ok (h.engine.scan_prefix s.engine prefix), s)

  abbrev pub versions_set : Bytes → ℕ → Exec (Store h) (Unit {0})
  versions_set key version = modify (λ s. record s { versions = Gc.set key version s.versions })

  abbrev pub versions_remove : Bytes → Exec (Store h) (Unit {0})
  versions_remove key = modify (λ s. record s { versions = Gc.remove key s.versions })

  abbrev pub versions_clear : Exec (Store h) (Unit {0})
  versions_clear = modify (λ s. record s { versions = Gc.clear s.versions })

-- `matches!(meta.type_id, TYPE_HASH | TYPE_SET | TYPE_ZSET | TYPE_LIST)`
unfoldable pub is_composite : ℕ → Bool
is_composite t = (t == type_hash) || ((t == type_set) || ((t == type_zset) || (t == type_list)))

-- One metadata record of the rebuild's scan.
unfoldable pub register_meta : Bytes → Bytes → VersionMap → VersionMap
unfolding is_composite
register_meta [] v versions = versions
register_meta (first ∷ user_key) v versions =
    if first == meta_prefix
    then elim (Meta.decode v) [
      | none ↦ versions
      | some m ↦ if is_composite m.type_id then Gc.set user_key m.version versions else versions
    ]
    else versions

unfoldable pub decode_record : Option Bytes → Result (Option Meta)
decode_record none = ok none
decode_record (some raw) = elim (Meta.decode raw) [
  | none ↦ err (corruption (text "undecodable metadata record"))
  | some m ↦ ok (some m)
]

unfoldable pub typed : ℕ → Option Meta → Result (Option Meta)
typed type_id none = ok none
typed type_id (some m) = if m.type_id == type_id then ok (some m) else err wrong_type

-- The score stored in a member's subkey.
unfoldable pub decode_stored_score : Bytes → Result ℕ
decode_stored_score raw =
    if length raw == 8
    then ok (decode_score raw)
    else err (corruption (text "undecodable zset member score"))

module _ ⦃h : Host⦄ where
  -- The loop of `rebuild_version_map`. On an error the versions registered so far stay.
  unfoldable pub rebuild_from : List (Result (Bytes × Bytes)) → Exec (Store h) (Unit {0})
  unfolding register_meta
  rebuild_from [] = pure tt
  rebuild_from (err e ∷ items) = raise e
  rebuild_from (ok (k, v) ∷ items) = do
    modify (λ s. record s { versions = register_meta k v s.versions })
    rebuild_from items

  unfoldable pub rebuild_version_map : Exec (Store h) (Unit {0})
  unfolding rebuild_from
  rebuild_version_map = do
    versions_clear
    items ← engine_scan_prefix (meta_prefix ∷ [])
    rebuild_from items

  unfoldable pub load_meta : Bytes → Exec (Store h) (Option Meta)
  unfolding decode_record
  load_meta user_key = do raw ← engine_get (meta_key user_key); lift (decode_record raw)

  unfoldable pub put_meta : Bytes → Meta → Exec (Store h) (Unit {0})
  put_meta user_key m = engine_write (put (meta_key user_key) (Meta.encode m) ∷ [])

  unfoldable pub logical_delete : Bytes → Exec (Store h) (Unit {0})
  logical_delete user_key = do
    engine_write (delete (meta_key user_key) ∷ [])
    versions_remove user_key

  -- `meta.expire_ms != 0 && now_ms() >= meta.expire_ms`
  unfoldable pub is_expired : Meta → Exec (Store h) Bool
  unfolding now_ms
  is_expired m =
      if m.expire_ms == 0 then pure false else do now ← now_ms; pure (leb m.expire_ms now)

  unfoldable pub drop_expired : Bytes → Option Meta → Exec (Store h) (Option Meta)
  unfolding is_expired logical_delete
  drop_expired user_key none = pure none
  drop_expired user_key (some m) = do
    expired ← is_expired m
    if expired then (do logical_delete user_key; pure none) else pure (some m)

  unfoldable pub load_live_meta : Bytes → Exec (Store h) (Option Meta)
  unfolding load_meta drop_expired
  load_live_meta user_key = do m ← load_meta user_key; drop_expired user_key m

  unfoldable pub load_typed : Bytes → ℕ → Exec (Store h) (Option Meta)
  unfolding load_live_meta typed
  load_typed user_key type_id = do m ← load_live_meta user_key; lift (typed type_id m)

  unfoldable pub new_composite_meta : Bytes → ℕ → Exec (Store h) Meta
  unfolding next_version
  new_composite_meta user_key type_id = do
    version ← next_version
    versions_set user_key version
    pure (record { type_id = type_id; version = version; expire_ms = 0; payload = [] })
