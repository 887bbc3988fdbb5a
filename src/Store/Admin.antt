-- ===== src/Store/Admin.antt =====
-- crates/gamestore-engine/src/store.rs: opening a store, the introspection operations, compaction
-- and the flush.
use game_store.Prelude.{ℕ, ◌+◌, List, [], ◌∷◌}
use game_store.Bytes.{Bytes}
use game_store.Encoding.Keys.{meta_prefix, subkey_prefix_byte, zscore_prefix_byte}
use game_store.Engine.Error.{Result, ok, err}
use game_store.Engine.Batch.{WriteBatch, push_delete}
use game_store.Gc
use game_store.Store.Exec.{Exec, pure, lift, ◌>>=◌, ◌>>◌}
use game_store.Store.Base.{
  Host, Store, engine_write, engine_scan_prefix, versions_clear, rebuild_version_map,
}

-- The number of items of a scan, unless one is an error.
unfoldable pub count_items : List (Result (Bytes × Bytes)) → Result ℕ
count_items [] = ok 0
count_items (err e ∷ items) = err e
count_items (ok r ∷ items) = elim (count_items items) [ ok n ↦ ok (n + 1) | err e ↦ err e ]

-- A batch with a deletion for each item of a scan.
unfoldable pub delete_items : List (Result (Bytes × Bytes)) → WriteBatch → Result WriteBatch
delete_items [] batch = ok batch
delete_items (err e ∷ items) batch = err e
delete_items (ok (k, v) ∷ items) batch = delete_items items (push_delete batch k)

module _ ⦃h : Host⦄ where
  -- A store over an opened engine, whose predicate it becomes, in a process whose clocks stand as given.
  unfoldable pub with_engine : h.engine.Opened → ℕ → ℕ → Result (Unit {0}) × Store h
  unfolding rebuild_version_map
  with_engine engine version_clock readings = rebuild_version_map (record {
    engine = h.engine.install_gc engine;
    versions = Gc.new;
    version_clock = version_clock;
    readings = readings;
  })

  unfoldable pub dbsize : Exec (Store h) ℕ
  unfolding count_items
  dbsize = do items ← engine_scan_prefix (meta_prefix ∷ []); lift (count_items items)

  unfoldable pub raw_subkey_count : Exec (Store h) ℕ
  unfolding count_items
  raw_subkey_count = do
    subkeys ← engine_scan_prefix (subkey_prefix_byte ∷ [])
    n ← lift (count_items subkeys)
    scores ← engine_scan_prefix (zscore_prefix_byte ∷ [])
    m ← lift (count_items scores)
    pure (n + m)

  -- The engine asks the predicate, which reads the store's own version map.
  unfoldable pub compact : Exec (Store h) (Unit {0})
  compact s =
      let keep = λ (key value : Bytes). Gc.should_keep s.versions key in
      (
        (h.engine.compact_range s.engine keep).0,
        record s { engine = (h.engine.compact_range s.engine keep).1 },
      )

  unfoldable pub flush_all : Exec (Store h) (Unit {0})
  unfolding delete_items
  flush_all = do
    metas ← engine_scan_prefix (meta_prefix ∷ [])
    batch ← lift (delete_items metas [])
    subkeys ← engine_scan_prefix (subkey_prefix_byte ∷ [])
    batch' ← lift (delete_items subkeys batch)
    scores ← engine_scan_prefix (zscore_prefix_byte ∷ [])
    batch'' ← lift (delete_items scores batch')
    engine_write batch''
    versions_clear
