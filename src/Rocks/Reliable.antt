-- ===== src/Rocks/Reliable.antt =====
-- crates/gamestore-engine/src/rocks.rs: the engine over a RocksDB without failures.
use game_store.Prelude.{
  Bool, true, false, not, some, List, [], ◌∷◌, ◌≡◌, refl, ap, map, filter_by, arith, All,
}
use game_store.Bytes.{Bytes, starts_with, bytes_lt}
use game_store.Bytes.Prefix.{not-starts_with_of_lt, not-starts_with_above}
use game_store.Engine.Error.{ok}
use game_store.Engine.Batch.{WriteOp, put, delete}
use game_store.Engine.Records.{Records, IsSorted, with_prefix}
use game_store.Engine.Interface.{IsReliable}
use game_store.Rocks.{
  DbResult, done, failed, keep, remove, Rocksdb, IsOrderedStore, prefix_scan, rocks_engine,
  filter_decision, native_batch, engine_compact_range, compact_flushed,
}

pub native_batch_lem : (ops : List WriteOp) → native_batch ops ≡ ops
unfolding native_batch
native_batch_lem [] = refl
native_batch_lem (put k v ∷ ops) = ap (λ t. put k v ∷ t) (native_batch_lem ops)
native_batch_lem (delete k ∷ ops) = ap (λ t. delete k ∷ t) (native_batch_lem ops)

-- Above a key that is not below the prefix and does not start with it, nothing does.
none_above :
    (p k : Bytes) (rs : Records)
    → bytes_lt k p ≡ false
    → starts_with p k ≡ false
    → All (λ (s : Bytes × Bytes). bytes_lt k s.0 ≡ true) rs
    → with_prefix p rs ≡ []
unfolding with_prefix
none_above p k [] h g above = refl
none_above p k (r ∷ rs) h g above =
    ground (arith, none_above p k rs h g above.1, not-starts_with_above p k r.0)

-- Over sorted records, the scan that starts an iterator at the prefix and stops at the first other
-- key yields exactly the records with the prefix, in order.
pub prefix_scan-eq-with_prefix :
    (p : Bytes) (rs : Records)
    → IsSorted rs
    → prefix_scan p (map done (filter_by (λ e. not (bytes_lt e.0 p)) rs))
      ≡ map ok (with_prefix p rs)
unfolding prefix_scan with_prefix
prefix_scan-eq-with_prefix p [] h = refl
prefix_scan-eq-with_prefix p ((k, v) ∷ rs) h =
    ground
      (arith, prefix_scan-eq-with_prefix p rs h.1, not-starts_with_of_lt p k, none_above p k rs)

pub kept_by :
    (keep_test : Bytes → Bytes → Bool) (rs : Records)
    → filter_by
        (λ e. elim (filter_decision (some keep_test) e.0 e.1) [ keep ↦ true | remove ↦ false ])
        rs
      ≡ filter_by (λ e. keep_test e.0 e.1) rs
unfolding filter_decision
kept_by keep_test [] = refl
kept_by keep_test ((k, v) ∷ rs) = ground (arith, kept_by keep_test rs)

compact_flushed_done :
    (r : Rocksdb) (flushed : DbResult Unit × r.Db) (should_keep : Bytes → Bytes → Bool)
    → flushed.0 ≡ done tt
    → compact_flushed r flushed should_keep
      ≡ (ok tt, r.compact_range_opt flushed.1 (filter_decision (some should_keep)))
unfolding compact_flushed
compact_flushed_done r (done u, db) should_keep h = refl
compact_flushed_done r (failed message, db) should_keep h = cc

module _ (r : Rocksdb) (laws : IsOrderedStore r) where
  pub flushed :
      (db : r.Db) (should_keep : Bytes → Bytes → Bool)
      → engine_compact_range r db should_keep
        ≡ (ok tt, r.compact_range_opt (r.flush db).1 (filter_decision (some should_keep)))
  unfolding engine_compact_range
  flushed db should_keep = compact_flushed_done r (r.flush db) should_keep (laws.flush_done db)

  -- The laws of a reliable engine, with the records of RocksDB as the contents.
  unfoldable pub rocks_laws : IsReliable (rocks_engine r)
  unfolding rocks_engine
  rocks_laws = record {
    contents = laws.contents;
    contents-IsSorted = laws.contents-IsSorted;
    get_lem = λ db k. rw (laws.get_lem db k);
    write_ok = λ db ops. rw (native_batch_lem ops, laws.write_done db ops);
    contents-write = λ db ops. rw (native_batch_lem ops) (laws.contents-write db ops);
    scan_prefix_lem = λ db p.
        rw (laws.iterator_lem db p)
          (prefix_scan-eq-with_prefix p (laws.contents db) (laws.contents-IsSorted db));
    compact_ok = λ db should_keep. ap (λ t. t.0) (flushed db should_keep);
    contents-compact = λ db should_keep.
        rw
          (
            flushed db should_keep,
            laws.contents-compact (r.flush db).1 (filter_decision (some should_keep))
                (laws.is_flushed-flush db),
            laws.contents-flush db,
          )
          (kept_by should_keep (laws.contents db));
  }

  -- Over RocksDB without failures, whose compaction is only known to apply the filter where no
  -- record is in memory only, the RocksDB engine keeps all the promises of a reliable engine:
  -- reads and scans show the records, a batch is applied whole, a compaction drops what the
  -- predicate gives up.
  pub rocks_engine-IsReliable : IsReliable (rocks_engine r)
  rocks_engine-IsReliable = rocks_laws
