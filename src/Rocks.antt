-- ===== src/Rocks.antt =====
-- crates/gamestore-engine/src/rocks.rs: the RocksDB engine. RocksDB itself is a parameter.
pub mod Reliable
use game_store.Prelude.{
  Bool, true, false, not, Option, none, some, List, [], ◌∷◌, ◌≡◌, map, filter_by,
}
use game_store.Bytes.{Bytes, starts_with, bytes_lt}
use game_store.Engine.Error.{Result, ok, err, backend, ◌>>=◌}
use game_store.Engine.Batch.{WriteOp, WriteBatch, put, delete}
use game_store.Engine.Interface.{GeneralEngine}
use game_store.Engine.Records.{Records, IsSorted, lookup, apply_batch}

-- What a call of RocksDB returns: a value, or an error with its message.
pub data DbResult {ℓ} (A : Type ℓ) : Type ℓ where
  done : A → DbResult A
  failed : Bytes → DbResult A

pub data Decision : Type 0 where
  keep remove : Decision

pub record Rocksdb : Type 1 where
  pub Db : Type 0
  pub get : Db → Bytes → DbResult (Option Bytes)
  pub write : Db → List WriteOp → DbResult (Unit {0}) × Db
  -- an iterator from the given key on, forward
  pub iterator : Db → Bytes → List (DbResult (Bytes × Bytes))
  pub flush : Db → DbResult (Unit {0}) × Db
  -- a compaction of the whole key space with the filter
  pub compact_range_opt : Db → (Bytes → Bytes → Decision) → Db

-- `From<rocksdb::Error>`
unfoldable pub map_err {ℓ} : {A : Type ℓ} → DbResult A → Result A
map_err (done a) = ok a
map_err (failed message) = err (backend message)

-- The compaction filter: a trampoline to the predicate in the slot.
unfoldable pub filter_decision : Option (Bytes → Bytes → Bool) → Bytes → Bytes → Decision
filter_decision none key value = keep
filter_decision (some should_keep) key value = elim (should_keep key value) [
  | true ↦ keep
  | false ↦ remove
]

-- The native batch has the operations of the given one, in its order.
unfoldable pub native_batch : WriteBatch → List WriteOp
native_batch [] = []
native_batch (put k v ∷ ops) = put k v ∷ native_batch ops
native_batch (delete k ∷ ops) = delete k ∷ native_batch ops

-- `PrefixScan`: the scan ends at the first key without the prefix, and after an error.
unfoldable pub prefix_scan : Bytes → List (DbResult (Bytes × Bytes)) → List (Result (Bytes × Bytes))
prefix_scan prefix [] = []
prefix_scan prefix (done (k, v) ∷ iter) =
    let rest = prefix_scan prefix iter in
    elim (starts_with prefix k) [ true ↦ ok (k, v) ∷ rest | false ↦ [] ]
prefix_scan prefix (failed message ∷ iter) = err (backend message) ∷ []

module _ (r : Rocksdb) where
  engine_get : r.Db → Bytes → Result (Option Bytes)
  engine_get db key = map_err (r.get db key)

  engine_write : r.Db → WriteBatch → Result (Unit {0}) × r.Db
  engine_write db batch =
      let (result, db') = r.write db (native_batch batch) in (map_err result, db')

  engine_scan_prefix : r.Db → Bytes → List (Result (Bytes × Bytes))
  engine_scan_prefix db prefix = prefix_scan prefix (r.iterator db prefix)

  compact_flushed : DbResult (Unit {0}) × r.Db → (Bytes → Bytes → Bool) → Result (Unit {0}) × r.Db
  compact_flushed (done flushed, db) should_keep =
      (ok tt, r.compact_range_opt db (filter_decision (some should_keep)))
  compact_flushed (failed message, db) should_keep = (err (backend message), db)

  pub engine_compact_range : r.Db → (Bytes → Bytes → Bool) → Result (Unit {0}) × r.Db
  engine_compact_range db should_keep = compact_flushed (r.flush db) should_keep

  -- `impl GeneralEngine for RocksEngine`, with the predicate of the slot handed to a compaction:
  -- `install_gc` fills the slot and leaves the database.
  unfoldable pub rocks_engine : GeneralEngine
  unfolding engine_get engine_write engine_scan_prefix engine_compact_range compact_flushed map_err
  rocks_engine = record {
    Opened = r.Db;
    State = r.Db;
    install_gc = λ db. db;
    get = engine_get;
    write = engine_write;
    scan_prefix = engine_scan_prefix;
    compact_range = engine_compact_range;
  }

-- Of RocksDB without failures: it holds sorted records, a batch is atomic, an iterator yields the
-- records from its key on in order, a flush changes no record and leaves none in memory only, and
-- then a compaction removes the records that the filter removes. Of a compaction while records
-- are in memory only, nothing is said.
pub record IsOrderedStore (r : Rocksdb) : Type 0 where
  pub contents : r.Db → Records
  pub contents-IsSorted : (db : r.Db) → IsSorted (contents db)
  pub get_lem : (db : r.Db) (k : Bytes) → r.get db k ≡ done (lookup k (contents db))
  pub write_done : (db : r.Db) (ops : List WriteOp) → (r.write db ops).0 ≡ done tt
  pub contents-write :
      (db : r.Db) (ops : List WriteOp) → contents (r.write db ops).1 ≡ apply_batch ops (contents db)
  pub iterator_lem :
      (db : r.Db) (from : Bytes)
      → r.iterator db from ≡ map done (filter_by (λ e. not (bytes_lt e.0 from)) (contents db))
  -- no record is in memory only
  pub is_flushed : r.Db → Bool
  pub flush_done : (db : r.Db) → (r.flush db).0 ≡ done tt
  pub contents-flush : (db : r.Db) → contents (r.flush db).1 ≡ contents db
  pub is_flushed-flush : (db : r.Db) → is_flushed (r.flush db).1 ≡ true
  pub contents-compact :
      (db : r.Db) (f : Bytes → Bytes → Decision)
      → is_flushed db ≡ true
      → contents (r.compact_range_opt db f)
        ≡ filter_by (λ e. elim (f e.0 e.1) [ keep ↦ true | remove ↦ false ]) (contents db)
