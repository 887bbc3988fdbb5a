-- ===== src/Reference.antt =====
-- A database in memory in the place of RocksDB: the sorted records, and whether they are flushed. The tests run on
-- it.
use game_store.Prelude.{
  ◌+◌, ◌*◌, Bool, true, false, not, if◌then◌else◌, List, [], ◌≡◌, refl, map, filter_by,
}
use game_store.Bytes.{Bytes, bytes_lt}
use game_store.Engine.Batch.{WriteOp}
use game_store.Engine.Interface.{IsReliable}
use game_store.Engine.Records.{Records, IsSorted, lookup, apply_batch}
use game_store.Engine.Records.Laws.{apply_batch-IsSorted, filter_by-IsSorted}
use game_store.Rocks.{done, Decision, keep, remove, Rocksdb, IsOrderedStore, rocks_engine}
use game_store.Rocks.Reliable.{rocks_laws}
use game_store.Store.Base.{Host, Store}
use game_store.Store.View.{records}
use game_store.Gc

pub record Table : Type 0 where
  pub rows : Records
  -- whether no row is in memory only
  pub is_flushed : Bool
  pub sorted : IsSorted rows

abbrev pub kept_rows : (Bytes → Bytes → Decision) → Bytes × Bytes → Bool
kept_rows f e = elim (f e.0 e.1) [ keep ↦ true | remove ↦ false ]

abbrev pub filtered_table : Table → (Bytes → Bytes → Decision) → Table
filtered_table t f = record {
  rows = filter_by (kept_rows f) t.rows;
  is_flushed = true;
  sorted = filter_by-IsSorted (kept_rows f) t.rows t.sorted;
}

-- A compaction of a table that is not flushed does nothing.
abbrev pub compacted_table : Table → (Bytes → Bytes → Decision) → Table
compacted_table t f = if t.is_flushed then filtered_table t f else t

abbrev pub written_table : Table → List WriteOp → Table
written_table t ops = record {
  rows = apply_batch ops t.rows;
  is_flushed = false;
  sorted = apply_batch-IsSorted ops t.rows t.sorted;
}

abbrev pub memory : Rocksdb
memory = record {
  Db = Table;
  get = λ t k. done (lookup k t.rows);
  write = λ t ops. (done tt, written_table t ops);
  iterator = λ t from. map done (filter_by (λ e. not (bytes_lt e.0 from)) t.rows);
  flush = λ t. (done tt, record t { is_flushed = true });
  compact_range_opt = compacted_table;
}

unfoldable pub memory-IsOrderedStore : IsOrderedStore memory
memory-IsOrderedStore = record {
  contents = λ t. t.rows;
  contents-IsSorted = λ t. t.sorted;
  get_lem = λ t k. refl;
  write_done = λ t ops. refl;
  contents-write = λ t ops. refl;
  iterator_lem = λ t from. refl;
  flush_done = λ t. refl;
  contents-flush = λ t. refl;
  is_flushed = λ t. t.is_flushed;
  is_flushed-flush = λ t. refl;
  contents-compact = λ t f e. rw e refl;
}

-- A host whose clock moves one millisecond at each reading.
instance abbrev pub memory_host : Host
memory_host = record { engine = rocks_engine memory; wall = λ n. (1000 + n) * 1000 }

abbrev pub memory_laws : IsReliable (rocks_engine memory)
memory_laws = rocks_laws memory memory-IsOrderedStore

abbrev pub empty_table : Table
empty_table = record { rows = []; is_flushed = true; sorted = tt }

-- A store that holds nothing.
unfoldable pub empty_store : Store memory_host
unfolding rocks_engine
empty_store = record { engine = empty_table; versions = Gc.new; version_clock = 0; readings = 0 }

pub empty_records : records memory_laws empty_store ≡ []
unfolding rocks_laws memory-IsOrderedStore empty_store
empty_records = refl
