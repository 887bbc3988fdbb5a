-- ===== src/Engine/Interface.antt =====
-- crates/gamestore-engine/src/engine.rs: the trait `GeneralEngine`, and what a backend promises
-- while it reports no failure.
use game_store.Prelude.{Bool, Option, List, ◌≡◌, map, filter_by}
use game_store.Bytes.{Bytes}
use game_store.Engine.Error.{Result, ok}
use game_store.Engine.Batch.{WriteOp}
use game_store.Engine.Records.{Records, IsSorted, lookup, apply_batch, with_prefix}

-- An engine as it was opened becomes by `install_gc` one that holds the predicate of a store. What
-- the predicate is at a compaction, `compact_range` of the whole key space is handed: the store and
-- the engine share its version map.
pub record GeneralEngine : Type 1 where
  pub Opened : Type 0
  pub State : Type 0
  pub install_gc : Opened → State
  pub get : State → Bytes → Result (Option Bytes)
  pub write : State → List WriteOp → Result (Unit {0}) × State
  pub scan_prefix : State → Bytes → List (Result (Bytes × Bytes))
  pub compact_range : State → (Bytes → Bytes → Bool) → Result (Unit {0}) × State

-- An engine with no failing backend: its state stands for sorted records, a batch is applied whole,
-- a scan yields the records with the prefix in key order, and a compaction drops the records
-- that the predicate gives up.
pub record IsReliable (g : GeneralEngine) : Type 0 where
  pub contents : g.State → Records
  pub contents-IsSorted : (s : g.State) → IsSorted (contents s)
  pub get_lem : (s : g.State) (k : Bytes) → g.get s k ≡ ok (lookup k (contents s))
  pub write_ok : (s : g.State) (ops : List WriteOp) → (g.write s ops).0 ≡ ok tt
  pub contents-write :
      (s : g.State) (ops : List WriteOp) → contents (g.write s ops).1 ≡ apply_batch ops (contents s)
  pub scan_prefix_lem :
      (s : g.State) (p : Bytes) → g.scan_prefix s p ≡ map ok (with_prefix p (contents s))
  pub compact_ok : (s : g.State) (keep : Bytes → Bytes → Bool) → (g.compact_range s keep).0 ≡ ok tt
  pub contents-compact :
      (s : g.State) (keep : Bytes → Bytes → Bool)
      → contents (g.compact_range s keep).1 ≡ filter_by (λ r. keep r.0 r.1) (contents s)
