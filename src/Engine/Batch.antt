-- ===== src/Engine/Batch.antt =====
-- crates/gamestore-engine/src/engine.rs: batches of writes.
use game_store.Prelude.{Bool, List, [], ◌∷◌, ◌++◌, length, ◌==◌}
use game_store.Bytes.{Bytes}

pub data WriteOp : Type 0 where
  put : Bytes → Bytes → WriteOp
  delete : Bytes → WriteOp

-- The queued operations, oldest first.
abbrev pub WriteBatch : Type 0
WriteBatch = List WriteOp

abbrev pub new : WriteBatch
new = []

-- `WriteBatch::put` and `WriteBatch::delete`
abbrev pub push_put : WriteBatch → Bytes → Bytes → WriteBatch
push_put batch key value = batch ++ put key value ∷ []

abbrev pub push_delete : WriteBatch → Bytes → WriteBatch
push_delete batch key = batch ++ delete key ∷ []

abbrev pub is_empty : WriteBatch → Bool
is_empty batch = length batch == 0
