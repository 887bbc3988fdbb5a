-- ===== src/Engine/Records.antt =====
-- What an engine holds, for its specification: records in the order of their keys, and the changes
-- that a batch makes to them.
pub mod Laws
use game_store.Prelude.{
  Bool, true, false, not, Option, none, some, List, [], ◌∷◌, ◌≡◌, if◌then◌else◌, All, filter_by,
}
use game_store.Bytes.{Bytes, ◌==ᵇ◌, bytes_lt, starts_with}
use game_store.Engine.Batch.{WriteOp, put, delete}

abbrev pub Records : Type 0
Records = List (Bytes × Bytes)

-- The keys ascend strictly.
abbrev pub IsSorted : Records → Type 0
IsSorted [] = Unit
IsSorted (r ∷ rs) = All (λ (s : Bytes × Bytes). bytes_lt r.0 s.0 ≡ true) rs × IsSorted rs

unfoldable pub lookup : Bytes → Records → Option Bytes
lookup k [] = none
lookup k ((j, v) ∷ rs) = if j ==ᵇ k then some v else lookup k rs

unfoldable pub insert : Bytes → Bytes → Records → Records
insert k v [] = (k, v) ∷ []
insert k v ((j, w) ∷ rs) =
    let rest = insert k v rs in
    if bytes_lt k j then (k, v) ∷ (j, w) ∷ rs else if j ==ᵇ k then (k, v) ∷ rs else (j, w) ∷ rest

unfoldable pub remove : Bytes → Records → Records
remove k rs = filter_by (λ r. not (r.0 ==ᵇ k)) rs

unfoldable pub apply_op : WriteOp → Records → Records
apply_op (put k v) rs = insert k v rs
apply_op (delete k) rs = remove k rs

-- A batch takes effect in the order in which it was queued.
unfoldable pub apply_batch : List WriteOp → Records → Records
apply_batch [] rs = rs
apply_batch (op ∷ ops) rs = apply_batch ops (apply_op op rs)

unfoldable pub with_prefix : Bytes → Records → Records
with_prefix p rs = filter_by (λ r. starts_with p r.0) rs
