-- ===== src/Engine/Records/Laws.antt =====
-- Lemmas on the records of an engine: lookups after changes, and the order of the keys.
use game_store.Prelude.{
  Bool, true, not, Option, none, some, List, [], ◌∷◌, ◌≡◌, refl, subst, ◌++◌, if◌then◌else◌, All,
  filter_by, arith, Bool-cases, inl, inr,
}
use game_store.Bytes.{Bytes, ◌==ᵇ◌, bytes_lt}
use game_store.Bytes.Order.{
  eq_of_==ᵇ, ==ᵇ_refl, bytes_lt_irrefl, bytes_lt_trans, bytes_lt_trichotomy,
}
use game_store.Engine.Batch.{WriteOp, put, delete}
use game_store.Engine.Records.{Records, IsSorted, lookup, insert, remove, apply_op, apply_batch}

pub lookup-insert :
    (k j v : Bytes) (rs : Records)
    → lookup j (insert k v rs) ≡ (if k ==ᵇ j then some v else lookup j rs)
unfolding lookup insert
lookup-insert k j v [] = refl
lookup-insert k j v ((i, w) ∷ rs) = ground (
  arith,
  lookup-insert k j v rs,
  eq_of_==ᵇ k j,
  eq_of_==ᵇ i k,
  eq_of_==ᵇ i j,
  ==ᵇ_refl k,
  ==ᵇ_refl j,
)

pub lookup-remove :
    (k j : Bytes) (rs : Records) → lookup j (remove k rs) ≡ (if k ==ᵇ j then none else lookup j rs)
unfolding lookup remove
lookup-remove k j [] = ground arith
lookup-remove k j ((i, w) ∷ rs) =
    ground (arith, lookup-remove k j rs, eq_of_==ᵇ k j, eq_of_==ᵇ i k, eq_of_==ᵇ i j, ==ᵇ_refl j)

All-filter_by :
    (P : Bytes × Bytes → Type 0) (p : Bytes × Bytes → Bool) (rs : Records)
    → All P rs
    → All P (filter_by p rs)
All-filter_by P p [] h = tt
All-filter_by P p (r ∷ rs) h = ground (arith, All-filter_by P p rs h.1)

-- A filter keeps the order.
pub filter_by-IsSorted :
    (p : Bytes × Bytes → Bool) (rs : Records) → IsSorted rs → IsSorted (filter_by p rs)
filter_by-IsSorted p [] h = tt
filter_by-IsSorted p (r ∷ rs) h = ground (
  arith,
  filter_by-IsSorted p rs h.1,
  All-filter_by (λ (s : Bytes × Bytes). bytes_lt r.0 s.0 ≡ true) p rs h.0,
)

All-insert :
    (P : Bytes × Bytes → Type 0) (k v : Bytes) (rs : Records)
    → P (k, v)
    → All P rs
    → All P (insert k v rs)
unfolding insert
All-insert P k v [] h hs = (h, tt)
All-insert P k v ((j, w) ∷ rs) h hs = ground (arith, All-insert P k v rs h hs.1)

abbrev Above : Bytes → Bytes × Bytes → Type 0
Above k s = bytes_lt k s.0 ≡ true

All-Above : (k j : Bytes) (rs : Records) → bytes_lt k j ≡ true → All (Above j) rs → All (Above k) rs
All-Above k j [] h hs = tt
All-Above k j (r ∷ rs) h hs = (bytes_lt_trans k j r.0 h hs.0, All-Above k j rs h hs.1)

pub insert-IsSorted : (k v : Bytes) (rs : Records) → IsSorted rs → IsSorted (insert k v rs)
unfolding insert
insert-IsSorted k v [] h = (tt, tt)
insert-IsSorted k v ((j, w) ∷ rs) h = elim (Bool-cases (bytes_lt k j)) [
  | inl below ↦ rw below ((below, All-Above k j rs below h.0), h)
  | inr above ↦ elim (Bool-cases (j ==ᵇ k)) [
    | inl same ↦ rw (above, same) (subst (λ i. All (Above i) rs) (eq_of_==ᵇ j k same) h.0, h.1)
    | inr other ↦
        rw (above, other)
          (
            All-insert (Above j) k v rs (ground (arith, bytes_lt_trichotomy j k, ==ᵇ_refl j)) h.0,
            insert-IsSorted k v rs h.1,
          )
  ]
]

pub remove-IsSorted : (k : Bytes) (rs : Records) → IsSorted rs → IsSorted (remove k rs)
unfolding remove
remove-IsSorted k rs h = filter_by-IsSorted (λ r. not (r.0 ==ᵇ k)) rs h

apply_op-IsSorted : (op : WriteOp) (rs : Records) → IsSorted rs → IsSorted (apply_op op rs)
unfolding apply_op
apply_op-IsSorted (put k v) rs h = insert-IsSorted k v rs h
apply_op-IsSorted (delete k) rs h = remove-IsSorted k rs h

-- A batch keeps the order.
pub apply_batch-IsSorted :
    (ops : List WriteOp) (rs : Records) → IsSorted rs → IsSorted (apply_batch ops rs)
unfolding apply_batch
apply_batch-IsSorted [] rs h = h
apply_batch-IsSorted (op ∷ ops) rs h =
    apply_batch-IsSorted ops (apply_op op rs) (apply_op-IsSorted op rs h)

pub lookup-Above : (k : Bytes) (rs : Records) → All (Above k) rs → lookup k rs ≡ none
unfolding lookup
lookup-Above k [] h = refl
lookup-Above k ((j, w) ∷ rs) h =
    ground (arith, lookup-Above k rs h.1, eq_of_==ᵇ j k, bytes_lt_irrefl k)

-- The value, if the test accepts it.
abbrev pub kept : (Bytes × Bytes → Bool) → Bytes → Option Bytes → Option Bytes
kept p k none = none
kept p k (some v) = if p (k, v) then some v else none

pub lookup-filter_by :
    (p : Bytes × Bytes → Bool) (k : Bytes) (rs : Records)
    → IsSorted rs
    → lookup k (filter_by p rs) ≡ kept p k (lookup k rs)
unfolding lookup
lookup-filter_by p k [] h = refl
lookup-filter_by p k ((j, w) ∷ rs) h = ground (
  arith,
  lookup-filter_by p k rs h.1,
  lookup-Above j (filter_by p rs) (All-filter_by (Above j) p rs h.0),
  eq_of_==ᵇ j k,
  ==ᵇ_refl k,
)

-- Of a batch with one more operation at its end.
pub apply_batch-snoc :
    (ops : List WriteOp) (op : WriteOp) (rs : Records)
    → apply_batch (ops ++ op ∷ []) rs ≡ apply_op op (apply_batch ops rs)
unfolding apply_batch
apply_batch-snoc [] op rs = refl
apply_batch-snoc (o ∷ ops) op rs = apply_batch-snoc ops op (apply_op o rs)
