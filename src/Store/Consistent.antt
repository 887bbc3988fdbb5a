-- ===== src/Store/Consistent.antt =====
-- crates/gamestore-engine/src/store.rs: writes of metadata and of members, and the consistency of
-- a store.
use game_store.Prelude.{
  true, false, none, some, [], ◌∷◌, ◌≡◌, ◌≢◌, refl, sym, ◌∙◌, subst, if◌then◌else◌, arith, All,
  Bool-cases, inl, inr,
}
use game_store.Bytes.{Bytes, ◌==ᵇ◌}
use game_store.Bytes.Order.{eq_of_==ᵇ, ==ᵇ_refl, ==ᵇ_ne}
use game_store.Encoding.Keys.{meta_key}
use game_store.Encoding.Meta
use game_store.Encoding.Meta.{Meta}
use game_store.Encoding.Meta.RoundTrip.{IsEncodable, decode-encode}
use game_store.Engine.Batch.{WriteOp, WriteBatch, put, delete}
use game_store.Engine.Records.{Records, lookup, insert, remove, apply_op, apply_batch}
use game_store.Engine.Records.Laws.{lookup-insert, lookup-remove}
use game_store.Gc
use game_store.Gc.{VersionMap}
use game_store.Store.Base.{decode_record, is_composite}
use game_store.Store.View.{meta_in, IsConsistentAt, IsConsistentWith}

-- Two keys have the same metadata key only if they are equal.
pub meta_key-==ᵇ : (k j : Bytes) → (meta_key k ==ᵇ meta_key j) ≡ (k ==ᵇ j)
unfolding meta_key ◌==ᵇ◌
meta_key-==ᵇ k j = refl

module _ (k : Bytes) (rs : Records) where
  pub lookup-put_meta :
      (j raw : Bytes)
      → lookup (meta_key j) (insert (meta_key k) raw rs)
        ≡ (if k ==ᵇ j then some raw else lookup (meta_key j) rs)
  lookup-put_meta j raw = lookup-insert (meta_key k) (meta_key j) raw rs ∙ rw (meta_key-==ᵇ k j)

  pub lookup-delete_meta :
      (j : Bytes)
      → lookup (meta_key j) (remove (meta_key k) rs)
        ≡ (if k ==ᵇ j then none else lookup (meta_key j) rs)
  lookup-delete_meta j = lookup-remove (meta_key k) (meta_key j) rs ∙ rw (meta_key-==ᵇ k j)

-- The metadata after metadata was written at a key.
pub meta_in-put :
    (k j : Bytes) (m : Meta) (rs : Records)
    → IsEncodable m
    → meta_in j (insert (meta_key k) (Meta.encode m) rs)
      ≡ (if k ==ᵇ j then some m else meta_in j rs)
unfolding meta_in
meta_in-put k j m rs h = ground (arith, lookup-put_meta k rs j (Meta.encode m), decode-encode m h)

pub meta_in-delete :
    (k j : Bytes) (rs : Records)
    → meta_in j (remove (meta_key k) rs) ≡ (if k ==ᵇ j then none else meta_in j rs)
unfolding meta_in
meta_in-delete k j rs = ground (arith, lookup-delete_meta k rs j)

-- Consistency at a key depends on its metadata record and its version only.
pub IsConsistentAt-eq :
    (k : Bytes) (rs rs' : Records) (versions versions' : VersionMap)
    → lookup (meta_key k) rs' ≡ lookup (meta_key k) rs
    → Gc.get versions' k ≡ Gc.get versions k
    → IsConsistentAt k rs versions
    → IsConsistentAt k rs' versions'
IsConsistentAt-eq k rs rs' versions versions' e v c =
    let same : meta_in k rs' ≡ meta_in k rs = unfold meta_in in rw e in
    record {
      readable = rw (e, same) c.readable;
      encodable = λ m p. c.encodable m (sym same ∙ p);
      current = λ m p q. v ∙ c.current m (sym same ∙ p) q;
    }

module _ (k : Bytes) (rs : Records) (versions : VersionMap) where
  -- The store is consistent but for one key.
  abbrev pub IsConsistentElsewhere : Type 0
  IsConsistentElsewhere = (j : Bytes) → (k ==ᵇ j) ≡ false → IsConsistentAt j rs versions

  pub put-IsConsistent :
      (m : Meta)
      → IsEncodable m
      → (is_composite m.type_id ≡ true → Gc.get versions k ≡ some m.version)
      → IsConsistentElsewhere
      → IsConsistentWith (insert (meta_key k) (Meta.encode m) rs) versions
  put-IsConsistent m h v c j = elim (Bool-cases (k ==ᵇ j)) [
    | inl same ↦
        subst (λ i. IsConsistentAt i (insert (meta_key k) (Meta.encode m) rs) versions)
          (eq_of_==ᵇ k j same) at_key
    | inr other ↦
        IsConsistentAt-eq j rs _ versions versions
          (lookup-put_meta k rs j (Meta.encode m) ∙ rw other) refl (c j other)
  ]
    where
      stored : lookup (meta_key k) (insert (meta_key k) (Meta.encode m) rs) ≡ some (Meta.encode m)
      stored = lookup-put_meta k rs k (Meta.encode m) ∙ rw (==ᵇ_refl k)

      found : meta_in k (insert (meta_key k) (Meta.encode m) rs) ≡ some m
      found = meta_in-put k k m rs h ∙ rw (==ᵇ_refl k)

      only : (m' : Meta) → meta_in k (insert (meta_key k) (Meta.encode m) rs) ≡ some m' → m ≡ m'
      only m' p = cc found

      at_key : IsConsistentAt k (insert (meta_key k) (Meta.encode m) rs) versions
      at_key = record {
        readable = rw (stored, found) (unfold decode_record in ground (arith, decode-encode m h));
        encodable = λ m' p. subst IsEncodable (only m' p) h;
        current = λ m' p q.
            subst (λ x. is_composite x.type_id ≡ true → Gc.get versions k ≡ some x.version)
              (only m' p) v q;
      }

  pub delete-IsConsistent :
      IsConsistentElsewhere → IsConsistentWith (remove (meta_key k) rs) versions
  delete-IsConsistent c j = elim (Bool-cases (k ==ᵇ j)) [
    | inl same ↦
        subst (λ i. IsConsistentAt i (remove (meta_key k) rs) versions) (eq_of_==ᵇ k j same) at_key
    | inr other ↦
        IsConsistentAt-eq j rs _ versions versions (lookup-delete_meta k rs j ∙ rw other) refl
          (c j other)
  ]
    where
      stored : lookup (meta_key k) (remove (meta_key k) rs) ≡ none
      stored = lookup-delete_meta k rs k ∙ rw (==ᵇ_refl k)

      found : meta_in k (remove (meta_key k) rs) ≡ none
      found = meta_in-delete k k rs ∙ rw (==ᵇ_refl k)

      at_key : IsConsistentAt k (remove (meta_key k) rs) versions
      at_key = record {
        readable = rw (stored, found) (unfold decode_record in refl);
        encodable = λ m' p. absurd (cc found);
        current = λ m' p q. absurd (cc found);
      }

-- The key of an operation is no metadata key.
abbrev pub op_key : WriteOp → Bytes
op_key (put k v) = k
op_key (delete k) = k

abbrev pub IsMemberOp : WriteOp → Type 0
IsMemberOp op = (j : Bytes) → op_key op ≢ meta_key j

pub lookup_meta-members :
    (j : Bytes) (ops : WriteBatch) (rs : Records)
    → All IsMemberOp ops
    → lookup (meta_key j) (apply_batch ops rs) ≡ lookup (meta_key j) rs
unfolding apply_batch apply_op
lookup_meta-members j [] rs h = refl
lookup_meta-members j (put k v ∷ ops) rs h =
    lookup_meta-members j ops (insert k v rs) h.1
    ∙ lookup-insert k (meta_key j) v rs
    ∙ rw (==ᵇ_ne k (meta_key j) (h.0 j))
lookup_meta-members j (delete k ∷ ops) rs h =
    lookup_meta-members j ops (remove k rs) h.1
    ∙ lookup-remove k (meta_key j) rs
    ∙ rw (==ᵇ_ne k (meta_key j) (h.0 j))

-- Writing members changes no metadata.
pub members-IsConsistentAt :
    (j : Bytes) (ops : WriteBatch) (rs : Records) (versions : VersionMap)
    → All IsMemberOp ops
    → IsConsistentAt j rs versions
    → IsConsistentAt j (apply_batch ops rs) versions
members-IsConsistentAt j ops rs versions h c =
    IsConsistentAt-eq j rs _ versions versions (lookup_meta-members j ops rs h) refl c
