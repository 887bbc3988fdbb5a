-- ===== src/Store/Load.antt =====
-- crates/gamestore-engine/src/store.rs: load_live_meta, with its lazy expiry.
use game_store.Prelude.{
  ℕ, ◌+◌, ◌/◌, ◌%◌, ◌^◌, Bool, true, false, Option, none, some, [], ◌∷◌, ◌≡◌, ◌≢◌, refl, sym, ap,
  ◌∙◌, subst, if◌then◌else◌, arith, Bool-cases, inl, inr, ◌==◌, leb,
}
use game_store.Bytes.{Bytes}
use game_store.Bytes.Order.{==ᵇ_refl, ==ᵇ_ne}
use game_store.Encoding.Keys.{meta_key}
use game_store.Encoding.Meta.{Meta, type_hash}
use game_store.Engine.Error.{ok}
use game_store.Engine.Batch.{delete}
use game_store.Engine.Interface.{IsReliable}
use game_store.Engine.Records.{lookup, remove, apply_op, apply_batch}
use game_store.Engine.Records.Laws.{lookup-remove}
use game_store.Gc
use game_store.Gc.Laws.{get-remove}
use game_store.Store.Base.{
  Host, Store, load_meta, load_live_meta, drop_expired, is_expired, logical_delete, load_typed,
  typed, is_composite,
}
use game_store.Store.View.{
  IsConsistentWith, IsConsistent, records, meta_at, written, records-written,
}
use game_store.Store.Consistent.{meta_in-delete, delete-IsConsistent, IsConsistentAt-eq}

pub typed_type : (t : ℕ) (o : Option Meta) (m : Meta) → typed t o ≡ ok (some m) → m.type_id ≡ t
unfolding typed
typed_type t none m e = cc
typed_type t (some n) m e = ground arith

pub hash-is_composite : (m : Meta) → m.type_id ≡ type_hash → is_composite m.type_id ≡ true
unfolding is_composite
hash-is_composite m e = ground arith

pub typed_same : (t : ℕ) (m : Meta) → m.type_id ≡ t → typed t (some m) ≡ ok (some m)
unfolding typed
typed_same t m e = ground arith

pub typed-ok : (t : ℕ) (r o : Option Meta) → typed t r ≡ ok o → r ≡ o
unfolding typed
typed-ok t none o e = ground arith
typed-ok t (some n) o e = ground arith

module _ ⦃h : Host⦄ where
  -- Whether the metadata has expired by the next reading of the clock, which is made only if it
  -- has an expiry.
  abbrev pub expired : Meta → Store h → Bool
  expired m s =
      if m.expire_ms == 0 then false else leb m.expire_ms (h.wall s.readings / 1000 % 2 ^ 64)

  abbrev pub ticked : Meta → Store h → Store h
  ticked m s = if m.expire_ms == 0 then s else record s { readings = s.readings + 1 }

  -- The store without the metadata and the version of a key.
  abbrev pub deleted : Bytes → Store h → Store h
  deleted k s = record (written (delete (meta_key k) ∷ []) s) { versions = Gc.remove k s.versions }

  -- What a load finds of given metadata, and the store that it leaves.
  abbrev pub settled : Bytes → Option Meta → Store h → Option Meta × Store h
  settled k none s = (none, s)
  settled k (some m) s =
      if expired m s then (none, deleted k (ticked m s)) else (some m, ticked m s)

  is_expired_lem : (m : Meta) (s : Store h) → is_expired m s ≡ (ok (expired m s), ticked m s)
  unfolding is_expired
  is_expired_lem m s = ground arith

module _ ⦃h : Host⦄ (laws : IsReliable h.engine) where
  pub logical_delete_lem : (k : Bytes) (s : Store h) → logical_delete k s ≡ (ok tt, deleted k s)
  unfolding logical_delete
  logical_delete_lem k s = rw (laws.write_ok s.engine (delete (meta_key k) ∷ []))

  drop_expired_lem :
      (k : Bytes) (o : Option Meta) (s : Store h)
      → drop_expired k o s ≡ (ok (settled k o s).0, (settled k o s).1)
  unfolding drop_expired
  drop_expired_lem k none s = refl
  drop_expired_lem k (some m) s = rw (is_expired_lem m s) (elim (Bool-cases (expired m s)) [
    | inl late ↦ rw (late, logical_delete_lem k (ticked m s))
    | inr live ↦ rw live
  ])

  -- A load of a consistent store's key finds the stored metadata unless it has expired; then the
  -- metadata and the version of the key are gone.
  pub load_live_meta_lem :
      (k : Bytes) (s : Store h)
      → IsConsistent laws s
      → load_live_meta k s
        ≡ (ok (settled k (meta_at laws k s) s).0, (settled k (meta_at laws k s) s).1)
  unfolding load_live_meta load_meta
  load_live_meta_lem k s c =
      rw (laws.get_lem s.engine (meta_key k), (c k).readable)
        (drop_expired_lem k (meta_at laws k s) s)

  pub records-deleted :
      (k : Bytes) (s : Store h) → records laws (deleted k s) ≡ remove (meta_key k) (records laws s)
  unfolding apply_batch apply_op
  records-deleted k s = records-written laws (delete (meta_key k) ∷ []) s

  -- Deleting a key keeps the store consistent.
  pub deleted-IsConsistent :
      (k : Bytes) (s : Store h) → IsConsistent laws s → IsConsistent laws (deleted k s)
  deleted-IsConsistent k s c =
      subst (λ rs. IsConsistentWith rs (Gc.remove k s.versions)) (sym (records-deleted k s))
        (delete-IsConsistent k (records laws s) (Gc.remove k s.versions) λ j other.
          IsConsistentAt-eq j _ (records laws s) s.versions (Gc.remove k s.versions) refl
            (get-remove k j s.versions ∙ rw other) (c j))

  -- What a load leaves.
  pub record Settles (k : Bytes) (s : Store h) (r : Option Meta × Store h) : Type 0 where
    pub found : meta_at laws k r.1 ≡ r.0
    pub consistent : IsConsistent laws r.1
    pub kept :
        (raw : Bytes)
        → meta_key k ≢ raw
        → lookup raw (records laws r.1) ≡ lookup raw (records laws s)

  ticked-Settles :
      (k : Bytes) (m : Meta) (s : Store h)
      → IsConsistent laws s
      → meta_at laws k s ≡ some m
      → Settles k s (some m, ticked m s)
  ticked-Settles k m s c e = elim (Bool-cases (m.expire_ms == 0)) [
    | inl never ↦ rw never (record { found = e; consistent = c; kept = λ raw ne. refl })
    | inr limited ↦ rw limited (record { found = e; consistent = c; kept = λ raw ne. refl })
  ]

  deleted-Settles :
      (k : Bytes) (s : Store h) → IsConsistent laws s → Settles k s (none, deleted k s)
  deleted-Settles k s c = record {
    found = rw (records-deleted k s, meta_in-delete k k (records laws s), ==ᵇ_refl k);
    consistent = deleted-IsConsistent k s c;
    kept = λ raw ne.
        rw (records-deleted k s, lookup-remove (meta_key k) raw (records laws s))
          (rw (==ᵇ_ne (meta_key k) raw ne));
  }

  ticked-IsConsistent :
      (m : Meta) (s : Store h) → IsConsistent laws s → IsConsistent laws (ticked m s)
  ticked-IsConsistent m s c = elim (Bool-cases (m.expire_ms == 0)) [
    | inl never ↦ rw never c
    | inr limited ↦ rw limited c
  ]

  records-ticked : (m : Meta) (s : Store h) → records laws (ticked m s) ≡ records laws s
  records-ticked m s = ground arith

  settled-Settles :
      (k : Bytes) (o : Option Meta) (s : Store h)
      → IsConsistent laws s
      → meta_at laws k s ≡ o
      → Settles k s (settled k o s)
  settled-Settles k none s c e = record { found = e; consistent = c; kept = λ raw ne. refl }
  settled-Settles k (some m) s c e = elim (Bool-cases (expired m s)) [
    | inl late ↦ rw late (record {
      found = (deleted-Settles k (ticked m s) (ticked-IsConsistent m s c)).found;
      consistent = (deleted-Settles k (ticked m s) (ticked-IsConsistent m s c)).consistent;
      kept = λ raw ne.
          (deleted-Settles k (ticked m s) (ticked-IsConsistent m s c)).kept raw ne
          ∙ ap (lookup raw) (records-ticked m s);
    })
    | inr live ↦ rw live (ticked-Settles k m s c e)
  ]

  -- The store after the key was loaded.
  abbrev pub loaded : Bytes → Store h → Store h
  loaded k s = (settled k (meta_at laws k s) s).1

module _ ⦃h : Host⦄ (laws : IsReliable h.engine) (k : Bytes) (s : Store h)
    (c : IsConsistent laws s) where
  pub loaded-Settles : Settles laws k s (settled k (meta_at laws k s) s)
  loaded-Settles = settled-Settles laws k (meta_at laws k s) s c refl

  -- A load returns the metadata that is stored after it.
  pub load_live_meta-loaded :
      load_live_meta k s ≡ (ok (meta_at laws k (loaded laws k s)), loaded laws k s)
  load_live_meta-loaded = load_live_meta_lem laws k s c ∙ rw (loaded-Settles.found)

  pub load_typed-loaded :
      (t : ℕ) → load_typed k t s ≡ (typed t (meta_at laws k (loaded laws k s)), loaded laws k s)
  unfolding load_typed
  load_typed-loaded t = rw load_live_meta-loaded

module _ ⦃h : Host⦄ (laws : IsReliable h.engine) (k : Bytes) (s : Store h) where
  -- The metadata that a load finds.
  abbrev pub live_meta : Option Meta
  live_meta = (settled k (meta_at laws k s) s).0

  settled-some :
      (o : Option Meta) (m : Meta)
      → (settled k o s).0 ≡ some m
      → (o ≡ some m) × (records laws (settled k o s).1 ≡ records laws s)
  settled-some none m e = cc
  settled-some (some n) m e = ground (arith, records-ticked laws n s)

  -- What is live is what is stored, and finding it changes no record.
  pub live_meta_stored :
      (m : Meta)
      → live_meta ≡ some m
      → (meta_at laws k s ≡ some m) × (records laws (loaded laws k s) ≡ records laws s)
  live_meta_stored m e = settled-some (meta_at laws k s) m e
