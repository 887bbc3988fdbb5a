-- ===== src/Store/Compaction/Reclaim.antt =====
-- crates/gamestore-engine/src/store.rs and gc.rs: the records of a deleted or overwritten key, and
-- a compaction.
use game_store.Prelude.{ℕ, false, none, some, ◌≡◌, ap, ◌∙◌, arith, inl, inr, Bool-cases}
use game_store.Bytes.{Bytes}
use game_store.Bytes.Order.{==ᵇ_refl}
use game_store.Encoding.Keys.{parse_owner_version}
use game_store.Encoding.Meta.{Meta}
use game_store.Engine.Interface.{IsReliable}
use game_store.Engine.Records.{lookup}
use game_store.Gc
use game_store.Gc.{should_keep, VersionMap}
use game_store.Gc.Laws.{get-remove}
use game_store.Store.Base.{Host, Store}
use game_store.Store.Admin.{compact}
use game_store.Store.Strings.{del, set}
use game_store.Store.Strings.Laws.{del_lem, after_del, set_lem}
use game_store.Store.View.{IsConsistent, records, meta_at}
use game_store.Store.Load.{settled, expired}
use game_store.Store.Compaction.{lookup-compact}

unversioned_dropped :
    (vm : VersionMap) (raw k : Bytes) (v : ℕ)
    → parse_owner_version raw ≡ some (k, v)
    → Gc.get vm k ≡ none
    → should_keep vm raw ≡ false
unfolding should_keep
unversioned_dropped vm raw k v e n = rw (e, n, should_keep)

module _ ⦃h : Host⦄ (laws : IsReliable h.engine) where
  -- A key with no version keeps no versioned record.
  pub compact-reclaims :
      (k raw : Bytes) (v : ℕ) (s : Store h)
      → Gc.get s.versions k ≡ none
      → parse_owner_version raw ≡ some (k, v)
      → lookup raw (records laws (compact s).1) ≡ none
  compact-reclaims k raw v s gone owner =
      lookup-compact laws raw s ∙ ground (arith, unversioned_dropped s.versions raw k v owner gone)

  removed_version : (k : Bytes) (vm : VersionMap) → Gc.get (Gc.remove k vm) k ≡ none
  removed_version k vm = get-remove k k vm ∙ rw (==ᵇ_refl k)

  version-after_del :
      (k : Bytes) (m : Meta) (s : Store h)
      → Gc.get (after_del laws k (settled k (some m) s).0 (settled k (some m) s).1).versions k
        ≡ none
  version-after_del k m s = elim (Bool-cases (expired m s)) [
    | inl late ↦ rw late (removed_version k _)
    | inr live ↦ rw live (removed_version k _)
  ]

  -- After DEL of a key that has metadata, expired or not, and a compaction, a consistent store has
  -- no record whose parsed owner is that key.
  pub del-compact-reclaims :
      (k raw : Bytes) (v : ℕ) (s : Store h) (m : Meta)
      → IsConsistent laws s
      → meta_at laws k s ≡ some m
      → parse_owner_version raw ≡ some (k, v)
      → lookup raw (records laws (compact (del k s).1).1) ≡ none
  del-compact-reclaims k raw v s m c found owner =
      compact-reclaims k raw v (del k s).1
        (ap (λ r. Gc.get r.1.versions k) (del_lem laws k s c)
          ∙ ap (λ o. Gc.get (after_del laws k (settled k o s).0 (settled k o s).1).versions k) found
          ∙ version-after_del k m s)
        owner

  -- After SET of a key and a compaction, no record is left whose parsed owner is that key.
  pub set-compact-reclaims :
      (k raw value : Bytes) (v e : ℕ) (s : Store h)
      → parse_owner_version raw ≡ some (k, v)
      → lookup raw (records laws (compact (set k value e s).1).1) ≡ none
  set-compact-reclaims k raw value v e s owner =
      compact-reclaims k raw v (set k value e s).1
        (ap (λ r. Gc.get r.1.versions k) (set_lem laws k value e s) ∙ removed_version k s.versions)
        owner
