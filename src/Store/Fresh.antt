-- ===== src/Store/Fresh.antt =====
-- crates/gamestore-engine/src/store.rs: new versions, and the metadata that a write to a counted
-- type works on.
use game_store.Prelude.{
  ℕ, ◌+◌, ◌%◌, ◌^◌, ◌<◌, ◌≤◌, max, true, Option, none, some, [], ◌≡◌, refl, ◌∙◌, arith,
}
use game_store.Bytes.{Bytes}
use game_store.Bytes.Order.{==ᵇ_refl}
use game_store.Encoding.Keys.{subkey}
use game_store.Encoding.Meta.{Meta, set_field_count}
use game_store.Encoding.Meta.RoundTrip.{IsEncodable}
use game_store.Engine.Error.{ok}
use game_store.Engine.Interface.{IsReliable}
use game_store.Engine.Records.{lookup}
use game_store.Gc
use game_store.Gc.Laws.{get-set}
use game_store.Store.Base.{Host, Store, new_composite_meta, is_composite}
use game_store.Store.Hash.{counted_meta}
use game_store.Store.View.{IsConsistent, records, meta_at}
use game_store.Store.Consistent.{IsConsistentAt-eq, IsConsistentElsewhere}

module _ ⦃h : Host⦄ where
  -- The version that is handed out next.
  abbrev pub fresh_version : Store h → ℕ
  fresh_version s = max ((s.version_clock + 1) % 2 ^ 64) (h.wall s.readings % 2 ^ 64)

  -- The store after the next version was registered for a key.
  abbrev pub registered : Bytes → Store h → Store h
  registered k s = record s {
    versions = Gc.set k (fresh_version s) s.versions;
    version_clock = fresh_version s;
    readings = s.readings + 1;
  }

  abbrev pub new_meta : ℕ → Store h → Meta
  new_meta t s = record { type_id = t; version = fresh_version s; expire_ms = 0; payload = [] }

  pub new_composite_meta_lem :
      (k : Bytes) (t : ℕ) (s : Store h)
      → new_composite_meta k t s ≡ (ok (new_meta t s), registered k s)
  unfolding new_composite_meta
  new_composite_meta_lem k t s = refl

  -- The metadata that a write to a counted type works on, and the store that it finds.
  unfoldable pub counted : Bytes → ℕ → Option Meta → Store h → Meta × Store h
  counted k t (some m) s = (m, s)
  counted k t none s = (set_field_count (new_meta t s) 0, registered k s)

  pub counted_meta_lem :
      (k : Bytes) (t : ℕ) (o : Option Meta) (s : Store h)
      → counted_meta k t o s ≡ (ok (counted k t o s).0, (counted k t o s).1)
  unfolding counted_meta counted
  counted_meta_lem k t (some m) s = refl
  counted_meta_lem k t none s = refl

  pub fresh_version-lt : (s : Store h) → fresh_version s < 2 ^ 64
  fresh_version-lt s = omega arith

  -- While the counter has not reached its end, the next version is above it.
  pub fresh_version-above :
      (s : Store h) → s.version_clock + 1 < 2 ^ 64 → s.version_clock < fresh_version s
  fresh_version-above s room = omega arith

module _ ⦃h : Host⦄ (laws : IsReliable h.engine) where
  -- No version in the store is above the counter.
  pub record IsFresh (s : Store h) : Type 0 where
    pub metas : (k : Bytes) (m : Meta) → meta_at laws k s ≡ some m → m.version ≤ s.version_clock
    pub members :
        (k : Bytes) (version : ℕ) (f : Bytes)
        → version < 2 ^ 64
        → s.version_clock < version
        → lookup (subkey k version f) (records laws s) ≡ none

  registered-IsConsistentElsewhere :
      (k : Bytes) (s : Store h)
      → IsConsistent laws s
      → IsConsistentElsewhere k (records laws s) (registered k s).versions
  registered-IsConsistentElsewhere k s c j other =
      IsConsistentAt-eq j (records laws s) (records laws s) s.versions _ refl
        (get-set k j (fresh_version s) s.versions ∙ rw other) (c j)

  -- What a write to a counted type may rely on.
  pub record IsWritable (k : Bytes) (t : ℕ) (s : Store h) (m : Meta) (s' : Store h) : Type 0 where
    pub same_records : records laws s' ≡ records laws s
    pub encodable : IsEncodable m
    pub type_id : m.type_id ≡ t
    pub current : Gc.get s'.versions k ≡ some m.version
    pub elsewhere : IsConsistentElsewhere k (records laws s') s'.versions

  pub counted-IsWritable :
      (k : Bytes) (t : ℕ) (o : Option Meta) (s : Store h)
      → IsConsistent laws s
      → meta_at laws k s ≡ o
      → ((m : Meta) → o ≡ some m → (m.type_id ≡ t) × (is_composite m.type_id ≡ true))
      → IsWritable k t s (counted k t o s).0 (counted k t o s).1
  unfolding counted
  counted-IsWritable k t (some m) s c e typed = record {
    same_records = refl;
    encodable = (c k).encodable m e;
    type_id = (typed m refl).0;
    current = (c k).current m e (typed m refl).1;
    elsewhere = λ j other. c j;
  }
  counted-IsWritable k t none s c e typed = record {
    same_records = refl;
    encodable =
        unfold set_field_count in record { version = fresh_version-lt s; expire_ms = omega arith };
    type_id = unfold set_field_count in refl;
    current = get-set k k (fresh_version s) s.versions ∙ unfold set_field_count in rw (==ᵇ_refl k);
    elsewhere = registered-IsConsistentElsewhere k s c;
  }
