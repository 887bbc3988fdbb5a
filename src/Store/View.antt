-- ===== src/Store/View.antt =====
-- crates/gamestore-engine/src/store.rs: what a store holds, over a reliable engine: its records,
-- and the metadata that is stored at a key.
use game_store.Prelude.{true, Option, none, some, ◌≡◌}
use game_store.Bytes.{Bytes}
use game_store.Encoding.Keys.{meta_key}
use game_store.Encoding.Meta
use game_store.Encoding.Meta.{Meta}
use game_store.Encoding.Meta.RoundTrip.{IsEncodable}
use game_store.Engine.Error.{ok}
use game_store.Engine.Batch.{WriteBatch}
use game_store.Engine.Interface.{IsReliable}
use game_store.Engine.Records.{Records, lookup, apply_batch}
use game_store.Gc
use game_store.Store.Base.{Host, Store, decode_record, is_composite, engine_get, engine_write}

abbrev pub decoded : Option Bytes → Option Meta
decoded none = none
decoded (some raw) = Meta.decode raw

-- The metadata among the given records, whether it has expired or not.
unfoldable pub meta_in : Bytes → Records → Option Meta
meta_in k rs = decoded (lookup (meta_key k) rs)

-- The state of a store agrees with itself at one key: the metadata can be read, its fields are in
-- range, and a composite key's version is the one that the version map holds.
pub record IsConsistentAt (k : Bytes) (rs : Records) (versions : Gc.VersionMap) : Type 0 where
  pub readable : decode_record (lookup (meta_key k) rs) ≡ ok (meta_in k rs)
  pub encodable : (m : Meta) → meta_in k rs ≡ some m → IsEncodable m
  pub current :
      (m : Meta)
      → meta_in k rs ≡ some m
      → is_composite m.type_id ≡ true
      → Gc.get versions k ≡ some m.version

abbrev pub IsConsistentWith : Records → Gc.VersionMap → Type 0
IsConsistentWith rs versions = (k : Bytes) → IsConsistentAt k rs versions

module _ ⦃h : Host⦄ where
  -- The store after a batch.
  abbrev pub written : WriteBatch → Store h → Store h
  written batch s = record s { engine = (h.engine.write s.engine batch).1 }

module _ ⦃h : Host⦄ (laws : IsReliable h.engine) where
  abbrev pub records : Store h → Records
  records s = laws.contents s.engine

  abbrev pub meta_at : Bytes → Store h → Option Meta
  meta_at k s = meta_in k (records s)

  abbrev pub IsConsistent : Store h → Type 0
  IsConsistent s = IsConsistentWith (records s) s.versions

  pub engine_get_lem : (k : Bytes) (s : Store h) → engine_get k s ≡ (ok (lookup k (records s)), s)
  engine_get_lem k s = rw (laws.get_lem s.engine k)

  pub engine_write_lem : (b : WriteBatch) (s : Store h) → engine_write b s ≡ (ok tt, written b s)
  engine_write_lem b s = rw (laws.write_ok s.engine b)

  pub records-written :
      (b : WriteBatch) (s : Store h) → records (written b s) ≡ apply_batch b (records s)
  records-written b s = laws.contents-write s.engine b
