-- ===== src/Store/Compaction.antt =====
-- crates/gamestore-engine/src/store.rs and gc.rs: what a compaction does to the records of a
-- store.
pub mod Replies
pub mod Reclaim
use game_store.Prelude.{
  ℕ, ◌^◌, ◌<◌, ◌++◌, Bool, true, false, Option, none, some, List, [], ◌∷◌, ◌≡◌, ◌≢◌, refl, sym, ap,
  ◌∙◌, subst, if◌then◌else◌, arith, Bool-cases, Option-cases, inl, inr, ◌==◌, ==_refl, filter_by,
  length, drop, All, map,
}
use game_store.Bytes.{Bytes, ◌==ᵇ◌, starts_with}
use game_store.Bytes.Order.{==ᵇ_refl, ==ᵇ_ne}
use game_store.Bytes.Prefix.{append-drop_of_starts_with}
use game_store.Encoding.Keys.{
  meta_key, subkey, subkey_prefix, zscore_key, zscore_prefix, versioned_prefix,
}
use game_store.Encoding.Keys.RoundTrip.{Fits}
use game_store.Encoding.Meta.{Meta, type_hash}
use game_store.Engine.Error.{Result, ok, err}
use game_store.Engine.Interface.{IsReliable}
use game_store.Engine.Records.{Records, lookup, with_prefix}
use game_store.Engine.Records.Laws.{lookup-filter_by, kept}
use game_store.Gc
use game_store.Gc.{VersionMap, should_keep}
use game_store.Gc.Laws.{should_keep-meta_key, should_keep-subkey, is_current, get-remove}
use game_store.Store.Base.{Host, Store, is_composite, load_typed, typed}
use game_store.Store.Admin.{compact}
use game_store.Store.Hash.{hgetall, hget, hgetall_loaded, hget_loaded, stripped}
use game_store.Store.Strings.{get, string_value, del, del_loaded}
use game_store.Store.View.{meta_in, IsConsistentWith, IsConsistent, records, meta_at}
use game_store.Store.Consistent.{IsConsistentAt-eq}
use game_store.Store.Load.{
  settled, expired, ticked, deleted, load_live_meta_lem, loaded, loaded-Settles,
  load_live_meta-loaded, load_typed-loaded, records-deleted, logical_delete_lem,
}

-- A filter that keeps all that has a prefix keeps a scan of the prefix.
pub with_prefix-filter_by :
    (p : Bytes) (test : Bytes × Bytes → Bool) (rs : Records)
    → ((raw v : Bytes) → starts_with p raw ≡ true → test (raw, v) ≡ true)
    → with_prefix p (filter_by test rs) ≡ with_prefix p rs
unfolding with_prefix
with_prefix-filter_by p test [] h = refl
with_prefix-filter_by p test ((raw, v) ∷ rs) h =
    ground (arith, with_prefix-filter_by p test rs h, h raw v)

module _ ⦃h : Host⦄ (laws : IsReliable h.engine) where
  abbrev keeps : Store h → Bytes × Bytes → Bool
  keeps s r = should_keep s.versions r.0

  -- The store after a compaction.
  abbrev pub compacted : Store h → Store h
  compacted s = (compact s).1

  pub compact_lem : (s : Store h) → compact s ≡ (ok tt, compacted s)
  unfolding compact
  compact_lem s = rw (laws.compact_ok s.engine (λ key value. should_keep s.versions key))

  pub records-compact :
      (s : Store h) → records laws (compacted s) ≡ filter_by (keeps s) (records laws s)
  unfolding compact
  records-compact s = laws.contents-compact s.engine (λ key value. should_keep s.versions key)

  pub lookup-compact :
      (raw : Bytes) (s : Store h)
      → lookup raw (records laws (compacted s)) ≡ kept (keeps s) raw (lookup raw (records laws s))
  lookup-compact raw s =
      ap (lookup raw) (records-compact s)
      ∙ lookup-filter_by (keeps s) raw (records laws s) (laws.contents-IsSorted s.engine)

  lookup_kept :
      (raw : Bytes) (s : Store h)
      → should_keep s.versions raw ≡ true
      → lookup raw (records laws (compacted s)) ≡ lookup raw (records laws s)
  lookup_kept raw s e = ground (arith, lookup-compact raw s)

  pub meta_at-compact : (k : Bytes) (s : Store h) → meta_at laws k (compacted s) ≡ meta_at laws k s
  unfolding meta_in
  meta_at-compact k s = rw (lookup_kept (meta_key k) s (should_keep-meta_key s.versions k))

  -- A compaction keeps a store consistent.
  pub compact-IsConsistent : (s : Store h) → IsConsistent laws s → IsConsistent laws (compacted s)
  unfolding compact
  compact-IsConsistent s c k =
      IsConsistentAt-eq k (records laws s) _ s.versions s.versions
        (lookup_kept (meta_key k) s (should_keep-meta_key s.versions k)) refl (c k)

  -- The records of a key's current version stay.
  module _ (s : Store h) (c : IsConsistent laws s) (k : Bytes) (m : Meta)
      (found : meta_at laws k s ≡ some m) (composite : is_composite m.type_id ≡ true)
      (short : length k < 2 ^ 32) where
    fits : Fits k m.version
    fits = (short, ((c k).encodable m found).version)

    keeps_subkey : (f : Bytes) → should_keep s.versions (subkey k m.version f) ≡ true
    keeps_subkey f =
        should_keep-subkey s.versions k m.version f fits
        ∙ rw ((c k).current m found composite, is_current) (==_refl m.version)

    pub lookup-compact_subkey :
        (f : Bytes)
        → lookup (subkey k m.version f) (records laws (compacted s))
          ≡ lookup (subkey k m.version f) (records laws s)
    lookup-compact_subkey f = lookup_kept (subkey k m.version f) s (keeps_subkey f)

    keeps_prefixed :
        (raw v : Bytes)
        → starts_with (subkey_prefix k m.version) raw ≡ true
        → should_keep s.versions raw ≡ true
    unfolding subkey
    keeps_prefixed raw v e =
        let split = append-drop_of_starts_with (subkey_prefix k m.version) raw e in
        ap (should_keep s.versions) split
        ∙ keeps_subkey (drop (length (subkey_prefix k m.version)) raw)

    pub with_prefix-compact :
        with_prefix (subkey_prefix k m.version) (records laws (compacted s))
        ≡ with_prefix (subkey_prefix k m.version) (records laws s)
    with_prefix-compact =
        ap (with_prefix (subkey_prefix k m.version)) (records-compact s)
        ∙ with_prefix-filter_by (subkey_prefix k m.version) (keeps s) (records laws s)
            keeps_prefixed
