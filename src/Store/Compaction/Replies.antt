-- ===== src/Store/Compaction/Replies.antt =====
-- crates/gamestore-engine/src/store.rs and gc.rs: the replies of HGET and HGETALL, and a
-- compaction.
use game_store.Prelude.{◌^◌, ◌<◌, true, Option, none, some, ◌≡◌, refl, sym, ap, ◌∙◌, arith, length}
use game_store.Bytes.{Bytes}
use game_store.Encoding.Keys.{subkey, subkey_prefix}
use game_store.Encoding.Meta.{Meta, type_hash}
use game_store.Engine.Error.{Result, ok, err}
use game_store.Engine.Interface.{IsReliable}
use game_store.Engine.Records.{Records, lookup}
use game_store.Store.Base.{Host, Store, is_composite, typed}
use game_store.Store.Admin.{compact}
use game_store.Store.Hash.{hget, hgetall}
use game_store.Store.Hash.View.{
  hget_reply, hgetall_reply, field_in, fields_in, fields_of, suffixes, typed-some,
}
use game_store.Store.Load.{typed_type, hash-is_composite}
use game_store.Store.View.{IsConsistent, records, meta_at}
use game_store.Store.Load.{settled, live_meta, live_meta_stored}
use game_store.Store.Compaction.{
  compacted, compact-IsConsistent, meta_at-compact, lookup-compact_subkey, with_prefix-compact,
}

field_in-eq :
    (k f : Bytes) (rs rs' : Records) (r : Result (Option Meta))
    → ((m : Meta)
        → r ≡ ok (some m)
        → lookup (subkey k m.version f) rs' ≡ lookup (subkey k m.version f) rs)
    → field_in k f rs' r ≡ field_in k f rs r
field_in-eq k f rs rs' (ok none) e = refl
field_in-eq k f rs rs' (ok (some m)) e = ap ok (e m refl)
field_in-eq k f rs rs' (err x) e = refl

fields_in-eq :
    (k : Bytes) (rs rs' : Records) (r : Result (Option Meta))
    → ((m : Meta) → r ≡ ok (some m) → fields_of k m.version rs' ≡ fields_of k m.version rs)
    → fields_in k rs' r ≡ fields_in k rs r
fields_in-eq k rs rs' (ok none) e = refl
fields_in-eq k rs rs' (ok (some m)) e = ap ok (e m refl)
fields_in-eq k rs rs' (err x) e = refl

module _ ⦃h : Host⦄ (laws : IsReliable h.engine) where
  settled-compact :
      (k : Bytes) (o : Option Meta) (s : Store h)
      → (settled k o (compacted laws s)).0 ≡ (settled k o s).0
  unfolding compact
  settled-compact k none s = refl
  settled-compact k (some m) s = ground arith

  live_meta-compact :
      (k : Bytes) (s : Store h) → live_meta laws k (compacted laws s) ≡ live_meta laws k s
  live_meta-compact k s =
      ap (λ o. (settled k o (compacted laws s)).0) (meta_at-compact laws k s)
      ∙ settled-compact k (meta_at laws k s) s

  module _ (k : Bytes) (s : Store h) (c : IsConsistent laws s) (short : length k < 2 ^ 32) where
    -- On a consistent store, HGET of a key shorter than 2 ^ 32 bytes replies the same after a
    -- compaction as before.
    pub hget-compact : (f : Bytes) → (hget k f (compact s).1).0 ≡ (hget k f s).0
    hget-compact f =
        hget_reply laws k (compacted laws s) (compact-IsConsistent laws s c) f
        ∙ ap (λ o. field_in k f (records laws (compacted laws s)) (typed type_hash o))
            (live_meta-compact k s)
        ∙ field_in-eq k f (records laws s) (records laws (compacted laws s)) _ (λ m e.
          lookup-compact_subkey laws s c k m
            (live_meta_stored laws k s m (typed-some type_hash _ m e)).0
            (hash-is_composite m (typed_type type_hash _ m e)) short f)
        ∙ sym (hget_reply laws k s c f)

    fields_of-compact :
        (m : Meta)
        → meta_at laws k s ≡ some m
        → is_composite m.type_id ≡ true
        → fields_of k m.version (records laws (compacted laws s))
          ≡ fields_of k m.version (records laws s)
    unfolding fields_of
    fields_of-compact m found composite =
        ap (suffixes (length (subkey_prefix k m.version)))
          (with_prefix-compact laws s c k m found composite short)

    -- On a consistent store, HGETALL of a key shorter than 2 ^ 32 bytes replies the same after a
    -- compaction with the version map as its predicate as before.
    pub hgetall-compact : (hgetall k (compact s).1).0 ≡ (hgetall k s).0
    hgetall-compact =
        hgetall_reply laws k (compacted laws s) (compact-IsConsistent laws s c)
        ∙ ap (λ o. fields_in k (records laws (compacted laws s)) (typed type_hash o))
            (live_meta-compact k s)
        ∙ fields_in-eq k (records laws s) (records laws (compacted laws s)) _ (λ m e.
          fields_of-compact m (live_meta_stored laws k s m (typed-some type_hash _ m e)).0
            (hash-is_composite m (typed_type type_hash _ m e)))
        ∙ sym (hgetall_reply laws k s c)
