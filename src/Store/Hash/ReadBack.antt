-- ===== src/Store/Hash/ReadBack.antt =====
-- crates/gamestore-engine/src/store.rs: hget after hset.
use game_store.Prelude.{
  ◌+◌, ◌^◌, ◌<◌, Option, none, some, List, ◌≡◌, refl, sym, ap, ◌∙◌, subst, arith, inl, inr,
}
use game_store.Bytes.{Bytes}
use game_store.Encoding.Keys.{subkey}
use game_store.Encoding.Keys.Disjoint.{subkey-ne-meta_key}
use game_store.Encoding.Meta.{Meta, type_hash, set_field_count}
use game_store.Engine.Error.{Result, Result-cases, ok, err}
use game_store.Engine.Interface.{IsReliable}
use game_store.Engine.Records.{lookup}
use game_store.Store.Base.{Host, Store, typed}
use game_store.Store.Hash.{hset, hget}
use game_store.Store.Hash.View.{hget_reply, field_in}
use game_store.Store.Hash.Write.{overwritten}
use game_store.Store.Hash.Refine.{
  stored, recounted, hset_lem, stored-IsConsistent, meta_at-stored, lookup-stored, typed-IsWritable,
}
use game_store.Store.View.{IsConsistent, records, meta_at}
use game_store.Store.Load.{
  settled, live_meta, live_meta_stored, loaded, loaded-Settles, typed-ok, typed_same,
}
use game_store.Store.Fresh.{
  counted, IsWritable, fresh_version, fresh_version-lt, fresh_version-above, IsFresh,
}

module _ ⦃h : Host⦄ (laws : IsReliable h.engine) where
  version_clock-settled :
      (k : Bytes) (o : Option Meta) (s : Store h)
      → (settled k o s).1.version_clock ≡ s.version_clock
  version_clock-settled k none s = refl
  version_clock-settled k (some m) s = ground arith

  -- Metadata without an expiry is live.
  pub settled_unlimited :
      (k : Bytes) (m : Meta) (s : Store h) → m.expire_ms ≡ 0 → (settled k (some m) s).0 ≡ some m
  settled_unlimited k m s e = ground arith

  module _ (k f : Bytes) (s : Store h) (c : IsConsistent laws s) (fresh : IsFresh laws s)
      (room : s.version_clock + 1 < 2 ^ 64) where
    pub unused :
        lookup (subkey k (fresh_version (loaded laws k s)) f) (records laws (loaded laws k s))
        ≡ none
    unused =
        let clock = version_clock-settled k (meta_at laws k s) s in
        (loaded-Settles laws k s c).kept _
          (λ e. subkey-ne-meta_key k k (fresh_version (loaded laws k s)) f (sym e))
        ∙ fresh.members k (fresh_version (loaded laws k s)) f (fresh_version-lt (loaded laws k s)) (
            subst (λ n. n < fresh_version (loaded laws k s)) clock
              (fresh_version-above (loaded laws k s)
                (subst (λ n. n + 1 < 2 ^ 64) (sym clock) room)))

    -- What a field held before is what stands at the version that `hset` writes to.
    previous :
        (o : Option Meta)
        → live_meta laws k s ≡ o
        → field_in k f (records laws s) (ok o)
          ≡ ok (
              lookup
                (subkey k (counted k type_hash o (loaded laws k s)).0.version f)
                (records laws (counted k type_hash o (loaded laws k s)).1))
    unfolding counted set_field_count
    previous none e = ap ok (sym unused)
    previous (some m) e =
        ap (λ rs. ok (lookup (subkey k m.version f) rs)) (sym (live_meta_stored laws k s m e).1)

    recounted_unlimited :
        (pairs : List (Bytes × Bytes)) (m : Meta) (s' : Store h)
        → m.expire_ms ≡ 0
        → (recounted laws k pairs m s').expire_ms ≡ 0
    unfolding set_field_count
    recounted_unlimited pairs m s' e = e

    recounted_type :
        (pairs : List (Bytes × Bytes)) (m : Meta) (s' : Store h)
        → m.type_id ≡ type_hash
        → (recounted laws k pairs m s').type_id ≡ type_hash
    unfolding set_field_count
    recounted_type pairs m s' e = e

    same_version :
        (pairs : List (Bytes × Bytes)) (m : Meta) (s' t : Store h) {o : Option Bytes}
        → lookup (subkey k m.version f) (records laws t) ≡ o
        → field_in k f (records laws t) (ok (some (recounted laws k pairs m s'))) ≡ ok o
    unfolding set_field_count
    same_version pairs m s' t e = ap ok e

    written_back :
        (pairs : List (Bytes × Bytes)) (m : Meta) (s' : Store h)
        → IsWritable laws k type_hash (loaded laws k s) m s'
        → m.expire_ms ≡ 0
        → (hget k f (stored laws k pairs (m, s'))).0
          ≡ ok (overwritten f pairs (lookup (subkey k m.version f) (records laws s')))
    written_back pairs m s' w unlimited =
        let t = stored laws k pairs (m, s') in
        let m' = recounted laws k pairs m s' in
        hget_reply laws k t (stored-IsConsistent laws k pairs m (loaded laws k s) s' w) f
        ∙ ap (λ o. field_in k f (records laws t) (typed type_hash o))
            (ap (λ o. (settled k o t).0) (meta_at-stored laws k pairs m (loaded laws k s) s' w)
              ∙ settled_unlimited k m' t (recounted_unlimited pairs m s' unlimited))
        ∙ ap (field_in k f (records laws t))
            (typed_same type_hash m' (recounted_type pairs m s' w.type_id))
        ∙ same_version pairs m s' t (lookup-stored laws k f pairs m s')

    counted_unlimited :
        (o : Option Meta)
        → live_meta laws k s ≡ o
        → ((m : Meta) → live_meta laws k s ≡ some m → m.expire_ms ≡ 0)
        → (counted k type_hash o (loaded laws k s)).0.expire_ms ≡ 0
    unfolding counted set_field_count
    counted_unlimited none e u = refl
    counted_unlimited (some m) e u = u m e

    -- On a consistent store whose versions are not above the counter, with room left in the
    -- counter: if HGET of a field of a key without an expiry succeeds before, then after HSET of
    -- any pairs it replies the value of the last pair with that field, or else what it replied
    -- before.
    pub hget-hset :
        (pairs : List (Bytes × Bytes)) (old : Option Bytes)
        → (hget k f s).0 ≡ ok old
        → ((m : Meta) → live_meta laws k s ≡ some m → m.expire_ms ≡ 0)
        → (hget k f (hset k pairs s).1).0 ≡ ok (overwritten f pairs old)
    hget-hset pairs old before unlimited =
        elim (Result-cases (typed type_hash (meta_at laws k (loaded laws k s)))) [
          | inl (o, e) ↦
              let r = counted k type_hash o (loaded laws k s) in
              let live = sym (loaded-Settles laws k s c).found ∙ typed-ok type_hash _ o e in
              ap (λ t. (hget k f t.1).0) (hset_lem laws k pairs s o c e)
              ∙ written_back pairs r.0 r.1
                  (typed-IsWritable laws k (loaded laws k s) o
                    (loaded-Settles laws k s c).consistent e)
                  (counted_unlimited o live unlimited)
              ∙ ap (λ x. ok (overwritten f pairs x))
                  (ok-injective (sym (previous o live) ∙ sym (reply (ok o) e) ∙ before))
          | inr (x, e) ↦ absurd (ground (arith, sym (reply (err x) e) ∙ before))
        ]
      where
        ok-injective : {x y : Option Bytes} → ok x ≡ ok y → x ≡ y
        ok-injective e = cc

        reply :
            (r : Result (Option Meta))
            → typed type_hash (meta_at laws k (loaded laws k s)) ≡ r
            → (hget k f s).0 ≡ field_in k f (records laws s) r
        reply r e =
            hget_reply laws k s c f
            ∙ ap (λ o. field_in k f (records laws s) (typed type_hash o))
                (sym (loaded-Settles laws k s c).found)
            ∙ ap (field_in k f (records laws s)) e
