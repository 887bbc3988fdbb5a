-- ===== src/Store/Hash/Refine.antt =====
-- crates/gamestore-engine/src/store.rs: hset as a transition.
use game_store.Prelude.{
  ℕ, ◌+◌, Option, some, List, [], ◌≡◌, refl, sym, ap, ◌∙◌, subst, arith, inl, inr,
}
use game_store.Bytes.{Bytes}
use game_store.Bytes.Order.{==ᵇ_refl, ==ᵇ_ne}
use game_store.Encoding.Keys.{subkey, meta_key}
use game_store.Encoding.Keys.Disjoint.{subkey-ne-meta_key}
use game_store.Encoding.Meta
use game_store.Encoding.Meta.{Meta, type_hash, field_count, set_field_count}
use game_store.Engine.Error.{EngineError, Result-cases, ok, err}
use game_store.Engine.Interface.{IsReliable}
use game_store.Engine.Records.{lookup, insert, apply_batch, apply_op}
use game_store.Engine.Records.Laws.{lookup-insert, apply_batch-snoc}
use game_store.Store.Base.{Host, Store, typed}
use game_store.Store.Hash.{hset}
use game_store.Store.Hash.Write.{
  unknown, bumped, puts, puts-IsMemberOp, hset_pairs_lem, hset_batch, overwritten, lookup-puts,
}
use game_store.Store.View.{
  IsConsistent, IsConsistentWith, records, meta_at, meta_in, written, records-written,
}
use game_store.Store.Consistent.{put-IsConsistent, members-IsConsistentAt, meta_in-put}
use game_store.Store.Load.{
  loaded, loaded-Settles, load_typed-loaded, typed_type, typed-ok, hash-is_composite,
}
use game_store.Store.Fresh.{counted, counted_meta_lem, IsWritable, counted-IsWritable}

zero_add : (n : ℕ) → 0 + n ≡ n
zero_add n = omega arith

module _ ⦃h : Host⦄ (laws : IsReliable h.engine) where
  -- The metadata that `hset` writes.
  abbrev pub recounted : Bytes → List (Bytes × Bytes) → Meta → Store h → Meta
  recounted k pairs m s =
      set_field_count m (bumped (field_count m) (unknown k m.version pairs (records laws s)))

  -- The store after `hset` wrote the pairs under given metadata.
  abbrev pub stored : Bytes → List (Bytes × Bytes) → Meta × Store h → Store h
  stored k pairs (m, s) = written (hset_batch laws k pairs m s) s

  pub hset_lem :
      (k : Bytes) (pairs : List (Bytes × Bytes)) (s : Store h) (o : Option Meta)
      → IsConsistent laws s
      → typed type_hash (meta_at laws k (loaded laws k s)) ≡ ok o
      → hset k pairs s ≡ (
        ok (
            unknown k
              (counted k type_hash o (loaded laws k s)).0.version
              pairs
              (records laws (counted k type_hash o (loaded laws k s)).1)),
        stored k pairs (counted k type_hash o (loaded laws k s)),
      )
  unfolding hset
  hset_lem k pairs s o c e =
      let r = counted k type_hash o (loaded laws k s) in
      rw
        (
          load_typed-loaded laws k s c type_hash,
          e,
          counted_meta_lem k type_hash o (loaded laws k s),
          hset_pairs_lem laws k r.0.version pairs (field_count r.0) 0 [] r.1,
        )
        (rw
          (
            laws.write_ok r.1.engine (hset_batch laws k pairs r.0 r.1),
            zero_add (unknown k r.0.version pairs (records laws r.1)),
          )
          refl)

  hset_failed :
      (k : Bytes) (pairs : List (Bytes × Bytes)) (s : Store h) (x : EngineError)
      → IsConsistent laws s
      → typed type_hash (meta_at laws k (loaded laws k s)) ≡ err x
      → hset k pairs s ≡ (err x, loaded laws k s)
  unfolding hset
  hset_failed k pairs s x c e = rw (load_typed-loaded laws k s c type_hash, e)

  records-stored :
      (k : Bytes) (pairs : List (Bytes × Bytes)) (m : Meta) (s : Store h)
      → records laws (stored k pairs (m, s))
        ≡ insert
            (meta_key k)
            (Meta.encode (recounted k pairs m s))
            (apply_batch (puts k m.version pairs) (records laws s))
  unfolding apply_op
  records-stored k pairs m s =
      records-written laws (hset_batch laws k pairs m s) s
      ∙ apply_batch-snoc (puts k m.version pairs) _ (records laws s)

  -- Metadata is left as it was, or is what `hset` wrote.
  pub stored-IsConsistent :
      (k : Bytes) (pairs : List (Bytes × Bytes)) (m : Meta) (s s' : Store h)
      → IsWritable laws k type_hash s m s'
      → IsConsistent laws (stored k pairs (m, s'))
  stored-IsConsistent k pairs m s s' w =
      subst (λ rs. IsConsistentWith rs s'.versions) (sym (records-stored k pairs m s'))
        (put-IsConsistent k (apply_batch (puts k m.version pairs) (records laws s')) s'.versions
          (recounted k pairs m s')
          (unfold set_field_count in
            record { version = w.encodable.version; expire_ms = w.encodable.expire_ms })
          (λ _. unfold set_field_count in w.current)
          (λ j other.
            members-IsConsistentAt j (puts k m.version pairs) (records laws s') s'.versions
              (puts-IsMemberOp k m.version pairs) (w.elsewhere j other)))

  pub meta_at-stored :
      (k : Bytes) (pairs : List (Bytes × Bytes)) (m : Meta) (s s' : Store h)
      → IsWritable laws k type_hash s m s'
      → meta_at laws k (stored k pairs (m, s')) ≡ some (recounted k pairs m s')
  meta_at-stored k pairs m s s' w =
      ap (meta_in k) (records-stored k pairs m s')
      ∙ meta_in-put k k (recounted k pairs m s')
          (apply_batch (puts k m.version pairs) (records laws s'))
          (unfold set_field_count in
            record { version = w.encodable.version; expire_ms = w.encodable.expire_ms })
      ∙ rw (==ᵇ_refl k)

  pub lookup-stored :
      (k f : Bytes) (pairs : List (Bytes × Bytes)) (m : Meta) (s : Store h)
      → lookup (subkey k m.version f) (records laws (stored k pairs (m, s)))
        ≡ overwritten f pairs (lookup (subkey k m.version f) (records laws s))
  lookup-stored k f pairs m s =
      ap (lookup (subkey k m.version f)) (records-stored k pairs m s)
      ∙ lookup-insert (meta_key k) (subkey k m.version f) _ _
      ∙ rw
          (==ᵇ_ne (meta_key k) (subkey k m.version f)
            (λ e. subkey-ne-meta_key k k m.version f (sym e)))
          (lookup-puts k m.version f pairs (records laws s))

  -- What a typed load found, is writable.
  pub typed-IsWritable :
      (k : Bytes) (s : Store h) (o : Option Meta)
      → IsConsistent laws s
      → typed type_hash (meta_at laws k s) ≡ ok o
      → IsWritable laws k type_hash s (counted k type_hash o s).0 (counted k type_hash o s).1
  typed-IsWritable k s o c e =
      counted-IsWritable laws k type_hash o s c (typed-ok type_hash (meta_at laws k s) o e) (λ m p.
        let t = typed_type type_hash (meta_at laws k s) m (e ∙ ap ok p) in
        (t, hash-is_composite m t))

  -- HSET of any pairs keeps a store consistent, on every branch: each metadata record can be read,
  -- and each composite key has in the version map the version of its metadata.
  pub hset-IsConsistent :
      (k : Bytes) (pairs : List (Bytes × Bytes)) (s : Store h)
      → IsConsistent laws s
      → IsConsistent laws (hset k pairs s).1
  hset-IsConsistent k pairs s c =
      elim (Result-cases (typed type_hash (meta_at laws k (loaded laws k s)))) [
        | inl (o, e) ↦ rw (hset_lem k pairs s o c e) (
            stored-IsConsistent k pairs _ (loaded laws k s) _
              (typed-IsWritable k (loaded laws k s) o (loaded-Settles laws k s c).consistent e))
        | inr (x, e) ↦
            subst (IsConsistent laws) (sym (ap (λ r. r.1) (hset_failed k pairs s x c e)))
              (loaded-Settles laws k s c).consistent
      ]
