-- ===== src/Store/Strings/Laws.antt =====
-- crates/gamestore-engine/src/store.rs: set, get, del and exists.
use game_store.Prelude.{
  ℕ, ◌+◌, ◌/◌, ◌%◌, ◌^◌, ◌<◌, false, Option, none, some, [], ◌∷◌, ◌≡◌, refl, sym, ap, ◌∙◌, subst,
  arith, ◌==◌, ◌||◌, ltb, if◌then◌else◌,
}
use game_store.Bytes.{Bytes, ◌==ᵇ◌}
use game_store.Bytes.Order.{==ᵇ_refl}
use game_store.Encoding.Keys.{meta_key}
use game_store.Encoding.Meta
use game_store.Encoding.Meta.{Meta, type_string, type_hash}
use game_store.Encoding.Meta.RoundTrip.{IsEncodable}
use game_store.Engine.Error.{ok}
use game_store.Engine.Batch.{put}
use game_store.Engine.Interface.{IsReliable}
use game_store.Engine.Records.{insert, apply_batch, apply_op}
use game_store.Gc
use game_store.Gc.Laws.{get-remove}
use game_store.Store.Base.{Host, Store, put_meta, is_composite}
use game_store.Store.Strings.{set, get, exists, del, del_loaded, string_value, is_some}
use game_store.Store.View.{
  IsConsistent, IsConsistentWith, meta_in, records, meta_at, written, records-written,
}
use game_store.Store.Consistent.{put-IsConsistent, IsConsistentAt-eq, meta_in-put, meta_in-delete}
use game_store.Store.Load.{
  settled, deleted, deleted-IsConsistent, records-deleted, logical_delete_lem, loaded,
  loaded-Settles, live_meta, load_live_meta_lem,
}
use game_store.Store.Fresh.{fresh_version, fresh_version-lt}

module _ ⦃h : Host⦄ where
  -- The metadata that `set` writes.
  abbrev pub string_meta : Bytes → ℕ → Store h → Meta
  string_meta v e s = record {
    type_id = type_string;
    version = fresh_version s;
    expire_ms = e;
    payload = v;
  }

  -- The store after metadata was written at a key.
  abbrev pub with_meta : Bytes → Meta → Store h → Store h
  with_meta k m s = written (put (meta_key k) (Meta.encode m) ∷ []) s

  -- The store after the version of a key was dropped and the clock advanced.
  abbrev pub unversioned : Bytes → Store h → Store h
  unversioned k s = record s {
    versions = Gc.remove k s.versions;
    version_clock = fresh_version s;
    readings = s.readings + 1;
  }

module _ ⦃h : Host⦄ (laws : IsReliable h.engine) where
  pub set_lem :
      (k v : Bytes) (e : ℕ) (s : Store h)
      → set k v e s ≡ (ok tt, with_meta k (string_meta v e s) (unversioned k s))
  unfolding set put_meta
  set_lem k v e s =
      rw (laws.write_ok s.engine (put (meta_key k) (Meta.encode (string_meta v e s)) ∷ []))

  pub records-with_meta :
      (k : Bytes) (m : Meta) (s : Store h)
      → records laws (with_meta k m s) ≡ insert (meta_key k) (Meta.encode m) (records laws s)
  unfolding apply_batch apply_op
  records-with_meta k m s = records-written laws (put (meta_key k) (Meta.encode m) ∷ []) s

  pub meta_at-with_meta :
      (k j : Bytes) (m : Meta) (s : Store h)
      → IsEncodable m
      → meta_at laws j (with_meta k m s) ≡ (if k ==ᵇ j then some m else meta_at laws j s)
  meta_at-with_meta k j m s e =
      ap (meta_in j) (records-with_meta k m s) ∙ meta_in-put k j m (records laws s) e

  pub meta_at-set :
      (k v : Bytes) (e : ℕ) (s : Store h)
      → e < 2 ^ 64
      → meta_at laws k (with_meta k (string_meta v e s) (unversioned k s))
        ≡ some (string_meta v e s)
  meta_at-set k v e s bound =
      meta_at-with_meta k k (string_meta v e s) (unversioned k s)
        (record { version = fresh_version-lt s; expire_ms = bound })
      ∙ rw (==ᵇ_refl k)

  -- SET with an expiry that fits 64 bits keeps a store consistent.
  pub set-IsConsistent :
      (k v : Bytes) (e : ℕ) (s : Store h)
      → e < 2 ^ 64
      → IsConsistent laws s
      → IsConsistent laws (set k v e s).1
  unfolding is_composite
  set-IsConsistent k v e s bound c = rw (set_lem k v e s) (
      subst (λ rs. IsConsistentWith rs (Gc.remove k s.versions))
        (sym (records-with_meta k (string_meta v e s) (unversioned k s)))
        (put-IsConsistent k (records laws s) (Gc.remove k s.versions) (string_meta v e s)
          (record { version = fresh_version-lt s; expire_ms = bound })
          (λ composite. absurd (cc composite))
          (λ j other.
            IsConsistentAt-eq j (records laws s) (records laws s) s.versions _ refl
              (get-remove k j s.versions ∙ rw other) (c j))))

  -- GET replies the payload of the live metadata of a string.
  pub get_reply :
      (k : Bytes) (s : Store h)
      → IsConsistent laws s
      → (get k s).0 ≡ string_value (live_meta laws k s)
  unfolding get
  get_reply k s c = rw (load_live_meta_lem laws k s c)

  -- On a consistent store, GET right after SET with an expiry that fits 64 bits replies the value
  -- if the expiry is 0 or above the clock in milliseconds, and nothing otherwise.
  pub get-set :
      (k v : Bytes) (e : ℕ) (s : Store h)
      → e < 2 ^ 64
      → IsConsistent laws s
      → (get k (set k v e s).1).0
        ≡ ok (if (e == 0) || ltb (h.wall (s.readings + 1) / 1000 % 2 ^ 64) e then some v else none)
  unfolding string_value
  get-set k v e s bound c =
      get_reply k (set k v e s).1 (set-IsConsistent k v e s bound c)
      ∙ ap (λ r. string_value (live_meta laws k r.1)) (set_lem k v e s)
      ∙ ap (λ o. string_value (settled k o after).0) (meta_at-set k v e s bound)
      ∙ ground arith
    where
      after : Store h
      after = with_meta k (string_meta v e s) (unversioned k s)

  -- What DEL leaves.
  abbrev pub after_del : Bytes → Option Meta → Store h → Store h
  after_del k none s = s
  after_del k (some m) s = deleted k s

  pub del_lem :
      (k : Bytes) (s : Store h)
      → IsConsistent laws s
      → del k s
        ≡ (ok (is_some (live_meta laws k s)), after_del k (live_meta laws k s) (loaded laws k s))
  unfolding del
  del_lem k s c = rw (load_live_meta_lem laws k s c) (finish (live_meta laws k s) (loaded laws k s))
    where
      finish :
          (o : Option Meta) (t : Store h) → del_loaded k o t ≡ (ok (is_some o), after_del k o t)
      finish none t = unfold del_loaded is_some in refl
      finish (some m) t = unfold del_loaded is_some in rw (logical_delete_lem laws k t)

  pub after_del-IsConsistent :
      (k : Bytes) (o : Option Meta) (s : Store h)
      → IsConsistent laws s
      → IsConsistent laws (after_del k o s)
  after_del-IsConsistent k none s c = c
  after_del-IsConsistent k (some m) s c = deleted-IsConsistent laws k s c

  -- DEL keeps a store consistent.
  pub del-IsConsistent :
      (k : Bytes) (s : Store h) → IsConsistent laws s → IsConsistent laws (del k s).1
  del-IsConsistent k s c =
      subst (λ r. IsConsistent laws r.1) (sym (del_lem k s c))
        (after_del-IsConsistent k (live_meta laws k s) (loaded laws k s)
          (loaded-Settles laws k s c).consistent)

  meta_at-after_del :
      (k : Bytes) (o : Option Meta) (s : Store h)
      → meta_at laws k s ≡ o
      → meta_at laws k (after_del k o s) ≡ none
  meta_at-after_del k none s e = e
  meta_at-after_del k (some m) s e =
      ap (meta_in k) (records-deleted laws k s)
      ∙ meta_in-delete k k (records laws s)
      ∙ rw (==ᵇ_refl k)

  pub meta_at-del :
      (k : Bytes) (s : Store h) → IsConsistent laws s → meta_at laws k (del k s).1 ≡ none
  meta_at-del k s c =
      ap (λ r. meta_at laws k r.1) (del_lem k s c)
      ∙ meta_at-after_del k (live_meta laws k s) (loaded laws k s) (loaded-Settles laws k s c).found

  exists_reply :
      (k : Bytes) (s : Store h)
      → IsConsistent laws s
      → exists k s ≡ (ok (is_some (live_meta laws k s)), loaded laws k s)
  unfolding exists
  exists_reply k s c = rw (load_live_meta_lem laws k s c)

  -- On a consistent store, DEL replies what EXISTS would have replied, and after it EXISTS replies
  -- no.
  pub exists-del :
      (k : Bytes) (s : Store h)
      → IsConsistent laws s
      → ((del k s).0 ≡ (exists k s).0) × ((exists k (del k s).1).0 ≡ ok false)
  exists-del k s c = (
    ap (λ r. r.0) (del_lem k s c) ∙ sym (ap (λ r. r.0) (exists_reply k s c)),
    ap (λ r. r.0) (exists_reply k (del k s).1 (del-IsConsistent k s c))
        ∙ ap (λ o. ok (is_some (settled k o (del k s).1).0)) (meta_at-del k s c)
        ∙ unfold is_some in refl,
  )
