-- ===== src/Store/Strings/Expiry.antt =====
-- crates/gamestore-engine/src/store.rs: expire_at.
use game_store.Prelude.{
  ℕ, ◌/◌, ◌%◌, ◌^◌, ◌<◌, Bool, Option, none, some, [], ◌∷◌, ◌≡◌, refl, sym, ap, ◌∙◌, subst, arith,
  ◌==◌, ◌||◌, ltb, if◌then◌else◌,
}
use game_store.Bytes.{Bytes}
use game_store.Bytes.Order.{==ᵇ_refl}
use game_store.Encoding.Keys.{meta_key}
use game_store.Encoding.Meta
use game_store.Encoding.Meta.{Meta, type_string, type_hash}
use game_store.Engine.Error.{ok}
use game_store.Engine.Batch.{put}
use game_store.Engine.Interface.{IsReliable}
use game_store.Store.Base.{Host, Store, put_meta}
use game_store.Store.Strings.{get, expire_at, expire_loaded, string_value, is_some}
use game_store.Store.Strings.Laws.{with_meta, records-with_meta, meta_at-with_meta, get_reply}
use game_store.Store.View.{IsConsistent, IsConsistentWith, records, meta_at}
use game_store.Store.Consistent.{put-IsConsistent}
use game_store.Store.Load.{settled, loaded, loaded-Settles, live_meta, load_live_meta_lem}

module _ ⦃h : Host⦄ where
  abbrev pub expiring : Meta → ℕ → Meta
  expiring m e = record m { expire_ms = e }

  -- What EXPIREAT leaves.
  abbrev pub after_expire : Bytes → ℕ → Option Meta → Store h → Store h
  after_expire k e none s = s
  after_expire k e (some m) s = with_meta k (expiring m e) s

  -- Whether a key that expires at `e` is still there at the store's next reading of the clock.
  abbrev pub in_time : ℕ → Store h → Bool
  in_time e s = (e == 0) || ltb (h.wall s.readings / 1000 % 2 ^ 64) e

module _ ⦃h : Host⦄ (laws : IsReliable h.engine) where
  pub expire_at_lem :
      (k : Bytes) (e : ℕ) (s : Store h)
      → IsConsistent laws s
      → expire_at k e s ≡ (
        ok (is_some (live_meta laws k s)),
        after_expire k e (live_meta laws k s) (loaded laws k s),
      )
  unfolding expire_at
  expire_at_lem k e s c =
      rw (load_live_meta_lem laws k s c) (finish (live_meta laws k s) (loaded laws k s))
    where
      finish :
          (o : Option Meta) (t : Store h)
          → expire_loaded k e o t ≡ (ok (is_some o), after_expire k e o t)
      finish none t = unfold expire_loaded is_some in refl
      finish (some m) t =
          unfold expire_loaded is_some put_meta in
          rw (laws.write_ok t.engine (put (meta_key k) (Meta.encode (expiring m e)) ∷ []))

  after_expire-IsConsistent :
      (k : Bytes) (e : ℕ) (o : Option Meta) (s : Store h)
      → e < 2 ^ 64
      → IsConsistent laws s
      → meta_at laws k s ≡ o
      → IsConsistent laws (after_expire k e o s)
  after_expire-IsConsistent k e none s bound c found = c
  after_expire-IsConsistent k e (some m) s bound c found =
      subst (λ rs. IsConsistentWith rs s.versions) (sym (records-with_meta laws k (expiring m e) s))
        (put-IsConsistent k (records laws s) s.versions (expiring m e)
          (record { version = ((c k).encodable m found).version; expire_ms = bound })
          (λ composite. (c k).current m found composite) (λ j other. c j))

  -- EXPIREAT with an expiry that fits 64 bits keeps a store consistent.
  pub expire_at-IsConsistent :
      (k : Bytes) (e : ℕ) (s : Store h)
      → e < 2 ^ 64
      → IsConsistent laws s
      → IsConsistent laws (expire_at k e s).1
  expire_at-IsConsistent k e s bound c =
      subst (λ r. IsConsistent laws r.1) (sym (expire_at_lem k e s c))
        (after_expire-IsConsistent k e (live_meta laws k s) (loaded laws k s) bound
          (loaded-Settles laws k s c).consistent (loaded-Settles laws k s c).found)

  settled-expiring :
      (k : Bytes) (m : Meta) (e : ℕ) (s : Store h)
      → (settled k (some (expiring m e)) s).0 ≡ (if in_time e s then some (expiring m e) else none)
  settled-expiring k m e s = ground arith

  get-after_expire :
      (k : Bytes) (e : ℕ) (o : Option Meta) (s : Store h)
      → e < 2 ^ 64
      → IsConsistent laws s
      → meta_at laws k s ≡ o
      → (get k (after_expire k e o s)).0
        ≡ (if in_time e (after_expire k e o s) then string_value o else ok none)
  unfolding string_value
  get-after_expire k e none s bound c found =
      get_reply laws k s c ∙ ap (λ o. string_value (settled k o s).0) found ∙ ground arith
  get-after_expire k e (some m) s bound c found =
      get_reply laws k (with_meta k (expiring m e) s)
        (after_expire-IsConsistent k e (some m) s bound c found)
      ∙ ap (λ o. string_value (settled k o (with_meta k (expiring m e) s)).0) rewritten
      ∙ ap string_value (settled-expiring k m e (with_meta k (expiring m e) s))
      ∙ ground arith
    where
      rewritten : meta_at laws k (with_meta k (expiring m e) s) ≡ some (expiring m e)
      rewritten =
          meta_at-with_meta laws k k (expiring m e) s
            (record { version = ((c k).encodable m found).version; expire_ms = bound })
          ∙ rw (==ᵇ_refl k)

  -- On a consistent store, after EXPIREAT with an expiry that fits 64 bits, GET replies what it
  -- replied before while the expiry is 0 or above the clock, and nothing from then on.
  pub get-expire_at :
      (k : Bytes) (e : ℕ) (s : Store h)
      → e < 2 ^ 64
      → IsConsistent laws s
      → (get k (expire_at k e s).1).0
        ≡ (if in_time e (expire_at k e s).1 then (get k s).0 else ok none)
  get-expire_at k e s bound c =
      ap (λ r. (get k r.1).0) (expire_at_lem k e s c)
      ∙ get-after_expire k e (live_meta laws k s) (loaded laws k s) bound
          (loaded-Settles laws k s c).consistent (loaded-Settles laws k s c).found
      ∙ ap (λ r. if in_time e r.1 then string_value (live_meta laws k s) else ok none)
          (sym (expire_at_lem k e s c))
      ∙ ap (λ r. if in_time e (expire_at k e s).1 then r else ok none) (sym (get_reply laws k s c))
