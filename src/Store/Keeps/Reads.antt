-- ===== src/Store/Keeps/Reads.antt =====
-- crates/gamestore-engine/src/store.rs: the methods that only read, but for the expired key that they
-- remove.
use game_store.Prelude.{
  ℕ, zero, suc, Bool, Option, none, some, [], ◌∷◌, length, ◌≡◌, refl, sym, subst, Bool-cases, inl,
  inr, ◌==◌,
}
use game_store.Prelude.Int.{ℤ}
use game_store.Bytes.{Bytes}
use game_store.Encoding.Meta.{Meta, type_hash, type_set, type_zset, type_list}
use game_store.Engine.Error.{Result, Result-cases, ok, err}
use game_store.Engine.Interface.{IsReliable}
use game_store.Store.Exec.{Exec, continue, ◌>>=◌}
use game_store.Store.Base.{Host, Store, load_live_meta, load_typed, now_ms, decode_stored_score}
use game_store.Store.Strings.{get, exists, type_of, remaining, pttl}
use game_store.Store.Hash.{hget_loaded, hget, hgetall_loaded, hgetall, hlen, hexists}
use game_store.Store.Set.{sismember_loaded, sismember, smembers_loaded, smembers, scard}
use game_store.Store.ZSet.{
  stored_score, zscore_loaded, zscore, zcard, zrange_slice, zrange_loaded, zrange,
  zrange_by_score_loaded, zrange_by_score, normalize_range,
}
use game_store.Store.Lists.{
  bounds_of, element, element_key, lrange_values, lrange_slice, lrange_loaded, lrange, llen, sub64,
  add64,
}
use game_store.Prelude.Int.{signed64}
use game_store.Store.Admin.{count_items, dbsize, raw_subkey_count}
use game_store.Store.View.{IsConsistent, meta_at, records}
use game_store.Store.Load.{loaded}
use game_store.Encoding.Keys.{subkey, subkey_prefix, subkey_prefix_byte, zscore_prefix_byte}
use game_store.Engine.Records.{lookup}
use game_store.Store.Hash.{stripped}
use game_store.Store.Keeps.{after_load, after_live_load}

module _ {ℓ κ} {S : Type 0} {A : Type ℓ} {B : Type κ} where
  -- A step that changes nothing, and what follows it.
  same_after :
      (m : Exec S A) (f : A → Exec S B) (s : S)
      → (m s).1 ≡ s
      → ((a : A) → (f a s).1 ≡ s)
      → ((m >>= f) s).1 ≡ s
  same_after m f s same next = elim (Result-cases (m s).0) [
    | inl (a, e) ↦ rw (e, same) (next a)
    | inr (x, e) ↦ rw e same
  ]

  continue_same :
      (r : Result A) (f : A → Exec S B) (s : S) → ((a : A) → (f a s).1 ≡ s) → (continue r f s).1 ≡ s
  continue_same (ok a) f s next = next a
  continue_same (err e) f s next = refl

module _ ⦃h : Host⦄ (laws : IsReliable h.engine) where
  module _ {ℓ} {B : Type ℓ} where
    load_and_read :
        (k : Bytes) (t : ℕ) (f : Option Meta → Exec (Store h) B) (s : Store h)
        → ((o : Option Meta) (s' : Store h) → (f o s').1 ≡ s')
        → IsConsistent laws s
        → IsConsistent laws ((load_typed k t >>= f) s).1
    load_and_read k t f s same c =
        after_load laws k t f s c
          (λ o e c'. subst (IsConsistent laws) (sym (same o (loaded laws k s))) c')

    live_and_read :
        (k : Bytes) (f : Option Meta → Exec (Store h) B) (s : Store h)
        → ((o : Option Meta) (s' : Store h) → (f o s').1 ≡ s')
        → IsConsistent laws s
        → IsConsistent laws ((load_live_meta k >>= f) s).1
    live_and_read k f s same c = after_live_load laws k f s c (λ c'.
        subst (IsConsistent laws) (sym (same (meta_at laws k (loaded laws k s)) (loaded laws k s)))
          c')

  pub get-IsConsistent :
      (k : Bytes) (s : Store h) → IsConsistent laws s → IsConsistent laws (get k s).1
  unfolding get
  get-IsConsistent k s c = live_and_read k _ s (λ o s'. refl) c

  pub exists-IsConsistent :
      (k : Bytes) (s : Store h) → IsConsistent laws s → IsConsistent laws (exists k s).1
  unfolding exists
  exists-IsConsistent k s c = live_and_read k _ s (λ o s'. refl) c

  pub type_of-IsConsistent :
      (k : Bytes) (s : Store h) → IsConsistent laws s → IsConsistent laws (type_of k s).1
  unfolding type_of
  type_of-IsConsistent k s c = live_and_read k _ s (λ o s'. refl) c

  -- The clock is read: records and versions stay.
  remaining-IsConsistent :
      (o : Option Meta) (s : Store h) → IsConsistent laws s → IsConsistent laws (remaining o s).1
  unfolding remaining now_ms
  remaining-IsConsistent none s c = c
  remaining-IsConsistent (some m) s c = elim (Bool-cases (m.expire_ms == 0)) [
    | inl never ↦ rw never c
    | inr later ↦ rw later c
  ]

  pub pttl-IsConsistent :
      (k : Bytes) (s : Store h) → IsConsistent laws s → IsConsistent laws (pttl k s).1
  unfolding pttl
  pttl-IsConsistent k s c =
      after_live_load laws k _ s c
        (λ c'. remaining-IsConsistent (meta_at laws k (loaded laws k s)) (loaded laws k s) c')

  hget_loaded_same : (k f : Bytes) (o : Option Meta) (s : Store h) → (hget_loaded k f o s).1 ≡ s
  unfolding hget_loaded
  hget_loaded_same k f none s = refl
  hget_loaded_same k f (some m) s = refl

  pub hget-IsConsistent :
      (k f : Bytes) (s : Store h) → IsConsistent laws s → IsConsistent laws (hget k f s).1
  unfolding hget
  hget-IsConsistent k f s c = load_and_read k type_hash _ s (hget_loaded_same k f) c

  pub hexists-IsConsistent :
      (k f : Bytes) (s : Store h) → IsConsistent laws s → IsConsistent laws (hexists k f s).1
  unfolding hexists
  hexists-IsConsistent k f s c = elim (Result-cases (hget k f s).0) [
    | inl (v, e) ↦ rw e (hget-IsConsistent k f s c)
    | inr (x, e) ↦ rw e (hget-IsConsistent k f s c)
  ]

  hgetall_loaded_same : (k : Bytes) (o : Option Meta) (s : Store h) → (hgetall_loaded k o s).1 ≡ s
  unfolding hgetall_loaded
  hgetall_loaded_same k none s = refl
  hgetall_loaded_same k (some m) s = refl

  pub hgetall-IsConsistent :
      (k : Bytes) (s : Store h) → IsConsistent laws s → IsConsistent laws (hgetall k s).1
  unfolding hgetall
  hgetall-IsConsistent k s c = load_and_read k type_hash _ s (hgetall_loaded_same k) c

  pub hlen-IsConsistent :
      (k : Bytes) (s : Store h) → IsConsistent laws s → IsConsistent laws (hlen k s).1
  unfolding hlen
  hlen-IsConsistent k s c = load_and_read k type_hash _ s (λ o s'. refl) c

  sismember_loaded_same :
      (k x : Bytes) (o : Option Meta) (s : Store h) → (sismember_loaded k x o s).1 ≡ s
  unfolding sismember_loaded
  sismember_loaded_same k x none s = refl
  sismember_loaded_same k x (some m) s = rw (laws.get_lem s.engine (subkey k m.version x)) refl

  pub sismember-IsConsistent :
      (k x : Bytes) (s : Store h) → IsConsistent laws s → IsConsistent laws (sismember k x s).1
  unfolding sismember
  sismember-IsConsistent k x s c = load_and_read k type_set _ s (sismember_loaded_same k x) c

  smembers_loaded_same : (k : Bytes) (o : Option Meta) (s : Store h) → (smembers_loaded k o s).1 ≡ s
  unfolding smembers_loaded
  smembers_loaded_same k none s = refl
  smembers_loaded_same k (some m) s =
      continue_same
        (stripped (length (subkey_prefix k m.version))
          (h.engine.scan_prefix s.engine (subkey_prefix k m.version)))
        _ s (λ v. refl)

  pub smembers-IsConsistent :
      (k : Bytes) (s : Store h) → IsConsistent laws s → IsConsistent laws (smembers k s).1
  unfolding smembers
  smembers-IsConsistent k s c = load_and_read k type_set _ s (smembers_loaded_same k) c

  pub scard-IsConsistent :
      (k : Bytes) (s : Store h) → IsConsistent laws s → IsConsistent laws (scard k s).1
  unfolding scard
  scard-IsConsistent k s c = load_and_read k type_set _ s (λ o s'. refl) c

  stored_score_same : (o : Option Bytes) (s : Store h) → (stored_score o s).1 ≡ s
  unfolding stored_score
  stored_score_same none s = refl
  stored_score_same (some raw) s = continue_same (decode_stored_score raw) _ s (λ v. refl)

  zscore_loaded_same : (k x : Bytes) (o : Option Meta) (s : Store h) → (zscore_loaded k x o s).1 ≡ s
  unfolding zscore_loaded
  zscore_loaded_same k x none s = refl
  zscore_loaded_same k x (some m) s =
      rw (laws.get_lem s.engine (subkey k m.version x))
        (stored_score_same (lookup (subkey k m.version x) (records laws s)) s)

  pub zscore-IsConsistent :
      (k x : Bytes) (s : Store h) → IsConsistent laws s → IsConsistent laws (zscore k x s).1
  unfolding zscore
  zscore-IsConsistent k x s c = load_and_read k type_zset _ s (zscore_loaded_same k x) c

  pub zcard-IsConsistent :
      (k : Bytes) (s : Store h) → IsConsistent laws s → IsConsistent laws (zcard k s).1
  unfolding zcard
  zcard-IsConsistent k s c = load_and_read k type_zset _ s (λ o s'. refl) c

  zrange_slice_same :
      (k : Bytes) (m : Meta) (r : Option (ℕ × ℕ)) (s : Store h) → (zrange_slice k m r s).1 ≡ s
  unfolding zrange_slice
  zrange_slice_same k m none s = refl
  zrange_slice_same k m (some (lo, hi)) s = refl

  zrange_loaded_same :
      (k : Bytes) (start stop : ℤ) (o : Option Meta) (s : Store h)
      → (zrange_loaded k start stop o s).1 ≡ s
  unfolding zrange_loaded
  zrange_loaded_same k start stop none s = refl
  zrange_loaded_same k start stop (some m) s = zrange_slice_same k m _ s

  pub zrange-IsConsistent :
      (k : Bytes) (start stop : ℤ) (s : Store h)
      → IsConsistent laws s
      → IsConsistent laws (zrange k start stop s).1
  unfolding zrange
  zrange-IsConsistent k start stop s c =
      load_and_read k type_zset _ s (zrange_loaded_same k start stop) c

  zrange_by_score_loaded_same :
      (k : Bytes) (lo : ℕ) (lo_exclusive : Bool) (hi : ℕ) (hi_exclusive : Bool) (o : Option Meta)
      (s : Store h)
      → (zrange_by_score_loaded k lo lo_exclusive hi hi_exclusive o s).1 ≡ s
  unfolding zrange_by_score_loaded
  zrange_by_score_loaded_same k lo lo_exclusive hi hi_exclusive none s = refl
  zrange_by_score_loaded_same k lo lo_exclusive hi hi_exclusive (some m) s = refl

  pub zrange_by_score-IsConsistent :
      (k : Bytes) (lo : ℕ) (lo_exclusive : Bool) (hi : ℕ) (hi_exclusive : Bool) (s : Store h)
      → IsConsistent laws s
      → IsConsistent laws (zrange_by_score k lo lo_exclusive hi hi_exclusive s).1
  unfolding zrange_by_score
  zrange_by_score-IsConsistent k lo lo_exclusive hi hi_exclusive s c =
      load_and_read k type_zset _ s (zrange_by_score_loaded_same k lo lo_exclusive hi hi_exclusive)
        c

  lrange_values_same :
      (k : Bytes) (v rounds i : ℕ) (s : Store h) → (lrange_values k v rounds i s).1 ≡ s
  unfolding lrange_values
  lrange_values_same k v zero i s = refl
  lrange_values_same k v (suc rounds) i s = rw (laws.get_lem s.engine (element_key k v i)) (
      continue_same (element (lookup (element_key k v i) (records laws s))) _ s (λ value.
        same_after (lrange_values k v rounds (add64 i 1)) _ s
          (lrange_values_same k v rounds (add64 i 1) s) (λ rest. refl)))

  lrange_slice_same :
      (k : Bytes) (m : Meta) (head : ℕ) (r : Option (ℕ × ℕ)) (s : Store h)
      → (lrange_slice k m head r s).1 ≡ s
  unfolding lrange_slice
  lrange_slice_same k m head none s = refl
  lrange_slice_same k m head (some (lo, hi)) s = lrange_values_same k m.version _ _ s

  lrange_loaded_same :
      (k : Bytes) (start stop : ℤ) (o : Option Meta) (s : Store h)
      → (lrange_loaded k start stop o s).1 ≡ s
  unfolding lrange_loaded
  lrange_loaded_same k start stop none s = refl
  lrange_loaded_same k start stop (some m) s = continue_same (bounds_of m) _ s (λ (head, tail).
      lrange_slice_same k m head (normalize_range start stop (signed64 (sub64 tail head))) s)

  pub lrange-IsConsistent :
      (k : Bytes) (start stop : ℤ) (s : Store h)
      → IsConsistent laws s
      → IsConsistent laws (lrange k start stop s).1
  unfolding lrange
  lrange-IsConsistent k start stop s c =
      load_and_read k type_list _ s (lrange_loaded_same k start stop) c

  pub llen-IsConsistent :
      (k : Bytes) (s : Store h) → IsConsistent laws s → IsConsistent laws (llen k s).1
  unfolding llen
  llen-IsConsistent k s c = load_and_read k type_list _ s (λ o s'. refl) c

  dbsize_same : (s : Store h) → (dbsize s).1 ≡ s
  unfolding dbsize
  dbsize_same s = refl

  pub dbsize-IsConsistent : (s : Store h) → IsConsistent laws s → IsConsistent laws (dbsize s).1
  dbsize-IsConsistent s c = subst (IsConsistent laws) (sym (dbsize_same s)) c

  raw_subkey_count_same : (s : Store h) → (raw_subkey_count s).1 ≡ s
  unfolding raw_subkey_count
  raw_subkey_count_same s =
      continue_same (count_items (h.engine.scan_prefix s.engine (subkey_prefix_byte ∷ []))) _ s
        (λ n.
          continue_same (count_items (h.engine.scan_prefix s.engine (zscore_prefix_byte ∷ []))) _ s
            (λ m. refl))

  pub raw_subkey_count-IsConsistent :
      (s : Store h) → IsConsistent laws s → IsConsistent laws (raw_subkey_count s).1
  raw_subkey_count-IsConsistent s c = subst (IsConsistent laws) (sym (raw_subkey_count_same s)) c
