-- ===== src/Store/WrongType.antt =====
-- crates/gamestore-engine/src/store.rs: the methods on a live key of another type.
use game_store.Prelude.{ℕ, ◌<◌, Bool, false, Option, none, some, List, ◌≡◌, refl, ◌∙◌, arith, ◌==◌}
use game_store.Prelude.Int.{ℤ}
use game_store.Bytes.{Bytes}
use game_store.Encoding.Meta.{Meta, type_string, type_hash, type_set, type_zset, type_list}
use game_store.Engine.Error.{Result, err, wrong_type}
use game_store.Engine.Interface.{IsReliable}
use game_store.Store.Exec.{Exec, continue, ◌>>=◌}
use game_store.Store.Base.{Host, Store, typed, load_typed}
use game_store.Store.Hash.{hset, hget, hgetall, hdel, hlen, hexists}
use game_store.Store.Set.{sadd, srem, sismember, smembers, scard}
use game_store.Store.ZSet.{zadd, zscore, zrem, zcard, zrange, zrange_by_score}
use game_store.Store.Lists.{push, pop, lrange, llen}
use game_store.Store.View.{IsConsistent, records, meta_at}
use game_store.Store.Load.{settled, loaded-Settles, live_meta, live_meta_stored, load_typed-loaded}

module _ ⦃h : Host⦄ (laws : IsReliable h.engine) (k : Bytes) (s : Store h) where
  -- The error, and a store with the records and versions that there were.
  pub record IsRefused {ℓ} {A : Type ℓ} (r : Result A × Store h) : Type ℓ where
    pub outcome : r.0 ≡ err wrong_type
    pub same_records : records laws r.1 ≡ records laws s
    pub same_versions : r.1.versions ≡ s.versions

  settled_versions :
      (o : Option Meta) (m : Meta)
      → (settled k o s).0 ≡ some m
      → (settled k o s).1.versions ≡ s.versions
  settled_versions none m e = cc
  settled_versions (some n) m e = ground arith

  typed_other : (t : ℕ) (m : Meta) → (m.type_id == t) ≡ false → typed t (some m) ≡ err wrong_type
  unfolding typed
  typed_other t m other = rw other refl

  load_typed-IsRefused {ℓ} :
      {A : Type ℓ} (t : ℕ) (f : Option Meta → Exec (Store h) A) (m : Meta)
      → IsConsistent laws s
      → live_meta laws k s ≡ some m
      → (m.type_id == t) ≡ false
      → IsRefused ((load_typed k t >>= f) s)
  load_typed-IsRefused t f m c found other =
      rw
        (
          load_typed-loaded laws k s c t,
          (loaded-Settles laws k s c).found ∙ found,
          typed_other t m other,
        )
        (record {
          outcome = refl;
          same_records = (live_meta_stored laws k s m found).1;
          same_versions = settled_versions (meta_at laws k s) m found;
        })

  -- What follows a refused step is not reached.
  after-IsRefused {ℓ} :
      {A B : Type ℓ} (f : A → Exec (Store h) B) (r : Result A × Store h)
      → IsRefused r
      → IsRefused (continue r.0 f r.1)
  after-IsRefused f r refused = rw refused.outcome (record {
    outcome = refl;
    same_records = refused.same_records;
    same_versions = refused.same_versions;
  })

  string_other :
      (m : Meta) (t : ℕ) → m.type_id ≡ type_string → type_string < t → (m.type_id == t) ≡ false
  string_other m t e above = ground arith

  -- On a consistent store, each method for Hashes, Sets, Sorted sets and Lists on a key that holds
  -- a live String fails with the wrong-type error and leaves the records and the versions as they
  -- are.
  pub string-IsRefused :
      (m : Meta) (pairs : List (Bytes × Bytes)) (scores : List (ℕ × Bytes)) (names : List Bytes)
      (name : Bytes) (start stop : ℤ) (lo hi count : ℕ) (lo_exclusive hi_exclusive left : Bool)
      → IsConsistent laws s
      → live_meta laws k s ≡ some m
      → m.type_id ≡ type_string
      → (IsRefused (hset k pairs s)
          × IsRefused (hget k name s)
          × IsRefused (hgetall k s)
          × IsRefused (hdel k names s)
          × IsRefused (hlen k s)
          × IsRefused (hexists k name s))
        × (IsRefused (sadd k names s)
            × IsRefused (srem k names s)
            × IsRefused (sismember k name s)
            × IsRefused (smembers k s)
            × IsRefused (scard k s))
        × (IsRefused (zadd k scores s)
            × IsRefused (zscore k name s)
            × IsRefused (zrem k names s)
            × IsRefused (zcard k s)
            × IsRefused (zrange k start stop s)
            × IsRefused (zrange_by_score k lo lo_exclusive hi hi_exclusive s))
        × (IsRefused (push k names left s)
            × IsRefused (pop k count left s)
            × IsRefused (lrange k start stop s)
            × IsRefused (llen k s))
  unfolding hset hget hgetall hdel hlen hexists sadd srem sismember smembers scard zadd zscore zrem
      zcard zrange zrange_by_score push pop lrange llen
  string-IsRefused m pairs scores names name start stop lo hi count lo_exclusive hi_exclusive left c
        found e =
      let hash = string_other m type_hash e (omega arith) in
      let set = string_other m type_set e (omega arith) in
      let zset = string_other m type_zset e (omega arith) in
      let list = string_other m type_list e (omega arith) in
      (
        (
          load_typed-IsRefused type_hash _ m c found hash,
          load_typed-IsRefused type_hash _ m c found hash,
          load_typed-IsRefused type_hash _ m c found hash,
          load_typed-IsRefused type_hash _ m c found hash,
          load_typed-IsRefused type_hash _ m c found hash,
          after-IsRefused _ (hget k name s) (load_typed-IsRefused type_hash _ m c found hash),
        ),
        (
          load_typed-IsRefused type_set _ m c found set,
          load_typed-IsRefused type_set _ m c found set,
          load_typed-IsRefused type_set _ m c found set,
          load_typed-IsRefused type_set _ m c found set,
          load_typed-IsRefused type_set _ m c found set,
        ),
        (
          load_typed-IsRefused type_zset _ m c found zset,
          load_typed-IsRefused type_zset _ m c found zset,
          load_typed-IsRefused type_zset _ m c found zset,
          load_typed-IsRefused type_zset _ m c found zset,
          load_typed-IsRefused type_zset _ m c found zset,
          load_typed-IsRefused type_zset _ m c found zset,
        ),
        (
          load_typed-IsRefused type_list _ m c found list,
          load_typed-IsRefused type_list _ m c found list,
          load_typed-IsRefused type_list _ m c found list,
          load_typed-IsRefused type_list _ m c found list,
        ),
      )
