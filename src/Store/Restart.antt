-- ===== src/Store/Restart.antt =====
-- crates/gamestore-engine/src/store.rs: with_engine and rebuild_version_map.
use game_store.Prelude.{
  ℕ, true, Option, none, some, [], ◌∷◌, ◌≡◌, refl, ap, ◌∙◌, arith, map, Option-cases, inl, inr,
  subst, if◌then◌else◌, Bool-cases, All,
}
use game_store.Bytes.{Bytes, ◌==ᵇ◌, bytes_lt, starts_with}
use game_store.Bytes.Order.{eq_of_==ᵇ}
use game_store.Encoding.Keys.{meta_key, meta_prefix}
use game_store.Encoding.Meta
use game_store.Encoding.Meta.{Meta}
use game_store.Encoding.Meta.RoundTrip.{IsEncodable}
use game_store.Engine.Error.{ok}
use game_store.Engine.Interface.{IsReliable}
use game_store.Engine.Records.{Records, IsSorted, lookup, with_prefix}
use game_store.Engine.Records.Laws.{lookup-Above, lookup-filter_by, filter_by-IsSorted}
use game_store.Gc
use game_store.Gc.{VersionMap}
use game_store.Gc.Laws.{get-set}
use game_store.Store.Base.{
  Host, Store, is_composite, register_meta, rebuild_from, rebuild_version_map, decode_record,
}
use game_store.Store.Admin.{with_engine}
use game_store.Store.View.{IsConsistent, meta_in, decoded}

-- The version to register for metadata.
abbrev pub registered_version : Option Meta → Option ℕ
registered_version none = none
registered_version (some m) = if is_composite m.type_id then some m.version else none

abbrev or_else : Option ℕ → Option ℕ → Option ℕ
or_else none d = d
or_else (some v) d = some v

abbrev rebuilt : Records → VersionMap → VersionMap
rebuilt [] vm = vm
rebuilt ((k, v) ∷ rs) vm = rebuilt rs (register_meta k v vm)

rebuild_from-ok :
    ⦃h : Host⦄ (rs : Records) (s : Store h)
    → rebuild_from (map ok rs) s ≡ (ok tt, record s { versions = rebuilt rs s.versions })
unfolding rebuild_from
rebuild_from-ok [] s = refl
rebuild_from-ok ((k, v) ∷ rs) s =
    rebuild_from-ok rs (record s { versions = register_meta k v s.versions })

get-register_meta :
    (raw v k : Bytes) (vm : VersionMap)
    → Gc.get (register_meta raw v vm) k ≡ (
        if raw ==ᵇ meta_key k
        then or_else (registered_version (Meta.decode v)) (Gc.get vm k)
        else Gc.get vm k)
unfolding register_meta meta_key ◌==ᵇ◌
get-register_meta [] v k vm = refl
get-register_meta (first ∷ j) v k vm = elim (Option-cases (Meta.decode v)) [
  | inl bad ↦ ground arith
  | inr (m, good) ↦ ground (arith, get-set j k m.version vm)
]

get-rebuilt :
    (k : Bytes) (rs : Records) (vm : VersionMap)
    → IsSorted rs
    → Gc.get (rebuilt rs vm) k ≡ or_else (registered_version (meta_in k rs)) (Gc.get vm k)
unfolding meta_in lookup
get-rebuilt k [] vm h = refl
get-rebuilt k ((raw, v) ∷ rs) vm h =
    get-rebuilt k rs (register_meta raw v vm) h.1
    ∙ ap (or_else (registered_version (decoded (lookup (meta_key k) rs))))
        (get-register_meta raw v k vm)
    ∙ elim (Bool-cases (raw ==ᵇ meta_key k)) [
      | inl here ↦
          let absent = lookup-Above (meta_key k) rs (
            subst (λ x. All (λ (s : Bytes × Bytes). bytes_lt x s.0 ≡ true) rs)
              (eq_of_==ᵇ raw (meta_key k) here) h.0) in
          rw (here, absent)
      | inr elsewhere ↦ rw elsewhere
    ]

starts_with_meta : (k : Bytes) → starts_with (meta_prefix ∷ []) (meta_key k) ≡ true
unfolding starts_with meta_key
starts_with_meta k = refl

lookup-with_prefix_meta :
    (k : Bytes) (rs : Records)
    → IsSorted rs
    → lookup (meta_key k) (with_prefix (meta_prefix ∷ []) rs) ≡ lookup (meta_key k) rs
unfolding with_prefix meta_key
lookup-with_prefix_meta k rs h =
    lookup-filter_by (λ r. starts_with (meta_prefix ∷ []) r.0) (meta_key k) rs h
    ∙ ground (arith, starts_with_meta k)

same_meta :
    (k : Bytes) (rs : Records)
    → IsSorted rs
    → meta_in k (with_prefix (meta_prefix ∷ []) rs) ≡ meta_in k rs
unfolding meta_in
same_meta k rs h = ap decoded (lookup-with_prefix_meta k rs h)

none_new : (k : Bytes) (o : Option ℕ) → or_else o (Gc.get Gc.new k) ≡ o
unfolding Gc.get Gc.new
none_new k none = refl
none_new k (some v) = refl

-- The metadata of a key can be read, and its fields are in range.
pub record IsReadableAt (k : Bytes) (rs : Records) : Type 0 where
  pub readable : decode_record (lookup (meta_key k) rs) ≡ ok (meta_in k rs)
  pub encodable : (m : Meta) → meta_in k rs ≡ some m → IsEncodable m

module _ ⦃h : Host⦄ (laws : IsReliable h.engine) where
  abbrev found_versions : h.engine.State → VersionMap
  found_versions engine = rebuilt (with_prefix (meta_prefix ∷ []) (laws.contents engine)) Gc.new

  abbrev opened : h.engine.State → ℕ → ℕ → Store h
  opened engine clock readings = record {
    engine = engine;
    versions = found_versions engine;
    version_clock = clock;
    readings = readings;
  }

  with_engine_lem :
      (engine : h.engine.Opened) (clock readings : ℕ)
      → with_engine engine clock readings
        ≡ (ok tt, opened (h.engine.install_gc engine) clock readings)
  unfolding with_engine rebuild_version_map Gc.clear Gc.new
  with_engine_lem engine clock readings = rw (
    laws.scan_prefix_lem (h.engine.install_gc engine) (meta_prefix ∷ []),
    rebuild_from-ok (with_prefix (meta_prefix ∷ []) (laws.contents (h.engine.install_gc engine)))
        (record {
          engine = h.engine.install_gc engine;
          versions = Gc.new;
          version_clock = clock;
          readings = readings;
        }),
  )

  get-found_versions :
      (k : Bytes) (engine : h.engine.State)
      → Gc.get (found_versions engine) k ≡ registered_version (meta_in k (laws.contents engine))
  get-found_versions k engine =
      let rs = laws.contents engine in
      let sorted = laws.contents-IsSorted engine in
      get-rebuilt k (with_prefix (meta_prefix ∷ []) rs) Gc.new (
        unfold with_prefix in
        filter_by-IsSorted (λ r. starts_with (meta_prefix ∷ []) r.0) rs sorted)
      ∙ rw (same_meta k rs sorted) (none_new k (registered_version (meta_in k rs)))

  opened-IsConsistent :
      (engine : h.engine.State) (clock readings : ℕ)
      → ((k : Bytes) → IsReadableAt k (laws.contents engine))
      → IsConsistent laws (opened engine clock readings)
  opened-IsConsistent engine clock readings ok_at k = record {
    readable = (ok_at k).readable;
    encodable = (ok_at k).encodable;
    current = λ m found composite.
        get-found_versions k engine ∙ ap registered_version found ∙ rw composite;
  }

  -- Opening a store over an engine whose metadata records can all be read succeeds, and the
  -- rebuilt version map makes the store consistent.
  pub with_engine-IsConsistent :
      (engine : h.engine.Opened) (clock readings : ℕ)
      → ((k : Bytes) → IsReadableAt k (laws.contents (h.engine.install_gc engine)))
      → ((with_engine engine clock readings).0 ≡ ok tt)
        × IsConsistent laws (with_engine engine clock readings).1
  with_engine-IsConsistent engine clock readings ok_at =
      rw (with_engine_lem engine clock readings)
        (refl, opened-IsConsistent (h.engine.install_gc engine) clock readings ok_at)
