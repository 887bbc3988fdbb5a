-- ===== src/Store/Keeps.antt =====
-- crates/gamestore-engine/src/store.rs: rules by which a method, step by step, keeps a store
-- consistent.
pub mod Reads
pub mod Hashes
pub mod Sets
pub mod SortedSets
pub mod Sequences
use game_store.Prelude.{
  ℕ, Bool, true, false, Option, none, some, List, [], ◌∷◌, ◌++◌, ◌≡◌, ◌≢◌, refl, sym, ap, ◌∙◌,
  subst, arith, All, Bool-cases, inl, inr, if◌then◌else◌, ◌==◌,
}
use game_store.Bytes.{Bytes, ◌==ᵇ◌}
use game_store.Bytes.Order.{eq_of_==ᵇ}
use game_store.Encoding.Keys.{meta_key}
use game_store.Encoding.Meta
use game_store.Encoding.Meta.{Meta, type_hash, set_field_count}
use game_store.Encoding.Meta.RoundTrip.{IsEncodable}
use game_store.Engine.Error.{EngineError, Result, Result-cases, ok, err}
use game_store.Engine.Batch.{WriteBatch, WriteOp, put, push_put}
use game_store.Engine.Interface.{IsReliable}
use game_store.Engine.Records.{Records, apply_batch, apply_op}
use game_store.Engine.Records.Laws.{apply_batch-snoc}
use game_store.Gc
use game_store.Store.Exec.{Exec, continue, ◌>>=◌}
use game_store.Store.Base.{
  Host, Store, typed, is_composite, load_typed, load_live_meta, engine_write, logical_delete,
}
use game_store.Store.Hash.{counted_meta, finish_removal}
use game_store.Store.View.{
  IsConsistent, IsConsistentWith, IsConsistentAt, records, meta_at, written, records-written,
  engine_write_lem,
}
use game_store.Store.Consistent.{
  IsMemberOp, IsConsistentElsewhere, put-IsConsistent, members-IsConsistentAt,
}
use game_store.Store.Load.{
  loaded, loaded-Settles, load_typed-loaded, load_live_meta-loaded, typed-ok, typed_type, deleted,
  logical_delete_lem, deleted-IsConsistent,
}
use game_store.Store.Fresh.{counted, registered, counted_meta_lem, IsWritable, counted-IsWritable}

-- What holds of the value, if there is one.
abbrev pub IfOk {ℓ κ} : {A : Type ℓ} → (A → Type κ) → Result A → Type κ
IfOk P (ok a) = P a
IfOk P (err e) = Unit

ok-injective {ℓ} : {A : Type ℓ} (x y : A) → ok x ≡ ok y → x ≡ y
ok-injective x y e = cc

pub if_ok {ℓ κ} : {A : Type ℓ} (P : A → Type κ) (r : Result A) (a : A) → IfOk P r → r ≡ ok a → P a
if_ok P (ok b) a p e = subst P (ok-injective b a e) p
if_ok P (err x) a p e = absurd (cc e)

-- The outcome of a loop: a count, a reply, and a batch of members.
abbrev pub Batched : ℕ × ℕ × WriteBatch → Type 0
Batched p = All IsMemberOp p.2

pub All-snoc :
    (ops : WriteBatch) (op : WriteOp)
    → All IsMemberOp ops
    → IsMemberOp op
    → All IsMemberOp (ops ++ op ∷ [])
All-snoc [] op h g = (g, tt)
All-snoc (o ∷ ops) op h g = (h.0, All-snoc ops op h.1 g)

module _ {ℓ} ⦃h : Host⦄ (laws : IsReliable h.engine) {A B : Type ℓ} where
  -- A step that changes nothing, and what follows it.
  pub after_reading :
      (m : Exec (Store h) A) (f : A → Exec (Store h) B) (s : Store h)
      → (m s).1 ≡ s
      → IsConsistent laws s
      → ((a : A) → (m s).0 ≡ ok a → IsConsistent laws (f a s).1)
      → IsConsistent laws ((m >>= f) s).1
  after_reading m f s same c next = elim (Result-cases (m s).0) [
    | inl (a, e) ↦ rw (e, same) (next a e)
    | inr (x, e) ↦ rw (e, same) c
  ]

module _ ⦃h : Host⦄ (laws : IsReliable h.engine) {A B : Type 0} where
  -- A loop that only reads, and gives a value with a property.
  pub after_loop :
      (P : A → Type 0) (m : Exec (Store h) A) (f : A → Exec (Store h) B) (s : Store h)
      → ((m s).1 ≡ s) × IfOk P (m s).0
      → IsConsistent laws s
      → ((a : A) → P a → IsConsistent laws (f a s).1)
      → IsConsistent laws ((m >>= f) s).1
  after_loop P m f s loop c next =
      after_reading laws m f s loop.0 c (λ a e. next a (if_ok P (m s).0 a loop.1 e))

module _ {ℓ} ⦃h : Host⦄ (laws : IsReliable h.engine) {B : Type ℓ} where
  pub after_load :
      (k : Bytes) (t : ℕ) (f : Option Meta → Exec (Store h) B) (s : Store h)
      → IsConsistent laws s
      → ((o : Option Meta)
          → typed t (meta_at laws k (loaded laws k s)) ≡ ok o
          → IsConsistent laws (loaded laws k s)
          → IsConsistent laws (f o (loaded laws k s)).1)
      → IsConsistent laws ((load_typed k t >>= f) s).1
  after_load k t f s c next =
      rw (load_typed-loaded laws k s c t)
        (elim (Result-cases (typed t (meta_at laws k (loaded laws k s)))) [
          | inl (o, e) ↦ rw e (next o e (loaded-Settles laws k s c).consistent)
          | inr (x, e) ↦ rw e (loaded-Settles laws k s c).consistent
        ])

  pub after_live_load :
      (k : Bytes) (f : Option Meta → Exec (Store h) B) (s : Store h)
      → IsConsistent laws s
      → (IsConsistent laws (loaded laws k s)
          → IsConsistent laws (f (meta_at laws k (loaded laws k s)) (loaded laws k s)).1)
      → IsConsistent laws ((load_live_meta k >>= f) s).1
  after_live_load k f s c next =
      rw (load_live_meta-loaded laws k s c) (next (loaded-Settles laws k s c).consistent)

module _ ⦃h : Host⦄ (laws : IsReliable h.engine) where
  -- Writing members only.
  pub members-IsConsistent :
      (ops : WriteBatch) (s : Store h)
      → All IsMemberOp ops
      → IsConsistent laws s
      → IsConsistent laws (engine_write ops s).1
  members-IsConsistent ops s members c =
      subst (λ rs. IsConsistentWith rs s.versions) (sym (records-written laws ops s))
        (λ j. members-IsConsistentAt j ops (records laws s) s.versions members (c j))

  -- Writing members, then metadata that agrees with the version map.
  pub members_and_meta-IsConsistent :
      (k : Bytes) (t : ℕ) (ops : WriteBatch) (m m' : Meta) (s₀ s : Store h)
      → IsWritable laws k t s₀ m s
      → All IsMemberOp ops
      → IsEncodable m'
      → m'.version ≡ m.version
      → IsConsistent laws (engine_write (push_put ops (meta_key k) (Meta.encode m')) s).1
  unfolding apply_op
  members_and_meta-IsConsistent k t ops m m' s₀ s w members encodable same =
      subst (λ rs. IsConsistentWith rs s.versions)
        (sym (
          records-written laws (push_put ops (meta_key k) (Meta.encode m')) s
          ∙ apply_batch-snoc ops (put (meta_key k) (Meta.encode m')) (records laws s)))
        (put-IsConsistent k (apply_batch ops (records laws s)) s.versions m' encodable
          (λ _. w.current ∙ ap some (sym same))
          (λ j other.
            members-IsConsistentAt j ops (records laws s) s.versions members (w.elsewhere j other)))

  recounted-IsEncodable : (m : Meta) (n : ℕ) → IsEncodable m → IsEncodable (set_field_count m n)
  unfolding set_field_count
  recounted-IsEncodable m n e = record { version = e.version; expire_ms = e.expire_ms }

  version-set_field_count : (m : Meta) (n : ℕ) → (set_field_count m n).version ≡ m.version
  unfolding set_field_count
  version-set_field_count m n = refl

  -- Writing members and the new count.
  pub members_and_count-IsConsistent :
      (k : Bytes) (t : ℕ) (ops : WriteBatch) (m : Meta) (n : ℕ) (s₀ s : Store h)
      → IsWritable laws k t s₀ m s
      → All IsMemberOp ops
      → IsConsistent laws
          (engine_write (push_put ops (meta_key k) (Meta.encode (set_field_count m n))) s).1
  members_and_count-IsConsistent k t ops m n s₀ s w members =
      members_and_meta-IsConsistent k t ops m (set_field_count m n) s₀ s w members
        (recounted-IsEncodable m n w.encodable) (version-set_field_count m n)

  -- The end of a removal keeps a store consistent.
  pub finish_removal-IsConsistent :
      (k : Bytes) (t : ℕ) (m : Meta) (removal : ℕ × ℕ × WriteBatch) (s₀ s : Store h)
      → IsWritable laws k t s₀ m s
      → All IsMemberOp removal.2
      → IsConsistent laws s
      → IsConsistent laws (finish_removal k m removal s).1
  unfolding finish_removal
  finish_removal-IsConsistent k t m (count, removed, ops) s₀ s w members c =
      elim (Bool-cases (removed == 0)) [
        | inl none_removed ↦ rw none_removed c
        | inr some_removed ↦ elim (Bool-cases (count == 0)) [
          | inl last ↦
              rw
                (
                  some_removed,
                  last,
                  laws.write_ok s.engine ops,
                  logical_delete_lem laws k (written ops s),
                )
                (deleted-IsConsistent laws k (written ops s) (members-IsConsistent ops s members c))
          | inr left ↦
              rw
                (
                  some_removed,
                  left,
                  laws.write_ok s.engine
                      (push_put ops (meta_key k) (Meta.encode (set_field_count m count))),
                )
                (members_and_count-IsConsistent k t ops m count s₀ s w members)
        ]
      ]

  -- A version for a key that has no metadata.
  registered-IsConsistent :
      (k : Bytes) (s : Store h)
      → IsConsistent laws s
      → meta_at laws k s ≡ none
      → IsConsistentElsewhere k (records laws s) (registered k s).versions
      → IsConsistent laws (registered k s)
  registered-IsConsistent k s c missing elsewhere j = elim (Bool-cases (k ==ᵇ j)) [
    | inl same ↦
        subst (λ i. IsConsistentAt i (records laws s) (registered k s).versions)
          (eq_of_==ᵇ k j same)
          (record {
            readable = (c k).readable;
            encodable = (c k).encodable;
            current = λ m p composite. absurd (cc (missing, p));
          })
    | inr other ↦ elsewhere j other
  ]

  pub counted-IsConsistent :
      (k : Bytes) (t : ℕ) (o : Option Meta) (s : Store h)
      → IsConsistent laws s
      → meta_at laws k s ≡ o
      → IsWritable laws k t s (counted k t o s).0 (counted k t o s).1
      → IsConsistent laws (counted k t o s).1
  unfolding counted
  counted-IsConsistent k t none s c missing w = registered-IsConsistent k s c missing w.elsewhere
  counted-IsConsistent k t (some m) s c found w = c

  -- Metadata that is found or new can be written, and the store that it is found in is consistent.
  pub typed-IsCounted :
      (k : Bytes) (t : ℕ) (o : Option Meta) (s : Store h)
      → IsConsistent laws s
      → is_composite t ≡ true
      → typed t (meta_at laws k s) ≡ ok o
      → IsWritable laws k t s (counted k t o s).0 (counted k t o s).1
  typed-IsCounted k t o s c composite e =
      counted-IsWritable laws k t o s c (typed-ok t (meta_at laws k s) o e) (λ m p.
        let same = typed_type t (meta_at laws k s) m (e ∙ ap ok p) in
        (same, ap is_composite same ∙ composite))

  pub found-IsWritable :
      (k : Bytes) (t : ℕ) (m : Meta) (s : Store h)
      → IsConsistent laws s
      → is_composite t ≡ true
      → typed t (meta_at laws k s) ≡ ok (some m)
      → IsWritable laws k t s m s
  unfolding counted
  found-IsWritable k t m s c composite e = typed-IsCounted k t (some m) s c composite e

module _ {ℓ} ⦃h : Host⦄ (laws : IsReliable h.engine) {B : Type ℓ} where
  pub after_counted :
      (k : Bytes) (t : ℕ) (o : Option Meta) (f : Meta → Exec (Store h) B) (s : Store h)
      → IsConsistent laws s
      → is_composite t ≡ true
      → typed t (meta_at laws k s) ≡ ok o
      → ((m : Meta) (s' : Store h)
          → IsWritable laws k t s m s'
          → IsConsistent laws s'
          → IsConsistent laws (f m s').1)
      → IsConsistent laws ((counted_meta k t o >>= f) s).1
  after_counted k t o f s c composite e next =
      let w = typed-IsCounted laws k t o s c composite e in
      rw (counted_meta_lem k t o s) (
        next (counted k t o s).0 (counted k t o s).1 w
          (counted-IsConsistent laws k t o s c (typed-ok t (meta_at laws k s) o e) w))
