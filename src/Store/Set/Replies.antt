-- ===== src/Store/Set/Replies.antt =====
-- crates/gamestore-engine/src/store.rs: the replies of sismember, and the end of sadd.
use game_store.Prelude.{
  ℕ, Bool, false, ◌||◌, Option, none, some, List, [], ◌≡◌, refl, sym, ap, ◌∙◌, subst, inl, inr,
  Bool-cases, if◌then◌else◌, ◌==◌,
}
use game_store.Bytes.{Bytes}
use game_store.Bytes.Order.{==ᵇ_refl, ==ᵇ_ne}
use game_store.Encoding.Keys.{subkey, meta_key}
use game_store.Encoding.Keys.Disjoint.{subkey-ne-meta_key}
use game_store.Encoding.Meta
use game_store.Encoding.Meta.{Meta, type_set, field_count, set_field_count}
use game_store.Engine.Error.{Result, ok, err}
use game_store.Engine.Batch.{WriteBatch, put, push_put}
use game_store.Engine.Interface.{IsReliable}
use game_store.Engine.Records.{Records, lookup, insert, apply_batch, apply_op}
use game_store.Engine.Records.Laws.{lookup-insert, apply_batch-snoc}
use game_store.Store.Exec.{continue}
use game_store.Store.Base.{Host, Store, typed}
use game_store.Store.Strings.{is_some}
use game_store.Store.Hash.View.{typed-some}
use game_store.Store.Hash.ReadBack.{settled_unlimited}
use game_store.Store.View.{
  IsConsistent, records, meta_at, meta_in, written, records-written, engine_write_lem,
}
use game_store.Store.Consistent.{meta_in-put}
use game_store.Store.Load.{
  settled, live_meta, live_meta_stored, loaded, loaded-Settles, load_typed-loaded, typed_same,
}
use game_store.Store.Fresh.{counted, counted_meta_lem, IsWritable}
use game_store.Store.Keeps.{members_and_count-IsConsistent}
use game_store.Store.Set.{contains, sadd_members, sadd, sismember_loaded, sismember}
use game_store.Store.Set.Added.{holds, IsAdded}

-- The reply of SISMEMBER, from what a load found and the records.
abbrev pub member_in : Bytes → Bytes → Records → Result (Option Meta) → Result Bool
member_in k x rs (ok none) = ok false
member_in k x rs (ok (some m)) = ok (holds k m.version x rs)
member_in k x rs (err e) = err e

abbrev pub IsUnlimited : Option Meta → Type 0
IsUnlimited none = Unit
IsUnlimited (some m) = m.expire_ms ≡ 0

module _ ⦃h : Host⦄ where
  -- The store after the end of `sadd`.
  unfoldable pub sadd_done : Bytes → Meta → ℕ × ℕ × WriteBatch → Store h → Store h
  sadd_done k m p s =
      if p.1 == 0
      then s
      else written (push_put p.2 (meta_key k) (Meta.encode (set_field_count m p.0))) s

module _ ⦃h : Host⦄ (laws : IsReliable h.engine) where
  read_member :
      (k x : Bytes) (rs : Records) (s : Store h) (r : Result (Option Meta))
      → ((m : Meta) → r ≡ ok (some m) → records laws s ≡ rs)
      → (continue r (sismember_loaded k x) s).0 ≡ member_in k x rs r
  unfolding sismember_loaded holds
  read_member k x rs s (ok none) e = refl
  read_member k x rs s (ok (some m)) e =
      rw (laws.get_lem s.engine (subkey k m.version x))
        (ap (λ t. ok (is_some (lookup (subkey k m.version x) t))) (e m refl))
  read_member k x rs s (err y) e = refl

  pub sismember_reply :
      (k x : Bytes) (s : Store h)
      → IsConsistent laws s
      → (sismember k x s).0 ≡ member_in k x (records laws s) (typed type_set (live_meta laws k s))
  unfolding sismember
  sismember_reply k x s c = rw (load_typed-loaded laws k s c type_set) (
      read_member k x (records laws s) (loaded laws k s) _ (λ m e.
        (live_meta_stored laws k s m
          (sym (loaded-Settles laws k s c).found ∙ typed-some type_set _ m e)).1)
      ∙ ap (λ o. member_in k x (records laws s) (typed type_set o))
          (loaded-Settles laws k s c).found)

  pub sadd_lem :
      (k : Bytes) (members : List Bytes) (s : Store h) (o : Option Meta) (p : ℕ × ℕ × WriteBatch)
      → IsConsistent laws s
      → typed type_set (meta_at laws k (loaded laws k s)) ≡ ok o
      → sadd_members k
          (counted k type_set o (loaded laws k s)).0.version
          members
          []
          (field_count (counted k type_set o (loaded laws k s)).0)
          0
          []
          (counted k type_set o (loaded laws k s)).1
        ≡ (ok p, (counted k type_set o (loaded laws k s)).1)
      → (sadd k members s).1
        ≡ sadd_done k
            (counted k type_set o (loaded laws k s)).0
            p
            (counted k type_set o (loaded laws k s)).1
  unfolding sadd sadd_done
  sadd_lem k members s o p c e loop =
      let r = counted k type_set o (loaded laws k s) in
      rw
        (
          load_typed-loaded laws k s c type_set,
          e,
          counted_meta_lem k type_set o (loaded laws k s),
          loop,
        )
        (elim (Bool-cases (p.1 == 0)) [
          | inl none_added ↦ rw none_added refl
          | inr some_added ↦
              rw
                (
                  some_added,
                  laws.write_ok r.1.engine
                      (push_put p.2 (meta_key k) (Meta.encode (set_field_count r.0 p.0))),
                )
                refl
        ])

  settled_unlimited_lem :
      (k : Bytes) (o : Option Meta) (s : Store h) → IsUnlimited o → (settled k o s).0 ≡ o
  settled_unlimited_lem k none s u = refl
  settled_unlimited_lem k (some m) s u = settled_unlimited laws k m s u

  pub reply_at :
      (k x : Bytes) (t : Store h) (o : Option Meta)
      → IsConsistent laws t
      → meta_at laws k t ≡ o
      → IsUnlimited o
      → typed type_set o ≡ ok o
      → (sismember k x t).0 ≡ member_in k x (records laws t) (ok o)
  reply_at k x t o c e unlimited is_set =
      sismember_reply k x t c
      ∙ ap (λ y. member_in k x (records laws t) (typed type_set (settled k y t).0)) e
      ∙ ap (λ y. member_in k x (records laws t) (typed type_set y))
          (settled_unlimited_lem k o t unlimited)
      ∙ ap (member_in k x (records laws t)) is_set

  module _ (k x : Bytes) (members : List Bytes) (m : Meta) (p : ℕ × ℕ × WriteBatch)
      (s₀ s' : Store h) (w : IsWritable laws k type_set s₀ m s')
      (a : IsAdded k m.version (records laws s') members [] p) (unlimited : m.expire_ms ≡ 0) where
    abbrev recounted : Meta
    recounted = set_field_count m p.0

    abbrev batch : WriteBatch
    batch = push_put p.2 (meta_key k) (Meta.encode recounted)

    records-batch :
        records laws (written batch s')
        ≡ insert (meta_key k) (Meta.encode recounted) (apply_batch p.2 (records laws s'))
    unfolding apply_op
    records-batch =
        records-written laws batch s'
        ∙ apply_batch-snoc p.2 (put (meta_key k) (Meta.encode recounted)) (records laws s')

    meta_at-batch : meta_at laws k (written batch s') ≡ some recounted
    meta_at-batch =
        ap (meta_in k) records-batch
        ∙ meta_in-put k k recounted (apply_batch p.2 (records laws s')) (
            unfold set_field_count in
            record { version = w.encodable.version; expire_ms = w.encodable.expire_ms })
        ∙ rw (==ᵇ_refl k)

    holds-batch :
        holds k m.version x (records laws (written batch s'))
        ≡ (holds k m.version x (records laws s') || contains members x)
    unfolding holds apply_batch
    holds-batch =
        ap (λ rs. is_some (lookup (subkey k m.version x) rs)) records-batch
        ∙ ap is_some (
            lookup-insert (meta_key k) (subkey k m.version x) (Meta.encode recounted)
              (apply_batch p.2 (records laws s'))
            ∙ rw
                (==ᵇ_ne (meta_key k) (subkey k m.version x)
                  (λ e. subkey-ne-meta_key k k m.version x (sym e)))
                refl)
        ∙ a.added x

    batch-IsConsistent : IsConsistent laws (written batch s')
    batch-IsConsistent =
        subst (λ r. IsConsistent laws r.1) (engine_write_lem laws batch s')
          (members_and_count-IsConsistent laws k type_set p.2 m p.0 s₀ s' w a.member_ops)

    pub written_reply :
        (sismember k x (written batch s')).0
        ≡ ok (holds k m.version x (records laws s') || contains members x)
    unfolding set_field_count
    written_reply =
        reply_at k x (written batch s') (some recounted) batch-IsConsistent meta_at-batch unlimited
          (typed_same type_set recounted w.type_id)
        ∙ ap ok holds-batch
