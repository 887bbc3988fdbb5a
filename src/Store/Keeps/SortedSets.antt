-- ===== src/Store/Keeps/SortedSets.antt =====
-- crates/gamestore-engine/src/store.rs: zadd and zrem keep a store consistent.
use game_store.Prelude.{
  ℕ, true, Option, none, some, List, [], ◌∷◌, ◌≡◌, refl, All, Bool-cases, inl, inr, if◌then◌else◌,
}
use game_store.Bytes.{Bytes}
use game_store.Encoding.Keys.{meta_key, subkey}
use game_store.Encoding.Keys.Disjoint.{subkey-ne-meta_key}
use game_store.Encoding.Meta
use game_store.Encoding.Meta.{
  Meta, type_hash, type_set, type_zset, type_list, set_field_count, field_count,
}
use game_store.Engine.Error.{Result-cases, ok}
use game_store.Engine.Batch.{WriteBatch, WriteOp, put, delete, push_put, push_delete}
use game_store.Engine.Interface.{IsReliable}
use game_store.Engine.Records.{lookup}
use game_store.Store.Exec.{pure}
use game_store.Store.Base.{Host, Store, typed, is_composite, engine_get}
use game_store.Store.View.{IsConsistent, records, meta_at}
use game_store.Store.Consistent.{IsMemberOp}
use game_store.Store.Load.{loaded}
use game_store.Store.Fresh.{IsWritable}
use game_store.Store.Keeps.{
  IfOk, if_ok, Batched, All-snoc, after_loop, after_load, after_counted, found-IsWritable,
  members_and_count-IsConsistent, finish_removal-IsConsistent,
}
use game_store.Encoding.Keys.{zscore_key}
use game_store.Encoding.Keys.Disjoint.{zscore_key-ne-meta_key}
use game_store.Encoding.Score.{encode_score, f64_eq}
use game_store.Engine.Batch
use game_store.Store.Base.{decode_stored_score}
use game_store.Store.Set.{contains}
use game_store.Store.ZSet.{
  effective_scores, zadd_member, zadd_members, zadd_finish, zadd, zrem_member, zrem_members,
  zrem_loaded, zrem,
}

zset-is_composite : is_composite type_zset ≡ true
unfolding is_composite
zset-is_composite = refl

module _ (k : Bytes) (v : ℕ) (member : Bytes) (ops : WriteBatch) (b : All IsMemberOp ops) where
  put_score :
      (score : ℕ)
      → All IsMemberOp (
          push_put
            (push_put ops (subkey k v member) (encode_score score))
            (zscore_key k v score member)
            [])
  put_score score =
      All-snoc (push_put ops (subkey k v member) (encode_score score))
        (put (zscore_key k v score member) [])
        (All-snoc ops (put (subkey k v member) (encode_score score)) b
          (λ j. subkey-ne-meta_key k j v member))
        (λ j. zscore_key-ne-meta_key k j v score member)

  delete_score : (old : ℕ) → All IsMemberOp (push_delete ops (zscore_key k v old member))
  delete_score old =
      All-snoc ops (delete (zscore_key k v old member)) b
        (λ j. zscore_key-ne-meta_key k j v old member)

  delete_member : All IsMemberOp (push_delete ops (subkey k v member))
  delete_member = All-snoc ops (delete (subkey k v member)) b (λ j. subkey-ne-meta_key k j v member)

module _ ⦃h : Host⦄ (laws : IsReliable h.engine) where
  zadd_member_lem :
      (k : Bytes) (v : ℕ) (member : Bytes) (score : ℕ) (p : ℕ × ℕ × WriteBatch) (old : Option Bytes)
      (s : Store h)
      → Batched p
      → ((zadd_member k v member score p old s).1 ≡ s)
        × IfOk Batched (zadd_member k v member score p old s).0
  unfolding zadd_member
  zadd_member_lem k v member score (count, added, ops) none s b =
      (refl, put_score k v member ops b score)
  zadd_member_lem k v member score (count, added, ops) (some raw) s b =
      elim (Result-cases (decode_stored_score raw)) [
        | inl (old, e) ↦ elim (Bool-cases (f64_eq old score)) [
          | inl same ↦ rw (e, same) (refl, b)
          | inr other ↦
              rw (e, other)
                (
                  refl,
                  put_score k v member (push_delete ops (zscore_key k v old member))
                      (delete_score k v member ops b old) score,
                )
        ]
        | inr (x, e) ↦ rw e (refl, tt)
      ]

  zadd_members_lem :
      (k : Bytes) (v : ℕ) (pairs : List (Bytes × ℕ)) (p : ℕ × ℕ × WriteBatch) (s : Store h)
      → Batched p
      → ((zadd_members k v pairs p s).1 ≡ s) × IfOk Batched (zadd_members k v pairs p s).0
  unfolding zadd_members
  zadd_members_lem k v [] p s b = (refl, b)
  zadd_members_lem k v ((member, score) ∷ pairs) p s b =
      let old = lookup (subkey k v member) (records laws s) in
      let one = zadd_member_lem k v member score p old s b in
      rw (laws.get_lem s.engine (subkey k v member))
        (elim (Result-cases (zadd_member k v member score p old s).0) [
          | inl (p', e) ↦
              rw (one.0, e) (zadd_members_lem k v pairs p' s (if_ok Batched _ p' one.1 e))
          | inr (x, e) ↦ rw (one.0, e) (refl, tt)
        ])

  zadd_finish-IsConsistent :
      (k : Bytes) (m : Meta) (p : ℕ × ℕ × WriteBatch) (s₀ s : Store h)
      → IsWritable laws k type_zset s₀ m s
      → Batched p
      → IsConsistent laws s
      → IsConsistent laws (zadd_finish k m p s).1
  unfolding zadd_finish
  zadd_finish-IsConsistent k m (count, added, ops) s₀ s w b c =
      elim (Bool-cases (Batch.is_empty ops)) [
        | inl nothing ↦ rw nothing c
        | inr something ↦
            rw
              (
                something,
                laws.write_ok s.engine
                    (push_put ops (meta_key k) (Meta.encode (set_field_count m count))),
              )
              (members_and_count-IsConsistent laws k type_zset ops m count s₀ s w b)
      ]

  -- ZADD keeps a store consistent.
  pub zadd-IsConsistent :
      (k : Bytes) (pairs : List (ℕ × Bytes)) (s : Store h)
      → IsConsistent laws s
      → IsConsistent laws (zadd k pairs s).1
  unfolding zadd
  zadd-IsConsistent k pairs s c = after_load laws k type_zset _ s c (λ o e c₁.
      after_counted laws k type_zset o _ (loaded laws k s) c₁ zset-is_composite e (λ m s' w c₂.
        after_loop laws Batched
          (zadd_members k m.version (effective_scores pairs []) (field_count m, 0, [])) _ s'
          (zadd_members_lem k m.version (effective_scores pairs []) (field_count m, 0, []) s' tt) c₂
          (λ p b. zadd_finish-IsConsistent k m p (loaded laws k s) s' w b c₂)))

  zrem_member_lem :
      (k : Bytes) (v : ℕ) (member : Bytes) (p : ℕ × ℕ × WriteBatch) (old : Option Bytes)
      (s : Store h)
      → Batched p
      → ((zrem_member k v member p old s).1 ≡ s) × IfOk Batched (zrem_member k v member p old s).0
  unfolding zrem_member
  zrem_member_lem k v member (count, removed, ops) none s b = (refl, b)
  zrem_member_lem k v member (count, removed, ops) (some raw) s b =
      elim (Result-cases (decode_stored_score raw)) [
        | inl (old, e) ↦ rw e (
          refl,
          delete_score k v member (push_delete ops (subkey k v member))
              (delete_member k v member ops b) old,
        )
        | inr (x, e) ↦ rw e (refl, tt)
      ]

  abbrev stored_unless_seen : Bytes → ℕ → List Bytes → Bytes → Store h → Option Bytes
  stored_unless_seen k v seen member s =
      if contains seen member then none else lookup (subkey k v member) (records laws s)

  zrem_members_lem :
      (k : Bytes) (v : ℕ) (members seen : List Bytes) (p : ℕ × ℕ × WriteBatch) (s : Store h)
      → Batched p
      → ((zrem_members k v members seen p s).1 ≡ s)
        × IfOk Batched (zrem_members k v members seen p s).0
  unfolding zrem_members
  zrem_members_lem k v [] seen p s b = (refl, b)
  zrem_members_lem k v (member ∷ members) seen p s b =
      rw (read)
        (elim (Result-cases (zrem_member k v member p (stored_unless_seen k v seen member s) s).0) [
          | inl (p', e) ↦
              rw (one.0, e)
                (zrem_members_lem k v members (member ∷ seen) p' s (if_ok Batched _ p' one.1 e))
          | inr (x, e) ↦ rw (one.0, e) (refl, tt)
        ])
    where
      read :
          (if contains seen member then pure none else engine_get (subkey k v member)) s
          ≡ (ok (stored_unless_seen k v seen member s), s)
      read = elim (Bool-cases (contains seen member)) [
        | inl again ↦ rw again
        | inr first ↦ rw (first, laws.get_lem s.engine (subkey k v member))
      ]

      one :
          ((zrem_member k v member p (stored_unless_seen k v seen member s) s).1 ≡ s)
          × IfOk Batched (zrem_member k v member p (stored_unless_seen k v seen member s) s).0
      one = zrem_member_lem k v member p (stored_unless_seen k v seen member s) s b

  zrem_loaded-IsConsistent :
      (k : Bytes) (members : List Bytes) (o : Option Meta) (s : Store h)
      → IsConsistent laws s
      → typed type_zset (meta_at laws k s) ≡ ok o
      → IsConsistent laws (zrem_loaded k members o s).1
  unfolding zrem_loaded
  zrem_loaded-IsConsistent k members none s c e = c
  zrem_loaded-IsConsistent k members (some m) s c e =
      after_loop laws Batched (zrem_members k m.version members [] (field_count m, 0, [])) _ s
        (zrem_members_lem k m.version members [] (field_count m, 0, []) s tt) c
        (λ p b.
          finish_removal-IsConsistent laws k type_zset m p s s
            (found-IsWritable laws k type_zset m s c zset-is_composite e) b c)

  -- ZREM keeps a store consistent.
  pub zrem-IsConsistent :
      (k : Bytes) (members : List Bytes) (s : Store h)
      → IsConsistent laws s
      → IsConsistent laws (zrem k members s).1
  unfolding zrem
  zrem-IsConsistent k members s c =
      after_load laws k type_zset _ s c
        (λ o e c₁. zrem_loaded-IsConsistent k members o (loaded laws k s) c₁ e)
