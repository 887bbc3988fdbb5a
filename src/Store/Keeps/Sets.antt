-- ===== src/Store/Keeps/Sets.antt =====
-- crates/gamestore-engine/src/store.rs: sadd and srem keep a store consistent.
use game_store.Prelude.{
  ℕ, Bool, true, false, Option, none, some, List, [], ◌∷◌, ◌≡◌, refl, All, Bool-cases, inl, inr,
  if◌then◌else◌, ◌==◌,
}
use game_store.Bytes.{Bytes}
use game_store.Encoding.Keys.{meta_key, subkey}
use game_store.Encoding.Keys.Disjoint.{subkey-ne-meta_key}
use game_store.Encoding.Meta
use game_store.Encoding.Meta.{
  Meta, type_hash, type_set, type_zset, type_list, set_field_count, field_count,
}
use game_store.Engine.Error.{ok}
use game_store.Engine.Batch.{WriteBatch, put, delete, push_put, push_delete}
use game_store.Engine.Interface.{IsReliable}
use game_store.Engine.Records.{lookup}
use game_store.Store.Base.{Host, Store, typed, is_composite}
use game_store.Store.Strings.{is_some}
use game_store.Store.View.{IsConsistent, records, meta_at}
use game_store.Store.Consistent.{IsMemberOp}
use game_store.Store.Load.{loaded}
use game_store.Store.Keeps.{
  IfOk, Batched, All-snoc, after_loop, after_load, after_counted, found-IsWritable,
  members_and_count-IsConsistent, finish_removal-IsConsistent,
}
use game_store.Store.Set.{
  contains, seen_or_stored, unseen_and_stored, sadd_members, sadd, srem_members, srem_loaded, srem,
}

pub set-is_composite : is_composite type_set ≡ true
unfolding is_composite
set-is_composite = refl

module _ ⦃h : Host⦄ (laws : IsReliable h.engine) where
  pub seen_or_stored_lem :
      (k : Bytes) (v : ℕ) (seen : List Bytes) (m : Bytes) (s : Store h)
      → seen_or_stored k v seen m s ≡ (
        ok (if contains seen m then true else is_some (lookup (subkey k v m) (records laws s))),
        s,
      )
  unfolding seen_or_stored
  seen_or_stored_lem k v seen m s = elim (Bool-cases (contains seen m)) [
    | inl again ↦ rw again
    | inr first ↦ rw (first, laws.get_lem s.engine (subkey k v m))
  ]

  unseen_and_stored_lem :
      (k : Bytes) (v : ℕ) (seen : List Bytes) (m : Bytes) (s : Store h)
      → unseen_and_stored k v seen m s ≡ (
        ok (if contains seen m then false else is_some (lookup (subkey k v m) (records laws s))),
        s,
      )
  unfolding unseen_and_stored
  unseen_and_stored_lem k v seen m s = elim (Bool-cases (contains seen m)) [
    | inl again ↦ rw again
    | inr first ↦ rw (first, laws.get_lem s.engine (subkey k v m))
  ]

  sadd_members_lem :
      (k : Bytes) (v : ℕ) (members seen : List Bytes) (count added : ℕ) (ops : WriteBatch)
      (s : Store h)
      → All IsMemberOp ops
      → ((sadd_members k v members seen count added ops s).1 ≡ s)
        × IfOk Batched (sadd_members k v members seen count added ops s).0
  unfolding sadd_members
  sadd_members_lem k v [] seen count added ops s b = (refl, b)
  sadd_members_lem k v (m ∷ members) seen count added ops s b =
      rw (seen_or_stored_lem k v seen m s) (
        sadd_members_lem k v members (m ∷ seen) _ _ _ s (
          pushed
            (if contains seen m then true else is_some (lookup (subkey k v m) (records laws s)))))
    where
      pushed :
          (present : Bool)
          → All IsMemberOp (if present then ops else push_put ops (subkey k v m) [])
      pushed true = b
      pushed false = All-snoc ops (put (subkey k v m) []) b (λ j. subkey-ne-meta_key k j v m)

  srem_members_lem :
      (k : Bytes) (v : ℕ) (members seen : List Bytes) (count removed : ℕ) (ops : WriteBatch)
      (s : Store h)
      → All IsMemberOp ops
      → ((srem_members k v members seen count removed ops s).1 ≡ s)
        × IfOk Batched (srem_members k v members seen count removed ops s).0
  unfolding srem_members
  srem_members_lem k v [] seen count removed ops s b = (refl, b)
  srem_members_lem k v (m ∷ members) seen count removed ops s b =
      rw (unseen_and_stored_lem k v seen m s) (
        srem_members_lem k v members (m ∷ seen) _ _ _ s (
          pushed
            (if contains seen m then false else is_some (lookup (subkey k v m) (records laws s)))))
    where
      pushed :
          (present : Bool)
          → All IsMemberOp (if present then push_delete ops (subkey k v m) else ops)
      pushed true = All-snoc ops (delete (subkey k v m)) b (λ j. subkey-ne-meta_key k j v m)
      pushed false = b

  -- SADD keeps a store consistent.
  pub sadd-IsConsistent :
      (k : Bytes) (members : List Bytes) (s : Store h)
      → IsConsistent laws s
      → IsConsistent laws (sadd k members s).1
  unfolding sadd
  sadd-IsConsistent k members s c = after_load laws k type_set _ s c (λ o e c₁.
      after_counted laws k type_set o _ (loaded laws k s) c₁ set-is_composite e (λ m s' w c₂.
        after_loop laws Batched (sadd_members k m.version members [] (field_count m) 0 []) _ s'
          (sadd_members_lem k m.version members [] (field_count m) 0 [] s' tt) c₂
          (λ p members_only. elim (Bool-cases (p.1 == 0)) [
            | inl none_added ↦ rw none_added c₂
            | inr added ↦
                rw
                  (
                    added,
                    laws.write_ok s'.engine
                        (push_put p.2 (meta_key k) (Meta.encode (set_field_count m p.0))),
                  )
                  (members_and_count-IsConsistent laws k type_set p.2 m p.0 (loaded laws k s) s' w
                    members_only)
          ])))

  srem_loaded-IsConsistent :
      (k : Bytes) (members : List Bytes) (o : Option Meta) (s : Store h)
      → IsConsistent laws s
      → typed type_set (meta_at laws k s) ≡ ok o
      → IsConsistent laws (srem_loaded k members o s).1
  unfolding srem_loaded
  srem_loaded-IsConsistent k members none s c e = c
  srem_loaded-IsConsistent k members (some m) s c e =
      after_loop laws Batched (srem_members k m.version members [] (field_count m) 0 []) _ s
        (srem_members_lem k m.version members [] (field_count m) 0 [] s tt) c
        (λ p members_only.
          finish_removal-IsConsistent laws k type_set m p s s
            (found-IsWritable laws k type_set m s c set-is_composite e) members_only c)

  -- SREM keeps a store consistent.
  pub srem-IsConsistent :
      (k : Bytes) (members : List Bytes) (s : Store h)
      → IsConsistent laws s
      → IsConsistent laws (srem k members s).1
  unfolding srem
  srem-IsConsistent k members s c =
      after_load laws k type_set _ s c
        (λ o e c₁. srem_loaded-IsConsistent k members o (loaded laws k s) c₁ e)
