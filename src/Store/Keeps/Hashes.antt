-- ===== src/Store/Keeps/Hashes.antt =====
-- crates/gamestore-engine/src/store.rs: hdel keeps a store consistent.
use game_store.Prelude.{
  ℕ, Bool, true, false, Option, none, some, List, [], ◌∷◌, ◌≡◌, refl, All, if◌then◌else◌,
}
use game_store.Bytes.{Bytes}
use game_store.Encoding.Keys.{subkey}
use game_store.Encoding.Keys.Disjoint.{subkey-ne-meta_key}
use game_store.Encoding.Meta.{Meta, type_hash, field_count}
use game_store.Engine.Error.{ok}
use game_store.Engine.Batch.{WriteBatch, delete, push_delete}
use game_store.Engine.Interface.{IsReliable}
use game_store.Engine.Records.{lookup}
use game_store.Store.Base.{Host, Store, typed, is_composite}
use game_store.Store.Strings.{is_some}
use game_store.Store.View.{IsConsistent, records, meta_at}
use game_store.Store.Consistent.{IsMemberOp}
use game_store.Store.Load.{loaded}
use game_store.Store.Keeps.{
  IfOk, Batched, All-snoc, after_loop, after_load, found-IsWritable, finish_removal-IsConsistent,
}
use game_store.Store.Hash.{hdel_fields, hdel_loaded, hdel}

hash-is_composite : is_composite type_hash ≡ true
unfolding is_composite
hash-is_composite = refl

module _ ⦃h : Host⦄ (laws : IsReliable h.engine) where
  hdel_fields_lem :
      (k : Bytes) (v : ℕ) (fields : List Bytes) (count removed : ℕ) (ops : WriteBatch) (s : Store h)
      → All IsMemberOp ops
      → ((hdel_fields k v fields count removed ops s).1 ≡ s)
        × IfOk Batched (hdel_fields k v fields count removed ops s).0
  unfolding hdel_fields
  hdel_fields_lem k v [] count removed ops s b = (refl, b)
  hdel_fields_lem k v (f ∷ fields) count removed ops s b =
      rw (laws.get_lem s.engine (subkey k v f)) (
        hdel_fields_lem k v fields _ _ _ s
          (pushed (is_some (lookup (subkey k v f) (records laws s)))))
    where
      pushed :
          (present : Bool)
          → All IsMemberOp (if present then push_delete ops (subkey k v f) else ops)
      pushed true = All-snoc ops (delete (subkey k v f)) b (λ j. subkey-ne-meta_key k j v f)
      pushed false = b

  hdel_loaded-IsConsistent :
      (k : Bytes) (fields : List Bytes) (o : Option Meta) (s : Store h)
      → IsConsistent laws s
      → typed type_hash (meta_at laws k s) ≡ ok o
      → IsConsistent laws (hdel_loaded k fields o s).1
  unfolding hdel_loaded
  hdel_loaded-IsConsistent k fields none s c e = c
  hdel_loaded-IsConsistent k fields (some m) s c e =
      after_loop laws Batched (hdel_fields k m.version fields (field_count m) 0 []) _ s
        (hdel_fields_lem k m.version fields (field_count m) 0 [] s tt) c
        (λ p members_only.
          finish_removal-IsConsistent laws k type_hash m p s s
            (found-IsWritable laws k type_hash m s c hash-is_composite e) members_only c)

  -- HDEL keeps a store consistent.
  pub hdel-IsConsistent :
      (k : Bytes) (fields : List Bytes) (s : Store h)
      → IsConsistent laws s
      → IsConsistent laws (hdel k fields s).1
  unfolding hdel
  hdel-IsConsistent k fields s c =
      after_load laws k type_hash _ s c
        (λ o e c₁. hdel_loaded-IsConsistent k fields o (loaded laws k s) c₁ e)
