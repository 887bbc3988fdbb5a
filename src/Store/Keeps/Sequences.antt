-- ===== src/Store/Keeps/Sequences.antt =====
-- crates/gamestore-engine/src/store.rs: push and pop keep a store consistent.
use game_store.Prelude.{
  ℕ, zero, suc, Bool, true, Option, none, some, List, [], ◌∷◌, ◌≡◌, refl, All, Bool-cases, inl, inr,
  if◌then◌else◌, ◌==◌, ltb, length,
}
use game_store.Bytes.{Bytes}
use game_store.Encoding.Keys.{meta_key}
use game_store.Encoding.Keys.Disjoint.{subkey-ne-meta_key}
use game_store.Encoding.Meta
use game_store.Encoding.Meta.{
  Meta, type_hash, type_set, type_zset, type_list, set_field_count, field_count,
}
use game_store.Engine.Error.{Result-cases, ok}
use game_store.Engine.Batch.{WriteBatch, put, delete, push_put, push_delete}
use game_store.Engine.Interface.{IsReliable}
use game_store.Engine.Records.{lookup}
use game_store.Store.Exec.{Exec, pure, ◌>>=◌}
use game_store.Store.Base.{Host, Store, typed, is_composite, engine_write}
use game_store.Store.View.{IsConsistent, records, meta_at, written}
use game_store.Store.Consistent.{IsMemberOp}
use game_store.Store.Load.{loaded}
use game_store.Store.Fresh.{IsWritable}
use game_store.Store.Keeps.{
  IfOk, if_ok, Batched, All-snoc, after_loop, after_load, found-IsWritable, members-IsConsistent,
}
use game_store.Encoding.Keys.{list_initial_index, list_index_field}
use game_store.Encoding.Meta.{set_list_bounds}
use game_store.Store.Base.{new_composite_meta}
use game_store.Store.Fresh.{counted, new_meta, registered}
use game_store.Store.Load.{typed-ok, deleted-IsConsistent, logical_delete_lem}
use game_store.Store.Keeps.{typed-IsCounted, counted-IsConsistent, members_and_meta-IsConsistent}
use game_store.Store.Lists.{
  element_key, element, push_values, list_meta, push_at, push, bounds_of, pop_values, pop_finish,
  pop_loaded, pop, sub64, add64,
}

pub list-is_composite : is_composite type_list ≡ true
unfolding is_composite
list-is_composite = refl

pub push_values_lem :
    (k : Bytes) (v : ℕ) (left : Bool) (values : List Bytes) (head tail : ℕ) (ops : WriteBatch)
    → All IsMemberOp ops
    → Batched (push_values k v left values head tail ops)
unfolding push_values
push_values_lem k v left [] head tail ops b = b
push_values_lem k v left (x ∷ values) head tail ops b = push_values_lem k v left values _ _ _ (
    All-snoc ops (put (element_key k v (if left then sub64 head 1 else tail)) x) b
      (λ j. subkey-ne-meta_key k j v (list_index_field (if left then sub64 head 1 else tail))))

module _ ⦃h : Host⦄ (laws : IsReliable h.engine) where
  -- The list that is found, or a new empty one.
  unfoldable pub listed : Bytes → Option Meta → Store h → Meta × Store h
  listed k none s =
      (set_list_bounds (new_meta type_list s) list_initial_index list_initial_index, registered k s)
  listed k (some m) s = (m, s)

  pub list_meta_lem :
      (k : Bytes) (o : Option Meta) (s : Store h)
      → list_meta k o s ≡ (ok (listed k o s).0, (listed k o s).1)
  unfolding list_meta listed new_composite_meta
  list_meta_lem k none s = refl
  list_meta_lem k (some m) s = refl

  pub listed-IsWritable :
      (k : Bytes) (o : Option Meta) (s : Store h)
      → IsWritable laws k type_list s (counted k type_list o s).0 (counted k type_list o s).1
      → IsWritable laws k type_list s (listed k o s).0 (listed k o s).1
  unfolding listed counted set_list_bounds set_field_count
  listed-IsWritable k (some m) s w = w
  listed-IsWritable k none s w = record {
    same_records = w.same_records;
    encodable = record { version = w.encodable.version; expire_ms = w.encodable.expire_ms };
    type_id = w.type_id;
    current = w.current;
    elsewhere = w.elsewhere;
  }

  listed-IsConsistent :
      (k : Bytes) (o : Option Meta) (s : Store h)
      → IsConsistent laws (counted k type_list o s).1
      → IsConsistent laws (listed k o s).1
  unfolding listed counted
  listed-IsConsistent k (some m) s c = c
  listed-IsConsistent k none s c = c

  pub bounds_written :
      (k : Bytes) (ops : WriteBatch) (m : Meta) (head tail : ℕ) (s₀ s : Store h)
      → IsWritable laws k type_list s₀ m s
      → All IsMemberOp ops
      → IsConsistent laws
          (engine_write (push_put ops (meta_key k) (Meta.encode (set_list_bounds m head tail))) s).1
  unfolding set_list_bounds
  bounds_written k ops m head tail s₀ s w b =
      members_and_meta-IsConsistent laws k type_list ops m (set_list_bounds m head tail) s₀ s w b
        (record { version = w.encodable.version; expire_ms = w.encodable.expire_ms }) refl

  push_at-IsConsistent :
      (k : Bytes) (values : List Bytes) (left : Bool) (m : Meta) (bounds : ℕ × ℕ) (s₀ s : Store h)
      → IsWritable laws k type_list s₀ m s
      → IsConsistent laws (push_at k values left m bounds s).1
  unfolding push_at
  push_at-IsConsistent k values left m (head, tail) s₀ s w =
      let r = push_values k m.version left values head tail [] in
      rw
        (laws.write_ok s.engine
          (push_put r.2 (meta_key k) (Meta.encode (set_list_bounds m r.0 r.1))))
        (bounds_written k r.2 m r.0 r.1 s₀ s w
          (push_values_lem k m.version left values head tail [] tt))

  -- LPUSH and RPUSH keep a store consistent.
  pub push-IsConsistent :
      (k : Bytes) (values : List Bytes) (left : Bool) (s : Store h)
      → IsConsistent laws s
      → IsConsistent laws (push k values left s).1
  unfolding push
  push-IsConsistent k values left s c = after_load laws k type_list _ s c (λ o e c₁.
      let t = loaded laws k s in
      let w = typed-IsCounted laws k type_list o t c₁ list-is_composite e in
      let c₂ =
        counted-IsConsistent laws k type_list o t c₁ (typed-ok type_list (meta_at laws k t) o e)
          w in
      rw (list_meta_lem k o t) (elim (Result-cases (bounds_of (listed k o t).0)) [
        | inl (bounds, b) ↦ rw b (
            push_at-IsConsistent k values left (listed k o t).0 bounds t (listed k o t).1
              (listed-IsWritable k o t w))
        | inr (x, b) ↦ rw b (listed-IsConsistent k o t c₂)
      ]))

  abbrev Popped : List Bytes × ℕ × ℕ × WriteBatch → Type 0
  Popped p = All IsMemberOp p.3

  abbrev with_front :
      Bytes → List Bytes × ℕ × ℕ × WriteBatch → Exec (Store h) (List Bytes × ℕ × ℕ × WriteBatch)
  with_front value (out, head, tail, batch) = pure (value ∷ out, head, tail, batch)

  with_front-Popped :
      (value : Bytes) (m : Exec (Store h) (List Bytes × ℕ × ℕ × WriteBatch)) (s : Store h)
      → ((m s).1 ≡ s) × IfOk Popped (m s).0
      → (((m >>= with_front value) s).1 ≡ s) × IfOk Popped ((m >>= with_front value) s).0
  with_front-Popped value m s (same, loop) = elim (Result-cases (m s).0) [
    | inl (p, e) ↦ rw e (same, if_ok Popped (m s).0 p loop e)
    | inr (x, e) ↦ rw e (same, tt)
  ]

  pop_values_lem :
      (k : Bytes) (v : ℕ) (left : Bool) (wanted head tail : ℕ) (ops : WriteBatch) (s : Store h)
      → All IsMemberOp ops
      → ((pop_values k v left wanted head tail ops s).1 ≡ s)
        × IfOk Popped (pop_values k v left wanted head tail ops s).0
  unfolding pop_values
  pop_values_lem k v left zero head tail ops s b = (refl, b)
  pop_values_lem k v left (suc wanted) head tail ops s b = elim (Bool-cases (ltb head tail)) [
    | inr exhausted ↦ rw (pop_values, exhausted) (refl, b)
    | inl more ↦
        let sk = element_key k v (if left then head else sub64 tail 1) in
        rw (pop_values, more, laws.get_lem s.engine sk)
          (elim (Result-cases (element (lookup sk (records laws s)))) [
            | inr (x, e) ↦ rw e (refl, tt)
            | inl (value, e) ↦ rw e (
                let ops' = push_delete ops sk in
                let head' = if left then add64 head 1 else head in
                let tail' = if left then tail else sub64 tail 1 in
                let rest = pop_values_lem k v left wanted head' tail' ops' s (
                  All-snoc ops (delete sk) b (λ j.
                    subkey-ne-meta_key k j v
                      (list_index_field (if left then head else sub64 tail 1)))) in
                with_front-Popped value (pop_values k v left wanted head' tail' ops') s rest)
          ])
  ]

  pop_finish-IsConsistent :
      (k : Bytes) (m : Meta) (p : List Bytes × ℕ × ℕ × WriteBatch) (s : Store h)
      → IsWritable laws k type_list s m s
      → Popped p
      → IsConsistent laws s
      → IsConsistent laws (pop_finish k m p s).1
  unfolding pop_finish
  pop_finish-IsConsistent k m (out, head, tail, ops) s w members c =
      elim (Bool-cases (length out == 0)) [
        | inl none_popped ↦ rw none_popped c
        | inr popped ↦ elim (Bool-cases (head == tail)) [
          | inl last ↦
              rw
                (
                  popped,
                  last,
                  laws.write_ok s.engine ops,
                  logical_delete_lem laws k (written ops s),
                )
                (deleted-IsConsistent laws k (written ops s)
                  (members-IsConsistent laws ops s members c))
          | inr left ↦
              rw
                (
                  popped,
                  left,
                  laws.write_ok s.engine
                      (push_put ops (meta_key k) (Meta.encode (set_list_bounds m head tail))),
                )
                (bounds_written k ops m head tail s s w members)
        ]
      ]

  pop_loaded-IsConsistent :
      (k : Bytes) (count : ℕ) (left : Bool) (o : Option Meta) (s : Store h)
      → IsConsistent laws s
      → typed type_list (meta_at laws k s) ≡ ok o
      → IsConsistent laws (pop_loaded k count left o s).1
  unfolding pop_loaded
  pop_loaded-IsConsistent k count left none s c e = c
  pop_loaded-IsConsistent k count left (some m) s c e = elim (Result-cases (bounds_of m)) [
    | inr (x, b) ↦ rw b c
    | inl ((head, tail), b) ↦ rw b (
        after_loop laws Popped (pop_values k m.version left count head tail []) _ s
          (pop_values_lem k m.version left count head tail [] s tt) c
          (λ p members.
            pop_finish-IsConsistent k m p s
              (found-IsWritable laws k type_list m s c list-is_composite e) members c))
  ]

  -- LPOP and RPOP keep a store consistent.
  pub pop-IsConsistent :
      (k : Bytes) (count : ℕ) (left : Bool) (s : Store h)
      → IsConsistent laws s
      → IsConsistent laws (pop k count left s).1
  unfolding pop
  pop-IsConsistent k count left s c =
      after_load laws k type_list _ s c
        (λ o e c₁. pop_loaded-IsConsistent k count left o (loaded laws k s) c₁ e)
