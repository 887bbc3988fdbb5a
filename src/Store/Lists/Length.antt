-- ===== src/Store/Lists/Length.antt =====
-- crates/gamestore-engine/src/store.rs: push and llen.
use game_store.Prelude.{
  ℕ, ◌+◌, ◌^◌, ◌<◌, Bool, Option, none, some, List, [], ◌≡◌, refl, sym, ap, ◌∙◌, subst, arith,
  length,
}
use game_store.Prelude.Int.{pos, signed64}
use game_store.Bytes.{Bytes}
use game_store.Bytes.Order.{==ᵇ_refl}
use game_store.Encoding.Keys.{meta_key, list_initial_index}
use game_store.Encoding.Meta
use game_store.Encoding.Meta.{Meta, type_list, list_bounds, set_list_bounds}
use game_store.Encoding.Meta.RoundTrip.{list_bounds-set_list_bounds}
use game_store.Engine.Error.{ok}
use game_store.Engine.Batch.{WriteBatch, put, push_put}
use game_store.Engine.Interface.{IsReliable}
use game_store.Engine.Records.{apply_batch, apply_op}
use game_store.Engine.Records.Laws.{apply_batch-snoc}
use game_store.Store.Base.{Host, Store, typed}
use game_store.Store.Hash.ReadBack.{settled_unlimited}
use game_store.Store.View.{
  IsConsistent, records, meta_at, meta_in, written, records-written, engine_write_lem,
}
use game_store.Store.Consistent.{meta_in-put}
use game_store.Store.Load.{settled, live_meta, loaded, loaded-Settles, load_typed-loaded}
use game_store.Store.Fresh.{IsWritable, new_meta}
use game_store.Store.Keeps.{typed-IsCounted}
use game_store.Store.Keeps.Sequences.{
  listed, list_meta_lem, listed-IsWritable, bounds_written, push_values_lem, list-is_composite,
}
use game_store.Store.Lists.{sub64, bounds_of, push_values, push_at, push, llen}
use game_store.Store.Lists.Span.{
  InRange, span, IsListed, push_values-span, signed64_small, list_len_lem, IsListed-typed,
  bounds_of_lem,
}

module _ ⦃h : Host⦄ (laws : IsReliable h.engine) where
  llen_lem :
      (k : Bytes) (s : Store h)
      → IsConsistent laws s
      → (n : ℕ) → IsListed (live_meta laws k s) n
      → n < 2 ^ 63
      → (llen k s).0 ≡ ok (pos n)
  unfolding llen
  llen_lem k s c n l small =
      rw
        (
          load_typed-loaded laws k s c type_list,
          (loaded-Settles laws k s c).found,
          IsListed-typed (live_meta laws k s) n l,
        )
        (ap ok (list_len_lem (live_meta laws k s) n l small))

  -- The bounds of the list that a push starts from.
  listed_bounds :
      (k : Bytes) (o : Option Meta) (s : Store h) (n : ℕ)
      → IsListed o n
      → ((listed laws k o s).0.expire_ms ≡ 0)
        × (b : ℕ × ℕ) × (bounds_of (listed laws k o s).0 ≡ ok b)
        × InRange b
        × (span b ≡ n)
  listed_bounds k none s n l = (
    unfold listed set_list_bounds in refl,
    (list_initial_index, list_initial_index),
    unfold listed in
        bounds_of_lem (set_list_bounds (new_meta type_list s) list_initial_index list_initial_index)
          _
          (list_bounds-set_list_bounds (new_meta type_list s) list_initial_index list_initial_index
            refl (omega arith) (omega arith)),
    (omega arith, omega arith),
    omega (arith, l),
  )
  listed_bounds k (some m) s n (t, u, b, e, range, spans) =
      (unfold listed in u, b, unfold listed in bounds_of_lem m b e, range, spans)

  module _ (k : Bytes) (values : List Bytes) (left : Bool) (s₀ s' : Store h) (m : Meta)
      (head tail : ℕ) (w : IsWritable laws k type_list s₀ m s') (range : InRange (head, tail))
      (unlimited : m.expire_ms ≡ 0) where
    abbrev pushed : ℕ × ℕ × WriteBatch
    pushed = push_values k m.version left values head tail []

    abbrev rebounded : Meta
    rebounded = set_list_bounds m pushed.0 pushed.1

    abbrev batch : WriteBatch
    batch = push_put pushed.2 (meta_key k) (Meta.encode rebounded)

    push_at_lem :
        push_at k values left m (head, tail) s'
        ≡ (ok (signed64 (sub64 pushed.1 pushed.0)), written batch s')
    unfolding push_at
    push_at_lem = rw (laws.write_ok s'.engine batch) refl

    batch-IsConsistent : IsConsistent laws (written batch s')
    batch-IsConsistent =
        subst (λ r. IsConsistent laws r.1) (engine_write_lem laws batch s')
          (bounds_written laws k pushed.2 m pushed.0 pushed.1 s₀ s' w
            (push_values_lem k m.version left values head tail [] tt))

    meta_at-batch : meta_at laws k (written batch s') ≡ some rebounded
    unfolding apply_op
    meta_at-batch =
        ap (meta_in k) (
          records-written laws batch s'
          ∙ apply_batch-snoc pushed.2 (put (meta_key k) (Meta.encode rebounded)) (records laws s'))
        ∙ meta_in-put k k rebounded (apply_batch pushed.2 (records laws s')) (
            unfold set_list_bounds in
            record { version = w.encodable.version; expire_ms = w.encodable.expire_ms })
        ∙ rw (==ᵇ_refl k)

    span-pushed :
        (n : ℕ)
        → span (head, tail) ≡ n
        → n + length values < 2 ^ 63
        → span (pushed.0, pushed.1) ≡ n + length values
    span-pushed n e small =
        (push_values-span k m.version left values head tail [] range).1 ∙ omega (arith, e, small)

    batch-IsListed :
        (n : ℕ)
        → span (head, tail) ≡ n
        → n + length values < 2 ^ 63
        → IsListed (some rebounded) (n + length values)
    batch-IsListed n e small =
        let p = push_values-span k m.version left values head tail [] range in
        (
          unfold set_list_bounds in w.type_id,
          unfold set_list_bounds in unlimited,
          (pushed.0, pushed.1),
          list_bounds-set_list_bounds m pushed.0 pushed.1 w.type_id p.0.0 p.0.1,
          p.0,
          span-pushed n e small,
        )

    pushed_reply :
        (n : ℕ)
        → span (head, tail) ≡ n
        → n + length values < 2 ^ 63
        → ((push_at k values left m (head, tail) s').0 ≡ ok (pos (n + length values)))
          × ((llen k (push_at k values left m (head, tail) s').1).0 ≡ ok (pos (n + length values)))
    pushed_reply n e small =
        let l = batch-IsListed n e small in
        let live =
          ap (λ o. (settled k o (written batch s')).0) meta_at-batch
          ∙ settled_unlimited laws k rebounded (written batch s') l.1 in
        (
          ap (λ r. r.0) push_at_lem
              ∙ ap ok (
                  signed64_small (span (pushed.0, pushed.1)) (n + length values)
                    (span-pushed n e small) small),
          ap (λ r. (llen k r.1).0) push_at_lem
              ∙ llen_lem k (written batch s') batch-IsConsistent (n + length values)
                  (subst (λ o. IsListed o (n + length values)) (sym live) l) small,
        )

  -- On a consistent store, for a key that is missing, with n = 0, or holds a live list without an
  -- expiry whose bounds fit 64 bits and are n apart, and values with which the list has fewer than
  -- 2 ^ 63 elements: LLEN replies n, LPUSH and RPUSH of the values succeed and reply n and their
  -- number, and LLEN after them replies the same.
  pub llen-push :
      (k : Bytes) (values : List Bytes) (left : Bool) (s : Store h) (n : ℕ)
      → IsConsistent laws s
      → IsListed (live_meta laws k s) n
      → n + length values < 2 ^ 63
      → ((llen k s).0 ≡ ok (pos n))
        × ((push k values left s).0 ≡ ok (pos (n + length values)))
        × ((llen k (push k values left s).1).0 ≡ ok (pos (n + length values)))
  unfolding push
  llen-push k values left s n c l small =
      let o = live_meta laws k s in
      let t = loaded laws k s in
      let e = ap (typed type_list) (loaded-Settles laws k s c).found ∙ IsListed-typed o n l in
      let w = listed-IsWritable laws k o t (
        typed-IsCounted laws k type_list o t (loaded-Settles laws k s c).consistent
          list-is_composite e) in
      let b = listed_bounds k o t n l in
      (
        llen_lem k s c n l (omega arith),
        rw (load_typed-loaded laws k s c type_list, e, list_meta_lem laws k o t, b.2)
            (pushed_reply k values left t (listed laws k o t).1 (listed laws k o t).0 b.1.0 b.1.1 w
              b.3 b.0 n b.4 small).0,
        rw (load_typed-loaded laws k s c type_list, e, list_meta_lem laws k o t, b.2)
            (pushed_reply k values left t (listed laws k o t).1 (listed laws k o t).0 b.1.0 b.1.1 w
              b.3 b.0 n b.4 small).1,
      )
