-- ===== src/Store/Set/Members.antt =====
-- crates/gamestore-engine/src/store.rs: sismember after sadd.
use game_store.Prelude.{
  ℕ, ◌+◌, ◌^◌, ◌<◌, Bool, ◌||◌, Option, none, some, List, [], ◌≡◌, refl, sym, ap, ◌∙◌, subst, arith,
  inl, inr, Bool-cases, ◌==◌, eq_of_==,
}
use game_store.Bytes.{Bytes}
use game_store.Encoding.Keys.{subkey}
use game_store.Encoding.Meta.{Meta, type_set, field_count, set_field_count}
use game_store.Engine.Error.{Result, Result-cases, ok, err}
use game_store.Engine.Batch.{WriteBatch}
use game_store.Engine.Interface.{IsReliable}
use game_store.Engine.Records.{Records, lookup, apply_batch}
use game_store.Store.Base.{Host, Store, typed}
use game_store.Store.Strings.{is_some}
use game_store.Store.Hash.ReadBack.{unused}
use game_store.Store.View.{IsConsistent, records, meta_at, meta_in}
use game_store.Store.Load.{live_meta, live_meta_stored, loaded, loaded-Settles, typed-ok}
use game_store.Store.Fresh.{counted, IsFresh}
use game_store.Store.Keeps.{typed-IsCounted, counted-IsConsistent}
use game_store.Store.Keeps.Sets.{set-is_composite}
use game_store.Store.Set.{contains, sadd, sismember}
use game_store.Store.Set.Added.{holds, IsAdded, started}
use game_store.Store.Set.Replies.{
  member_in, sismember_reply, sadd_done, sadd_lem, IsUnlimited, reply_at, written_reply,
}

module _ ⦃h : Host⦄ (laws : IsReliable h.engine) where
  module _ (k x : Bytes) (s : Store h) (c : IsConsistent laws s) (fresh : IsFresh laws s)
      (room : s.version_clock + 1 < 2 ^ 64) where
    -- Whether the version that `sadd` writes to has the member already.
    abbrev held : Option Meta → Bool
    held o =
        holds k (counted k type_set o (loaded laws k s)).0.version x
          (records laws (counted k type_set o (loaded laws k s)).1)

    member_in-held :
        (o : Option Meta) (rs : Records)
        → ((m : Meta) → o ≡ some m → rs ≡ records laws (loaded laws k s))
        → member_in k x rs (ok o) ≡ ok (held o)
    unfolding counted set_field_count holds is_some
    member_in-held none rs e = ap (λ y. ok (is_some y)) (sym (unused laws k x s c fresh room))
    member_in-held (some m) rs e =
        ap (λ t. ok (is_some (lookup (subkey k m.version x) t))) (e m refl)

    counted_unlimited :
        (o : Option Meta) → IsUnlimited o → (counted k type_set o (loaded laws k s)).0.expire_ms ≡ 0
    unfolding counted set_field_count
    counted_unlimited none u = refl
    counted_unlimited (some m) u = u

    records-counted :
        (o : Option Meta)
        → (m : Meta) → o ≡ some m
        → records laws (counted k type_set o (loaded laws k s)).1 ≡ records laws (loaded laws k s)
    unfolding counted
    records-counted none m e = refl
    records-counted (some n) m e = refl

    done_reply :
        (o : Option Meta) (members : List Bytes) (p : ℕ × ℕ × WriteBatch)
        → typed type_set (meta_at laws k (loaded laws k s)) ≡ ok o
        → IsUnlimited o
        → IsAdded k
            (counted k type_set o (loaded laws k s)).0.version
            (records laws (counted k type_set o (loaded laws k s)).1)
            members
            []
            p
        → (sismember k x (
            sadd_done k
              (counted k type_set o (loaded laws k s)).0
              p
              (counted k type_set o (loaded laws k s)).1)).0
          ≡ ok (held o || contains members x)
    unfolding sadd_done
    done_reply o members p e u a =
        let t = loaded laws k s in
        let r = counted k type_set o t in
        let c₁ = (loaded-Settles laws k s c).consistent in
        let w = typed-IsCounted laws k type_set o t c₁ set-is_composite e in
        let found = typed-ok type_set (meta_at laws k t) o e in
        elim (Bool-cases (p.1 == 0)) [
          | inr some_added ↦
              rw some_added (written_reply laws k x members r.0 p t r.1 w a (counted_unlimited o u))
          | inl none_added ↦ rw none_added (
              reply_at laws k x r.1 o (counted-IsConsistent laws k type_set o t c₁ found w)
                (ap (meta_in k) w.same_records ∙ found) u (ap (typed type_set) (sym found) ∙ e)
              ∙ member_in-held o (records laws r.1) (records-counted o)
              ∙ ap ok (nothing_added r.0.version (records laws r.1) (eq_of_== p.1 0 none_added) a))
        ]
      where
        nothing_added :
            (v : ℕ) (rs : Records)
            → p.1 ≡ 0
            → IsAdded k v rs members [] p
            → holds k v x rs ≡ (holds k v x rs || contains members x)
        nothing_added v rs none_added a =
            unfold apply_batch in
            (ap (λ ops. holds k v x (apply_batch ops rs)) (sym (a.idle none_added)) ∙ a.added x)

    -- On a consistent store whose versions are not above the counter, with room left in the
    -- counter: if SISMEMBER of a key without an expiry succeeds before, then after SADD of any
    -- members, repeated ones too, it replies whether it replied so before or the member is among
    -- those added.
    pub sismember-sadd :
        (members : List Bytes) (old : Bool)
        → (sismember k x s).0 ≡ ok old
        → IsUnlimited (live_meta laws k s)
        → (sismember k x (sadd k members s).1).0 ≡ ok (old || contains members x)
    sismember-sadd members old before unlimited =
        elim (Result-cases (typed type_set (meta_at laws k (loaded laws k s)))) [
          | inl (o, e) ↦
              let r = counted k type_set o (loaded laws k s) in
              let run = started laws k r.0.version r.1 members (field_count r.0) in
              let live = sym (loaded-Settles laws k s c).found ∙ typed-ok type_set _ o e in
              ap (λ t. (sismember k x t).0) (sadd_lem laws k members s o run.0 c e run.1)
              ∙ done_reply o members run.0 e (subst IsUnlimited live unlimited) run.2
              ∙ ap (λ b. ok (b || contains members x))
                  (ok-injective (
                    sym (
                      member_in-held o (records laws s)
                        (λ m same. sym (live_meta_stored laws k s m (live ∙ same)).1))
                    ∙ sym (reply (ok o) e)
                    ∙ before))
          | inr (y, e) ↦ absurd (ground (arith, sym (reply (err y) e) ∙ before))
        ]
      where
        ok-injective : {a b : Bool} → ok a ≡ ok b → a ≡ b
        ok-injective e = cc

        reply :
            (r : Result (Option Meta))
            → typed type_set (meta_at laws k (loaded laws k s)) ≡ r
            → (sismember k x s).0 ≡ member_in k x (records laws s) r
        reply r e =
            sismember_reply laws k x s c
            ∙ ap (λ o. member_in k x (records laws s) (typed type_set o))
                (sym (loaded-Settles laws k s c).found)
            ∙ ap (member_in k x (records laws s)) e
