-- ===== src/Store/Set/Added.antt =====
-- crates/gamestore-engine/src/store.rs: the loop of sadd.
use game_store.Prelude.{
  ℕ, ◌+◌, ◌%◌, ◌^◌, Bool, true, false, ◌||◌, some, List, [], ◌∷◌, ◌≡◌, refl, sym, ap, ◌∙◌, subst,
  arith, inl, inr, Bool-cases, if◌then◌else◌, All,
}
use game_store.Bytes.{Bytes, ◌==ᵇ◌}
use game_store.Bytes.Order.{eq_of_==ᵇ}
use game_store.Encoding.Keys.{subkey}
use game_store.Encoding.Keys.Disjoint.{subkey-ne-meta_key}
use game_store.Engine.Error.{ok}
use game_store.Engine.Batch.{WriteBatch, put, push_put}
use game_store.Engine.Interface.{IsReliable}
use game_store.Engine.Records.{Records, lookup, apply_batch, apply_op}
use game_store.Engine.Records.Laws.{lookup-insert, apply_batch-snoc}
use game_store.Store.Base.{Host, Store}
use game_store.Store.Strings.{is_some}
use game_store.Store.Hash.Write.{subkey_==ᵇ}
use game_store.Store.View.{records}
use game_store.Store.Consistent.{IsMemberOp}
use game_store.Store.Keeps.{All-snoc}
use game_store.Store.Keeps.Sets.{seen_or_stored_lem}
use game_store.Store.Set.{contains, sadd_members}

-- Whether the records hold a member.
unfoldable pub holds : Bytes → ℕ → Bytes → Records → Bool
holds k v x rs = is_some (lookup (subkey k v x) rs)

unfoldable added_op : Bytes → ℕ → Bytes → Bool → WriteBatch → WriteBatch
added_op k v y present ops = if present then ops else push_put ops (subkey k v y) []

holds-put :
    (k : Bytes) (v : ℕ) (x y : Bytes) (ops : WriteBatch) (rs : Records)
    → holds k v x (apply_batch (push_put ops (subkey k v y) []) rs)
      ≡ (holds k v x (apply_batch ops rs) || (y ==ᵇ x))
unfolding holds apply_op is_some
holds-put k v x y ops rs = ap is_some found ∙ elim (Bool-cases (y ==ᵇ x)) [
  | inl same ↦ rw same (sym (or_true (is_some (lookup (subkey k v x) (apply_batch ops rs)))))
  | inr other ↦ rw other (sym (or_false (is_some (lookup (subkey k v x) (apply_batch ops rs)))))
]
  where
    or_true : (b : Bool) → (b || true) ≡ true
    or_true b = ground arith

    or_false : (b : Bool) → (b || false) ≡ b
    or_false b = ground arith

    found :
        lookup (subkey k v x) (apply_batch (push_put ops (subkey k v y) []) rs)
        ≡ (if y ==ᵇ x then some [] else lookup (subkey k v x) (apply_batch ops rs))
    found =
        ap (lookup (subkey k v x)) (apply_batch-snoc ops (put (subkey k v y) []) rs)
        ∙ lookup-insert (subkey k v y) (subkey k v x) [] (apply_batch ops rs)
        ∙ rw (subkey_==ᵇ k v y x) refl

holds-added_op :
    (k : Bytes) (v : ℕ) (x y : Bytes) (present : Bool) (ops : WriteBatch) (rs : Records)
    → (present ≡ true → holds k v y (apply_batch ops rs) ≡ true)
    → holds k v x (apply_batch (added_op k v y present ops) rs)
      ≡ (holds k v x (apply_batch ops rs) || (y ==ᵇ x))
unfolding added_op
holds-added_op k v x y false ops rs e = holds-put k v x y ops rs
holds-added_op k v x y true ops rs e = elim (Bool-cases (y ==ᵇ x)) [
  | inl same ↦
      let held =
        subst (λ z. holds k v z (apply_batch ops rs) ≡ true) (eq_of_==ᵇ y x same) (e refl) in
      rw held refl
  | inr other ↦ ground (arith, other)
]

-- What the loop of `sadd` made of given operations.
pub record IsAdded (k : Bytes) (v : ℕ) (rs : Records) (members : List Bytes) (ops : WriteBatch)
    (p : ℕ × ℕ × WriteBatch) : Type 0 where
  pub member_ops : All IsMemberOp p.2
  pub idle : p.1 ≡ 0 → p.2 ≡ []
  pub added :
      (x : Bytes)
      → holds k v x (apply_batch p.2 rs) ≡ (holds k v x (apply_batch ops rs) || contains members x)

-- The members seen, and those stored, are in the records after the operations.
record IsTracked (k : Bytes) (v : ℕ) (rs : Records) (seen : List Bytes) (added : ℕ)
    (ops : WriteBatch) : Type 0 where
  member_ops : All IsMemberOp ops
  idle : added ≡ 0 → ops ≡ []
  known : (y : Bytes) → contains seen y ≡ true → holds k v y (apply_batch ops rs) ≡ true
  kept : (y : Bytes) → holds k v y rs ≡ true → holds k v y (apply_batch ops rs) ≡ true

advanced :
    (k : Bytes) (v : ℕ) (rs : Records) (seen : List Bytes) (count : ℕ) (ops : WriteBatch)
    (y : Bytes) (present : Bool)
    → (present ≡ true → holds k v y (apply_batch ops rs) ≡ true)
    → IsTracked k v rs seen count ops
    → IsTracked k v rs
        (y ∷ seen)
        (if present then count else count + 1)
        (added_op k v y present ops)
advanced k v rs seen count ops y present e t =
    let after = λ (x : Bytes). holds-added_op k v x y present ops rs e in
    record {
      member_ops = member_ops_after present;
      idle = idle_after present;
      known = λ z is_known.
          after z
          ∙ unfold contains in
            either (y ==ᵇ z) (contains seen z) (holds k v z (apply_batch ops rs)) (t.known z)
              is_known;
      kept = λ z stored. after z ∙ rw (t.kept z stored) refl;
    }
  where
    either : (b c d : Bool) → (c ≡ true → d ≡ true) → (b || c) ≡ true → (d || b) ≡ true
    either true c true f e = refl
    either true c false f e = refl
    either false c d f e = rw (f e) refl

    member_ops_after : (b : Bool) → All IsMemberOp (added_op k v y b ops)
    member_ops_after true = unfold added_op in t.member_ops
    member_ops_after false =
        unfold added_op in
        All-snoc ops (put (subkey k v y) []) t.member_ops (λ j. subkey-ne-meta_key k j v y)

    idle_after : (b : Bool) → (if b then count else count + 1) ≡ 0 → added_op k v y b ops ≡ []
    idle_after true e = unfold added_op in t.idle e
    idle_after false e = absurd (omega arith)

or_assoc : (a b c : Bool) → ((a || b) || c) ≡ (a || (b || c))
or_assoc a b c = ground arith

module _ ⦃h : Host⦄ (laws : IsReliable h.engine) (k : Bytes) (v : ℕ) (s : Store h) where
  sadd_members-IsAdded :
      (members seen : List Bytes) (count added : ℕ) (ops : WriteBatch)
      → IsTracked k v (records laws s) seen added ops
      → (p : ℕ × ℕ × WriteBatch) × (sadd_members k v members seen count added ops s ≡ (ok p, s))
        × IsAdded k v (records laws s) members ops p
  unfolding sadd_members contains added_op holds
  sadd_members-IsAdded [] seen count added ops t = (
    (count, added, ops),
    refl,
    record { member_ops = t.member_ops; idle = t.idle; added = λ x. ground arith },
  )
  sadd_members-IsAdded (y ∷ members) seen count added ops t =
      let present = if contains seen y then true else holds k v y (records laws s) in
      let next = advanced k v (records laws s) seen added ops y present (tracked y t) t in
      let r =
        sadd_members-IsAdded members (y ∷ seen) (if present then count else (count + 1) % 2 ^ 32)
          (if present then added else added + 1) (added_op k v y present ops) next in
      (
        r.0,
        rw (seen_or_stored_lem laws k v seen y s) r.1,
        record {
          member_ops = r.2.member_ops;
          idle = r.2.idle;
          added = λ x.
              r.2.added x
              ∙ ap (λ b. b || contains members x)
                  (holds-added_op k v x y present ops (records laws s) (tracked y t))
              ∙ or_assoc (holds k v x (apply_batch ops (records laws s))) (y ==ᵇ x)
                  (contains members x);
        },
      )
    where
      tracked :
          (z : Bytes)
          → IsTracked k v (records laws s) seen added ops
          → (if contains seen z then true else holds k v z (records laws s)) ≡ true
          → holds k v z (apply_batch ops (records laws s)) ≡ true
      tracked z t e = elim (Bool-cases (contains seen z)) [
        | inl again ↦ t.known z again
        | inr first ↦ t.kept z (rw first at e)
      ]

  -- The loop of `sadd`, from its start.
  pub started :
      (members : List Bytes) (count : ℕ)
      → (p : ℕ × ℕ × WriteBatch) × (sadd_members k v members [] count 0 [] s ≡ (ok p, s))
        × IsAdded k v (records laws s) members [] p
  unfolding apply_batch
  started members count = sadd_members-IsAdded members [] count 0 [] (record {
    member_ops = tt;
    idle = λ e. refl;
    known = λ y e. unfold contains in absurd (cc e);
    kept = λ y e. e;
  })
