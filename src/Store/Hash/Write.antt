-- ===== src/Store/Hash/Write.antt =====
-- crates/gamestore-engine/src/store.rs: the writes of hset.
use game_store.Prelude.{
  ℕ, zero, suc, ◌+◌, ◌%◌, ◌^◌, Option, some, List, [], ◌∷◌, ◌++◌, ◌≡◌, refl, ap, ◌∙◌, arith,
  Bool-cases, inl, inr, if◌then◌else◌, All, append-nil, append_assoc,
}
use game_store.Bytes.{Bytes, ◌==ᵇ◌}
use game_store.Encoding.Keys.{subkey, subkey_prefix, meta_key}
use game_store.Encoding.Keys.Disjoint.{subkey-ne-meta_key}
use game_store.Encoding.Meta
use game_store.Encoding.Meta.{Meta, type_hash, field_count, set_field_count}
use game_store.Engine.Error.{ok}
use game_store.Engine.Batch.{WriteBatch, put, push_put}
use game_store.Engine.Interface.{IsReliable}
use game_store.Engine.Records.{Records, lookup, insert, apply_batch, apply_op}
use game_store.Engine.Records.Laws.{lookup-insert}
use game_store.Store.Base.{Host, Store}
use game_store.Store.Strings.{is_some}
use game_store.Store.Hash.{hset_pairs}
use game_store.Store.Hash.View.{append_==ᵇ}
use game_store.Store.View.{records}
use game_store.Store.Consistent.{IsMemberOp}

-- The writes of the fields.
abbrev pub puts : Bytes → ℕ → List (Bytes × Bytes) → WriteBatch
puts k version [] = []
puts k version ((f, v) ∷ pairs) = put (subkey k version f) v ∷ puts k version pairs

-- The number of pairs whose field is not among the records, each mention counted.
unfoldable pub unknown : Bytes → ℕ → List (Bytes × Bytes) → Records → ℕ
unknown k version [] rs = 0
unknown k version ((f, v) ∷ pairs) rs =
    let rest = unknown k version pairs rs in
    if is_some (lookup (subkey k version f) rs) then rest else suc rest

-- A `u32` counter after `n` increments.
unfoldable pub bumped : ℕ → ℕ → ℕ
bumped count zero = count
bumped count (suc n) = bumped ((count + 1) % 2 ^ 32) n

-- The value of a field after the pairs were written in turn.
unfoldable pub overwritten : Bytes → List (Bytes × Bytes) → Option Bytes → Option Bytes
overwritten f [] old = old
overwritten f ((g, v) ∷ pairs) old = overwritten f pairs (if g ==ᵇ f then some v else old)

pub subkey_==ᵇ :
    (k : Bytes) (version : ℕ) (f g : Bytes)
    → (subkey k version f ==ᵇ subkey k version g) ≡ (f ==ᵇ g)
unfolding subkey
subkey_==ᵇ k version f g = append_==ᵇ (subkey_prefix k version) f g

pub puts-IsMemberOp :
    (k : Bytes) (version : ℕ) (pairs : List (Bytes × Bytes)) → All IsMemberOp (puts k version pairs)
puts-IsMemberOp k version [] = tt
puts-IsMemberOp k version ((f, v) ∷ pairs) =
    (λ j. subkey-ne-meta_key k j version f, puts-IsMemberOp k version pairs)

pub lookup-puts :
    (k : Bytes) (version : ℕ) (f : Bytes) (pairs : List (Bytes × Bytes)) (rs : Records)
    → lookup (subkey k version f) (apply_batch (puts k version pairs) rs)
      ≡ overwritten f pairs (lookup (subkey k version f) rs)
unfolding apply_batch apply_op overwritten
lookup-puts k version f [] rs = refl
lookup-puts k version f ((g, v) ∷ pairs) rs =
    lookup-puts k version f pairs (insert (subkey k version g) v rs)
    ∙ ap (overwritten f pairs) (
        lookup-insert (subkey k version g) (subkey k version f) v rs
        ∙ rw (subkey_==ᵇ k version g f))

add_suc : (a b : ℕ) → a + 1 + b ≡ a + suc b
add_suc a b = omega arith

module _ ⦃h : Host⦄ (laws : IsReliable h.engine) where
  -- The loop reads the records as they were, and changes nothing.
  pub hset_pairs_lem :
      (k : Bytes) (version : ℕ) (pairs : List (Bytes × Bytes)) (count created : ℕ)
      (batch : WriteBatch) (s : Store h)
      → hset_pairs k version pairs count created batch s ≡ (
        ok (
          bumped count (unknown k version pairs (records laws s)),
          created + unknown k version pairs (records laws s),
          batch ++ puts k version pairs,
        ),
        s,
      )
  unfolding hset_pairs unknown bumped
  hset_pairs_lem k version [] count created batch s = ground (arith, append-nil batch)
  hset_pairs_lem k version ((f, v) ∷ pairs) count created batch s =
      rw (laws.get_lem s.engine (subkey k version f))
        (elim (Bool-cases (is_some (lookup (subkey k version f) (records laws s)))) [
          | inl old ↦ rw old (
              hset_pairs_lem k version pairs count created (push_put batch (subkey k version f) v) s
              ∙ rw (append_assoc batch (put (subkey k version f) v ∷ []) (puts k version pairs)))
          | inr new ↦ rw new (
              hset_pairs_lem k version pairs ((count + 1) % 2 ^ 32) (created + 1)
                (push_put batch (subkey k version f) v) s
              ∙ rw (
                append_assoc batch (put (subkey k version f) v ∷ []) (puts k version pairs),
                add_suc created (unknown k version pairs (records laws s)),
              ))
        ])

  -- The batch of `hset`: the fields, then the metadata with the new count.
  abbrev pub hset_batch : Bytes → List (Bytes × Bytes) → Meta → Store h → WriteBatch
  hset_batch k pairs m s =
      puts k m.version pairs
      ++ put (meta_key k) (
          Meta.encode (
            set_field_count m
              (bumped (field_count m) (unknown k m.version pairs (records laws s)))))
        ∷ []
