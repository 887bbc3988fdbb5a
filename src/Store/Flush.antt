-- ===== src/Store/Flush.antt =====
-- crates/gamestore-engine/src/store.rs: flush_all.
use game_store.Prelude.{
  ℕ, Bool, true, false, not, none, [], ◌∷◌, ◌++◌, ◌≡◌, refl, sym, ap, ◌∙◌, arith, map, inl, inr,
  if◌then◌else◌, Bool-cases, filter_by, append-nil, append_assoc,
}
use game_store.Bytes.{Bytes, ◌==ᵇ◌, starts_with}
use game_store.Bytes.Order.{==ᵇ_refl}
use game_store.Encoding.Keys.{meta_prefix, meta_key, subkey_prefix_byte, zscore_prefix_byte}
use game_store.Engine.Error.{ok}
use game_store.Engine.Batch.{WriteBatch, delete, push_delete}
use game_store.Engine.Interface.{IsReliable}
use game_store.Engine.Records.{Records, lookup, remove, apply_op, apply_batch, with_prefix}
use game_store.Gc
use game_store.Store.Base.{Host, Store, decode_record}
use game_store.Store.Admin.{flush_all, delete_items, dbsize, raw_subkey_count, count_items}
use game_store.Store.View.{IsConsistent, meta_in, records, written, records-written}

-- The deletions of given records.
abbrev pub deletions : Records → WriteBatch
deletions [] = []
deletions ((k, v) ∷ rs) = delete k ∷ deletions rs

delete_items-ok :
    (rs : Records) (batch : WriteBatch)
    → delete_items (map ok rs) batch ≡ ok (batch ++ deletions rs)
unfolding delete_items
delete_items-ok [] batch = ap ok (sym (append-nil batch))
delete_items-ok ((k, v) ∷ rs) batch =
    delete_items-ok rs (push_delete batch k)
    ∙ ap ok (append_assoc batch (delete k ∷ []) (deletions rs))

-- Whether a key is among those of the records.
mentioned : Bytes → Records → Bool
mentioned k [] = false
mentioned k ((j, v) ∷ rs) = if k ==ᵇ j then true else mentioned k rs

filter_by-filter_by :
    (p q : Bytes × Bytes → Bool) (rs : Records)
    → filter_by p (filter_by q rs) ≡ filter_by (λ r. if q r then p r else false) rs
filter_by-filter_by p q [] = refl
filter_by-filter_by p q (r ∷ rs) = ground (arith, filter_by-filter_by p q rs)

filter_by-cong :
    (p q : Bytes × Bytes → Bool) (rs : Records)
    → ((r : Bytes × Bytes) → p r ≡ q r)
    → filter_by p rs ≡ filter_by q rs
filter_by-cong p q [] e = refl
filter_by-cong p q (r ∷ rs) e = ground (arith, filter_by-cong p q rs e, e r)

filter_by_all : (rs : Records) → filter_by (λ r. true) rs ≡ rs
filter_by_all [] = refl
filter_by_all (r ∷ rs) = ap (◌∷◌ r) (filter_by_all rs)

abbrev unmentioned : Records → Bytes × Bytes → Bool
unmentioned gone r = not (mentioned r.0 gone)

unmentioned-cons :
    (k v : Bytes) (gone : Records) (r : Bytes × Bytes)
    → (if not (r.0 ==ᵇ k) then unmentioned gone r else false) ≡ unmentioned ((k, v) ∷ gone) r
unfolding mentioned
unmentioned-cons k v gone r = ground arith

apply_batch-deletions :
    (gone rs : Records) → apply_batch (deletions gone) rs ≡ filter_by (unmentioned gone) rs
unfolding apply_batch apply_op remove mentioned
apply_batch-deletions [] rs = sym (filter_by_all rs)
apply_batch-deletions ((k, v) ∷ gone) rs =
    apply_batch-deletions gone (remove k rs)
    ∙ filter_by-filter_by (unmentioned gone) (λ r. not (r.0 ==ᵇ k)) rs
    ∙ filter_by-cong _ (unmentioned ((k, v) ∷ gone)) rs (unmentioned-cons k v gone)

-- What is deleted is gone, for each test whose records are all among the deleted ones.
gone-filter_by :
    (test : Bytes × Bytes → Bool) (gone rs : Records)
    → ((k : Bytes) → mentioned k (filter_by test rs) ≡ true → mentioned k gone ≡ true)
    → filter_by test (filter_by (unmentioned gone) rs) ≡ []
unfolding mentioned
gone-filter_by test gone [] h = refl
gone-filter_by test gone ((k, v) ∷ rs) h = elim (Bool-cases (test (k, v))) [
  | inl matching ↦
      ground (arith, gone-filter_by test gone rs (λ j e. h j (ground arith)), h k, ==ᵇ_refl k)
  | inr other ↦ ground (arith, gone-filter_by test gone rs (λ j e. h j (ground arith)))
]

mentioned-append :
    (k : Bytes) (rs rs' : Records)
    → mentioned k (rs ++ rs') ≡ (if mentioned k rs then true else mentioned k rs')
unfolding mentioned
mentioned-append k [] rs' = refl
mentioned-append k ((j, v) ∷ rs) rs' = ground (arith, mentioned-append k rs rs')

deletions-append : (rs rs' : Records) → deletions (rs ++ rs') ≡ deletions rs ++ deletions rs'
deletions-append [] rs' = refl
deletions-append ((k, v) ∷ rs) rs' = ap (◌∷◌ (delete k)) (deletions-append rs rs')

-- No record with a prefix: nothing under a key with that prefix.
lookup_absent :
    (p : ℕ) (k : Bytes) (rs : Records) → with_prefix (p ∷ []) rs ≡ [] → lookup (p ∷ k) rs ≡ none
unfolding with_prefix lookup starts_with ◌==ᵇ◌
lookup_absent p k [] e = refl
lookup_absent p k (([], v) ∷ rs) e = lookup_absent p k rs e
lookup_absent p k ((b ∷ j, v) ∷ rs) e = ground (arith, lookup_absent p k rs)

module _ ⦃h : Host⦄ (laws : IsReliable h.engine) where
  abbrev held : ℕ → Store h → Records
  held p s = with_prefix (p ∷ []) (records laws s)

  -- All that FLUSHALL deletes.
  abbrev flushed : Store h → Records
  flushed s = (held meta_prefix s ++ held subkey_prefix_byte s) ++ held zscore_prefix_byte s

  abbrev emptied : Store h → Store h
  emptied s = record (written (deletions (flushed s)) s) { versions = Gc.clear s.versions }

  flush_all_lem : (s : Store h) → flush_all s ≡ (ok tt, emptied s)
  unfolding flush_all
  flush_all_lem s =
      let m = held meta_prefix s in
      let f = held subkey_prefix_byte s in
      let z = held zscore_prefix_byte s in
      rw
        (
          laws.scan_prefix_lem s.engine (meta_prefix ∷ []),
          delete_items-ok m [],
          laws.scan_prefix_lem s.engine (subkey_prefix_byte ∷ []),
          delete_items-ok f (deletions m),
          laws.scan_prefix_lem s.engine (zscore_prefix_byte ∷ []),
          sym (deletions-append m f),
          delete_items-ok z (deletions (m ++ f)),
          sym (deletions-append (m ++ f) z),
          laws.write_ok s.engine (deletions (flushed s)),
        )
        refl

  held-flush_all :
      (p : ℕ) (s : Store h)
      → ((k : Bytes) → mentioned k (held p s) ≡ true → mentioned k (flushed s) ≡ true)
      → held p (emptied s) ≡ []
  unfolding with_prefix
  held-flush_all p s h =
      ap (with_prefix (p ∷ [])) (
        records-written laws (deletions (flushed s)) s
        ∙ apply_batch-deletions (flushed s) (records laws s))
      ∙ gone-filter_by (λ r. starts_with (p ∷ []) r.0) (flushed s) (records laws s) h

  among :
      (k : Bytes) (m f z : Records)
      → mentioned k ((m ++ f) ++ z)
        ≡ (if mentioned k m then true else if mentioned k f then true else mentioned k z)
  among k m f z = ground (arith, mentioned-append k (m ++ f) z, mentioned-append k m f)

  no_metadata : (s : Store h) → held meta_prefix (emptied s) ≡ []
  no_metadata s = held-flush_all meta_prefix s (λ k e.
      among k (held meta_prefix s) (held subkey_prefix_byte s) (held zscore_prefix_byte s)
      ∙ ground arith)

  no_subkeys : (s : Store h) → held subkey_prefix_byte (emptied s) ≡ []
  no_subkeys s = held-flush_all subkey_prefix_byte s (λ k e.
      among k (held meta_prefix s) (held subkey_prefix_byte s) (held zscore_prefix_byte s)
      ∙ ground arith)

  no_scores : (s : Store h) → held zscore_prefix_byte (emptied s) ≡ []
  no_scores s = held-flush_all zscore_prefix_byte s (λ k e.
      among k (held meta_prefix s) (held subkey_prefix_byte s) (held zscore_prefix_byte s)
      ∙ ground arith)

  -- FLUSHALL succeeds, and after it DBSIZE and the count of raw subkeys are 0.
  pub dbsize-flush_all :
      (s : Store h)
      → ((flush_all s).0 ≡ ok tt)
        × ((dbsize (flush_all s).1).0 ≡ ok 0)
        × ((raw_subkey_count (flush_all s).1).0 ≡ ok 0)
  unfolding dbsize raw_subkey_count count_items
  dbsize-flush_all s = rw (flush_all_lem s) (
    refl,
    rw (laws.scan_prefix_lem (emptied s).engine (meta_prefix ∷ []), no_metadata s) refl,
    rw
        (
          laws.scan_prefix_lem (emptied s).engine (subkey_prefix_byte ∷ []),
          no_subkeys s,
          laws.scan_prefix_lem (emptied s).engine (zscore_prefix_byte ∷ []),
          no_scores s,
        )
        refl,
  )

  -- FLUSHALL leaves a consistent store.
  pub flush_all-IsConsistent : (s : Store h) → IsConsistent laws (flush_all s).1
  unfolding meta_in meta_key decode_record
  flush_all-IsConsistent s k =
      let missing = lookup_absent meta_prefix k (records laws (emptied s)) (no_metadata s) in
      rw (flush_all_lem s) (record {
        readable = rw missing refl;
        encodable = λ m p. absurd cc;
        current = λ m p composite. absurd cc;
      })
