-- ===== src/Store/ZSet.antt =====
-- crates/gamestore-engine/src/store.rs: the sorted-set operations and the rank ranges.
pub mod Ranges
use game_store.Prelude.{
  ℕ, ◌+◌, ◌-◌, ◌%◌, ◌^◌, Bool, ◌||◌, ◌&&◌, Option, none, some, List, [], ◌∷◌, ltb, if◌then◌else◌,
  length, drop,
}
use game_store.Prelude.Int.{ℤ, pos, negsuc, pos_part, ◌+ℤ◌, lebℤ, ltbℤ, maxℤ, minℤ}
use game_store.Bytes.{Bytes, ◌==ᵇ◌, text}
use game_store.Encoding.Keys.{meta_key, subkey, zscore_key, zscore_prefix, split_score_suffix}
use game_store.Encoding.Score.{encode_score, f64_eq, f64_lt}
use game_store.Encoding.Meta
use game_store.Encoding.Meta.{Meta, type_zset, field_count, set_field_count}
use game_store.Engine.Error.{Result, ok, err, corruption}
use game_store.Engine.Batch
use game_store.Engine.Batch.{WriteBatch, push_put, push_delete}
use game_store.Store.Exec.{Exec, pure, lift, ◌>>=◌, ◌>>◌}
use game_store.Store.Base.{
  Host, Store, engine_get, engine_write, engine_scan_prefix, load_typed, decode_stored_score,
}
use game_store.Store.Set.{contains}
use game_store.Store.Hash.{counted_meta, finish_removal, count_of}

-- An inclusive range of ranks over `len` elements; negative ranks count from the end.
unfoldable pub normalize_range : ℤ → ℤ → ℤ → Option (ℕ × ℕ)
normalize_range start stop len =
    if lebℤ len (pos 0)
    then none
    else let lo = maxℤ (if ltbℤ start (pos 0) then start +ℤ len else start) (pos 0) in
      let hi = minℤ (if ltbℤ stop (pos 0) then stop +ℤ len else stop) (len +ℤ negsuc 0) in
      if ltbℤ hi lo then none else some (pos_part lo, pos_part hi)

-- The scores of one call with repeated members merged: a member keeps its place, the last score wins.
unfoldable pub merge_score : Bytes → ℕ → List (Bytes × ℕ) → List (Bytes × ℕ)
merge_score member score [] = (member, score) ∷ []
merge_score member score ((m, s) ∷ effective) =
    let rest = merge_score member score effective in
    if m ==ᵇ member then (m, score) ∷ effective else (m, s) ∷ rest

unfoldable pub effective_scores : List (ℕ × Bytes) → List (Bytes × ℕ) → List (Bytes × ℕ)
unfolding merge_score
effective_scores [] effective = effective
effective_scores ((score, member) ∷ pairs) effective =
    effective_scores pairs (merge_score member score effective)

-- `zrange`'s loop, from rank `rank` on: skip below `lo`, stop above `hi`.
unfoldable pub rank_slice :
    ℕ → ℕ → ℕ → ℕ → List (Result (Bytes × Bytes)) → Result (List (Bytes × ℕ))
rank_slice n lo hi rank [] = ok []
rank_slice n lo hi rank (err e ∷ items) = err e
rank_slice n lo hi rank (ok (k, v) ∷ items) =
    let rest = rank_slice n lo hi (rank + 1) items in
    if ltb rank lo
    then rest
    else if ltb hi rank
    then ok []
    else elim (split_score_suffix (drop n k)) [
      | none ↦ err (corruption (text "undecodable zset score index"))
      | some (score, member) ↦ elim rest [ ok out ↦ ok ((member, score) ∷ out) | err e ↦ err e ]
    ]

-- `zrange_by_score`'s loop: stop above the maximum, skip below the minimum.
unfoldable pub score_slice :
    ℕ → ℕ → Bool → ℕ → Bool → List (Result (Bytes × Bytes)) → Result (List (Bytes × ℕ))
score_slice n lo lo_exclusive hi hi_exclusive [] = ok []
score_slice n lo lo_exclusive hi hi_exclusive (err e ∷ items) = err e
score_slice n lo lo_exclusive hi hi_exclusive (ok (k, v) ∷ items) =
    let rest = score_slice n lo lo_exclusive hi hi_exclusive items in
    elim (split_score_suffix (drop n k)) [
      | none ↦ err (corruption (text "undecodable zset score index"))
      | some (score, member) ↦
          if f64_lt hi score || (hi_exclusive && f64_eq score hi)
          then ok []
          else if f64_lt score lo || (lo_exclusive && f64_eq score lo)
          then rest
          else elim rest [ ok out ↦ ok ((member, score) ∷ out) | err e ↦ err e ]
    ]

module _ ⦃h : Host⦄ where
  -- What one pair of `zadd` does to the count, the number added and the batch.
  unfoldable pub zadd_member :
      Bytes
      → ℕ
      → Bytes
      → ℕ
      → ℕ × ℕ × WriteBatch
      → Option Bytes
      → Exec (Store h) (ℕ × ℕ × WriteBatch)
  zadd_member key version member score (count, added, batch) none = pure (
    (count + 1) % 2 ^ 32,
    added + 1,
    push_put (push_put batch (subkey key version member) (encode_score score))
        (zscore_key key version score member) [],
  )
  zadd_member key version member score (count, added, batch) (some old_raw) = do
    old_score ← lift (decode_stored_score old_raw)
    pure (
        if f64_eq old_score score then (count, added, batch) else (
          count,
          added,
          push_put
              (push_put (push_delete batch (zscore_key key version old_score member))
                (subkey key version member) (encode_score score))
              (zscore_key key version score member) [],
        ))

  unfoldable pub zadd_members :
      Bytes → ℕ → List (Bytes × ℕ) → ℕ × ℕ × WriteBatch → Exec (Store h) (ℕ × ℕ × WriteBatch)
  unfolding zadd_member decode_stored_score
  zadd_members key version [] progress = pure progress
  zadd_members key version ((member, score) ∷ effective) progress = do
    old ← engine_get (subkey key version member)
    progress' ← zadd_member key version member score progress old
    zadd_members key version effective progress'

  unfoldable pub zadd_finish : Bytes → Meta → ℕ × ℕ × WriteBatch → Exec (Store h) ℕ
  zadd_finish key m (count, added, batch) = if Batch.is_empty batch then pure added else do
    engine_write (push_put batch (meta_key key) (Meta.encode (set_field_count m count)))
    pure added

  unfoldable pub zadd : Bytes → List (ℕ × Bytes) → Exec (Store h) ℕ
  unfolding load_typed counted_meta effective_scores zadd_members zadd_finish
  zadd key pairs = do
    found ← load_typed key type_zset
    m ← counted_meta key type_zset found
    progress ← zadd_members key m.version (effective_scores pairs []) (field_count m, 0, [])
    zadd_finish key m progress

  unfoldable pub stored_score : Option Bytes → Exec (Store h) (Option ℕ)
  unfolding decode_stored_score
  stored_score none = pure none
  stored_score (some raw) = do score ← lift (decode_stored_score raw); pure (some score)

  unfoldable pub zscore_loaded : Bytes → Bytes → Option Meta → Exec (Store h) (Option ℕ)
  unfolding stored_score
  zscore_loaded key member none = pure none
  zscore_loaded key member (some m) = do
    raw ← engine_get (subkey key m.version member)
    stored_score raw

  unfoldable pub zscore : Bytes → Bytes → Exec (Store h) (Option ℕ)
  unfolding load_typed zscore_loaded
  zscore key member = do found ← load_typed key type_zset; zscore_loaded key member found

  unfoldable pub zrem_member :
      Bytes → ℕ → Bytes → ℕ × ℕ × WriteBatch → Option Bytes → Exec (Store h) (ℕ × ℕ × WriteBatch)
  unfolding decode_stored_score
  zrem_member key version member (count, removed, batch) none = pure (count, removed, batch)
  zrem_member key version member (count, removed, batch) (some raw) = do
    score ← lift (decode_stored_score raw)
    pure (
      count - 1,
      removed + 1,
      push_delete (push_delete batch (subkey key version member))
          (zscore_key key version score member),
    )

  unfoldable pub zrem_members :
      Bytes → ℕ → List Bytes → List Bytes → ℕ × ℕ × WriteBatch → Exec (Store h) (ℕ × ℕ × WriteBatch)
  unfolding contains zrem_member
  zrem_members key version [] seen progress = pure progress
  zrem_members key version (member ∷ members) seen progress = do
    raw ← (if contains seen member then pure none else engine_get (subkey key version member))
    progress' ← zrem_member key version member progress raw
    zrem_members key version members (member ∷ seen) progress'

  unfoldable pub zrem_loaded : Bytes → List Bytes → Option Meta → Exec (Store h) ℕ
  unfolding zrem_members finish_removal
  zrem_loaded key members none = pure 0
  zrem_loaded key members (some m) = do
    removal ← zrem_members key m.version members [] (field_count m, 0, [])
    finish_removal key m removal

  unfoldable pub zrem : Bytes → List Bytes → Exec (Store h) ℕ
  unfolding load_typed zrem_loaded
  zrem key members = do found ← load_typed key type_zset; zrem_loaded key members found

  unfoldable pub zcard : Bytes → Exec (Store h) ℕ
  unfolding load_typed count_of
  zcard key = do found ← load_typed key type_zset; pure (count_of found)

  unfoldable pub zrange_slice : Bytes → Meta → Option (ℕ × ℕ) → Exec (Store h) (List (Bytes × ℕ))
  unfolding rank_slice
  zrange_slice key m none = pure []
  zrange_slice key m (some (lo, hi)) = do
    items ← engine_scan_prefix (zscore_prefix key m.version)
    lift (rank_slice (length (zscore_prefix key m.version)) lo hi 0 items)

  unfoldable pub zrange_loaded : Bytes → ℤ → ℤ → Option Meta → Exec (Store h) (List (Bytes × ℕ))
  unfolding zrange_slice normalize_range
  zrange_loaded key start stop none = pure []
  zrange_loaded key start stop (some m) =
      zrange_slice key m (normalize_range start stop (pos (field_count m)))

  unfoldable pub zrange : Bytes → ℤ → ℤ → Exec (Store h) (List (Bytes × ℕ))
  unfolding load_typed zrange_loaded
  zrange key start stop = do found ← load_typed key type_zset; zrange_loaded key start stop found

  unfoldable pub zrange_by_score_loaded :
      Bytes → ℕ → Bool → ℕ → Bool → Option Meta → Exec (Store h) (List (Bytes × ℕ))
  unfolding score_slice
  zrange_by_score_loaded key lo lo_exclusive hi hi_exclusive none = pure []
  zrange_by_score_loaded key lo lo_exclusive hi hi_exclusive (some m) = do
    items ← engine_scan_prefix (zscore_prefix key m.version)
    lift (score_slice (length (zscore_prefix key m.version)) lo lo_exclusive hi hi_exclusive items)

  unfoldable pub zrange_by_score : Bytes → ℕ → Bool → ℕ → Bool → Exec (Store h) (List (Bytes × ℕ))
  unfolding load_typed zrange_by_score_loaded
  zrange_by_score key lo lo_exclusive hi hi_exclusive = do
    found ← load_typed key type_zset
    zrange_by_score_loaded key lo lo_exclusive hi hi_exclusive found
