-- ===== src/Commands/Hashes.antt =====
-- crates/gamestore-datamodel/src/commands/hash.rs.
use game_store.Prelude.{◌-◌, ◌%◌, List, [], ◌∷◌, ◌++◌, ◌==◌, if◌then◌else◌, length, drop}
use game_store.Prelude.Int.{pos}
use game_store.Bytes.{Bytes, text}
use game_store.Protocol.Frame
use game_store.Protocol.Frame.{
  RespVersion, v2, v3, Frame, Frames, end, item, Pairs, end_pairs, pair, integer, bulk, array,
}
use game_store.Store.Base.{Host, Store}
use game_store.Store.Hash
use game_store.Commands.Text.{eq_ignore_ascii_case}
use game_store.Commands.Base.{Reply, reply, on_ok, respond, wrong_args, arg, from_bool, frames_of}
use game_store.Commands.Strings.{bulk_or_null}

-- `chunks_exact(2)`
unfoldable pub chunks : List Bytes → List (Bytes × Bytes)
chunks [] = []
chunks (field ∷ []) = []
chunks (field ∷ value ∷ rest) = (field, value) ∷ chunks rest

unfoldable pub bulk_pairs : List (Bytes × Bytes) → Pairs
bulk_pairs [] = end_pairs
bulk_pairs ((f, v) ∷ pairs) = pair (bulk f) (bulk v) (bulk_pairs pairs)

unfoldable pub flat_pairs : List (Bytes × Bytes) → Frames
flat_pairs [] = end
flat_pairs ((f, v) ∷ pairs) = item (bulk f) (item (bulk v) (flat_pairs pairs))

unfoldable pub pairs_frame : RespVersion → List (Bytes × Bytes) → Frame
unfolding bulk_pairs flat_pairs
pairs_frame v3 pairs = Frame.map (bulk_pairs pairs)
pairs_frame v2 pairs = array (flat_pairs pairs)

module _ ⦃h : Host⦄ where
  unfoldable pub hset : RespVersion → List Bytes → Reply (Store h)
  unfolding eq_ignore_ascii_case wrong_args chunks Hash.hset
  hset version args =
      let is_hmset = eq_ignore_ascii_case (arg args 0) (text "HMSET") in
      if (length args - 2) % 2 == 0
      then respond (Hash.hset (arg args 1) (chunks (drop 2 args)))
          (λ created. if is_hmset then Frame.ok else integer (pos created))
      else reply (wrong_args (if is_hmset then text "hmset" else text "hset"))

  unfoldable pub hget : RespVersion → List Bytes → Reply (Store h)
  unfolding Hash.hget bulk_or_null
  hget version args = respond (Hash.hget (arg args 1) (arg args 2)) bulk_or_null

  -- The loop of `hmget`, with the items so far.
  unfoldable pub hmget_fields : Bytes → List Bytes → List Frame → Reply (Store h)
  unfolding Hash.hget bulk_or_null frames_of
  hmget_fields key [] items = reply (array (frames_of (λ f. f) items))
  hmget_fields key (field ∷ fields) items =
      on_ok (Hash.hget key field) (λ v. hmget_fields key fields (items ++ bulk_or_null v ∷ []))

  unfoldable pub hmget : RespVersion → List Bytes → Reply (Store h)
  unfolding hmget_fields
  hmget version args = hmget_fields (arg args 1) (drop 2 args) []

  unfoldable pub hgetall : RespVersion → List Bytes → Reply (Store h)
  unfolding Hash.hgetall pairs_frame
  hgetall version args = respond (Hash.hgetall (arg args 1)) (pairs_frame version)

  unfoldable pub hdel : RespVersion → List Bytes → Reply (Store h)
  unfolding Hash.hdel
  hdel version args =
      respond (Hash.hdel (arg args 1) (drop 2 args)) (λ removed. integer (pos removed))

  unfoldable pub hlen : RespVersion → List Bytes → Reply (Store h)
  unfolding Hash.hlen
  hlen version args = respond (Hash.hlen (arg args 1)) (λ n. integer (pos n))

  unfoldable pub hexists : RespVersion → List Bytes → Reply (Store h)
  unfolding Hash.hexists
  hexists version args =
      respond (Hash.hexists (arg args 1) (arg args 2)) (λ found. integer (from_bool found))
