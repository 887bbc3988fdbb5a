-- ===== src/Commands/Sets.antt =====
-- crates/gamestore-datamodel/src/commands/set.rs.
use game_store.Prelude.{List, drop}
use game_store.Prelude.Int.{pos}
use game_store.Bytes.{Bytes}
use game_store.Protocol.Frame.{RespVersion, v2, v3, Frame, integer, bulk, array}
use game_store.Store.Base.{Host, Store}
use game_store.Store.Set
use game_store.Commands.Base.{Reply, respond, arg, from_bool, frames_of}

unfoldable pub smembers_reply : RespVersion → List Bytes → Frame
unfolding frames_of
smembers_reply v3 members = Frame.set (frames_of bulk members)
smembers_reply v2 members = array (frames_of bulk members)

module _ ⦃h : Host⦄ where
  unfoldable pub sadd : RespVersion → List Bytes → Reply (Store h)
  unfolding Set.sadd
  sadd version args = respond (Set.sadd (arg args 1) (drop 2 args)) (λ added. integer (pos added))

  unfoldable pub srem : RespVersion → List Bytes → Reply (Store h)
  unfolding Set.srem
  srem version args =
      respond (Set.srem (arg args 1) (drop 2 args)) (λ removed. integer (pos removed))

  unfoldable pub sismember : RespVersion → List Bytes → Reply (Store h)
  unfolding Set.sismember
  sismember version args =
      respond (Set.sismember (arg args 1) (arg args 2)) (λ found. integer (from_bool found))

  unfoldable pub smembers : RespVersion → List Bytes → Reply (Store h)
  unfolding Set.smembers smembers_reply
  smembers version args = respond (Set.smembers (arg args 1)) (smembers_reply version)

  unfoldable pub scard : RespVersion → List Bytes → Reply (Store h)
  unfolding Set.scard
  scard version args = respond (Set.scard (arg args 1)) (λ n. integer (pos n))
