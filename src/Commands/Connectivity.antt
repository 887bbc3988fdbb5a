-- ===== src/Commands/Connectivity.antt =====
-- crates/gamestore-datamodel/src/commands/connectivity.rs.
use game_store.Prelude.{List, ◌==◌, if◌then◌else◌, length}
use game_store.Bytes.{Bytes, text}
use game_store.Protocol.Frame.{RespVersion, simple, bulk}
use game_store.Commands.Base.{Reply, reply, arg, wrong_args}

module _ {S : Type 0} where
  unfoldable pub ping : RespVersion → List Bytes → Reply S
  unfolding wrong_args
  ping version args =
      if length args == 1
      then reply (simple (text "PONG"))
      else if length args == 2
      then reply (bulk (arg args 1))
      else reply (wrong_args (text "ping"))

  unfoldable pub echo : RespVersion → List Bytes → Reply S
  echo version args = reply (bulk (arg args 1))
