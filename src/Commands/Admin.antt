-- ===== src/Commands/Admin.antt =====
-- crates/gamestore-datamodel/src/commands/admin.rs.
use game_store.Prelude.{List}
use game_store.Prelude.Int.{pos}
use game_store.Bytes.{Bytes}
use game_store.Protocol.Frame
use game_store.Protocol.Frame.{RespVersion, integer}
use game_store.Store.Base.{Host, Store}
use game_store.Store.Admin
use game_store.Commands.Base.{Reply, respond}

module _ ⦃h : Host⦄ where
  unfoldable pub dbsize : RespVersion → List Bytes → Reply (Store h)
  unfolding Admin.dbsize
  dbsize version args = respond Admin.dbsize (λ n. integer (pos n))

  unfoldable pub rawcount : RespVersion → List Bytes → Reply (Store h)
  unfolding Admin.raw_subkey_count
  rawcount version args = respond Admin.raw_subkey_count (λ n. integer (pos n))

  unfoldable pub compact : RespVersion → List Bytes → Reply (Store h)
  unfolding Admin.compact
  compact version args = respond Admin.compact (λ _. Frame.ok)
