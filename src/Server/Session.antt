-- ===== src/Server/Session.antt =====
-- crates/gamestore-datanode/src/server.rs: the loop of handle_connection, over the bytes that have
-- arrived. The rest of a buffer waits for more of them. Shutdown, metrics and the slow log are left out.
use game_store.Prelude.{
  ℕ, zero, suc, Bool, false, not, Option, none, some, List, [], ◌∷◌, ◌++◌, if◌then◌else◌,
}
use game_store.Prelude.Int.{ℤ}
use game_store.Bytes.{Bytes, text}
use game_store.Protocol.Text.{FloatText}
use game_store.Protocol.Error.{ProtocolError}
use game_store.Protocol.Frame.{RespVersion, error}
use game_store.Protocol.Parser.{Parsed, done, incomplete, failed, Limits}
use game_store.Protocol.Encode.{encode}
use game_store.Protocol.Command.{decode_command}
use game_store.Store.Base.{Host, Store}
use game_store.Commands.Registry.{CommandRegistry}
use game_store.Server.Connection.{Action, dispatch}

-- What a connection keeps: the version and the limits of its codec, its id, the bytes sent so far, and
-- whether it is open.
pub record Connection : Type 0 where
  pub version : RespVersion
  pub limits : Limits
  pub conn_id : ℤ
  pub sent : Bytes
  pub is_open : Bool

abbrev pub or_current : RespVersion → Option RespVersion → RespVersion
or_current current none = current
or_current current (some v) = v

-- The text of a protocol error is that of its messages, which the decoder's errors here do not have.
module _ (floats : FloatText) (describe : ProtocolError → Bytes) where
  -- The version is switched before the reply is encoded.
  unfoldable pub perform : Action → Connection → Connection
  unfolding encode
  perform action conn =
      let version = or_current conn.version action.set_version in
      record conn {
        version = version;
        sent = conn.sent ++ encode floats version action.reply;
        is_open = not action.close;
      }

  unfoldable pub refuse : ProtocolError → Connection → Connection
  unfolding encode
  refuse e conn = record conn {
    sent =
        conn.sent ++ encode floats conn.version (error (text "ERR Protocol error: " ++ describe e));
    is_open = false;
  }

  module _ ⦃h : Host⦄ (registry : CommandRegistry (Store h)) where
    -- One request; an empty one is passed over.
    unfoldable pub handle_request : List Bytes → Connection → Store h → Connection × Store h
    unfolding dispatch perform
    handle_request [] conn s = (conn, s)
    handle_request (name ∷ args) conn s =
        let r = dispatch registry (name ∷ args) conn.version conn.conn_id s in
        (perform r.0 conn, r.1)

    -- The outcome of the loop: the bytes that are left, the connection and the store.
    abbrev pub Outcome : Type 0
    Outcome = Option (Bytes × Connection × Store h)

    -- One round of the loop, on what was decoded from the buffer; `next` is the rest of the loop.
    unfoldable pub handle_item :
        (Bytes → Connection → Store h → Outcome)
        → Bytes
        → Connection
        → Store h
        → Parsed (List Bytes)
        → Outcome
    unfolding handle_request refuse
    handle_item next buffer conn s incomplete = some (buffer, conn, s)
    handle_item next buffer conn s (failed e) = some (buffer, refuse e conn, s)
    handle_item next buffer conn s (done args rest) =
        let r = handle_request args conn s in
        if r.0.is_open then next rest r.0 r.1 else some (rest, r.0, r.1)

    -- All requests in the buffer; without fuel there is no outcome.
    unfoldable pub handle_buffer : ℕ → Bytes → Connection → Store h → Outcome
    unfolding handle_item decode_command
    handle_buffer zero buffer conn s = none
    handle_buffer (suc fuel) buffer conn s =
        handle_item (handle_buffer fuel) buffer conn s (decode_command conn.limits buffer)
