-- ===== src/Protocol/Error.antt =====
-- crates/gamestore-protocol/src/error.rs, without the messages.

pub data ProtocolError : Type 0 where
  malformed limit_exceeded inline_syntax : ProtocolError
