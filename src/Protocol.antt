-- ===== src/Protocol.antt =====
-- crates/gamestore-protocol: RESP values, their encoder and their decoder.
pub mod Error
pub mod Frame
pub mod Text
pub mod Parser
pub mod Decode
pub mod Encode
pub mod Sendable
pub mod RoundTrip
pub mod Inline
pub mod Command
pub mod Requests
pub mod Shrinks
pub mod Stable
