-- ===== src/Server.antt =====
-- crates/gamestore-datanode/src/server.rs: the requests of one connection.
pub mod Connection
pub mod Session
pub mod Progress
pub mod Keeps
pub mod Pipeline
pub mod Chunks
pub mod Labels
