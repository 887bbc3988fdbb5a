-- ===== src/Engine.antt =====
-- crates/gamestore-engine/src/engine.rs, error.rs: the interface of a storage engine, and the laws
-- that the data model relies on.
pub mod Error
pub mod Records
pub mod Batch
pub mod Interface
