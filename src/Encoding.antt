-- ===== src/Encoding.antt =====
-- crates/gamestore-engine/src/encoding.rs: the layout of keys and of metadata records.
pub mod Keys
pub mod Score
pub mod Meta
