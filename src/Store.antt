-- ===== src/Store.antt =====
-- crates/gamestore-engine/src/store.rs: the Redis data model over a storage engine.
pub mod Exec
pub mod Base
pub mod Strings
pub mod Hash
pub mod Set
pub mod ZSet
pub mod Lists
pub mod Admin
pub mod View
pub mod Consistent
pub mod Load
pub mod Fresh
pub mod VersionClock
pub mod Compaction
pub mod Keeps
pub mod WrongType
pub mod Restart
pub mod Flush
