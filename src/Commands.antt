-- ===== src/Commands.antt =====
-- crates/gamestore-datamodel: the commands.
pub mod Text
pub mod Arith
pub mod Base
pub mod Connectivity
pub mod Strings
pub mod Hashes
pub mod Sets
pub mod SortedSets
pub mod Sequences
pub mod Admin
pub mod Registry
pub mod Keeps
pub mod Deadlines
