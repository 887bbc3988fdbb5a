-- ===== src/Tests.antt =====
-- Tests: the theorems of the properties, applied at concrete inputs.
pub mod Fixtures
pub mod Keys
pub mod Stores
pub mod Sessions
pub mod Threads
pub mod Members
pub mod Lengths
pub mod Requests
pub mod Frames
