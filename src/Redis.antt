-- ===== src/Redis.antt =====
-- crates/gylo-redis/src/lib.rs: the backend on sorted sets. The commands of the server are functions on
-- the keys of one namespace.
pub mod Zset
pub mod Store
pub mod Backend
pub mod Places
pub mod Machine
pub mod Leasing
pub mod Kept
pub mod Sound
pub mod Claim
pub mod Progress
pub mod Reading
mod Tests
