-- ===== src/Wire.antt =====
-- crates/gylo-core/src/protocol.rs.
pub mod Words
pub mod Utf8
pub mod Message
pub mod MessagePack
pub mod Encode
pub mod Decode
pub mod Body
pub mod Frame
pub mod Stream
pub mod Parse
pub mod Batch
pub mod Drain
pub mod Delivery
pub mod Buffer
pub mod Progress
mod Tests
