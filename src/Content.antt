-- ===== src/Content.antt =====
-- The live content of agentdriver/protocol/content.go.
pub mod Bytes
pub mod Types
pub mod Apply
pub mod Server
pub mod Cut
pub mod Bounds
pub mod Replace
pub mod Streams
pub mod Calls
pub mod Following
pub mod Readers
pub mod Equality
pub mod Whole
