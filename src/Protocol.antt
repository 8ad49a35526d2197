-- ===== src/Protocol.antt =====
-- crates/watchwoman-protocol: the value tree and the BSER codec.
pub mod Outcome
pub mod Utf8
pub mod Value
pub mod Fields
pub mod Bser
pub mod Json
