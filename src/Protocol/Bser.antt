-- ===== src/Protocol/Bser.antt =====
-- crates/watchwoman-protocol/src/bser.rs.
pub mod Ints
pub mod Write
pub mod Read
pub mod Pdu
pub mod IntRoundTrip
pub mod At
pub mod Leaves
pub mod Loops
pub mod Templates
pub mod RoundTrip
pub mod PduRoundTrip
pub mod Stream
pub mod SoundLeaves
pub mod Sound
pub mod Decode
pub mod Hostile
pub mod Examples
