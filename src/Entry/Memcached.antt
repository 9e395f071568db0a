-- ===== src/Entry/Memcached.antt =====
-- The memcached server (entry/mcEntry.go, entry/mcResponse.go).
pub mod Input
pub mod Request
pub mod Process
pub mod Server
pub mod Lines
pub mod RoundTrip
pub mod Shrinks
pub mod Formed
pub mod Safe
pub mod Answers
pub mod Ends
