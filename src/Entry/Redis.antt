-- ===== src/Entry/Redis.antt =====
-- The redis server of entry/redisEntry.go and its neighbours.
pub mod Session
pub mod Client
pub mod Command
pub mod Handlers
pub mod Server
pub mod RoundTrip
pub mod Buffer
pub mod Safe
pub mod Ends
pub mod Terminator
pub mod Malformed
pub mod Pipeline
pub mod Delivery
