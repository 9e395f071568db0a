-- ===== src/Examples.antt =====
-- The theorems at concrete inputs.
pub mod Texts
pub mod Lines
pub mod Topics
pub mod Queues
pub mod Restarts
pub mod Lifetime
pub mod Redis
pub mod Memcached
pub mod Web
pub mod Start
