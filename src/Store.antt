-- ===== src/Store.antt =====
-- store: the storage interface and the in-memory storage.
pub mod Interface
pub mod MemStore
