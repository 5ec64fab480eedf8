-- ===== src/Sync.antt =====
-- The lock-free structures of src/sync.
pub mod LockFreeStack
pub mod LockFreeQueue
pub mod LockFreeHashMap
pub mod HierarchicalLock
