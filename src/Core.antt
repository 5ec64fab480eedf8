-- ===== src/Core.antt =====
-- The managers of src/core.
pub mod StorageManager
pub mod LoadBalancer
pub mod NetworkManager
pub mod MultiCoreBlockchain
pub mod Engine
