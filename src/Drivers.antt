-- ===== src/Drivers.antt =====
-- The C drivers, src/core/drivers/.
pub mod MemoryOps
pub mod Buffer
pub mod Blockchain
