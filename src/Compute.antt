-- ===== src/Compute.antt =====
-- Loops over arrays of numbers: the vector loops of src/compute/compute_manager.cpp and of
-- src/core/drivers/compute_ops.c.
pub mod Lanes
pub mod Blocks
pub mod Manager
pub mod Vectors
