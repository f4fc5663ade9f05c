-- ===== src/Mr.antt =====
-- The memory region manager (src/transports/ofi/ofimr.h and ofimr.c).
pub mod State
pub mod Bank
pub mod Slab
pub mod Setup
pub mod Context
