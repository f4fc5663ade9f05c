-- ===== src/Bofi.antt =====
-- The bound endpoint (src/transports/ofi/bofi.c).
pub mod Offsets
pub mod Machine
