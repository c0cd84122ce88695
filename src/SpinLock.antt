-- ===== src/SpinLock.antt =====
-- The lock of include/FastNet/SpinLock.h.
pub mod Lock
pub mod Exclusion
mod Tests
