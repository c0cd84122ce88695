-- ===== src/MpscQueue.antt =====
-- The lock-free queue of include/FastNet/MpscQueue.h.
pub mod Queue
pub mod Waiting
pub mod Inv
pub mod Fifo
pub mod Destroy
mod Tests
