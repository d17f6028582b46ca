-- ===== src/Memory.antt =====
-- The virtual memory simulator of A3: swap space, page table, replacement algorithms.
pub mod Bitmap
pub mod Machine
pub mod PageTable
pub mod Policy
pub mod Replay
pub mod Boot
pub mod Content
pub mod Outcome
pub mod Cache
pub mod Main
mod Tests
