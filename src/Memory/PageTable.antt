-- ===== src/Memory/PageTable.antt =====
-- Translation of virtual addresses: A3/pagetable.c, with the transfers of A3/swap.c and the memory
-- access of A3/sim.c.
pub mod Swap
pub mod Translate
pub mod Links
pub mod Promise
pub mod Transfer
pub mod Allocate
pub mod Arrival
pub mod Resident
