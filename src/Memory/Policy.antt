-- ===== src/Memory/Policy.antt =====
-- The replacement algorithms of A3, clock.c, rand.c, fifo.c and lru.c, and the orders that the
-- links of the last two stand for.
pub mod Queue
pub mod Recency
pub mod Removal
pub mod Clock
pub mod Rand
pub mod Fifo
pub mod Lru
pub mod Opt
pub mod Order
pub mod Reference
pub mod Usage
pub mod Recent
