-- ===== src/Traffic.antt =====
-- The traffic intersection, threads over lanes and quadrants: A2/cars.c, A2/traffic.h and
-- A2/traffic.c.
pub mod Turn
pub mod Lane
pub mod Fifo
pub mod System
pub mod Invariant
pub mod Beginning
pub mod Preserve
pub mod Wake
pub mod Across
pub mod Schedule
pub mod Progress
pub mod Ending
pub mod Weight
pub mod Delivery
mod Tests
