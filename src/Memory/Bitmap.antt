-- ===== src/Memory/Bitmap.antt =====
-- The bitmap of A3/swap.c: its operations, and what they do to it as a set of numbers.
pub mod Bits
pub mod Alloc
pub mod Marks
