-- ===== src/Memory/Machine.antt =====
-- The data of the simulator in A3/pagetable.h, A3/sim.h and A3/swap.c, and the interfaces to the
-- swap file and to the replacement algorithm.
use csc_369_operating_system.Common.{ℕ, Bool, Option}
use csc_369_operating_system.Memory.Bitmap.Bits.{Bitmap}

-- The bytes of a simulated frame: the `int` version at its start and the `addr_t` behind that.
pub record Page : Type 0 where
  pub version : ℕ
  pub vaddr : ℕ

-- A page table entry. The word `frame` holds the frame's number above bit 12 and the bits
-- PG_VALID, PG_DIRTY, PG_REF and PG_ONSWAP; its other bits are never set. INVALID_SWAP is `none`.
pub record Pte : Type 0 where
  pub number : ℕ
  pub valid : Bool
  pub dirty : Bool
  pub ref : Bool
  pub onswap : Bool
  pub swap_off : Option ℕ

-- `struct frame`, less the links of the replacement algorithms. A page table entry is pointed to
-- by the number of its virtual page.
pub record Frame : Type 0 where
  pub in_use : Bool
  pub pte : Option ℕ
  pub vaddr : ℕ

-- The swap file, which the C library keeps: the file or the page after a write or a read of
-- SIMPAGESIZE bytes at an offset, and whether seeking and transfer went well.
pub record Device (F : Type 0) : Type 0 where
  pub write : F → ℕ → Page → F × Bool
  pub read : F → ℕ → Page → Page × Bool

-- All global variables: `alg` are those of the replacement algorithm. `pgdir` is the valid bit of
-- a page directory entry, and `ptes` the entries of all second-level tables in a row.
pub record Machine (F P : Type 0) : Type 0 where
  pub memsize : ℕ
  pub coremap : ℕ → Frame
  pub physmem : ℕ → Page
  pub pgdir : ℕ → Bool
  pub ptes : ℕ → Pte
  pub swapmap : Bitmap
  pub swapfile : F
  pub hit_count : ℕ
  pub miss_count : ℕ
  pub ref_count : ℕ
  pub evict_clean_count : ℕ
  pub evict_dirty_count : ℕ
  pub alg : P

-- `struct functions`: a replacement algorithm may fault.
pub record Functions (F P : Type 0) : Type 0 where
  pub ref : ℕ → Machine F P → Option (Machine F P)
  pub evict : Machine F P → Option (ℕ × Machine F P)
