-- ===== src/Ext2/Checker/Counts.antt =====
-- `check_free_counts` of A4/ext2_checker.c: the four counters on the image against
-- the two that `init_globals` reads.
use csc_369_operating_system.Common.{ℕ, ◌+◌, ◌≡◌}
use csc_369_operating_system.Ext2.Image.{u16, u32, group_desc, super_block}
use csc_369_operating_system.Ext2.Checker.{distance}

-- How far the four counters are off, from the count of free blocks and of free inodes.
abbrev pub off_by : (ℕ → ℕ) → ℕ → ℕ → ℕ
off_by disk blocks inodes =
    distance (u16 disk (group_desc + 12)) blocks
    + distance (u16 disk (group_desc + 14)) inodes
    + distance (u32 disk (super_block + 12)) blocks
    + distance (u32 disk (super_block + 16)) inodes

-- The four counters are the counts.
pub record Agrees (disk : ℕ → ℕ) (blocks inodes : ℕ) : Type 0 where
  pub group_blocks : u16 disk (group_desc + 12) ≡ blocks
  pub group_inodes : u16 disk (group_desc + 14) ≡ inodes
  pub super_blocks : u32 disk (super_block + 12) ≡ blocks
  pub super_inodes : u32 disk (super_block + 16) ≡ inodes
