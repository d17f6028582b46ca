-- ===== src/Ext2/Image.antt =====
-- The mapped image of A4 with its structures in A4/ext2.h, and the global variables of A4/util.h.
-- Numbers on the image are stored with the low byte first.
use csc_369_operating_system.Common.{ℕ, ◌+◌, ◌-◌, ◌*◌, ◌/◌, ◌%◌, ◌^◌, if◌then◌else◌, ltb, update}
use csc_369_operating_system.Ext2.Outcome.{Prog, ◌>>◌, done, fault}

-- The length that `main` maps.
abbrev pub disk_size : ℕ
disk_size = 131072

abbrev pub block_size : ℕ
block_size = 1024

-- `struct Bitmap`: `sys_bm` is the offset of its first byte in the image.
pub record Bitmap : Type 0 where
  pub sys_bm : ℕ
  pub num_bits_avail : ℕ
  pub avail_byte_index : ℕ
  pub avail_bit_index : ℕ
  pub curr_avail_num : ℕ

-- The image and the global variables; `ind_table` is an offset, too.
pub record State : Type 0 where
  pub disk : ℕ → ℕ
  pub ind_bmap : Bitmap
  pub blk_bmap : Bitmap
  pub inds_count : ℕ
  pub blks_count : ℕ
  pub ind_table : ℕ

-- A pointer to one of the two bitmaps.
pub data Which : Type 0 where
  inds blks : Which

abbrev pub the_bmap : Which → State → Bitmap
the_bmap inds s = s.ind_bmap
the_bmap blks s = s.blk_bmap

abbrev pub set_bmap : Which → Bitmap → State → State
set_bmap inds b s = record s { ind_bmap = b }
set_bmap blks b s = record s { blk_bmap = b }

abbrev pub u16 : (ℕ → ℕ) → ℕ → ℕ
u16 disk a = disk a + 256 * disk (a + 1)

abbrev pub u32 : (ℕ → ℕ) → ℕ → ℕ
u32 disk a = u16 disk a + 65536 * u16 disk (a + 2)

-- Accesses past the end of the map are undefined.
unfoldable pub load8 : ℕ → Prog State ℕ
load8 a s = if ltb a disk_size then done (s.disk a, s) else fault

unfoldable pub load16 : ℕ → Prog State ℕ
load16 a s = if ltb (a + 1) disk_size then done (u16 s.disk a, s) else fault

unfoldable pub load32 : ℕ → Prog State ℕ
load32 a s = if ltb (a + 3) disk_size then done (u32 s.disk a, s) else fault

unfoldable pub store8 : ℕ → ℕ → Prog State (Unit {0})
store8 a v s =
    if ltb a disk_size then done (tt, record s { disk = update s.disk a (v % 256) }) else fault

unfoldable pub store16 : ℕ → ℕ → Prog State (Unit {0})
unfolding store8
store16 a v = do store8 a v; store8 (a + 1) (v / 256)

unfoldable pub store32 : ℕ → ℕ → Prog State (Unit {0})
unfolding store16
store32 a v = do store16 a v; store16 (a + 2) (v / 65536)

-- A copy of an inode, with the fields that the code uses.
pub record Inode : Type 0 where
  pub i_mode : ℕ
  pub i_ctime : ℕ
  pub i_dtime : ℕ
  pub i_links_count : ℕ
  pub i_block : ℕ → ℕ

-- `IND_TABLE[i]` as a value.
unfoldable pub copy_inode : ℕ → Prog State Inode
copy_inode i s =
    let a = s.ind_table + 128 * i in
    if ltb (a + 127) disk_size
    then done (
      record {
        i_mode = u16 s.disk a;
        i_ctime = u32 s.disk (a + 12);
        i_dtime = u32 s.disk (a + 20);
        i_links_count = u16 s.disk (a + 26);
        i_block = λ k. u32 s.disk (a + 40 + 4 * k);
      },
      s,
    )
    else fault

-- `i_block` has 15 entries.
unfoldable pub block_at : Inode → ℕ → Prog State ℕ
block_at n k s = if ltb k 15 then done (n.i_block k, s) else fault

-- The fields of `struct ext2_dir_entry` at an offset.
abbrev pub entry_inode : ℕ → Prog State ℕ
entry_inode a = load32 a

abbrev pub rec_len : ℕ → Prog State ℕ
rec_len a = load16 (a + 4)

abbrev pub name_len : ℕ → Prog State ℕ
name_len a = load8 (a + 6)

abbrev pub file_type : ℕ → Prog State ℕ
file_type a = load8 (a + 7)

abbrev pub name_at : ℕ → ℕ
name_at a = a + 8

-- Offsets of the superblock and of the group descriptor.
abbrev pub super_block : ℕ
super_block = 1024

abbrev pub group_desc : ℕ
group_desc = 2048

-- `unsigned int`.
abbrev pub wrap : ℕ → ℕ
wrap n = n % 2 ^ 32

-- `a - b` there, for numbers below 2 ^ 32.
abbrev pub minus : ℕ → ℕ → ℕ
minus a b = (a + 2 ^ 32 - b) % 2 ^ 32
