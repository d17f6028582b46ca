-- ===== src/Ext2/Bitmap/Boot.antt =====
-- `init_globals` of A4/util.c: the global variables against the image.
use csc_369_operating_system.Common.{ℕ, ◌+◌, ◌*◌, update, ◌≡◌, refl, ◌∙◌}
use csc_369_operating_system.Ext2.Outcome.{done}
use csc_369_operating_system.Ext2.Image.{
  State, Bitmap, inds, blks, u16, u32, load16, load32, store8, store16, store32, super_block,
  group_desc, block_size, wrap,
}
use csc_369_operating_system.Ext2.Bitmap.{init_globals, read_bitmaps}
use csc_369_operating_system.Ext2.Bitmap.Find.{First}
use csc_369_operating_system.Ext2.Bitmap.Use.{Names}
use csc_369_operating_system.Ext2.Bitmap.Scan.{Spare, naming, read_bitmaps-First}

abbrev zero16 : (ℕ → ℕ) → ℕ → ℕ → ℕ
zero16 disk a = update (update disk a 0) (a + 1) 0

abbrev zero32 : (ℕ → ℕ) → ℕ → ℕ → ℕ
zero32 disk a = zero16 (zero16 disk a) (a + 2)

-- The image without the padding of the group descriptor.
abbrev pub wiped : (ℕ → ℕ) → ℕ → ℕ
wiped disk = zero32 (zero32 (zero32 (zero16 disk 2066) 2068) 2072) 2076

-- The state before the bitmaps are read.
abbrev booted : State → State
booted s = record s {
  disk = wiped s.disk;
  inds_count = u32 s.disk super_block;
  blks_count = u32 s.disk (super_block + 4);
  ind_table = wrap (block_size * u32 s.disk (group_desc + 8));
  ind_bmap = record s.ind_bmap {
    sys_bm = wrap (u32 s.disk (group_desc + 4) * block_size);
    num_bits_avail = u16 s.disk (group_desc + 14);
  };
  blk_bmap = record s.blk_bmap {
    sys_bm = wrap (u32 s.disk group_desc * block_size);
    num_bits_avail = u16 s.disk (group_desc + 12);
  };
}

init_globals-booted : (s : State) → init_globals s ≡ read_bitmaps (booted s)
unfolding init_globals load16 load32 store8 store16 store32
init_globals-booted s = refl

-- The fields of a bitmap name its first spare bit, and its counter is the given one.
pub record Serves (disk : ℕ → ℕ) (bm : Bitmap) (sys_bm count limit : ℕ) : Type 0 where
  pub place : bm.sys_bm ≡ sys_bm
  pub left : bm.num_bits_avail ≡ count
  pub bit : ℕ
  pub names : Names bm bit
  pub first : First disk sys_bm 10 limit bit

-- With a spare inode and a spare block on the image, `init_globals` clears the padding of the group
-- descriptor and nothing else on it, sets the global variables from the superblock and the group
-- descriptor, and makes the fields of both bitmaps name the first spare bits.
pub init_globals-Serves :
    (s : State) (u v : ℕ)
    → Spare
        (wiped s.disk)
        (wrap (u32 s.disk (group_desc + 4) * block_size))
        (u32 s.disk super_block)
        u
    → Spare
        (wiped s.disk)
        (wrap (u32 s.disk group_desc * block_size))
        (u32 s.disk (super_block + 4))
        v
    → (s' : State) × (init_globals s ≡ done (tt, s'))
      × (s'.disk ≡ wiped s.disk)
      × (s'.inds_count ≡ u32 s.disk super_block)
      × (s'.blks_count ≡ u32 s.disk (super_block + 4))
      × (s'.ind_table ≡ wrap (block_size * u32 s.disk (group_desc + 8)))
      × Serves
          (wiped s.disk)
          s'.ind_bmap
          (wrap (u32 s.disk (group_desc + 4) * block_size))
          (u16 s.disk (group_desc + 14))
          u
      × Serves
          (wiped s.disk)
          s'.blk_bmap
          (wrap (u32 s.disk group_desc * block_size))
          (u16 s.disk (group_desc + 12))
          v
init_globals-Serves s u v a b =
    let (t, w, e, f, f') = read_bitmaps-First (booted s) u v a b in
    (
      naming blks w (naming inds t (booted s)),
      init_globals-booted s ∙ e,
      refl,
      refl,
      refl,
      refl,
      record {
        place = refl;
        left = refl;
        bit = t;
        names = record { byte = refl; bit = refl; num = refl };
        first = f;
      },
      record {
        place = refl;
        left = refl;
        bit = w;
        names = record { byte = refl; bit = refl; num = refl };
        first = f';
      },
    )
