-- ===== src/Ext2/Checker.antt =====
-- A4/ext2_checker.c, less `main` and what is printed. The functions increment their pointer
-- `fix_count` in three places, not what it points to, so that these changes do not count.
pub mod Counts
use csc_369_operating_system.Common.{
  ℕ, zero, suc, ◌+◌, ◌-◌, ◌*◌, ◌/◌, ◌%◌, ◌^◌, Bool, true, false, ◌&&◌, not, List, [], ◌∷◌,
  if◌then◌else◌, ◌==◌, ltb,
}
use csc_369_operating_system.Ext2.Outcome.{
  Prog, gets, pure, exit, undefined, runs_forever, ◌>>=◌, ◌>>◌, einval,
}
use csc_369_operating_system.Ext2.Image.{
  State, Inode, inds, blks, load8, load16, load32, store8, store16, store32, copy_inode, block_at,
  entry_inode, rec_len, file_type, block_size, super_block, group_desc, wrap, minus,
}
use csc_369_operating_system.Ext2.Bitmap.{check_bit, set_n_toggle_bit, first_ino}
use csc_369_operating_system.Ext2.Directory.{
  FileType, link, file, directory, unknown, get_inode_type, get_directory_entry_type, is_dir,
  indirect_blk_index,
}

-- `(int)` of an `unsigned int`, moved up by 2 ^ 31, and `abs` of a difference of two of them.
abbrev pub to_int : ℕ → ℕ
to_int n = (n + 2 ^ 31) % 2 ^ 32

unfoldable pub distance : ℕ → ℕ → ℕ
distance a b = (to_int a - to_int b) + (to_int b - to_int a)

-- `*fix_count += diff`. An overflow of `int` is undefined, also one in `diff`.
unfoldable pub add_fix : ℕ → ℕ → Prog State ℕ
add_fix fix_count diff =
    if ltb (fix_count + diff) (2 ^ 31) then pure (fix_count + diff) else undefined

-- One of the two counters of the group descriptor, of 16 bits, and of the superblock, of 32 bits,
-- against a count; `fix_count` before and after.
unfoldable pub fix16 : ℕ → ℕ → ℕ → Prog State ℕ
unfolding load16 store16
fix16 a count fix_count = do
  n ← load16 a
  if n == count then pure fix_count else do store16 a count; add_fix fix_count (distance n count)

unfoldable pub fix32 : ℕ → ℕ → ℕ → Prog State ℕ
unfolding load32 store32
fix32 a count fix_count = do
  n ← load32 a
  if n == count then pure fix_count else do store32 a count; add_fix fix_count (distance n count)

unfoldable pub check_free_counts : ℕ → Prog State ℕ
unfolding fix16 fix32
check_free_counts f0 = do
  free_inodes_count ← gets (λ s. s.ind_bmap.num_bits_avail)
  free_blocks_count ← gets (λ s. s.blk_bmap.num_bits_avail)
  f1 ← fix16 (group_desc + 12) free_blocks_count f0
  f2 ← fix16 (group_desc + 14) free_inodes_count f1
  f3 ← fix32 (super_block + 12) free_blocks_count f2
  fix32 (super_block + 16) free_inodes_count f3

abbrev pub same_type : FileType → FileType → Bool
same_type link link = true
same_type file file = true
same_type directory directory = true
same_type unknown unknown = true
same_type _ _ = false

-- Every case of the switch falls through to the last one.
unfoldable pub check_matching_types : ℕ → Prog State (Unit {0})
unfolding load32 copy_inode load8 store8
check_matching_types dir_ent = do
  i ← entry_inode dir_ent
  inode ← copy_inode i
  t ← file_type dir_ent
  dir_ent_type ← get_directory_entry_type t
  inode_type ← get_inode_type inode.i_mode
  if same_type dir_ent_type inode_type then pure tt else store8 (dir_ent + 7) 0

unfoldable pub decrement16 : ℕ → Prog State (Unit {0})
unfolding load16 store16
decrement16 a = do n ← load16 a; store16 a (n + 65535)

unfoldable pub decrement32 : ℕ → Prog State (Unit {0})
unfolding load32 store32
decrement32 a = do n ← load32 a; store32 a (minus n 1)

unfoldable pub check_inode_bitmap : ℕ → Prog State (Unit {0})
unfolding load32
check_inode_bitmap dir_ent = do
  i ← entry_inode dir_ent
  used ← check_bit inds i
  if used then pure tt else do
    set_n_toggle_bit inds (i ∷ []) 1 1
    decrement16 (group_desc + 14)
    decrement32 (super_block + 16)

-- What it resets is in a copy of the inode.
unfoldable pub check_inode_dtime : ℕ → Prog State (Unit {0})
unfolding load32 copy_inode
check_inode_dtime dir_ent = do i ← entry_inode dir_ent; copy_inode i; pure tt

-- The loop of `check_data_block_bitmap`: the number of blocks that it marks. Without an indirect
-- block, its table is an unset pointer.
unfoldable pub mark_blocks : ℕ → Inode → ℕ → ℕ → ℕ → Prog State ℕ
unfolding load32
mark_blocks zero inode k indirect block_num = runs_forever
mark_blocks (suc fuel) inode k indirect block_num =
    let block_of : Prog State ℕ =
      if k == indirect_blk_index
      then (if inode.i_block indirect_blk_index == 0
          then undefined
          else load32 (wrap (inode.i_block indirect_blk_index * block_size) + 4 * indirect))
      else pure (inode.i_block k) in
    let k' = if k == indirect_blk_index then k else k + 1 in
    let indirect' = if k == indirect_blk_index then indirect + 1 else indirect in
    if block_num == 0 then pure 0 else do
      b ← block_of
      used ← check_bit blks b
      if used then mark_blocks fuel inode k' indirect' b else (do
        set_n_toggle_bit blks (b ∷ []) 1 1
        n ← mark_blocks fuel inode k' indirect' b
        pure (n + 1))

unfoldable pub check_data_block_bitmap : ℕ → ℕ → Prog State ℕ
unfolding load32 copy_inode
check_data_block_bitmap dir_ent fix_count = do
  i ← entry_inode dir_ent
  inode ← copy_inode i
  n ← mark_blocks 32800 inode 0 0 (inode.i_block 0)
  pure (fix_count + n)

unfoldable pub check_block_loop : ℕ → ℕ → ℕ → ℕ → Prog State ℕ
unfolding load16
check_block_loop fuel zero a fix_count = pure fix_count
check_block_loop zero (suc mem) a fix_count = runs_forever
check_block_loop (suc fuel) (suc mem) a fix_count = do
  check_matching_types a
  check_inode_bitmap a
  check_inode_dtime a
  fix_count' ← check_data_block_bitmap a fix_count
  l ← rec_len a
  check_block_loop fuel (suc mem - l) (a + l) fix_count'

unfoldable pub check_block : ℕ → ℕ → Prog State ℕ
check_block block_num fix_count =
    check_block_loop (block_size + 1) block_size (wrap (block_num * block_size)) fix_count

-- The indices and the table of the indirect block, which `check_dir_entries` keeps from one
-- directory to the next. A table that is not set is 0.
pub record Place : Type 0 where
  pub i_block_index : ℕ
  pub indirect_block_index : ℕ
  pub indirect_blks : ℕ

-- The inner loop of `check_dir_entries`.
unfoldable pub check_directory : ℕ → Inode → ℕ → Place → ℕ → Prog State (ℕ × Place)
unfolding load32 block_at
check_directory zero inode block_num p fix_count = runs_forever
check_directory (suc fuel) inode block_num p fix_count =
    if block_num == 0 then pure (fix_count, p) else do
      fix_count' ← check_block block_num fix_count
      if p.i_block_index == indirect_blk_index
          then (if p.indirect_blks == 0 then undefined else do
            b ← load32 (p.indirect_blks + 4 * p.indirect_block_index)
            check_directory fuel inode b
                (record p { indirect_block_index = p.indirect_block_index + 1 }) fix_count')
          else (do
            b ← block_at inode (p.i_block_index + 1)
            check_directory fuel inode b (record p { i_block_index = p.i_block_index + 1 })
                fix_count')

-- The outer loop, over the inodes that are left.
unfoldable pub check_inodes : ℕ → ℕ → Place → ℕ → Prog State ℕ
unfolding copy_inode block_at
check_inodes zero index p fix_count = pure fix_count
check_inodes (suc left) index p fix_count = do
  inode ← copy_inode index
  let table = inode.i_block indirect_blk_index
  let p' = if table == 0 then p else record p { indirect_blks = wrap (table * block_size) }
  if not (inode.i_ctime == 0) && is_dir inode.i_mode
      then (do
        block_num ← block_at inode p'.i_block_index
        (fix_count', p'') ← check_directory 32800 inode block_num p' fix_count
        check_inodes left (index + 1) p'' fix_count')
      else check_inodes left (index + 1) p fix_count

unfoldable pub check_dir_entries : ℕ → Prog State ℕ
unfolding load32
check_dir_entries fix_count = do
  inodes ← load32 super_block
  check_inodes (minus inodes first_ino - first_ino) first_ino
      (record { i_block_index = 0; indirect_block_index = 0; indirect_blks = 0 }) fix_count

-- `ext2_checker`, from what the new `fix_count` points to.
unfoldable pub ext2_checker : ℕ → Prog State ℕ
ext2_checker fix_count = do f ← check_free_counts fix_count; check_dir_entries f
