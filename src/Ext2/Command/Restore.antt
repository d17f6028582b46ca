-- ===== src/Ext2/Command/Restore.antt =====
-- A4/ext2_restore.c.
use csc_369_operating_system.Common.{
  ℕ, zero, suc, ◌+◌, ◌-◌, ◌*◌, Bool, true, false, ◌&&◌, not, List, [], ◌∷◌, Option, if◌then◌else◌,
  ◌==◌, ltb, length,
}
use csc_369_operating_system.Ext2.Outcome.{
  Prog, pure, exit, undefined, runs_forever, ◌>>=◌, ◌>>◌, einval, eisdir, enoent,
}
use csc_369_operating_system.Ext2.Image.{
  State, Inode, inds, blks, load8, load16, load32, copy_inode, block_at, entry_inode, rec_len,
  name_len, name_at, block_size, wrap,
}
use csc_369_operating_system.Ext2.Bitmap.{set_n_toggle_bit, check_bit}
use csc_369_operating_system.Ext2.Directory.{names_match, dir_entry_exists, is_dir, true_file_size}
use csc_369_operating_system.Ext2.Command.Blocks.{list_blocks, next_block_num, walk_fuel}
use csc_369_operating_system.Ext2.Command.Remove.{child}

-- The first loop of `restore_inode`: whether none of the blocks is in use.
unfoldable pub blocks_free : ℕ → Inode → ℕ → ℕ → ℕ → Prog State Bool
unfolding next_block_num
blocks_free zero inode k indirect block_num = runs_forever
blocks_free (suc fuel) inode k indirect block_num = if block_num == 0 then pure true else do
  (b, k', indirect') ← next_block_num inode k indirect
  used ← check_bit blks b
  if used then pure false else blocks_free fuel inode k' indirect' b

-- `restore_inode`: whether it returns 1.
unfoldable pub restore_inode : ℕ → Prog State Bool
unfolding copy_inode
restore_inode inode_num = do
  inode ← copy_inode inode_num
  free ← blocks_free walk_fuel inode 0 0 (inode.i_block 0)
  if not free then pure false else do
    blocks ← list_blocks walk_fuel inode 0 0 (inode.i_block 0)
    set_n_toggle_bit blks blocks 1 (length blocks)
    set_n_toggle_bit inds (inode_num ∷ []) 1 1
    pure true

-- The inner loop of `restore_dir_entry`, which also looks into the gaps behind entries.
unfoldable pub seek_gap : ℕ → ℕ → ℕ → List ℕ → Prog State (ℕ × Bool)
unfolding load8 load16
seek_gap fuel zero curr name = pure (curr, false)
seek_gap zero (suc mem) curr name = runs_forever
seek_gap (suc fuel) (suc mem) curr name = do
  n ← name_len curr
  match ← names_match name (name_at curr) n
  if match then pure (curr, true) else (do
    l ← rec_len curr
    let dir_ent_sz = true_file_size n
    if ltb dir_ent_sz l
        then seek_gap fuel (suc mem - dir_ent_sz) (curr + dir_ent_sz) name
        else (do l' ← rec_len (curr + l); seek_gap fuel (suc mem - l') (curr + l) name))

unfoldable pub seek_gaps : ℕ → ℕ → Inode → ℕ → ℕ → Bool → List ℕ → Prog State (ℕ × Bool)
unfolding block_at
seek_gaps zero k inode block_num curr found name = undefined
seek_gaps (suc left) k inode block_num curr found name =
    if block_num == 0 && found then pure (curr, found) else do
      (curr', match) ← seek_gap (block_size + 2) block_size (wrap (block_num * block_size)) name
      b ← block_at inode (k + 1)
      seek_gaps left (k + 1) inode b curr' (if found then true else match) name

unfoldable pub restore_dir_entry : ℕ → List ℕ → Prog State ℕ
unfolding copy_inode load32
restore_dir_entry parent_inode_num name = do
  inode ← copy_inode parent_inode_num
  (curr, found) ← seek_gaps 16 0 inode (inode.i_block 0) 0 false name
  if found then entry_inode curr else pure 0

unfoldable pub ext2_restore :
    List (Option (List ℕ)) → List (Option (List ℕ)) → Prog State (Unit {0})
unfolding copy_inode
ext2_restore p fpath = do
  parent_inode_num ← dir_entry_exists p 0
  if parent_inode_num == 0 then exit einval else do
    parent_inode ← copy_inode parent_inode_num
    if not (is_dir parent_inode.i_mode) then exit eisdir else do
      entry ← dir_entry_exists fpath parent_inode_num
      file_inode_num ←
          (if entry == 0 then child fpath >>= restore_dir_entry parent_inode_num else pure entry)
      if file_inode_num == 0
          then exit einval
          else do restored ← restore_inode file_inode_num; if restored then pure tt else exit enoent
