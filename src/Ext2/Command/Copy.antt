-- ===== src/Ext2/Command/Copy.antt =====
-- A4/ext2_cp.c, less `main`, which has a syntax error. What it puts into copies of inodes is lost,
-- and left out.
use csc_369_operating_system.Common.{
  ℕ, ◌%◌, not, List, [], ◌∷◌, Option, none, some, if◌then◌else◌, ◌==◌, length,
}
use csc_369_operating_system.Ext2.Outcome.{Prog, exit, undefined, ◌>>=◌, ◌>>◌, einval, eexist}
use csc_369_operating_system.Ext2.Image.{State, inds, blks, copy_inode, minus}
use csc_369_operating_system.Ext2.Bitmap.{find_free, find_n_free, set_n_toggle_bit, set_used_bit}
use csc_369_operating_system.Ext2.Directory.{dir_entry_exists, mk_dir_entry}
use csc_369_operating_system.Ext2.Command.Remove.{child}

-- `mk_new_file_inode`, for what `fopen` opens: `none` is NULL, which `fseek` does not take. `buffer`
-- is NULL, too, so that no byte can be read into it. An empty file is given one block, which needs
-- no round of the loop, and one for an indirect block, which is not written.
unfoldable pub mk_new_file_inode : ℕ → Option (List ℕ) → Prog State (Unit {0})
unfolding copy_inode
mk_new_file_inode inode_num none = undefined
mk_new_file_inode inode_num (some (c ∷ file)) = undefined
mk_new_file_inode inode_num (some []) = do
  copy_inode inode_num
  mem_blks ← find_n_free blks 2
  set_n_toggle_bit blks mem_blks 1 2
  set_used_bit inds

unfoldable pub ext2_cp :
    List (Option (List ℕ)) → List (Option (List ℕ)) → Option (List ℕ) → Prog State (Unit {0})
unfolding copy_inode
ext2_cp p fpath file = do
  parent_inode_num ← dir_entry_exists p 0
  if parent_inode_num == 0 then exit einval else do
    entry ← dir_entry_exists fpath parent_inode_num
    if not (entry == 0) then exit eexist else do
      new_inode_num ← find_free inds
      find_free blks
      copy_inode (minus new_inode_num 1)
      copy_inode (minus parent_inode_num 1)
      name ← child fpath
      mk_new_file_inode new_inode_num file
      mk_dir_entry parent_inode_num new_inode_num (length name % 256) 1 name
