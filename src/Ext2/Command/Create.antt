-- ===== src/Ext2/Command/Create.antt =====
-- A4/ext2_mkdir.c and A4/ext2_ln.c. What they put into copies of inodes is lost, and left out.
use csc_369_operating_system.Common.{
  ℕ, ◌+◌, ◌*◌, ◌%◌, Bool, not, List, [], ◌∷◌, Option, if◌then◌else◌, ◌==◌, length,
}
use csc_369_operating_system.Ext2.Outcome.{
  Prog, gets, pure, exit, ◌>>=◌, ◌>>◌, einval, eexist, eisdir, enoent,
}
use csc_369_operating_system.Ext2.Image.{
  State, inds, blks, store8, load16, copy_inode, block_size, minus,
}
use csc_369_operating_system.Ext2.Bitmap.{find_free, find_free_num, set_used_bit}
use csc_369_operating_system.Ext2.Directory.{
  dir_entry_exists, is_dir, true_file_size, store_entry, mk_dir_entry,
}
use csc_369_operating_system.Ext2.Command.Remove.{child}

-- `mk_new_dir_inode`: the entries for the parent and for the directory itself.
unfoldable pub mk_new_dir_inode : ℕ → ℕ → Prog State (Unit {0})
unfolding copy_inode
mk_new_dir_inode inode_num parent_inode_num = do
  new_block_num ← find_free_num blks
  let a = new_block_num * block_size
  store_entry a parent_inode_num (true_file_size 2) 2 1 (b'.' ∷ b'.' ∷ [])
  store_entry (a + true_file_size 2) inode_num (true_file_size 1) 1 1 (b'.' ∷ [])
  copy_inode (minus inode_num 1)
  copy_inode (minus parent_inode_num 1)
  set_used_bit inds
  set_used_bit blks

unfoldable pub ext2_mkdir : List (Option (List ℕ)) → List (Option (List ℕ)) → Prog State (Unit {0})
ext2_mkdir p dpath = do
  parent_inode_num ← dir_entry_exists p 2
  if parent_inode_num == 0 then exit einval else do
    n ← dir_entry_exists dpath parent_inode_num
    if n == 0 then exit eexist else do
      new_inode_num ← find_free_num inds
      name ← child dpath
      mk_new_dir_inode new_inode_num parent_inode_num
      mk_dir_entry parent_inode_num new_inode_num (length name % 256) 2 name

-- `mk_new_symlink_inode`: `sizeof(*link_path)` is 1.
unfoldable pub mk_new_symlink_inode : ℕ → ℕ → List ℕ → Prog State (Unit {0})
unfolding store8 copy_inode
mk_new_symlink_inode src_inode_num link_inode_num link_path = do
  new_block_num ← find_free blks
  store8 (new_block_num * block_size) (first_char link_path)
  copy_inode (minus link_inode_num 1)
  copy_inode (minus src_inode_num 1)
  set_used_bit inds
  set_used_bit blks
  where
    first_char : List ℕ → ℕ
    first_char [] = 0
    first_char (c ∷ s) = c

unfoldable pub ext2_ln :
    List (Option (List ℕ))
    → List (Option (List ℕ))
    → List (Option (List ℕ))
    → Bool
    → List ℕ
    → Prog State (Unit {0})
unfolding load16
ext2_ln src link_parent lpath is_softlink abs_path = do
  src_inode_num ← dir_entry_exists src 0
  link_inode_num ← dir_entry_exists link_parent 0
  if src_inode_num == 0 then exit enoent else do
    if link_inode_num == 0 then exit einval else do
      n ← dir_entry_exists lpath link_inode_num
      if not (n == 0) then exit eexist else do
        ind_table ← gets (λ s. s.ind_table)
        i_mode ← load16 (ind_table + 128 * src_inode_num)
        if is_dir i_mode then exit eisdir else do
          name ← child lpath
          new_inode_num ←
              (if is_softlink
                then (do
                  new ← find_free inds
                  mk_new_symlink_inode src_inode_num link_inode_num abs_path
                  pure new)
                else pure src_inode_num)
          mk_dir_entry link_inode_num new_inode_num (length name % 256)
              (if is_softlink then 7 else 1) name
