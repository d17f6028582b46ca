-- ===== src/Ext2/Command/Remove.antt =====
-- A4/ext2_rm.c.
use csc_369_operating_system.Common.{
  ℕ, zero, suc, ◌+◌, ◌-◌, ◌*◌, Bool, true, false, ◌&&◌, not, List, [], ◌∷◌, Option, none, some,
  if◌then◌else◌, ◌==◌, length,
}
use csc_369_operating_system.Ext2.Outcome.{
  Prog, pure, exit, undefined, runs_forever, ◌>>=◌, ◌>>◌, einval, eisdir,
}
use csc_369_operating_system.Ext2.Image.{
  State, Inode, inds, blks, load8, load16, load32, store16, copy_inode, block_at, entry_inode,
  rec_len, name_len, name_at, block_size, wrap,
}
use csc_369_operating_system.Ext2.Bitmap.{set_n_toggle_bit}
use csc_369_operating_system.Ext2.Directory.{names_match, dir_entry_exists, is_dir}
use csc_369_operating_system.Ext2.Command.Blocks.{list_blocks, walk_fuel}

-- `rm_inode`. The first of its loops only counts what the second one stores. The time of deletion
-- is put into a copy of the inode.
unfoldable pub rm_inode : ℕ → Prog State (Unit {0})
unfolding copy_inode
rm_inode inode_num = do
  inode ← copy_inode inode_num
  blocks ← list_blocks walk_fuel inode 0 0 (inode.i_block 0)
  set_n_toggle_bit blks blocks 0 (length blocks)
  set_n_toggle_bit inds (inode_num ∷ []) 0 1

-- `curr_dir_ent`, `prev_dir_ent` if it is set, and `found`.
pub record Cursor : Type 0 where
  pub curr : ℕ
  pub prev : Option ℕ
  pub found : Bool

-- The inner loop of `rm_dir_entry`. What is taken off `mem_to_check` is the length of the next
-- entry.
unfoldable pub seek_entry : ℕ → ℕ → Cursor → List ℕ → Prog State Cursor
unfolding load8 load16
seek_entry fuel zero c name = pure c
seek_entry zero (suc mem) c name = runs_forever
seek_entry (suc fuel) (suc mem) c name = do
  n ← name_len c.curr
  match ← names_match name (name_at c.curr) n
  if match then pure (record c { found = true }) else (do
    l ← rec_len c.curr
    l' ← rec_len (c.curr + l)
    seek_entry fuel (suc mem - l') (record c { curr = c.curr + l; prev = some c.curr }) name)

-- The outer loop, over `i_block` from an index on. It goes on while there is a block or nothing is
-- found.
unfoldable pub seek_blocks : ℕ → ℕ → Inode → ℕ → Cursor → List ℕ → Prog State Cursor
unfolding block_at
seek_blocks zero k inode block_num c name = undefined
seek_blocks (suc left) k inode block_num c name = if block_num == 0 && c.found then pure c else do
  c' ←
      seek_entry (block_size + 2) block_size (record c { curr = wrap (block_num * block_size) })
        name
  b ← block_at inode (k + 1)
  seek_blocks left (k + 1) inode b c' name

-- The end of `rm_dir_entry`. Without a previous entry an unset pointer is followed.
unfoldable pub unlink_entry : Cursor → Prog State ℕ
unfolding load16 load32 store16 copy_inode
unlink_entry c = elim c.prev [
  | none ↦ undefined
  | some prev ↦ (do
    l ← rec_len prev
    l' ← rec_len c.curr
    store16 (prev + 4) (l + l')
    i ← entry_inode c.curr
    inode ← copy_inode i
    if inode.i_links_count == 1 then entry_inode c.curr else pure 0)
]

unfoldable pub rm_dir_entry : ℕ → List ℕ → Prog State ℕ
unfolding copy_inode
rm_dir_entry parent_inode_num name = do
  inode ← copy_inode parent_inode_num
  c ←
      seek_blocks 16 0 inode (inode.i_block 0) (record { curr = 0; prev = none; found = false })
        name
  unlink_entry c

-- `fpath[0]` of the array that `create_path` makes.
abbrev pub child : List (Option (List ℕ)) → Prog State (List ℕ)
child (some name ∷ r) = pure name
child r = undefined

unfoldable pub ext2_rm : List (Option (List ℕ)) → List (Option (List ℕ)) → Prog State (Unit {0})
unfolding copy_inode
ext2_rm p fpath = do
  parent_inode_num ← dir_entry_exists p 0
  if parent_inode_num == 0 then exit einval else do
    file_inode_num ← dir_entry_exists fpath parent_inode_num
    if file_inode_num == 0 then exit einval else do
      file_inode ← copy_inode file_inode_num
      parent_inode ← copy_inode parent_inode_num
      if is_dir file_inode.i_mode then exit eisdir else do
        if not (is_dir parent_inode.i_mode) then exit eisdir else do
          name ← child fpath
          n ← rm_dir_entry parent_inode_num name
          if n == 0 then pure tt else rm_inode n
