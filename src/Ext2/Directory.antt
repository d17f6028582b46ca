-- ===== src/Ext2/Directory.antt =====
-- Directories in A4/util.c: `get_inode_type` to `mk_dir_entry`. A `char *` argument is the list of
-- the bytes before its NUL, and an array of them is a list, in which `none` is NULL.
pub mod Lookup
use csc_369_operating_system.Common.{
  ℕ, zero, suc, ◌+◌, ◌-◌, ◌*◌, ◌/◌, ◌%◌, ◌^◌, Bool, true, false, ◌&&◌, ◌||◌, not, List, [], ◌∷◌,
  Option, none, some, if◌then◌else◌, ◌==◌, ltb, leb, length,
}
use csc_369_operating_system.Ext2.Outcome.{
  Prog, gets, pure, exit, undefined, runs_forever, ◌>>=◌, ◌>>◌, einval,
}
use csc_369_operating_system.Ext2.Image.{
  State, Inode, Which, blks, load8, load16, load32, store8, store16, store32, copy_inode, block_at,
  entry_inode, rec_len, name_len, name_at, block_size, minus,
}
use csc_369_operating_system.Ext2.Bitmap.{find_n_free, find_free_num}

-- EXT2_ROOT_INO and INDIRECT_BLK_INDEX.
abbrev pub root_ino : ℕ
root_ino = 2

abbrev pub indirect_blk_index : ℕ
indirect_blk_index = 11

-- IS_DIR on an `i_mode`.
abbrev pub is_dir : ℕ → Bool
is_dir mode = mode == 2 || mode / 4096 == 4

-- The types that `get_inode_type` and `get_directory_entry_type` tell apart.
pub data FileType : Type 0 where
  link file directory unknown : FileType

unfoldable pub get_inode_type : ℕ → Prog State FileType
get_inode_type i_mode =
    if i_mode / 4096 == 10
    then pure link
    else if i_mode / 4096 == 8
    then pure file
    else if i_mode / 4096 == 4
    then pure directory
    else exit einval

unfoldable pub get_directory_entry_type : ℕ → Prog State FileType
get_directory_entry_type file_type =
    if file_type == 0
    then pure unknown
    else if file_type == 1
    then pure file
    else if file_type == 2
    then pure directory
    else if file_type == 7
    then pure link
    else exit einval

-- Whether `strncmp` of a string and the bytes at an offset gives 0.
unfoldable pub names_match : List ℕ → ℕ → ℕ → Prog State Bool
unfolding load8
names_match name a zero = pure true
names_match [] a (suc n) = do c ← load8 a; pure (c == 0)
names_match (x ∷ name) a (suc n) = do
  c ← load8 a
  if x == c then names_match name (a + 1) n else pure false

-- The loop of `check_block_for_dir`. An entry of length 0 is looked at for ever; with any other
-- length at most `block_size` entries are looked at.
unfoldable pub check_entries : ℕ → ℕ → ℕ → List ℕ → Prog State ℕ
unfolding load8 load16 load32
check_entries fuel zero a dir_name = pure 0
check_entries zero (suc mem) a dir_name = runs_forever
check_entries (suc fuel) (suc mem) a dir_name = do
  n ← name_len a
  found ← names_match dir_name (name_at a) n
  if found
      then entry_inode a
      else (do l ← rec_len a; check_entries fuel (suc mem - l) (a + l) dir_name)

unfoldable pub check_block_for_dir : ℕ → List ℕ → Prog State ℕ
check_block_for_dir block_num dir_name =
    check_entries (block_size + 1) block_size (block_num * block_size) dir_name

-- The loop over the table of an indirect block. It ends behind a match that a 0 follows, or leaves
-- the image, which has fewer entries than the fuel.
unfoldable pub check_indirect : ℕ → ℕ → List ℕ → ℕ → Prog State ℕ
unfolding load32
check_indirect zero table dir_name found = runs_forever
check_indirect (suc fuel) table dir_name found = do
  block_num ← load32 table
  if block_num == 0 && not (found == 0) then pure found else (do
    found' ← check_block_for_dir block_num dir_name
    check_indirect fuel (table + 4) dir_name found')

-- The loop over `i_block`, for the entries that are left.
unfoldable pub check_i_blocks : ℕ → ℕ → Inode → List ℕ → Prog State ℕ
check_i_blocks zero k inode dir_name = pure 0
check_i_blocks (suc left) k inode dir_name =
    let value = inode.i_block k in
    if value == 0 then pure 0 else do
      found ←
          (if k == indirect_blk_index
            then check_indirect 32769 (value * block_size) dir_name 0
            else check_block_for_dir value dir_name)
      if found == 0 then check_i_blocks left (k + 1) inode dir_name else pure found

-- `dir_entry_exists`: `path_len` is the size of a pointer in pointers, which is 1.
unfoldable pub dir_entry_exists : List (Option (List ℕ)) → ℕ → Prog State ℕ
unfolding copy_inode
dir_entry_exists [] starting_inode = undefined
dir_entry_exists (none ∷ path) starting_inode = pure root_ino
dir_entry_exists (some path_section ∷ path) starting_inode = do
  let current_inode_num = if starting_inode == 0 then root_ino else starting_inode
  inode ← copy_inode (minus current_inode_num 1)
  check_i_blocks 12 0 inode path_section

-- TRUE_FILE_SIZE.
abbrev pub true_file_size : ℕ → ℕ
true_file_size len = if leb len 12 then 12 else if len % 4 == 0 then len else len + (4 - len % 4)

-- The first loop of `mk_dir_entry`, from index `k` down: the last entry of `i_block` in use.
unfoldable pub last_i_block : ℕ → Inode → Option (ℕ × ℕ)
last_i_block zero inode = if inode.i_block 0 == 0 then none else some (0, inode.i_block 0)
last_i_block (suc k) inode =
    let earlier = last_i_block k inode in
    if inode.i_block (suc k) == 0 then earlier else some (suc k, inode.i_block (suc k))

-- The second loop: the last entry of the block.
unfoldable pub last_entry : ℕ → ℕ → ℕ → Prog State ℕ
unfolding load16
last_entry fuel zero a = pure a
last_entry zero (suc rem) a = runs_forever
last_entry (suc fuel) (suc rem) a = do
  l ← rec_len a
  l' ← rec_len (a + l)
  last_entry fuel (suc rem - l') (a + l)

-- `memcpy` of the name.
unfoldable pub store_name : ℕ → List ℕ → Prog State (Unit {0})
unfolding store8
store_name a [] = pure tt
store_name a (c ∷ name) = do store8 a c; store_name (a + 1) name

-- The assignments to an entry.
unfoldable pub store_entry : ℕ → ℕ → ℕ → ℕ → ℕ → List ℕ → Prog State (Unit {0})
unfolding store8 store16 store32
store_entry a inode rec_len name_len file_type name = do
  store16 (a + 4) rec_len
  store32 a inode
  store8 (a + 6) name_len
  store8 (a + 7) file_type
  store_name (name_at a) name

-- The first of two new blocks becomes the indirect block, the other one its first entry.
abbrev pub link_indirect : List ℕ → Prog State ℕ
link_indirect (b0 ∷ b1 ∷ r) = store32 (b0 * block_size) b1 >> pure b1
link_indirect r = undefined

-- The block behind the last one. The new block number is put into a copy of the inode only.
unfoldable pub next_block : ℕ → Prog State ℕ
unfolding store32
next_block i_block_index =
    if i_block_index == indirect_blk_index
    then find_n_free blks 2 >>= link_indirect
    else if ltb i_block_index 15
    then find_free_num blks
    else undefined

-- `mk_dir_entry` from the last block on, whose index is one less than the given one. `namelen` is
-- the length of `name` in all calls.
unfoldable pub append_entry : ℕ → ℕ → ℕ → ℕ → ℕ → List ℕ → Prog State (Unit {0})
unfolding load8 load16 store16
append_entry mem_blk i_block_index inode name_len' file_type name = do
  l ← rec_len (mem_blk * block_size)
  a ← last_entry (block_size + 1) (block_size - l) (mem_blk * block_size)
  len ← name_len a
  last ← rec_len a
  let last_dir_ent_sz = true_file_size len
  if ltb last (last_dir_ent_sz + true_file_size name_len')
      then (do
        blk ← next_block i_block_index
        store_entry (blk * block_size) inode block_size name_len' file_type name)
      else (do
        store16 (a + 4) last_dir_ent_sz
        store_entry (a + last_dir_ent_sz) inode (last - last_dir_ent_sz) name_len' file_type name)

-- `mk_dir_entry`. Where the indirect block is the last one in use, a pointer is counted up for ever.
unfoldable pub mk_dir_entry : ℕ → ℕ → ℕ → ℕ → List ℕ → Prog State (Unit {0})
unfolding copy_inode
mk_dir_entry dir_inode inode name_len file_type name = do
  parent_inode ← copy_inode (dir_inode - 1)
  elim (last_i_block 12 parent_inode) [
    | none ↦ append_entry 0 0 inode name_len file_type name
    | some (k, value) ↦
        if k == indirect_blk_index
        then runs_forever
        else append_entry value (k + 1) inode name_len file_type name
  ]
