-- ===== src/Ext2/Bitmap.antt =====
-- The bitmaps of A4/util.c: `init_globals` to `check_bit`. What is printed is left out.
pub mod Find
pub mod Many
pub mod Flip
pub mod Toggle
pub mod Use
pub mod Scan
pub mod Boot
use csc_369_operating_system.Common.{
  ℕ, zero, suc, ◌+◌, ◌-◌, ◌*◌, ◌/◌, ◌%◌, ◌^◌, Bool, true, false, ◌&&◌, not, List, [], ◌∷◌,
  if◌then◌else◌, ◌==◌, ltb, leb,
}
use csc_369_operating_system.Ext2.Outcome.{
  Prog, gets, modify, pure, exit, undefined, runs_forever, ◌>>=◌, ◌>>◌, enospc, enoent,
}
use csc_369_operating_system.Ext2.Bits.{test, flip}
use csc_369_operating_system.Ext2.Image.{
  State, Bitmap, Which, inds, blks, the_bmap, set_bmap, load8, load16, load32, store8, store16,
  store32, disk_size, block_size, super_block, group_desc, wrap, minus,
}

-- EXT2_GOOD_OLD_FIRST_INO.
abbrev pub first_ino : ℕ
first_ino = 11

-- The fields that name a free bit.
abbrev pub avail : Which → ℕ → ℕ → ℕ → Prog State (Unit {0})
avail which byte bit num = modify λ s.
    set_bmap which
      (record (the_bmap which s) {
        avail_byte_index = byte;
        avail_bit_index = bit;
        curr_avail_num = num;
      })
      s

-- The two inner loops of `read_bitmaps`, which share the stop condition, as one over the bits that
-- are left. `found` is `found_bits + 1`.
unfoldable pub scan_bits : Which → ℕ → ℕ → ℕ → ℕ → ℕ → ℕ → Prog State ℕ
unfolding load8
scan_bits which curr_bm zero byte bit index found = pure found
scan_bits which curr_bm (suc left) byte bit index found =
    let next_byte = if bit + 1 == 8 then byte + 1 else byte in
    let next_bit = if bit + 1 == 8 then 0 else bit + 1 in
    if ltb curr_bm found then pure found else do
      bm ← gets (the_bmap which)
      b ← load8 (bm.sys_bm + byte)
      if not (test bit b) && leb first_ino index
          then (do
            avail which byte bit index
            scan_bits which curr_bm left next_byte next_bit (index + 1) (found + 1))
          else scan_bits which curr_bm left next_byte next_bit (index + 1) found

-- The bits in the bytes that the outer loop goes through, whose bound is an `int`.
abbrev pub scanned : ℕ → ℕ
scanned count = if ltb count (2 ^ 31) then 8 * (count / 8) else 0

unfoldable pub read_bitmaps : Prog State (Unit {0})
read_bitmaps = do
  inds_count ← gets (λ s. s.inds_count)
  blks_count ← gets (λ s. s.blks_count)
  f ← scan_bits inds 0 (scanned inds_count) 0 0 1 0
  g ← scan_bits blks 1 (scanned blks_count) 0 0 1 f
  if g == 1 then exit enospc else pure tt

unfoldable pub init_globals : Prog State (Unit {0})
unfolding store16 store32 load16 load32
init_globals = do
  store16 (group_desc + 18) 0
  store32 (group_desc + 20) 0
  store32 (group_desc + 24) 0
  store32 (group_desc + 28) 0
  inds_count ← load32 super_block
  blks_count ← load32 (super_block + 4)
  ind_table ← load32 (group_desc + 8)
  ind_bm ← load32 (group_desc + 4)
  blk_bm ← load32 group_desc
  free_inds ← load16 (group_desc + 14)
  free_blks ← load16 (group_desc + 12)
  modify (λ s. record s {
    inds_count = inds_count;
    blks_count = blks_count;
    ind_table = wrap (block_size * ind_table);
    ind_bmap = record s.ind_bmap {
      sys_bm = wrap (ind_bm * block_size);
      num_bits_avail = free_inds;
    };
    blk_bmap = record s.blk_bmap {
      sys_bm = wrap (blk_bm * block_size);
      num_bits_avail = free_blks;
    };
  })
  read_bitmaps

-- `find_free_inode` and `find_free_block`.
unfoldable pub find_free_num : Which → Prog State ℕ
find_free_num which = do
  bm ← gets (the_bmap which)
  if ltb bm.num_bits_avail 1 then exit enospc else pure bm.curr_avail_num

-- BYTE_INDEX and BIT_INDEX.
abbrev pub byte_index : ℕ → ℕ
byte_index num = minus num 1 / 8

abbrev pub bit_index : ℕ → ℕ
bit_index num = minus num 1 % 8

-- The loop of `find_n_free`: the numbers, in order. The fuel bounds the bits that are looked at.
unfoldable pub find_n_loop : ℕ → ℕ → ℕ → ℕ → ℕ → ℕ → Prog State (List ℕ)
unfolding load8
find_n_loop fuel sys_bm zero byte bit num = pure []
find_n_loop zero sys_bm (suc n) byte bit num = runs_forever
find_n_loop (suc fuel) sys_bm (suc n) byte bit num = do
  b ← load8 (sys_bm + byte)
  let next_bit = (bit + 1) % 8
  let next_byte = if next_bit == 0 then byte + 1 else byte
  if not (test bit b)
      then (do
        rest ← find_n_loop fuel sys_bm n next_byte next_bit (wrap (num + 1))
        pure (num ∷ rest))
      else find_n_loop fuel sys_bm (suc n) next_byte next_bit (wrap (num + 1))

-- No search can look at more bits than the image has before it leaves it.
abbrev pub search_fuel : ℕ
search_fuel = 8 * disk_size + 1

unfoldable pub find_n_free : Which → ℕ → Prog State (List ℕ)
find_n_free which req_n_bits = do
  bm ← gets (the_bmap which)
  if ltb bm.num_bits_avail req_n_bits
      then exit enospc
      else find_n_loop search_fuel bm.sys_bm req_n_bits (byte_index first_ino) (bit_index first_ino)
          bm.curr_avail_num

-- The loop of `find_free`.
unfoldable pub find_loop : ℕ → ℕ → ℕ → ℕ → ℕ → Prog State ℕ
unfolding load8
find_loop zero sys_bm byte bit num = runs_forever
find_loop (suc fuel) sys_bm byte bit num = do
  b ← load8 (sys_bm + byte)
  let next_bit = (bit + 1) % 8
  let next_byte = if next_bit == 0 then byte + 1 else byte
  if not (test bit b) then pure num else find_loop fuel sys_bm next_byte next_bit (num + 1)

unfoldable pub find_free : Which → Prog State ℕ
find_free which = do
  bm ← gets (the_bmap which)
  if ltb bm.num_bits_avail 1
      then exit enospc
      else find_loop search_fuel bm.sys_bm (byte_index first_ino) (bit_index first_ino) first_ino

-- The end of `set_used_bit` and `set_n_toggle_bit`: the fields for what is left.
unfoldable pub refresh : Which → Prog State (Unit {0})
refresh which = do
  bm ← gets (the_bmap which)
  if ltb 0 bm.num_bits_avail
      then (do num ← find_free which; avail which (byte_index num) (bit_index num) num)
      else avail which (2 ^ 32 - 1) (2 ^ 32 - 1) (2 ^ 32 - 1)

abbrev pub set_num_bits_avail : Which → ℕ → Prog State (Unit {0})
set_num_bits_avail which n =
    modify λ s. set_bmap which (record (the_bmap which s) { num_bits_avail = n }) s

unfoldable pub set_used_bit : Which → Prog State (Unit {0})
unfolding load8 store8
set_used_bit which = do
  bm ← gets (the_bmap which)
  b ← load8 (bm.sys_bm + bm.avail_byte_index)
  if test bm.avail_bit_index b then exit enoent else (do
    store8 (bm.sys_bm + bm.avail_byte_index) (flip bm.avail_bit_index b)
    set_num_bits_avail which (minus bm.num_bits_avail 1)
    refresh which)

-- One round of the loop of `set_n_toggle_bit`.
unfoldable pub toggle_bit : Which → ℕ → Prog State (Unit {0})
unfolding load8 store8
toggle_bit which num = do
  bm ← gets (the_bmap which)
  b ← load8 (bm.sys_bm + byte_index num)
  store8 (bm.sys_bm + byte_index num) (flip (bit_index num) b)

-- The loop: the last number. The array must be long enough.
unfoldable pub toggle_bits : Which → List ℕ → ℕ → ℕ → Prog State ℕ
toggle_bits which num_arr zero last = pure last
toggle_bits which [] (suc n) last = undefined
toggle_bits which (num ∷ num_arr) (suc n) last = do
  toggle_bit which num
  toggle_bits which num_arr n num

unfoldable pub set_n_toggle_bit : Which → List ℕ → ℕ → ℕ → Prog State (Unit {0})
set_n_toggle_bit which num_arr set_flag bits_to_set = if bits_to_set == 0 then undefined else do
  last ← toggle_bits which num_arr bits_to_set 0
  if leb 1 (byte_index last) && leb (byte_index last) 15
      then (do
        bm ← gets (the_bmap which)
        set_num_bits_avail which (
            if set_flag == 1
            then minus bm.num_bits_avail bits_to_set
            else wrap (bm.num_bits_avail + bits_to_set))
        refresh which)
      else undefined

-- Whether `check_bit` gives a number that is not 0.
unfoldable pub check_bit : Which → ℕ → Prog State Bool
unfolding load8
check_bit which index = do
  bm ← gets (the_bmap which)
  b ← load8 (bm.sys_bm + index / 8)
  pure (test (index % 8) b)
