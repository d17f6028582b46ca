-- ===== src/Ext2/Command/Exists.antt =====
-- The test of A4/ext2_mkdir.c whether the new directory exists, against the one of A4/ext2_ln.c.
use csc_369_operating_system.Common.{
  ℕ, ◌+◌, ◌-◌, ◌*◌, ◌%◌, inl, inr, Bool-cases, eq-false, ◌^◌, ◌<◌, false, List, ◌∷◌, Option, some,
  if◌then◌else◌, ◌==◌, ltb, ◌≡◌, ◌≢◌, refl, arith, length,
}
use csc_369_operating_system.Ext2.Outcome.{exits, eexist, enospc, ◌>>◌}
use csc_369_operating_system.Ext2.Image.{State}
use csc_369_operating_system.Ext2.Bitmap.{find_free_num}
use csc_369_operating_system.Ext2.Directory.{root_ino, mk_dir_entry}
use csc_369_operating_system.Ext2.Directory.Lookup.{
  Entry, lookup_blocks, IsDirectory, dir_entry_exists-lookup,
}
use csc_369_operating_system.Ext2.Command.Create.{ext2_mkdir, mk_new_dir_inode}

-- `ext2_mkdir` with a parent whose first component the search finds in the root directory, with a
-- number below 2 ^ 32, where entries fill the blocks of both directories, none of them indirect. A
-- name that is not found in the parent is refused as one that exists. For a name that is found, the
-- command goes on with `mk_new_dir_inode` and `mk_dir_entry`, whatever these do, unless the counter
-- of free inodes is 0.
ext2_mkdir-inverted :
    (section name : List ℕ) (p dpath : List (Option (List ℕ))) (top es : List (List Entry))
    (s : State)
    → IsDirectory s.disk (s.ind_table + 128) top
    → lookup_blocks top section ≢ 0
    → lookup_blocks top section < 2 ^ 32
    → IsDirectory s.disk (s.ind_table + 128 * (lookup_blocks top section - 1)) es
    → ext2_mkdir (some section ∷ p) (some name ∷ dpath) s ≡ (
        if lookup_blocks es name == 0
        then exits eexist
        else if ltb s.ind_bmap.num_bits_avail 1
        then exits enospc
        else (do
          mk_new_dir_inode s.ind_bmap.curr_avail_num (lookup_blocks top section)
          mk_dir_entry
              (lookup_blocks top section)
              s.ind_bmap.curr_avail_num
              (length name % 256)
              2
              name)
            s)
unfolding ext2_mkdir find_free_num
ext2_mkdir-inverted section name p dpath top es s root there small parent =
    let num = lookup_blocks top section in
    let some_parent : (num == 0) ≡ false = eq-false num 0 there in
    let up = dir_entry_exists-lookup section p root_ino top s (omega arith) root in
    let parent' : IsDirectory s.disk
        (s.ind_table + 128 * ((if num == 0 then root_ino else num) - 1)) es =
      rw some_parent parent in
    let found = dir_entry_exists-lookup name dpath num es s small parent' in
    elim (Bool-cases (lookup_blocks es name == 0)) [
      | inl missing ↦ rw (up, some_parent, found, missing) refl
      | inr has ↦ elim (Bool-cases (ltb s.ind_bmap.num_bits_avail 1)) [
        | inl full ↦ rw (up, some_parent, found, has, full) refl
        | inr left ↦ rw (up, some_parent, found, has, left) refl
      ]
    ]
