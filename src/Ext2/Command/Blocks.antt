-- ===== src/Ext2/Command/Blocks.antt =====
-- The loops of `rm_inode` in A4/ext2_rm.c and `restore_inode` in A4/ext2_restore.c that list the
-- blocks of an inode.
use csc_369_operating_system.Common.{ℕ, zero, suc, ◌+◌, ◌*◌, List, [], ◌∷◌, if◌then◌else◌, ◌==◌}
use csc_369_operating_system.Ext2.Outcome.{Prog, pure, runs_forever, ◌>>=◌}
use csc_369_operating_system.Ext2.Image.{State, Inode, load32, block_at, block_size, wrap}
use csc_369_operating_system.Ext2.Directory.{indirect_blk_index}

-- One step to the next block number, from the indices into `i_block` and the indirect block: the
-- number and the new indices.
unfoldable pub next_block_num : Inode → ℕ → ℕ → Prog State (ℕ × ℕ × ℕ)
unfolding load32 block_at
next_block_num inode k indirect =
    if k == indirect_blk_index
    then (do
      b ← load32 (wrap (inode.i_block indirect_blk_index * block_size) + 4 * indirect)
      pure (b, k, indirect + 1))
    else do b ← block_at inode (k + 1); pure (b, k + 1, indirect)

-- The numbers that the loop stores, which starts at `block_num`. It leaves the image before the
-- fuel ends.
unfoldable pub list_blocks : ℕ → Inode → ℕ → ℕ → ℕ → Prog State (List ℕ)
unfolding next_block_num
list_blocks zero inode k indirect block_num = runs_forever
list_blocks (suc fuel) inode k indirect block_num = if block_num == 0 then pure [] else do
  (b, k', indirect') ← next_block_num inode k indirect
  rest ← list_blocks fuel inode k' indirect' b
  pure (b ∷ rest)

abbrev pub walk_fuel : ℕ
walk_fuel = 32800
