-- ===== src/Ext2/Command/Doom.antt =====
-- The block lists of `rm_inode` and `restore_inode` end with the number 0, whose bit lies far past
-- the image.
use csc_369_operating_system.Common.{
  ℕ, zero, suc, ◌+◌, true, false, List, [], ◌∷◌, length, ◌==◌, ltb, ◌≡◌, ◌≢◌, refl, sym, arith, inl,
  inr, Bool-cases, subst,
}
use csc_369_operating_system.Ext2.Outcome.{done, fault, and_then-done}
use csc_369_operating_system.Ext2.Image.{
  State, Inode, Which, blks, the_bmap, load8, copy_inode, disk_size,
}
use csc_369_operating_system.Ext2.Bitmap.{toggle_bit, toggle_bits, set_n_toggle_bit, byte_index}
use csc_369_operating_system.Ext2.Command.Blocks.{list_blocks, next_block_num, walk_fuel}
use csc_369_operating_system.Ext2.Command.Remove.{rm_inode}
use csc_369_operating_system.Ext2.Command.Restore.{restore_inode, blocks_free}

-- A list is empty or ends with 0.
unfoldable EndsWithZero : List ℕ → Type 0
EndsWithZero [] = Unit
EndsWithZero (b ∷ []) = b ≡ 0
EndsWithZero (b ∷ c ∷ r) = EndsWithZero (c ∷ r)

toggle_bit-zero : (which : Which) (s : State) → toggle_bit which 0 s ≡ fault
unfolding toggle_bit load8
toggle_bit-zero which s =
    let far : ltb ((the_bmap which s).sys_bm + byte_index 0) disk_size ≡ false = ground arith in
    rw far refl

list_blocks-more :
    (fuel : ℕ) (inode : Inode) (k indirect b : ℕ) (s : State) (bs : List ℕ) (s' : State)
    → (b == 0) ≡ false
    → list_blocks (suc fuel) inode k indirect b s ≡ done (bs, s')
    → (c k' indirect' : ℕ) × (s1 : State) × (rest : List ℕ) × (s2 : State) × (list_blocks fuel inode
          k' indirect' c s1
        ≡ done (rest, s2))
      × (bs ≡ c ∷ rest)
unfolding list_blocks
list_blocks-more fuel inode k indirect b s bs s' more e =
    let ((c, k', indirect'), s1, e1, e2) =
      and_then-done (next_block_num inode k indirect s) _ (bs, s') (rw more at e) in
    let (rest, s2, e3, e4) =
      and_then-done (list_blocks fuel inode k' indirect' c s1) _ (bs, s') e2 in
    (c, k', indirect', s1, rest, s2, e3, ground (arith, e4))

list_blocks-EndsWithZero :
    (fuel : ℕ) (inode : Inode) (k indirect b : ℕ) (s : State) (bs : List ℕ) (s' : State)
    → list_blocks fuel inode k indirect b s ≡ done (bs, s')
    → EndsWithZero (b ∷ bs)
unfolding list_blocks EndsWithZero
list_blocks-EndsWithZero zero inode k indirect b s bs s' e = absurd (ground (arith, e))
list_blocks-EndsWithZero (suc fuel) inode k indirect b s bs s' e = elim (Bool-cases (b == 0)) [
  | inl ends ↦
      let empty : [] ≡ bs = ground (arith, rw ends at e) in
      subst (λ r. EndsWithZero (b ∷ r)) empty (ground (arith, ends))
  | inr more ↦
      let (c, k', indirect', s1, rest, s2, e', shape) =
        list_blocks-more fuel inode k indirect b s bs s' more e in
      subst (λ r. EndsWithZero (b ∷ r)) (sym shape)
        (list_blocks-EndsWithZero fuel inode k' indirect' c s1 rest s2 e')
]

toggle_bits-doomed :
    (which : Which) (bs : List ℕ) (b last : ℕ) (s : State) (r : ℕ × State)
    → EndsWithZero (b ∷ bs)
    → toggle_bits which (b ∷ bs) (length (b ∷ bs)) last s ≢ done r
unfolding toggle_bits EndsWithZero
toggle_bits-doomed which [] b last s r zero_last e =
    let (u, s1, e1, e2) =
      and_then-done (toggle_bit which b s) (λ _. toggle_bits which [] 0 b) r e in
    ground (arith, rw zero_last at e1, toggle_bit-zero which s)
toggle_bits-doomed which (c ∷ bs) b last s r zero_last e =
    let (u, s1, e1, e2) =
      and_then-done (toggle_bit which b s) (λ _. toggle_bits which (c ∷ bs) (length (c ∷ bs)) b) r
        e in
    toggle_bits-doomed which bs c b s1 r zero_last e2

set_n_toggle_bit-doomed :
    (which : Which) (b : ℕ) (bs : List ℕ) (flag : ℕ) (s : State) (r : Unit × State)
    → EndsWithZero (b ∷ bs)
    → set_n_toggle_bit which bs flag (length bs) s ≢ done r
unfolding set_n_toggle_bit EndsWithZero
set_n_toggle_bit-doomed which b [] flag s r zero_last e = ground (arith, e)
set_n_toggle_bit-doomed which b (c ∷ bs) flag s r zero_last e =
    let n = length bs in
    let more : (suc n == 0) ≡ false = ground arith in
    let (last, s1, e1, e2) =
      and_then-done (toggle_bits which (c ∷ bs) (suc n) 0 s) _ r (rw more at e) in
    toggle_bits-doomed which bs c 0 s (last, s1) zero_last e1

-- `rm_inode` never returns, whatever the image and the inode: the list of blocks that it frees
-- is empty, which is a failed assertion, or ends with the number 0, whose bit lies past the image.
pub rm_inode-doomed : (inode_num : ℕ) (s : State) (r : Unit × State) → rm_inode inode_num s ≢ done r
unfolding rm_inode
rm_inode-doomed inode_num s r e =
    let (inode, s1, e1, f1) = and_then-done (copy_inode inode_num s) _ r e in
    let (bs, s2, e2, f2) =
      and_then-done (list_blocks walk_fuel inode 0 0 (inode.i_block 0) s1) _ r f1 in
    let (u, s3, e3, f3) = and_then-done (set_n_toggle_bit blks bs 0 (length bs) s2) _ r f2 in
    set_n_toggle_bit-doomed blks (inode.i_block 0) bs 0 s2 (u, s3)
      (list_blocks-EndsWithZero walk_fuel inode 0 0 (inode.i_block 0) s1 bs s2 e2) e3

-- For the same reason `restore_inode` never returns 1.
pub restore_inode-doomed :
    (inode_num : ℕ) (s s' : State) → restore_inode inode_num s ≢ done (true, s')
unfolding restore_inode
restore_inode-doomed inode_num s s' e =
    let (inode, s1, e1, f1) = and_then-done (copy_inode inode_num s) _ (true, s') e in
    let (free, s2, e2, f2) =
      and_then-done (blocks_free walk_fuel inode 0 0 (inode.i_block 0) s1) _ (true, s') f1 in
    elim (Bool-cases free) [
      | inr used ↦ ground (arith, rw used at f2)
      | inl all_free ↦
          let (bs, s3, e3, f3) =
            and_then-done (list_blocks walk_fuel inode 0 0 (inode.i_block 0) s2) _ (true, s')
              (rw all_free at f2) in
          let (u, s4, e4, f4) =
            and_then-done (set_n_toggle_bit blks bs 1 (length bs) s3) _ (true, s') f3 in
          set_n_toggle_bit-doomed blks (inode.i_block 0) bs 1 s3 (u, s4)
            (list_blocks-EndsWithZero walk_fuel inode 0 0 (inode.i_block 0) s2 bs s3 e3) e4
    ]
