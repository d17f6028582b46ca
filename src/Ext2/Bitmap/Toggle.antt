-- ===== src/Ext2/Bitmap/Toggle.antt =====
-- The loop of `set_n_toggle_bit` of A4/util.c, `check_bit` and `set_used_bit` on the bits.
use csc_369_operating_system.Common.{
  ℕ, ◌+◌, ◌-◌, ◌/◌, ◌^◌, ◌<◌, Bool, false, not, List, [], ◌∷◌, length, if◌then◌else◌, ◌==◌, ◌≡◌,
  refl, ap, arith, lt→ltb,
}
use csc_369_operating_system.Ext2.Outcome.{done}
use csc_369_operating_system.Ext2.Image.{State, Which, inds, blks, the_bmap, load8, disk_size}
use csc_369_operating_system.Ext2.Bitmap.{toggle_bit, toggle_bits, check_bit}
use csc_369_operating_system.Ext2.Bitmap.Find.{bit_at}
use csc_369_operating_system.Ext2.Bitmap.Flip.{flipped, bit_at-flipped, toggle_bit-flipped}

-- The bitmap of a state does not hang on the image.
pub the_bmap-disk :
    (which : Which) (s : State) (disk : ℕ → ℕ)
    → the_bmap which (record s { disk = disk }) ≡ the_bmap which s
the_bmap-disk inds s disk = refl
the_bmap-disk blks s disk = refl

-- The numbers have their bits within the image.
unfoldable pub AreWithin : ℕ → List ℕ → Type 0
AreWithin sys_bm [] = Unit
AreWithin sys_bm (num ∷ nums) =
    (0 < num) × (num < 2 ^ 32) × (sys_bm + (num - 1) / 8 < disk_size) × AreWithin sys_bm nums

-- Whether the number `k + 1` stands in the list an odd number of times.
unfoldable pub odd : ℕ → List ℕ → Bool
odd k [] = false
odd k (num ∷ nums) = let rest = odd k nums in if num - 1 == k then not rest else rest

-- The loop of `set_n_toggle_bit` over all of an array, whose numbers have their bits within the
-- image, flips the bits of the numbers that stand in it an odd number of times.
pub toggle_bits-odd :
    (which : Which) (nums : List ℕ) (last : ℕ) (s : State)
    → AreWithin (the_bmap which s).sys_bm nums
    → (last' : ℕ) × (disk : ℕ → ℕ) × (toggle_bits which nums (length nums) last s
        ≡ done (last', record s { disk = disk }))
      × ((k : ℕ)
          → bit_at disk (the_bmap which s).sys_bm k ≡ (
              if odd k nums
              then not (bit_at s.disk (the_bmap which s).sys_bm k)
              else bit_at s.disk (the_bmap which s).sys_bm k))
unfolding toggle_bits odd AreWithin
toggle_bits-odd which [] last s within = (last, s.disk, refl, λ k. refl)
toggle_bits-odd which (num ∷ nums) last s within =
    let base = (the_bmap which s).sys_bm in
    let first = toggle_bit-flipped which num s within.0 within.1 within.2 in
    let disk1 = flipped s.disk base (num - 1) in
    let same = the_bmap-disk which s disk1 in
    let (last', disk, e, bits) =
      toggle_bits-odd which nums num (record s { disk = disk1 }) (rw same within.3) in
    (
      last',
      disk,
      rw first e,
      λ k.
          let bits' : bit_at disk base k
              ≡ (if odd k nums then not (bit_at disk1 base k) else bit_at disk1 base k) =
            rw same at (bits k) in
          ground (arith, bits', bit_at-flipped s.disk base (num - 1) k),
    )

-- For a number from 1 on, with the next bit within the image: a round of `set_n_toggle_bit` flips
-- the number's bit, and `check_bit` gives the next one, before and after.
pub check_bit-toggled :
    (which : Which) (num : ℕ) (s : State)
    → 0 < num
    → num < 2 ^ 32
    → (the_bmap which s).sys_bm + num / 8 < disk_size
    → (s' : State) × (toggle_bit which num s ≡ done (tt, s'))
      × (bit_at s'.disk (the_bmap which s).sys_bm (num - 1)
          ≡ not (bit_at s.disk (the_bmap which s).sys_bm (num - 1)))
      × (check_bit which num s ≡ done (bit_at s.disk (the_bmap which s).sys_bm num, s))
      × (check_bit which num s' ≡ done (bit_at s.disk (the_bmap which s).sys_bm num, s'))
unfolding check_bit load8
check_bit-toggled which num s positive small inside =
    let base = (the_bmap which s).sys_bm in
    let disk = flipped s.disk base (num - 1) in
    let near = lt→ltb (base + num / 8) disk_size inside in
    let same = the_bmap-disk which s disk in
    let bit = bit_at-flipped s.disk base (num - 1) num in
    (
      record s { disk = disk },
      toggle_bit-flipped which num s positive small (omega (arith, inside)),
      ground (arith, bit_at-flipped s.disk base (num - 1) (num - 1)),
      rw near refl,
      rw (same, near) (ap (λ b. done (b, record s { disk = disk })) (ground (arith, bit))),
    )
