-- ===== src/Ext2/Bitmap/Use.antt =====
-- `set_used_bit` of A4/util.c takes the free bit that the fields name, and names the next one.
use csc_369_operating_system.Common.{
  ℕ, ◌+◌, ◌-◌, ◌/◌, ◌%◌, ◌^◌, ◌<◌, ◌≤◌, true, false, if◌then◌else◌, ◌==◌, ltb, update, ◌≡◌, ◌≢◌,
  refl, sym, ap, ◌∙◌, arith, subst, lt→ltb,
}
use csc_369_operating_system.Ext2.Outcome.{done}
use csc_369_operating_system.Ext2.Bits.{test, flip}
use csc_369_operating_system.Ext2.Image.{
  State, Bitmap, Which, inds, blks, the_bmap, set_bmap, load8, store8, disk_size, minus,
}
use csc_369_operating_system.Ext2.Bitmap.{set_used_bit, refresh, byte_index, bit_index}
use csc_369_operating_system.Ext2.Bitmap.Find.{bit_at, First, find_free-First}
use csc_369_operating_system.Ext2.Bitmap.Flip.{flipped, bit_at-flipped}
use csc_369_operating_system.Ext2.Bitmap.Toggle.{the_bmap-disk}

the_bmap-set : (which : Which) (b : Bitmap) (s : State) → the_bmap which (set_bmap which b s) ≡ b
the_bmap-set inds b s = refl
the_bmap-set blks b s = refl

disk-set : (which : Which) (b : Bitmap) (s : State) → (set_bmap which b s).disk ≡ s.disk
disk-set inds b s = refl
disk-set blks b s = refl

-- The fields name the bit for the number `t + 1`.
pub record Names (bm : Bitmap) (t : ℕ) : Type 0 where
  pub byte : bm.avail_byte_index ≡ t / 8
  pub bit : bm.avail_bit_index ≡ t % 8
  pub num : bm.curr_avail_num ≡ t + 1

abbrev named : Bitmap → ℕ → Bitmap
named bm t = record bm {
  avail_byte_index = byte_index (t + 1);
  avail_bit_index = bit_index (t + 1);
  curr_avail_num = t + 1;
}

named-Names : (bm : Bitmap) (t : ℕ) → t < 2 ^ 31 → Names (named bm t) t
named-Names bm t lt =
    let less : minus (t + 1) 1 ≡ t = omega arith in
    record { byte = rw less refl; bit = rw less refl; num = refl }

refresh-named :
    (which : Which) (s : State) (u : ℕ)
    → 0 < (the_bmap which s).num_bits_avail
    → 10 ≤ u
    → bit_at s.disk (the_bmap which s).sys_bm u ≡ false
    → (the_bmap which s).sys_bm + u / 8 < disk_size
    → (t : ℕ) × (refresh which s ≡ done (tt, set_bmap which (named (the_bmap which s) t) s))
      × First s.disk (the_bmap which s).sys_bm 10 u t
unfolding refresh
refresh-named which s u some_left late clear inside =
    let (t, e, f) = find_free-First which s u some_left late clear inside in
    (t, rw (lt→ltb 0 (the_bmap which s).num_bits_avail some_left, e) refl, f)

-- The state once the bit is set and counted off.
abbrev taken : Which → State → (ℕ → ℕ) → State
taken which s disk =
    let bm = the_bmap which s in
    set_bmap which (record bm { num_bits_avail = minus bm.num_bits_avail 1 })
      (record s { disk = disk })

set_used_bit-taken :
    (which : Which) (s : State) (t : ℕ)
    → Names (the_bmap which s) t
    → bit_at s.disk (the_bmap which s).sys_bm t ≡ false
    → (the_bmap which s).sys_bm + t / 8 < disk_size
    → set_used_bit which s
      ≡ refresh which (taken which s (flipped s.disk (the_bmap which s).sys_bm t))
unfolding set_used_bit load8 store8
set_used_bit-taken which s t names clear inside =
    let bm = the_bmap which s in
    let a = bm.sys_bm + bm.avail_byte_index in
    let new : ℕ → ℕ → ℕ = λ byte bit. flip bit (s.disk (bm.sys_bm + byte)) % 256 in
    let disk : ℕ → ℕ → ℕ → ℕ = λ byte bit. update s.disk (bm.sys_bm + byte) (new byte bit) in
    let near : ltb a disk_size ≡ true = lt→ltb a disk_size (rw names.byte inside) in
    let free : test bm.avail_bit_index (s.disk a) ≡ false = rw (names.byte, names.bit) clear in
    let same = the_bmap-disk which s (disk bm.avail_byte_index bm.avail_bit_index) in
    let moved : disk bm.avail_byte_index bm.avail_bit_index ≡ flipped s.disk bm.sys_bm t =
      rw (names.byte, names.bit) refl in
    let run : set_used_bit which s
        ≡ refresh which (taken which s (disk bm.avail_byte_index bm.avail_bit_index)) =
      rw (near, free, near, same) refl in
    run ∙ ap (λ d. refresh which (taken which s d)) moved

-- Where the fields name a clear bit, more than one is left by the counter, and another one from
-- number 11 on is clear, both within the image, `set_used_bit` sets the first bit and no other and
-- counts it off. The fields then name the first bit from 11 on that is clear.
pub set_used_bit-Names :
    (which : Which) (s : State) (t u : ℕ)
    → Names (the_bmap which s) t
    → 1 < (the_bmap which s).num_bits_avail
    → (the_bmap which s).num_bits_avail < 2 ^ 32
    → bit_at s.disk (the_bmap which s).sys_bm t ≡ false
    → (the_bmap which s).sys_bm + t / 8 < disk_size
    → 10 ≤ u
    → u ≢ t
    → bit_at s.disk (the_bmap which s).sys_bm u ≡ false
    → (the_bmap which s).sys_bm + u / 8 < disk_size
    → (s' : State) × (t' : ℕ) × (set_used_bit which s ≡ done (tt, s'))
      × ((k : ℕ)
          → bit_at s'.disk (the_bmap which s).sys_bm k
            ≡ (if t == k then true else bit_at s.disk (the_bmap which s).sys_bm k))
      × ((the_bmap which s').sys_bm ≡ (the_bmap which s).sys_bm)
      × ((the_bmap which s').num_bits_avail ≡ (the_bmap which s).num_bits_avail - 1)
      × Names (the_bmap which s') t'
      × First s'.disk (the_bmap which s).sys_bm 10 u t'
set_used_bit-Names which s t u names several small clear inside late other clear_u inside_u =
    let bm = the_bmap which s in
    let disk = flipped s.disk bm.sys_bm t in
    let s1 : State = record s { disk = disk } in
    let left : Bitmap = record bm { num_bits_avail = minus bm.num_bits_avail 1 } in
    let s2 = set_bmap which left s1 in
    let same = the_bmap-disk which s disk in
    let off = the_bmap-set which left s1 in
    let same_disk = disk-set which left s1 in
    let count : minus bm.num_bits_avail 1 ≡ bm.num_bits_avail - 1 = omega arith in
    let some_left : 0 < (the_bmap which s2).num_bits_avail = rw off (omega (arith, count)) in
    let clear' : bit_at s2.disk (the_bmap which s2).sys_bm u ≡ false =
      rw (same_disk, off) (ground (arith, bit_at-flipped s.disk bm.sys_bm t u, other, clear_u)) in
    let inside' : (the_bmap which s2).sys_bm + u / 8 < disk_size = rw off inside_u in
    let (t', e, f) = refresh-named which s2 u some_left late clear' inside' in
    let s3 = set_bmap which (named (the_bmap which s2) t') s2 in
    let off3 = the_bmap-set which (named (the_bmap which s2) t') s2 in
    let same_disk3 = disk-set which (named (the_bmap which s2) t') s2 in
    (
      s3,
      t',
      set_used_bit-taken which s t names clear inside ∙ e,
      λ k. rw (same_disk3, same_disk) (ground (arith, bit_at-flipped s.disk bm.sys_bm t k, clear)),
      ap (λ b. b.sys_bm) off3 ∙ ap (λ b. b.sys_bm) off,
      ap (λ b. b.num_bits_avail) off3 ∙ ap (λ b. b.num_bits_avail) off ∙ count,
      subst (λ b. Names b t') (sym off3)
          (named-Names (the_bmap which s2) t' (omega (arith, f.upper, inside_u))),
      subst (λ d. First d bm.sys_bm 10 u t') (sym same_disk3)
          (subst (λ b. First s2.disk b 10 u t') (ap (λ b. b.sys_bm) off) f),
    )
