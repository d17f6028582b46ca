-- ===== src/Ext2/Bitmap/Many.antt =====
-- What `find_n_free` of A4/util.c finds.
use csc_369_operating_system.Common.{
  ℕ, zero, suc, ◌+◌, ◌-◌, ◌/◌, ◌%◌, ◌^◌, ◌<◌, ◌≤◌, true, false, if◌then◌else◌, ltb, ◌≡◌, refl, ap,
  arith, inl, inr, Bool-cases, lt→ltb, List, [], ◌∷◌, length,
}
use csc_369_operating_system.Ext2.Outcome.{done}
use csc_369_operating_system.Ext2.Image.{State, Which, the_bmap, load8, disk_size, wrap}
use csc_369_operating_system.Ext2.Bitmap.{find_n_loop, find_n_free, search_fuel}
use csc_369_operating_system.Ext2.Bitmap.Find.{bit_at, next-bit, next-byte}

-- The clear ones of some bits from the bit `k` on, in order.
unfoldable pub clear_bits : (ℕ → ℕ) → ℕ → ℕ → ℕ → List ℕ
clear_bits disk sys_bm zero k = []
clear_bits disk sys_bm (suc len) k =
    let rest = clear_bits disk sys_bm len (k + 1) in if bit_at disk sys_bm k then rest else k ∷ rest

-- The numbers that the first bits of a list get when the number for the bit 10 is `c`.
unfoldable pub numbered : ℕ → ℕ → List ℕ → List ℕ
numbered zero c bits = []
numbered (suc n) c [] = []
numbered (suc n) c (k ∷ bits) = (k + c - 10) ∷ numbered n c bits

find_n_loop-numbered :
    (fuel sys_bm len k num n c : ℕ) (s : State)
    → len ≤ fuel
    → n ≤ length (clear_bits s.disk sys_bm len k)
    → sys_bm + (k + len) / 8 < disk_size
    → num + 10 ≡ k + c
    → k + len + c < 2 ^ 32
    → find_n_loop fuel sys_bm n (k / 8) (k % 8) num s
      ≡ done (numbered n c (clear_bits s.disk sys_bm len k), s)
unfolding find_n_loop load8 clear_bits numbered
find_n_loop-numbered fuel sys_bm len k num zero c s le enough inside at short = refl
find_n_loop-numbered fuel sys_bm zero k num (suc n) c s le enough inside at short =
    absurd (omega (arith, enough))
find_n_loop-numbered zero sys_bm (suc len) k num (suc n) c s le enough inside at short =
    absurd (omega (arith, le))
find_n_loop-numbered (suc fuel) sys_bm (suc len) k num (suc n) c s le enough inside at short =
    let near : ltb (sys_bm + k / 8) disk_size ≡ true =
      lt→ltb (sys_bm + k / 8) disk_size (omega (arith, inside)) in
    let fits : wrap (num + 1) ≡ num + 1 = omega (arith, short, at) in
    elim (Bool-cases (bit_at s.disk sys_bm k)) [
      | inl full ↦
          rw (near, full, next-bit k, next-byte k, fits)
            (find_n_loop-numbered fuel sys_bm len (k + 1) (num + 1) (suc n) c s (omega (arith, le))
              (rw full at enough) (omega (arith, inside)) (omega (arith, at))
              (omega (arith, short)))
      | inr here ↦
          let enough' : suc n ≤ suc (length (clear_bits s.disk sys_bm len (k + 1))) =
            rw here at enough in
          let rest =
            find_n_loop-numbered fuel sys_bm len (k + 1) (num + 1) n c s (omega (arith, le))
              (omega (arith, enough')) (omega (arith, inside)) (omega (arith, at))
              (omega (arith, short)) in
          rw (near, here, next-bit k, next-byte k, fits, rest)
            (ap (λ x. done (x ∷ numbered n c (clear_bits s.disk sys_bm len (k + 1)), s))
              (omega (arith, at)))
    ]

-- If the counter allows for `n`, and among the `len` bits from that of the number 11 on there are
-- `n` clear ones, within the image, then `find_n_free` gives the least of these in order and changes
-- nothing, but each by the number that it has if the number 11 is counted as `curr_avail_num`.
pub find_n_free-numbered :
    (which : Which) (s : State) (n len : ℕ)
    → n ≤ (the_bmap which s).num_bits_avail
    → n ≤ length (clear_bits s.disk (the_bmap which s).sys_bm len 10)
    → (the_bmap which s).sys_bm + (10 + len) / 8 < disk_size
    → 10 + len + (the_bmap which s).curr_avail_num < 2 ^ 32
    → find_n_free which n s
      ≡ done (
        numbered n
            (the_bmap which s).curr_avail_num
            (clear_bits s.disk (the_bmap which s).sys_bm len 10),
        s,
      )
unfolding find_n_free
find_n_free-numbered which s n len some_left enough inside short =
    let bm = the_bmap which s in
    let left : ltb bm.num_bits_avail n ≡ false = ground (arith, some_left) in
    rw left (
      find_n_loop-numbered search_fuel bm.sys_bm len 10 bm.curr_avail_num n bm.curr_avail_num s
        (omega (arith, inside)) enough inside (omega arith) (omega (arith, short)))
