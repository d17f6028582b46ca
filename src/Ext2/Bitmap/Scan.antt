-- ===== src/Ext2/Bitmap/Scan.antt =====
-- What `read_bitmaps` of A4/util.c finds, and `init_globals` with it.
use csc_369_operating_system.Common.{
  ℕ, zero, suc, ◌+◌, ◌/◌, ◌%◌, ◌<◌, ◌≤◌, true, false, ◌&&◌, not, if◌then◌else◌, ◌==◌, ltb, leb, ◌≡◌,
  ◌≢◌, refl, ap, arith, inl, inr, Bool-cases, subst, lt→ltb, ℕ_discrete,
}
use csc_369_operating_system.Ext2.Outcome.{done}
use csc_369_operating_system.Ext2.Image.{
  State, Which, inds, blks, the_bmap, set_bmap, load8, disk_size,
}
use csc_369_operating_system.Ext2.Bitmap.{first_ino, scan_bits, scanned, read_bitmaps}
use csc_369_operating_system.Ext2.Bitmap.Find.{bit_at, First}

-- The state once the fields name the bit for the number `t + 1`.
abbrev pub naming : Which → ℕ → State → State
naming which t s =
    set_bmap which
      (record (the_bmap which s) {
        avail_byte_index = t / 8;
        avail_bit_index = t % 8;
        curr_avail_num = t + 1;
      })
      s

next-bit : (k : ℕ) → (if k % 8 + 1 == 8 then 0 else k % 8 + 1) ≡ (k + 1) % 8
next-bit k = ground arith

next-byte : (k : ℕ) → (if k % 8 + 1 == 8 then k / 8 + 1 else k / 8) ≡ (k + 1) / 8
next-byte k = ground arith

-- Once a bit is found, the loops stop.
scan_bits-stops :
    (which : Which) (c left byte bit index : ℕ) (s : State)
    → scan_bits which c left byte bit index (c + 1) s ≡ done (c + 1, s)
unfolding scan_bits
scan_bits-stops which c zero byte bit index s = refl
scan_bits-stops which c (suc left) byte bit index s =
    let stop : ltb c (c + 1) ≡ true = ground arith in rw stop refl

scan_bits-First :
    (which : Which) (c left k u : ℕ) (s : State)
    → k ≤ u
    → u < k + left
    → 10 ≤ u
    → bit_at s.disk (the_bmap which s).sys_bm u ≡ false
    → (the_bmap which s).sys_bm + u / 8 < disk_size
    → ((j : ℕ) → 10 ≤ j → j < k → bit_at s.disk (the_bmap which s).sys_bm j ≡ true)
    → (t : ℕ) × (scan_bits which c left (k / 8) (k % 8) (k + 1) c s
        ≡ done (c + 1, naming which t s))
      × First s.disk (the_bmap which s).sys_bm 10 u t
unfolding scan_bits load8
scan_bits-First which c zero k u s le enough late clear inside before = absurd (omega arith)
scan_bits-First which c (suc left) k u s le enough late clear inside before =
    let base = (the_bmap which s).sys_bm in
    let near : ltb (base + k / 8) disk_size ≡ true =
      lt→ltb (base + k / 8) disk_size (omega arith) in
    let go_on : ltb c c ≡ false = ground arith in
    let free = not (bit_at s.disk base k) && leb first_ino (k + 1) in
    elim (Bool-cases free) [
      | inl here ↦ (
        k,
        rw (go_on, near, here) (scan_bits-stops which c left _ _ (k + 1 + 1) (naming which k s)),
        record {
          lower = ground (arith, here);
          upper = le;
          clear = ground (arith, here);
          used = before;
        },
      )
      | inr later ↦
          let apart : k ≢ u =
            λ e. ground (arith, ap (λ j. bit_at s.disk base j) e, later, clear, e, late) in
          let before' : (j : ℕ) → 10 ≤ j → j < k + 1 → bit_at s.disk base j ≡ true = λ j lo hi.
            elim (ℕ_discrete k j) [
              | yes same ↦
                  subst (λ i. bit_at s.disk base i ≡ true) same (ground (arith, later, same, lo))
              | no other ↦ before j lo (omega arith)
            ] in
          let (t, e, f) =
            scan_bits-First which c left (k + 1) u s (omega arith) (omega arith) late clear inside
              before' in
          (t, rw (go_on, near, later, next-bit k, next-byte k) e, f)
    ]

-- A bit of a bitmap is clear, lies within the image, and is among those that are scanned and not
-- reserved.
pub record Spare (disk : ℕ → ℕ) (sys_bm count u : ℕ) : Type 0 where
  pub late : 10 ≤ u
  pub counted : u < scanned count
  pub clear : bit_at disk sys_bm u ≡ false
  pub inside : sys_bm + u / 8 < disk_size

-- With a spare inode and a spare block, `read_bitmaps` makes the fields of both bitmaps name the
-- first ones, and changes nothing else.
pub read_bitmaps-First :
    (s : State) (u v : ℕ)
    → Spare s.disk s.ind_bmap.sys_bm s.inds_count u
    → Spare s.disk s.blk_bmap.sys_bm s.blks_count v
    → (t w : ℕ) × (read_bitmaps s ≡ done (tt, naming blks w (naming inds t s)))
      × First s.disk s.ind_bmap.sys_bm 10 u t
      × First s.disk s.blk_bmap.sys_bm 10 v w
unfolding read_bitmaps
read_bitmaps-First s u v a b =
    let early : (d : ℕ → ℕ) (base j : ℕ) → 10 ≤ j → j < 0 → bit_at d base j ≡ true =
      λ d base j lo hi. absurd (omega (arith, hi)) in
    let (t, e, f) =
      scan_bits-First inds 0 (scanned s.inds_count) 0 u s (omega arith) (omega (arith, a.counted))
        a.late a.clear a.inside (early s.disk s.ind_bmap.sys_bm) in
    let s1 = naming inds t s in
    let (w, e', f') =
      scan_bits-First blks 1 (scanned s.blks_count) 0 v s1 (omega arith) (omega (arith, b.counted))
        b.late b.clear b.inside (early s.disk s.blk_bmap.sys_bm) in
    (t, w, rw (e, e') refl, f, f')
