-- ===== src/Ext2/Bitmap/Find.antt =====
-- What the searches of A4/util.c find.
use csc_369_operating_system.Common.{
  ℕ, zero, suc, ◌+◌, ◌/◌, ◌%◌, ◌<◌, ◌≤◌, Bool, true, false, if◌then◌else◌, ◌==◌, ltb, ◌≡◌, ◌≢◌,
  refl, ap, arith, inl, inr, Bool-cases, subst, lt→ltb, ℕ_discrete,
}
use csc_369_operating_system.Ext2.Outcome.{done}
use csc_369_operating_system.Ext2.Bits.{test}
use csc_369_operating_system.Ext2.Image.{State, Which, the_bmap, load8, disk_size}
use csc_369_operating_system.Ext2.Bitmap.{find_loop, find_free, search_fuel}

-- The bit for the number `k + 1`, in the bitmap at an offset.
abbrev pub bit_at : (ℕ → ℕ) → ℕ → ℕ → Bool
bit_at disk sys_bm k = test (k % 8) (disk (sys_bm + k / 8))

pub next-bit : (k : ℕ) → (k % 8 + 1) % 8 ≡ (k + 1) % 8
next-bit k = omega arith

pub next-byte : (k : ℕ) → (if (k + 1) % 8 == 0 then k / 8 + 1 else k / 8) ≡ (k + 1) / 8
next-byte k = ground arith

-- The first clear bit from a bit on, before a clear one.
pub record First (disk : ℕ → ℕ) (sys_bm from limit t : ℕ) : Type 0 where
  pub lower : from ≤ t
  pub upper : t ≤ limit
  pub clear : bit_at disk sys_bm t ≡ false
  pub used : (k : ℕ) → from ≤ k → k < t → bit_at disk sys_bm k ≡ true

find_loop-First :
    (fuel sys_bm k u : ℕ) (s : State)
    → k ≤ u
    → u < k + fuel
    → bit_at s.disk sys_bm u ≡ false
    → sys_bm + u / 8 < disk_size
    → (t : ℕ) × (find_loop fuel sys_bm (k / 8) (k % 8) (k + 1) s ≡ done (t + 1, s))
      × First s.disk sys_bm k u t
unfolding find_loop load8
find_loop-First zero sys_bm k u s le enough clear inside = absurd (omega arith)
find_loop-First (suc fuel) sys_bm k u s le enough clear inside =
    let near : ltb (sys_bm + k / 8) disk_size ≡ true =
      lt→ltb (sys_bm + k / 8) disk_size (omega arith) in
    elim (Bool-cases (bit_at s.disk sys_bm k)) [
      | inr here ↦ (
        k,
        rw (near, here) refl,
        record {
          lower = omega arith;
          upper = le;
          clear = here;
          used = λ j lo hi. absurd (omega (arith, lo, hi));
        },
      )
      | inl full ↦
          let apart : k ≢ u =
            λ e. ground (arith, ap (λ j. bit_at s.disk sys_bm j) e, full, clear) in
          let (t, e, f) =
            find_loop-First fuel sys_bm (k + 1) u s (omega arith) (omega arith) clear inside in
          (
            t,
            rw (near, full, next-bit k, next-byte k) e,
            record {
              lower = omega (arith, f.lower);
              upper = f.upper;
              clear = f.clear;
              used = λ j lo hi. elim (ℕ_discrete k j) [
                | yes here ↦ subst (λ i. bit_at s.disk sys_bm i ≡ true) here full
                | no later ↦ f.used j (omega arith) hi
              ];
            },
          )
    ]

-- `find_free` finds the least number from 11 on whose bit is clear, and changes nothing, if the
-- counter is not 0 and some such bit lies within the image.
pub find_free-First :
    (which : Which) (s : State) (u : ℕ)
    → 0 < (the_bmap which s).num_bits_avail
    → 10 ≤ u
    → bit_at s.disk (the_bmap which s).sys_bm u ≡ false
    → (the_bmap which s).sys_bm + u / 8 < disk_size
    → (t : ℕ) × (find_free which s ≡ done (t + 1, s))
      × First s.disk (the_bmap which s).sys_bm 10 u t
unfolding find_free
find_free-First which s u some_left late clear inside =
    let left : ltb (the_bmap which s).num_bits_avail 1 ≡ false = ground (arith, some_left) in
    let (t, e, f) =
      find_loop-First search_fuel (the_bmap which s).sys_bm 10 u s late (omega (arith, inside))
        clear inside in
    (t, rw left e, f)
