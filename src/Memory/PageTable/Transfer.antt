-- ===== src/Memory/PageTable/Transfer.antt =====
-- The parts of `allocate_frame` of A3/pagetable.c: the search for a free frame, and the transfers of
-- an eviction.
use csc_369_operating_system.Common.{
  ℕ, zero, suc, ◌+◌, ◌*◌, ◌<◌, ◌≤◌, true, false, Option, none, some, ◌==◌, update, ◌≡◌, refl, ap,
  ◌∙◌, arith, inl, inr, Bool-cases, Option-cases, subst,
}
use csc_369_operating_system.Memory.Bitmap.Bits.{Bitmap}
use csc_369_operating_system.Memory.Bitmap.Alloc.{IsValid, bitmap_alloc-least}
use csc_369_operating_system.Memory.Machine.{Page, Frame, Device, Machine}
use csc_369_operating_system.Memory.PageTable.Swap.{
  swap_pageout, write_out, swap_pagein, simpagesize,
}
use csc_369_operating_system.Memory.PageTable.Translate.{
  find_unused, evicted, retire, bring_in, evict_frame,
}
use csc_369_operating_system.Memory.PageTable.Promise.{used}

pub find_unused-some :
    (left i : ℕ) (coremap : ℕ → Frame) (f : ℕ)
    → find_unused left i coremap ≡ some f
    → (f < i + left) × ((coremap f).in_use ≡ false)
unfolding find_unused
find_unused-some zero i coremap f e = absurd (ground (arith, e))
find_unused-some (suc left) i coremap f e = elim (Bool-cases (coremap i).in_use) [
  | inl used ↦
      let (lt, free) = find_unused-some left (suc i) coremap f (ground (arith, e, used)) in
      (omega (arith, lt), free)
  | inr free ↦
      let same : i ≡ f = ground (arith, e, free) in
      (omega (arith, same), subst (λ g. (coremap g).in_use ≡ false) same free)
]

pub find_unused-none :
    (left i : ℕ) (coremap : ℕ → Frame)
    → find_unused left i coremap ≡ none
    → (f : ℕ) → i ≤ f
    → f < i + left
    → (coremap f).in_use ≡ true
unfolding find_unused
find_unused-none zero i coremap e f le lt = absurd (omega (arith, le, lt))
find_unused-none (suc left) i coremap e f le lt = elim (Bool-cases (coremap i).in_use) [
  | inl used ↦ elim (Bool-cases (i == f)) [
    | inl h ↦
        let same : i ≡ f = ground (arith, h) in subst (λ g. (coremap g).in_use ≡ true) same used
    | inr h ↦
        find_unused-none left (suc i) coremap (ground (arith, e, used)) f (ground (arith, h, le))
          (omega (arith, lt))
  ]
  | inr free ↦ absurd (ground (arith, e, free))
]

module _ {F P : Type 0} where
  swap_pageout-keeps :
      (d : Device F) (frame : ℕ) (off : Option ℕ) (m : Machine F P)
      → IsValid m.swapmap
      → (off' : Option ℕ) × (b : Bitmap) × (file : F) × (swap_pageout d frame off m
          ≡ some (off', record m { swapmap = b; swapfile = file }))
        × IsValid b
  unfolding swap_pageout write_out
  swap_pageout-keeps d frame (some o) m v = (_, m.swapmap, _, refl, v)
  swap_pageout-keeps d frame none m v = elim (bitmap_alloc-least v) [
    | inl (i, after, e, lt, size, found, v') ↦
        let out = write_out d frame (i * simpagesize) (record m { swapmap = after }) in
        (out.0, after, out.1.swapfile, rw (e, swap_pageout) refl, v')
    | inr (e, all) ↦ (none, m.swapmap, m.swapfile, rw (e, swap_pageout) refl, v)
  ]

  bring_in-keeps :
      (d : Device F) (p frame : ℕ) (m : Machine F P)
      → (memory : ℕ → Page) × (bring_in d p frame m ≡ record m { physmem = memory })
  unfolding bring_in swap_pagein
  bring_in-keeps d p frame m = elim (Option-cases (m.ptes p).swap_off) [
    | inl e ↦ (m.physmem, rw (e, bring_in) refl)
    | inr (off, e) ↦ ((swap_pagein d frame off m).1.physmem, rw (e, bring_in) refl)
  ]

  pub retire-keeps :
      (victim : ℕ) (off : Option ℕ) (m : Machine F P)
      → (clean dirty : ℕ) × (retire victim off m ≡ record m {
        ptes = update m.ptes victim (evicted off (m.ptes victim));
        evict_clean_count = clean;
        evict_dirty_count = dirty;
      })
  unfolding retire
  retire-keeps victim off m = elim (Bool-cases (m.ptes victim).dirty) [
    | inl e ↦ (m.evict_clean_count, m.evict_dirty_count + 1, rw (e, retire) refl)
    | inr e ↦ (m.evict_clean_count + 1, m.evict_dirty_count, rw (e, retire) refl)
  ]

  -- The machine after an eviction.
  abbrev pub emptied : ℕ → Option ℕ → Bitmap → F → (ℕ → Page) → ℕ → ℕ → Machine F P → Machine F P
  emptied victim off b file memory clean dirty m = record m {
    ptes = update m.ptes victim (evicted off (m.ptes victim));
    swapmap = b;
    swapfile = file;
    physmem = memory;
    evict_clean_count = clean;
    evict_dirty_count = dirty;
  }

  pub evict_frame-keeps :
      (d : Device F) (p frame victim : ℕ) (m : Machine F P)
      → IsValid m.swapmap
      → (m.coremap frame).pte ≡ some victim
      → (off : Option ℕ) × (b : Bitmap) × (file : F) × (memory : ℕ → Page) × (clean dirty : ℕ)
        × (evict_frame d p frame m ≡ some (emptied victim off b file memory clean dirty m))
        × IsValid b
  unfolding evict_frame
  evict_frame-keeps d p frame victim m v points =
      let (off, b, file, out, v') = swap_pageout-keeps d frame (m.ptes victim).swap_off m v in
      let m1 = record m { swapmap = b; swapfile = file } in
      let (clean, dirty, gone) = retire-keeps victim off m1 in
      let (memory, back) = bring_in-keeps d p frame (retire victim off m1) in
      let read_in : Machine F P → Machine F P = λ x. record x { physmem = memory } in
      let whole = back ∙ ap read_in gone in
      (off, b, file, memory, clean, dirty, rw (points, out, evict_frame) (ap some whole), v')
