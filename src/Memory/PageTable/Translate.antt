-- ===== src/Memory/PageTable/Translate.antt =====
-- `allocate_frame`, `init_second_level`, `init_frame` and `find_physpage` of A3/pagetable.c, and
-- `access_mem` and `replay_trace` of A3/sim.c.
use csc_369_operating_system.Common.{
  ℕ, zero, suc, ◌+◌, ◌*◌, ◌/◌, ◌%◌, ◌^◌, Bool, true, false, ◌&&◌, not, List, [], ◌∷◌, Option, none,
  some, if◌then◌else◌, ◌==◌, ltb, update,
}
use csc_369_operating_system.Memory.Machine.{Device, Machine, Pte, Frame, Functions}
use csc_369_operating_system.Memory.PageTable.Swap.{swap_pagein, swap_pageout}

-- The first `i < memsize` that is not in use; the first argument counts the frames left.
unfoldable pub find_unused : ℕ → ℕ → (ℕ → Frame) → Option ℕ
find_unused zero i coremap = none
find_unused (suc left) i coremap =
    let rest = find_unused left (suc i) coremap in if (coremap i).in_use then rest else some i

abbrev pub blank_pte : Pte
blank_pte = record {
  number = 0;
  valid = false;
  dirty = false;
  ref = false;
  onswap = false;
  swap_off = none;
}

-- A word `frame` of `f << PAGE_SHIFT`, 32 bits wide: all flags are cleared.
abbrev pub place : ℕ → Pte → Pte
place f p = record p {
  number = f % 2 ^ 20;
  valid = false;
  dirty = false;
  ref = false;
  onswap = false;
}

-- What eviction does to the victim's entry; the valid bit is flipped.
abbrev pub evicted : Option ℕ → Pte → Pte
evicted off p = record p { onswap = true; valid = not p.valid; swap_off = off }

-- The number of the page of an address: the page directory's index and the table's.
abbrev pub page_of : ℕ → ℕ
page_of vaddr = vaddr / 2 ^ 24 % 2 ^ 32 * 4096 + vaddr / 4096 % 4096

module _ {F P : Type 0} where
  -- The victim's entry and the counters, once its page is written out.
  unfoldable pub retire : ℕ → Option ℕ → Machine F P → Machine F P
  retire victim off m =
      let e = evicted off (m.ptes victim) in
      if e.dirty
      then record m { ptes = update m.ptes victim e; evict_dirty_count = m.evict_dirty_count + 1 }
      else record m { ptes = update m.ptes victim e; evict_clean_count = m.evict_clean_count + 1 }

  abbrev pub occupy : ℕ → ℕ → Machine F P → Machine F P
  occupy p frame m = record m {
    coremap = update m.coremap frame (record (m.coremap frame) { in_use = true; pte = some p });
  }

  -- `init_second_level`, where memory is found: all entries of one table.
  unfoldable pub init_second_level : ℕ → Machine F P → Machine F P
  init_second_level idx m = record m {
    pgdir = update m.pgdir idx true;
    ptes = λ p. if p / 4096 == idx then blank_pte else m.ptes p;
  }

  unfoldable pub init_frame : ℕ → ℕ → Machine F P → Machine F P
  init_frame frame vaddr m = record m {
    physmem = update m.physmem frame (record { version = 0; vaddr = vaddr });
  }

  -- The first steps of `find_physpage`; an index past the page directory is a fault.
  unfoldable pub open_table : ℕ → Machine F P → Option (Machine F P)
  open_table idx m =
      if ltb idx 4096 then some (if m.pgdir idx then m else init_second_level idx m) else none

  -- The end of `find_physpage`, up to the call of `ref_fcn`.
  unfoldable pub touch : ℕ → ℕ → Bool → Machine F P → Machine F P
  touch p vaddr write m =
      let e = m.ptes p in
      let f = m.coremap e.number in
      record m {
        ref_count = m.ref_count + 1;
        ptes =
            update m.ptes p
              (record e { valid = true; ref = true; dirty = (if write then true else e.dirty) });
        coremap = update m.coremap e.number (record f { vaddr = vaddr });
      }

module _ {F P : Type 0} (d : Device F) where
  -- The page of `p` is read back, if it has a place in the swap file. A failure is only reported.
  unfoldable pub bring_in : ℕ → ℕ → Machine F P → Machine F P
  bring_in p frame m = elim (m.ptes p).swap_off [
    | none ↦ m
    | some off ↦ (swap_pagein d frame off m).1
  ]

  -- The branch of `allocate_frame` in which no frame is free, from the victim frame on. A victim
  -- frame without a page is a null pointer.
  unfoldable pub evict_frame : ℕ → ℕ → Machine F P → Option (Machine F P)
  evict_frame p frame m = elim (m.coremap frame).pte [
    | none ↦ none
    | some victim ↦ elim (swap_pageout d frame (m.ptes victim).swap_off m) [
      | none ↦ none
      | some (off, m') ↦ some (bring_in p frame (retire victim off m'))
    ]
  ]

  unfoldable pub allocate_frame : Functions F P → ℕ → Machine F P → Option (ℕ × Machine F P)
  allocate_frame alg p m = elim (find_unused m.memsize 0 m.coremap) [
    | some frame ↦ some (frame, occupy p frame m)
    | none ↦ elim (alg.evict m) [
      | none ↦ none
      | some (frame, m') ↦ elim (evict_frame p frame m') [
        | none ↦ none
        | some m'' ↦ some (frame, occupy p frame m'')
      ]
    ]
  ]

  -- The three cases of `find_physpage`: a page never seen, a page on swap, a page in memory.
  unfoldable pub make_resident : Functions F P → ℕ → ℕ → Machine F P → Option (Machine F P)
  make_resident alg p vaddr m =
      let e = m.ptes p in
      if not e.valid && not e.onswap
      then elim (allocate_frame alg p m) [
        | none ↦ none
        | some (f, m') ↦
            let m'' = init_frame f vaddr m' in
            some (record m'' {
              ptes = update m''.ptes p (record (place f (m''.ptes p)) { dirty = true });
              miss_count = m''.miss_count + 1;
            })
      ]
      else if not e.valid && e.onswap
      then elim (allocate_frame alg p m) [
        | none ↦ none
        | some (f, m') ↦ some (record m' {
          ptes = update m'.ptes p (place f (m'.ptes p));
          miss_count = m'.miss_count + 1;
        })
      ]
      else if e.onswap
      then none
      else some (record m { hit_count = m.hit_count + 1 })

  -- `find_physpage`: the frame whose address it returns, and the machine. `write` is whether the
  -- type of the access is 'S' or 'M'.
  unfoldable pub find_physpage : Functions F P → ℕ → Bool → Machine F P → Option (ℕ × Machine F P)
  find_physpage alg vaddr write m = elim (open_table (vaddr / 2 ^ 24 % 2 ^ 32) m) [
    | none ↦ none
    | some m1 ↦ elim (make_resident alg (page_of vaddr) vaddr m1) [
      | none ↦ none
      | some m2 ↦ elim (alg.ref (page_of vaddr) (touch (page_of vaddr) vaddr write m2)) [
        | none ↦ none
        | some m3 ↦ some ((m3.ptes (page_of vaddr)).number, m3)
      ]
    ]
  ]

  -- `access_mem`: whether the frame held the address, and the machine after a possible write.
  unfoldable pub access_mem : Functions F P → ℕ → Bool → Machine F P → Option (Bool × Machine F P)
  access_mem alg vaddr write m = elim (find_physpage alg vaddr write m) [
    | none ↦ none
    | some (f, m') ↦
        let page = m'.physmem f in
        some (
          page.vaddr == vaddr,
          if write
              then record m' {
                physmem = update m'.physmem f (record page { version = page.version + 1 });
              }
              else m',
        )
  ]

  -- `replay_trace`, over the accesses that the lines of the trace file stand for.
  unfoldable pub replay_trace : Functions F P → List (ℕ × Bool) → Machine F P → Option (Machine F P)
  replay_trace alg [] m = some m
  replay_trace alg ((vaddr, write) ∷ lines) m = elim (access_mem alg vaddr write m) [
    | none ↦ none
    | some (expected, m') ↦ replay_trace alg lines m'
  ]
