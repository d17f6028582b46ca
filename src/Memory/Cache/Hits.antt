-- ===== src/Memory/Cache/Hits.antt =====
-- The hits that A3/sim.c counts with A3/lru.c.
use csc_369_operating_system.Common.{
  ℕ, ◌+◌, ◌^◌, ◌<◌, ◌≤◌, Bool, true, false, List, [], ◌∷◌, some, if◌then◌else◌, ◌==◌, update,
  length, ◌≡◌, refl, sym, ap, ◌∙◌, arith, inl, inr, Bool-cases, subst,
}
use csc_369_operating_system.Memory.Machine.{Page, Device, Machine}
use csc_369_operating_system.Memory.PageTable.Translate.{page_of, access_mem, replay_trace}
use csc_369_operating_system.Memory.PageTable.Promise.{IsConsistent, used}
use csc_369_operating_system.Memory.Replay.{
  IsTrace, access_mem-IsConsistent, replay_trace-IsConsistent,
}
use csc_369_operating_system.Memory.Policy.Queue.{next, first, last, Absent, IsDistinct}
use csc_369_operating_system.Memory.Policy.Recency.{prev}
use csc_369_operating_system.Memory.Policy.Lru.{Lru, lru}
use csc_369_operating_system.Memory.Policy.Usage.{Ordered}
use csc_369_operating_system.Memory.Policy.Recent.{lru-IsPolicy}
use csc_369_operating_system.Memory.Bitmap.Bits.{Bitmap}
use csc_369_operating_system.Memory.Bitmap.Marks.{bitmap_create-clear}
use csc_369_operating_system.Memory.Boot.{
  boot, simulate, no_frames, no_frames-Ordered, boot-IsConsistent,
}
use csc_369_operating_system.Memory.Cache.{holds, accessed, cache_hits}
use csc_369_operating_system.Memory.Cache.Pairs.{Paired}
use csc_369_operating_system.Memory.Cache.Given.{Cached}
use csc_369_operating_system.Memory.Cache.Access.{find_physpage-Cached}

count_hit :
    (hit : Bool) (before now after rest : ℕ)
    → after ≡ now + rest
    → now ≡ (if hit then before + 1 else before)
    → after ≡ before + (if hit then rest + 1 else rest)
count_hit true before now after rest e h = omega (arith, e, h)
count_hit false before now after rest e h = omega (arith, e, h)

module _ {F : Type 0} where
  access_mem-Cached :
      (d : Device F) (vaddr : ℕ) (write : Bool) (m : Machine F Lru) (cache : List ℕ)
      → IsConsistent m
      → Ordered m.memsize m.alg (used m)
      → vaddr < 2 ^ 36
      → Cached m cache
      → (b : Bool) × (m' : Machine F Lru) × (access_mem d lru vaddr write m ≡ some (b, m'))
        × Cached m' (accessed m.memsize (page_of vaddr) cache)
        × (m'.hit_count ≡ (if holds (page_of vaddr) cache then m.hit_count + 1 else m.hit_count))
  unfolding access_mem
  access_mem-Cached d vaddr write m cache c o short k =
      let (f, m1, e, k1, hits) = find_physpage-Cached d vaddr write m cache c o short k in
      let page = m1.physmem f in
      elim (Bool-cases write) [
        | inl w ↦ (
          page.vaddr == vaddr,
          record m1 { physmem = update m1.physmem f (record page { version = page.version + 1 }) },
          rw (e, w, access_mem) refl,
          record {
            order = k1.order;
            represents = k1.represents;
            covers = k1.covers;
            paired = k1.paired;
          },
          hits,
        )
        | inr w ↦ (page.vaddr == vaddr, m1, rw (e, w, access_mem) refl, k1, hits)
      ]

  -- A trace, from a machine whose pages are those of the cache.
  pub replay_trace-Cached :
      (d : Device F) (lines : List (ℕ × Bool)) (m : Machine F Lru) (cache : List ℕ)
      → IsConsistent m
      → Ordered m.memsize m.alg (used m)
      → IsTrace lines
      → Cached m cache
      → (m' : Machine F Lru) × (replay_trace d lru lines m ≡ some m')
        × (m'.hit_count ≡ m.hit_count + cache_hits m.memsize lines cache)
  unfolding replay_trace IsTrace cache_hits
  replay_trace-Cached d [] m cache c o trace k = (m, refl, omega arith)
  replay_trace-Cached d ((vaddr, write) ∷ lines) m cache c o trace k =
      let (b, m1, e, k1, hits) = access_mem-Cached d vaddr write m cache c o trace.0 k in
      let (b', m1', e', c1, size, refs, o1) =
        access_mem-IsConsistent d lru vaddr write m lru-IsPolicy c o (omega (arith, o.several))
          trace.0 in
      let same : m1' ≡ m1 = ground (arith, e, e') in
      let size' : m1.memsize ≡ m.memsize = ap (λ y. y.memsize) (sym same) ∙ size in
      let (m2, e2, all) =
        replay_trace-Cached d lines m1 (accessed m.memsize (page_of vaddr) cache)
          (subst IsConsistent same c1) (subst (λ y. Ordered y.memsize y.alg (used y)) same o1)
          trace.1 k1 in
      let all' : m2.hit_count
          ≡ m1.hit_count + cache_hits m.memsize lines (accessed m.memsize (page_of vaddr) cache) =
        all
        ∙ ap (λ n. m1.hit_count + cache_hits n lines (accessed m.memsize (page_of vaddr) cache))
            size' in
      (
        m2,
        rw (e, replay_trace) e2,
        count_hit (holds (page_of vaddr) cache) m.hit_count m1.hit_count m2.hit_count
            (cache_hits m.memsize lines (accessed m.memsize (page_of vaddr) cache)) all' hits,
      )

boot-Cached :
    {F : Type 0} (memsize : ℕ) (memory : ℕ → Page) (b : Bitmap) (file : F)
    → Cached (boot memsize memory b file no_frames) []
unfolding boot first last next prev Absent IsDistinct Paired
boot-Cached memsize memory b file = record {
  order = [];
  represents = record {
    distinct = tt;
    above = λ x. refl;
    below = λ x. refl;
    bottom = refl;
    top = inl refl;
  };
  covers = record { below = λ x. inl tt; all = λ x lt has. absurd (ground (arith, has)) };
  paired = tt;
}

-- With `lru`, from two to 2 ^ 20 frames, a swap space whose size does not overflow, and any trace of
-- addresses of 36 bits, the simulator counts as hits exactly the accesses that find their page among
-- the `memsize` most recently used ones, and all others as misses.
pub simulate-lru_hits :
    {F : Type 0} (d : Device F) (memsize swapsize : ℕ) (memory : ℕ → Page) (file : F)
    (lines : List (ℕ × Bool))
    → 2 ≤ memsize
    → memsize ≤ 2 ^ 20
    → swapsize + 32 ≤ 2 ^ 32
    → IsTrace lines
    → (m : Machine F Lru) × (simulate d lru memsize swapsize memory file no_frames lines ≡ some m)
      × (m.hit_count ≡ cache_hits memsize lines [])
      × (m.miss_count + cache_hits memsize lines [] ≡ length lines)
unfolding simulate boot
simulate-lru_hits d memsize swapsize memory file lines several small swap trace =
    let (b, made, size, v, clear) = bitmap_create-clear swapsize swap in
    let start = boot memsize memory b file no_frames in
    let c = boot-IsConsistent memsize memory b file no_frames small v in
    let (m, e, hits) =
      replay_trace-Cached d lines start [] c (no_frames-Ordered memsize several) trace
        (boot-Cached memsize memory b file) in
    let (m', e', c', refs, o') =
      replay_trace-IsConsistent d lru lines start lru-IsPolicy c (no_frames-Ordered memsize several)
        (omega (arith, several)) trace in
    let same : m' ≡ m = ground (arith, e, e') in
    let counted = (subst IsConsistent same c').counted in
    let all = ap (λ y. y.ref_count) (sym same) ∙ refs in
    (m, rw (made, simulate) e, omega (arith, hits), omega (arith, hits, counted, all))
