-- ===== src/Memory/Replay.antt =====
-- The replay of a trace by A3/sim.c, and clock.c as the replacement algorithm.
use csc_369_operating_system.Common.{
  ℕ, ◌+◌, ◌<◌, ◌^◌, Bool, List, [], ◌∷◌, none, some, ◌==◌, update, length, ◌≡◌, ◌≢◌, refl, sym, ap,
  ◌∙◌, arith, inl, inr, Bool-cases, subst,
}
use csc_369_operating_system.Memory.Machine.{Device, Machine, Functions}
use csc_369_operating_system.Memory.PageTable.Translate.{access_mem, replay_trace}
use csc_369_operating_system.Memory.PageTable.Promise.{IsConsistent, IsPolicy, Invariant, used}
use csc_369_operating_system.Memory.PageTable.Resident.{find_physpage-Translated}
use csc_369_operating_system.Memory.Policy.Clock.{clock, clock_ref, clock_evict-Chosen}

module _ {F : Type 0} where
  -- `clock_evict` and `clock_ref` keep the promises of a replacement algorithm: on a consistent
  -- machine with at least one frame and no free one, `clock_evict` returns a frame of the memory,
  -- and changes only the hand and reference bits, and `clock_ref` changes nothing.
  pub clock-IsPolicy : IsPolicy {F = F} clock (λ n hand in_use. Unit) (λ n f hand in_use. Unit)
  unfolding clock_ref
  clock-IsPolicy = record {
    evicts = λ m c ready some_frame full.
        let held : (i : ℕ) → i < m.memsize → (m.coremap i).pte ≢ none = λ i lt missing.
          let (q, points, v, n) = c.links.holds i lt (full i lt) in
          ground (arith, points, missing) in
        let (victim, after, result, chosen) = clock_evict-Chosen m some_frame held in
        let (q, points, v, n) =
          c.links.holds chosen.frame chosen.in_range (full chosen.frame chosen.in_range) in
        let same : q ≡ chosen.page = ground (arith, points, chosen.holds) in
        let frame : victim ≡ chosen.frame =
          chosen.number ∙ subst (λ x. (m.ptes x).number ≡ chosen.frame) same n in
        (
          victim,
          after.ptes,
          after.alg,
          result ∙ ap (λ x. some (victim, x)) chosen.rest,
          subst (λ x. x < m.memsize) (sym frame) chosen.in_range,
          chosen.cleared,
          tt,
        );
    fills = λ n f hand in_use ready lt free. tt;
    refers = λ p m c valid ready. (m.alg, refl, tt);
  }

-- Every access of a trace has an address of 36 bits.
unfoldable pub IsTrace : List (ℕ × Bool) → Type 0
IsTrace [] = Unit
IsTrace ((vaddr, write) ∷ lines) = (vaddr < 2 ^ 36) × IsTrace lines

module _ {F P : Type 0} where
  pub access_mem-IsConsistent :
      (d : Device F) (alg : Functions F P) (vaddr : ℕ) (write : Bool) (m : Machine F P)
      {Ready : Invariant P} {Fresh : ℕ → Invariant P} (policy : IsPolicy alg Ready Fresh)
      → IsConsistent m
      → Ready m.memsize m.alg (used m)
      → 0 < m.memsize
      → vaddr < 2 ^ 36
      → (b : Bool) × (m' : Machine F P) × (access_mem d alg vaddr write m ≡ some (b, m'))
        × IsConsistent m'
        × (m'.memsize ≡ m.memsize)
        × (m'.ref_count ≡ m.ref_count + 1)
        × Ready m'.memsize m'.alg (used m')
  unfolding access_mem
  access_mem-IsConsistent d alg vaddr write m policy c ready some_frame short =
      let (f, m1, e, found, again) =
        find_physpage-Translated d alg vaddr write m policy c ready some_frame short in
      let page = m1.physmem f in
      elim (Bool-cases write) [
        | inl w ↦ (
          page.vaddr == vaddr,
          record m1 { physmem = update m1.physmem f (record page { version = page.version + 1 }) },
          rw (e, w, access_mem) refl,
          record {
            links = found.consistent.links;
            swap = found.consistent.swap;
            small = found.consistent.small;
            counted = found.consistent.counted;
          },
          found.memsize,
          found.counted,
          again,
        )
        | inr w ↦ (
          page.vaddr == vaddr,
          m1,
          rw (e, w, access_mem) refl,
          found.consistent,
          found.memsize,
          found.counted,
          again,
        )
      ]

  -- From a consistent machine with at least one frame, `replay_trace` takes no fault on any trace
  -- of addresses of 36 bits, for any replacement algorithm that keeps its promises and is ready for
  -- them, and any swap file. In the end the machine is consistent, the algorithm is ready, and as
  -- many references are counted as the trace has accesses.
  pub replay_trace-IsConsistent :
      (d : Device F) (alg : Functions F P) (lines : List (ℕ × Bool)) (m : Machine F P)
      {Ready : Invariant P} {Fresh : ℕ → Invariant P} (policy : IsPolicy alg Ready Fresh)
      → IsConsistent m
      → Ready m.memsize m.alg (used m)
      → 0 < m.memsize
      → IsTrace lines
      → (m' : Machine F P) × (replay_trace d alg lines m ≡ some m')
        × IsConsistent m'
        × (m'.ref_count ≡ m.ref_count + length lines)
        × Ready m'.memsize m'.alg (used m')
  unfolding replay_trace IsTrace
  replay_trace-IsConsistent d alg [] m policy c ready some_frame trace =
      (m, refl, c, omega arith, ready)
  replay_trace-IsConsistent d alg ((vaddr, write) ∷ lines) m policy c ready some_frame trace =
      let (b, m1, e, c1, size, refs, ready1) =
        access_mem-IsConsistent d alg vaddr write m policy c ready some_frame trace.0 in
      let (m2, e2, c2, all, ready2) =
        replay_trace-IsConsistent d alg lines m1 policy c1 ready1 (rw size some_frame) trace.1 in
      (m2, rw (e, replay_trace) e2, c2, omega (arith, all, refs), ready2)
