-- ===== src/Memory/PageTable/Allocate.antt =====
-- `allocate_frame` of A3/pagetable.c keeps the links, for a replacement algorithm that picks a frame
-- of the memory.
use csc_369_operating_system.Common.{
  ℕ, ◌<◌, true, false, some, update, ◌≡◌, refl, ap, ◌∙◌, arith, inl, inr, Option-cases, subst,
  update-same, sym, fun_ext,
}
use csc_369_operating_system.Memory.Bitmap.Alloc.{IsValid}
use csc_369_operating_system.Memory.Machine.{Pte, Device, Machine, Functions}
use csc_369_operating_system.Memory.PageTable.Translate.{
  find_unused, occupy, evict_frame, allocate_frame,
}
use csc_369_operating_system.Memory.PageTable.Links.{
  Linked, Pending, entries-Linked, occupy_free-Pending, occupy_evicted-Pending,
}
use csc_369_operating_system.Memory.PageTable.Promise.{IsConsistent, IsPolicy, Invariant, used}
use csc_369_operating_system.Memory.PageTable.Transfer.{
  find_unused-some, find_unused-none, emptied, evict_frame-keeps,
}

module _ {F P : Type 0} where
  -- What allocation leaves as it was.
  pub record Allocated (p f : ℕ) (m m' : Machine F P) : Type 0 where
    pub pending : Pending p f m'.memsize m'.coremap m'.ptes m'.pgdir
    pub swap : IsValid m'.swapmap
    pub memsize : m'.memsize ≡ m.memsize
    pub pgdir : m'.pgdir ≡ m.pgdir
    pub hits : m'.hit_count ≡ m.hit_count
    pub misses : m'.miss_count ≡ m.miss_count
    pub refs : m'.ref_count ≡ m.ref_count

  -- The entries after the algorithm has cleared reference bits are linked as before.
  evicts-Linked :
      (m : Machine F P) (t : ℕ → Pte)
      → Linked m.memsize m.coremap m.ptes m.pgdir
      → ((p : ℕ) → t p ≡ record (m.ptes p) { ref = (t p).ref })
      → Linked m.memsize m.coremap t m.pgdir
  evicts-Linked m t l same =
      entries-Linked t l
        λ p. (ap (λ e. e.valid) (same p), ap (λ e. e.number) (same p), ap (λ e. e.onswap) (same p))

  -- A frame in use stays in use, and a free one is then in use.
  occupy-used :
      (p f : ℕ) (m : Machine F P) → (m.coremap f).in_use ≡ true → used (occupy p f m) ≡ used m
  occupy-used p f m full = fun_ext λ g.
      update-same (λ c. c.in_use) m.coremap f (record (m.coremap f) { in_use = true; pte = some p })
        g (sym full)

  occupy_free-used : (p f : ℕ) (m : Machine F P) → used (occupy p f m) ≡ update (used m) f true
  occupy_free-used p f m = fun_ext λ g. ground arith

  occupy_free-Allocated :
      (p f : ℕ) (m : Machine F P)
      → IsConsistent m
      → (m.ptes p).valid ≡ false
      → find_unused m.memsize 0 m.coremap ≡ some f
      → Allocated p f m (occupy p f m)
  occupy_free-Allocated p f m c absent found =
      let (lt, free) = find_unused-some m.memsize 0 m.coremap f found in
      record {
        pending =
            occupy_free-Pending p f (record (m.coremap f) { in_use = true; pte = some p }) c.links
              (omega (arith, lt)) free absent refl refl;
        swap = c.swap;
        memsize = refl;
        pgdir = refl;
        hits = refl;
        misses = refl;
        refs = refl;
      }

  -- The branch of `allocate_frame` in which the algorithm has picked a frame.
  evict_frame-Allocated :
      (d : Device F) (p f : ℕ) (m : Machine F P) (t : ℕ → Pte) (a : P)
      → IsConsistent m
      → (m.ptes p).valid ≡ false
      → f < m.memsize
      → (m.coremap f).in_use ≡ true
      → ((q : ℕ) → t q ≡ record (m.ptes q) { ref = (t q).ref })
      → (m2 : Machine F P) × (evict_frame d p f (record m { ptes = t; alg = a }) ≡ some m2)
        × Allocated p f m (occupy p f m2)
        × (m2.memsize ≡ m.memsize)
        × (m2.alg ≡ a)
        × (used (occupy p f m2) ≡ used m)
  evict_frame-Allocated d p f m t a c absent lt full same =
      let m1 : Machine F P = record m { ptes = t; alg = a } in
      let (victim, points, v, n) = c.links.holds f lt full in
      let (off, b, file, memory, clean, dirty, e, swap) =
        evict_frame-keeps d p f victim m1 c.swap points in
      (
        emptied victim off b file memory clean dirty m1,
        e,
        record {
          pending =
              occupy_evicted-Pending p f victim off
                (record (m.coremap f) { in_use = true; pte = some p })
                (evicts-Linked m t c.links same) lt full points
                (ap (λ e. e.valid) (same p) ∙ absent) refl refl;
          swap = swap;
          memsize = refl;
          pgdir = refl;
          hits = refl;
          misses = refl;
          refs = refl;
        },
        refl,
        refl,
        occupy-used p f m full,
      )

  -- A frame is found for a page that is not in memory, whether one is free or not.
  pub allocate_frame-Allocated :
      (d : Device F) (alg : Functions F P) (p : ℕ) (m : Machine F P) {Ready : Invariant P}
      {Fresh : ℕ → Invariant P} (policy : IsPolicy alg Ready Fresh)
      → IsConsistent m
      → Ready m.memsize m.alg (used m)
      → 0 < m.memsize
      → (m.ptes p).valid ≡ false
      → (f : ℕ) × (m' : Machine F P) × (allocate_frame d alg p m ≡ some (f, m'))
        × Allocated p f m m'
        × Fresh m'.memsize f m'.alg (used m')
  unfolding allocate_frame
  allocate_frame-Allocated d alg p m {Fresh = Fresh} policy c ready some_frame absent =
      elim (Option-cases (find_unused m.memsize 0 m.coremap)) [
        | inr (f, found) ↦
            let (lt, free) = find_unused-some m.memsize 0 m.coremap f found in
            (
              f,
              occupy p f m,
              rw (found, allocate_frame) refl,
              occupy_free-Allocated p f m c absent found,
              subst (Fresh m.memsize f m.alg) (sym (occupy_free-used p f m))
                  (policy.fills m.memsize f m.alg (used m) ready (omega (arith, lt)) free),
            )
        | inl none_free ↦
            let full = λ (g : ℕ) (lt : g < m.memsize).
              find_unused-none m.memsize 0 m.coremap none_free g (omega arith)
                (omega (arith, lt)) in
            let (f, t, a, picked, lt, same, fresh) = policy.evicts m c ready some_frame full in
            let (m2, e, done, size, state, held) =
              evict_frame-Allocated d p f m t a c absent lt (full f lt) same in
            (
              f,
              occupy p f m2,
              rw (none_free, picked, e, allocate_frame) refl,
              done,
              rw (size, state, held) fresh,
            )
      ]
