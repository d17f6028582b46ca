-- ===== src/Memory/PageTable/Promise.antt =====
-- What `find_physpage` of A3/pagetable.c keeps, and what it needs of a replacement algorithm.
use csc_369_operating_system.Common.{
  ℕ, ◌+◌, ◌<◌, ◌≤◌, ◌^◌, true, false, some, update, ◌≡◌, Bool, ◌⊎◌,
}
use csc_369_operating_system.Memory.Bitmap.Alloc.{IsValid}
use csc_369_operating_system.Memory.Machine.{Pte, Machine, Functions}
use csc_369_operating_system.Memory.PageTable.Links.{Linked}

-- An invariant of the state of a replacement algorithm, for a size of memory and the frames in use.
abbrev pub Invariant : Type 0 → Type 1
Invariant P = ℕ → P → (ℕ → Bool) → Type 0

module _ {F P : Type 0} where
  -- The machine keeps its links and its swap map; every reference is a hit or a miss.
  pub record IsConsistent (m : Machine F P) : Type 0 where
    pub links : Linked m.memsize m.coremap m.ptes m.pgdir
    pub swap : IsValid m.swapmap
    pub small : m.memsize ≤ 2 ^ 20
    pub counted : m.hit_count + m.miss_count ≡ m.ref_count

  -- The frames in use.
  abbrev pub used : Machine F P → ℕ → Bool
  used m f = (m.coremap f).in_use

  -- What a replacement algorithm promises, with two invariants of its state: `Ready`, and `Fresh`
  -- while a frame has been given to a page and is not referenced yet. When all frames are in use, it
  -- returns a frame of the memory, and changes at most its own state and reference bits. On a
  -- reference to a page in memory it changes at most its own state.
  pub record IsPolicy (alg : Functions F P) (Ready : Invariant P) (Fresh : ℕ → Invariant P)
      : Type 0 where
    pub evicts :
        (m : Machine F P)
        → IsConsistent m
        → Ready m.memsize m.alg (used m)
        → 0 < m.memsize
        → ((f : ℕ) → f < m.memsize → (m.coremap f).in_use ≡ true)
        → (f : ℕ) × (t : ℕ → Pte) × (a : P) × (alg.evict m
            ≡ some (f, record m { ptes = t; alg = a }))
          × (f < m.memsize)
          × ((p : ℕ) → t p ≡ record (m.ptes p) { ref = (t p).ref })
          × Fresh m.memsize f a (used m)
    pub fills :
        (n f : ℕ) (a : P) (in_use : ℕ → Bool)
        → Ready n a in_use
        → f < n
        → in_use f ≡ false
        → Fresh n f a (update in_use f true)
    pub refers :
        (p : ℕ) (m : Machine F P)
        → IsConsistent m
        → (m.ptes p).valid ≡ true
        → Ready m.memsize m.alg (used m) ⊎ Fresh m.memsize (m.ptes p).number m.alg (used m)
        → (a : P) × (alg.ref p m ≡ some (record m { alg = a })) × Ready m.memsize a (used m)
