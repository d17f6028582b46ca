-- ===== src/Memory/Content/Arrive.antt =====
-- `allocate_frame` and `find_physpage` of A3/pagetable.c keep the contents of all pages.
use csc_369_operating_system.Common.{
  ℕ, ◌<◌, true, false, List, Option, some, ◌≡◌, refl, ap, ◌∙◌, arith, inl, inr, Option-cases, subst,
}
use csc_369_operating_system.Memory.Machine.{Page, Pte, Device, Machine, Functions}
use csc_369_operating_system.Memory.PageTable.Translate.{occupy, allocate_frame, find_unused}
use csc_369_operating_system.Memory.PageTable.Links.{entries-Linked}
use csc_369_operating_system.Memory.PageTable.Promise.{IsConsistent, IsPolicy, Invariant, used}
use csc_369_operating_system.Memory.PageTable.Transfer.{find_unused-some, find_unused-none}
use csc_369_operating_system.Memory.Content.{IsReliable, Stored}
use csc_369_operating_system.Memory.Content.Settle.{flags-Stored}
use csc_369_operating_system.Memory.Content.Evict.{Waiting, evict_frame-Waiting}

module _ {F P : Type 0} where
  -- Reference bits and the state of the algorithm do not matter.
  evicts-IsConsistent :
      (m : Machine F P) (t : ℕ → Pte) (a : P)
      → IsConsistent m
      → ((q : ℕ) → t q ≡ record (m.ptes q) { ref = (t q).ref })
      → IsConsistent (record m { ptes = t; alg = a })
  evicts-IsConsistent m t a c same = record {
    links =
        entries-Linked t c.links λ q.
          (ap (λ e. e.valid) (same q), ap (λ e. e.number) (same q), ap (λ e. e.onswap) (same q));
    swap = c.swap;
    small = c.small;
    counted = c.counted;
  }

  occupy_free-Waiting :
      (get : F → ℕ → Option Page) (p f : ℕ) (pages : List ℕ) (m : Machine F P)
      (mem : ℕ → Option Page)
      → IsConsistent m
      → Stored get pages m mem
      → (m.ptes p).valid ≡ false
      → f < m.memsize
      → (m.coremap f).in_use ≡ false
      → Waiting get pages p f (occupy p f m) mem
  occupy_free-Waiting get p f pages m mem c s absent lt free = record {
    old = m.physmem;
    kept = s.kept;
    agree = λ g ne. refl;
    apart = λ q h n.
        ground (arith, subst (λ g. (m.coremap g).in_use ≡ true) n (c.links.taken q h), free);
    absent = absent;
    mine = λ o. absurd (ground (arith, s.crowded p absent o f lt, free));
    placed = s.placed;
    slots = s.slots;
    crowded = λ q h o g below. absurd (ground (arith, s.crowded q h o f lt, free));
    known = s.known;
    closed = s.closed;
  }

  pub allocate_frame-Waiting :
      (d : Device F) (get : F → ℕ → Option Page) (alg : Functions F P) (p : ℕ) (pages : List ℕ)
      (m : Machine F P) (mem : ℕ → Option Page) {Ready : Invariant P} {Fresh : ℕ → Invariant P}
      (policy : IsPolicy alg Ready Fresh)
      → IsReliable d get
      → IsConsistent m
      → Ready m.memsize m.alg (used m)
      → 0 < m.memsize
      → Stored get pages m mem
      → (m.ptes p).valid ≡ false
      → (f : ℕ) × (m' : Machine F P) × (allocate_frame d alg p m ≡ some (f, m'))
        × (f < m.memsize)
        × ((m'.ptes p).onswap ≡ (m.ptes p).onswap)
        × Waiting get pages p f m' mem
  unfolding allocate_frame
  allocate_frame-Waiting d get alg p pages m mem policy reliable c ready some_frame s absent =
      elim (Option-cases (find_unused m.memsize 0 m.coremap)) [
        | inr (f, found) ↦
            let (lt, free) = find_unused-some m.memsize 0 m.coremap f found in
            (
              f,
              occupy p f m,
              rw (found, allocate_frame) refl,
              omega (arith, lt),
              refl,
              occupy_free-Waiting get p f pages m mem c s absent (omega (arith, lt)) free,
            )
        | inl none_free ↦
            let full = λ (g : ℕ) (lt : g < m.memsize).
              find_unused-none m.memsize 0 m.coremap none_free g (omega arith)
                (omega (arith, lt)) in
            let (f, t, a, picked, lt, same, fresh) = policy.evicts m c ready some_frame full in
            let m1 : Machine F P = record m { ptes = t; alg = a } in
            let c1 = evicts-IsConsistent m t a c same in
            let (v, points, valid, named) = c1.links.holds f lt (full f lt) in
            let (m2, e, back, w) =
              evict_frame-Waiting d get p f v pages m1 mem reliable c1
                (flags-Stored get pages m mem t m.coremap m.hit_count m.ref_count a s
                  (λ q. (
                    ap (λ e. e.valid) (same q),
                    ap (λ e. e.number) (same q),
                    ap (λ e. e.onswap) (same q),
                    ap (λ e. e.swap_off) (same q),
                  ))
                  (λ g. refl))
                (ap (λ e. e.valid) (same p) ∙ absent) full points valid named in
            (
              f,
              occupy p f m2,
              rw (none_free, picked, e, allocate_frame) refl,
              lt,
              back ∙ ap (λ x. x.onswap) (same p),
              w,
            )
      ]
