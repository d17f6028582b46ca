-- ===== src/Memory/Cache/Given.antt =====
-- `allocate_frame` of A3/pagetable.c with A3/lru.c gives a page the frame of the least recently used
-- one, if no frame is free.
use csc_369_operating_system.Common.{
  ℕ, ◌<◌, ◌≤◌, true, false, List, [], ◌∷◌, none, some, ◌==◌, update, length, ◌≡◌, refl, ap, arith,
  inl, inr, Bool-cases, Option-cases, eq-false, subst, update_self, ◌++◌,
}
use csc_369_operating_system.Memory.Machine.{Frame, Device, Machine}
use csc_369_operating_system.Memory.PageTable.Translate.{
  find_unused, occupy, evict_frame, allocate_frame,
}
use csc_369_operating_system.Memory.PageTable.Promise.{IsConsistent, used}
use csc_369_operating_system.Memory.PageTable.Transfer.{
  find_unused-some, find_unused-none, evict_frame-keeps, emptied,
}
use csc_369_operating_system.Memory.Policy.Queue.{Absent, IsDistinct}
use csc_369_operating_system.Memory.Policy.Lru.{Lru, lru, lru_evict}
use csc_369_operating_system.Memory.Policy.Order.{Represents}
use csc_369_operating_system.Memory.Policy.Reference.{unlink_bottom-Represents}
use csc_369_operating_system.Memory.Policy.Usage.{Covers}
use csc_369_operating_system.Memory.Policy.Recent.{two-Covers}
use csc_369_operating_system.Memory.Cache.{holds, accessed, drop_oldest}
use csc_369_operating_system.Memory.Cache.Pairs.{
  Paired, Paired-length, Paired-frame, Paired-holds, Paired-agree,
}
use csc_369_operating_system.Memory.Cache.Full.{Covers-full, Covers-short}

-- A frame outside the order is occupied.
occupied-Paired :
    (p f : ℕ) (coremap : ℕ → Frame) (frame : Frame) (order pages : List ℕ)
    → Paired coremap order pages
    → Absent f order
    → Paired (update coremap f frame) order pages
occupied-Paired p f coremap frame order pages r absent =
    Paired-agree coremap (update coremap f frame) order pages r λ g there.
      let ne : (f == g) ≡ false =
        eq-false f g (λ same. there (subst (λ x. Absent x order) same absent)) in
      rw ne refl

Paired-drop :
    (coremap : ℕ → Frame) (a : ℕ) (order cache : List ℕ)
    → Paired coremap (a ∷ order) cache
    → Paired coremap order (drop_oldest cache)
unfolding Paired
Paired-drop coremap a order [] r = absurd r
Paired-drop coremap a order (p ∷ cache) r = r.1

module _ {F : Type 0} where
  -- The frames in the order of use hold the pages of the cache.
  pub record Cached (m : Machine F Lru) (cache : List ℕ) : Type 0 where
    pub order : List ℕ
    pub represents : Represents m.alg order
    pub covers : Covers m.memsize order (used m) none
    pub paired : Paired m.coremap order cache

  -- A page has been given a frame that is not in the order yet.
  pub record Given (p f : ℕ) (m m' : Machine F Lru) (cache : List ℕ) : Type 0 where
    pub order : List ℕ
    pub pages : List ℕ
    pub represents : Represents m'.alg order
    pub absent : Absent f order
    pub paired : Paired m'.coremap order pages
    pub mine : (m'.coremap f).pte ≡ some p
    pub lt : f < m.memsize
    pub becomes : accessed m.memsize p cache ≡ pages ++ (p ∷ [])
    pub hits : m'.hit_count ≡ m.hit_count

  -- A page is in memory if and only if it is in the cache.
  pub valid-holds :
      (p : ℕ) (m : Machine F Lru) (cache : List ℕ)
      → IsConsistent m
      → Cached m cache
      → (m.ptes p).valid ≡ true
      → holds p cache ≡ true
  valid-holds p m cache c k valid =
      Paired-holds m.coremap p (m.ptes p).number k.order cache k.paired
        (k.covers.all (m.ptes p).number (c.links.below p valid) (c.links.taken p valid)
          (λ e. ground (arith, e)))
        (c.links.back p valid)

  holds-valid :
      (p : ℕ) (m : Machine F Lru) (cache : List ℕ)
      → IsConsistent m
      → Cached m cache
      → holds p cache ≡ true
      → (m.ptes p).valid ≡ true
  holds-valid p m cache c k h =
      let (f, there, points) = Paired-frame m.coremap p k.order cache k.paired h in
      elim (k.covers.below f) [
        | inl absent ↦ absurd (there absent)
        | inr (lt, has) ↦
            let (q, points', valid, named) = c.links.holds f lt has in
            let same : q ≡ p = ground (arith, points, points') in
            subst (λ x. (m.ptes x).valid ≡ true) same valid
      ]

  pub absent-holds :
      (p : ℕ) (m : Machine F Lru) (cache : List ℕ)
      → IsConsistent m
      → Cached m cache
      → (m.ptes p).valid ≡ false
      → holds p cache ≡ false
  absent-holds p m cache c k absent = elim (Bool-cases (holds p cache)) [
    | inl h ↦ absurd (ground (arith, holds-valid p m cache c k h, absent))
    | inr h ↦ h
  ]

  occupy_free-Given :
      (p f : ℕ) (m : Machine F Lru) (cache : List ℕ)
      → IsConsistent m
      → Cached m cache
      → (m.ptes p).valid ≡ false
      → f < m.memsize
      → (m.coremap f).in_use ≡ false
      → Given p f m (occupy p f m) cache
  occupy_free-Given p f m cache c k absent lt free =
      let frame : Frame = record (m.coremap f) { in_use = true; pte = some p } in
      let outside : Absent f k.order = elim (k.covers.below f) [
        | inl out ↦ out
        | inr (small, has) ↦ absurd (ground (arith, free, has))
      ] in
      let short =
        Covers-short m.memsize f k.order (used m) k.covers k.represents.distinct lt free in
      let some_left : (length cache == m.memsize) ≡ false =
        eq-false (length cache) m.memsize
          (λ same. omega (arith, same, short, Paired-length m.coremap k.order cache k.paired)) in
      record {
        order = k.order;
        pages = cache;
        represents = k.represents;
        absent = outside;
        paired = occupied-Paired p f m.coremap frame k.order cache k.paired outside;
        mine = ap (λ x. x.pte) (update_self m.coremap f frame);
        lt = lt;
        becomes = rw (absent-holds p m cache c k absent, some_left) refl;
        hits = refl;
      }

  -- The least recently used frame is taken from its page.
  evict-Given :
      (d : Device F) (p : ℕ) (m : Machine F Lru) (cache : List ℕ)
      → IsConsistent m
      → 2 ≤ m.memsize
      → Cached m cache
      → (m.ptes p).valid ≡ false
      → ((f : ℕ) → f < m.memsize → (m.coremap f).in_use ≡ true)
      → (f : ℕ) × (m1 m2 : Machine F Lru) × (lru_evict m ≡ some (f, m1))
        × (evict_frame d p f m1 ≡ some m2)
        × Given p f m (occupy p f m2) cache
  unfolding lru_evict IsDistinct Absent
  evict-Given d p m cache c several k absent full =
      let (a, b, r, long) =
        two-Covers m.memsize k.order (used m) several k.covers (full 0 (omega (arith, several)))
          (full 1 (omega (arith, several))) in
      let rep = subst (Represents m.alg) long k.represents in
      let (s, e, rep') = unlink_bottom-Represents m.alg a b r rep in
      let inside : (a < m.memsize) × ((m.coremap a).in_use ≡ true) =
        elim ((subst (λ q. Covers m.memsize q (used m) none) long k.covers).below a) [
          | inl out ↦ absurd (out.0 refl)
          | inr has ↦ has
        ] in
      let (v, points, valid, named) = c.links.holds a inside.0 inside.1 in
      let m1 : Machine F Lru = record m { alg = s } in
      let (off, bits, file, memory, clean, dirty, done, swap) =
        evict_frame-keeps d p a v m1 c.swap points in
      let frame : Frame = record (m.coremap a) { in_use = true; pte = some p } in
      let filled : (length cache == m.memsize) ≡ true =
        let size = Covers-full m.memsize k.order (used m) k.covers k.represents.distinct full in
        let same : length cache ≡ m.memsize =
          omega (arith, size, Paired-length m.coremap k.order cache k.paired) in
        ground (arith, same) in
      (
        a,
        m1,
        emptied v off bits file memory clean dirty m1,
        rw (e, points, named, lru_evict) refl,
        done,
        record {
          order = b ∷ r;
          pages = drop_oldest cache;
          represents = rep';
          absent = rep.distinct.0;
          paired =
              occupied-Paired p a m.coremap frame (b ∷ r) (drop_oldest cache)
                (Paired-drop m.coremap a (b ∷ r) cache
                  (subst (λ q. Paired m.coremap q cache) long k.paired))
                rep.distinct.0;
          mine = ap (λ x. x.pte) (update_self m.coremap a frame);
          lt = inside.0;
          becomes = rw (absent-holds p m cache c k absent, filled) refl;
          hits = refl;
        },
      )

  pub allocate_frame-Given :
      (d : Device F) (p : ℕ) (m : Machine F Lru) (cache : List ℕ)
      → IsConsistent m
      → 2 ≤ m.memsize
      → Cached m cache
      → (m.ptes p).valid ≡ false
      → (f : ℕ) × (m' : Machine F Lru) × (allocate_frame d lru p m ≡ some (f, m'))
        × Given p f m m' cache
  unfolding allocate_frame
  allocate_frame-Given d p m cache c several k absent =
      elim (Option-cases (find_unused m.memsize 0 m.coremap)) [
        | inr (f, found) ↦
            let (lt, free) = find_unused-some m.memsize 0 m.coremap f found in
            (
              f,
              occupy p f m,
              rw (found, allocate_frame) refl,
              occupy_free-Given p f m cache c k absent (omega (arith, lt)) free,
            )
        | inl none_free ↦
            let full = λ (g : ℕ) (lt : g < m.memsize).
              find_unused-none m.memsize 0 m.coremap none_free g (omega arith)
                (omega (arith, lt)) in
            let (f, m1, m2, picked, e, given) = evict-Given d p m cache c several k absent full in
            (f, occupy p f m2, rw (none_free, picked, e, allocate_frame) refl, given)
      ]
