-- ===== src/Memory/PageTable/Resident.antt =====
-- `find_physpage` of A3/pagetable.c brings a page into memory and keeps the machine consistent.
use csc_369_operating_system.Common.{
  ℕ, ◌+◌, ◌/◌, ◌%◌, ◌<◌, ◌^◌, Bool, true, some, if◌then◌else◌, update, update_self, update-same,
  ◌≡◌, ◌⊎◌, fun_ext, refl, sym, ap, ◌∙◌, arith, subst,
}
use csc_369_operating_system.Memory.Machine.{Pte, Frame, Device, Machine, Functions}
use csc_369_operating_system.Memory.PageTable.Translate.{touch, page_of, find_physpage}
use csc_369_operating_system.Memory.PageTable.Promise.{IsConsistent, IsPolicy, Invariant, used}
use csc_369_operating_system.Memory.PageTable.Arrival.{
  Touchable, open_table-IsConsistent, make_resident-Touchable,
}

module _ {F P : Type 0} where
  -- What `find_physpage` has done for a page, when it returns frame `f`.
  pub record Translated (vaddr : ℕ) (write : Bool) (m : Machine F P) (f : ℕ) (m' : Machine F P)
      : Type 0 where
    pub consistent : IsConsistent m'
    pub in_range : f < m.memsize
    pub valid : (m'.ptes (page_of vaddr)).valid ≡ true
    pub named : (m'.ptes (page_of vaddr)).number ≡ f
    pub points : (m'.coremap f).pte ≡ some (page_of vaddr)
    pub referenced : (m'.ptes (page_of vaddr)).ref ≡ true
    pub written : write ≡ true → (m'.ptes (page_of vaddr)).dirty ≡ true
    pub address : (m'.coremap f).vaddr ≡ vaddr
    pub memsize : m'.memsize ≡ m.memsize
    pub counted : m'.ref_count ≡ m.ref_count + 1

  pub touch-IsConsistent :
      (p vaddr : ℕ) (write : Bool) (m x : Machine F P)
      → IsConsistent m
      → Touchable p m x
      → IsConsistent (touch p vaddr write x)
  unfolding touch
  touch-IsConsistent p vaddr write m x c r = record {
    links = r.links vaddr write;
    swap = r.swap;
    small = rw r.memsize c.small;
    counted = r.counted;
  }

  touch-Translated :
      (vaddr : ℕ) (write : Bool) (m m1 x : Machine F P) (a : P)
      → IsConsistent m1
      → m1.memsize ≡ m.memsize
      → m1.ref_count ≡ m.ref_count
      → Touchable (page_of vaddr) m1 x
      → Translated vaddr write m
          ((touch (page_of vaddr) vaddr write x).ptes (page_of vaddr)).number
          (record (touch (page_of vaddr) vaddr write x) { alg = a })
  unfolding touch
  touch-Translated vaddr write m m1 x a c size refs r =
      let p = page_of vaddr in
      let e : Pte = record (x.ptes p) {
        valid = true;
        ref = true;
        dirty = (if write then true else (x.ptes p).dirty);
      } in
      let n = (x.ptes p).number in
      let frame : Frame = record (x.coremap n) { vaddr = vaddr } in
      let now = update_self x.ptes p e in
      let l = r.links vaddr write in
      let valid = ap (λ c. c.valid) now in
      let after = touch-IsConsistent p vaddr write m1 x c r in
      record {
        consistent = record {
          links = after.links;
          swap = after.swap;
          small = after.small;
          counted = after.counted;
        };
        in_range =
            subst (λ k. (update x.ptes p e p).number < k) (r.memsize ∙ size) (l.below p valid);
        valid = valid;
        named = refl;
        points = l.back p valid;
        referenced = ap (λ c. c.ref) now;
        written = λ w. ap (λ c. c.dirty) now ∙ rw w refl;
        address =
            subst (λ k. (update x.coremap n frame k).vaddr ≡ vaddr) (sym (ap (λ c. c.number) now))
              (ap (λ c. c.vaddr) (update_self x.coremap n frame));
        memsize = r.memsize ∙ size;
        counted = ap (λ k. k + 1) (r.refs ∙ refs);
      }

  touch-used :
      (p vaddr : ℕ) (write : Bool) (x : Machine F P) → used (touch p vaddr write x) ≡ used x
  unfolding touch
  touch-used p vaddr write x =
      let n = (x.ptes p).number in
      fun_ext
        λ f. update-same (λ c. c.in_use) x.coremap n (record (x.coremap n) { vaddr = vaddr }) f refl

  -- The replacement algorithm is told of the page.
  pub touch-refers :
      (alg : Functions F P) (p vaddr : ℕ) (write : Bool) (x : Machine F P) {Ready : Invariant P}
      {Fresh : ℕ → Invariant P} (policy : IsPolicy alg Ready Fresh)
      → IsConsistent (touch p vaddr write x)
      → Ready x.memsize x.alg (used x) ⊎ Fresh x.memsize (x.ptes p).number x.alg (used x)
      → (a : P) × (alg.ref p (touch p vaddr write x)
          ≡ some (record (touch p vaddr write x) { alg = a }))
        × Ready (touch p vaddr write x).memsize a (used (touch p vaddr write x))
  unfolding touch
  touch-refers alg p vaddr write x policy c ready =
      let e : Pte = record (x.ptes p) {
        valid = true;
        ref = true;
        dirty = (if write then true else (x.ptes p).dirty);
      } in
      let now = update_self x.ptes p e in
      policy.refers p (touch p vaddr write x) c (ap (λ c. c.valid) now)
        (rw (touch-used p vaddr write x, ap (λ c. c.number) now) ready)

  -- On a consistent machine with at least one frame, and for an address of 36 bits, `find_physpage`
  -- takes no fault, for any replacement algorithm that keeps its promises and is ready for them, and
  -- any swap file. It returns the frame that then holds the page: the page's entry is valid,
  -- referenced, dirty after a write, and names the frame, which points back at the page and has its
  -- address. The machine is consistent again, the algorithm is ready again, and one more reference
  -- is counted.
  pub find_physpage-Translated :
      (d : Device F) (alg : Functions F P) (vaddr : ℕ) (write : Bool) (m : Machine F P)
      {Ready : Invariant P} {Fresh : ℕ → Invariant P} (policy : IsPolicy alg Ready Fresh)
      → IsConsistent m
      → Ready m.memsize m.alg (used m)
      → 0 < m.memsize
      → vaddr < 2 ^ 36
      → (f : ℕ) × (m' : Machine F P) × (find_physpage d alg vaddr write m ≡ some (f, m'))
        × Translated vaddr write m f m'
        × Ready m'.memsize m'.alg (used m')
  unfolding find_physpage
  find_physpage-Translated d alg vaddr write m policy c ready some_frame short =
      let idx = vaddr / 2 ^ 24 % 2 ^ 32 in
      let p = page_of vaddr in
      let top : p / 4096 ≡ idx = omega arith in
      let (m1, e1, c1, opened, size, refs, state, held) =
        open_table-IsConsistent idx m c (omega (arith, short)) in
      let (m2, e2, r, ready2) =
        make_resident-Touchable d alg p vaddr m1 policy c1 (rw (size, state, held) ready)
          (rw size some_frame) (ap (λ i. m1.pgdir i) top ∙ opened) in
      let (a, e3, ready3) =
        touch-refers alg p vaddr write m2 policy (touch-IsConsistent p vaddr write m1 m2 c1 r)
          ready2 in
      let m3 = touch p vaddr write m2 in
      (
        (m3.ptes p).number,
        record m3 { alg = a },
        rw (e1, e2, e3, find_physpage) refl,
        touch-Translated vaddr write m m1 m2 a c1 size refs r,
        ready3,
      )
