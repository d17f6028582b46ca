-- ===== src/Memory/PageTable/Arrival.antt =====
-- How a page comes into memory in A3/pagetable.c, up to the end of `find_physpage`.
use csc_369_operating_system.Common.{
  ℕ, ◌+◌, ◌/◌, ◌%◌, ◌<◌, ◌^◌, Bool, true, false, some, if◌then◌else◌, ◌==◌, update, update_self,
  update-same, ◌≡◌, ◌⊎◌, refl, sym, ap, ◌∙◌, arith, inl, inr, Bool-cases, subst, lt→ltb,
}
use csc_369_operating_system.Memory.Bitmap.Alloc.{IsValid}
use csc_369_operating_system.Memory.Machine.{Page, Pte, Frame, Device, Machine, Functions}
use csc_369_operating_system.Memory.PageTable.Translate.{
  open_table, init_second_level, init_frame, make_resident, touch, place,
}
use csc_369_operating_system.Memory.PageTable.Links.{
  Linked, Pending, open-Linked, entries-Linked, frames-Linked, finish-Linked,
}
use csc_369_operating_system.Memory.PageTable.Promise.{IsConsistent, IsPolicy, Invariant, used}
use csc_369_operating_system.Memory.PageTable.Allocate.{Allocated, allocate_frame-Allocated}

module _ {F P : Type 0} where
  pub open_table-IsConsistent :
      (idx : ℕ) (m : Machine F P)
      → IsConsistent m
      → idx < 4096
      → (x : Machine F P) × (open_table idx m ≡ some x)
        × IsConsistent x
        × (x.pgdir idx ≡ true)
        × (x.memsize ≡ m.memsize)
        × (x.ref_count ≡ m.ref_count)
        × (x.alg ≡ m.alg)
        × (used x ≡ used m)
  unfolding open_table init_second_level
  open_table-IsConsistent idx m c lt = elim (Bool-cases (m.pgdir idx)) [
    | inl valid ↦
        (m, rw (lt→ltb idx 4096 lt, valid, open_table) refl, c, valid, refl, refl, refl, refl)
    | inr closed ↦ (
      init_second_level idx m,
      rw (lt→ltb idx 4096 lt, closed, open_table) refl,
      record {
        links = open-Linked idx c.links closed;
        swap = c.swap;
        small = c.small;
        counted = c.counted;
      },
      update_self m.pgdir idx true,
      refl,
      refl,
      refl,
      refl,
    )
  ]

  -- The page is about to be touched, after which all is linked.
  pub record Touchable (p : ℕ) (m x : Machine F P) : Type 0 where
    pub links :
        (vaddr : ℕ) (write : Bool)
        → Linked x.memsize (touch p vaddr write x).coremap (touch p vaddr write x).ptes x.pgdir
    pub swap : IsValid x.swapmap
    pub memsize : x.memsize ≡ m.memsize
    pub counted : x.hit_count + x.miss_count ≡ x.ref_count + 1
    pub refs : x.ref_count ≡ m.ref_count

  -- A page in memory keeps its links when it is touched.
  touch-Linked :
      (p vaddr : ℕ) (write : Bool) (x : Machine F P)
      → Linked x.memsize x.coremap x.ptes x.pgdir
      → (x.ptes p).valid ≡ true
      → Linked x.memsize (touch p vaddr write x).coremap (touch p vaddr write x).ptes x.pgdir
  unfolding touch
  touch-Linked p vaddr write x l valid =
      entries-Linked (touch p vaddr write x).ptes
        (frames-Linked (touch p vaddr write x).coremap l λ f.
          let n = (x.ptes p).number in
          let frame : Frame = record (x.coremap n) { vaddr = vaddr } in
          (
            update-same (λ c. c.in_use) x.coremap n frame f refl,
            update-same (λ c. c.pte) x.coremap n frame f refl,
          ))
        (λ q.
          let e : Pte = record (x.ptes p) {
            valid = true;
            ref = true;
            dirty = (if write then true else (x.ptes p).dirty);
          } in
          (
            update-same (λ c. c.valid) x.ptes p e q (sym valid),
            update-same (λ c. c.number) x.ptes p e q refl,
            update-same (λ c. c.onswap) x.ptes p e q refl,
          ))

  -- So does a page whose frame has just been allocated.
  touch_new-Linked :
      (p f vaddr : ℕ) (write : Bool) (t : ℕ → Pte) (x : Machine F P)
      → Pending p f x.memsize x.coremap t x.pgdir
      → x.pgdir (p / 4096) ≡ true
      → (x.ptes p).number ≡ f
      → (x.ptes p).onswap ≡ false
      → ((q : ℕ) → (p == q) ≡ false → x.ptes q ≡ t q)
      → Linked x.memsize (touch p vaddr write x).coremap (touch p vaddr write x).ptes x.pgdir
  unfolding touch
  touch_new-Linked p f vaddr write t x l opened named present same =
      let e : Pte = record (x.ptes p) {
        valid = true;
        ref = true;
        dirty = (if write then true else (x.ptes p).dirty);
      } in
      let done =
        finish-Linked p f e (record (x.coremap f) { vaddr = vaddr }) l opened refl present named
          l.used l.mine in
      entries-Linked (touch p vaddr write x).ptes
        (subst
          (λ n.
            Linked x.memsize (update x.coremap n (record (x.coremap n) { vaddr = vaddr }))
              (update t p e) x.pgdir)
          (sym named) done)
        (λ q. elim (Bool-cases (p == q)) [
          | inl h ↦ (rw h refl, rw h refl, rw h refl)
          | inr h ↦ rw h (
            ap (λ c. c.valid) (same q h),
            ap (λ c. c.number) (same q h),
            ap (λ c. c.onswap) (same q h),
          )
        ])

  -- The two cases in which a frame is allocated, with the page's new entry.
  miss-Touchable :
      (p f : ℕ) (m m' : Machine F P) (e : Pte) (memory : ℕ → Page)
      → IsConsistent m
      → m.pgdir (p / 4096) ≡ true
      → Allocated p f m m'
      → e.number ≡ f
      → e.onswap ≡ false
      → Touchable p m (record m' {
        ptes = update m'.ptes p e;
        physmem = memory;
        miss_count = m'.miss_count + 1;
      })
  miss-Touchable p f m m' e memory c opened a named present = record {
    links = λ vaddr write.
        touch_new-Linked p f vaddr write m'.ptes
          (record m' {
            ptes = update m'.ptes p e;
            physmem = memory;
            miss_count = m'.miss_count + 1;
          })
          a.pending (ap (λ g. g (p / 4096)) a.pgdir ∙ opened)
          (ap (λ c. c.number) (update_self m'.ptes p e) ∙ named)
          (ap (λ c. c.onswap) (update_self m'.ptes p e) ∙ present) (λ q h. rw h refl);
    swap = a.swap;
    memsize = a.memsize;
    counted = omega (arith, a.hits, a.misses, a.refs, c.counted);
    refs = a.refs;
  }

  pub make_resident-Touchable :
      (d : Device F) (alg : Functions F P) (p vaddr : ℕ) (m : Machine F P) {Ready : Invariant P}
      {Fresh : ℕ → Invariant P} (policy : IsPolicy alg Ready Fresh)
      → IsConsistent m
      → Ready m.memsize m.alg (used m)
      → 0 < m.memsize
      → m.pgdir (p / 4096) ≡ true
      → (x : Machine F P) × (make_resident d alg p vaddr m ≡ some x)
        × Touchable p m x
        × (Ready x.memsize x.alg (used x) ⊎ Fresh x.memsize (x.ptes p).number x.alg (used x))
  unfolding make_resident init_frame
  make_resident-Touchable d alg p vaddr m {Fresh = Fresh} policy c ready some_frame opened =
      elim (Bool-cases (m.ptes p).valid) [
        | inl valid ↦
            let present = c.links.present p valid in
            (
              record m { hit_count = m.hit_count + 1 },
              rw (valid, present, make_resident) refl,
              record {
                links = λ vaddr write.
                    touch-Linked p vaddr write (record m { hit_count = m.hit_count + 1 }) c.links
                      valid;
                swap = c.swap;
                memsize = refl;
                counted = omega (arith, c.counted);
                refs = refl;
              },
              inl ready,
            )
        | inr absent ↦
            let (f, m', e, a, new) =
              allocate_frame-Allocated d alg p m policy c ready some_frame absent in
            let fits : f % 2 ^ 20 ≡ f = omega (arith, a.pending.lt, a.memsize, c.small) in
            let named = λ (e : Pte) (n : e.number ≡ f).
              subst (λ k. Fresh m'.memsize k m'.alg (used m'))
                (sym (ap (λ x. x.number) (update_self m'.ptes p e) ∙ n)) new in
            elim (Bool-cases (m.ptes p).onswap) [
              | inl swapped ↦ (
                _,
                rw (absent, swapped, e, make_resident) refl,
                miss-Touchable p f m m' (place f (m'.ptes p)) m'.physmem c opened a fits refl,
                inr (named (place f (m'.ptes p)) fits),
              )
              | inr fresh ↦ (
                _,
                rw (absent, fresh, e, make_resident) refl,
                miss-Touchable p f m m' (record (place f (m'.ptes p)) { dirty = true })
                    (init_frame f vaddr m').physmem c opened a fits refl,
                inr (named (record (place f (m'.ptes p)) { dirty = true }) fits),
              )
            ]
      ]
