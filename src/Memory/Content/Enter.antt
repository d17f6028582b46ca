-- ===== src/Memory/Content/Enter.antt =====
-- `find_physpage` of A3/pagetable.c returns a frame with the contents of the page, and keeps those of
-- all others.
use csc_369_operating_system.Common.{
  ℕ, ◌+◌, ◌/◌, ◌%◌, ◌^◌, ◌<◌, Bool, true, false, List, Option, some, if◌then◌else◌, update, ◌≡◌,
  ◌≢◌, refl, sym, ap, ◌∙◌, arith, inl, inr, Bool-cases, eq-false, subst, fun_ext, update_self,
  update-same,
}
use csc_369_operating_system.Memory.Machine.{Page, Pte, Frame, Device, Machine, Functions}
use csc_369_operating_system.Memory.PageTable.Translate.{
  place, touch, init_frame, make_resident, page_of, find_physpage,
}
use csc_369_operating_system.Memory.PageTable.Promise.{IsConsistent, IsPolicy, Invariant, used}
use csc_369_operating_system.Memory.PageTable.Arrival.{
  open_table-IsConsistent, make_resident-Touchable,
}
use csc_369_operating_system.Memory.PageTable.Resident.{touch-IsConsistent, touch-refers}
use csc_369_operating_system.Memory.Policy.Queue.{Absent}
use csc_369_operating_system.Memory.Content.{IsReliable, Stored, first_content}
use csc_369_operating_system.Memory.Content.Evict.{Waiting}
use csc_369_operating_system.Memory.Content.Settle.{flags-Stored, settled-Stored, open_table-Stored}
use csc_369_operating_system.Memory.Content.Arrive.{allocate_frame-Waiting}

module _ {F P : Type 0} where
  -- What `touch` leaves once the page is in memory, and the frame's contents before it.
  record Entered (get : F → ℕ → Option Page) (pages : List ℕ) (p vaddr : ℕ) (x : Machine F P)
      (mem : ℕ → Option Page) : Type 0 where
    stored :
        (write : Bool)
        → Stored get pages
            (touch p vaddr write x)
            (update mem p (some (first_content vaddr (mem p))))
    content : x.physmem (x.ptes p).number ≡ first_content vaddr (mem p)

  hit-Entered :
      (get : F → ℕ → Option Page) (pages : List ℕ) (p vaddr : ℕ) (m : Machine F P)
      (mem : ℕ → Option Page)
      → Stored get pages m mem
      → (m.ptes p).valid ≡ true
      → Entered get pages p vaddr (record m { hit_count = m.hit_count + 1 }) mem
  unfolding touch
  hit-Entered get pages p vaddr m mem s valid =
      let here = (s.kept p).resident valid in
      let known : first_content vaddr (mem p) ≡ m.physmem (m.ptes p).number = rw here refl in
      let same : mem ≡ update mem p (some (first_content vaddr (mem p))) = sym (
        fun_ext λ q.
          update-same (λ x. x) mem p (some (first_content vaddr (mem p))) q
            (ap some known ∙ sym here)) in
      record {
        stored = λ write.
            let e : Pte = record (m.ptes p) {
              valid = true;
              ref = true;
              dirty = (if write then true else (m.ptes p).dirty);
            } in
            let n = (m.ptes p).number in
            let frame : Frame = record (m.coremap n) { vaddr = vaddr } in
            subst
              (λ g.
                Stored get pages (touch p vaddr write (record m { hit_count = m.hit_count + 1 })) g)
              same
              (flags-Stored get pages m mem (update m.ptes p e) (update m.coremap n frame)
                (m.hit_count + 1) (m.ref_count + 1) m.alg s
                (λ q. (
                  update-same (λ c. c.valid) m.ptes p e q (sym valid),
                  update-same (λ c. c.number) m.ptes p e q refl,
                  update-same (λ c. c.onswap) m.ptes p e q refl,
                  update-same (λ c. c.swap_off) m.ptes p e q refl,
                ))
                (λ g. update-same (λ c. c.in_use) m.coremap n frame g refl));
        content = sym known;
      }

  miss-Entered :
      (get : F → ℕ → Option Page) (pages : List ℕ) (p f vaddr : ℕ) (m : Machine F P)
      (mem : ℕ → Option Page) (e : Pte) (memory : ℕ → Page)
      → Waiting get pages p f m mem
      → e.number ≡ f
      → e.onswap ≡ false
      → e.swap_off ≡ (m.ptes p).swap_off
      → memory f ≡ first_content vaddr (mem p)
      → ((g : ℕ) → g ≢ f → memory g ≡ m.physmem g)
      → ¬ Absent p pages
      → Entered get pages p vaddr
          (record m { ptes = update m.ptes p e; physmem = memory; miss_count = m.miss_count + 1 })
          mem
  unfolding touch
  miss-Entered get pages p f vaddr m mem e memory w named present place here there listed =
      let t = update m.ptes p e in
      let now : t p ≡ e = update_self m.ptes p e in
      let n = (t p).number in
      let frame : Frame = record (m.coremap n) { vaddr = vaddr } in
      record {
        stored = λ write.
            let e' : Pte = record (t p) {
              valid = true;
              ref = true;
              dirty = (if write then true else (t p).dirty);
            } in
            let last = update_self t p e' in
            settled-Stored get pages p f m mem (update t p e') (update m.coremap n frame) memory
              (first_content vaddr (mem p)) (m.miss_count + 1) (m.ref_count + 1) w
              (λ q ne. rw (eq-false p q (λ h. ne (sym h))) refl) (ap (λ c. c.valid) last)
              (ap (λ c. c.number) last ∙ ap (λ c. c.number) now ∙ named)
              (ap (λ c. c.onswap) last ∙ ap (λ c. c.onswap) now ∙ present)
              (ap (λ c. c.swap_off) last ∙ ap (λ c. c.swap_off) now ∙ place)
              (λ g. update-same (λ c. c.in_use) m.coremap n frame g refl) here there listed;
        content = ap memory (ap (λ c. c.number) now ∙ named) ∙ here;
      }

  make_resident-Entered :
      (d : Device F) (get : F → ℕ → Option Page) (alg : Functions F P) (p vaddr : ℕ)
      (pages : List ℕ) (m : Machine F P) (mem : ℕ → Option Page) {Ready : Invariant P}
      {Fresh : ℕ → Invariant P} (policy : IsPolicy alg Ready Fresh)
      → IsReliable d get
      → IsConsistent m
      → Ready m.memsize m.alg (used m)
      → 0 < m.memsize
      → Stored get pages m mem
      → ¬ Absent p pages
      → (x : Machine F P) × (make_resident d alg p vaddr m ≡ some x)
        × Entered get pages p vaddr x mem
  unfolding make_resident init_frame
  make_resident-Entered d get alg p vaddr pages m mem policy reliable c ready some_frame s listed =
      elim (Bool-cases (m.ptes p).valid) [
        | inl valid ↦ (
          record m { hit_count = m.hit_count + 1 },
          rw (valid, c.links.present p valid, make_resident) refl,
          hit-Entered get pages p vaddr m mem s valid,
        )
        | inr absent ↦
            let (f, m', e, lt, back, w) =
              allocate_frame-Waiting d get alg p pages m mem policy reliable c ready some_frame s
                absent in
            let fits : f % 2 ^ 20 ≡ f = omega (arith, lt, c.small) in
            elim (Bool-cases (m.ptes p).onswap) [
              | inl swapped ↦ (
                _,
                rw (absent, swapped, e, make_resident) refl,
                miss-Entered get pages p f vaddr m' mem (place f (m'.ptes p)) m'.physmem w fits refl
                    refl (sym (rw (w.mine (back ∙ swapped)) refl)) (λ g ne. refl) listed,
              )
              | inr fresh ↦
                  let page : Page = record { version = 0; vaddr = vaddr } in
                  (
                    _,
                    rw (absent, fresh, e, make_resident) refl,
                    miss-Entered get pages p f vaddr m' mem
                        (record (place f (m'.ptes p)) { dirty = true }) (update m'.physmem f page) w
                        fits refl refl
                        (update_self m'.physmem f page
                          ∙ sym (rw ((s.kept p).unseen absent fresh).0 refl))
                        (λ g ne. rw (eq-false f g (λ h. ne (sym h))) refl) listed,
                  )
            ]
      ]

  touch-number :
      (get : F → ℕ → Option Page) (pages : List ℕ) (p vaddr : ℕ) (write : Bool) (x : Machine F P)
      (mem : ℕ → Option Page)
      → Entered get pages p vaddr x mem
      → (touch p vaddr write x).physmem ((touch p vaddr write x).ptes p).number
        ≡ first_content vaddr (mem p)
  unfolding touch
  touch-number get pages p vaddr write x mem r =
      let e : Pte = record (x.ptes p) {
        valid = true;
        ref = true;
        dirty = (if write then true else (x.ptes p).dirty);
      } in
      ap (λ c. x.physmem c.number) (update_self x.ptes p e) ∙ r.content

  pub find_physpage-Stored :
      (d : Device F) (get : F → ℕ → Option Page) (alg : Functions F P) (vaddr : ℕ) (write : Bool)
      (pages : List ℕ) (m : Machine F P) (mem : ℕ → Option Page) {Ready : Invariant P}
      {Fresh : ℕ → Invariant P} (policy : IsPolicy alg Ready Fresh)
      → IsReliable d get
      → IsConsistent m
      → Ready m.memsize m.alg (used m)
      → 0 < m.memsize
      → vaddr < 2 ^ 36
      → Stored get pages m mem
      → ¬ Absent (page_of vaddr) pages
      → (f : ℕ) × (m' : Machine F P) × (find_physpage d alg vaddr write m ≡ some (f, m'))
        × (m'.physmem f ≡ first_content vaddr (mem (page_of vaddr)))
        × Stored get pages m'
            (update mem (page_of vaddr) (some (first_content vaddr (mem (page_of vaddr)))))
  unfolding find_physpage
  find_physpage-Stored d get alg vaddr write pages m mem policy reliable c ready some_frame short s
        listed =
      let idx = vaddr / 2 ^ 24 % 2 ^ 32 in
      let p = page_of vaddr in
      let top : p / 4096 ≡ idx = omega arith in
      let (m1, e1, c1, opened, size, refs, state, held) =
        open_table-IsConsistent idx m c (omega (arith, short)) in
      let s1 = open_table-Stored get pages idx m m1 mem c s (omega (arith, short)) e1 in
      let ready1 : _ = rw (size, state, held) ready in
      let (m2, e2, r, ready2) =
        make_resident-Touchable d alg p vaddr m1 policy c1 ready1 (rw size some_frame)
          (ap (λ i. m1.pgdir i) top ∙ opened) in
      let (x, e2', entered) =
        make_resident-Entered d get alg p vaddr pages m1 mem policy reliable c1 ready1
          (rw size some_frame) s1 listed in
      let same : x ≡ m2 = ground (arith, e2, e2') in
      let in_place = subst (λ y. Entered get pages p vaddr y mem) same entered in
      let (a, e3, ready3) =
        touch-refers alg p vaddr write m2 policy (touch-IsConsistent p vaddr write m1 m2 c1 r)
          ready2 in
      let m3 = touch p vaddr write m2 in
      (
        (m3.ptes p).number,
        record m3 { alg = a },
        rw (e1, e2, e3, find_physpage) refl,
        touch-number get pages p vaddr write m2 mem in_place,
        flags-Stored get pages m3 (update mem p (some (first_content vaddr (mem p)))) m3.ptes
            m3.coremap m3.hit_count m3.ref_count a (in_place.stored write)
            (λ q. (refl, refl, refl, refl)) (λ g. refl),
      )
