-- ===== src/Memory/Cache/Access.antt =====
-- `find_physpage` of A3/pagetable.c with A3/lru.c, against the cache of pages.
use csc_369_operating_system.Common.{
  ℕ, ◌+◌, ◌/◌, ◌%◌, ◌^◌, ◌<◌, Bool, true, false, List, [], ◌∷◌, none, some, if◌then◌else◌, ◌==◌,
  update, ◌≡◌, ◌≢◌, refl, sym, ap, ◌∙◌, arith, ◌⊎◌, inl, inr, Bool-cases, ℕ_discrete, eq-false,
  subst, update_self, update-same, lt→ltb,
}
use csc_369_operating_system.Memory.Machine.{Page, Pte, Device, Machine}
use csc_369_operating_system.Memory.PageTable.Translate.{
  place, touch, init_frame, make_resident, open_table, init_second_level, page_of, find_physpage,
}
use csc_369_operating_system.Memory.PageTable.Promise.{IsConsistent, used}
use csc_369_operating_system.Memory.PageTable.Arrival.{
  open_table-IsConsistent, make_resident-Touchable,
}
use csc_369_operating_system.Memory.PageTable.Resident.{touch-IsConsistent, touch-refers}
use csc_369_operating_system.Memory.Policy.Queue.{Absent}
use csc_369_operating_system.Memory.Policy.Recency.{remove, remove-Absent}
use csc_369_operating_system.Memory.Policy.Lru.{Lru, lru, lru_ref}
use csc_369_operating_system.Memory.Policy.Order.{Represents, refreshed}
use csc_369_operating_system.Memory.Policy.Reference.{reference-Represents, Represents-unique}
use csc_369_operating_system.Memory.Policy.Usage.{Covers, Ordered}
use csc_369_operating_system.Memory.Policy.Recent.{lru-IsPolicy}
use csc_369_operating_system.Memory.Cache.{holds, accessed}
use csc_369_operating_system.Memory.Cache.Pairs.{Paired, Paired-append, Paired-remove, Paired-agree}
use csc_369_operating_system.Memory.Cache.Given.{
  Cached, Given, valid-holds, absent-holds, allocate_frame-Given,
}

module _ {F : Type 0} where
  -- Before `touch`: what the order and the cache will be, and the hits.
  record Due (p : ℕ) (m x : Machine F Lru) (cache : List ℕ) : Type 0 where
    order : List ℕ
    represents : Represents x.alg order
    apart : (x.alg.top_node ≡ none) ⊎ (order ≢ (x.ptes p).number ∷ [])
    paired : Paired x.coremap (refreshed (x.ptes p).number order) (accessed m.memsize p cache)
    hits : x.hit_count ≡ (if holds p cache then m.hit_count + 1 else m.hit_count)

  hit-Due :
      (p : ℕ) (m : Machine F Lru) (cache : List ℕ)
      → IsConsistent m
      → Ordered m.memsize m.alg (used m)
      → Cached m cache
      → (m.ptes p).valid ≡ true
      → Due p m (record m { hit_count = m.hit_count + 1 }) cache
  hit-Due p m cache c o k valid =
      let f = (m.ptes p).number in
      let held = valid-holds p m cache c k valid in
      let mine = c.links.back p valid in
      let alone : (g q : ℕ)
          → ¬ Absent g k.order
          → (m.coremap g).pte ≡ some q
          → (f == g) ≡ (p == q) =
        λ g q there points. elim (ℕ_discrete f g) [
          | yes same ↦
              let pages : p ≡ q = ground (arith, mine, ap (λ x. (m.coremap x).pte) same, points) in
              ground (arith, same, pages)
          | no ne ↦ elim (k.covers.below g) [
            | inl absent ↦ absurd (there absent)
            | inr (lt, has) ↦
                let (q', points', valid', named) = c.links.holds g lt has in
                let other : p ≢ q = λ same.
                  let again : q' ≡ p = ground (arith, points, points', same) in
                  ne (ap (λ x. (m.ptes x).number) (sym again) ∙ named) in
                eq-false f g ne ∙ sym (eq-false p q other)
          ]
        ] in
      record {
        order = k.order;
        represents = k.represents;
        apart = elim o.top [
          | inl top ↦ inl top
          | inr several ↦ inr (λ e.
              several f (Represents-unique m.alg o.order k.order o.represents k.represents ∙ e))
        ];
        paired = rw held (
            Paired-append m.coremap f p (remove f k.order) (remove p cache)
              (Paired-remove m.coremap f p k.order cache k.paired alone) mine);
        hits = rw held refl;
      }

  miss-Due :
      (p f : ℕ) (m m' : Machine F Lru) (cache : List ℕ) (e : Pte) (memory : ℕ → Page)
      → IsConsistent m
      → Cached m cache
      → (m.ptes p).valid ≡ false
      → Given p f m m' cache
      → e.number ≡ f
      → Due p m
          (record m' {
            ptes = update m'.ptes p e;
            physmem = memory;
            miss_count = m'.miss_count + 1;
          })
          cache
  unfolding Absent
  miss-Due p f m m' cache e memory c k absent g named =
      let number : (update m'.ptes p e p).number ≡ f =
        ap (λ c. c.number) (update_self m'.ptes p e) ∙ named in
      record {
        order = g.order;
        represents = g.represents;
        apart = inr (λ same. (subst (Absent f) (same ∙ ap (λ n. n ∷ []) number) g.absent).0 refl);
        paired =
            rw (number, g.becomes, remove-Absent f g.order g.absent)
              (Paired-append m'.coremap f p g.order g.pages g.paired g.mine);
        hits = rw (absent-holds p m cache c k absent) g.hits;
      }

  make_resident-Due :
      (d : Device F) (p vaddr : ℕ) (m : Machine F Lru) (cache : List ℕ)
      → IsConsistent m
      → Ordered m.memsize m.alg (used m)
      → Cached m cache
      → (x : Machine F Lru) × (make_resident d lru p vaddr m ≡ some x) × Due p m x cache
  unfolding make_resident init_frame
  make_resident-Due d p vaddr m cache c o k = elim (Bool-cases (m.ptes p).valid) [
    | inl valid ↦ (
      record m { hit_count = m.hit_count + 1 },
      rw (valid, c.links.present p valid, make_resident) refl,
      hit-Due p m cache c o k valid,
    )
    | inr absent ↦
        let (f, m', e, g) = allocate_frame-Given d p m cache c o.several k absent in
        let fits : f % 2 ^ 20 ≡ f = omega (arith, g.lt, c.small) in
        elim (Bool-cases (m.ptes p).onswap) [
          | inl swapped ↦ (
            _,
            rw (absent, swapped, e, make_resident) refl,
            miss-Due p f m m' cache (place f (m'.ptes p)) m'.physmem c k absent g fits,
          )
          | inr fresh ↦ (
            _,
            rw (absent, fresh, e, make_resident) refl,
            miss-Due p f m m' cache (record (place f (m'.ptes p)) { dirty = true })
                (update m'.physmem f (record { version = 0; vaddr = vaddr })) c k absent g fits,
          )
        ]
  ]

  touch-Cached :
      (p vaddr : ℕ) (write : Bool) (m x : Machine F Lru) (cache : List ℕ) (a : Lru)
      → Due p m x cache
      → lru_ref p (touch p vaddr write x) ≡ some (record (touch p vaddr write x) { alg = a })
      → Ordered (touch p vaddr write x).memsize a (used (touch p vaddr write x))
      → Cached (record (touch p vaddr write x) { alg = a }) (accessed m.memsize p cache)
  unfolding touch lru_ref
  touch-Cached p vaddr write m x cache a due e o =
      let t = touch p vaddr write x in
      let n = (x.ptes p).number in
      let entry : Pte = record (x.ptes p) {
        valid = true;
        ref = true;
        dirty = (if write then true else (x.ptes p).dirty);
      } in
      let number : (t.ptes p).number ≡ n = ap (λ c. c.number) (update_self x.ptes p entry) in
      let (s, e', rep) = reference-Represents x.alg due.order n due.represents due.apart in
      let own : lru_ref p t ≡ some (record t { alg = s }) = rw (number, e', lru_ref) refl in
      let whole : record t { alg = s } ≡ record t { alg = a } = ground (arith, own, e) in
      let same : s ≡ a = ap (λ y. y.alg) whole in
      let rep' = subst (λ y. Represents y (refreshed n due.order)) same rep in
      record {
        order = refreshed n due.order;
        represents = rep';
        covers =
            subst (λ q. Covers x.memsize q (used t) none)
              (Represents-unique a o.order (refreshed n due.order) o.represents rep') o.covers;
        paired =
            Paired-agree x.coremap t.coremap (refreshed n due.order) (accessed m.memsize p cache)
              due.paired
              λ g there.
                update-same (λ c. c.pte) x.coremap n (record (x.coremap n) { vaddr = vaddr }) g
                  refl;
      }

  open_table-Cached :
      (idx : ℕ) (m x : Machine F Lru) (cache : List ℕ)
      → idx < 4096
      → open_table idx m ≡ some x
      → Cached m cache
      → Cached x cache × (x.hit_count ≡ m.hit_count)
  unfolding open_table init_second_level
  open_table-Cached idx m x cache lt e k = elim (Bool-cases (m.pgdir idx)) [
    | inl valid ↦
        let same : m ≡ x = ground (arith, rw (lt→ltb idx 4096 lt, valid, open_table) at e) in
        subst (λ y. Cached y cache × (y.hit_count ≡ m.hit_count)) same (k, refl)
    | inr shut ↦
        let same : init_second_level idx m ≡ x =
          ground (arith, rw (lt→ltb idx 4096 lt, shut, open_table) at e) in
        subst (λ y. Cached y cache × (y.hit_count ≡ m.hit_count)) same
          (
            record {
              order = k.order;
              represents = k.represents;
              covers = k.covers;
              paired = k.paired;
            },
            refl,
          )
  ]

  touch-hits :
      (p vaddr : ℕ) (write : Bool) (x : Machine F Lru)
      → (touch p vaddr write x).hit_count ≡ x.hit_count
  unfolding touch
  touch-hits p vaddr write x = refl

  pub find_physpage-Cached :
      (d : Device F) (vaddr : ℕ) (write : Bool) (m : Machine F Lru) (cache : List ℕ)
      → IsConsistent m
      → Ordered m.memsize m.alg (used m)
      → vaddr < 2 ^ 36
      → Cached m cache
      → (f : ℕ) × (m' : Machine F Lru) × (find_physpage d lru vaddr write m ≡ some (f, m'))
        × Cached m' (accessed m.memsize (page_of vaddr) cache)
        × (m'.hit_count ≡ (if holds (page_of vaddr) cache then m.hit_count + 1 else m.hit_count))
  unfolding find_physpage
  find_physpage-Cached d vaddr write m cache c o short k =
      let idx = vaddr / 2 ^ 24 % 2 ^ 32 in
      let p = page_of vaddr in
      let top : p / 4096 ≡ idx = omega arith in
      let (m1, e1, c1, opened, size, refs, state, held) =
        open_table-IsConsistent idx m c (omega (arith, short)) in
      let (k1, hits) = open_table-Cached idx m m1 cache (omega (arith, short)) e1 k in
      let o1 : Ordered m1.memsize m1.alg (used m1) = rw (size, state, held) o in
      let (m2, e2, r, ready2) =
        make_resident-Touchable d lru p vaddr m1 lru-IsPolicy c1 o1
          (rw size (omega (arith, o.several))) (ap (λ i. m1.pgdir i) top ∙ opened) in
      let (x, e2', due') = make_resident-Due d p vaddr m1 cache c1 o1 k1 in
      let same : x ≡ m2 = ground (arith, e2, e2') in
      let due = subst (λ y. Due p m1 y cache) same due' in
      let (a, e3, o3) =
        touch-refers lru p vaddr write m2 lru-IsPolicy (touch-IsConsistent p vaddr write m1 m2 c1 r)
          ready2 in
      let m3 = touch p vaddr write m2 in
      (
        (m3.ptes p).number,
        record m3 { alg = a },
        rw (e1, e2, e3, find_physpage) refl,
        subst (λ n. Cached (record m3 { alg = a }) (accessed n p cache)) size
            (touch-Cached p vaddr write m1 m2 cache a due e3 o3),
        touch-hits p vaddr write m2 ∙ due.hits ∙ ap (λ n. if holds p cache then n + 1 else n) hits,
      )
