-- ===== src/Memory/Policy/Recent.antt =====
-- A3/lru.c keeps the promises of a replacement algorithm.
use csc_369_operating_system.Common.{
  ℕ, ◌<◌, ◌≤◌, Bool, true, false, List, [], ◌∷◌, none, some, ◌==◌, update, ◌≡◌, ◌≢◌, refl, sym, ap,
  arith, ◌⊎◌, inl, inr, Bool-cases, subst,
}
use csc_369_operating_system.Memory.Machine.{Machine}
use csc_369_operating_system.Memory.PageTable.Promise.{IsConsistent, IsPolicy, used}
use csc_369_operating_system.Memory.Policy.Queue.{Absent, IsDistinct}
use csc_369_operating_system.Memory.Policy.Lru.{
  Lru, unlink_bottom, reference, lru, lru_evict, lru_ref,
}
use csc_369_operating_system.Memory.Policy.Order.{Represents, refreshed}
use csc_369_operating_system.Memory.Policy.Reference.{
  reference-Represents, unlink_bottom-Represents,
}
use csc_369_operating_system.Memory.Policy.Usage.{
  Covers, Covers-weaken, refreshed-Covers, Ordered, Awaiting, reference-top,
}

-- An order that covers two frames in use is longer than one.
pub two-Covers :
    (n : ℕ) (q : List ℕ) (in_use : ℕ → Bool)
    → 2 ≤ n
    → Covers n q in_use none
    → in_use 0 ≡ true
    → in_use 1 ≡ true
    → (a b : ℕ) × (r : List ℕ) × (q ≡ a ∷ b ∷ r)
unfolding Absent
two-Covers n [] in_use several c zero_used one_used =
    absurd (c.all 0 (omega arith) zero_used (λ e. ground (arith, e)) tt)
two-Covers n (a ∷ []) in_use several c zero_used one_used = elim (Bool-cases (a == 0)) [
  | inl e ↦
      absurd
        (c.all 1 (omega arith) one_used (λ h. ground (arith, h)) ((λ h. ground (arith, e, h)), tt))
  | inr e ↦
      absurd
        (c.all 0 (omega arith) zero_used (λ h. ground (arith, h)) ((λ h. ground (arith, e, h)), tt))
]
two-Covers n (a ∷ b ∷ r) in_use several c zero_used one_used = (a, b, r, refl)

unlink_first-Awaiting :
    (n a b : ℕ) (r : List ℕ) (s s' : Lru) (in_use : ℕ → Bool)
    → 2 ≤ n
    → Represents s (a ∷ b ∷ r)
    → Covers n (a ∷ b ∷ r) in_use none
    → Represents s' (b ∷ r)
    → Awaiting n a s' in_use
unfolding Absent IsDistinct
unlink_first-Awaiting n a b r s s' in_use several rep c rep' =
    let held : (a < n) × (in_use a ≡ true) = elim (c.below a) [
      | inl absent ↦ absurd (absent.0 refl)
      | inr has ↦ has
    ] in
    record {
      several = several;
      order = b ∷ r;
      represents = rep';
      covers = record {
        below = λ x. elim (c.below x) [ inl absent ↦ inl absent.1 | inr has ↦ inr has ];
        all = λ x lt taken ne absent.
            c.all x lt taken (λ e. ground (arith, e)) ((λ same. ne (ap some (sym same))), absent);
      };
      lt = held.0;
      taken = held.1;
      absent = rep.distinct.0;
    }

unlink_bottom-Awaiting :
    (n : ℕ) (s : Lru) (in_use : ℕ → Bool)
    → Ordered n s in_use
    → ((f : ℕ) → f < n → in_use f ≡ true)
    → (a : ℕ) × (s' : Lru) × (unlink_bottom s ≡ some (a, s')) × Awaiting n a s' in_use
unlink_bottom-Awaiting n s in_use o full =
    let several = o.several in
    let (a, b, r, long) =
      two-Covers n o.order in_use several o.covers (full 0 (omega arith)) (full 1 (omega arith)) in
    let rep = subst (Represents s) long o.represents in
    let c = subst (λ q. Covers n q in_use none) long o.covers in
    let (s', e, rep') = unlink_bottom-Represents s a b r rep in
    (a, s', e, unlink_first-Awaiting n a b r s s' in_use several rep c rep')

reference-Ordered :
    (n f : ℕ) (s : Lru) (q : List ℕ) (in_use : ℕ → Bool)
    → 2 ≤ n
    → Represents s q
    → Covers n q in_use (some f)
    → (s.top_node ≡ none) ⊎ (q ≢ f ∷ [])
    → f < n
    → in_use f ≡ true
    → (s' : Lru) × (reference f s ≡ some s') × Ordered n s' in_use
reference-Ordered n f s q in_use several rep c apart lt taken =
    let (s', e, rep') = reference-Represents s q f rep apart in
    (
      s',
      e,
      record {
        several = several;
        order = refreshed f q;
        represents = rep';
        covers = refreshed-Covers n f q in_use c lt taken;
        top = reference-top s s' q f rep apart e;
      },
    )

fills-Awaiting :
    (n f : ℕ) (s : Lru) (in_use : ℕ → Bool)
    → Ordered n s in_use
    → f < n
    → in_use f ≡ false
    → Awaiting n f s (update in_use f true)
fills-Awaiting n f s in_use o lt free = record {
  several = o.several;
  order = o.order;
  represents = o.represents;
  covers = record {
    below = λ x. elim (o.covers.below x) [
      | inl absent ↦ inl absent
      | inr (small, has) ↦ inr (small, ground (arith, has))
    ];
    all = λ x small has ne. o.covers.all x small (ground (arith, has, ne)) (λ e. ground (arith, e));
  };
  lt = lt;
  taken = ground arith;
  absent = elim (o.covers.below f) [
    | inl absent ↦ absent
    | inr (small, has) ↦ absurd (ground (arith, has, free))
  ];
}

module _ {F : Type 0} where
  lru_ref-Ordered :
      (p : ℕ) (m : Machine F Lru)
      → IsConsistent m
      → (m.ptes p).valid ≡ true
      → Ordered m.memsize m.alg (used m) ⊎ Awaiting m.memsize (m.ptes p).number m.alg (used m)
      → (a : Lru) × (lru_ref p m ≡ some (record m { alg = a })) × Ordered m.memsize a (used m)
  unfolding lru_ref Absent
  lru_ref-Ordered p m c valid (inl o) =
      let f = (m.ptes p).number in
      let apart : (m.alg.top_node ≡ none) ⊎ (o.order ≢ f ∷ []) = elim o.top [
        | inl top ↦ inl top
        | inr long ↦ inr (long f)
      ] in
      let (s', e, o') =
        reference-Ordered m.memsize f m.alg o.order (used m) o.several o.represents
          (Covers-weaken m.memsize f o.order (used m) o.covers) apart (c.links.below p valid)
          (c.links.taken p valid) in
      (s', rw (e, lru_ref) refl, o')
  lru_ref-Ordered p m c valid (inr w) =
      let f = (m.ptes p).number in
      let apart : w.order ≢ f ∷ [] = λ same. (subst (Absent f) same w.absent).0 refl in
      let (s', e, o') =
        reference-Ordered m.memsize f m.alg w.order (used m) w.several w.represents w.covers
          (inr apart) w.lt w.taken in
      (s', rw (e, lru_ref) refl, o')

  lru_evict-Awaiting :
      (m : Machine F Lru)
      → IsConsistent m
      → Ordered m.memsize m.alg (used m)
      → ((f : ℕ) → f < m.memsize → (m.coremap f).in_use ≡ true)
      → (f : ℕ) × (a : Lru) × (lru_evict m ≡ some (f, record m { alg = a }))
        × (f < m.memsize)
        × Awaiting m.memsize f a (used m)
  unfolding lru_evict
  lru_evict-Awaiting m c o full =
      let (f, s, e, w) = unlink_bottom-Awaiting m.memsize m.alg (used m) o full in
      let (p, points, valid, named) = c.links.holds f w.lt w.taken in
      (f, s, rw (e, points, named, lru_evict) refl, w.lt, w)

  -- `lru_evict` and `lru_ref` keep the promises of a replacement algorithm, in a memory of two or
  -- more frames: between the accesses the links stand for an order of the frames in use, in which
  -- `top_node` is NULL or there are two or more.
  pub lru-IsPolicy : IsPolicy {F = F} lru Ordered Awaiting
  lru-IsPolicy = record {
    evicts = λ m c o some_frame full.
        let (f, a, e, lt, w) = lru_evict-Awaiting m c o full in (f, m.ptes, a, e, lt, λ p. refl, w);
    fills = fills-Awaiting;
    refers = lru_ref-Ordered;
  }
