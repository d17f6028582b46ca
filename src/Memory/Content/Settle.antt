-- ===== src/Memory/Content/Settle.antt =====
-- The steps of A3/pagetable.c that change the entry of one page or open a table keep the contents of
-- all pages.
use csc_369_operating_system.Common.{
  ℕ, ◌/◌, ◌<◌, true, false, List, Option, none, some, if◌then◌else◌, ◌==◌, update, ◌≡◌, ◌≢◌, refl,
  sym, ap, ◌∙◌, arith, ◌⊎◌, inl, inr, Bool-cases, ℕ_discrete, eq-false, subst, fun_ext, update_self,
  lt→ltb,
}
use csc_369_operating_system.Memory.Machine.{Page, Pte, Frame, Machine}
use csc_369_operating_system.Memory.PageTable.Translate.{blank_pte, open_table, init_second_level}
use csc_369_operating_system.Memory.PageTable.Promise.{IsConsistent}
use csc_369_operating_system.Memory.Policy.Queue.{Absent}
use csc_369_operating_system.Memory.Content.{Slots, Kept, Stored}
use csc_369_operating_system.Memory.Content.Evict.{Waiting}

-- What counts in an entry.
abbrev pub Alike : Pte → Pte → Type 0
Alike e' e =
    (e'.valid ≡ e.valid)
    × (e'.number ≡ e.number)
    × (e'.onswap ≡ e.onswap)
    × (e'.swap_off ≡ e.swap_off)

Alike-Kept :
    {F : Type 0} (get : F → ℕ → Option Page) (e' e : Pte) (physmem : ℕ → Page) (file : F)
    (c : Option Page)
    → Alike e' e
    → Kept get e physmem file c
    → Kept get e' physmem file c
Alike-Kept get e' e physmem file c (v, n, o, s) k = record {
  resident = λ h. k.resident (sym v ∙ h) ∙ ap (λ x. some (physmem x)) (sym n);
  swapped = λ h h'.
      let (off, page, place, there, content) = k.swapped (sym v ∙ h) (sym o ∙ h') in
      (off, page, s ∙ place, there, content);
  unseen = λ h h'. let (content, place) = k.unseen (sym v ∙ h) (sym o ∙ h') in (content, s ∙ place);
}

module _ {F P : Type 0} where
  -- Reference and dirty bits, addresses of frames, and the state of the algorithm do not matter.
  pub flags-Stored :
      (get : F → ℕ → Option Page) (pages : List ℕ) (m : Machine F P) (mem : ℕ → Option Page)
      (t : ℕ → Pte) (frames : ℕ → Frame) (hits refs : ℕ) (a : P)
      → Stored get pages m mem
      → ((q : ℕ) → Alike (t q) (m.ptes q))
      → ((g : ℕ) → (frames g).in_use ≡ (m.coremap g).in_use)
      → Stored get pages
          (record m { ptes = t; coremap = frames; hit_count = hits; ref_count = refs; alg = a })
          mem
  flags-Stored get pages m mem t frames hits refs a s same used = record {
    kept = λ q. Alike-Kept get (t q) (m.ptes q) m.physmem m.swapfile (mem q) (same q) (s.kept q);
    placed = s.placed;
    slots = subst (λ g. Slots g m.swapmap s.placed pages) (fun_ext λ q. sym (same q).3) s.slots;
    crowded = λ q h o g lt. used g ∙ s.crowded q (sym (same q).0 ∙ h) (sym (same q).2 ∙ o) g lt;
    known = λ q h. s.known q (sym (same q).0 ∙ h);
    closed = λ q shut. (same q).2 ∙ s.closed q shut;
  }

  -- The page that waited names its frame, which holds its contents.
  pub settled-Stored :
      (get : F → ℕ → Option Page) (pages : List ℕ) (p f : ℕ) (m : Machine F P)
      (mem : ℕ → Option Page) (t : ℕ → Pte) (frames : ℕ → Frame) (memory : ℕ → Page) (c : Page)
      (misses refs : ℕ)
      → Waiting get pages p f m mem
      → ((q : ℕ) → q ≢ p → t q ≡ m.ptes q)
      → (t p).valid ≡ true
      → (t p).number ≡ f
      → (t p).onswap ≡ false
      → (t p).swap_off ≡ (m.ptes p).swap_off
      → ((g : ℕ) → (frames g).in_use ≡ (m.coremap g).in_use)
      → memory f ≡ c
      → ((g : ℕ) → g ≢ f → memory g ≡ m.physmem g)
      → ¬ Absent p pages
      → Stored get pages
          (record m {
            ptes = t;
            coremap = frames;
            physmem = memory;
            miss_count = misses;
            ref_count = refs;
          })
          (update mem p (some c))
  settled-Stored get pages p f m mem t frames memory c misses refs w other valid named back place
        used here there listed =
      let cases : (q : ℕ) → (p ≡ q) ⊎ (q ≢ p) =
        λ q. elim (ℕ_discrete p q) [ yes same ↦ inl same | no ne ↦ inr (λ h. ne (sym h)) ] in
      let places : (q : ℕ) → (t q).swap_off ≡ (m.ptes q).swap_off = λ q. elim (cases q) [
        | inl same ↦ subst (λ x. (t x).swap_off ≡ (m.ptes x).swap_off) same place
        | inr ne ↦ ap (λ e. e.swap_off) (other q ne)
      ] in
      record {
        kept = λ q. elim (cases q) [
          | inl same ↦
              subst (λ x. Kept get (t x) memory m.swapfile (update mem p (some c) x)) same
                (record {
                  resident =
                      λ h. update_self mem p (some c) ∙ ap some (sym (ap memory named ∙ here));
                  swapped = λ h. absurd (ground (arith, h, valid));
                  unseen = λ h. absurd (ground (arith, h, valid));
                })
          | inr ne ↦
              let k = w.kept q in
              rw (other q ne, eq-false p q (λ h. ne (sym h)))
                (record {
                  resident = λ h.
                      let apart = w.apart q h in
                      k.resident h
                      ∙ ap some
                          (sym (there (m.ptes q).number apart ∙ w.agree (m.ptes q).number apart));
                  swapped = k.swapped;
                  unseen = k.unseen;
                })
        ];
        placed = w.placed;
        slots = subst (λ g. Slots g m.swapmap w.placed pages) (fun_ext λ q. sym (places q)) w.slots;
        crowded = λ q h o g lt. elim (cases q) [
          | inl same ↦ absurd (ground (arith, ap (λ x. (t x).valid) same, h, valid))
          | inr ne ↦
              used g
              ∙ w.crowded q (sym (ap (λ e. e.valid) (other q ne)) ∙ h)
                  (sym (ap (λ e. e.onswap) (other q ne)) ∙ o) g lt
        ];
        known = λ q h. elim (cases q) [
          | inl same ↦ subst (λ x. ¬ Absent x pages) same listed
          | inr ne ↦ w.known q (sym (ap (λ e. e.valid) (other q ne)) ∙ h)
        ];
        closed = λ q shut. elim (cases q) [
          | inl same ↦ subst (λ x. (t x).onswap ≡ false) same back
          | inr ne ↦ ap (λ e. e.onswap) (other q ne) ∙ w.closed q shut
        ];
      }

  -- A table is opened.
  init_second_level-Stored :
      (get : F → ℕ → Option Page) (pages : List ℕ) (idx : ℕ) (m : Machine F P)
      (mem : ℕ → Option Page)
      → IsConsistent m
      → Stored get pages m mem
      → m.pgdir idx ≡ false
      → Stored get pages (init_second_level idx m) mem
  unfolding init_second_level
  init_second_level-Stored get pages idx m mem c s shut =
      let empty : (q : ℕ) → (q / 4096) ≡ idx → (mem q ≡ none) × ((m.ptes q).swap_off ≡ none) =
        λ q e.
          let shut' : m.pgdir (q / 4096) ≡ false = ap m.pgdir e ∙ shut in
          let out : (m.ptes q).valid ≡ false = elim (Bool-cases (m.ptes q).valid) [
            | inl v ↦ absurd (ground (arith, c.links.opened q v, shut'))
            | inr v ↦ v
          ] in
          (s.kept q).unseen out (s.closed q shut') in
      let cases : (q : ℕ) → (q / 4096 ≡ idx) ⊎ (q / 4096 ≢ idx) =
        λ q. elim (ℕ_discrete (q / 4096) idx) [ yes same ↦ inl same | no ne ↦ inr ne ] in
      let table = λ (q : ℕ). if q / 4096 == idx then blank_pte else m.ptes q in
      let new : (q : ℕ) → q / 4096 ≡ idx → table q ≡ blank_pte = λ q e. ground (arith, e) in
      let rest : (q : ℕ) → q / 4096 ≢ idx → table q ≡ m.ptes q =
        λ q ne. rw (eq-false (q / 4096) idx ne) refl in
      let places : (q : ℕ) → (table q).swap_off ≡ (m.ptes q).swap_off = λ q. elim (cases q) [
        | inl e ↦ ap (λ x. x.swap_off) (new q e) ∙ sym (empty q e).1
        | inr ne ↦ ap (λ x. x.swap_off) (rest q ne)
      ] in
      record {
        kept = λ q. elim (cases q) [
          | inl e ↦ rw (new q e) (record {
            resident = λ h. absurd (ground (arith, h));
            swapped = λ h o. absurd (ground (arith, o));
            unseen = λ h o. ((empty q e).0, refl);
          })
          | inr ne ↦
              subst (λ x. Kept get x m.physmem m.swapfile (mem q)) (sym (rest q ne)) (s.kept q)
        ];
        placed = s.placed;
        slots = subst (λ g. Slots g m.swapmap s.placed pages) (fun_ext λ q. sym (places q)) s.slots;
        crowded = λ q h o. elim (cases q) [
          | inl e ↦ absurd (ground (arith, ap (λ x. x.onswap) (new q e), o))
          | inr ne ↦
              s.crowded q (sym (ap (λ x. x.valid) (rest q ne)) ∙ h)
                (sym (ap (λ x. x.onswap) (rest q ne)) ∙ o)
        ];
        known = λ q h. elim (cases q) [
          | inl e ↦ absurd (ground (arith, ap (λ x. x.valid) (new q e), h))
          | inr ne ↦ s.known q (sym (ap (λ x. x.valid) (rest q ne)) ∙ h)
        ];
        closed = λ q h. elim (cases q) [
          | inl e ↦ ap (λ x. x.onswap) (new q e)
          | inr ne ↦ ap (λ x. x.onswap) (rest q ne) ∙ s.closed q (ground (arith, h, ne))
        ];
      }

  pub open_table-Stored :
      (get : F → ℕ → Option Page) (pages : List ℕ) (idx : ℕ) (m x : Machine F P)
      (mem : ℕ → Option Page)
      → IsConsistent m
      → Stored get pages m mem
      → idx < 4096
      → open_table idx m ≡ some x
      → Stored get pages x mem
  unfolding open_table
  open_table-Stored get pages idx m x mem c s lt e = elim (Bool-cases (m.pgdir idx)) [
    | inl valid ↦
        let same : m ≡ x = ground (arith, rw (lt→ltb idx 4096 lt, valid, open_table) at e) in
        subst (λ y. Stored get pages y mem) same s
    | inr shut ↦
        let same : init_second_level idx m ≡ x =
          ground (arith, rw (lt→ltb idx 4096 lt, shut, open_table) at e) in
        subst (λ y. Stored get pages y mem) same
          (init_second_level-Stored get pages idx m mem c s shut)
  ]
