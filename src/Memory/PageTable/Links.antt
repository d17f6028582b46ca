-- ===== src/Memory/PageTable/Links.antt =====
-- The links between page table entries and frames that A3/pagetable.c keeps, and how each of its
-- steps changes them.
use csc_369_operating_system.Common.{
  ℕ, ◌/◌, ◌<◌, Bool, true, false, Option, some, if◌then◌else◌, ◌==◌, update, ◌≡◌, ◌≢◌, refl, sym,
  ap, ◌∙◌, arith, ◌⊎◌, inl, inr, Bool-cases, eq-false, subst,
}
use csc_369_operating_system.Memory.Machine.{Pte, Frame}
use csc_369_operating_system.Memory.PageTable.Translate.{blank_pte, evicted}

-- Each valid entry names a frame in use that points back at it, and is not on swap; each frame in
-- use points at a valid entry that names it; a table that is not open has no valid entries.
pub record Linked (memsize : ℕ) (coremap : ℕ → Frame) (ptes : ℕ → Pte) (pgdir : ℕ → Bool)
    : Type 0 where
  pub below : (p : ℕ) → (ptes p).valid ≡ true → (ptes p).number < memsize
  pub back : (p : ℕ) → (ptes p).valid ≡ true → (coremap (ptes p).number).pte ≡ some p
  pub taken : (p : ℕ) → (ptes p).valid ≡ true → (coremap (ptes p).number).in_use ≡ true
  pub present : (p : ℕ) → (ptes p).valid ≡ true → (ptes p).onswap ≡ false
  pub opened : (p : ℕ) → (ptes p).valid ≡ true → pgdir (p / 4096) ≡ true
  pub holds :
      (f : ℕ)
      → f < memsize
      → (coremap f).in_use ≡ true
      → (p : ℕ) × ((coremap f).pte ≡ some p) × ((ptes p).valid ≡ true) × ((ptes p).number ≡ f)

-- The same, while a frame is being given to a page whose entry does not name it yet.
pub record Pending (p f memsize : ℕ) (coremap : ℕ → Frame) (ptes : ℕ → Pte) (pgdir : ℕ → Bool)
    : Type 0 where
  pub lt : f < memsize
  pub mine : (coremap f).pte ≡ some p
  pub used : (coremap f).in_use ≡ true
  pub absent : (ptes p).valid ≡ false
  pub below : (q : ℕ) → (ptes q).valid ≡ true → (ptes q).number < memsize
  pub back : (q : ℕ) → (ptes q).valid ≡ true → (coremap (ptes q).number).pte ≡ some q
  pub taken : (q : ℕ) → (ptes q).valid ≡ true → (coremap (ptes q).number).in_use ≡ true
  pub present : (q : ℕ) → (ptes q).valid ≡ true → (ptes q).onswap ≡ false
  pub opened : (q : ℕ) → (ptes q).valid ≡ true → pgdir (q / 4096) ≡ true
  pub holds :
      (g : ℕ)
      → g < memsize
      → g ≢ f
      → (coremap g).in_use ≡ true
      → (q : ℕ) × ((coremap g).pte ≡ some q) × ((ptes q).valid ≡ true) × ((ptes q).number ≡ g)

module _ {memsize : ℕ} {coremap : ℕ → Frame} {ptes : ℕ → Pte} {pgdir : ℕ → Bool} where
  -- A table is opened with blank entries.
  pub open-Linked :
      (idx : ℕ)
      → Linked memsize coremap ptes pgdir
      → pgdir idx ≡ false
      → Linked memsize coremap
          (λ p. if p / 4096 == idx then blank_pte else ptes p)
          (update pgdir idx true)
  open-Linked idx l closed =
      let same : (p : ℕ)
          → (ptes p).valid ≡ true
          → (if p / 4096 == idx then blank_pte else ptes p) ≡ ptes p =
        λ p v. ground (arith, l.opened p v, closed) in
      let old : (p : ℕ)
          → (if p / 4096 == idx then blank_pte else ptes p).valid ≡ true
          → (ptes p).valid ≡ true =
        λ p v. ground (arith, v) in
      record {
        below = λ p v. ground (arith, same p (old p v), l.below p (old p v));
        back = λ p v. rw (same p (old p v)) (l.back p (old p v));
        taken = λ p v. rw (same p (old p v)) (l.taken p (old p v));
        present = λ p v. ground (arith, same p (old p v), l.present p (old p v));
        opened = λ p v. ground (arith, l.opened p (old p v));
        holds = λ f lt used.
            let (p, e, v, n) = l.holds f lt used in
            (p, e, ground (arith, same p v, v), ground (arith, same p v, n));
      }

  -- Entries may change in what is not a link.
  pub entries-Linked :
      (ptes' : ℕ → Pte)
      → Linked memsize coremap ptes pgdir
      → ((p : ℕ)
          → ((ptes' p).valid ≡ (ptes p).valid)
            × ((ptes' p).number ≡ (ptes p).number)
            × ((ptes' p).onswap ≡ (ptes p).onswap))
      → Linked memsize coremap ptes' pgdir
  entries-Linked ptes' l same =
      let old : (p : ℕ) → (ptes' p).valid ≡ true → (ptes p).valid ≡ true =
        λ p v. sym (same p).0 ∙ v in
      record {
        below = λ p v. rw (same p).1 (l.below p (old p v));
        back = λ p v. rw (same p).1 (l.back p (old p v));
        taken = λ p v. rw (same p).1 (l.taken p (old p v));
        present = λ p v. (same p).2 ∙ l.present p (old p v);
        opened = λ p v. l.opened p (old p v);
        holds = λ f lt used.
            let (p, e, v, n) = l.holds f lt used in (p, e, (same p).0 ∙ v, (same p).1 ∙ n);
      }

  -- Frames may change in what is not a link.
  pub frames-Linked :
      (coremap' : ℕ → Frame)
      → Linked memsize coremap ptes pgdir
      → ((f : ℕ)
          → ((coremap' f).in_use ≡ (coremap f).in_use) × ((coremap' f).pte ≡ (coremap f).pte))
      → Linked memsize coremap' ptes pgdir
  frames-Linked coremap' l same = record {
    below = l.below;
    back = λ p v. (same (ptes p).number).1 ∙ l.back p v;
    taken = λ p v. (same (ptes p).number).0 ∙ l.taken p v;
    present = l.present;
    opened = l.opened;
    holds = λ f lt used.
        let (p, e, v, n) = l.holds f lt (sym (same f).0 ∙ used) in (p, (same f).1 ∙ e, v, n);
  }

  -- A frame is given to a page that is not in memory, and what named it before does so no more.
  occupy-Pending :
      (p f : ℕ) (frame : Frame) (ptes' : ℕ → Pte)
      → Linked memsize coremap ptes pgdir
      → f < memsize
      → (ptes' p).valid ≡ false
      → frame.in_use ≡ true
      → frame.pte ≡ some p
      → ((q : ℕ) → (ptes' q).valid ≡ true → (ptes' q ≡ ptes q) × ((ptes q).number ≢ f))
      → ((q : ℕ) → (ptes q).valid ≡ true → (ptes q).number ≢ f → ptes' q ≡ ptes q)
      → Pending p f memsize (update coremap f frame) ptes' pgdir
  occupy-Pending p f frame ptes' l lt absent used mine keep stay =
      let old : (q : ℕ) → (ptes' q).valid ≡ true → (ptes q).valid ≡ true =
        λ q v. rw (sym (keep q v).0) v in
      let apart : (q : ℕ) → (ptes' q).valid ≡ true → (f == (ptes q).number) ≡ false =
        λ q v. eq-false f (ptes q).number (λ e. (keep q v).1 (sym e)) in
      record {
        lt = lt;
        mine = ground (arith, mine);
        used = ground (arith, used);
        absent = absent;
        below = λ q v. rw (keep q v).0 (l.below q (old q v));
        back = λ q v. rw ((keep q v).0, apart q v) (l.back q (old q v));
        taken = λ q v. rw ((keep q v).0, apart q v) (l.taken q (old q v));
        present = λ q v. rw (keep q v).0 (l.present q (old q v));
        opened = λ q v. l.opened q (old q v);
        holds = λ g below_g other used_g.
            let e = eq-false f g (λ h. other (sym h)) in
            let (q, points, v, n) = l.holds g below_g (ground (arith, e, used_g)) in
            let same = stay q v (λ h. other (sym n ∙ h)) in (q, rw e points, rw same v, rw same n);
      }

  pub occupy_free-Pending :
      (p f : ℕ) (frame : Frame)
      → Linked memsize coremap ptes pgdir
      → f < memsize
      → (coremap f).in_use ≡ false
      → (ptes p).valid ≡ false
      → frame.in_use ≡ true
      → frame.pte ≡ some p
      → Pending p f memsize (update coremap f frame) ptes pgdir
  occupy_free-Pending p f frame l lt free absent used mine =
      occupy-Pending p f frame ptes l lt absent used mine
        (λ q v. (refl, λ e. ground (arith, ap (λ n. (coremap n).in_use) e, free, l.taken q v)))
        (λ q v ne. refl)

  pub occupy_evicted-Pending :
      (p f victim : ℕ) (off : Option ℕ) (frame : Frame)
      → Linked memsize coremap ptes pgdir
      → f < memsize
      → (coremap f).in_use ≡ true
      → (coremap f).pte ≡ some victim
      → (ptes p).valid ≡ false
      → frame.in_use ≡ true
      → frame.pte ≡ some p
      → Pending p f memsize
          (update coremap f frame)
          (update ptes victim (evicted off (ptes victim)))
          pgdir
  occupy_evicted-Pending p f victim off frame l lt full points absent used mine =
      let (q, e, v, n) = l.holds f lt full in
      let same : q ≡ victim = ground (arith, e, points) in
      let valid : (ptes victim).valid ≡ true = subst (λ x. (ptes x).valid ≡ true) same v in
      let named : (ptes victim).number ≡ f = subst (λ x. (ptes x).number ≡ f) same n in
      let other : (q : ℕ)
          → (update ptes victim (evicted off (ptes victim)) q).valid ≡ true
          → (victim == q) ≡ false =
        λ q v. ground (arith, v, valid) in
      occupy-Pending p f frame (update ptes victim (evicted off (ptes victim))) l lt
        (ground (arith, valid, absent)) used mine
        (λ q v.
          let e = other q v in
          let v' : (ptes q).valid ≡ true = ground (arith, v, e) in
          (rw e refl, λ h. ground (arith, ap (λ n. (coremap n).pte) h, l.back q v', points, e)))
        (λ q v ne.
          rw (eq-false victim q (λ h. ne (ap (λ x. (ptes x).number) (sym h) ∙ named))) refl)

  -- The entry of the page names its frame at last.
  pub finish-Linked :
      (p f : ℕ) (e : Pte) (frame : Frame)
      → Pending p f memsize coremap ptes pgdir
      → pgdir (p / 4096) ≡ true
      → e.valid ≡ true
      → e.onswap ≡ false
      → e.number ≡ f
      → frame.in_use ≡ true
      → frame.pte ≡ some p
      → Linked memsize (update coremap f frame) (update ptes p e) pgdir
  finish-Linked p f e frame l opened valid present named used mine =
      let other : (q : ℕ)
          → (ptes q).valid ≡ true
          → ((p == q) ≡ false) × ((f == (ptes q).number) ≡ false) =
        λ q v.
          let e : (p == q) ≡ false =
            eq-false p q (λ h. ground (arith, ap (λ x. (ptes x).valid) h, v, l.absent)) in
          (
            e,
            eq-false f (ptes q).number
                (λ h. ground (arith, ap (λ n. (coremap n).pte) h, l.back q v, l.mine, e)),
          ) in
      let cases : (q : ℕ) → (update ptes p e q).valid ≡ true → (p ≡ q) ⊎ ((ptes q).valid ≡ true) =
        λ q v. ground (arith, v) in
      record {
        below = λ q v. elim (cases q v) [
          | inl h ↦ ground (arith, h, named, l.lt)
          | inr w ↦ rw (other q w).0 (l.below q w)
        ];
        back = λ q v. elim (cases q v) [
          | inl h ↦ ground (arith, h, named, mine)
          | inr w ↦ rw ((other q w).0, (other q w).1) (l.back q w)
        ];
        taken = λ q v. elim (cases q v) [
          | inl h ↦ ground (arith, h, named, used)
          | inr w ↦ rw ((other q w).0, (other q w).1) (l.taken q w)
        ];
        present = λ q v. elim (cases q v) [
          | inl h ↦ ground (arith, h, present)
          | inr w ↦ rw (other q w).0 (l.present q w)
        ];
        opened = λ q v. elim (cases q v) [
          | inl h ↦ subst (λ x. pgdir (x / 4096) ≡ true) h opened
          | inr w ↦ l.opened q w
        ];
        holds = λ g lt used_g. elim (Bool-cases (f == g)) [
          | inl h ↦ (p, ground (arith, h, mine), ground (arith, valid), ground (arith, named, h))
          | inr h ↦
              let (q, points, v, n) =
                l.holds g lt (ground (arith, h)) (ground (arith, h, used_g)) in
              (q, rw h points, rw (other q v).0 v, rw (other q v).0 n)
        ];
      }
