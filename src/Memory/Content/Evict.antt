-- ===== src/Memory/Content/Evict.antt =====
-- A page leaves its frame for the swap file in `allocate_frame` of A3/pagetable.c, and another comes
-- back.
use csc_369_operating_system.Common.{
  ℕ, ◌/◌, ◌<◌, true, false, List, Option, some, ◌==◌, update, ◌≡◌, ◌≢◌, refl, sym, ap, ◌∙◌, arith,
  inl, inr, Option-cases, ℕ_discrete, eq-false, subst, fun_ext, update_self,
}
use csc_369_operating_system.Memory.Bitmap.Bits.{Bitmap}
use csc_369_operating_system.Memory.Machine.{Page, Device, Machine}
use csc_369_operating_system.Memory.PageTable.Swap.{swap_pagein}
use csc_369_operating_system.Memory.PageTable.Translate.{evicted, occupy, bring_in, evict_frame}
use csc_369_operating_system.Memory.PageTable.Promise.{IsConsistent}
use csc_369_operating_system.Memory.PageTable.Transfer.{retire-keeps}
use csc_369_operating_system.Memory.Policy.Queue.{Absent}
use csc_369_operating_system.Memory.Content.{Slots, IsReliable, Kept, Stored}
use csc_369_operating_system.Memory.Content.Leave.{Out, swap_pageout-Out}

module _ {F P : Type 0} where
  -- A page that is not in memory has been given a frame, whose old contents are in the swap file.
  pub record Waiting (get : F → ℕ → Option Page) (pages : List ℕ) (p f : ℕ) (m : Machine F P)
      (mem : ℕ → Option Page) : Type 0 where
    pub old : ℕ → Page
    pub kept : (q : ℕ) → Kept get (m.ptes q) old m.swapfile (mem q)
    pub agree : (g : ℕ) → g ≢ f → m.physmem g ≡ old g
    pub apart : (q : ℕ) → (m.ptes q).valid ≡ true → (m.ptes q).number ≢ f
    pub absent : (m.ptes p).valid ≡ false
    pub mine : (m.ptes p).onswap ≡ true → mem p ≡ some (m.physmem f)
    pub placed : List ℕ
    pub slots : Slots (λ q. (m.ptes q).swap_off) m.swapmap placed pages
    pub crowded :
        (q : ℕ)
        → (m.ptes q).valid ≡ false
        → (m.ptes q).onswap ≡ true
        → (g : ℕ) → g < m.memsize
        → (m.coremap g).in_use ≡ true
    pub known : (q : ℕ) → (m.ptes q).valid ≡ true → ¬ Absent q pages
    pub closed : (q : ℕ) → m.pgdir (q / 4096) ≡ false → (m.ptes q).onswap ≡ false

  -- What a page's return leaves in its frame.
  bring_in-reads :
      (d : Device F) (p f : ℕ) (m : Machine F P)
      → (memory : ℕ → Page) × (bring_in d p f m ≡ record m { physmem = memory })
        × ((g : ℕ) → g ≢ f → memory g ≡ m.physmem g)
        × ((o : ℕ)
            → (m.ptes p).swap_off ≡ some o
            → memory f ≡ (d.read m.swapfile o (m.physmem f)).0)
  unfolding bring_in swap_pagein
  bring_in-reads d p f m = elim (Option-cases (m.ptes p).swap_off) [
    | inl e ↦
        (m.physmem, rw (e, bring_in) refl, (λ g ne. refl), λ o e'. absurd (ground (arith, e, e')))
    | inr (o, e) ↦ (
      update m.physmem f (d.read m.swapfile o (m.physmem f)).0,
      rw (e, bring_in) refl,
      (λ g ne. ground (arith, ne)),
      λ o' e'.
          let same : o ≡ o' = ground (arith, e, e') in
          update_self m.physmem f (d.read m.swapfile o (m.physmem f)).0
          ∙ ap (λ x. (d.read m.swapfile x (m.physmem f)).0) same,
    )
  ]

  -- The victim's entry and the others.
  evicted-Kept :
      (get : F → ℕ → Option Page) (f v off q : ℕ) (pages : List ℕ) (m : Machine F P)
      (mem : ℕ → Option Page) (b : Bitmap) (file : F)
      → Stored get pages m mem
      → Out get (λ q. (m.ptes q).swap_off) m.swapfile v (m.physmem f) pages off b file
      → (m.ptes v).valid ≡ true
      → (m.ptes v).number ≡ f
      → Kept get (update m.ptes v (evicted (some off) (m.ptes v)) q) m.physmem file (mem q)
  evicted-Kept get f v off q pages m mem b file s out valid named = elim (ℕ_discrete v q) [
    | yes same ↦
        let here = update_self m.ptes v (evicted (some off) (m.ptes v)) in
        let gone : Kept get (evicted (some off) (m.ptes v)) m.physmem file (mem v) = record {
          resident = λ h. absurd (ground (arith, h, valid));
          swapped = λ h o. (
            off,
            m.physmem f,
            refl,
            out.mine,
            (s.kept v).resident valid ∙ ap (λ n. some (m.physmem n)) named,
          );
          unseen = λ h o. absurd (ground (arith, o));
        } in
        subst
          (λ x. Kept get (update m.ptes v (evicted (some off) (m.ptes v)) x) m.physmem file (mem x))
          same (subst (λ e. Kept get e m.physmem file (mem v)) (sym here) gone)
    | no ne ↦
        let k = s.kept q in
        rw (eq-false v q ne) (record {
          resident = k.resident;
          swapped = λ h o.
              let (off', page, place, there, content) = k.swapped h o in
              (off', page, place, out.others q off' (λ same. ne (sym same)) place ∙ there, content);
          unseen = k.unseen;
        })
  ]

  -- What is valid after the eviction was so before, in another frame.
  stays :
      (f v q : ℕ) (off : Option ℕ) (m : Machine F P)
      → IsConsistent m
      → (m.coremap f).pte ≡ some v
      → (m.ptes v).valid ≡ true
      → (update m.ptes v (evicted off (m.ptes v)) q).valid ≡ true
      → ((m.ptes q).valid ≡ true) × ((update m.ptes v (evicted off (m.ptes v)) q).number ≢ f)
  stays f v q off m c points valid still = elim (ℕ_discrete v q) [
    | yes same ↦
        let out : (m.ptes q).valid ≡ true = subst (λ x. (m.ptes x).valid ≡ true) same valid in
        absurd (ground (arith, still, same, valid, out))
    | no ne ↦
        let e = eq-false v q ne in
        let before : (m.ptes q).valid ≡ true = rw e at still in
        (
          before,
          rw e (λ there.
              let back = subst (λ g. (m.coremap g).pte ≡ some q) there (c.links.back q before) in
              ne (ground (arith, back, points))),
        )
  ]

  pub evict_frame-Waiting :
      (d : Device F) (get : F → ℕ → Option Page) (p f v : ℕ) (pages : List ℕ) (m : Machine F P)
      (mem : ℕ → Option Page)
      → IsReliable d get
      → IsConsistent m
      → Stored get pages m mem
      → (m.ptes p).valid ≡ false
      → ((g : ℕ) → g < m.memsize → (m.coremap g).in_use ≡ true)
      → (m.coremap f).pte ≡ some v
      → (m.ptes v).valid ≡ true
      → (m.ptes v).number ≡ f
      → (m' : Machine F P) × (evict_frame d p f m ≡ some m')
        × ((m'.ptes p).onswap ≡ (m.ptes p).onswap)
        × Waiting get pages p f (occupy p f m') mem
  unfolding evict_frame
  evict_frame-Waiting d get p f v pages m mem reliable c s absent full points valid named =
      let (off, b, file, sent, out) =
        swap_pageout-Out d get f v pages s.placed m reliable c.swap s.slots (s.known v valid) in
      let m1 : Machine F P = record m { swapmap = b; swapfile = file } in
      let (clean, dirty, gone) = retire-keeps v (some off) m1 in
      let entries = update m.ptes v (evicted (some off) (m.ptes v)) in
      let m2 : Machine F P = record m1 {
        ptes = entries;
        evict_clean_count = clean;
        evict_dirty_count = dirty;
      } in
      let (memory, back, agree, read) = bring_in-reads d p f m2 in
      let ne : (v == p) ≡ false =
        eq-false v p (λ h. ground (arith, ap (λ q. (m.ptes q).valid) h, valid, absent)) in
      (
        record m2 { physmem = memory },
        rw (points, sent, evict_frame, gone) (ap some back),
        rw ne refl,
        record {
          old = m.physmem;
          kept = λ q. evicted-Kept get f v off q pages m mem b file s out valid named;
          agree = agree;
          apart = λ q h. (stays f v q (some off) m c points valid h).1;
          absent = rw ne absent;
          mine = λ o.
              let was : (m.ptes p).onswap ≡ true = rw ne at o in
              let (o', page, place, there, content) = (s.kept p).swapped absent was in
              let place' : (entries p).swap_off ≡ some o' = rw ne place in
              let apart : p ≢ v = λ same. ground (arith, ne, same) in
              content
              ∙ ap some (
                  sym (
                    read o' place'
                    ∙ reliable.reads file o' (m.physmem f) page
                        (out.others p o' apart place ∙ there)));
          placed = out.placed;
          slots = subst (λ g. Slots g b out.placed pages) (fun_ext λ q. ground arith) out.slots;
          crowded = λ q h o g lt. ground (arith, full g lt);
          known = λ q h. s.known q (stays f v q (some off) m c points valid h).0;
          closed = λ q shut.
              let apart = eq-false v q (λ h.
                ground (arith, c.links.opened v valid, ap (λ x. m.pgdir (x / 4096)) h, shut)) in
              rw apart (s.closed q shut);
        },
      )
