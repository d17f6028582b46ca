-- ===== src/Memory/Content/Trace.antt =====
-- What `access_mem` and `replay_trace` of A3/sim.c find and leave in the pages.
use csc_369_operating_system.Common.{
  ℕ, ◌+◌, ◌^◌, ◌<◌, Bool, true, List, [], ◌∷◌, Option, some, if◌then◌else◌, ◌==◌, update, ◌≡◌, ◌≢◌,
  refl, sym, ap, ◌∙◌, arith, inl, inr, Bool-cases, ℕ_discrete, eq-false, subst, update_self,
}
use csc_369_operating_system.Memory.Machine.{Page, Device, Machine, Functions}
use csc_369_operating_system.Memory.PageTable.Translate.{
  page_of, find_physpage, access_mem, replay_trace,
}
use csc_369_operating_system.Memory.PageTable.Promise.{IsConsistent, IsPolicy, Invariant, used}
use csc_369_operating_system.Memory.PageTable.Resident.{find_physpage-Translated}
use csc_369_operating_system.Memory.Replay.{IsTrace}
use csc_369_operating_system.Memory.Policy.Queue.{Absent}
use csc_369_operating_system.Memory.Content.{
  IsReliable, Kept, Stored, first_content, written, remember, remember_all,
}
use csc_369_operating_system.Memory.Content.Enter.{find_physpage-Stored}

-- The pages of a trace are among the given ones.
unfoldable pub IsListed : List ℕ → List (ℕ × Bool) → Type 0
IsListed pages [] = Unit
IsListed pages ((vaddr, write) ∷ lines) = (¬ Absent (page_of vaddr) pages) × IsListed pages lines

module _ {F P : Type 0} where
  -- A page in memory is written to.
  write-Stored :
      (get : F → ℕ → Option Page) (pages : List ℕ) (p f : ℕ) (m : Machine F P)
      (mem : ℕ → Option Page) (c c' : Page)
      → IsConsistent m
      → Stored get pages m (update mem p (some c))
      → (m.ptes p).valid ≡ true
      → (m.ptes p).number ≡ f
      → Stored get pages (record m { physmem = update m.physmem f c' }) (update mem p (some c'))
  write-Stored get pages p f m mem c c' consistent s valid named = record {
    kept = λ q. elim (ℕ_discrete p q) [
      | yes same ↦
          subst
            (λ x. Kept get (m.ptes x) (update m.physmem f c') m.swapfile (update mem p (some c') x))
            same
            (record {
              resident = λ h.
                  update_self mem p (some c')
                  ∙ ap some (sym (ap (update m.physmem f c') named ∙ update_self m.physmem f c'));
              swapped = λ h. absurd (ground (arith, h, valid));
              unseen = λ h. absurd (ground (arith, h, valid));
            })
      | no ne ↦
          let k = rw (eq-false p q ne) at (s.kept q) in
          rw (eq-false p q ne) (record {
            resident = λ h.
                let apart : f ≢ (m.ptes q).number = λ same.
                  let points =
                    subst (λ g. (m.coremap g).pte ≡ some q) (sym same)
                      (consistent.links.back q h) in
                  let mine =
                    subst (λ g. (m.coremap g).pte ≡ some p) named (consistent.links.back p valid) in
                  ne (ground (arith, points, mine)) in
                rw (eq-false f (m.ptes q).number apart) (k.resident h);
            swapped = k.swapped;
            unseen = k.unseen;
          })
    ];
    placed = s.placed;
    slots = s.slots;
    crowded = s.crowded;
    known = s.known;
    closed = s.closed;
  }

  access_mem-finds :
      (d : Device F) (alg : Functions F P) (vaddr f : ℕ) (write : Bool) (m m1 : Machine F P)
      (c : Page)
      → find_physpage d alg vaddr write m ≡ some (f, m1)
      → m1.physmem f ≡ c
      → access_mem d alg vaddr write m
        ≡ some (
          c.vaddr == vaddr,
          if write
              then record m1 {
                physmem = update m1.physmem f (record c { version = c.version + 1 });
              }
              else m1,
        )
  unfolding access_mem
  access_mem-finds d alg vaddr f write m m1 c found here =
      rw (found, access_mem)
        (ap
          (λ page. some (
            page.vaddr == vaddr,
            if write
                then record m1 {
                  physmem = update m1.physmem f (record page { version = page.version + 1 });
                }
                else m1,
          ))
          here)

  -- On a machine that keeps all contents, and is consistent, with at least one frame, any replacement
  -- algorithm that keeps its promises and is ready, and a swap file that keeps what is written to it,
  -- `access_mem` takes no fault for a page among those that the swap space has room for and an address
  -- of 36 bits. It finds the expected address in the frame if and only if this is the address of the
  -- first access to the page, a write counts the page's version up, and all other contents are kept.
  -- The machine is consistent and the algorithm ready again.
  pub access_mem-Stored :
      (d : Device F) (get : F → ℕ → Option Page) (alg : Functions F P) (vaddr : ℕ) (write : Bool)
      (pages : List ℕ) (m : Machine F P) (mem : ℕ → Option Page) {Ready : Invariant P}
      {Fresh : ℕ → Invariant P} (policy : IsPolicy alg Ready Fresh)
      → IsReliable d get
      → IsConsistent m
      → Ready m.memsize m.alg (used m)
      → 0 < m.memsize
      → vaddr < 2 ^ 36
      → Stored get pages m mem
      → ¬ Absent (page_of vaddr) pages
      → (m' : Machine F P) × (access_mem d alg vaddr write m
          ≡ some ((first_content vaddr (mem (page_of vaddr))).vaddr == vaddr, m'))
        × Stored get pages m' (remember vaddr write mem)
        × IsConsistent m'
        × (m'.memsize ≡ m.memsize)
        × Ready m'.memsize m'.alg (used m')
  access_mem-Stored d get alg vaddr write pages m mem policy reliable c ready some_frame short s
        listed =
      let p = page_of vaddr in
      let first = first_content vaddr (mem p) in
      let (f, m1, e, found, again) =
        find_physpage-Translated d alg vaddr write m policy c ready some_frame short in
      let (g, x, e', content, stored) =
        find_physpage-Stored d get alg vaddr write pages m mem policy reliable c ready some_frame
          short s listed in
      let frames : g ≡ f = ground (arith, e, e') in
      let machines : x ≡ m1 = ground (arith, e, e') in
      let here : m1.physmem f ≡ first =
        sym (ap (λ y. y.physmem f) machines) ∙ ap x.physmem (sym frames) ∙ content in
      let kept = subst (λ y. Stored get pages y (update mem p (some first))) machines stored in
      let did = access_mem-finds d alg vaddr f write m m1 first e here in
      elim (Bool-cases write) [
        | inl w ↦
            let new : Page = record first { version = first.version + 1 } in
            let after : Machine F P = record m1 { physmem = update m1.physmem f new } in
            (
              after,
              did ∙ ap (λ b. some (first.vaddr == vaddr, if b then after else m1)) w,
              subst (λ b. Stored get pages after (update mem p (some (written b first)))) (sym w)
                  (write-Stored get pages p f m1 mem first new found.consistent kept found.valid
                    found.named),
              record {
                links = found.consistent.links;
                swap = found.consistent.swap;
                small = found.consistent.small;
                counted = found.consistent.counted;
              },
              found.memsize,
              again,
            )
        | inr w ↦ (
          m1,
          did
              ∙ ap
                  (λ b. some (
                    first.vaddr == vaddr,
                    if b
                        then record m1 {
                          physmem =
                              update m1.physmem f (record first { version = first.version + 1 });
                        }
                        else m1,
                  ))
                  w,
          subst (λ b. Stored get pages m1 (update mem p (some (written b first)))) (sym w) kept,
          found.consistent,
          found.memsize,
          again,
        )
      ]

  pub replay_trace-Stored :
      (d : Device F) (get : F → ℕ → Option Page) (alg : Functions F P) (lines : List (ℕ × Bool))
      (pages : List ℕ) (m : Machine F P) (mem : ℕ → Option Page) {Ready : Invariant P}
      {Fresh : ℕ → Invariant P} (policy : IsPolicy alg Ready Fresh)
      → IsReliable d get
      → IsConsistent m
      → Ready m.memsize m.alg (used m)
      → 0 < m.memsize
      → IsTrace lines
      → IsListed pages lines
      → Stored get pages m mem
      → (m' : Machine F P) × (replay_trace d alg lines m ≡ some m')
        × Stored get pages m' (remember_all lines mem)
  unfolding replay_trace IsTrace IsListed remember_all
  replay_trace-Stored d get alg [] pages m mem policy reliable c ready some_frame trace listed s =
      (m, refl, s)
  replay_trace-Stored d get alg ((vaddr, write) ∷ lines) pages m mem policy reliable c ready
        some_frame trace listed s =
      let (m1, e, s1, c1, size, ready1) =
        access_mem-Stored d get alg vaddr write pages m mem policy reliable c ready some_frame
          trace.0 s listed.0 in
      let (m2, e2, s2) =
        replay_trace-Stored d get alg lines pages m1 (remember vaddr write mem) policy reliable c1
          ready1 (rw size some_frame) trace.1 listed.1 s1 in
      (m2, rw (e, replay_trace) e2, s2)
