-- ===== src/Memory/Outcome.antt =====
-- What A3/sim.c leaves in the pages of a trace.
use csc_369_operating_system.Common.{
  ℕ, ◌+◌, ◌^◌, ◌<◌, ◌≤◌, Bool, true, false, List, [], ◌∷◌, Option, none, some, if◌then◌else◌, ◌==◌,
  length, ◌≡◌, refl, sym, ap, ◌∙◌, arith, inl, inr, Option-cases, ℕ_discrete, eq-false, subst,
  lt→ltb,
}
use csc_369_operating_system.Memory.Bitmap.Bits.{Bitmap}
use csc_369_operating_system.Memory.Bitmap.Alloc.{bit}
use csc_369_operating_system.Memory.Bitmap.Marks.{bitmap_create-clear}
use csc_369_operating_system.Memory.Machine.{Page, Device, Machine, Functions}
use csc_369_operating_system.Memory.PageTable.Translate.{page_of}
use csc_369_operating_system.Memory.PageTable.Promise.{IsPolicy, Invariant}
use csc_369_operating_system.Memory.Replay.{IsTrace, clock-IsPolicy}
use csc_369_operating_system.Memory.Policy.Clock.{clock}
use csc_369_operating_system.Memory.Policy.Rand.{rand, rand-IsPolicy}
use csc_369_operating_system.Memory.Policy.Queue.{Absent, IsDistinct}
use csc_369_operating_system.Memory.Policy.Lru.{lru}
use csc_369_operating_system.Memory.Policy.Recent.{lru-IsPolicy}
use csc_369_operating_system.Memory.Content.{
  IsReliable, Kept, Stored, first_content, written, remember, remember_all,
}
use csc_369_operating_system.Memory.Content.Trace.{IsListed, replay_trace-Stored}
use csc_369_operating_system.Memory.Boot.{
  boot, simulate, boot-IsConsistent, no_frames, no_frames-Ordered,
}

-- How often a trace writes to a page.
unfoldable pub writes_to : ℕ → List (ℕ × Bool) → ℕ
writes_to p [] = 0
writes_to p ((vaddr, write) ∷ lines) =
    let rest = writes_to p lines in
    if page_of vaddr == p then (if write then rest + 1 else rest) else rest

-- The address of the first access to a page.
unfoldable pub first_address : ℕ → List (ℕ × Bool) → Option ℕ
first_address p [] = none
first_address p ((vaddr, write) ∷ lines) =
    let rest = first_address p lines in if page_of vaddr == p then some vaddr else rest

-- What a page is to hold after a trace, if it had the given contents: its version counts the
-- writes, and its address is the one that it was first accessed by.
abbrev pub history : Option Page → ℕ → Option ℕ → Option Page
history (some c) writes address = some (record c { version = c.version + writes })
history none writes none = none
history none writes (some vaddr) = some (record { version = writes; vaddr = vaddr })

history-written :
    (c : Option Page) (vaddr writes : ℕ) (write : Bool) (address : Option ℕ)
    → history (some (written write (first_content vaddr c))) writes address
      ≡ history c (if write then writes + 1 else writes) (some vaddr)
history-written none vaddr writes true address =
    ap (λ n. some (record { version = n; vaddr = vaddr })) (omega arith)
history-written none vaddr writes false address =
    ap (λ n. some (record { version = n; vaddr = vaddr })) (omega arith)
history-written (some c) vaddr writes true address =
    ap (λ n. some (record c { version = n })) (omega arith)
history-written (some c) vaddr writes false address = refl

remember_all-history :
    (p : ℕ) (lines : List (ℕ × Bool)) (mem : ℕ → Option Page)
    → remember_all lines mem p ≡ history (mem p) (writes_to p lines) (first_address p lines)
unfolding remember_all writes_to first_address
remember_all-history p [] mem = elim (Option-cases (mem p)) [
  | inl e ↦ rw e refl
  | inr (c, e) ↦ rw e (ap some (ap (λ n. record c { version = n }) (omega arith)))
]
remember_all-history p ((vaddr, write) ∷ lines) mem =
    let now = remember_all-history p lines (remember vaddr write mem) in
    elim (ℕ_discrete (page_of vaddr) p) [
      | yes same ↦
          let e : (page_of vaddr == p) ≡ true = ground (arith, same) in
          let writes = writes_to p lines in
          let later = first_address p lines in
          now
          ∙ rw e (
              ap (λ x. history (some (written write (first_content vaddr x))) writes later)
                (ap mem same)
              ∙ history-written (mem p) vaddr writes write later)
      | no ne ↦ now ∙ rw (eq-false (page_of vaddr) p ne) refl
    ]

pub boot-Stored :
    {F P : Type 0} (get : F → ℕ → Option Page) (pages : List ℕ) (memsize swapsize : ℕ)
    (memory : ℕ → Page) (b : Bitmap) (file : F) (a : P)
    → b.nbits ≡ swapsize
    → length pages ≤ swapsize
    → ((k : ℕ) → k < b.nbits → bit b.v k ≡ false)
    → Stored get pages (boot memsize memory b file a) (λ q. none)
unfolding boot Absent IsDistinct
boot-Stored get pages memsize swapsize memory b file a size room clear = record {
  kept = λ q. record {
    resident = λ h. absurd (ground (arith, h));
    swapped = λ h o. absurd (ground (arith, o));
    unseen = λ h o. (refl, refl);
  };
  placed = [];
  slots = record {
    offs = λ q off e. absurd (ground (arith, e));
    without = λ q e. tt;
    distinct = tt;
    among = λ q h. tt;
    marked = λ k lt. absurd (omega (arith, lt));
    clear = λ k le lt. clear k lt;
    room = rw size room;
  };
  crowded = λ q h o. absurd (ground (arith, o));
  known = λ q h. absurd (ground (arith, h));
  closed = λ q h. refl;
}

module _ {F P : Type 0} where
  simulate-Kept :
      (d : Device F) (get : F → ℕ → Option Page) (alg : Functions F P) (memsize swapsize : ℕ)
      (memory : ℕ → Page) (file : F) (a : P) (lines : List (ℕ × Bool)) (pages : List ℕ)
      {Ready : Invariant P} {Fresh : ℕ → Invariant P} (policy : IsPolicy alg Ready Fresh)
      → IsReliable d get
      → Ready memsize a (λ f. false)
      → 0 < memsize
      → memsize ≤ 2 ^ 20
      → swapsize + 32 ≤ 2 ^ 32
      → IsTrace lines
      → IsListed pages lines
      → length pages ≤ swapsize
      → (m : Machine F P) × (simulate d alg memsize swapsize memory file a lines ≡ some m)
        × ((p : ℕ)
            → Kept get
                (m.ptes p)
                m.physmem
                m.swapfile
                (history none (writes_to p lines) (first_address p lines)))
  unfolding simulate boot
  simulate-Kept d get alg memsize swapsize memory file a lines pages policy reliable ready
        some_frame small swap trace listed room =
      let (b, made, size, v, clear) = bitmap_create-clear swapsize swap in
      let (m, e, s) =
        replay_trace-Stored d get alg lines pages (boot memsize memory b file a) (λ q. none) policy
          reliable (boot-IsConsistent memsize memory b file a small v) ready some_frame trace listed
          (boot-Stored get pages memsize swapsize memory b file a size room
            (λ k lt. ground (arith, clear k, lt→ltb k swapsize (rw (sym size) lt)))) in
      (
        m,
        rw (made, simulate) e,
        λ p.
            subst (λ c. Kept get (m.ptes p) m.physmem m.swapfile c)
              (remember_all-history p lines (λ q. none)) (s.kept p),
      )

-- A run has not faulted, and each page has what its history says: in the frame that its entry names,
-- or in the swap file at the place that its entry names. A page without accesses has neither.
abbrev pub Preserved :
    {F P : Type 0} → (F → ℕ → Option Page) → List (ℕ × Bool) → Option (Machine F P) → Type 0
Preserved {F} {P} get lines result =
    (m : Machine F P) × (result ≡ some m)
    × ((p : ℕ)
        → Kept get (m.ptes p) m.physmem m.swapfile
            (history none (writes_to p lines) (first_address p lines)))

-- Paging loses nothing. With two to 2 ^ 20 frames, a swap file that keeps what is written to it, and
-- a swap space whose size does not overflow and that has room for the pages of the trace, of
-- addresses of 36 bits, the simulator takes no fault with `lru`, `clock` and `rand`, and in the end
-- each page that the trace accesses is in the frame or at the place in the swap file that its page
-- table entry names, with as many versions as the trace has writes to it, and with the address of
-- the first access to it. A page that it does not access has no frame and no place.
pub simulate-Preserves :
    {F : Type 0} (d : Device F) (get : F → ℕ → Option Page) (memsize swapsize : ℕ)
    (memory : ℕ → Page) (file : F) (numbers : ℕ → ℕ) (lines : List (ℕ × Bool)) (pages : List ℕ)
    → IsReliable d get
    → 2 ≤ memsize
    → memsize ≤ 2 ^ 20
    → swapsize + 32 ≤ 2 ^ 32
    → IsTrace lines
    → IsListed pages lines
    → length pages ≤ swapsize
    → Preserved get lines (simulate d lru memsize swapsize memory file no_frames lines)
      × Preserved get lines (simulate d clock memsize swapsize memory file 0 lines)
      × Preserved get lines (simulate d rand memsize swapsize memory file numbers lines)
simulate-Preserves d get memsize swapsize memory file numbers lines pages reliable several small
      swap trace listed room =
    (
      simulate-Kept d get lru memsize swapsize memory file no_frames lines pages lru-IsPolicy
          reliable (no_frames-Ordered memsize several) (omega arith) small swap trace listed room,
      simulate-Kept d get clock memsize swapsize memory file 0 lines pages clock-IsPolicy reliable
          tt (omega arith) small swap trace listed room,
      simulate-Kept d get rand memsize swapsize memory file numbers lines pages rand-IsPolicy
          reliable tt (omega arith) small swap trace listed room,
    )
