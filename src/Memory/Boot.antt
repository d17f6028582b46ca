-- ===== src/Memory/Boot.antt =====
-- The middle part of `main` in A3/sim.c: from the initialisation to the end of the replay.
use csc_369_operating_system.Common.{
  ℕ, ◌+◌, ◌<◌, ◌≤◌, ◌^◌, Bool, false, List, [], Option, none, some, length, ◌≡◌, refl, arith, inl,
}
use csc_369_operating_system.Memory.Bitmap.Bits.{Bitmap, bitmap_create}
use csc_369_operating_system.Memory.Bitmap.Alloc.{IsValid}
use csc_369_operating_system.Memory.Bitmap.Marks.{bitmap_create-clear}
use csc_369_operating_system.Memory.Machine.{Page, Device, Machine, Functions}
use csc_369_operating_system.Memory.PageTable.Translate.{replay_trace, blank_pte}
use csc_369_operating_system.Memory.PageTable.Promise.{IsConsistent, IsPolicy, Invariant}
use csc_369_operating_system.Memory.Replay.{IsTrace, replay_trace-IsConsistent, clock-IsPolicy}
use csc_369_operating_system.Memory.Policy.Clock.{clock}
use csc_369_operating_system.Memory.Policy.Rand.{rand, rand-IsPolicy}
use csc_369_operating_system.Memory.Policy.Queue.{next, first, last, Absent, IsDistinct}
use csc_369_operating_system.Memory.Policy.Recency.{prev}
use csc_369_operating_system.Memory.Policy.Lru.{Lru, lru}
use csc_369_operating_system.Memory.Policy.Usage.{Ordered}
use csc_369_operating_system.Memory.Policy.Recent.{lru-IsPolicy}

-- The state once `calloc`, `swap_init` and `init_pagetable` have run: the simulated memory is not
-- set, and `alg` is what the algorithm starts from.
unfoldable pub boot : {F P : Type 0} → ℕ → (ℕ → Page) → Bitmap → F → P → Machine F P
boot memsize memory swapmap file a = record {
  memsize = memsize;
  coremap = λ f. record { in_use = false; pte = none; vaddr = 0 };
  physmem = memory;
  pgdir = λ i. false;
  ptes = λ p. blank_pte;
  swapmap = swapmap;
  swapfile = file;
  hit_count = 0;
  miss_count = 0;
  ref_count = 0;
  evict_clean_count = 0;
  evict_dirty_count = 0;
  alg = a;
}

-- `main` from there to the end of `replay_trace`.
unfoldable pub simulate :
    {F P : Type 0}
    → Device F
    → Functions F P
    → ℕ
    → ℕ
    → (ℕ → Page)
    → F
    → P
    → List (ℕ × Bool)
    → Option (Machine F P)
simulate d alg memsize swapsize memory file a lines = elim (bitmap_create swapsize) [
  | none ↦ none
  | some b ↦ replay_trace d alg lines (boot memsize memory b file a)
]

pub boot-IsConsistent :
    {F P : Type 0} (memsize : ℕ) (memory : ℕ → Page) (b : Bitmap) (file : F) (a : P)
    → memsize ≤ 2 ^ 20
    → IsValid b
    → IsConsistent (boot memsize memory b file a)
unfolding boot
boot-IsConsistent memsize memory b file a small v = record {
  links = record {
    below = λ p h. ground (arith, h);
    back = λ p h. ground (arith, h);
    taken = λ p h. ground (arith, h);
    present = λ p h. ground (arith, h);
    opened = λ p h. ground (arith, h);
    holds = λ f lt h. absurd (ground (arith, h));
  };
  swap = v;
  small = small;
  counted = refl;
}

-- The simulation with an algorithm that keeps its promises and starts from a state in which it is
-- ready.
simulate-IsConsistent :
    {F P : Type 0} (d : Device F) (alg : Functions F P) (memsize swapsize : ℕ) (memory : ℕ → Page)
    (file : F) (a : P) (lines : List (ℕ × Bool)) {Ready : Invariant P} {Fresh : ℕ → Invariant P}
    (policy : IsPolicy alg Ready Fresh)
    → Ready memsize a (λ f. false)
    → 0 < memsize
    → memsize ≤ 2 ^ 20
    → swapsize + 32 ≤ 2 ^ 32
    → IsTrace lines
    → (m : Machine F P) × (simulate d alg memsize swapsize memory file a lines ≡ some m)
      × IsConsistent m
      × (m.ref_count ≡ length lines)
unfolding simulate boot
simulate-IsConsistent d alg memsize swapsize memory file a lines policy ready some_frame small swap
      trace =
    let (b, made, size, v, clear) = bitmap_create-clear swapsize swap in
    let (m, e, c, all, again) =
      replay_trace-IsConsistent d alg lines (boot memsize memory b file a) policy
        (boot-IsConsistent memsize memory b file a small v) ready some_frame trace in
    (m, rw (made, simulate) e, c, omega (arith, all))

abbrev pub no_frames : Lru
no_frames = record {
  top_node = none;
  bottom_node = none;
  frame_above = λ f. none;
  frame_below = λ f. none;
}

pub no_frames-Ordered : (n : ℕ) → 2 ≤ n → Ordered n no_frames (λ f. false)
unfolding first last next prev Absent IsDistinct
no_frames-Ordered n several = record {
  several = several;
  order = [];
  represents = record {
    distinct = tt;
    above = λ x. refl;
    below = λ x. refl;
    bottom = refl;
    top = inl refl;
  };
  covers = record { below = λ x. inl tt; all = λ x lt has. absurd (ground (arith, has)) };
  top = inl refl;
}

-- A run has not faulted; the machine is consistent in the end, and has counted as many references as
-- the trace has accesses.
abbrev pub Completed : {F P : Type 0} → List (ℕ × Bool) → Option (Machine F P) → Type 0
Completed {F} {P} lines result =
    (m : Machine F P) × (result ≡ some m) × IsConsistent m × (m.ref_count ≡ length lines)

-- The simulator takes no fault with two to 2 ^ 20 frames, a swap space whose size does not overflow,
-- any swap file, and any trace of addresses of 36 bits, with `lru`, `clock` and `rand`. The machine is
-- consistent in the end, and has counted as many references as the trace has accesses.
pub simulate-Completes :
    {F : Type 0} (d : Device F) (memsize swapsize : ℕ) (memory : ℕ → Page) (file : F)
    (numbers : ℕ → ℕ) (lines : List (ℕ × Bool))
    → 2 ≤ memsize
    → memsize ≤ 2 ^ 20
    → swapsize + 32 ≤ 2 ^ 32
    → IsTrace lines
    → Completed lines (simulate d lru memsize swapsize memory file no_frames lines)
      × Completed lines (simulate d clock memsize swapsize memory file 0 lines)
      × Completed lines (simulate d rand memsize swapsize memory file numbers lines)
simulate-Completes d memsize swapsize memory file numbers lines several small swap trace = (
  simulate-IsConsistent d lru memsize swapsize memory file no_frames lines lru-IsPolicy
      (no_frames-Ordered memsize several) (omega arith) small swap trace,
  simulate-IsConsistent d clock memsize swapsize memory file 0 lines clock-IsPolicy tt (omega arith)
      small swap trace,
  simulate-IsConsistent d rand memsize swapsize memory file numbers lines rand-IsPolicy tt
      (omega arith) small swap trace,
)
