-- ===== src/Memory/Tests.antt =====
-- A bitmap of 34 bits, a machine of two frames, and orders of two frames.
use csc_369_operating_system.Common.{
  ℕ, ◌+◌, ◌<◌, Bool, true, false, List, [], ◌∷◌, none, some, if◌then◌else◌, ◌==◌, replicate, update,
  ◌≡◌, refl, subst, arith, ◌⊎◌, inl, inr,
}
use csc_369_operating_system.Memory.Bitmap.Bits.{Bitmap, bitmap_create, bitmap_alloc, fill_from}
use csc_369_operating_system.Memory.Bitmap.Alloc.{bit, IsValid, Found, bitmap_alloc-least}
use csc_369_operating_system.Memory.Bitmap.Marks.{bitmap_create-clear}
use csc_369_operating_system.Memory.Machine.{Page, Machine, Device}
use csc_369_operating_system.Memory.PageTable.Translate.{find_physpage, replay_trace, blank_pte}
use csc_369_operating_system.Memory.PageTable.Promise.{IsConsistent, IsPolicy}
use csc_369_operating_system.Memory.PageTable.Resident.{Translated, find_physpage-Translated}
use csc_369_operating_system.Memory.Replay.{IsTrace, clock-IsPolicy, replay_trace-IsConsistent}
use csc_369_operating_system.Memory.Policy.Rand.{rand}
use csc_369_operating_system.Memory.Policy.Queue.{Absent, IsDistinct, next, first, last}
use csc_369_operating_system.Memory.Policy.Recency.{prev}
use csc_369_operating_system.Memory.Policy.Clock.{clock, clock_evict, Chosen, clock_evict-Chosen}
use csc_369_operating_system.Memory.Policy.Fifo.{
  Fifo, enqueue, dequeue, IsQueue, enqueue-IsQueue, dequeue-IsQueue, enqueue-youngest,
}
use csc_369_operating_system.Memory.Policy.Lru.{Lru, lru, reference}
use csc_369_operating_system.Memory.Policy.Usage.{Ordered, Awaiting}
use csc_369_operating_system.Memory.Policy.Recent.{lru-IsPolicy}
use csc_369_operating_system.Memory.Boot.{Completed, simulate, no_frames, simulate-Completes}
use csc_369_operating_system.Memory.Policy.Order.{Represents, refreshed}
use csc_369_operating_system.Memory.Policy.Reference.{reference-Represents}

abbrev bits : Bitmap
bits = record { nbits = 34; v = replicate 32 false ∷ (false ∷ false ∷ replicate 30 true) ∷ [] }

bits-created : bitmap_create 34 ≡ some bits
unfolding bitmap_create fill_from
bits-created = refl

bits-IsValid : IsValid bits
bits-IsValid =
    let (b, e, size, v, clear) = bitmap_create-clear 34 (omega arith) in
    let same : b ≡ bits = ground (arith, e, bits-created) in subst IsValid same v

bitmap_alloc-least_example :
    ((i : ℕ) × (after : Bitmap) × (bitmap_alloc bits ≡ some (some i, after))
      × (i < 34)
      × (after.nbits ≡ 34)
      × Found bits.v i after.v
      × IsValid after)
    ⊎ ((bitmap_alloc bits ≡ some (none, bits)) × ((k : ℕ) → bit bits.v k ≡ true))
bitmap_alloc-least_example = bitmap_alloc-least bits-IsValid

-- Two frames with the pages 7 and 8, both referenced; the hand is past the last frame.
abbrev machine : Machine Unit ℕ
machine = record {
  memsize = 2;
  coremap = λ i. record { in_use = true; pte = some (7 + i); vaddr = 0 };
  physmem = λ i. record { version = 0; vaddr = 0 };
  pgdir = λ i. true;
  ptes = λ p. record {
    number = (if p == 7 then 0 else 1);
    valid = true;
    dirty = true;
    ref = true;
    onswap = false;
    swap_off = none;
  };
  swapmap = bits;
  swapfile = tt;
  hit_count = 0;
  miss_count = 2;
  ref_count = 2;
  evict_clean_count = 0;
  evict_dirty_count = 0;
  alg = 2;
}

clock_evict-Chosen_example :
    (victim : ℕ) × (after : Machine Unit ℕ) × (clock_evict machine ≡ some (victim, after))
    × Chosen machine victim after
clock_evict-Chosen_example =
    clock_evict-Chosen machine (omega arith) (λ i lt missing. ground (arith, missing))

abbrev no_queue : Fifo
no_queue = record { oldest = none; youngest = none; frame_above = λ x. none }

no_queue-IsQueue : IsQueue no_queue []
unfolding next first last IsDistinct
no_queue-IsQueue = record { distinct = tt; links = λ x. refl; front = refl; back = inl refl }

no_member : Absent 3 []
unfolding Absent
no_member = tt

enqueue-IsQueue_example : IsQueue (enqueue 3 no_queue) (3 ∷ [])
enqueue-IsQueue_example = enqueue-IsQueue no_queue [] 3 no_queue-IsQueue no_member

abbrev two_queued : Fifo
two_queued = record {
  oldest = some 3;
  youngest = some 5;
  frame_above = update (update (λ x. none) 3 none) 3 (some 5);
}

two_queued-IsQueue : IsQueue two_queued (3 ∷ 5 ∷ [])
unfolding next first last IsDistinct Absent
two_queued-IsQueue = record {
  distinct = (((λ same. ground (arith, same)), tt), (tt, tt));
  links = λ x. ground arith;
  front = refl;
  back = inl refl;
}

dequeue-IsQueue_example : (s' : Fifo) × (dequeue two_queued ≡ some (3, s')) × IsQueue s' (5 ∷ [])
dequeue-IsQueue_example = dequeue-IsQueue two_queued 3 5 [] two_queued-IsQueue

ends : last (3 ∷ 5 ∷ []) ≡ some 5
unfolding last
ends = refl

enqueue-youngest_example :
    ((enqueue 5 two_queued).frame_above 5 ≡ some 5)
    × ((q : List ℕ) → ¬ IsQueue (enqueue 5 two_queued) q)
enqueue-youngest_example = enqueue-youngest two_queued 3 (5 ∷ []) 5 two_queued-IsQueue ends

abbrev two_used : Lru
two_used = record {
  top_node = some 5;
  bottom_node = some 3;
  frame_above = update (λ x. none) 3 (some 5);
  frame_below = update (λ x. none) 5 (some 3);
}

two_used-Represents : Represents two_used (3 ∷ 5 ∷ [])
unfolding next prev first last IsDistinct Absent
two_used-Represents = record {
  distinct = (((λ same. ground (arith, same)), tt), (tt, tt));
  above = λ x. ground arith;
  below = λ x. ground arith;
  bottom = refl;
  top = inl refl;
}

reference-Represents_example :
    (s' : Lru) × (reference 3 two_used ≡ some s') × Represents s' (refreshed 3 (3 ∷ 5 ∷ []))
reference-Represents_example =
    reference-Represents two_used (3 ∷ 5 ∷ []) 3 two_used-Represents
      (inr (λ same. ground (arith, same)))

abbrev one_used : Lru
one_used = record {
  top_node = none;
  bottom_node = some 3;
  frame_above = λ x. none;
  frame_below = λ x. none;
}

one_used-Represents : Represents one_used (3 ∷ [])
unfolding next prev first last IsDistinct Absent
one_used-Represents = record {
  distinct = (tt, tt);
  above = λ x. refl;
  below = λ x. refl;
  bottom = refl;
  top = inr (refl, refl);
}

-- A swap file in memory.
abbrev disk : Device (ℕ → Page)
disk = record {
  write = λ file off page. (update file off page, true);
  read = λ file off page. (file off, true);
}

-- One frame, and nothing referenced yet.
abbrev initial : Machine (ℕ → Page) ℕ
initial = record {
  memsize = 1;
  coremap = λ i. record { in_use = false; pte = none; vaddr = 0 };
  physmem = λ i. record { version = 0; vaddr = 0 };
  pgdir = λ i. false;
  ptes = λ p. blank_pte;
  swapmap = bits;
  swapfile = λ off. record { version = 0; vaddr = 0 };
  hit_count = 0;
  miss_count = 0;
  ref_count = 0;
  evict_clean_count = 0;
  evict_dirty_count = 0;
  alg = 0;
}

initial-IsConsistent : IsConsistent initial
initial-IsConsistent = record {
  links = record {
    below = λ p v. ground (arith, v);
    back = λ p v. ground (arith, v);
    taken = λ p v. ground (arith, v);
    present = λ p v. ground (arith, v);
    opened = λ p v. ground (arith, v);
    holds = λ f lt used. absurd (ground (arith, used));
  };
  swap = bits-IsValid;
  small = omega arith;
  counted = refl;
}

clock-IsPolicy_example :
    IsPolicy {F = ℕ → Page} clock (λ n hand in_use. Unit) (λ n f hand in_use. Unit)
clock-IsPolicy_example = clock-IsPolicy

find_physpage-Translated_example :
    (f : ℕ) × (m' : Machine (ℕ → Page) ℕ) × (find_physpage disk clock 20480 true initial
      ≡ some (f, m'))
    × Translated 20480 true initial f m'
    × Unit {0}
find_physpage-Translated_example =
    find_physpage-Translated disk clock 20480 true initial clock-IsPolicy initial-IsConsistent tt
      (omega arith) (omega arith)

-- Two pages in one frame, so that the first is written to the swap file and read back.
abbrev trace : List (ℕ × Bool)
trace = (20480, true) ∷ (24576, false) ∷ (20480, false) ∷ []

trace-IsTrace : IsTrace trace
unfolding IsTrace
trace-IsTrace = (omega arith, (omega arith, (omega arith, tt)))

replay_trace-IsConsistent_example :
    (m' : Machine (ℕ → Page) ℕ) × (replay_trace disk clock trace initial ≡ some m')
    × IsConsistent m'
    × (m'.ref_count ≡ 0 + 3)
    × Unit {0}
replay_trace-IsConsistent_example =
    replay_trace-IsConsistent disk clock trace initial clock-IsPolicy initial-IsConsistent tt
      (omega arith) trace-IsTrace

lru-IsPolicy_example : IsPolicy {F = ℕ → Page} lru Ordered Awaiting
lru-IsPolicy_example = lru-IsPolicy

simulate-Completes_example :
    Completed trace (simulate disk lru 2 34 initial.physmem initial.swapfile no_frames trace)
    × Completed trace (simulate disk clock 2 34 initial.physmem initial.swapfile 0 trace)
    × Completed trace (simulate disk rand 2 34 initial.physmem initial.swapfile (λ i. i) trace)
simulate-Completes_example =
    simulate-Completes disk 2 34 initial.physmem initial.swapfile (λ i. i) trace (omega arith)
      (omega arith) (omega arith) trace-IsTrace
