-- ===== src/Memory/Content/Tests.antt =====
-- A swap file in memory, and a trace of three pages in two frames.
use csc_369_operating_system.Common.{
  ℕ, ◌*◌, Bool, true, false, List, [], ◌∷◌, Option, none, some, update, ◌≡◌, refl, arith,
  update_self, eq-false, replicate, subst, lt→ltb, ◌<◌,
}
use csc_369_operating_system.Memory.Bitmap.Bits.{Bitmap, bitmap_create, fill_from}
use csc_369_operating_system.Memory.Bitmap.Alloc.{bit, IsValid}
use csc_369_operating_system.Memory.Bitmap.Marks.{bitmap_create-clear}
use csc_369_operating_system.Memory.Machine.{Page, Machine, Device}
use csc_369_operating_system.Memory.PageTable.Translate.{access_mem}
use csc_369_operating_system.Memory.PageTable.Promise.{IsConsistent}
use csc_369_operating_system.Memory.Replay.{IsTrace, clock-IsPolicy}
use csc_369_operating_system.Memory.Policy.Clock.{clock}
use csc_369_operating_system.Memory.Policy.Rand.{rand}
use csc_369_operating_system.Memory.Policy.Queue.{Absent}
use csc_369_operating_system.Memory.Policy.Lru.{lru}
use csc_369_operating_system.Memory.Boot.{boot, simulate, no_frames, boot-IsConsistent}
use csc_369_operating_system.Memory.Content.{IsReliable, Stored, remember}
use csc_369_operating_system.Memory.Content.Trace.{IsListed, access_mem-Stored}
use csc_369_operating_system.Memory.Outcome.{Preserved, boot-Stored, simulate-Preserves}

abbrev bits : Bitmap
bits = record { nbits = 34; v = replicate 32 false ∷ (false ∷ false ∷ replicate 30 true) ∷ [] }

bits-created : bitmap_create 34 ≡ some bits
unfolding bitmap_create fill_from
bits-created = refl

bits-clear : IsValid bits × ((k : ℕ) → k < 34 → bit bits.v k ≡ false)
bits-clear =
    let (b, e, size, v, clear) = bitmap_create-clear 34 (omega arith) in
    let same : b ≡ bits = ground (arith, e, bits-created) in
    subst (λ b. IsValid b × ((k : ℕ) → k < 34 → bit b.v k ≡ false)) same
      (v, λ k lt. ground (arith, clear k, lt→ltb k 34 lt))

abbrev File : Type 0
File = ℕ → Option Page

abbrev read_back : Option Page → Page → Page
read_back none old = old
read_back (some page) old = page

abbrev disk : Device File
disk = record {
  write = λ file off page. (update file off (some page), true);
  read = λ file off old. (read_back (file off) old, true);
}

abbrev contents : File → ℕ → Option Page
contents file = file

disk-IsReliable : IsReliable disk contents
disk-IsReliable = record {
  writes = λ file off page. refl;
  stores = λ file off page. update_self file off (some page);
  keeps =
      λ file i j page ne. rw (eq-false (i * 16) (j * 16) (λ same. ne (omega (arith, same)))) refl;
  reads = λ file off old page there. rw there refl;
}

abbrev trace : List (ℕ × Bool)
trace =
    (20480, true)
    ∷ (24576, false)
    ∷ (28672, true)
    ∷ (20480, true)
    ∷ (24580, false)
    ∷ (28672, false)
    ∷ []

trace-IsTrace : IsTrace trace
unfolding IsTrace
trace-IsTrace =
    (omega arith, (omega arith, (omega arith, (omega arith, (omega arith, (omega arith, tt))))))

abbrev pages : List ℕ
pages = 5 ∷ 6 ∷ 7 ∷ []

trace-IsListed : IsListed pages trace
unfolding IsListed Absent
trace-IsListed = (
  (λ h. h.0 refl),
  (
    (λ h. h.1.0 refl),
    ((λ h. h.1.1.0 refl), ((λ h. h.0 refl), ((λ h. h.1.0 refl), ((λ h. h.1.1.0 refl), tt)))),
  ),
)

abbrev memory : ℕ → Page
memory = λ f. record { version = 0; vaddr = 0 }

simulate-Preserves_example :
    Preserved contents trace (simulate disk lru 2 34 memory (λ off. none) no_frames trace)
    × Preserved contents trace (simulate disk clock 2 34 memory (λ off. none) 0 trace)
    × Preserved contents trace (simulate disk rand 2 34 memory (λ off. none) (λ i. i) trace)
simulate-Preserves_example =
    simulate-Preserves disk contents 2 34 memory (λ off. none) (λ i. i) trace pages disk-IsReliable
      (omega arith) (omega arith) (omega arith) trace-IsTrace trace-IsListed (omega arith)

abbrev machine : Machine File ℕ
machine = boot 2 memory bits (λ off. none) 0

empty : Stored contents pages machine (λ q. none)
empty = boot-Stored contents pages 2 34 memory bits (λ off. none) 0 refl (omega arith) bits-clear.1

access_mem-Stored_example :
    (m' : Machine File ℕ) × (access_mem disk clock 20484 true machine ≡ some (true, m'))
    × Stored contents pages m' (remember 20484 true (λ q. none))
    × IsConsistent m'
    × (m'.memsize ≡ 2)
    × Unit {0}
unfolding boot Absent
access_mem-Stored_example =
    access_mem-Stored disk contents clock 20484 true pages machine (λ q. none) clock-IsPolicy
      disk-IsReliable (boot-IsConsistent 2 memory bits (λ off. none) 0 (omega arith) bits-clear.0)
      tt (omega arith) (omega arith) empty (λ h. h.0 refl)
