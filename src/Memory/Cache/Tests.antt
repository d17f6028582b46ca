-- ===== src/Memory/Cache/Tests.antt =====
-- A trace with hits and misses in two frames.
use csc_369_operating_system.Common.{
  ℕ, ◌+◌, ◌≤◌, Bool, true, false, List, [], ◌∷◌, some, ◌≡◌, refl, arith,
}
use csc_369_operating_system.Memory.Machine.{Machine, Device}
use csc_369_operating_system.Memory.Replay.{IsTrace}
use csc_369_operating_system.Memory.Policy.Lru.{Lru, lru}
use csc_369_operating_system.Memory.Policy.Recency.{remove}
use csc_369_operating_system.Memory.Boot.{simulate, no_frames}
use csc_369_operating_system.Memory.Cache.{cache_hits, holds}
use csc_369_operating_system.Memory.Cache.Larger.{simulate_monotone}
use csc_369_operating_system.Memory.Cache.Hits.{simulate-lru_hits}

-- A swap file that loses everything.
abbrev sink : Device Unit
sink = record { write = λ file off page. (tt, true); read = λ file off page. (page, true) }

abbrev lines : List (ℕ × Bool)
lines =
    (20480, true)
    ∷ (24576, false)
    ∷ (20484, false)
    ∷ (28672, true)
    ∷ (20480, false)
    ∷ (24576, false)
    ∷ []

lines-IsTrace : IsTrace lines
unfolding IsTrace
lines-IsTrace =
    (omega arith, (omega arith, (omega arith, (omega arith, (omega arith, (omega arith, tt))))))

two_hits : cache_hits 2 lines [] ≡ 2
unfolding cache_hits holds remove
two_hits = refl

simulate-lru_hits_example :
    (m : Machine (Unit {0}) Lru) × (simulate sink lru 2 34
        (λ f. record { version = 0; vaddr = 0 })
        tt
        no_frames
        lines
      ≡ some m)
    × (m.hit_count ≡ cache_hits 2 lines [])
    × (m.miss_count + cache_hits 2 lines [] ≡ 6)
simulate-lru_hits_example =
    simulate-lru_hits sink 2 34 (λ f. record { version = 0; vaddr = 0 }) tt lines (omega arith)
      (omega arith) (omega arith) lines-IsTrace

simulate_monotone_example :
    (m m' : Machine (Unit {0}) Lru) × (simulate sink lru 2 34
        (λ f. record { version = 0; vaddr = 0 })
        tt
        no_frames
        lines
      ≡ some m)
    × (simulate sink lru 3 34 (λ f. record { version = 0; vaddr = 0 }) tt no_frames lines ≡ some m')
    × (m.hit_count ≤ m'.hit_count)
    × (m'.miss_count ≤ m.miss_count)
simulate_monotone_example =
    simulate_monotone sink 2 3 34 (λ f. record { version = 0; vaddr = 0 }) tt lines (omega arith)
      (omega arith) (omega arith) (omega arith) lines-IsTrace
