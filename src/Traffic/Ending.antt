-- ===== src/Traffic/Ending.antt =====
-- The threads of A2/traffic.c end: no order of their steps goes on for ever.
use csc_369_operating_system.Common.{ℕ, Bool, if◌then◌else◌, suc, ◌+◌, ◌-◌, ◌*◌, List, length}
use csc_369_operating_system.Traffic.Lane.{Car, Lane}
use csc_369_operating_system.Traffic.System.{
  System, Crosser, idle, waiting, locking, linking, unlocking, Reach, begin, step,
}

-- The steps that a `car_cross` with `cars` rounds has left, at most: a round has thirteen with the
-- four quadrants that a path may have, one of which is to go to sleep.
abbrev pub crossing_left : ℕ → Crosser → ℕ
crossing_left cars (idle done) = (cars - done) * 13 + 1
crossing_left cars (waiting done) = (cars - done) * 13
crossing_left cars (locking done c held todo) =
    (cars - suc done) * 13 + length todo * 2 + length held + 4
crossing_left cars (linking done c held seen) = (cars - suc done) * 13 + length held + 3
crossing_left cars (unlocking done c todo) = (cars - suc done) * 13 + length todo + 2

-- The same for a `car_arrive`: a round has two.
abbrev pub arriving_left : ℕ → ℕ → Bool → ℕ
arriving_left cars arrived stalled = (cars - arrived) * 2 + (if stalled then 0 else 1)

module _ (schedule : ℕ → List Car) where
  abbrev pub lane_left : System → ℕ → ℕ
  lane_left s n =
      arriving_left (length (schedule n)) (s.arrived n) (s.stalled n)
      + crossing_left (length (schedule n)) (s.crosser n)

  abbrev pub left : System → ℕ
  left s = lane_left s 0 + lane_left s 1 + lane_left s 2 + lane_left s 3

-- How many steps a run has made.
unfoldable pub steps : {schedule : ℕ → List Car} {s : System} → Reach schedule s → ℕ
steps begin = 0
steps (step r st) = steps r + 1

abbrev pub cars : (ℕ → List Car) → ℕ
cars schedule =
    length (schedule 0) + length (schedule 1) + length (schedule 2) + length (schedule 3)
