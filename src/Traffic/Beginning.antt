-- ===== src/Traffic/Beginning.antt =====
-- The state in which the threads of A2/traffic.c start meets the invariant.
use csc_369_operating_system.Common.{ℕ, List, [], ◌∷◌, refl, arith, ap}
use csc_369_operating_system.Traffic.Turn.{passes}
use csc_369_operating_system.Traffic.Lane.{Car}
use csc_369_operating_system.Traffic.Fifo.{Holds}
use csc_369_operating_system.Traffic.System.{load, start}
use csc_369_operating_system.Traffic.Invariant.{IsSafe}

load-Holds : (cars : List Car) → Holds cars 0 0 (load cars)
unfolding load
load-Holds [] = record {
  sized = refl;
  storage = refl;
  all_in = omega arith;
  count = refl;
  fits = omega arith;
  next_in = refl;
  next_out = refl;
  rest = refl;
  total = refl;
  stored = λ k lo hi. absurd (omega arith);
}
load-Holds (c ∷ cs) =
    let v = load-Holds cs in
    record {
      sized = v.sized;
      storage = v.storage;
      all_in = omega arith;
      count = v.count;
      fits = v.fits;
      next_in = v.next_in;
      next_out = v.next_out;
      rest = ap (λ xs. c ∷ xs) v.rest;
      total = omega (arith, v.total);
      stored = λ k lo hi. absurd (omega arith);
    }

pub start-IsSafe : (schedule : ℕ → List Car) → IsSafe schedule (start schedule)
unfolding passes
start-IsSafe schedule = record {
  lane = λ n. load-Holds (schedule n);
  ordered = λ n. tt;
  owned = λ q n h. cc;
  owner_of = λ q n h. cc;
}
