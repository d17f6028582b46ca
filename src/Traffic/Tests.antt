-- ===== src/Traffic/Tests.antt =====
-- The intersection with one car from each direction, which turns right.
use csc_369_operating_system.Common.{
  ℕ, zero, ◌+◌, ◌%◌, ◌<◌, true, false, suc, update, pos, List, [], ◌∷◌, ◌≡◌, ◌≢◌, refl, arith, some,
  none, ◌⊎◌, get_elem?,
}
use csc_369_operating_system.Traffic.Turn.{
  Turn, IsPath, compute_turn, compute_path, passes, compute_path-IsPath, build_path_array,
}
use csc_369_operating_system.Traffic.Lane.{Car, Lane, init_lane, read_from_buf, write_to_buf}
use csc_369_operating_system.Traffic.System.{
  System, start, Reach, begin, step, arrive, take, lock, link, locking, linking, idle, load, woken,
}
use csc_369_operating_system.Traffic.Invariant.{IsSchedule}
use csc_369_operating_system.Traffic.Weight.{weigh, bound_for, over_lanes}
use csc_369_operating_system.Traffic.Delivery.{all_delivered}
use csc_369_operating_system.Traffic.Across.{mutual_exclusion}
use csc_369_operating_system.Traffic.Schedule.{
  parse_schedule, coming_in, queues, parse_schedule, in_order,
}
use csc_369_operating_system.Traffic.Progress.{IsDone, CanStep, Overruns, no_deadlock}

abbrev right_turner : ℕ → Car
right_turner n = record { id = pos n; in_dir = pos n; out_dir = pos ((n + 1) % 4) }

abbrev schedule : ℕ → List Car
schedule n = right_turner n ∷ []

IsSchedule-schedule : IsSchedule schedule
IsSchedule-schedule n k c lt h = record {
  out = (n + 1) % 4;
  comes = ground arith;
  goes = ground arith;
  known = omega arith;
}

compute_path-IsPath_example :
    (t : Turn) × (path : List ℕ) × (compute_turn (pos 1) (pos 0) ≡ some t)
    × (compute_path (pos 1) (pos 0) ≡ some path)
    × IsPath 1 t path
compute_path-IsPath_example = compute_path-IsPath 1 0 (omega arith) (omega arith)

-- Lane `n` when its car is in the buffer.
abbrev filled : ℕ → Lane
filled n = record {
  in_cars = [];
  out_cars = [];
  inc = 1;
  passed = 0;
  buffer =
      some (right_turner n) ∷ none ∷ none ∷ none ∷ none ∷ none ∷ none ∷ none ∷ none ∷ none ∷ [];
  head = 0;
  tail = 1;
  capacity = 10;
  in_buf = 1;
}

-- The car of lane `n` comes into the buffer, is taken out of it, locks its quadrant, and its
-- thread reads the list of its exit.
abbrev arrives : ℕ → System → System
arrives n s = record s {
  lanes = update s.lanes n (filled n);
  arrived = update s.arrived n 1;
  crosser = update s.crosser n (woken (s.crosser n));
}

abbrev leaves : ℕ → ℕ → System → System
leaves n q s = record s {
  lanes = update s.lanes n (record (filled n) { head = 1; in_buf = 0 });
  stalled = update s.stalled n false;
  crosser = update s.crosser n (locking 0 (right_turner n) [] (q ∷ []));
}

abbrev locks : ℕ → ℕ → System → System
locks n q s = record s {
  owner = update s.owner q (some n);
  crosser = update s.crosser n (locking 0 (right_turner n) (q ∷ []) []);
}

abbrev links : ℕ → ℕ → System → System
links n q s = record s { crosser = update s.crosser n (linking 0 (right_turner n) (q ∷ []) []) }

abbrev one_in : System
one_in = arrives 0 (start schedule)

one_in_reached : Reach schedule one_in
unfolding load write_to_buf
one_in_reached =
    step begin (arrive 0 (filled 0) (omega arith) refl (omega arith) (omega arith) refl)

no_deadlock_example :
    ((n : ℕ) → n < 4 → IsDone one_in n) ⊎ (CanStep one_in ⊎ Overruns schedule one_in)
no_deadlock_example = no_deadlock IsSchedule-schedule one_in_reached

abbrev both_in : System
both_in = arrives 1 one_in

both_in_reached : Reach schedule both_in
unfolding load write_to_buf
both_in_reached =
    step one_in_reached (arrive 1 (filled 1) (omega arith) refl (omega arith) (omega arith) refl)

abbrev both_out : System
both_out = leaves 1 3 (leaves 0 2 both_in)

both_out_reached : Reach schedule both_out
unfolding load read_from_buf compute_path compute_turn build_path_array
both_out_reached =
    step
      (step both_in_reached (
        take 0 0 (right_turner 0) (record (filled 0) { head = 1 }) (2 ∷ []) (omega arith) refl
          (omega arith) (omega arith) refl refl))
      (take 1 0 (right_turner 1) (record (filled 1) { head = 1 }) (3 ∷ []) (omega arith) refl
        (omega arith) (omega arith) refl refl)

abbrev both_across : System
both_across = links 1 3 (links 0 2 (locks 1 3 (locks 0 2 both_out)))

both_across_reached : Reach schedule both_across
unfolding load
both_across_reached =
    step
      (step
        (step
          (step both_out_reached
            (lock 0 0 (right_turner 0) [] 2 [] (omega arith) refl (omega arith) refl))
          (lock 1 0 (right_turner 1) [] 3 [] (omega arith) refl (omega arith) refl))
        (link 0 0 (right_turner 0) (2 ∷ []) (omega arith) refl))
      (link 1 0 (right_turner 1) (3 ∷ []) (omega arith) refl)

mutual_exclusion_example :
    (compute_path (pos 0) (pos 1) ≡ some (2 ∷ []))
    × (compute_path (pos 1) (pos 2) ≡ some (3 ∷ []))
    × ((q : ℕ) → passes q (2 ∷ []) ≡ true → both_across.owner q ≡ some 0)
    × ((q : ℕ) → passes q (3 ∷ []) ≡ true → both_across.owner q ≡ some 1)
    × ((q : ℕ) → passes q (2 ∷ []) ≡ true → passes q (3 ∷ []) ≢ true)
    × (◌≢◌ {A = ℕ} 1 2)
    × ([] ≡ (both_across.lanes 1).out_cars)
    × ([] ≡ (both_across.lanes 2).out_cars)
mutual_exclusion_example =
    mutual_exclusion IsSchedule-schedule both_across_reached 0 1 0 0 (right_turner 0)
      (right_turner 1) (2 ∷ []) (3 ∷ []) [] [] (omega arith) (omega arith) (omega arith) refl refl

all_delivered_example :
    CanStep both_across
    ⊎ Overruns schedule both_across
    ⊎ (((f : Car → ℕ) (m : ℕ)
          → weigh f (both_across.lanes m).out_cars
            ≡ over_lanes (λ n. weigh (bound_for m f) (schedule n)))
        × ((n : ℕ) → n < 4 → (both_across.lanes n).passed ≡ 1))
all_delivered_example = all_delivered IsSchedule-schedule both_across_reached

-- A file of two lines, with two cars from the north.
abbrev second : Car
second = record { id = pos 7; in_dir = pos 0; out_dir = pos 3 }

abbrev file : List Car
file = right_turner 0 ∷ second ∷ []

abbrev parsed_file : ℕ → Lane
parsed_file =
    update (update (λ m. init_lane) 0 (load (right_turner 0 ∷ []))) 0
      (load (second ∷ right_turner 0 ∷ []))

file-IsSchedule : IsSchedule (queues file)
unfolding coming_in
file-IsSchedule zero zero c lt h = record {
  out = 3;
  comes = ground arith;
  goes = ground arith;
  known = omega arith;
}
file-IsSchedule zero (suc zero) c lt h = record {
  out = 1;
  comes = ground arith;
  goes = ground arith;
  known = omega arith;
}
file-IsSchedule zero (suc (suc k)) c lt h = absurd (ground (arith, h))
file-IsSchedule (suc n) k c lt h = absurd (ground (arith, h))

file_parsed : parse_schedule file (λ m. init_lane) ≡ some parsed_file
unfolding parse_schedule load
file_parsed = refl

abbrev file_in : System
file_in = record (start (queues file)) {
  lanes =
      update (λ n. load (queues file n)) 0
        (record (filled 0) {
          in_cars = right_turner 0 ∷ [];
          inc = 2;
          buffer = some second ∷ none ∷ none ∷ none ∷ none ∷ none ∷ none ∷ none ∷ none ∷ none ∷ [];
        });
  arrived = update (λ n. 0) 0 1;
  crosser = update (λ n. idle 0) 0 (idle 0);
}

file_in_reached : Reach (queues file) file_in
unfolding load write_to_buf coming_in
file_in_reached =
    step begin (arrive 0 (file_in.lanes 0) (omega arith) refl (omega arith) (omega arith) refl)

in_order_example :
    ((m : ℕ) → parsed_file m ≡ load (queues file m))
    × ((read_from_buf (file_in.lanes 0)).0 ≡ get_elem? (second ∷ right_turner 0 ∷ []) 0)
unfolding coming_in
in_order_example =
    in_order file parsed_file file-IsSchedule file_parsed file_in_reached 0 (omega arith)
