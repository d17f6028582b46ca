-- ===== src/Traffic/Lane.antt =====
-- One lane of A2/traffic.h and what `car_arrive` and `car_cross` of A2/cars.c do to it while they
-- hold its lock. A list of cars through their `next` pointers is a list; a null pointer, or an
-- entry of the buffer that was never written, is `none`.
use csc_369_operating_system.Common.{
  ℕ, ◌+◌, ◌%◌, ℤ, List, [], ◌∷◌, if◌then◌else◌, ◌==◌, Option, some, none, get_or, set, replicate,
}

pub record Car : Type 0 where
  pub id : ℤ
  pub in_dir : ℤ
  pub out_dir : ℤ

pub record Lane : Type 0 where
  pub in_cars : List Car
  pub out_cars : List Car
  pub inc : ℕ
  pub passed : ℕ
  pub buffer : List (Option Car)
  pub head : ℕ
  pub tail : ℕ
  pub capacity : ℕ
  pub in_buf : ℕ

abbrev pub lane_length : ℕ
lane_length = 10

-- One lane in `init_intersection`, from the zeroed global.
unfoldable pub init_lane : Lane
init_lane = record {
  in_cars = [];
  out_cars = [];
  inc = 0;
  passed = 0;
  buffer = replicate lane_length none;
  head = 0;
  tail = 0;
  capacity = lane_length;
  in_buf = 0;
}

-- The body of the loop of `parse_schedule`: a car goes to the head of its lane's list.
unfoldable pub add_car : Car → Lane → Lane
add_car c l = record l { in_cars = c ∷ l.in_cars; inc = l.inc + 1 }

-- The null pointer that `in_cars` is when the list is empty.
abbrev pub first : List Car → Option Car
first [] = none
first (c ∷ cs) = some c

-- `write_to_buf`: `none` is the read of `next` through a null pointer.
unfoldable pub write_to_buf : Lane → Option Lane
write_to_buf l = if l.in_buf == l.capacity then some l else elim l.in_cars [
  | [] ↦ none
  | c ∷ cs ↦ some (record l {
    buffer = set l.buffer l.tail (some c);
    in_buf = l.in_buf + 1;
    in_cars = cs;
    tail = (l.tail + 1) % l.capacity;
  })
]

-- `read_from_buf`: the car, or the null pointer, and the lane.
unfoldable pub read_from_buf : Lane → Option Car × Lane
read_from_buf l =
    if l.in_buf == 0
    then (none, l)
    else (get_or l.buffer l.head none, record l { head = (l.head + 1) % l.capacity })

-- `complete_cross`, on the lane that the car leaves by; it returns 1. `seen` is what the first
-- assignment, to the car's `next`, read of the lane's `out_cars`; the second one stores the car.
unfoldable pub complete_cross : Car → List Car → Lane → Lane
complete_cross c seen l = record l { out_cars = c ∷ seen }
