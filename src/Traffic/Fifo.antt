-- ===== src/Traffic/Fifo.antt =====
-- The lane's buffer hands the cars on in the order of the schedule's list, loses none and never
-- goes out of range.
use csc_369_operating_system.Common.{
  ℕ, suc, ◌+◌, ◌-◌, ◌%◌, ◌<◌, ◌≤◌, List, ◌∷◌, length, ◌≡◌, ◌≢◌, refl, arith, some, none, get_or,
  set, get_elem?, length-set, get_or-set_self, get_or-set_ne, drop, drop-at, dec_lt, ◌∙◌,
}
use csc_369_operating_system.Traffic.Lane.{Car, Lane, write_to_buf, read_from_buf}

-- Of the cars of a lane, in the order of `in_cars` when the threads start, `a` have gone into the
-- buffer and `b` have come out of it again.
pub record Holds (cars : List Car) (a b : ℕ) (l : Lane) : Type 0 where
  pub sized : l.capacity ≡ 10
  pub storage : length l.buffer ≡ 10
  pub all_in : a ≤ length cars
  pub count : l.in_buf + b ≡ a
  pub fits : l.in_buf ≤ 10
  pub next_in : l.tail ≡ a % 10
  pub next_out : l.head ≡ b % 10
  pub rest : l.in_cars ≡ drop a cars
  pub total : l.inc ≡ length cars
  pub stored : (k : ℕ) → b ≤ k → k < a → get_or l.buffer (k % 10) none ≡ get_elem? cars k

module _ {cars : List Car} {a b : ℕ} {l : Lane} (v : Holds cars a b l) where
  stored-set :
      (x : Car) (k : ℕ)
      → l.in_buf ≢ 10
      → get_elem? cars a ≡ some x
      → b ≤ k
      → k < suc a
      → get_or (set l.buffer l.tail (some x)) (k % 10) none ≡ get_elem? cars k
  stored-set x k room at lo hi = elim (dec_lt k a) [
    | yes old ↦
        get_or-set_ne l.buffer l.tail (k % 10) (some x) none (omega (arith, v.next_in))
        ∙ v.stored k lo old
    | no new ↦
        let same : k ≡ a = omega arith in
        ground
          (arith, get_or-set_self l.buffer l.tail (some x) none, v.next_in, v.storage, at, same)
  ]

  -- While there are cars to come and the buffer is not full, `write_to_buf` meets no null pointer
  -- and puts the next car behind those in the buffer.
  pub write_to_buf-Holds :
      a < length cars
      → l.in_buf ≢ 10
      → (after : Lane) × (write_to_buf l ≡ some after)
        × Holds cars (suc a) b after
        × (after.out_cars ≡ l.out_cars)
        × (after.passed ≡ l.passed)
  unfolding write_to_buf
  write_to_buf-Holds more room =
      let (x, dropped, at) = drop-at a cars more in
      let rest : l.in_cars ≡ x ∷ drop (suc a) cars = v.rest ∙ dropped in
      (
        record l {
          buffer = set l.buffer l.tail (some x);
          in_buf = l.in_buf + 1;
          in_cars = drop (suc a) cars;
          tail = (l.tail + 1) % l.capacity;
        },
        ground (arith, rest, v.sized),
        record {
          sized = v.sized;
          storage = length-set l.buffer l.tail (some x) ∙ v.storage;
          all_in = more;
          count = omega (arith, v.count);
          fits = omega (arith, v.fits);
          next_in = rw v.sized (omega (arith, v.next_in));
          next_out = v.next_out;
          rest = refl;
          total = v.total;
          stored = λ k lo hi. stored-set x k room at lo hi;
        },
        refl,
        refl,
      )

  -- What `car_cross` makes of the lane while it holds the lock: it reads and counts down.
  abbrev pub taken : Lane
  taken = record l { head = (l.head + 1) % l.capacity; in_buf = l.in_buf - 1 }

  -- While the buffer is not empty, `read_from_buf` gives the next car of the schedule's list; it is
  -- no null pointer.
  pub read_from_buf-Holds :
      l.in_buf ≢ 0
      → (c : Car) × (get_elem? cars b ≡ some c)
        × (read_from_buf l ≡ (some c, record l { head = (l.head + 1) % l.capacity }))
        × Holds cars a (suc b) taken
  unfolding read_from_buf
  read_from_buf-Holds some_in =
      let (c, dropped, at) = drop-at b cars (omega (arith, v.count, v.all_in)) in
      let there : get_or l.buffer l.head none ≡ some c =
        ground (arith, v.next_out, v.stored b, v.count, at) in
      (
        c,
        at,
        ground (arith, there),
        record {
          sized = v.sized;
          storage = v.storage;
          all_in = v.all_in;
          count = omega (arith, v.count);
          fits = omega (arith, v.fits);
          next_in = v.next_in;
          next_out = rw v.sized (omega (arith, v.next_out));
          rest = v.rest;
          total = v.total;
          stored = λ k lo hi. v.stored k (omega arith) hi;
        },
      )
