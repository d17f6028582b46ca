-- ===== src/Traffic/System.antt =====
-- The eight threads of A2/traffic.c over the four lanes and the quadrants, interleaved in any
-- order. What a thread does while it holds the lock of its lane is one step, since that lock
-- guards every other access to the same fields. A thread that finds its condition false goes to
-- sleep, and only the signal of the other thread of the lane, the one other thread that uses the
-- lane's condition variables, wakes it; it then tests the condition again. What `car_cross` does to
-- `out_cars` under no lane's lock is two steps, a read and a write, which other threads may come
-- between. `quad` has four locks, with the indices 0 to 3: no step locks another one.
use csc_369_operating_system.Common.{
  ℕ, suc, ◌+◌, ◌-◌, ◌<◌, ◌≤◌, Bool, true, false, to_ℕ, List, [], ◌∷◌, ◌++◌, ◌≡◌, ◌≢◌, Option, some,
  none, update,
}
use csc_369_operating_system.Traffic.Turn.{compute_path}
use csc_369_operating_system.Traffic.Lane.{
  Car, Lane, init_lane, add_car, write_to_buf, read_from_buf, complete_cross,
}

-- Where `car_cross` stands, after `done` rounds of its loop: before the next test of the buffer,
-- asleep in `pthread_cond_wait`, locking the quadrants of the path one by one, between the two
-- assignments of `complete_cross`, or unlocking the quadrants after the car is across.
pub data Crosser : Type 0 where
  idle : (done : ℕ) → Crosser
  waiting : (done : ℕ) → Crosser
  locking : (done : ℕ) (car : Car) (held todo : List ℕ) → Crosser
  linking : (done : ℕ) (car : Car) (held : List ℕ) (seen : List Car) → Crosser
  unlocking : (done : ℕ) (car : Car) (todo : List ℕ) → Crosser

-- `pthread_cond_signal` on the variable that `car_cross` may wait on.
abbrev pub woken : Crosser → Crosser
woken (idle done) = idle done
woken (waiting done) = idle done
woken (locking done c held todo) = locking done c held todo
woken (linking done c held seen) = linking done c held seen
woken (unlocking done c todo) = unlocking done c todo

-- `owner` says which lane's `car_cross` holds a quadrant's lock, by the index in `quad`, `arrived`
-- how many rounds the lane's `car_arrive` has made, and `stalled` whether that thread is asleep in
-- `pthread_cond_wait`.
pub record System : Type 0 where
  pub lanes : ℕ → Lane
  pub owner : ℕ → Option ℕ
  pub arrived : ℕ → ℕ
  pub stalled : ℕ → Bool
  pub crosser : ℕ → Crosser

-- The lanes when the car of lane `n` is stored behind its exit and counted.
unfoldable pub pass : ℕ → Car → List Car → (ℕ → Lane) → ℕ → Lane
unfolding complete_cross
pass n c seen lanes =
    let out = to_ℕ c.out_dir in
    let crossed = update lanes out (complete_cross c seen (lanes out)) in
    update crossed n (record (crossed n) { passed = (crossed n).passed + 1 })

pub data Step (s : System) : System → Type 0 where
  stall :
      (n : ℕ)
      → n < 4
      → s.stalled n ≡ false
      → s.arrived n < (s.lanes n).inc
      → (s.lanes n).in_buf ≡ (s.lanes n).capacity
      → Step s (record s { stalled = update s.stalled n true })
  arrive :
      (n : ℕ) (l : Lane)
      → n < 4
      → s.stalled n ≡ false
      → s.arrived n < (s.lanes n).inc
      → (s.lanes n).in_buf ≢ (s.lanes n).capacity
      → write_to_buf (s.lanes n) ≡ some l
      → Step s (record s {
        lanes = update s.lanes n l;
        arrived = update s.arrived n (suc (s.arrived n));
        crosser = update s.crosser n (woken (s.crosser n));
      })
  wait :
      (n done : ℕ)
      → n < 4
      → s.crosser n ≡ idle done
      → done < (s.lanes n).inc
      → (s.lanes n).in_buf ≡ 0
      → Step s (record s { crosser = update s.crosser n (waiting done) })
  take :
      (n done : ℕ) (c : Car) (l : Lane) (path : List ℕ)
      → n < 4
      → s.crosser n ≡ idle done
      → done < (s.lanes n).inc
      → (s.lanes n).in_buf ≢ 0
      → read_from_buf (s.lanes n) ≡ (some c, l)
      → compute_path c.in_dir c.out_dir ≡ some path
      → Step s (record s {
        lanes = update s.lanes n (record l { in_buf = l.in_buf - 1 });
        stalled = update s.stalled n false;
        crosser = update s.crosser n (locking done c [] path);
      })
  lock :
      (n done : ℕ) (c : Car) (held : List ℕ) (q : ℕ) (todo : List ℕ)
      → n < 4
      → s.crosser n ≡ locking done c held (q ∷ todo)
      → q < 4
      → s.owner q ≡ none
      → Step s (record s {
        owner = update s.owner q (some n);
        crosser = update s.crosser n (locking done c (held ++ (q ∷ [])) todo);
      })
  link :
      (n done : ℕ) (c : Car) (held : List ℕ)
      → n < 4
      → s.crosser n ≡ locking done c held []
      → Step s (record s {
        crosser = update s.crosser n (linking done c held (s.lanes (to_ℕ c.out_dir)).out_cars);
      })
  cross :
      (n done : ℕ) (c : Car) (held : List ℕ) (seen : List Car)
      → n < 4
      → s.crosser n ≡ linking done c held seen
      → Step s (record s {
        lanes = pass n c seen s.lanes;
        crosser = update s.crosser n (unlocking done c held);
      })
  unlock :
      (n done : ℕ) (c : Car) (q : ℕ) (todo : List ℕ)
      → n < 4
      → s.crosser n ≡ unlocking done c (q ∷ todo)
      → Step s (record s {
        owner = update s.owner q none;
        crosser = update s.crosser n (unlocking done c todo);
      })
  next :
      (n done : ℕ) (c : Car)
      → n < 4
      → s.crosser n ≡ unlocking done c []
      → Step s (record s { crosser = update s.crosser n (idle (suc done)) })

-- A thread whose next step is to lock a quadrant past the end of `quad`, which C leaves undefined.
pub record IsStray (s : System) : Type 0 where
  pub lane : ℕ
  pub done : ℕ
  pub car : Car
  pub held : List ℕ
  pub quad : ℕ
  pub todo : List ℕ
  pub known : lane < 4
  pub here : s.crosser lane ≡ locking done car held (quad ∷ todo)
  pub past : 4 ≤ quad

-- The loop of `parse_schedule` on one lane: the cars of the list, of which the first was read last.
unfoldable pub load : List Car → Lane
unfolding init_lane add_car
load [] = init_lane
load (c ∷ cs) = add_car c (load cs)

-- `main` when the threads are about to run.
abbrev pub start : (ℕ → List Car) → System
start schedule = record {
  lanes = λ n. load (schedule n);
  owner = λ q. none;
  arrived = λ n. 0;
  stalled = λ n. false;
  crosser = λ n. idle 0;
}

pub data Reach (schedule : ℕ → List Car) : System → Type 0 where
  begin : Reach schedule (start schedule)
  step : {s t : System} → Reach schedule s → Step s t → Reach schedule t
