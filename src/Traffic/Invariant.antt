-- ===== src/Traffic/Invariant.antt =====
-- The invariant of the threads at the intersection.
use csc_369_operating_system.Common.{
  ℕ, suc, ◌<◌, ◌≤◌, pos, true, List, [], ◌∷◌, ◌++◌, ◌≡◌, refl, some, if◌then◌else◌, arith,
  get_elem?,
}
use csc_369_operating_system.Traffic.Turn.{Rising, passes}
use csc_369_operating_system.Traffic.Lane.{Car}
use csc_369_operating_system.Traffic.Fifo.{Holds}
use csc_369_operating_system.Traffic.System.{
  System, Crosser, idle, waiting, locking, linking, unlocking, woken,
}

-- The quadrants that a thread holds, and how many cars it has taken.
abbrev pub holding : Crosser → List ℕ
holding (idle d) = []
holding (waiting d) = []
holding (locking d c held todo) = held
holding (linking d c held seen) = held
holding (unlocking d c todo) = todo

abbrev pub taken_by : Crosser → ℕ
taken_by (idle d) = d
taken_by (waiting d) = d
taken_by (locking d c held todo) = suc d
taken_by (linking d c held seen) = suc d
taken_by (unlocking d c todo) = suc d

-- A thread locks the quadrants in rising order.
abbrev pub IsOrdered : Crosser → Type 0
IsOrdered (idle d) = Unit {0}
IsOrdered (waiting d) = Unit {0}
IsOrdered (locking d c held todo) = Rising 0 (held ++ todo)
IsOrdered (linking d c held seen) = Rising 0 held
IsOrdered (unlocking d c todo) = Rising 0 todo

-- A signal changes none of these.
pub holding-woken : (x : Crosser) → holding (woken x) ≡ holding x
holding-woken (idle d) = refl
holding-woken (waiting d) = refl
holding-woken (locking d c held todo) = refl
holding-woken (linking d c held seen) = refl
holding-woken (unlocking d c todo) = refl

pub taken_by-woken : (x : Crosser) → taken_by (woken x) ≡ taken_by x
taken_by-woken (idle d) = refl
taken_by-woken (waiting d) = refl
taken_by-woken (locking d c held todo) = refl
taken_by-woken (linking d c held seen) = refl
taken_by-woken (unlocking d c todo) = refl

pub woken-IsOrdered : (x : Crosser) → IsOrdered x → IsOrdered (woken x)
woken-IsOrdered (idle d) h = h
woken-IsOrdered (waiting d) h = tt
woken-IsOrdered (locking d c held todo) h = h
woken-IsOrdered (linking d c held seen) h = h
woken-IsOrdered (unlocking d c todo) h = h

-- A car of the schedule of lane `n`.
pub record IsFor (n : ℕ) (c : Car) : Type 0 where
  pub out : ℕ
  pub comes : c.in_dir ≡ pos n
  pub goes : c.out_dir ≡ pos out
  pub known : out < 4

-- Every lane's list holds cars that come in by that lane and leave by one of the four directions.
abbrev pub IsSchedule : (ℕ → List Car) → Type 0
IsSchedule schedule = (n k : ℕ) (c : Car) → n < 4 → get_elem? (schedule n) k ≡ some c → IsFor n c

pub record IsSafe (schedule : ℕ → List Car) (s : System) : Type 0 where
  pub lane : (n : ℕ) → Holds (schedule n) (s.arrived n) (taken_by (s.crosser n)) (s.lanes n)
  pub ordered : (n : ℕ) → IsOrdered (s.crosser n)
  pub owned : (q n : ℕ) → s.owner q ≡ some n → (n < 4) × (passes q (holding (s.crosser n)) ≡ true)
  pub owner_of : (q n : ℕ) → passes q (holding (s.crosser n)) ≡ true → s.owner q ≡ some n

pub passes-append :
    (p : ℕ) (xs ys : List ℕ) → passes p (xs ++ ys) ≡ (if passes p xs then true else passes p ys)
unfolding passes
passes-append p [] ys = refl
passes-append p (x ∷ xs) ys = ground (arith, passes-append p xs ys)

pub Rising-passes :
    (low p : ℕ) (xs : List ℕ) → Rising low xs → passes p xs ≡ true → (low < p) × (p ≤ 4)
unfolding passes
Rising-passes low p [] r h = cc
Rising-passes low p (x ∷ xs) r h = ground (arith, Rising-passes x p xs r.2)

pub Rising-split :
    (low p q : ℕ) (held todo : List ℕ)
    → Rising low (held ++ (q ∷ todo))
    → passes p held ≡ true
    → (p < q) × (p ≤ 4)
unfolding passes
Rising-split low p q [] todo r h = cc
Rising-split low p q (x ∷ held) todo r h = ground (
  arith,
  Rising-split x p q held todo r.2,
  Rising-passes x q (held ++ (q ∷ todo)) r.2,
  passes-append q held (q ∷ todo),
)
