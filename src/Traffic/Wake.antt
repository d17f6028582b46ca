-- ===== src/Traffic/Wake.antt =====
-- The signals of A2/cars.c: a thread sleeps only while the buffer of its lane is full or empty.
use csc_369_operating_system.Common.{
  ℕ, suc, ◌-◌, ◌≡◌, ◌≢◌, Bool, true, false, List, [], ◌∷◌, ◌++◌, refl, arith, ap, sym, ◌∙◌, update,
  update_self, eq-false, ℕ_discrete,
}
use mathlib.Core.Bool.{false≢true}
use csc_369_operating_system.Traffic.Lane.{Car, Lane}
use csc_369_operating_system.Traffic.System.{
  System, Crosser, idle, waiting, locking, linking, unlocking, woken, Step, stall, arrive, wait,
  take, lock, link, cross, unlock, next, pass, Reach, begin, step,
}
use csc_369_operating_system.Traffic.Invariant.{IsSchedule, IsSafe}
use csc_369_operating_system.Traffic.Preserve.{Reach-IsSafe}

abbrev pub sleeps : Crosser → Bool
sleeps (idle d) = false
sleeps (waiting d) = true
sleeps (locking d c held todo) = false
sleeps (linking d c held seen) = false
sleeps (unlocking d c todo) = false

sleeps-woken : (x : Crosser) → sleeps (woken x) ≡ false
sleeps-woken (idle d) = refl
sleeps-woken (waiting d) = refl
sleeps-woken (locking d c held todo) = refl
sleeps-woken (linking d c held seen) = refl
sleeps-woken (unlocking d c todo) = refl

-- `car_arrive` sleeps only while the buffer is full, `car_cross` only while it is empty.
pub record HasReason (s : System) : Type 0 where
  pub full : (n : ℕ) → s.stalled n ≡ true → (s.lanes n).in_buf ≡ 10
  pub empty : (n : ℕ) → sleeps (s.crosser n) ≡ true → (s.lanes n).in_buf ≡ 0

pub pass-in_buf :
    (n : ℕ) (c : Car) (seen : List Car) (lanes : ℕ → Lane) (m : ℕ)
    → (pass n c seen lanes m).in_buf ≡ (lanes m).in_buf
unfolding pass
pass-in_buf n c seen lanes m = ground arith

module _ {s : System} (v : HasReason s) where
  -- A step of lane `n` to a place where its thread does not sleep.
  awake-HasReason :
      (n : ℕ) (x : Crosser)
      → sleeps x ≡ false
      → (m : ℕ) → sleeps (update s.crosser n x m) ≡ true
      → (s.lanes m).in_buf ≡ 0
  awake-HasReason n x awake m h = ground (arith, v.empty m, awake, h)

  -- The lane `n` changes, and neither of its threads sleeps.
  lane-HasReason :
      (n : ℕ) (l : Lane) (x : Crosser) (stalled : ℕ → Bool) (arrived : ℕ → ℕ)
      → sleeps x ≡ false
      → stalled n ≡ false
      → ((m : ℕ) → m ≢ n → stalled m ≡ s.stalled m)
      → HasReason (record s {
        lanes = update s.lanes n l;
        arrived = arrived;
        stalled = stalled;
        crosser = update s.crosser n x;
      })
  lane-HasReason n l x stalled arrived awake up same = record {
    full = λ m h. elim (ℕ_discrete n m) [
      | yes e ↦ absurd (false≢true (sym up ∙ ap stalled e ∙ h))
      | no ne ↦ rw (eq-false n m ne) (v.full m (sym (same m (λ e. ne (sym e))) ∙ h))
    ];
    empty = λ m h. elim (ℕ_discrete n m) [
      | yes e ↦ absurd (
          false≢true (
            sym awake
            ∙ ap sleeps (sym (update_self s.crosser n x))
            ∙ ap (λ k. sleeps (update s.crosser n x k)) e
            ∙ h))
      | no ne ↦ rw (eq-false n m ne) (v.empty m (rw (eq-false n m ne) at h))
    ];
  }

Step-HasReason :
    {schedule : ℕ → List Car} {s t : System}
    → IsSafe schedule s
    → HasReason s
    → Step s t
    → HasReason t
Step-HasReason w v (stall n lt awake more full) = record {
  full = λ m h. ground (arith, v.full m, h, full, (w.lane n).sized);
  empty = v.empty;
}
Step-HasReason {s = s} w v (arrive n l lt awake more room ran) =
    lane-HasReason v n l (woken (s.crosser n)) s.stalled (update s.arrived n (suc (s.arrived n)))
      (sleeps-woken (s.crosser n)) awake (λ m ne. refl)
Step-HasReason w v (wait n d lt here less empty) = record {
  full = v.full;
  empty = λ m h. ground (arith, v.empty m, h, empty);
}
Step-HasReason {s = s} w v (take n d c l p lt here less some_in ran found) =
    lane-HasReason v n (record l { in_buf = l.in_buf - 1 }) (locking d c [] p)
      (update s.stalled n false) s.arrived refl (update_self s.stalled n false)
      (λ m ne. rw (eq-false n m (λ e. ne (sym e))) refl)
Step-HasReason w v (lock n d c held q todo lt here real free) = record {
  full = v.full;
  empty = awake-HasReason v n (locking d c (held ++ (q ∷ [])) todo) refl;
}
Step-HasReason {s = s} w v (link n d c held lt here) = record {
  full = v.full;
  empty = awake-HasReason v n _ refl;
}
Step-HasReason {s = s} w v (cross n d c held seen lt here) = record {
  full = λ m h. pass-in_buf n c seen s.lanes m ∙ v.full m h;
  empty = λ m h. pass-in_buf n c seen s.lanes m ∙ awake-HasReason v n (unlocking d c held) refl m h;
}
Step-HasReason w v (unlock n d c q todo lt here) = record {
  full = v.full;
  empty = awake-HasReason v n (unlocking d c todo) refl;
}
Step-HasReason w v (next n d c lt here) = record {
  full = v.full;
  empty = awake-HasReason v n (idle (suc d)) refl;
}

-- So it is in every state that the threads reach: no signal is missed.
pub Reach-HasReason :
    {schedule : ℕ → List Car} {s : System} → IsSchedule schedule → Reach schedule s → HasReason s
Reach-HasReason {schedule} plan begin = record {
  full = λ n h. absurd (false≢true h);
  empty = λ n h. absurd (false≢true h);
}
Reach-HasReason plan (step r st) = Step-HasReason (Reach-IsSafe plan r) (Reach-HasReason plan r) st
