-- ===== src/Traffic/Delivery.antt =====
-- The cars at the exits of A2/cars.c, when the threads have come to rest.
use csc_369_operating_system.Common.{
  ℕ, Bool, false, to_ℕ, suc, ◌+◌, ◌<◌, ◌==◌, List, [], ◌∷◌, ◌++◌, length, ◌≡◌, ◌≢◌, refl, some,
  none, Option, arith, sym, ap, ◌∙◌, inl, inr, update, update_self, update-same, fun_ext, eq-false,
  get_elem?, ◌⊎◌, Bool-cases, ◌-◌,
}
use csc_369_operating_system.Traffic.Lane.{Car, Lane, write_to_buf, read_from_buf}
use csc_369_operating_system.Traffic.Fifo.{write_to_buf-Holds}
use csc_369_operating_system.Traffic.System.{
  System, Crosser, idle, waiting, locking, linking, unlocking, woken, Step, stall, arrive, wait,
  take, lock, link, cross, unlock, next, Reach, begin, step, start, pass, load,
}
use csc_369_operating_system.Traffic.Invariant.{IsSchedule, IsSafe}
use csc_369_operating_system.Traffic.Preserve.{Reach-IsSafe}
use csc_369_operating_system.Traffic.Across.{
  AllDrive, Drives-at, read_from_buf-keeps, Reach-AllDrive,
}
use csc_369_operating_system.Traffic.Progress.{CanStep, Overruns, no_deadlock}
use csc_369_operating_system.Traffic.Weight.{
  weigh, weigh_first, weigh_first-next, weigh_first-all, bound_for, over_lanes, over_lanes-add,
  pass-out, pass-passed,
}

-- How many cars of a lane are across.
abbrev pub gone : Crosser → ℕ
gone (idle d) = d
gone (waiting d) = d
gone (locking d c held todo) = d
gone (linking d c held seen) = d
gone (unlocking d c todo) = suc d

gone-woken : (x : Crosser) → gone (woken x) ≡ gone x
gone-woken (idle d) = refl
gone-woken (waiting d) = refl
gone-woken (locking d c held todo) = refl
gone-woken (linking d c held seen) = refl
gone-woken (unlocking d c todo) = refl

-- The cars that are across are at the exits, and counted at the lanes that they came from.
record Delivered (schedule : ℕ → List Car) (s : System) : Type 0 where
  out :
      (f : Car → ℕ) (m : ℕ)
      → weigh f (s.lanes m).out_cars
        ≡ over_lanes (λ n. weigh_first (bound_for m f) (gone (s.crosser n)) (schedule n))
  passed : (n : ℕ) → (s.lanes n).passed ≡ gone (s.crosser n)

load-empty : (cs : List Car) → ((load cs).out_cars ≡ []) × ((load cs).passed ≡ 0)
unfolding load
load-empty [] = (refl, refl)
load-empty (c ∷ cs) = load-empty cs

start-Delivered : (schedule : ℕ → List Car) → Delivered schedule (start schedule)
unfolding weigh weigh_first
start-Delivered schedule = record {
  out = λ f m. ground (arith, load-empty (schedule m));
  passed = λ n. (load-empty (schedule n)).1;
}

-- What a step does to the exits, where no car comes across.
same-Delivered :
    {schedule : ℕ → List Car} {s : System} (lanes : ℕ → Lane) (owner : ℕ → Option ℕ)
    (arrived : ℕ → ℕ) (stalled : ℕ → Bool) (crosser : ℕ → Crosser)
    → Delivered schedule s
    → ((m : ℕ)
        → ((lanes m).out_cars ≡ (s.lanes m).out_cars) × ((lanes m).passed ≡ (s.lanes m).passed))
    → ((m : ℕ) → gone (crosser m) ≡ gone (s.crosser m))
    → Delivered schedule (record {
      lanes = lanes;
      owner = owner;
      arrived = arrived;
      stalled = stalled;
      crosser = crosser;
    })
same-Delivered {schedule} {s} lanes owner arrived stalled crosser v same count = record {
  out = λ f m.
      let g : ℕ → ℕ → ℕ = λ n k. weigh_first (bound_for m f) k (schedule n) in
      ap (weigh f) (same m).0 ∙ v.out f m ∙ ap over_lanes (fun_ext λ n. ap (g n) (sym (count n)));
  passed = λ n. (same n).1 ∙ v.passed n ∙ sym (count n);
}

module _ {schedule : ℕ → List Car} {s : System} (v : Delivered schedule s) where
  -- A step of lane `n` that leaves all lanes alone.
  crosser-Delivered :
      (n : ℕ) (x : Crosser) (owner : ℕ → Option ℕ)
      → gone x ≡ gone (s.crosser n)
      → Delivered schedule (record s { owner = owner; crosser = update s.crosser n x })
  crosser-Delivered n x owner count =
      same-Delivered s.lanes owner s.arrived s.stalled (update s.crosser n x) v (λ m. (refl, refl))
        (λ m. update-same gone s.crosser n x m count)

  arrive-Delivered :
      (n : ℕ) (l : Lane)
      → IsSafe schedule s
      → s.arrived n < (s.lanes n).inc
      → (s.lanes n).in_buf ≢ (s.lanes n).capacity
      → write_to_buf (s.lanes n) ≡ some l
      → Delivered schedule (record s {
        lanes = update s.lanes n l;
        arrived = update s.arrived n (suc (s.arrived n));
        crosser = update s.crosser n (woken (s.crosser n));
      })
  arrive-Delivered n l w more room ran =
      let h = w.lane n in
      let (after, ran', h', outs, passes) =
        write_to_buf-Holds h (omega (arith, more, h.total)) (λ full. room (full ∙ sym h.sized)) in
      let same : after ≡ l = ground (arith, ran, ran') in
      same-Delivered (update s.lanes n l) s.owner (update s.arrived n (suc (s.arrived n))) s.stalled
        (update s.crosser n (woken (s.crosser n))) v
        (λ m. (
          update-same (λ x. x.out_cars) s.lanes n l m (ap (λ x. x.out_cars) (sym same) ∙ outs),
          update-same (λ x. x.passed) s.lanes n l m (ap (λ x. x.passed) (sym same) ∙ passes),
        ))
        (λ m. update-same gone s.crosser n (woken (s.crosser n)) m (gone-woken (s.crosser n)))

  take-Delivered :
      (n done : ℕ) (c : Car) (l : Lane) (path : List ℕ)
      → s.crosser n ≡ idle done
      → read_from_buf (s.lanes n) ≡ (some c, l)
      → Delivered schedule (record s {
        lanes = update s.lanes n (record l { in_buf = l.in_buf - 1 });
        stalled = update s.stalled n false;
        crosser = update s.crosser n (locking done c [] path);
      })
  take-Delivered n done c l path here ran =
      let new : Lane = record l { in_buf = l.in_buf - 1 } in
      let kept = read_from_buf-keeps (s.lanes n) in
      same-Delivered (update s.lanes n new) s.owner s.arrived (update s.stalled n false)
        (update s.crosser n (locking done c [] path)) v
        (λ m. (
          update-same (λ x. x.out_cars) s.lanes n new m (ap (λ r. r.1.out_cars) (sym ran) ∙ kept.0),
          update-same (λ x. x.passed) s.lanes n new m (ap (λ r. r.1.passed) (sym ran) ∙ kept.1),
        ))
        (λ m. update-same gone s.crosser n (locking done c [] path) m (sym (ap gone here)))

  -- The car goes in front of all that the list of its exit has, since that is what was read.
  cross-Delivered :
      (n done : ℕ) (c : Car) (held : List ℕ) (seen : List Car)
      → n < 4
      → s.crosser n ≡ linking done c held seen
      → get_elem? (schedule n) done ≡ some c
      → seen ≡ (s.lanes (to_ℕ c.out_dir)).out_cars
      → Delivered schedule (record s {
        lanes = pass n c seen s.lanes;
        crosser = update s.crosser n (unlocking done c held);
      })
  cross-Delivered n done c held seen lt here listed same =
      let x = unlocking done c held in
      record {
        out = λ f m.
            let g : ℕ → ℕ → ℕ = λ n k. weigh_first (bound_for m f) k (schedule n) in
            ap (λ xs. weigh f (pass n c xs s.lanes m).out_cars) same
            ∙ pass-out f n m c s.lanes
            ∙ ap (λ k. k + bound_for m f c) (v.out f m)
            ∙ sym (
                over_lanes-add (λ m. g m (gone (s.crosser m)))
                  (λ m. g m (gone (update s.crosser n x m))) n (bound_for m f c) lt
                  (λ m ne. rw (eq-false n m (λ h. ne (sym h))) refl)
                  (ap (λ y. g n (gone y)) (update_self s.crosser n x)
                    ∙ weigh_first-next (bound_for m f) done (schedule n) c listed
                    ∙ ap (λ y. g n (gone y) + bound_for m f c) (sym here)));
        passed = λ m. pass-passed n m c seen s.lanes ∙ elim (Bool-cases (n == m)) [
          | inl e ↦ rw e (omega (arith, v.passed n, ap gone here))
          | inr e ↦ rw e (v.passed m)
        ];
      }

Step-Delivered :
    {schedule : ℕ → List Car} {s t : System}
    → IsSchedule schedule
    → IsSafe schedule s
    → AllDrive schedule s
    → Delivered schedule s
    → Step s t
    → Delivered schedule t
Step-Delivered plan w a v (stall n lt awake more full) = record { out = v.out; passed = v.passed }
Step-Delivered plan w a v (arrive n l lt awake more room ran) =
    arrive-Delivered v n l w more room ran
Step-Delivered {s = s} plan w a v (wait n done lt here less empty) =
    crosser-Delivered v n (waiting done) s.owner (sym (ap gone here))
Step-Delivered plan w a v (take n done c l path lt here more some_in ran found) =
    take-Delivered v n done c l path here ran
Step-Delivered {s = s} plan w a v (lock n done c held q todo lt here real free) =
    crosser-Delivered v n (locking done c (held ++ (q ∷ [])) todo) (update s.owner q (some n))
      (sym (ap gone here))
Step-Delivered {s = s} plan w a v (link n done c held lt here) =
    crosser-Delivered v n (linking done c held (s.lanes (to_ℕ c.out_dir)).out_cars) s.owner
      (sym (ap gone here))
Step-Delivered plan w a v (cross n done c held seen lt here) =
    let h = Drives-at plan w a n _ lt here in cross-Delivered v n done c held seen lt here h.0 h.2
Step-Delivered {s = s} plan w a v (unlock n done c q todo lt here) =
    crosser-Delivered v n (unlocking done c todo) (update s.owner q none) (sym (ap gone here))
Step-Delivered {s = s} plan w a v (next n done c lt here) =
    crosser-Delivered v n (idle (suc done)) s.owner (sym (ap gone here))

Reach-Delivered :
    {schedule : ℕ → List Car} {s : System}
    → IsSchedule schedule
    → Reach schedule s
    → Delivered schedule s
Reach-Delivered {schedule} plan begin = start-Delivered schedule
Reach-Delivered plan (step r st) =
    Step-Delivered plan (Reach-IsSafe plan r) (Reach-AllDrive plan r) (Reach-Delivered plan r) st

-- If every car of the schedule comes in by the lane of its list and leaves by one of the four
-- directions, then in every state that the threads reach some thread can take a step, or one is to
-- lock a quadrant past the end of `quad` for a car whose path has quadrant 4, or every car of the schedule is in the list of its exit,
-- as often as the schedule has it, and no other car is, and each of the four lanes has counted all
-- its cars as passed.
pub all_delivered :
    {schedule : ℕ → List Car} {s : System}
    → IsSchedule schedule
    → Reach schedule s
    → CanStep s
      ⊎ Overruns schedule s
      ⊎ (((f : Car → ℕ) (m : ℕ)
            → weigh f (s.lanes m).out_cars ≡ over_lanes (λ n. weigh (bound_for m f) (schedule n)))
          × ((n : ℕ) → n < 4 → (s.lanes n).passed ≡ length (schedule n)))
all_delivered {schedule} {s} plan r = elim (no_deadlock plan r) [
  | inr (inl moves) ↦ inl moves
  | inr (inr stray) ↦ inr (inl stray)
  | inl done ↦
      let v = Reach-Delivered plan r in
      let all : (n : ℕ) → n < 4 → gone (s.crosser n) ≡ length (schedule n) =
        λ n lt. ap gone (done n lt).2 ∙ ((Reach-IsSafe plan r).lane n).total in
      inr (
        inr (
          (λ f m.
              let each : (n : ℕ)
                  → n < 4
                  → weigh_first (bound_for m f) (gone (s.crosser n)) (schedule n)
                    ≡ weigh (bound_for m f) (schedule n) =
                λ n lt.
                  ap (λ k. weigh_first (bound_for m f) k (schedule n)) (all n lt)
                  ∙ weigh_first-all (bound_for m f) (schedule n) in
              v.out f m
              ∙ omega (
                arith,
                each 0 (omega arith),
                each 1 (omega arith),
                each 2 (omega arith),
                each 3 (omega arith),
              )),
          (λ n lt. v.passed n ∙ all n lt),
        ))
]
