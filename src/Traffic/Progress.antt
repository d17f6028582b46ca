-- ===== src/Traffic/Progress.antt =====
-- No deadlock.
use csc_369_operating_system.Common.{
  ℕ, get_elem?, zero, suc, ◌+◌, ◌<◌, ◌≤◌, true, false, length, List, [], ◌∷◌, ◌++◌, ◌≡◌, refl, some,
  arith, subst, ◌∙◌, ap, inl, inr, ◌⊎◌, Option-cases, Bool-cases, ℕ_discrete, dec_lt,
}
use mathlib.Core.Bool.{false≢true}
use csc_369_operating_system.Traffic.Turn.{Rising, passes, compute_path, compute_path-IsPath}
use csc_369_operating_system.Traffic.Lane.{Car}
use csc_369_operating_system.Traffic.Fifo.{Holds, write_to_buf-Holds, read_from_buf-Holds}
use csc_369_operating_system.Traffic.System.{
  System, Crosser, idle, waiting, locking, linking, unlocking, Step, arrive, wait, take, lock, link,
  cross, unlock, next, IsStray, Reach,
}
use csc_369_operating_system.Traffic.Invariant.{
  holding, taken_by, IsSchedule, IsSafe, Rising-split, Rising-passes, passes-append,
}
use csc_369_operating_system.Traffic.Preserve.{Reach-IsSafe, IsOrdered-at}
use csc_369_operating_system.Traffic.Wake.{HasReason, sleeps, Reach-HasReason}
use csc_369_operating_system.Traffic.Across.{AllDrive, Drives, Drives-at, Reach-AllDrive}

-- Some thread can take a step.
abbrev pub CanStep : System → Type 0
CanStep s = (t : System) × Step s t

-- Some thread can take a step, or is about to leave what C defines.
abbrev Proceeds : System → Type 0
Proceeds s = CanStep s ⊎ IsStray s

-- A thread is to lock a quadrant past the end of `quad`, for a car of the schedule whose path has
-- quadrant 4.
pub record Overruns (schedule : ℕ → List Car) (s : System) : Type 0 where
  pub stray : IsStray s
  pub place : ℕ
  pub path : List ℕ
  pub listed : get_elem? (schedule stray.lane) place ≡ some stray.car
  pub found : compute_path stray.car.in_dir stray.car.out_dir ≡ some path
  pub four : passes 4 path ≡ true

-- Both threads of a lane have made all their rounds, and none of them sleeps.
abbrev pub IsDone : System → ℕ → Type 0
IsDone s n =
    (s.arrived n ≡ (s.lanes n).inc) × (s.stalled n ≡ false) × (s.crosser n ≡ idle (s.lanes n).inc)

module _ {schedule : ℕ → List Car} {s : System} (plan : IsSchedule schedule) (v : IsSafe schedule s)
    (u : HasReason s) (w : AllDrive schedule s) where
  -- A thread that has a quadrant to lock next: it can, or the holder is asked.
  asks :
      (n done : ℕ) (c : Car) (held : List ℕ) (q : ℕ) (todo : List ℕ)
      → n < 4
      → s.crosser n ≡ locking done c held (q ∷ todo)
      → ((m : ℕ) → s.owner q ≡ some m → Proceeds s)
      → Proceeds s
  asks n done c held q todo lt here ask = elim (dec_lt q 4) [
    | no past ↦ inr (record {
      lane = n;
      done = done;
      car = c;
      held = held;
      quad = q;
      todo = todo;
      known = lt;
      here = here;
      past = omega (arith, past);
    })
    | yes real ↦ elim (Option-cases (s.owner q)) [
      | inl free ↦ inl (_, lock n done c held q todo lt here real free)
      | inr (m, taken) ↦ ask m taken
    ]
  ]

  -- The thread that holds a quadrant can move, or it waits for a quadrant of a higher number,
  -- whose holder is looked at next. There are none above 4.
  holder_moves :
      (fuel q n : ℕ) (x : Crosser)
      → 5 ≤ q + fuel
      → s.crosser n ≡ x
      → n < 4
      → passes q (holding x) ≡ true
      → Proceeds s
  unfolding passes
  holder_moves fuel q n (idle d) enough here lt h = absurd (false≢true h)
  holder_moves fuel q n (waiting d) enough here lt h = absurd (false≢true h)
  holder_moves fuel q n (locking d c held []) enough here lt h = inl (_, link n d c held lt here)
  holder_moves zero q n (locking d c held (p ∷ todo)) enough here lt h =
      absurd (omega (arith, Rising-split 0 q p held todo (IsOrdered-at v n _ here) h))
  holder_moves (suc fuel) q n (locking d c held (p ∷ todo)) enough here lt h =
      asks n d c held p todo lt here λ m taken.
        holder_moves fuel p m (s.crosser m)
          (omega (arith, Rising-split 0 q p held todo (IsOrdered-at v n _ here) h)) refl
          (v.owned p m taken).0 (v.owned p m taken).1
  holder_moves fuel q n (linking d c held seen) enough here lt h =
      inl (_, cross n d c held seen lt here)
  holder_moves fuel q n (unlocking d c []) enough here lt h = absurd (false≢true h)
  holder_moves fuel q n (unlocking d c (p ∷ todo)) enough here lt h =
      inl (_, unlock n d c p todo lt here)

  Holds-at :
      (n : ℕ) (x : Crosser)
      → s.crosser n ≡ x
      → Holds (schedule n) (s.arrived n) (taken_by x) (s.lanes n)
  Holds-at n x here =
      subst (λ k. Holds (schedule n) (s.arrived n) k (s.lanes n)) (ap taken_by here) (v.lane n)

  -- With cars to come, `car_cross` takes the next one out of the buffer, or goes to sleep.
  idle_moves : (n d : ℕ) → n < 4 → s.crosser n ≡ idle d → d < (s.lanes n).inc → CanStep s
  idle_moves n d lt here less = elim (ℕ_discrete (s.lanes n).in_buf 0) [
    | yes empty ↦ (_, wait n d lt here less empty)
    | no some_in ↦
        let (c, listed, ran, _) = read_from_buf-Holds (Holds-at n _ here) some_in in
        let car = plan n d c lt listed in
        let (t, path, _, found, _) = compute_path-IsPath n car.out lt car.known in
        (_, take n d c _ path lt here less some_in ran (ground (arith, found, car.comes, car.goes)))
  ]

  -- While `car_cross` sleeps, the buffer is empty, so that `car_arrive` does not sleep.
  sleeper_moves : (n d : ℕ) → n < 4 → s.crosser n ≡ waiting d → CanStep s
  sleeper_moves n d lt here =
      let h = Holds-at n _ here in
      let less : d < length (schedule n) = subst (Drives (schedule n) s.lanes) here (w n lt) in
      let empty : (s.lanes n).in_buf ≡ 0 = u.empty n (ap sleeps here) in
      elim (Bool-cases (s.stalled n)) [
        | inl asleep ↦ absurd (omega (arith, u.full n asleep, empty))
        | inr awake ↦
            let (l, ran, _, _, _) =
              write_to_buf-Holds h (omega (arith, h.count, empty, less)) (omega (arith, empty)) in
            (
              _,
              arrive n l lt awake (omega (arith, h.count, h.total, empty, less))
                  (rw h.sized (omega (arith, empty))) ran,
            )
      ]

  finished : (n d : ℕ) → s.crosser n ≡ idle d → ¬ (d < (s.lanes n).inc) → IsDone s n
  finished n d here rest =
      let h = Holds-at n _ here in
      (
        omega (arith, h.all_in, h.total, h.count),
        elim (Bool-cases (s.stalled n)) [
          | inl asleep ↦ absurd (omega (arith, u.full n asleep, h.all_in, h.total, h.count))
          | inr awake ↦ awake
        ],
        here ∙ ap idle (omega (arith, h.all_in, h.total, h.count)),
      )

  lane_moves : (n : ℕ) (x : Crosser) → n < 4 → s.crosser n ≡ x → IsDone s n ⊎ Proceeds s
  lane_moves n (idle d) lt here = elim (dec_lt d (s.lanes n).inc) [
    | yes less ↦ inr (inl (idle_moves n d lt here less))
    | no rest ↦ inl (finished n d here rest)
  ]
  lane_moves n (waiting d) lt here = inr (inl (sleeper_moves n d lt here))
  lane_moves n (locking d c held []) lt here = inr (inl (_, link n d c held lt here))
  lane_moves n (locking d c held (q ∷ todo)) lt here = inr (
      asks n d c held q todo lt here λ m taken.
        holder_moves 5 q m (s.crosser m) (omega arith) refl (v.owned q m taken).0
          (v.owned q m taken).1)
  lane_moves n (linking d c held seen) lt here = inr (inl (_, cross n d c held seen lt here))
  lane_moves n (unlocking d c []) lt here = inr (inl (_, next n d c lt here))
  lane_moves n (unlocking d c (q ∷ todo)) lt here = inr (inl (_, unlock n d c q todo lt here))

  Overruns-stray : IsStray s → Overruns schedule s
  unfolding passes
  Overruns-stray stray =
      let h = Drives-at plan v w stray.lane _ stray.known stray.here in
      let rising : Rising 0 (stray.held ++ (stray.quad ∷ stray.todo)) =
        IsOrdered-at v stray.lane _ stray.here in
      let asked : passes stray.quad (stray.held ++ (stray.quad ∷ stray.todo)) ≡ true =
        ground (arith, passes-append stray.quad stray.held (stray.quad ∷ stray.todo)) in
      let four : stray.quad ≡ 4 = omega (
        arith,
        stray.past,
        Rising-passes 0 stray.quad (stray.held ++ (stray.quad ∷ stray.todo)) rising asked,
      ) in
      record {
        stray = stray;
        place = stray.done;
        path = stray.held ++ (stray.quad ∷ stray.todo);
        listed = h.0;
        found = h.1;
        four = subst (λ q. passes q (stray.held ++ (stray.quad ∷ stray.todo)) ≡ true) four asked;
      }

  all-IsDone : (k : ℕ) → k ≤ 4 → ((n : ℕ) → n < k → IsDone s n) ⊎ Proceeds s
  all-IsDone zero h = inl (λ n lt. absurd (omega arith))
  all-IsDone (suc k) h = elim (all-IsDone k (omega arith)) [
    | inr moves ↦ inr moves
    | inl below ↦ elim (lane_moves k (s.crosser k) (omega arith) refl) [
      | inr moves ↦ inr moves
      | inl last ↦ inl (λ n lt. elim (dec_lt n k) [
        | yes before ↦ below n before
        | no rest ↦ subst (IsDone s) (omega arith) last
      ])
    ]
  ]

-- If every car of the schedule comes in by the lane of its list and leaves by one of the four
-- directions, then in every state that the threads reach both threads of each of the four lanes
-- have made all their rounds and none of them sleeps, or some thread can take a step, or one is to
-- lock a quadrant past the end of `quad`, for a car of the schedule whose path has quadrant 4. If
-- no car has such a path, there is no deadlock, neither over the quadrants nor over full or empty
-- buffers.
pub no_deadlock :
    {schedule : ℕ → List Car} {s : System}
    → IsSchedule schedule
    → Reach schedule s
    → ((n : ℕ) → n < 4 → IsDone s n) ⊎ (CanStep s ⊎ Overruns schedule s)
no_deadlock plan r =
    let v = Reach-IsSafe plan r in
    let w = Reach-AllDrive plan r in
    elim (all-IsDone plan v (Reach-HasReason plan r) w 4 (omega arith)) [
      | inl done ↦ inl done
      | inr (inl moves) ↦ inr (inl moves)
      | inr (inr stray) ↦ inr (inr (Overruns-stray plan v (Reach-HasReason plan r) w stray))
    ]
