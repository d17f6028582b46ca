-- ===== src/Traffic/Across.antt =====
-- The cars between the two assignments of `complete_cross`: what the quadrants' locks are for.
use csc_369_operating_system.Common.{
  ℕ, suc, ◌+◌, ◌-◌, ◌<◌, to_ℕ, ◌≡◌, ◌≢◌, true, List, [], ◌∷◌, ◌++◌, refl, some, arith, ap, sym,
  subst, ◌∙◌, update, update_self, update-same, eq-false, ℕ_discrete, get_elem?, length, Bool-cases,
  inl, inr, ◌==◌,
}
use mathlib.Core.List.{append_assoc, append-nil}
use csc_369_operating_system.Traffic.Turn.{passes, compute_path, compute_path-exit}
use csc_369_operating_system.Traffic.Lane.{Car, Lane, write_to_buf, read_from_buf, complete_cross}
use csc_369_operating_system.Traffic.Fifo.{Holds, write_to_buf-Holds, read_from_buf-Holds}
use csc_369_operating_system.Traffic.System.{
  System, Crosser, idle, waiting, locking, linking, unlocking, woken, Step, stall, arrive, wait,
  take, lock, link, cross, unlock, next, pass, Reach, begin, step,
}
use csc_369_operating_system.Traffic.Invariant.{IsSchedule, IsSafe, holding, taken_by}
use csc_369_operating_system.Traffic.Preserve.{Reach-IsSafe, at_update}

-- What a thread knows while it waits for a car, which is to come, and while it brings one across: the car is the next one of its schedule, the
-- quadrants that it holds and those that it is to lock make the car's path, and what it has read of
-- the exit's list is what the list still is.
abbrev pub Drives : List Car → (ℕ → Lane) → Crosser → Type 0
Drives cs lanes (idle d) = Unit {0}
Drives cs lanes (waiting d) = d < length cs
Drives cs lanes (locking d c held todo) =
    (get_elem? cs d ≡ some c) × (compute_path c.in_dir c.out_dir ≡ some (held ++ todo))
Drives cs lanes (linking d c held seen) =
    (get_elem? cs d ≡ some c)
    × (compute_path c.in_dir c.out_dir ≡ some held)
    × (seen ≡ (lanes (to_ℕ c.out_dir)).out_cars)
Drives cs lanes (unlocking d c todo) = Unit {0}

abbrev pub AllDrive : (ℕ → List Car) → System → Type 0
AllDrive schedule s = (n : ℕ) → n < 4 → Drives (schedule n) s.lanes (s.crosser n)

woken-Drives :
    (cs : List Car) (lanes : ℕ → Lane) (x : Crosser) → Drives cs lanes x → Drives cs lanes (woken x)
woken-Drives cs lanes (idle d) h = h
woken-Drives cs lanes (waiting d) h = tt
woken-Drives cs lanes (locking d c held todo) h = h
woken-Drives cs lanes (linking d c held seen) h = h
woken-Drives cs lanes (unlocking d c todo) h = h

-- Lanes with the same cars at the exits.
lanes-Drives :
    (cs : List Car) (lanes lanes' : ℕ → Lane) (x : Crosser)
    → ((m : ℕ) → (lanes' m).out_cars ≡ (lanes m).out_cars)
    → Drives cs lanes x
    → Drives cs lanes' x
lanes-Drives cs lanes lanes' (idle d) same h = h
lanes-Drives cs lanes lanes' (waiting d) same h = h
lanes-Drives cs lanes lanes' (locking d c held todo) same h = h
lanes-Drives cs lanes lanes' (linking d c held seen) same h =
    (h.0, h.1, h.2 ∙ sym (same (to_ℕ c.out_dir)))
lanes-Drives cs lanes lanes' (unlocking d c todo) same h = h

pub read_from_buf-keeps :
    (l : Lane)
    → ((read_from_buf l).1.out_cars ≡ l.out_cars) × ((read_from_buf l).1.passed ≡ l.passed)
unfolding read_from_buf
read_from_buf-keeps l = elim (Bool-cases (l.in_buf == 0)) [
  | inl h ↦ (rw h refl, rw h refl)
  | inr h ↦ (rw h refl, rw h refl)
]

-- A car that is stored behind one exit leaves the others alone.
pass-elsewhere :
    (n m : ℕ) (c : Car) (seen : List Car) (lanes : ℕ → Lane)
    → m ≢ to_ℕ c.out_dir
    → (pass n c seen lanes m).out_cars ≡ (lanes m).out_cars
unfolding pass complete_cross
pass-elsewhere n m c seen lanes ne =
    let out = to_ℕ c.out_dir in
    let crossed = update lanes out (complete_cross c seen (lanes out)) in
    update-same (λ l. l.out_cars) crossed n (record (crossed n) { passed = (crossed n).passed + 1 })
      m refl
    ∙ rw (eq-false out m (λ e. ne (sym e))) refl

module _ {schedule : ℕ → List Car} {s : System} (plan : IsSchedule schedule)
    (v : IsSafe schedule s) where
  -- A car that crosses has the quadrant of its exit.
  exit-owner :
      (n d : ℕ) (c : Car) (held : List ℕ) (seen : List Car)
      → n < 4
      → s.crosser n ≡ linking d c held seen
      → get_elem? (schedule n) d ≡ some c
      → compute_path c.in_dir c.out_dir ≡ some held
      → s.owner (to_ℕ c.out_dir + 1) ≡ some n
  exit-owner n d c held seen lt here listed found =
      let car = plan n d c lt listed in
      let swept : passes (car.out + 1) held ≡ true =
        compute_path-exit n car.out held lt car.known (rw (car.comes, car.goes) at found) in
      v.owner_of (to_ℕ c.out_dir + 1) n (
        ap (λ x. passes (to_ℕ c.out_dir + 1) (holding x)) here
        ∙ ap (λ o. passes (to_ℕ o + 1) held) car.goes
        ∙ swept)

  module _ (w : AllDrive schedule s) where
    pub Drives-at : (n : ℕ) (x : Crosser) → n < 4 → s.crosser n ≡ x → Drives (schedule n) s.lanes x
    Drives-at n x lt here = subst (Drives (schedule n) s.lanes) here (w n lt)

    -- Two cars that cross leave by different exits.
    exits-differ :
        (n m d d' : ℕ) (c c' : Car) (held held' : List ℕ) (seen seen' : List Car)
        → n < 4
        → m < 4
        → n ≢ m
        → s.crosser n ≡ linking d c held seen
        → s.crosser m ≡ linking d' c' held' seen'
        → to_ℕ c.out_dir ≢ to_ℕ c'.out_dir
    exits-differ n m d d' c c' held held' seen seen' lt lt' ne here here' same =
        let h = Drives-at n _ lt here in
        let h' = Drives-at m _ lt' here' in
        let one = exit-owner n d c held seen lt here h.0 h.1 in
        let two = exit-owner m d' c' held' seen' lt' here' h'.0 h'.1 in
        let e : some n ≡ some m = sym one ∙ ap (λ o. s.owner (o + 1)) same ∙ two in ne cc

    -- A step of lane `n` under which the exits stay as they are.
    move-AllDrive :
        (n : ℕ) (x : Crosser) (lanes : ℕ → Lane)
        → ((m : ℕ) → (lanes m).out_cars ≡ (s.lanes m).out_cars)
        → (n < 4 → Drives (schedule n) s.lanes x)
        → (m : ℕ) → m < 4
        → Drives (schedule m) lanes (update s.crosser n x m)
    move-AllDrive n x lanes same h m lt =
        lanes-Drives (schedule m) s.lanes lanes (update s.crosser n x m) same
          (at_update (λ k y. k < 4 → Drives (schedule k) s.lanes y) s.crosser n x h w m lt)

    cross-AllDrive :
        (n d : ℕ) (c : Car) (held : List ℕ) (seen : List Car)
        → n < 4
        → s.crosser n ≡ linking d c held seen
        → (m : ℕ) → m < 4
        → Drives (schedule m) (pass n c seen s.lanes) (update s.crosser n (unlocking d c held) m)
    cross-AllDrive n d c held seen lt here m lt' = elim (ℕ_discrete n m) [
      | yes e ↦
          subst (λ k. Drives (schedule m) (pass n c seen s.lanes) k)
            (sym (update_self s.crosser n (unlocking d c held))
              ∙ ap (update s.crosser n (unlocking d c held)) e)
            tt
      | no ne ↦ rw (eq-false n m ne) (other m lt' ne (s.crosser m) refl)
    ]
      where
        other :
            (m : ℕ)
            → m < 4
            → n ≢ m
            → (x : Crosser) → s.crosser m ≡ x
            → Drives (schedule m) (pass n c seen s.lanes) x
        other m lt' ne (idle d') there = tt
        other m lt' ne (waiting d') there = Drives-at m _ lt' there
        other m lt' ne (locking d' c' held' todo) there = Drives-at m _ lt' there
        other m lt' ne (linking d' c' held' seen') there =
            let h = Drives-at m _ lt' there in
            (
              h.0,
              h.1,
              h.2
                  ∙ sym (
                      pass-elsewhere n (to_ℕ c'.out_dir) c seen s.lanes (λ e.
                        exits-differ n m d d' c c' held held' seen seen' lt lt' ne here there
                          (sym e))),
            )
        other m lt' ne (unlocking d' c' todo) there = tt

    arrive-AllDrive :
        (n : ℕ) (l : Lane)
        → s.arrived n < (s.lanes n).inc
        → (s.lanes n).in_buf ≢ (s.lanes n).capacity
        → write_to_buf (s.lanes n) ≡ some l
        → (m : ℕ) → m < 4
        → Drives (schedule m) (update s.lanes n l) (update s.crosser n (woken (s.crosser n)) m)
    arrive-AllDrive n l more room ran =
        let h = v.lane n in
        let (after, ran', h', outs, passes) =
          write_to_buf-Holds h (omega (arith, more, h.total)) (λ full. room (full ∙ sym h.sized)) in
        let same : after ≡ l = ground (arith, ran, ran') in
        move-AllDrive n (woken (s.crosser n)) (update s.lanes n l)
          (λ m.
            update-same (λ x. x.out_cars) s.lanes n l m (ap (λ x. x.out_cars) (sym same) ∙ outs))
          (λ lt. woken-Drives (schedule n) s.lanes (s.crosser n) (w n lt))

    take-AllDrive :
        (n done : ℕ) (c : Car) (l : Lane) (path : List ℕ)
        → s.crosser n ≡ idle done
        → (s.lanes n).in_buf ≢ 0
        → read_from_buf (s.lanes n) ≡ (some c, l)
        → compute_path c.in_dir c.out_dir ≡ some path
        → (m : ℕ) → m < 4
        → Drives
            (schedule m)
            (update s.lanes n (record l { in_buf = l.in_buf - 1 }))
            (update s.crosser n (locking done c [] path) m)
    take-AllDrive n done c l path here some_in ran found =
        let h : Holds (schedule n) (s.arrived n) done (s.lanes n) =
          subst (λ k. Holds (schedule n) (s.arrived n) k (s.lanes n)) (ap taken_by here)
            (v.lane n) in
        let (c', listed, ran', _) = read_from_buf-Holds h some_in in
        let same : c' ≡ c = ground (arith, ran, ran') in
        move-AllDrive n (locking done c [] path)
          (update s.lanes n (record l { in_buf = l.in_buf - 1 }))
          (λ m.
            update-same (λ x. x.out_cars) s.lanes n (record l { in_buf = l.in_buf - 1 }) m
              (ap (λ r. r.1.out_cars) (sym ran) ∙ (read_from_buf-keeps (s.lanes n)).0))
          (λ lt. (listed ∙ ap some same, found))

Step-AllDrive :
    {schedule : ℕ → List Car} {s t : System}
    → IsSchedule schedule
    → IsSafe schedule s
    → AllDrive schedule s
    → Step s t
    → AllDrive schedule t
Step-AllDrive plan v w (stall n lt awake more full) = w
Step-AllDrive plan v w (arrive n l lt awake more room ran) =
    arrive-AllDrive plan v w n l more room ran
Step-AllDrive {s = s} plan v w (wait n d lt here less empty) =
    move-AllDrive plan v w n (waiting d) s.lanes (λ m. refl)
      (λ lt. omega (arith, less, (v.lane n).total))
Step-AllDrive plan v w (take n d c l p lt here less some_in ran found) =
    take-AllDrive plan v w n d c l p here some_in ran found
Step-AllDrive {s = s} plan v w (lock n d c held q todo lt here real free) =
    let h = Drives-at plan v w n _ lt here in
    move-AllDrive plan v w n (locking d c (held ++ (q ∷ [])) todo) s.lanes (λ m. refl)
      (λ lt. (h.0, h.1 ∙ ap some (sym (append_assoc held (q ∷ []) todo))))
Step-AllDrive {s = s} plan v w (link n d c held lt here) =
    let h = Drives-at plan v w n _ lt here in
    move-AllDrive plan v w n (linking d c held (s.lanes (to_ℕ c.out_dir)).out_cars) s.lanes
      (λ m. refl) (λ lt. (h.0, h.1 ∙ ap some (append-nil held), refl))
Step-AllDrive plan v w (cross n d c held seen lt here) =
    cross-AllDrive plan v w n d c held seen lt here
Step-AllDrive {s = s} plan v w (unlock n d c q todo lt here) =
    move-AllDrive plan v w n (unlocking d c todo) s.lanes (λ m. refl) (λ lt. tt)
Step-AllDrive {s = s} plan v w (next n d c lt here) =
    move-AllDrive plan v w n (idle (suc d)) s.lanes (λ m. refl) (λ lt. tt)

pub Reach-AllDrive :
    {schedule : ℕ → List Car} {s : System}
    → IsSchedule schedule
    → Reach schedule s
    → AllDrive schedule s
Reach-AllDrive plan begin = λ n lt. tt
Reach-AllDrive plan (step r st) =
    Step-AllDrive plan (Reach-IsSafe plan r) (Reach-AllDrive plan r) st

-- If every car of the schedule comes in by the lane of its list and leaves by one of the four
-- directions, then in every state that the threads reach in which two of them are between the
-- assignments of `complete_cross`: each holds all the quadrants of its car's path, the paths
-- have no quadrant in common, the cars leave by different exits, and the list that each is to
-- extend is still the one that it read.
pub mutual_exclusion :
    {schedule : ℕ → List Car} {s : System}
    → IsSchedule schedule
    → Reach schedule s
    → (n m d d' : ℕ) (c c' : Car) (held held' : List ℕ) (seen seen' : List Car) → n < 4
    → m < 4
    → n ≢ m
    → s.crosser n ≡ linking d c held seen
    → s.crosser m ≡ linking d' c' held' seen'
    → (compute_path c.in_dir c.out_dir ≡ some held)
      × (compute_path c'.in_dir c'.out_dir ≡ some held')
      × ((q : ℕ) → passes q held ≡ true → s.owner q ≡ some n)
      × ((q : ℕ) → passes q held' ≡ true → s.owner q ≡ some m)
      × ((q : ℕ) → passes q held ≡ true → passes q held' ≢ true)
      × (to_ℕ c.out_dir ≢ to_ℕ c'.out_dir)
      × (seen ≡ (s.lanes (to_ℕ c.out_dir)).out_cars)
      × (seen' ≡ (s.lanes (to_ℕ c'.out_dir)).out_cars)
mutual_exclusion {s = s} plan r n m d d' c c' held held' seen seen' lt lt' ne here here' =
    let v = Reach-IsSafe plan r in
    let w = Reach-AllDrive plan r in
    let h = Drives-at plan v w n _ lt here in
    let h' = Drives-at plan v w m _ lt' here' in
    let own : (q : ℕ) → passes q held ≡ true → s.owner q ≡ some n =
      λ q p. v.owner_of q n (ap (λ x. passes q (holding x)) here ∙ p) in
    let own' : (q : ℕ) → passes q held' ≡ true → s.owner q ≡ some m =
      λ q p. v.owner_of q m (ap (λ x. passes q (holding x)) here' ∙ p) in
    (
      h.1,
      h'.1,
      own,
      own',
      λ q p p'. let e : some n ≡ some m = sym (own q p) ∙ own' q p' in ne cc,
      exits-differ plan v w n m d d' c c' held held' seen seen' lt lt' ne here here',
      h.2,
      h'.2,
    )
