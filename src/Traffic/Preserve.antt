-- ===== src/Traffic/Preserve.antt =====
-- Every step of a thread keeps the invariant, and the threads start in it.
use csc_369_operating_system.Common.{
  ℕ, suc, ◌+◌, ◌-◌, ◌%◌, ◌<◌, false, List, [], ◌∷◌, ◌++◌, ◌≡◌, ◌≢◌, some, none, update, update-same,
  ◌==◌, ==_iff, arith, subst, sym, ◌∙◌, ap, Bool-cases, inl, inr,
}
use mathlib.Core.List.{append_assoc, append-nil}
use csc_369_operating_system.Traffic.Turn.{Rising, passes, compute_path, compute_path-IsPath}
use csc_369_operating_system.Traffic.Lane.{Car, Lane, write_to_buf, read_from_buf}
use csc_369_operating_system.Traffic.Fifo.{Holds, write_to_buf-Holds, read_from_buf-Holds}
use csc_369_operating_system.Traffic.System.{
  System, Crosser, idle, waiting, locking, linking, unlocking, woken, Step, stall, arrive, wait,
  take, lock, link, cross, unlock, next, pass, Reach, begin, step,
}
use csc_369_operating_system.Traffic.Invariant.{
  holding, taken_by, holding-woken, taken_by-woken, woken-IsOrdered, IsOrdered, IsSchedule, IsSafe,
  passes-append, Rising-passes,
}
use csc_369_operating_system.Traffic.Beginning.{start-IsSafe}

-- A fact of each index survives an update, if it holds of the new value.
pub at_update {ℓ} :
    {A : Type ℓ} (P : ℕ → A → Type 0) (f : ℕ → A) (n : ℕ) (a : A)
    → P n a
    → ((m : ℕ) → P m (f m))
    → (m : ℕ) → P m (update f n a m)
at_update P f n a h rest m = elim (Bool-cases (n == m)) [
  | inl e ↦ rw e (subst (λ j. P j a) ((==_iff n m).0 e) h)
  | inr e ↦ rw e (rest m)
]

pass-Holds :
    (n : ℕ) (c : Car) (seen : List Car) (lanes : ℕ → Lane) (m : ℕ) {cars : List Car} {a b : ℕ}
    → Holds cars a b (lanes m)
    → Holds cars a b (pass n c seen lanes m)
unfolding pass
pass-Holds n c seen lanes m v = record {
  sized = ground (arith, v.sized);
  storage = ground (arith, v.storage);
  all_in = v.all_in;
  count = ground (arith, v.count);
  fits = ground (arith, v.fits);
  next_in = ground (arith, v.next_in);
  next_out = ground (arith, v.next_out);
  rest = ground (arith, v.rest);
  total = ground (arith, v.total);
  stored = λ k lo hi. ground (arith, v.stored k lo hi);
}

at_update₂ {ℓ κ} :
    {A : Type ℓ} {B : Type κ} (P : ℕ → A → B → Type 0) (f : ℕ → A) (g : ℕ → B) (n : ℕ) (a : A)
    (b : B)
    → P n a b
    → ((m : ℕ) → P m (f m) (g m))
    → (m : ℕ) → P m (update f n a m) (update g n b m)
at_update₂ P f g n a b h rest m = elim (Bool-cases (n == m)) [
  | inl e ↦ rw e (subst (λ j. P j a b) ((==_iff n m).0 e) h)
  | inr e ↦ rw e (rest m)
]

module _ {schedule : ℕ → List Car} {s : System} (v : IsSafe schedule s) where
  -- The lane of a thread whose position alone changes, and not how many cars it has taken.
  move-lane :
      (n : ℕ) (x : Crosser)
      → taken_by (s.crosser n) ≡ taken_by x
      → (m : ℕ) → Holds (schedule m) (s.arrived m) (taken_by (update s.crosser n x m)) (s.lanes m)
  move-lane n x e =
      at_update (λ m y. Holds (schedule m) (s.arrived m) (taken_by y) (s.lanes m)) s.crosser n x
        (subst (λ d. Holds (schedule n) (s.arrived n) d (s.lanes n)) e (v.lane n)) v.lane

  -- The same for what it has to lock or unlock next.
  move-IsOrdered :
      (n : ℕ) (x : Crosser) → IsOrdered x → (m : ℕ) → IsOrdered (update s.crosser n x m)
  move-IsOrdered n x h = at_update (λ m y. IsOrdered y) s.crosser n x h v.ordered

  pub IsOrdered-at : (n : ℕ) (x : Crosser) → s.crosser n ≡ x → IsOrdered x
  IsOrdered-at n x e = subst IsOrdered e (v.ordered n)

  -- A step of lane `n` that changes its thread's place, but neither what it holds nor how many cars
  -- it has taken.
  move-IsSafe :
      (n : ℕ) (x : Crosser)
      → taken_by x ≡ taken_by (s.crosser n)
      → holding x ≡ holding (s.crosser n)
      → IsOrdered x
      → IsSafe schedule (record s { crosser = update s.crosser n x })
  move-IsSafe n x count same ordered = record {
    lane = move-lane n x (sym count);
    ordered = move-IsOrdered n x ordered;
    owned = λ q m h.
        let (lt, has) = v.owned q m h in
        (lt, ap (passes q) (update-same holding s.crosser n x m same) ∙ has);
    owner_of = λ q m h.
        v.owner_of q m (ap (passes q) (sym (update-same holding s.crosser n x m same)) ∙ h);
  }

  arrive-IsSafe :
      (n : ℕ) (l : Lane)
      → s.arrived n < (s.lanes n).inc
      → (s.lanes n).in_buf ≢ (s.lanes n).capacity
      → write_to_buf (s.lanes n) ≡ some l
      → IsSafe schedule (record s {
        lanes = update s.lanes n l;
        arrived = update s.arrived n (suc (s.arrived n));
        crosser = update s.crosser n (woken (s.crosser n));
      })
  arrive-IsSafe n l more room e =
      let w = v.lane n in
      let (l', ran, w', _, _) =
        write_to_buf-Holds w (omega (arith, w.total)) (ground (arith, room, w.sized)) in
      let same : l' ≡ l = cc in
      let x = woken (s.crosser n) in
      let moved =
        move-IsSafe n x (taken_by-woken (s.crosser n)) (holding-woken (s.crosser n))
          (woken-IsOrdered (s.crosser n) (v.ordered n)) in
      let kept : (m : ℕ) → taken_by (s.crosser m) ≡ taken_by (update s.crosser n x m) =
        λ m. sym (update-same taken_by s.crosser n x m (taken_by-woken (s.crosser n))) in
      record {
        lane = λ m.
            subst
              (λ d.
                Holds (schedule m) (update s.arrived n (suc (s.arrived n)) m) d
                  (update s.lanes n l m))
              (kept m)
              (at_update₂ (λ m a k. Holds (schedule m) a (taken_by (s.crosser m)) k) s.arrived
                s.lanes n (suc (s.arrived n)) l
                (subst (Holds (schedule n) (suc (s.arrived n)) (taken_by (s.crosser n))) same w')
                v.lane m);
        ordered = moved.ordered;
        owned = moved.owned;
        owner_of = moved.owner_of;
      }

  take-IsSafe :
      (n done : ℕ) (c : Car) (l : Lane) (path : List ℕ)
      → IsSchedule schedule
      → n < 4
      → s.crosser n ≡ idle done
      → (s.lanes n).in_buf ≢ 0
      → read_from_buf (s.lanes n) ≡ (some c, l)
      → compute_path c.in_dir c.out_dir ≡ some path
      → IsSafe schedule (record s {
        lanes = update s.lanes n (record l { in_buf = l.in_buf - 1 });
        stalled = update s.stalled n false;
        crosser = update s.crosser n (locking done c [] path);
      })
  take-IsSafe n done c l path plan lt here some_in e found =
      let w : Holds (schedule n) (s.arrived n) done (s.lanes n) =
        subst (λ d. Holds (schedule n) (s.arrived n) d (s.lanes n)) (ap taken_by here) (v.lane n) in
      let (c', listed, ran, w') = read_from_buf-Holds w some_in in
      let same : c' ≡ c = cc in
      let same_lane : record (s.lanes n) { head = ((s.lanes n).head + 1) % (s.lanes n).capacity }
          ≡ l =
        cc in
      let car = plan n done c lt (listed ∙ ap some same) in
      let (t, path', _, found', ok) = compute_path-IsPath n car.out lt car.known in
      let same_path : path' ≡ path = ground (arith, found, found', car.comes, car.goes) in
      record {
        lane =
            at_update₂ (λ m x k. Holds (schedule m) (s.arrived m) (taken_by x) k) s.crosser s.lanes
              n (locking done c [] path) (record l { in_buf = l.in_buf - 1 })
              (subst
                (λ k.
                  Holds (schedule n) (s.arrived n) (suc done) (record k { in_buf = k.in_buf - 1 }))
                same_lane w')
              v.lane;
        ordered = move-IsOrdered n (locking done c [] path) (subst (Rising 0) same_path ok.rising);
        owned = λ q m h. ground (arith, v.owned q m, here);
        owner_of = λ q m h. ground (arith, v.owner_of q m, here);
      }

  lock-IsSafe :
      (n done : ℕ) (c : Car) (held : List ℕ) (q : ℕ) (todo : List ℕ)
      → n < 4
      → s.crosser n ≡ locking done c held (q ∷ todo)
      → s.owner q ≡ none
      → IsSafe schedule (record s {
        owner = update s.owner q (some n);
        crosser = update s.crosser n (locking done c (held ++ (q ∷ [])) todo);
      })
  unfolding passes
  lock-IsSafe n done c held q todo lt here free = record {
    lane = move-lane n (locking done c (held ++ (q ∷ [])) todo) (ap taken_by here);
    ordered =
        move-IsOrdered n (locking done c (held ++ (q ∷ [])) todo)
          (subst (Rising 0) (sym (append_assoc held (q ∷ []) todo)) (IsOrdered-at n _ here));
    owned = λ p m h. ground (arith, v.owned p m, here, passes-append p held (q ∷ []));
    owner_of = λ p m h. ground (arith, v.owner_of p m, here, passes-append p held (q ∷ []));
  }

  link-IsSafe :
      (n done : ℕ) (c : Car) (held : List ℕ) (seen : List Car)
      → s.crosser n ≡ locking done c held []
      → IsSafe schedule (record s { crosser = update s.crosser n (linking done c held seen) })
  link-IsSafe n done c held seen here =
      move-IsSafe n (linking done c held seen) (sym (ap taken_by here)) (sym (ap holding here))
        (subst (Rising 0) (append-nil held) (IsOrdered-at n _ here))

  cross-IsSafe :
      (n done : ℕ) (c : Car) (held : List ℕ) (seen : List Car)
      → s.crosser n ≡ linking done c held seen
      → IsSafe schedule (record s {
        lanes = pass n c seen s.lanes;
        crosser = update s.crosser n (unlocking done c held);
      })
  cross-IsSafe n done c held seen here =
      let moved =
        move-IsSafe n (unlocking done c held) (sym (ap taken_by here)) (sym (ap holding here))
          (IsOrdered-at n _ here) in
      record {
        lane = λ m. pass-Holds n c seen s.lanes m (moved.lane m);
        ordered = moved.ordered;
        owned = moved.owned;
        owner_of = moved.owner_of;
      }

  unlock-IsSafe :
      (n done : ℕ) (c : Car) (q : ℕ) (todo : List ℕ)
      → s.crosser n ≡ unlocking done c (q ∷ todo)
      → IsSafe schedule (record s {
        owner = update s.owner q none;
        crosser = update s.crosser n (unlocking done c todo);
      })
  unfolding passes
  unlock-IsSafe n done c q todo here = record {
    lane = move-lane n (unlocking done c todo) (ap taken_by here);
    ordered = move-IsOrdered n (unlocking done c todo) (weaken todo (IsOrdered-at n _ here).2);
    owned = λ p m h. ground (arith, v.owned p m, here);
    owner_of = λ p m h. ground (
      arith,
      v.owner_of p m,
      v.owner_of q m,
      v.owner_of q n,
      here,
      Rising-passes q p todo (IsOrdered-at n _ here).2,
    );
  }
    where
      weaken : (xs : List ℕ) → Rising q xs → Rising 0 xs
      weaken [] r = tt
      weaken (x ∷ xs) r = (omega arith, r.1, r.2)

pub Step-IsSafe :
    {schedule : ℕ → List Car} {s t : System}
    → IsSchedule schedule
    → IsSafe schedule s
    → Step s t
    → IsSafe schedule t
Step-IsSafe plan v (stall n lt awake more full) = record {
  lane = v.lane;
  ordered = v.ordered;
  owned = v.owned;
  owner_of = v.owner_of;
}
Step-IsSafe plan v (arrive n l lt awake more room e) = arrive-IsSafe v n l more room e
Step-IsSafe plan v (wait n d lt here less empty) =
    move-IsSafe v n (waiting d) (sym (ap taken_by here)) (sym (ap holding here)) tt
Step-IsSafe plan v (take n d c l p lt here less some_in e found) =
    take-IsSafe v n d c l p plan lt here some_in e found
Step-IsSafe plan v (lock n d c held q todo lt here real free) =
    lock-IsSafe v n d c held q todo lt here free
Step-IsSafe plan v (link n d c held lt here) = link-IsSafe v n d c held _ here
Step-IsSafe plan v (cross n d c held seen lt here) = cross-IsSafe v n d c held seen here
Step-IsSafe plan v (unlock n d c q todo lt here) = unlock-IsSafe v n d c q todo here
Step-IsSafe plan v (next n d c lt here) =
    move-IsSafe v n (idle (suc d)) (sym (ap taken_by here)) (sym (ap holding here)) tt

-- Every state that the threads reach meets the invariant.
pub Reach-IsSafe :
    {schedule : ℕ → List Car} {s : System}
    → IsSchedule schedule
    → Reach schedule s
    → IsSafe schedule s
Reach-IsSafe {schedule} plan begin = start-IsSafe schedule
Reach-IsSafe plan (step r st) = Step-IsSafe plan (Reach-IsSafe plan r) st
