-- ===== src/Traffic/Schedule.antt =====
-- `parse_schedule` of A2/cars.c, and the order in which the lanes hand on the cars that it reads.
use csc_369_operating_system.Common.{
  ℕ, ◌==◌, ◌||◌, to_ℕ, is_negative, exceeds, List, [], ◌∷◌, ◌≡◌, ◌≢◌, refl, sym, ◌∙◌, ap, Option,
  none, some, arith, update, get_elem?, if◌then◌else◌, Bool-cases, inl, inr,
}
use mathlib.Core.List.{reverse, reverse_aux}
use csc_369_operating_system.Traffic.Lane.{Car, Lane, init_lane, add_car, read_from_buf}
use csc_369_operating_system.Traffic.Fifo.{read_from_buf-Holds}
use csc_369_operating_system.Traffic.System.{System, Reach, load, start}
use csc_369_operating_system.Traffic.Invariant.{taken_by, IsSchedule}
use csc_369_operating_system.Traffic.Preserve.{Reach-IsSafe}

-- The loop of `parse_schedule` on the cars of the file, in the order of its lines. A direction that
-- is none of the four leads past the end of `lanes`, which is `none`.
unfoldable pub parse_schedule : List Car → (ℕ → Lane) → Option (ℕ → Lane)
unfolding add_car
parse_schedule [] lanes = some lanes
parse_schedule (c ∷ read) lanes =
    let n = to_ℕ c.in_dir in
    let rest = parse_schedule read (update lanes n (add_car c (lanes n))) in
    if is_negative c.in_dir || exceeds c.in_dir 3 then none else rest

-- The cars of the file that come in by one lane, in the order of its lines.
unfoldable pub coming_in : ℕ → List Car → List Car
coming_in n [] = []
coming_in n (c ∷ read) =
    let rest = coming_in n read in if to_ℕ c.in_dir == n then c ∷ rest else rest

-- The last car of the file comes first.
abbrev pub queues : List Car → ℕ → List Car
queues read n = reverse (coming_in n read)

parse_schedule-load :
    (read : List Car) (lanes lanes' : ℕ → Lane) (n : ℕ) (cars : List Car)
    → lanes n ≡ load cars
    → parse_schedule read lanes ≡ some lanes'
    → lanes' n ≡ load (reverse_aux (coming_in n read) cars)
unfolding parse_schedule coming_in load
parse_schedule-load [] lanes lanes' n cars e parsed =
    let same : lanes ≡ lanes' = cc in sym (ap (λ f. f n) same) ∙ e
parse_schedule-load (c ∷ read) lanes lanes' n cars e parsed =
    let m = to_ℕ c.in_dir in
    let lanes1 = update lanes m (add_car c (lanes m)) in
    elim (Bool-cases (is_negative c.in_dir || exceeds c.in_dir 3)) [
      | inl past ↦ absurd (ground (arith, parsed, past))
      | inr known ↦
          let rest : parse_schedule read lanes1 ≡ some lanes' = rw known at parsed in
          elim (Bool-cases (m == n)) [
            | inl here ↦
                rw here (
                  parse_schedule-load read lanes1 lanes' n (c ∷ cars) (ground (arith, here, e))
                    rest)
            | inr away ↦ rw away (parse_schedule-load read lanes1 lanes' n cars (rw away e) rest)
          ]
    ]

-- If the directions of all cars of the file are among the four, then the threads start with the
-- lanes that `parse_schedule` leaves; and in every state that they reach a lane that has cars in
-- its buffer hands on, by `read_from_buf`, the next car of the lane counted from the end of the
-- file, after as many as its crossing thread has taken. That is no null pointer, no car is skipped,
-- and the lane's last line of the file comes first.
pub in_order :
    (read : List Car) (lanes : ℕ → Lane) {s : System}
    → IsSchedule (queues read)
    → parse_schedule read (λ m. init_lane) ≡ some lanes
    → Reach (queues read) s
    → (n : ℕ) → (s.lanes n).in_buf ≢ 0
    → ((m : ℕ) → lanes m ≡ (start (queues read)).lanes m)
      × ((read_from_buf (s.lanes n)).0
          ≡ get_elem? (reverse (coming_in n read)) (taken_by (s.crosser n)))
unfolding load
in_order read lanes plan parsed r n some_in =
    let v = Reach-IsSafe plan r in
    let (c, listed, ran, _) = read_from_buf-Holds (v.lane n) some_in in
    (
      λ m. parse_schedule-load read (λ k. init_lane) lanes m [] refl parsed,
      ap (λ x. x.0) ran ∙ sym listed,
    )
