-- ===== src/Traffic/Weight.antt =====
-- Sums over the cars of the lanes and of the exits in A2/cars.c.
use csc_369_operating_system.Common.{
  ℕ, zero, suc, ◌+◌, ◌<◌, ◌==◌, to_ℕ, List, [], ◌∷◌, length, ◌≡◌, ◌≢◌, refl, some, arith, subst,
  sym, ap, ◌∙◌, update, update_self, update-same, eq-false, get_elem?, if◌then◌else◌, ℕ_discrete,
}
use csc_369_operating_system.Traffic.Lane.{Car, Lane, complete_cross}
use csc_369_operating_system.Traffic.System.{pass}

-- The sum of a weight over cars; two lists have the same cars, in some order, if and only if they
-- have the same sum for every weight.
unfoldable pub weigh : (Car → ℕ) → List Car → ℕ
weigh f [] = 0
weigh f (c ∷ cs) = f c + weigh f cs

-- The same for the first cars of a list.
unfoldable pub weigh_first : (Car → ℕ) → ℕ → List Car → ℕ
weigh_first f zero cs = 0
weigh_first f (suc k) [] = 0
weigh_first f (suc k) (c ∷ cs) = f c + weigh_first f k cs

pub weigh_first-next :
    (f : Car → ℕ) (k : ℕ) (cs : List Car) (c : Car)
    → get_elem? cs k ≡ some c
    → weigh_first f (suc k) cs ≡ weigh_first f k cs + f c
unfolding weigh_first
weigh_first-next f k [] c e = absurd (ground (arith, e))
weigh_first-next f zero (d ∷ cs) c e =
    let same : f d ≡ f c = ap f (ground (arith, e)) in omega (arith, same)
weigh_first-next f (suc k) (d ∷ cs) c e = omega (arith, weigh_first-next f k cs c e)

pub weigh_first-all : (f : Car → ℕ) (cs : List Car) → weigh_first f (length cs) cs ≡ weigh f cs
unfolding weigh_first weigh
weigh_first-all f [] = refl
weigh_first-all f (c ∷ cs) = ap (λ n. f c + n) (weigh_first-all f cs)

-- The weight of the cars that leave by one exit.
abbrev pub bound_for : ℕ → (Car → ℕ) → Car → ℕ
bound_for m f c = if to_ℕ c.out_dir == m then f c else 0

abbrev pub over_lanes : (ℕ → ℕ) → ℕ
over_lanes g = g 0 + g 1 + g 2 + g 3

pub over_lanes-add :
    (f g : ℕ → ℕ) (n k : ℕ)
    → n < 4
    → ((m : ℕ) → m ≢ n → g m ≡ f m)
    → g n ≡ f n + k
    → over_lanes g ≡ over_lanes f + k
over_lanes-add f g zero k lt same more =
    omega (arith, more, same 1 (omega arith), same 2 (omega arith), same 3 (omega arith))
over_lanes-add f g (suc zero) k lt same more =
    omega (arith, more, same 0 (omega arith), same 2 (omega arith), same 3 (omega arith))
over_lanes-add f g (suc (suc zero)) k lt same more =
    omega (arith, more, same 0 (omega arith), same 1 (omega arith), same 3 (omega arith))
over_lanes-add f g (suc (suc (suc zero))) k lt same more =
    omega (arith, more, same 0 (omega arith), same 1 (omega arith), same 2 (omega arith))
over_lanes-add f g (suc (suc (suc (suc n)))) k lt same more = absurd (omega (arith, lt))

crossed-out :
    (f : Car → ℕ) (m : ℕ) (c : Car) (lanes : ℕ → Lane)
    → weigh f
        (update lanes
          (to_ℕ c.out_dir)
          (complete_cross c (lanes (to_ℕ c.out_dir)).out_cars (lanes (to_ℕ c.out_dir)))
          m).out_cars
      ≡ weigh f (lanes m).out_cars + bound_for m f c
unfolding weigh complete_cross
crossed-out f m c lanes =
    let out = to_ℕ c.out_dir in
    let l = complete_cross c (lanes out).out_cars (lanes out) in
    elim (ℕ_discrete out m) [
      | yes same ↦
          subst
            (λ k.
              weigh f (update lanes out l k).out_cars
              ≡ weigh f (lanes k).out_cars + (if out == k then f c else 0))
            same (ap (λ x. weigh f x.out_cars) (update_self lanes out l) ∙ ground arith)
      | no ne ↦ rw (eq-false out m ne) (omega arith)
    ]

pub pass-out :
    (f : Car → ℕ) (n m : ℕ) (c : Car) (lanes : ℕ → Lane)
    → weigh f (pass n c (lanes (to_ℕ c.out_dir)).out_cars lanes m).out_cars
      ≡ weigh f (lanes m).out_cars + bound_for m f c
unfolding pass
pass-out f n m c lanes =
    let out = to_ℕ c.out_dir in
    let crossed = update lanes out (complete_cross c (lanes out).out_cars (lanes out)) in
    ap (weigh f) (
      update-same (λ x. x.out_cars) crossed n
        (record (crossed n) { passed = (crossed n).passed + 1 }) m refl)
    ∙ crossed-out f m c lanes

pub pass-passed :
    (n m : ℕ) (c : Car) (seen : List Car) (lanes : ℕ → Lane)
    → (pass n c seen lanes m).passed ≡ update (λ k. (lanes k).passed) n ((lanes n).passed + 1) m
unfolding pass complete_cross
pass-passed n m c seen lanes =
    let out = to_ℕ c.out_dir in
    let crossed = update lanes out (complete_cross c seen (lanes out)) in
    let kept : (k : ℕ) → (crossed k).passed ≡ (lanes k).passed =
      λ k. update-same (λ x. x.passed) lanes out (complete_cross c seen (lanes out)) k refl in
    elim (ℕ_discrete n m) [
      | yes same ↦
          subst
            (λ k.
              (pass n c seen lanes k).passed
              ≡ update (λ k. (lanes k).passed) n ((lanes n).passed + 1) k)
            same
            (ap (λ x. x.passed)
                (update_self crossed n (record (crossed n) { passed = (crossed n).passed + 1 }))
              ∙ ap (λ k. k + 1) (kept n)
              ∙ sym (update_self (λ k. (lanes k).passed) n ((lanes n).passed + 1)))
      | no ne ↦ rw (eq-false n m ne) (kept m)
    ]
