-- ===== src/Memory/Cache/Full.antt =====
-- The order of frames of A3/lru.c is as long as the memory when no frame is free.
use csc_369_operating_system.Common.{
  ℕ, zero, suc, ◌<◌, ◌≤◌, Bool, true, false, List, [], ◌∷◌, none, length, ◌≡◌, refl, arith, inl,
  inr, dec_lt,
}
use csc_369_operating_system.Memory.Policy.Queue.{Absent, IsDistinct}
use csc_369_operating_system.Memory.Policy.Usage.{Covers}
use csc_369_operating_system.Memory.Content.Place.{distinct-short}

-- The numbers below `n`.
unfoldable below_list : ℕ → List ℕ
below_list zero = []
below_list (suc n) = n ∷ below_list n

below_list-Absent : (n x : ℕ) → n ≤ x → Absent x (below_list n)
unfolding below_list Absent
below_list-Absent zero x le = tt
below_list-Absent (suc n) x le =
    ((λ same. omega (arith, le, same)), below_list-Absent n x (omega (arith, le)))

below_list-IsDistinct : (n : ℕ) → IsDistinct (below_list n)
unfolding below_list IsDistinct
below_list-IsDistinct zero = tt
below_list-IsDistinct (suc n) = (below_list-Absent n n (omega arith), below_list-IsDistinct n)

below_list-length : (n : ℕ) → length (below_list n) ≡ n
unfolding below_list
below_list-length zero = refl
below_list-length (suc n) = omega (arith, below_list-length n)

below_list-lt : (n x : ℕ) → Absent x (below_list n) → n ≤ x
unfolding below_list Absent
below_list-lt zero x absent = omega arith
below_list-lt (suc n) x absent = let le = below_list-lt n x absent.1 in omega (arith, le, absent.0)

inside :
    (n : ℕ) (order : List ℕ) (in_use : ℕ → Bool)
    → Covers n order in_use none
    → (x : ℕ) → Absent x (below_list n)
    → Absent x order
inside n order in_use c x absent = elim (c.below x) [
  | inl free ↦ free
  | inr (lt, has) ↦ absurd (omega (arith, lt, below_list-lt n x absent))
]

pub Covers-full :
    (n : ℕ) (order : List ℕ) (in_use : ℕ → Bool)
    → Covers n order in_use none
    → IsDistinct order
    → ((f : ℕ) → f < n → in_use f ≡ true)
    → length order ≡ n
Covers-full n order in_use c distinct full =
    let most = distinct-short order (below_list n) distinct (inside n order in_use c) in
    let least = distinct-short (below_list n) order (below_list-IsDistinct n) (λ x absent.
      elim (dec_lt x n) [
        | yes lt ↦ absurd (c.all x lt (full x lt) (λ e. ground (arith, e)) absent)
        | no ge ↦ below_list-Absent n x (omega (arith, ge))
      ]) in
    omega (arith, most, least, below_list-length n)

pub Covers-short :
    (n f : ℕ) (order : List ℕ) (in_use : ℕ → Bool)
    → Covers n order in_use none
    → IsDistinct order
    → f < n
    → in_use f ≡ false
    → length order < n
unfolding Absent IsDistinct
Covers-short n f order in_use c distinct lt free =
    let free' : Absent f order = elim (c.below f) [
      | inl absent ↦ absent
      | inr (small, has) ↦ absurd (ground (arith, free, has))
    ] in
    let short =
      distinct-short (f ∷ order) (below_list n) (free', distinct)
        (λ x absent. (
          (λ same. omega (arith, lt, same, below_list-lt n x absent)),
          inside n order in_use c x absent,
        )) in
    omega (arith, short, below_list-length n)
