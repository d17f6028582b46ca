-- ===== src/Traffic/Turn.antt =====
-- Turns and paths: `compute_turn`, `build_path_array` and `compute_path` of A2/cars.c.
use csc_369_operating_system.Common.{
  ℕ, zero, suc, ◌+◌, ◌%◌, ◌<◌, ◌≤◌, ℤ, pos, is_negative, exceeds, to_ℕ, Bool, true, false, ◌||◌,
  List, [], ◌∷◌, length, ◌≡◌, refl, if◌then◌else◌, ◌==◌, arith, Bool-cases, inl, inr, Option, some,
  none, subst, ◌∙◌,
}

-- `enum turn`; the enumerator's value is also the number of quadrants that the turn needs.
pub data Turn : Type 0 where
  right_turn no_turn left_turn u_turn : Turn

abbrev pub quads_required : Turn → ℕ
quads_required right_turn = 1
quads_required no_turn = 2
quads_required left_turn = 3
quads_required u_turn = 4

-- `compute_turn`: `none` is `exit(1)`. Directions are read from a file, so any `int` may come in.
unfoldable pub compute_turn : ℤ → ℤ → Option Turn
compute_turn in_dir out_dir =
    if is_negative in_dir || exceeds in_dir 3 || is_negative out_dir || exceeds out_dir 3
    then none
    else if to_ℕ in_dir == to_ℕ out_dir
    then some u_turn
    else if (to_ℕ in_dir + 1) % 4 == to_ℕ out_dir
    then some right_turn
    else if to_ℕ in_dir == (to_ℕ out_dir + 1) % 4
    then some left_turn
    else some no_turn

-- The four cases of the inner switches, for NORTH, WEST, SOUTH and EAST; `none` is `exit(1)`.
abbrev pub by_direction : ℤ → List ℕ → List ℕ → List ℕ → List ℕ → Option (List ℕ)
by_direction (pos zero) north west south east = some north
by_direction (pos (suc zero)) north west south east = some west
by_direction (pos (suc (suc zero))) north west south east = some south
by_direction (pos (suc (suc (suc zero)))) north west south east = some east
by_direction in_dir north west south east = none

unfoldable pub build_path_array : ℤ → Turn → Option (List ℕ)
build_path_array in_dir u_turn = some (1 ∷ 2 ∷ 3 ∷ 4 ∷ [])
build_path_array in_dir right_turn = by_direction in_dir (2 ∷ []) (3 ∷ []) (4 ∷ []) (1 ∷ [])
build_path_array in_dir left_turn =
    by_direction in_dir (2 ∷ 3 ∷ 4 ∷ []) (1 ∷ 3 ∷ 4 ∷ []) (1 ∷ 2 ∷ 4 ∷ []) (1 ∷ 2 ∷ 3 ∷ [])
build_path_array in_dir no_turn =
    by_direction in_dir (2 ∷ 3 ∷ []) (3 ∷ 4 ∷ []) (1 ∷ 4 ∷ []) (1 ∷ 2 ∷ [])

unfoldable pub compute_path : ℤ → ℤ → Option (List ℕ)
compute_path in_dir out_dir = elim (compute_turn in_dir out_dir) [
  | none ↦ none
  | some turn ↦ build_path_array in_dir turn
]

-- Membership of a quadrant in a path.
unfoldable pub passes : ℕ → List ℕ → Bool
passes q [] = false
passes q (p ∷ ps) = if p == q then true else passes q ps

-- A strictly rising list of quadrants, each above the bound and at most 4.
abbrev pub Rising : ℕ → List ℕ → Type 0
Rising low [] = Unit {0}
Rising low (q ∷ qs) = (low < q) × (q ≤ 4) × Rising q qs

-- The quadrant by which a car comes in, and those that it sweeps: it goes round the centre against
-- the clock, from quadrant 2 to 3, 4 and 1.
abbrev pub entry_quad : ℕ → ℕ
entry_quad in_dir = (in_dir + 1) % 4 + 1

abbrev pub sweep : ℕ → ℕ → List ℕ
sweep q zero = []
sweep q (suc n) = q ∷ sweep (q % 4 + 1) n

-- `compute_turn` exits exactly for the directions that are not among the four.
compute_turn-none :
    (i o : ℤ)
    → compute_turn i o ≡ none
    → (is_negative i || exceeds i 3 || is_negative o || exceeds o 3) ≡ true
unfolding compute_turn
compute_turn-none i o h = ground arith

-- A car that comes from direction `i` and leaves by `o` makes as many quarters of a turn round the
-- centre as the directions are apart, counted from NORTH over WEST, SOUTH and EAST: one for a
-- right turn, two straight on, three for a left turn, four where they are the same. Directions
-- other than the four are refused.
pub compute_turn-quarters :
    (i o : ℕ) (t : Turn)
    → compute_turn (pos i) (pos o) ≡ some t
    → (i < 4) × (o < 4) × ((i + quads_required t) % 4 ≡ o)
unfolding compute_turn
compute_turn-quarters i o t h = ground arith

-- The path of `build_path_array` for a direction and a turn, and what it has to be.
pub record IsPath (i : ℕ) (t : Turn) (path : List ℕ) : Type 0 where
  pub rising : Rising 0 path
  pub long : length path ≡ quads_required t
  pub swept : (q : ℕ) → passes q path ≡ passes q (sweep (entry_quad i) (quads_required t))

build_path_array-IsPath :
    (i : ℕ) (t : Turn)
    → i < 4
    → (path : List ℕ) × (build_path_array (pos i) t ≡ some path) × IsPath i t path
unfolding build_path_array passes
build_path_array-IsPath zero right_turn h =
    (_, refl, record { rising = omega arith; long = refl; swept = λ q. ground arith })
build_path_array-IsPath zero _ h =
    (_, refl, record { rising = omega arith; long = refl; swept = λ q. ground arith })
build_path_array-IsPath (suc zero) right_turn h =
    (_, refl, record { rising = omega arith; long = refl; swept = λ q. ground arith })
build_path_array-IsPath (suc zero) _ h =
    (_, refl, record { rising = omega arith; long = refl; swept = λ q. ground arith })
build_path_array-IsPath (suc (suc zero)) right_turn h =
    (_, refl, record { rising = omega arith; long = refl; swept = λ q. ground arith })
build_path_array-IsPath (suc (suc zero)) _ h =
    (_, refl, record { rising = omega arith; long = refl; swept = λ q. ground arith })
build_path_array-IsPath (suc (suc (suc zero))) right_turn h =
    (_, refl, record { rising = omega arith; long = refl; swept = λ q. ground arith })
build_path_array-IsPath (suc (suc (suc zero))) _ h =
    (_, refl, record { rising = omega arith; long = refl; swept = λ q. ground arith })
build_path_array-IsPath (suc (suc (suc (suc i)))) t h = absurd (omega arith)

compute_turn-some : (i o : ℕ) → i < 4 → o < 4 → (t : Turn) × (compute_turn (pos i) (pos o) ≡ some t)
unfolding compute_turn
compute_turn-some i o hi ho = elim (Bool-cases (i == o)) [
  | inl same ↦ (u_turn, ground arith)
  | inr different ↦ elim (Bool-cases ((i + 1) % 4 == o)) [
    | inl right ↦ (right_turn, ground arith)
    | inr not_right ↦ elim (Bool-cases (i == (o + 1) % 4)) [
      | inl left ↦ (left_turn, ground arith)
      | inr not_left ↦ (no_turn, ground arith)
    ]
  ]
]

-- For any two of the four directions `compute_turn` and `compute_path` succeed. The path is in
-- strictly rising order of quadrants 1 to 4, so in the order of their priority; it has as many of
-- them as the turn says, which is how many `car_cross` locks; and it holds exactly the quadrants
-- that the car sweeps from its entry, a quarter after the other.
pub compute_path-IsPath :
    (i o : ℕ)
    → i < 4
    → o < 4
    → (t : Turn) × (path : List ℕ) × (compute_turn (pos i) (pos o) ≡ some t)
      × (compute_path (pos i) (pos o) ≡ some path)
      × IsPath i t path
unfolding compute_path
compute_path-IsPath i o hi ho =
    let (t, turns) = compute_turn-some i o hi ho in
    let (path, built, ok) = build_path_array-IsPath i t hi in
    (t, path, turns, rw (turns, compute_path) built, ok)

sweep-exit :
    (i : ℕ) (t : Turn)
    → passes ((i + quads_required t) % 4 + 1) (sweep (entry_quad i) (quads_required t)) ≡ true
unfolding passes
sweep-exit i right_turn = ground arith
sweep-exit i _ = ground arith

-- Every car that leaves by a direction passes the quadrant of that direction's exit. So the lists
-- `out_cars`, which `car_cross` writes while it holds the quadrants of the path, are never
-- written by two cars at a time.
pub compute_path-exit :
    (i o : ℕ) (path : List ℕ)
    → i < 4
    → o < 4
    → compute_path (pos i) (pos o) ≡ some path
    → passes (o + 1) path ≡ true
compute_path-exit i o path hi ho h =
    let (t, found, turns, built, ok) = compute_path-IsPath i o hi ho in
    let same : found ≡ path = cc in
    subst (λ p. passes (o + 1) p ≡ true) same
      (ok.swept (o + 1)
        ∙ subst (λ d. passes (d + 1) (sweep (entry_quad i) (quads_required t)) ≡ true)
            (compute_turn-quarters i o t turns).2 (sweep-exit i t))
