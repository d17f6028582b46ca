-- ===== src/Memory/Policy/Clock.antt =====
-- A3/clock.c. The state of the algorithm is `clock_hand`.
use csc_369_operating_system.Common.{
  ℕ, zero, suc, ◌+◌, ◌<◌, ◌≤◌, true, false, Option, none, some, if◌then◌else◌, ltb, update, ◌≡◌,
  ◌≢◌, refl, arith, Option-cases, Bool-cases, inl, inr, ◌∙◌, dec_lt,
}
use csc_369_operating_system.Memory.Machine.{Machine, Functions}

module _ {F : Type 0} where
  -- The hand where the round looks, back at 0 when it is past the last frame.
  abbrev pub at_hand : Machine F ℕ → ℕ
  at_hand m = if ltb m.alg m.memsize then m.alg else 0

  -- A round that finds the reference bit set: it is cleared, and the hand goes on.
  abbrev pub second_chance : ℕ → Machine F ℕ → Machine F ℕ
  second_chance p m = record m {
    ptes = update m.ptes p (record (m.ptes p) { ref = false });
    alg = at_hand m + 1;
  }

  -- The loop of `clock_evict`. A frame without a page is a null pointer, and gives `none`, as the
  -- end of the fuel does.
  unfoldable pub clock_loop : ℕ → Machine F ℕ → Option (ℕ × Machine F ℕ)
  clock_loop zero m = none
  clock_loop (suc fuel) m = elim (m.coremap (at_hand m)).pte [
    | none ↦ none
    | some p ↦
        let again = clock_loop fuel (second_chance p m) in
        if (m.ptes p).ref then again else some ((m.ptes p).number, record m { alg = at_hand m + 1 })
  ]

  -- As many rounds as there are frames, and one more, are enough.
  unfoldable pub clock_evict : Machine F ℕ → Option (ℕ × Machine F ℕ)
  clock_evict m = clock_loop (m.memsize + 1) m

  unfoldable pub clock_ref : ℕ → Machine F ℕ → Option (Machine F ℕ)
  clock_ref p m = some m

  abbrev pub clock : Functions F ℕ
  clock = record { ref = clock_ref; evict = clock_evict }

  -- `clock_init`.
  unfoldable pub clock_init : Machine F ℕ → Machine F ℕ
  clock_init m = record m { alg = 0 }

-- The sum of a function over the numbers below a bound.
total : ℕ → (ℕ → ℕ) → ℕ
total zero f = 0
total (suc n) f = total n f + f n

total-le : (n : ℕ) (f g : ℕ → ℕ) → ((i : ℕ) → f i ≤ g i) → total n f ≤ total n g
unfolding total
total-le zero f g h = omega arith
total-le (suc n) f g h = omega (arith, total-le n f g h, h n)

total-lt :
    (n j : ℕ) (f g : ℕ → ℕ) → ((i : ℕ) → f i ≤ g i) → j < n → f j < g j → total n f < total n g
unfolding total
total-lt zero j f g h lt less = absurd (omega arith)
total-lt (suc n) j f g h lt less = elim (dec_lt j n) [
  | yes below ↦ omega (arith, total-lt n j f g h below less, h n)
  | no last ↦ let e : j ≡ n = omega arith in omega (arith, total-le n f g h, rw e at less)
]

total-bound : (n : ℕ) (f : ℕ → ℕ) → ((i : ℕ) → f i ≤ 1) → total n f ≤ n
unfolding total
total-bound zero f h = omega arith
total-bound (suc n) f h = omega (arith, total-bound n f h, h n)

module _ {F : Type 0} where
  -- 1 where the page in a frame has its reference bit set.
  abbrev referenced : Machine F ℕ → ℕ → ℕ
  referenced m i = elim (m.coremap i).pte [ none ↦ 0 | some p ↦ if (m.ptes p).ref then 1 else 0 ]

  referenced-le : (m : Machine F ℕ) (i : ℕ) → referenced m i ≤ 1
  referenced-le m i = ground arith

  -- What `clock_evict` may do to the machine, with the frame and the page that it has chosen.
  pub record Chosen (m : Machine F ℕ) (victim : ℕ) (after : Machine F ℕ) : Type 0 where
    pub frame : ℕ
    pub page : ℕ
    pub in_range : frame < m.memsize
    pub holds : (m.coremap frame).pte ≡ some page
    pub number : victim ≡ (m.ptes page).number
    pub unreferenced : (after.ptes page).ref ≡ false
    pub hand : after.alg ≡ frame + 1
    pub cleared : (p : ℕ) → after.ptes p ≡ record (m.ptes p) { ref = (after.ptes p).ref }
    pub not_set : (p : ℕ) → (m.ptes p).ref ≡ false → (after.ptes p).ref ≡ false
    pub rest : after ≡ record m { ptes = after.ptes; alg = after.alg }

  -- A frame whose page loses its reference bit counts no more, and no other frame counts anew.
  second_chance-le : (m : Machine F ℕ) (p i : ℕ) → referenced (second_chance p m) i ≤ referenced m i
  second_chance-le m p i = ground arith

  second_chance-lt :
      (m : Machine F ℕ) (p : ℕ)
      → (m.coremap (at_hand m)).pte ≡ some p
      → (m.ptes p).ref ≡ true
      → referenced (second_chance p m) (at_hand m) < referenced m (at_hand m)
  second_chance-lt m p holds bit = ground (arith, holds, bit)

  clock_loop-stop :
      (m : Machine F ℕ) (p : ℕ)
      → 0 < m.memsize
      → (m.coremap (at_hand m)).pte ≡ some p
      → (m.ptes p).ref ≡ false
      → Chosen m (m.ptes p).number (record m { alg = at_hand m + 1 })
  clock_loop-stop m p some_frame holds bit = record {
    frame = at_hand m;
    page = p;
    in_range = ground arith;
    holds = holds;
    number = refl;
    unreferenced = bit;
    hand = refl;
    cleared = λ q. refl;
    not_set = λ q clear. clear;
    rest = refl;
  }

  clock_loop-again :
      (m : Machine F ℕ) (p victim : ℕ) (after : Machine F ℕ)
      → Chosen (second_chance p m) victim after
      → Chosen m victim after
  clock_loop-again m p victim after c = record {
    frame = c.frame;
    page = c.page;
    in_range = c.in_range;
    holds = c.holds;
    number = ground (arith, c.number);
    unreferenced = c.unreferenced;
    hand = c.hand;
    cleared = λ q. (c.cleared q ∙ ground arith);
    not_set = λ q clear. c.not_set q (ground (arith, clear));
    rest = c.rest;
  }

  clock_loop-Chosen :
      (fuel : ℕ) (m : Machine F ℕ)
      → 0 < m.memsize
      → ((i : ℕ) → i < m.memsize → (m.coremap i).pte ≢ none)
      → total m.memsize (referenced m) < fuel
      → (victim : ℕ) × (after : Machine F ℕ) × (clock_loop fuel m ≡ some (victim, after))
        × Chosen m victim after
  unfolding clock_loop
  clock_loop-Chosen zero m some_frame full enough = absurd (omega arith)
  clock_loop-Chosen (suc fuel) m some_frame full enough =
      elim (Option-cases (m.coremap (at_hand m)).pte) [
        | inl gone ↦ absurd (full (at_hand m) (ground arith) gone)
        | inr (p, holds) ↦ elim (Bool-cases (m.ptes p).ref) [
          | inl bit ↦
              let (victim, after, result, c) =
                clock_loop-Chosen fuel (second_chance p m) some_frame full (
                  omega (
                    arith,
                    total-lt m.memsize (at_hand m) (referenced (second_chance p m)) (referenced m)
                        (second_chance-le m p) (ground arith) (second_chance-lt m p holds bit),
                    enough,
                  )) in
              (victim, after, ground arith, clock_loop-again m p victim after c)
          | inr bit ↦ (
            (m.ptes p).number,
            record m { alg = at_hand m + 1 },
            ground arith,
            clock_loop-stop m p some_frame holds bit,
          )
        ]
      ]

  -- With at least one frame, and a page in every frame, `clock_evict` finds a victim: it returns the
  -- frame number of the page in some frame, whose reference bit is then clear, and leaves the hand
  -- behind that frame. It changes nothing but the hand and reference bits, and sets none of them.
  pub clock_evict-Chosen :
      (m : Machine F ℕ)
      → 0 < m.memsize
      → ((i : ℕ) → i < m.memsize → (m.coremap i).pte ≢ none)
      → (victim : ℕ) × (after : Machine F ℕ) × (clock_evict m ≡ some (victim, after))
        × Chosen m victim after
  unfolding clock_evict
  clock_evict-Chosen m some_frame full =
      clock_loop-Chosen (m.memsize + 1) m some_frame full
        (omega (arith, total-bound m.memsize (referenced m) (referenced-le m)))
