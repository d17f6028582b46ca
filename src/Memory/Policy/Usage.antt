-- ===== src/Memory/Policy/Usage.antt =====
-- The order of use of A3/lru.c against the frames in use, between the calls of the algorithm.
use csc_369_operating_system.Common.{
  ℕ, ◌<◌, ◌≤◌, Bool, true, false, List, [], ◌∷◌, ◌++◌, Option, none, some, ◌==◌, ◌≡◌, ◌≢◌, arith,
  ◌⊎◌, inl, inr, Bool-cases, subst,
}
use csc_369_operating_system.Memory.Policy.Queue.{first, last, Absent, IsDistinct, Absent-append}
use csc_369_operating_system.Memory.Policy.Recency.{remove, Absent-remove_other}
use csc_369_operating_system.Memory.Policy.Lru.{Lru, reference}
use csc_369_operating_system.Memory.Policy.Order.{Represents, refreshed}

Absent-prefix : (x : ℕ) (q : List ℕ) (f : ℕ) → Absent x (q ++ (f ∷ [])) → Absent x q × (x ≢ f)
unfolding Absent
Absent-prefix x [] f absent = (tt, absent.0)
Absent-prefix x (a ∷ q) f absent =
    let (rest, ne) = Absent-prefix x q f absent.1 in ((absent.0, rest), ne)

pub Absent-restore : (x f : ℕ) (q : List ℕ) → Absent x (remove f q) → x ≢ f → Absent x q
unfolding remove Absent
Absent-restore x f [] absent ne = tt
Absent-restore x f (a ∷ q) absent ne = elim (Bool-cases (f == a)) [
  | inl e ↦ (λ same. ne (ground (arith, e, same)), Absent-restore x f q (rw e at absent) ne)
  | inr e ↦
      let absent' : (x ≢ a) × Absent x (remove f q) = rw e at absent in
      (absent'.0, Absent-restore x f q absent'.1 ne)
]

-- The order has the frames in use and no others, but for the given one, if there is one.
pub record Covers (n : ℕ) (q : List ℕ) (in_use : ℕ → Bool) (but : Option ℕ) : Type 0 where
  pub below : (x : ℕ) → Absent x q ⊎ ((x < n) × (in_use x ≡ true))
  pub all : (x : ℕ) → x < n → in_use x ≡ true → but ≢ some x → ¬ Absent x q

-- All frames in use are in the order.
pub record Ordered (n : ℕ) (s : Lru) (in_use : ℕ → Bool) : Type 0 where
  pub several : 2 ≤ n
  pub order : List ℕ
  pub represents : Represents s order
  pub covers : Covers n order in_use none
  pub top : (s.top_node ≡ none) ⊎ ((f : ℕ) → order ≢ f ∷ [])

-- All but one are, which has been given to a page.
pub record Awaiting (n f : ℕ) (s : Lru) (in_use : ℕ → Bool) : Type 0 where
  pub several : 2 ≤ n
  pub order : List ℕ
  pub represents : Represents s order
  pub covers : Covers n order in_use (some f)
  pub lt : f < n
  pub taken : in_use f ≡ true
  pub absent : Absent f order

pub Covers-weaken :
    (n f : ℕ) (q : List ℕ) (in_use : ℕ → Bool) → Covers n q in_use none → Covers n q in_use (some f)
Covers-weaken n f q in_use c = record {
  below = c.below;
  all = λ x lt taken ne. c.all x lt taken (λ e. ground (arith, e));
}

pub refreshed-Covers :
    (n f : ℕ) (q : List ℕ) (in_use : ℕ → Bool)
    → Covers n q in_use (some f)
    → f < n
    → in_use f ≡ true
    → Covers n (refreshed f q) in_use none
refreshed-Covers n f q in_use c lt taken = record {
  below = λ x. elim (Bool-cases (f == x)) [
    | inl e ↦
        let same : f ≡ x = ground (arith, e) in
        inr (subst (λ y. (y < n) × (in_use y ≡ true)) same (lt, taken))
    | inr e ↦ elim (c.below x) [
      | inl absent ↦ inl (
          Absent-append x (remove f q) f (Absent-remove_other x f q absent)
            (λ same. ground (arith, e, same)))
      | inr has ↦ inr has
    ]
  ];
  all = λ x small has ne absent.
      let (rest, apart) = Absent-prefix x (remove f q) f absent in
      c.all x small has (λ e. apart (ground (arith, e))) (Absent-restore x f q rest apart);
}

append-several : (a f g : ℕ) (w : List ℕ) → (a ∷ (w ++ (f ∷ []))) ≢ g ∷ []
append-several a f g [] e = ground (arith, e)
append-several a f g (b ∷ w) e = ground (arith, e)

refreshed-several : (a f g : ℕ) (q : List ℕ) → (f == a) ≡ false → refreshed f (a ∷ q) ≢ g ∷ []
unfolding remove
refreshed-several a f g q ne e = append-several a f g (remove f q) (rw ne at e)

-- `top_node` is only NULL, or the order longer than one.
pub reference-top :
    (s s' : Lru) (q : List ℕ) (f : ℕ)
    → Represents s q
    → (s.top_node ≡ none) ⊎ (q ≢ f ∷ [])
    → reference f s ≡ some s'
    → (s'.top_node ≡ none) ⊎ ((g : ℕ) → refreshed f q ≢ g ∷ [])
unfolding reference first last remove IsDistinct Absent
reference-top s s' [] f rep apart e = inl (ground (arith, e, rep.bottom, rep.top))
reference-top s s' (a ∷ []) f rep apart e = elim (Bool-cases (f == a)) [
  | inr ne ↦ inr (λ g. refreshed-several a f g [] ne)
  | inl same ↦ elim apart [
    | inl top ↦ inl (ground (arith, e, rep.bottom, top, same))
    | inr other ↦ absurd (other (ground (arith, same)))
  ]
]
reference-top s s' (a ∷ b ∷ r) f rep apart e = elim (Bool-cases (f == a)) [
  | inr ne ↦ inr (λ g. refreshed-several a f g (b ∷ r) ne)
  | inl same ↦
      let ne : (f == b) ≡ false = ground (arith, same, rep.distinct.0.0) in
      inr (λ g eq. refreshed-several b f g r ne (rw same at eq))
]
