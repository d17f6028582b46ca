-- ===== src/Memory/Policy/Removal.antt =====
-- What comes before and behind what when a frame is removed from an order.
use csc_369_operating_system.Common.{
  ℕ, true, false, List, [], ◌∷◌, ◌++◌, none, some, ◌==◌, update, ◌≡◌, ◌≢◌, refl, sym, ap, ◌∙◌,
  arith, inl, inr, Bool-cases,
}
use csc_369_operating_system.Memory.Policy.Queue.{
  next, first, last, Absent, IsDistinct, last-ne, next-Absent,
}
use csc_369_operating_system.Memory.Policy.Recency.{
  prev, remove, remove-Absent, prev-Absent, prev-first,
}

-- An element that is absent from a list precedes nothing in it and follows nothing.
pub prev-ne : (a : ℕ) (q : List ℕ) (f p : ℕ) → Absent a q → prev q f ≡ some p → p ≢ a
unfolding prev Absent
prev-ne a [] f p absent before = ground arith
prev-ne a (b ∷ []) f p absent before = ground arith
prev-ne a (b ∷ c ∷ r) f p absent before =
    ground (arith, absent.0, before, prev-ne a (c ∷ r) f p absent.1)

pub next-ne : (a : ℕ) (q : List ℕ) (f n : ℕ) → Absent a q → next q f ≡ some n → n ≢ a
unfolding next Absent
next-ne a [] f n absent after = ground arith
next-ne a (b ∷ []) f n absent after = ground arith
next-ne a (b ∷ c ∷ r) f n absent after =
    ground (arith, absent.1.0, after, next-ne a (c ∷ r) f n absent.1)

remove-skip : (f a : ℕ) (r : List ℕ) → (f == a) ≡ false → remove f (a ∷ r) ≡ a ∷ remove f r
unfolding remove
remove-skip f a r e = rw e refl

-- To remove the second of the elements, where it occurs once.
remove-second : (a b : ℕ) (r : List ℕ) → IsDistinct (a ∷ b ∷ r) → remove b (a ∷ b ∷ r) ≡ a ∷ r
unfolding remove IsDistinct Absent
remove-second a b r distinct =
    let apart : (b == a) ≡ false = ground (arith, distinct.0.0) in
    let same : (b == b) ≡ true = ground arith in
    rw (apart, same, remove-Absent b r distinct.1.0) refl

next-skip : (b : ℕ) (r : List ℕ) (f : ℕ) → (f == b) ≡ false → next (b ∷ r) f ≡ next r f
unfolding next
next-skip b [] f e = refl
next-skip b (c ∷ r) f e = rw e refl

-- An element that is neither of the first two has a step before it in the rest.
behind :
    (a b : ℕ) (r : List ℕ) (f p n : ℕ)
    → IsDistinct (a ∷ b ∷ r)
    → prev (a ∷ b ∷ r) f ≡ some p
    → next (a ∷ b ∷ r) f ≡ some n
    → (f == b) ≡ false
    → ((f == a) ≡ false) × (prev (b ∷ r) f ≡ some p) × (next (b ∷ r) f ≡ some n) × (p ≢ a) × (n ≢ b)
unfolding prev next IsDistinct Absent
behind a b r f p n distinct before after e =
    let before' : prev (b ∷ r) f ≡ some p = ground (arith, before, e) in
    let apart : (f == a) ≡ false = ground (arith, before', prev-Absent (b ∷ r) f, distinct.0) in
    let after' : next (b ∷ r) f ≡ some n = ground (arith, after, apart) in
    (
      apart,
      before',
      after',
      prev-ne a (b ∷ r) f p distinct.0 before',
      next-ne b r f n distinct.1.0 (sym (next-skip b r f e) ∙ after'),
    )

-- To remove an element from between two others makes these neighbours.
pub next-remove :
    (q : List ℕ) (f p n x : ℕ)
    → IsDistinct q
    → prev q f ≡ some p
    → next q f ≡ some n
    → next (remove f q) x ≡ update (update (next q) p (some n)) f none x
unfolding next prev IsDistinct Absent
next-remove [] f p n x distinct before after = ground arith
next-remove (a ∷ []) f p n x distinct before after = ground arith
next-remove (a ∷ b ∷ []) f p n x distinct before after = ground (arith, before, after)
next-remove (a ∷ b ∷ c ∷ r) f p n x distinct before after = elim (Bool-cases (f == b)) [
  | inl e ↦
      let same : f ≡ b = ground (arith, e) in
      rw (same, remove-second a b (c ∷ r) distinct)
        (ground (
          arith,
          same,
          before,
          after,
          distinct.0.0,
          distinct.1.0.0,
          next-Absent (c ∷ r) b distinct.1.0,
        ))
  | inr e ↦
      let (apart, before', after', p_ne, n_ne) = behind a b (c ∷ r) f p n distinct before after e in
      let inner = next-remove (b ∷ c ∷ r) f p n x distinct.1 before' after' in
      let inner' : next (b ∷ remove f (c ∷ r)) x
          ≡ update (update (next (b ∷ c ∷ r)) p (some n)) f none x =
        rw (sym (remove-skip f b (c ∷ r) e)) inner in
      rw (remove-skip f a (b ∷ c ∷ r) apart, remove-skip f b (c ∷ r) e)
        (ground (arith, inner', apart, p_ne))
]

pub prev-remove :
    (q : List ℕ) (f p n x : ℕ)
    → IsDistinct q
    → prev q f ≡ some p
    → next q f ≡ some n
    → prev (remove f q) x ≡ update (update (prev q) n (some p)) f none x
unfolding next prev IsDistinct Absent
prev-remove [] f p n x distinct before after = ground arith
prev-remove (a ∷ []) f p n x distinct before after = ground arith
prev-remove (a ∷ b ∷ []) f p n x distinct before after = ground (arith, before, after)
prev-remove (a ∷ b ∷ c ∷ r) f p n x distinct before after = elim (Bool-cases (f == b)) [
  | inl e ↦
      let same : f ≡ b = ground (arith, e) in
      rw (same, remove-second a b (c ∷ r) distinct)
        (ground (
          arith,
          same,
          before,
          after,
          distinct.0.0,
          distinct.1.0.0,
          prev-Absent (c ∷ r) b distinct.1.0,
        ))
  | inr e ↦
      let (apart, before', after', p_ne, n_ne) = behind a b (c ∷ r) f p n distinct before after e in
      let inner = prev-remove (b ∷ c ∷ r) f p n x distinct.1 before' after' in
      let inner' : prev (b ∷ remove f (c ∷ r)) x
          ≡ update (update (prev (b ∷ c ∷ r)) n (some p)) f none x =
        rw (sym (remove-skip f b (c ∷ r) e)) inner in
      rw (remove-skip f a (b ∷ c ∷ r) apart, remove-skip f b (c ∷ r) e)
        (ground (arith, inner', e, n_ne))
]

-- To remove an inner element keeps the first and the last one.
pub first-remove :
    (q : List ℕ) (f p n : ℕ)
    → IsDistinct q
    → prev q f ≡ some p
    → next q f ≡ some n
    → first (remove f q) ≡ first q
unfolding prev first
first-remove [] f p n distinct before after = ground arith
first-remove (a ∷ []) f p n distinct before after = ground arith
first-remove (a ∷ b ∷ r) f p n distinct before after =
    let apart : (f == a) ≡ false = ground (arith, before, prev-first a (b ∷ r) distinct) in
    rw (remove-skip f a (b ∷ r) apart) refl

pub last-remove :
    (q : List ℕ) (f p n : ℕ)
    → IsDistinct q
    → prev q f ≡ some p
    → next q f ≡ some n
    → last (remove f q) ≡ last q
unfolding prev last next IsDistinct Absent
last-remove [] f p n distinct before after = ground arith
last-remove (a ∷ []) f p n distinct before after = ground arith
last-remove (a ∷ b ∷ []) f p n distinct before after =
    absurd (ground (arith, before, after, distinct.0.0))
last-remove (a ∷ b ∷ c ∷ r) f p n distinct before after = elim (Bool-cases (f == b)) [
  | inl e ↦
      let same : f ≡ b = ground (arith, e) in rw (same, remove-second a b (c ∷ r) distinct) refl
  | inr e ↦
      let (apart, before', after', p_ne, n_ne) = behind a b (c ∷ r) f p n distinct before after e in
      let inner = last-remove (b ∷ c ∷ r) f p n distinct.1 before' after' in
      let inner' : last (b ∷ remove f (c ∷ r)) ≡ last (b ∷ c ∷ r) =
        rw (sym (remove-skip f b (c ∷ r) e)) inner in
      rw (remove-skip f a (b ∷ c ∷ r) apart, remove-skip f b (c ∷ r) e) inner'
]

remove-single : (f a : ℕ) → f ≡ a → remove f (a ∷ []) ++ (f ∷ []) ≡ a ∷ []
unfolding remove
remove-single f a same =
    let e : (f == a) ≡ true = ground (arith, same) in rw e (ap (λ n. n ∷ []) same)

-- To move the last element to the end changes nothing.
pub remove-last : (q : List ℕ) (f : ℕ) → IsDistinct q → last q ≡ some f → remove f q ++ (f ∷ []) ≡ q
unfolding last IsDistinct
remove-last [] f distinct end = ground arith
remove-last (a ∷ []) f distinct end = remove-single f a (ground (arith, end))
remove-last (a ∷ b ∷ r) f distinct end =
    let apart : (f == a) ≡ false = ground (arith, last-ne a (b ∷ r) f distinct.0 end) in
    rw (remove-skip f a (b ∷ r) apart) (ap (λ t. a ∷ t) (remove-last (b ∷ r) f distinct.1 end))

pub remove-first : (a : ℕ) (r : List ℕ) → IsDistinct (a ∷ r) → remove a (a ∷ r) ≡ r
unfolding remove IsDistinct
remove-first a r distinct =
    let same : (a == a) ≡ true = ground arith in rw (same, remove-Absent a r distinct.0) refl
