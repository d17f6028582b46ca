-- ===== src/Memory/Policy/Recency.antt =====
-- What precedes a frame in the order of A3/lru.c, and the order without a frame.
use csc_369_operating_system.Common.{
  ℕ, false, List, [], ◌∷◌, ◌++◌, Option, none, some, if◌then◌else◌, ◌==◌, update, ◌≡◌, refl, ap,
  arith, ◌⊎◌, inl, inr, Bool-cases,
}
use csc_369_operating_system.Memory.Policy.Queue.{next, first, last, Absent, IsDistinct}

-- What precedes `x` in the list.
unfoldable pub prev : List ℕ → ℕ → Option ℕ
prev [] x = none
prev (a ∷ []) x = none
prev (a ∷ b ∷ r) x = let later = prev (b ∷ r) x in if x == b then some a else later

-- The list without `f`.
unfoldable pub remove : ℕ → List ℕ → List ℕ
remove f [] = []
remove f (a ∷ r) = let rest = remove f r in if f == a then rest else a ∷ rest

pub remove-Absent : (f : ℕ) (q : List ℕ) → Absent f q → remove f q ≡ q
unfolding remove Absent
remove-Absent f [] absent = refl
remove-Absent f (a ∷ r) absent = ground (arith, absent.0, remove-Absent f r absent.1)

pub Absent-remove_other : (x f : ℕ) (q : List ℕ) → Absent x q → Absent x (remove f q)
unfolding remove Absent
Absent-remove_other x f [] absent = tt
Absent-remove_other x f (a ∷ r) absent = elim (Bool-cases (f == a)) [
  | inl e ↦ rw e (Absent-remove_other x f r absent.1)
  | inr e ↦ rw e (absent.0, Absent-remove_other x f r absent.1)
]

pub Absent-remove : (f : ℕ) (q : List ℕ) → Absent f (remove f q)
unfolding remove Absent
Absent-remove f [] = tt
Absent-remove f (a ∷ r) = elim (Bool-cases (f == a)) [
  | inl e ↦ rw e (Absent-remove f r)
  | inr e ↦ rw e ((λ same. ground (arith, e, same)), Absent-remove f r)
]

pub remove-IsDistinct : (f : ℕ) (q : List ℕ) → IsDistinct q → IsDistinct (remove f q)
unfolding remove IsDistinct
remove-IsDistinct f [] distinct = tt
remove-IsDistinct f (a ∷ r) distinct = elim (Bool-cases (f == a)) [
  | inl e ↦ rw e (remove-IsDistinct f r distinct.1)
  | inr e ↦ rw e (Absent-remove_other a f r distinct.0, remove-IsDistinct f r distinct.1)
]

-- To put an element at the end makes the old last one precede it.
pub prev-append :
    (q : List ℕ) (f y x : ℕ)
    → Absent f q
    → last q ≡ some y
    → prev (q ++ (f ∷ [])) x ≡ update (prev q) f (some y) x
unfolding prev last Absent
prev-append [] f y x absent end = ground arith
prev-append (a ∷ []) f y x absent end = ground arith
prev-append (a ∷ b ∷ r) f y x absent end =
    ground (arith, prev-append (b ∷ r) f y x absent.1 end, absent.1.0)

pub prev-Absent : (q : List ℕ) (x : ℕ) → Absent x q → prev q x ≡ none
unfolding prev Absent
prev-Absent [] x absent = refl
prev-Absent (a ∷ []) x absent = refl
prev-Absent (a ∷ b ∷ r) x absent = ground (arith, prev-Absent (b ∷ r) x absent.1, absent.1.0)

-- Nothing precedes the first element.
pub prev-first : (a : ℕ) (r : List ℕ) → IsDistinct (a ∷ r) → prev (a ∷ r) a ≡ none
unfolding prev IsDistinct Absent
prev-first a [] distinct = refl
prev-first a (b ∷ r) distinct = ground (arith, distinct.0.0, prev-Absent (b ∷ r) a distinct.0)

-- To take the first element off leaves nothing before the second.
pub prev-tail :
    (a b : ℕ) (r : List ℕ) (x : ℕ)
    → IsDistinct (a ∷ b ∷ r)
    → prev (b ∷ r) x ≡ update (prev (a ∷ b ∷ r)) b none x
unfolding prev IsDistinct
prev-tail a b r x distinct = ground (arith, prev-first b r distinct.1)

-- An element with nothing before and behind it is absent, or the only one.
pub isolated : (q : List ℕ) (f : ℕ) → next q f ≡ none → prev q f ≡ none → Absent f q ⊎ (q ≡ f ∷ [])
unfolding next prev Absent
isolated [] f after before = inl tt
isolated (a ∷ []) f after before = elim (Bool-cases (f == a)) [
  | inl e ↦ inr (ap (λ n. n ∷ []) (ground (arith, e)))
  | inr e ↦ inl ((λ same. ground (arith, e, same)), tt)
]
isolated (a ∷ b ∷ r) f after before = elim (Bool-cases (f == a)) [
  | inl e ↦ absurd (ground (arith, e, after))
  | inr e ↦ elim (Bool-cases (f == b)) [
    | inl e' ↦ absurd (ground (arith, e', before))
    | inr e' ↦ elim (isolated (b ∷ r) f (ground (arith, e, after)) (ground (arith, e', before))) [
      | inl absent ↦ inl ((λ same. ground (arith, e, same)), absent)
      | inr alone ↦ absurd (ground (arith, e', alone))
    ]
  ]
]

-- An element with something before it and nothing behind it is the last one.
pub last-only : (q : List ℕ) (f p : ℕ) → next q f ≡ none → prev q f ≡ some p → last q ≡ some f
unfolding next prev last
last-only [] f p after before = ground arith
last-only (a ∷ []) f p after before = ground arith
last-only (a ∷ b ∷ []) f p after before = ground (arith, before)
last-only (a ∷ b ∷ c ∷ r) f p after before =
    let later = last-only (b ∷ c ∷ r) f p in
    let here : (f == a) ≡ false = ground (arith, after) in
    let there : (f == b) ≡ false = ground (arith, after, here) in
    later (ground (arith, after, here)) (ground (arith, before, there))

-- An element with something behind it and nothing before it is the first one.
pub first-only : (q : List ℕ) (f n : ℕ) → next q f ≡ some n → prev q f ≡ none → first q ≡ some f
unfolding next prev first
first-only [] f n after before = ground arith
first-only (a ∷ []) f n after before = ground arith
first-only (a ∷ b ∷ r) f n after before =
    let there : (f == b) ≡ false = ground (arith, before) in
    ground (arith, after, there, first-only (b ∷ r) f n, before)
