-- ===== src/Memory/Policy/Queue.antt =====
-- The orders that the links of A3/fifo.c and A3/lru.c stand for: lists of frames, oldest first.
use csc_369_operating_system.Common.{
  ℕ, List, [], ◌∷◌, ◌++◌, Option, none, some, if◌then◌else◌, ◌==◌, update, ◌≡◌, ◌≢◌, refl, sym,
  arith,
}

-- What follows `x` in the list, where it first occurs.
unfoldable pub next : List ℕ → ℕ → Option ℕ
next [] x = none
next (a ∷ []) x = none
next (a ∷ b ∷ r) x = let later = next (b ∷ r) x in if x == a then some b else later

unfoldable pub first : List ℕ → Option ℕ
first [] = none
first (a ∷ r) = some a

unfoldable pub last : List ℕ → Option ℕ
last [] = none
last (a ∷ []) = some a
last (a ∷ b ∷ r) = last (b ∷ r)

-- `x` is not in the list.
unfoldable pub Absent : ℕ → List ℕ → Type 0
Absent x [] = Unit
Absent x (a ∷ r) = (x ≢ a) × Absent x r

-- No element occurs twice.
unfoldable pub IsDistinct : List ℕ → Type 0
IsDistinct [] = Unit
IsDistinct (a ∷ r) = Absent a r × IsDistinct r

pub last-append : (q : List ℕ) (f : ℕ) → last (q ++ (f ∷ [])) ≡ some f
unfolding last
last-append [] f = refl
last-append (a ∷ []) f = refl
last-append (a ∷ b ∷ r) f = last-append (b ∷ r) f

-- To put an element at the end of a list that has one keeps the first.
pub first-append : (q : List ℕ) (f y : ℕ) → last q ≡ some y → first (q ++ (f ∷ [])) ≡ first q
unfolding first last
first-append [] f y end = ground arith
first-append (a ∷ r) f y end = refl

-- An element that is absent from a list is not its last one.
pub last-ne : (a : ℕ) (q : List ℕ) (y : ℕ) → Absent a q → last q ≡ some y → y ≢ a
unfolding last Absent
last-ne a [] y absent end = ground arith
last-ne a (b ∷ []) y absent end = ground arith
last-ne a (b ∷ c ∷ r) y absent end = last-ne a (c ∷ r) y absent.1 end

pub Absent-append : (x : ℕ) (q : List ℕ) (f : ℕ) → Absent x q → x ≢ f → Absent x (q ++ (f ∷ []))
unfolding Absent
Absent-append x [] f absent ne = (ne, tt)
Absent-append x (a ∷ r) f absent ne = (absent.0, Absent-append x r f absent.1 ne)

pub append-IsDistinct :
    (q : List ℕ) (f : ℕ) → IsDistinct q → Absent f q → IsDistinct (q ++ (f ∷ []))
unfolding IsDistinct Absent
append-IsDistinct [] f distinct absent = (tt, tt)
append-IsDistinct (a ∷ r) f distinct absent = (
  Absent-append a r f distinct.0 (λ e. absent.0 (sym e)),
  append-IsDistinct r f distinct.1 absent.1,
)

-- To put an element at the end changes what follows the old last one.
pub next-append :
    (q : List ℕ) (f y x : ℕ)
    → IsDistinct q
    → last q ≡ some y
    → next (q ++ (f ∷ [])) x ≡ update (next q) y (some f) x
unfolding next last IsDistinct
next-append [] f y x distinct end = ground arith
next-append (a ∷ []) f y x distinct end = ground arith
next-append (a ∷ b ∷ r) f y x distinct end =
    ground (arith, next-append (b ∷ r) f y x distinct.1 end, last-ne a (b ∷ r) y distinct.0 end)

-- Nothing follows an element that the list lacks.
pub next-Absent : (q : List ℕ) (x : ℕ) → Absent x q → next q x ≡ none
unfolding next Absent
next-Absent [] x absent = refl
next-Absent (a ∷ []) x absent = refl
next-Absent (a ∷ b ∷ r) x absent = ground (arith, next-Absent (b ∷ r) x absent.1, absent.0)

-- Nothing follows the last element.
pub next-last : (q : List ℕ) (y : ℕ) → IsDistinct q → last q ≡ some y → next q y ≡ none
unfolding next last IsDistinct
next-last [] y distinct end = refl
next-last (a ∷ []) y distinct end = refl
next-last (a ∷ b ∷ r) y distinct end =
    ground (arith, next-last (b ∷ r) y distinct.1 end, last-ne a (b ∷ r) y distinct.0 end)

-- To take the first element off changes what follows that element.
pub next-tail :
    (a : ℕ) (r : List ℕ) (x : ℕ) → IsDistinct (a ∷ r) → next r x ≡ update (next (a ∷ r)) a none x
unfolding next IsDistinct
next-tail a [] x distinct = ground arith
next-tail a (b ∷ r) x distinct = ground (arith, next-Absent (b ∷ r) a distinct.0)

pub next-first : (a : ℕ) (r : List ℕ) → next (a ∷ r) a ≡ first r
unfolding next first
next-first a [] = refl
next-first a (b ∷ r) = ground arith

pub last-some : (a : ℕ) (r : List ℕ) → (y : ℕ) × (last (a ∷ r) ≡ some y)
unfolding last
last-some a [] = (a, refl)
last-some a (b ∷ r) = last-some b r

-- Between the first and the last element of a list with two or more elements there is a step.
pub first-ne_last : (a b : ℕ) (r : List ℕ) → IsDistinct (a ∷ b ∷ r) → last (a ∷ b ∷ r) ≢ some a
unfolding last IsDistinct
first-ne_last a b r distinct e = last-ne a (b ∷ r) a distinct.0 e refl

-- No element follows itself.
pub next-irreflexive : (q : List ℕ) (x : ℕ) → IsDistinct q → next q x ≢ some x
unfolding next IsDistinct Absent
next-irreflexive [] x distinct e = ground arith
next-irreflexive (a ∷ []) x distinct e = ground arith
next-irreflexive (a ∷ b ∷ r) x distinct e =
    ground (arith, e, distinct.0.0, next-irreflexive (b ∷ r) x distinct.1)
