-- ===== src/Common/Runs.antt =====
-- Stateful code that may fault: `none` is a fault, from which no state is left.
use mathlib.Core.Option.{Option, none, some}
use mathlib.Core.Logic.{◌⊎◌, inl, inr}
use mathlib.Core.Path.{◌≡◌, refl}
use mathlib.Core.Bool.{Bool, true, false}

-- A computation over the state `S`.
abbrev pub Run : Type 0 → Type 0 → Type 0
Run S A = S → Option (A × S)

abbrev pub pure : {S A : Type 0} → A → Run S A
pure a s = some (a, s)

abbrev pub fault : {S A : Type 0} → Run S A
fault s = none

infixl 5 ◌>>=◌ ◌>>◌
abbrev pub ◌>>=◌ : {S A B : Type 0} → Run S A → (A → Run S B) → Run S B
◌>>=◌ m f s = elim (m s) [ none ↦ none | some (a, s') ↦ f a s' ]

abbrev pub ◌>>◌ : {S B : Type 0} → Run S (Unit {0}) → Run S B → Run S B
m >> k = m >>= λ _. k

abbrev pub gets : {S A : Type 0} → (S → A) → Run S A
gets f s = some (f s, s)

abbrev pub modify : {S : Type 0} → (S → S) → Run S (Unit {0})
modify f s = some (tt, f s)

-- `assert(b)`.
abbrev pub check : {S : Type 0} → Bool → Run S (Unit {0})
check true s = some (tt, s)
check false s = none

pub Option-cases {ℓ} : {A : Type ℓ} (o : Option A) → (o ≡ none) ⊎ ((a : A) × (o ≡ some a))
Option-cases none = inl refl
Option-cases (some a) = inr (a, refl)
