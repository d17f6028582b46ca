-- ===== src/Ext2/Outcome.antt =====
-- How a function of A4 ends: it returns, ends the process, does what C leaves undefined, or does
-- not end. A failed assertion counts as undefined, since no state is left of it either.
use csc_369_operating_system.Common.{◌≡◌, refl, arith}

-- The arguments of `exit`.
pub data Exit : Type 0 where
  enoent enospc einval eexist eisdir enomem failure : Exit

pub data Outcome (A : Type 0) : Type 0 where
  done : A → Outcome A
  exits : Exit → Outcome A
  fault : Outcome A
  hangs : Outcome A

-- A computation over the state `S`.
abbrev pub Prog : Type 0 → Type 0 → Type 0
Prog S A = S → Outcome (A × S)

module _ {S A B : Type 0} where
  abbrev pub and_then : Outcome (A × S) → (A → Prog S B) → Outcome (B × S)
  and_then (done (a, s)) f = f a s
  and_then (exits e) f = exits e
  and_then fault f = fault
  and_then hangs f = hangs

  infixl 5 ◌>>=◌ ◌>>◌
  abbrev pub ◌>>=◌ : Prog S A → (A → Prog S B) → Prog S B
  m >>= f = λ s. and_then (m s) f

  abbrev pub ◌>>◌ : Prog S A → Prog S B → Prog S B
  m >> k = m >>= λ _. k

abbrev pub pure : {S A : Type 0} → A → Prog S A
pure a s = done (a, s)

abbrev pub gets : {S A : Type 0} → (S → A) → Prog S A
gets f s = done (f s, s)

abbrev pub modify : {S : Type 0} → (S → S) → Prog S (Unit {0})
modify f s = done (tt, f s)

abbrev pub exit : {S A : Type 0} → Exit → Prog S A
exit e s = exits e

abbrev pub undefined : {S A : Type 0} → Prog S A
undefined s = fault

abbrev pub runs_forever : {S A : Type 0} → Prog S A
runs_forever s = hangs

-- What a sequence of two computations returns, the first one has led to.
pub and_then-done :
    {S A B : Type 0} (o : Outcome (A × S)) (f : A → Prog S B) (r : B × S)
    → and_then o f ≡ done r
    → (a : A) × (s : S) × (o ≡ done (a, s)) × (f a s ≡ done r)
and_then-done (done (a, s)) f r e = (a, s, refl, e)
and_then-done (exits x) f r e = ground (arith, e)
and_then-done fault f r e = ground (arith, e)
and_then-done hangs f r e = ground (arith, e)
