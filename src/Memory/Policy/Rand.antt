-- ===== src/Memory/Policy/Rand.antt =====
-- A3/rand.c. The algorithm's state is the numbers that `random` is going to give, in their order.
use csc_369_operating_system.Common.{ℕ, ◌+◌, ◌%◌, Option, some, refl, arith}
use csc_369_operating_system.Memory.Machine.{Machine, Functions}
use csc_369_operating_system.Memory.PageTable.Promise.{IsPolicy}

module _ {F : Type 0} where
  unfoldable pub rand_evict : Machine F (ℕ → ℕ) → Option (ℕ × Machine F (ℕ → ℕ))
  rand_evict m = some (m.alg 0 % m.memsize, record m { alg = λ i. m.alg (i + 1) })

  unfoldable pub rand_ref : ℕ → Machine F (ℕ → ℕ) → Option (Machine F (ℕ → ℕ))
  rand_ref p m = some m

  abbrev pub rand : Functions F (ℕ → ℕ)
  rand = record { ref = rand_ref; evict = rand_evict }

-- `rand_evict` and `rand_ref` keep the promises of a replacement algorithm.
pub rand-IsPolicy :
    {F : Type 0} → IsPolicy {F = F} rand (λ n numbers in_use. Unit) (λ n f numbers in_use. Unit)
unfolding rand_evict rand_ref
rand-IsPolicy = record {
  evicts = λ m c ready some_frame full. (
    m.alg 0 % m.memsize,
    m.ptes,
    (λ i. m.alg (i + 1)),
    refl,
    omega (arith, some_frame),
    (λ p. refl),
    tt,
  );
  fills = λ n f numbers in_use ready lt free. tt;
  refers = λ p m c valid ready. (m.alg, refl, tt);
}
