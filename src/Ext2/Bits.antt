-- ===== src/Ext2/Bits.antt =====
-- The bits of a byte: `b & (1 << i)` as a test, and `b ^ (1 << i)`.
use csc_369_operating_system.Common.{
  ℕ, zero, suc, ◌+◌, ◌-◌, ◌*◌, ◌/◌, ◌%◌, Bool, false, not, if◌then◌else◌, ◌==◌, ◌≡◌, refl, arith,
  ◌∙◌,
}

unfoldable pub test : ℕ → ℕ → Bool
test zero b = b % 2 == 1
test (suc i) b = test i (b / 2)

unfoldable pub flip : ℕ → ℕ → ℕ
flip zero b = if b % 2 == 1 then b - 1 else b + 1
flip (suc i) b = 2 * flip i (b / 2) + b % 2

flip-half : (b : ℕ) → flip 0 b / 2 ≡ b / 2
unfolding flip
flip-half b = ground arith

zero-ne : (j : ℕ) → (0 == suc j) ≡ false
zero-ne j = ground arith

-- To flip a bit flips it and no other.
pub test-flip : (i j b : ℕ) → test j (flip i b) ≡ (if i == j then not (test j b) else test j b)
unfolding test flip
test-flip zero zero b = ground arith
test-flip zero (suc j) b = rw (flip-half b, zero-ne j) refl
test-flip (suc i) zero b =
    let low : (2 * flip i (b / 2) + b % 2) % 2 ≡ b % 2 = omega arith in ground (arith, low)
test-flip (suc i) (suc j) b =
    let high : (2 * flip i (b / 2) + b % 2) / 2 ≡ flip i (b / 2) = omega arith in
    rw high (test-flip i j (b / 2) ∙ ground arith)
