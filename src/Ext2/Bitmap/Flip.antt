-- ===== src/Ext2/Bitmap/Flip.antt =====
-- One bit flipped in a bitmap on the image, as `set_used_bit` and `set_n_toggle_bit` do it.
use csc_369_operating_system.Common.{
  ℕ, zero, suc, ◌+◌, ◌-◌, ◌/◌, ◌%◌, ◌^◌, ◌<◌, false, not, if◌then◌else◌, ◌==◌, update, update_ne,
  update_self, ◌≡◌, refl, sym, ap, ◌∙◌, arith, lt→ltb, eq-false, ℕ_discrete,
}
use csc_369_operating_system.Ext2.Outcome.{done}
use csc_369_operating_system.Ext2.Bits.{test, flip, test-flip}
use csc_369_operating_system.Ext2.Image.{State, Which, the_bmap, load8, store8, disk_size, minus}
use csc_369_operating_system.Ext2.Bitmap.{toggle_bit}
use csc_369_operating_system.Ext2.Bitmap.Find.{bit_at}

-- A byte has eight bits.
test-byte : (i b : ℕ) → i < 8 → test i (b % 256) ≡ test i b
unfolding test
test-byte zero b lt = ap (λ v. v == 1) (omega arith)
test-byte (suc zero) b lt = ap (λ v. v == 1) (omega arith)
test-byte (suc (suc zero)) b lt = ap (λ v. v == 1) (omega arith)
test-byte (suc (suc (suc zero))) b lt = ap (λ v. v == 1) (omega arith)
test-byte (suc (suc (suc (suc zero)))) b lt = ap (λ v. v == 1) (omega arith)
test-byte (suc (suc (suc (suc (suc zero))))) b lt = ap (λ v. v == 1) (omega arith)
test-byte (suc (suc (suc (suc (suc (suc zero)))))) b lt = ap (λ v. v == 1) (omega arith)
test-byte (suc (suc (suc (suc (suc (suc (suc zero))))))) b lt = ap (λ v. v == 1) (omega arith)
test-byte (suc (suc (suc (suc (suc (suc (suc (suc i)))))))) b lt = absurd (omega (arith, lt))

-- The image with the bit for the number `t + 1` flipped.
abbrev pub flipped : (ℕ → ℕ) → ℕ → ℕ → ℕ → ℕ
flipped disk sys_bm t = update disk (sys_bm + t / 8) (flip (t % 8) (disk (sys_bm + t / 8)) % 256)

pub bit_at-flipped :
    (disk : ℕ → ℕ) (sys_bm t k : ℕ)
    → bit_at (flipped disk sys_bm t) sys_bm k
      ≡ (if t == k then not (bit_at disk sys_bm k) else bit_at disk sys_bm k)
bit_at-flipped disk sys_bm t k = elim (ℕ_discrete (t / 8) (k / 8)) [
  | yes same ↦
      let bits : (t % 8 == k % 8) ≡ (t == k) = ground arith in
      let byte = disk (sys_bm + t / 8) in
      let here : flipped disk sys_bm t (sys_bm + k / 8) ≡ flip (t % 8) byte % 256 =
        ap (λ a. flipped disk sys_bm t (sys_bm + a)) (sym same)
        ∙ update_self disk (sys_bm + t / 8) (flip (t % 8) byte % 256) in
      let small : k % 8 < 8 = omega arith in
      ap (test (k % 8)) here
      ∙ test-byte (k % 8) (flip (t % 8) byte) small
      ∙ test-flip (t % 8) (k % 8) byte
      ∙ rw (bits, same) refl
  | no apart ↦
      let e : (t == k) ≡ false = eq-false t k (λ h. apart (ap (λ n. n / 8) h)) in
      rw
        (
          e,
          update_ne disk (sys_bm + t / 8) (sys_bm + k / 8)
              (flip (t % 8) (disk (sys_bm + t / 8)) % 256) (omega arith),
        )
        refl
]

-- One round of the loop of `set_n_toggle_bit`.
pub toggle_bit-flipped :
    (which : Which) (num : ℕ) (s : State)
    → 0 < num
    → num < 2 ^ 32
    → (the_bmap which s).sys_bm + (num - 1) / 8 < disk_size
    → toggle_bit which num s
      ≡ done (tt, record s { disk = flipped s.disk (the_bmap which s).sys_bm (num - 1) })
unfolding toggle_bit load8 store8
toggle_bit-flipped which num s positive small inside =
    let less : minus num 1 ≡ num - 1 = omega arith in
    let near = lt→ltb ((the_bmap which s).sys_bm + (num - 1) / 8) disk_size inside in
    rw (less, near, near) refl
