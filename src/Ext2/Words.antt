-- ===== src/Ext2/Words.antt =====
-- What stores of two and four bytes leave on the image of A4.
use csc_369_operating_system.Common.{
  ℕ, ◌+◌, ◌/◌, ◌%◌, ◌^◌, ◌<◌, ◌≤◌, update, ◌≡◌, refl, arith, ◌⊎◌, inl, lt→ltb,
}
use csc_369_operating_system.Ext2.Outcome.{done}
use csc_369_operating_system.Ext2.Image.{State, store8, store16, store32, u16, u32, disk_size}

-- The bytes outside of some from an offset on are the same.
unfoldable pub Kept : (ℕ → ℕ) → (ℕ → ℕ) → ℕ → ℕ → Type 0
Kept old new a size = (b : ℕ) → (b < a) ⊎ (a + size ≤ b) → new b ≡ old b

-- The image behind `store16` and `store32`.
abbrev pub put16 : (ℕ → ℕ) → ℕ → ℕ → ℕ → ℕ
put16 disk a v = update (update disk a (v % 256)) (a + 1) (v / 256 % 256)

abbrev pub put32 : (ℕ → ℕ) → ℕ → ℕ → ℕ → ℕ
put32 disk a v = put16 (put16 disk a v) (a + 2) (v / 65536)

pub store16-put16 :
    (a v : ℕ) (s : State)
    → a + 1 < disk_size
    → store16 a v s ≡ done (tt, record s { disk = put16 s.disk a v })
unfolding store16 store8
store16-put16 a v s inside =
    let near = lt→ltb a disk_size (omega (arith, inside)) in
    rw (near, lt→ltb (a + 1) disk_size inside) refl

pub store32-put32 :
    (a v : ℕ) (s : State)
    → a + 3 < disk_size
    → store32 a v s ≡ done (tt, record s { disk = put32 s.disk a v })
unfolding store32
store32-put32 a v s inside =
    let low = store16-put16 a v s (omega (arith, inside)) in
    let high =
      store16-put16 (a + 2) (v / 65536) (record s { disk = put16 s.disk a v })
        (omega (arith, inside)) in
    rw (low, high) refl

pub put16-Kept : (disk : ℕ → ℕ) (a v : ℕ) → Kept disk (put16 disk a v) a 2
unfolding Kept
put16-Kept disk a v b away = ground (arith, away)

pub put32-Kept : (disk : ℕ → ℕ) (a v : ℕ) → Kept disk (put32 disk a v) a 4
unfolding Kept
put32-Kept disk a v b away = ground (arith, away)

pub u16-put16 : (disk : ℕ → ℕ) (a v : ℕ) → u16 (put16 disk a v) a ≡ v % 65536
u16-put16 disk a v =
    let d1 = update disk a (v % 256) in
    let low : put16 disk a v a ≡ v % 256 = ground arith in
    let high : put16 disk a v (a + 1) ≡ v / 256 % 256 = ground arith in rw (low, high) (omega arith)

pub u16-Kept :
    (old new : ℕ → ℕ) (a size b : ℕ)
    → Kept old new a size
    → (b + 1 < a) ⊎ (a + size ≤ b)
    → u16 new b ≡ u16 old b
unfolding Kept
u16-Kept old new a size b kept away =
    let low = kept b (ground (arith, away)) in
    let high = kept (b + 1) (ground (arith, away)) in rw (low, high) refl

pub u32-Kept :
    (old new : ℕ → ℕ) (a size b : ℕ)
    → Kept old new a size
    → (b + 3 < a) ⊎ (a + size ≤ b)
    → u32 new b ≡ u32 old b
u32-Kept old new a size b kept away =
    let low = u16-Kept old new a size b kept (ground (arith, away)) in
    let high = u16-Kept old new a size (b + 2) kept (ground (arith, away)) in rw (low, high) refl

pub u32-put32 : (disk : ℕ → ℕ) (a v : ℕ) → v < 2 ^ 32 → u32 (put32 disk a v) a ≡ v
u32-put32 disk a v small =
    let d1 = put16 disk a v in
    let high = u16-put16 d1 (a + 2) (v / 65536) in
    let low =
      u16-Kept d1 (put32 disk a v) (a + 2) 2 a (put16-Kept d1 (a + 2) (v / 65536))
        (inl (omega arith)) in
    rw (low, high, u16-put16 disk a v) (omega (arith, small))
