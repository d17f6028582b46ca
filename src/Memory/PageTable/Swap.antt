-- ===== src/Memory/PageTable/Swap.antt =====
-- `swap_pagein` and `swap_pageout` of A3/swap.c. `none` as a machine is a failed assertion.
use csc_369_operating_system.Common.{ℕ, ◌*◌, Bool, Option, none, some, if◌then◌else◌, update}
use csc_369_operating_system.Memory.Bitmap.Bits.{bitmap_alloc}
use csc_369_operating_system.Memory.Machine.{Device, Machine}

abbrev pub simpagesize : ℕ
simpagesize = 16

module _ {F P : Type 0} (d : Device F) where
  -- `swap_pagein`: whether it returns 0, and the machine.
  unfoldable pub swap_pagein : ℕ → ℕ → Machine F P → Bool × Machine F P
  swap_pagein frame swap_offset m =
      let (page, ok) = d.read m.swapfile swap_offset (m.physmem frame) in
      (ok, record m { physmem = update m.physmem frame page })

  -- The second half of `swap_pageout`: the offset, if seeking and writing go well.
  unfoldable pub write_out : ℕ → ℕ → Machine F P → Option ℕ × Machine F P
  write_out frame swap_offset m =
      let (file, ok) = d.write m.swapfile swap_offset (m.physmem frame) in
      (if ok then some swap_offset else none, record m { swapfile = file })

  unfoldable pub swap_pageout : ℕ → Option ℕ → Machine F P → Option (Option ℕ × Machine F P)
  swap_pageout frame (some swap_offset) m = some (write_out frame swap_offset m)
  swap_pageout frame none m = elim (bitmap_alloc m.swapmap) [
    | none ↦ none
    | some (none, b) ↦ some (none, record m { swapmap = b })
    | some (some idx, b) ↦ some (write_out frame (idx * simpagesize) (record m { swapmap = b }))
  ]
