-- ===== src/Memory/Policy/Lru.antt =====
-- A3/lru.c. A pointer to a frame of the coremap is the frame's index, and NULL is `none`.
use csc_369_operating_system.Common.{ℕ, Option, none, some, update, if◌then◌else◌, ◌==◌}
use csc_369_operating_system.Memory.Machine.{Machine, Functions}

-- `top_node`, `bottom_node` and the links `frame_above` and `frame_below`.
pub record Lru : Type 0 where
  pub top_node : Option ℕ
  pub bottom_node : Option ℕ
  pub frame_above : ℕ → Option ℕ
  pub frame_below : ℕ → Option ℕ

-- The links of `lru_evict`: the frame of the victim. Without a frame, or without one above it, a
-- null pointer is followed.
unfoldable pub unlink_bottom : Lru → Option (ℕ × Lru)
unlink_bottom s = elim s.bottom_node [
  | none ↦ none
  | some f ↦ elim (s.frame_above f) [
    | none ↦ none
    | some parent ↦ some (
      f,
      record s {
        bottom_node = some parent;
        frame_above = update s.frame_above f none;
        frame_below = update (update s.frame_below parent none) f none;
      },
    )
  ]
]

-- `latest_fref` becomes the frame above `top_node`.
abbrev pub put_on_top : ℕ → ℕ → Lru → Lru
put_on_top f top s = record s {
  top_node = some f;
  frame_above = update s.frame_above top (some f);
  frame_below = update s.frame_below f (some top);
}

-- The main block of `lru_ref`, by the two links of the frame. A failed assertion is a fault.
unfoldable pub move_to_top : ℕ → ℕ → Lru → Option Lru
move_to_top f top s = elim (s.frame_above f) [
  | none ↦ elim (s.frame_below f) [
    | none ↦ some (put_on_top f top s)
    | some below ↦ if f == top then some s else none
  ]
  | some above ↦ elim (s.frame_below f) [
    | none ↦ elim s.bottom_node [
      | none ↦ none
      | some bottom ↦
          let s1 = record s {
            bottom_node = some above;
            frame_below = update s.frame_below above none;
          } in
          let s2 = put_on_top f top s1 in
          if f == bottom
          then some (record s2 { frame_above = update s2.frame_above f none })
          else none
    ]
    | some below ↦
        let s1 = record s {
          frame_above = update s.frame_above below (some above);
          frame_below = update s.frame_below above (some below);
        } in
        let s2 = put_on_top f top s1 in
        some (record s2 { frame_above = update s2.frame_above f none })
  ]
]

-- The links of `lru_ref`.
unfoldable pub reference : ℕ → Lru → Option Lru
reference f s = elim s.bottom_node [
  | none ↦ some (record s {
    bottom_node = some f;
    frame_above = update s.frame_above f none;
    frame_below = update s.frame_below f none;
  })
  | some bottom ↦ elim s.top_node [
    | none ↦
        if f == bottom
        then some s
        else some (record s {
          top_node = some f;
          frame_above = update s.frame_above bottom (some f);
          frame_below = update s.frame_below f (some bottom);
        })
    | some top ↦ move_to_top f top s
  ]
]

module _ {F : Type 0} where
  unfoldable pub lru_evict : Machine F Lru → Option (ℕ × Machine F Lru)
  lru_evict m = elim (unlink_bottom m.alg) [
    | none ↦ none
    | some (f, s) ↦ elim (m.coremap f).pte [
      | none ↦ none
      | some p ↦ some ((m.ptes p).number, record m { alg = s })
    ]
  ]

  unfoldable pub lru_ref : ℕ → Machine F Lru → Option (Machine F Lru)
  lru_ref p m = elim (reference (m.ptes p).number m.alg) [
    | none ↦ none
    | some s ↦ some (record m { alg = s })
  ]

  abbrev pub lru : Functions F Lru
  lru = record { ref = lru_ref; evict = lru_evict }
