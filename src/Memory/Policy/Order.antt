-- ===== src/Memory/Policy/Order.antt =====
-- The links of A3/lru.c stand for the order in which the frames were last used, oldest first.
use csc_369_operating_system.Common.{
  ℕ, true, List, [], ◌∷◌, ◌++◌, none, some, ◌==◌, update, ◌≡◌, ◌≢◌, refl, sym, ◌∙◌, arith, ◌⊎◌, inl,
  inr, subst, Option-cases,
}
use csc_369_operating_system.Memory.Policy.Queue.{
  next, first, last, Absent, IsDistinct, last-append, first-append, last-ne, append-IsDistinct,
  next-append, next-Absent, next-tail, next-first, first-ne_last,
}
use csc_369_operating_system.Memory.Policy.Recency.{
  prev, remove, remove-Absent, Absent-remove, remove-IsDistinct, prev-append, prev-Absent,
  prev-first, prev-tail, isolated, last-only, first-only,
}
use csc_369_operating_system.Memory.Policy.Lru.{Lru, put_on_top, move_to_top}
use csc_369_operating_system.Memory.Policy.Removal.{
  first-remove, last-remove, remove-last, remove-first, next-remove, prev-remove,
}

-- The links stand for an order. With one frame `top_node` may still be NULL.
pub record Represents (s : Lru) (q : List ℕ) : Type 0 where
  pub distinct : IsDistinct q
  pub above : (x : ℕ) → s.frame_above x ≡ next q x
  pub below : (x : ℕ) → s.frame_below x ≡ prev q x
  pub bottom : s.bottom_node ≡ first q
  pub top : (s.top_node ≡ last q) ⊎ ((s.top_node ≡ none) × (last q ≡ first q))

-- A frame without links.
abbrev pub cleared : ℕ → Lru → Lru
cleared f s = record s {
  frame_above = update s.frame_above f none;
  frame_below = update s.frame_below f none;
}

pub put_on_top-Represents :
    (s : Lru) (q : List ℕ) (f y : ℕ)
    → Represents s q
    → Absent f q
    → last q ≡ some y
    → Represents (put_on_top f y s) (q ++ (f ∷ []))
put_on_top-Represents s q f y rep absent end = record {
  distinct = append-IsDistinct q f rep.distinct absent;
  above = λ x. ground (arith, rep.above x, next-append q f y x rep.distinct end);
  below = λ x. ground (arith, rep.below x, prev-append q f y x absent end);
  bottom = rep.bottom ∙ sym (first-append q f y end);
  top = inl (sym (last-append q f));
}

-- The frame put on top loses the link above it.
abbrev capped : ℕ → ℕ → Lru → Lru
capped f y s = record (put_on_top f y s) {
  frame_above = update (put_on_top f y s).frame_above f none;
}

-- The code clears a link of the frame after it has put it on top.
late_reset :
    (s : Lru) (q : List ℕ) (f y : ℕ)
    → Represents (put_on_top f y (cleared f s)) q
    → y ≢ f
    → Represents (capped f y s) q
late_reset s q f y rep ne = record {
  distinct = rep.distinct;
  above = λ x. ground (arith, rep.above x, ne);
  below = λ x. ground (arith, rep.below x);
  bottom = rep.bottom;
  top = rep.top;
}

-- The back of an order that is not all one frame.
pub top-last :
    (s : Lru) (a b : ℕ) (r : List ℕ) → Represents s (a ∷ b ∷ r) → s.top_node ≡ last (a ∷ b ∷ r)
unfolding first
top-last s a b r rep = elim rep.top [
  | inl e ↦ e
  | inr (e, single) ↦ absurd (first-ne_last a b r rep.distinct single)
]

pub unlink_first-Represents :
    (s : Lru) (a b : ℕ) (r : List ℕ)
    → Represents s (a ∷ b ∷ r)
    → Represents
        (cleared a (record s { bottom_node = some b; frame_below = update s.frame_below b none }))
        (b ∷ r)
unfolding first last IsDistinct Absent
unlink_first-Represents s a b r rep = record {
  distinct = rep.distinct.1;
  above = λ x. ground (arith, rep.above x, next-tail a (b ∷ r) x rep.distinct);
  below = λ x.
      ground
        (arith, rep.below x, prev-tail a b r x rep.distinct, prev-Absent (b ∷ r) a rep.distinct.0);
  bottom = refl;
  top = inl (top-last s a b r rep);
}

unlink_inner-Represents :
    (s : Lru) (q : List ℕ) (f p n : ℕ)
    → Represents s q
    → prev q f ≡ some p
    → next q f ≡ some n
    → Represents
        (cleared f (record s {
          frame_above = update s.frame_above p (some n);
          frame_below = update s.frame_below n (some p);
        }))
        (remove f q)
unlink_inner-Represents s q f p n rep before after = record {
  distinct = remove-IsDistinct f q rep.distinct;
  above = λ x. ground (arith, rep.above x, next-remove q f p n x rep.distinct before after);
  below = λ x. ground (arith, rep.below x, prev-remove q f p n x rep.distinct before after);
  bottom = rep.bottom ∙ sym (first-remove q f p n rep.distinct before after);
  top =
      rw
        (
          first-remove q f p n rep.distinct before after,
          last-remove q f p n rep.distinct before after,
        )
        rep.top;
}

-- The order after a reference.
abbrev pub refreshed : ℕ → List ℕ → List ℕ
refreshed f q = remove f q ++ (f ∷ [])

-- The main block of `lru_ref`, for a frame without links.
move-new :
    (s : Lru) (q : List ℕ) (f y : ℕ)
    → Represents s q
    → last q ≡ some y
    → Absent f q
    → (s' : Lru) × (move_to_top f y s ≡ some s') × Represents s' (refreshed f q)
unfolding move_to_top
move-new s q f y rep end absent =
    let up = rep.above f ∙ next-Absent q f absent in
    let down = rep.below f ∙ prev-Absent q f absent in
    (
      put_on_top f y s,
      rw (up, down, move_to_top) refl,
      rw (remove-Absent f q absent) (put_on_top-Represents s q f y rep absent end),
    )

-- For the frame on top.
move-top :
    (s : Lru) (q : List ℕ) (f p : ℕ)
    → Represents s q
    → next q f ≡ none
    → prev q f ≡ some p
    → (s' : Lru) × (move_to_top f f s ≡ some s') × Represents s' (refreshed f q)
unfolding move_to_top
move-top s q f p rep after before =
    let up = rep.above f ∙ after in
    let down = rep.below f ∙ before in
    let same : (f == f) ≡ true = ground arith in
    (
      s,
      rw (up, down, same, move_to_top) refl,
      rw (remove-last q f rep.distinct (last-only q f p after before)) rep,
    )

-- For the frame at the bottom.
move-bottom :
    (s : Lru) (f b : ℕ) (r : List ℕ) (y : ℕ)
    → Represents s (f ∷ b ∷ r)
    → last (f ∷ b ∷ r) ≡ some y
    → (s' : Lru) × (move_to_top f y s ≡ some s') × Represents s' (refreshed f (f ∷ b ∷ r))
unfolding move_to_top first last IsDistinct
move-bottom s f b r y rep end =
    let up = rep.above f ∙ next-first f (b ∷ r) in
    let down = rep.below f ∙ prev-first f (b ∷ r) rep.distinct in
    let same : (f == f) ≡ true = ground arith in
    let s1 = record s { bottom_node = some b; frame_below = update s.frame_below b none } in
    (
      capped f y s1,
      rw (up, down, rep.bottom, same, move_to_top) refl,
      rw (remove-first f (b ∷ r) rep.distinct) (
          late_reset s1 ((b ∷ r) ++ (f ∷ [])) f y
            (put_on_top-Represents (cleared f s1) (b ∷ r) f y (unlink_first-Represents s f b r rep)
              rep.distinct.0 end)
            (last-ne f (b ∷ r) y rep.distinct.0 end)),
    )

-- For a frame between two others.
move-inner :
    (s : Lru) (q : List ℕ) (f p n y : ℕ)
    → Represents s q
    → prev q f ≡ some p
    → next q f ≡ some n
    → last q ≡ some y
    → (s' : Lru) × (move_to_top f y s ≡ some s') × Represents s' (refreshed f q)
unfolding move_to_top
move-inner s q f p n y rep before after end =
    let up = rep.above f ∙ after in
    let down = rep.below f ∙ before in
    let s1 = record s {
      frame_above = update s.frame_above p (some n);
      frame_below = update s.frame_below n (some p);
    } in
    let end' = last-remove q f p n rep.distinct before after ∙ end in
    (
      capped f y s1,
      rw (up, down, move_to_top) refl,
      late_reset s1 (refreshed f q) f y
          (put_on_top-Represents (cleared f s1) (remove f q) f y
            (unlink_inner-Represents s q f p n rep before after) (Absent-remove f q) end')
          (last-ne f (remove f q) y (Absent-remove f q) end'),
    )

-- For a frame that another one follows, and none precedes.
move-oldest :
    (s : Lru) (q : List ℕ) (f n y : ℕ)
    → Represents s q
    → last q ≡ some y
    → next q f ≡ some n
    → prev q f ≡ none
    → (s' : Lru) × (move_to_top f y s ≡ some s') × Represents s' (refreshed f q)
unfolding next first
move-oldest s [] f n y rep end after before = absurd (ground (arith, after))
move-oldest s (a ∷ []) f n y rep end after before = absurd (ground (arith, after))
move-oldest s (a ∷ b ∷ r) f n y rep end after before =
    let same : a ≡ f = ground (arith, first-only (a ∷ b ∷ r) f n after before) in
    subst
      (λ z. (s' : Lru) × (move_to_top z y s ≡ some s') × Represents s' (refreshed z (a ∷ b ∷ r)))
      same (move-bottom s a b r y rep end)

pub move-Represents :
    (s : Lru) (q : List ℕ) (f y : ℕ)
    → Represents s q
    → last q ≡ some y
    → q ≢ f ∷ []
    → (s' : Lru) × (move_to_top f y s ≡ some s') × Represents s' (refreshed f q)
move-Represents s q f y rep end several = elim (Option-cases (next q f)) [
  | inl after ↦ elim (Option-cases (prev q f)) [
    | inl before ↦ elim (isolated q f after before) [
      | inl absent ↦ move-new s q f y rep end absent
      | inr alone ↦ absurd (several alone)
    ]
    | inr (p, before) ↦
        let same : f ≡ y = ground (arith, last-only q f p after before, end) in
        subst (λ z. (s' : Lru) × (move_to_top f z s ≡ some s') × Represents s' (refreshed f q)) same
          (move-top s q f p rep after before)
  ]
  | inr (n, after) ↦ elim (Option-cases (prev q f)) [
    | inl before ↦ move-oldest s q f n y rep end after before
    | inr (p, before) ↦ move-inner s q f p n y rep before after end
  ]
]
