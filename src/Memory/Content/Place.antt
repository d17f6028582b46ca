-- ===== src/Memory/Content/Place.antt =====
-- The places that `swap_pageout` of A3/swap.c gives away.
use csc_369_operating_system.Common.{
  ℕ, ◌*◌, ◌<◌, ◌≤◌, false, List, [], ◌∷◌, Option, none, some, ◌==◌, update, length, ◌≡◌, ◌≢◌, refl,
  sym, ap, arith, inl, inr, Bool-cases, ℕ_discrete, dec_lt, eq-false, subst,
}
use csc_369_operating_system.Memory.Bitmap.Bits.{Bitmap, bitmap_alloc}
use csc_369_operating_system.Memory.Bitmap.Alloc.{IsValid, bitmap_alloc-least}
use csc_369_operating_system.Memory.PageTable.Swap.{simpagesize}
use csc_369_operating_system.Memory.Policy.Queue.{Absent, IsDistinct}
use csc_369_operating_system.Memory.Policy.Recency.{remove}
use csc_369_operating_system.Memory.Policy.Usage.{Absent-restore}
use csc_369_operating_system.Memory.Content.{placed_at, Slots}

length-remove : (a : ℕ) (ys : List ℕ) → length (remove a ys) ≤ length ys
unfolding remove
length-remove a [] = omega arith
length-remove a (y ∷ ys) = ground (arith, length-remove a ys)

length-remove_lt : (a : ℕ) (ys : List ℕ) → ¬ Absent a ys → length (remove a ys) < length ys
unfolding remove Absent
length-remove_lt a [] there = absurd (there tt)
length-remove_lt a (y ∷ ys) there = elim (Bool-cases (a == y)) [
  | inl e ↦ rw e (omega (arith, length-remove a ys))
  | inr e ↦
      let later = length-remove_lt a ys (λ absent. there ((λ h. ground (arith, e, h)), absent)) in
      rw e (omega (arith, later))
]

-- A list without repetition is no longer than one that has all its elements.
pub distinct-short :
    (xs ys : List ℕ) → IsDistinct xs → ((x : ℕ) → Absent x ys → Absent x xs) → length xs ≤ length ys
unfolding IsDistinct Absent
distinct-short [] ys distinct among = omega arith
distinct-short (a ∷ xs) ys distinct among =
    let there : ¬ Absent a ys = λ absent. (among a absent).0 refl in
    let rest = distinct-short xs (remove a ys) distinct.1 λ x absent. elim (ℕ_discrete x a) [
      | yes same ↦ subst (λ z. Absent z xs) (sym same) distinct.0
      | no ne ↦ (among x (Absent-restore x a ys absent ne)).1
    ] in
    omega (arith, rest, length-remove_lt a ys there)

pub placed_at-lt : (placed : List ℕ) (i q : ℕ) → placed_at placed i ≡ some q → i < length placed
unfolding placed_at
placed_at-lt [] i q e = absurd (ground (arith, e))
placed_at-lt (x ∷ placed) i q e = elim (Bool-cases (i == length placed)) [
  | inl last ↦ ground (arith, last)
  | inr earlier ↦ let lt = placed_at-lt placed i q (rw earlier at e) in omega (arith, lt)
]

-- Two pages have two places.
pub offs-apart :
    (swap_off : ℕ → Option ℕ) (b : Bitmap) (placed pages : List ℕ) (p q i j : ℕ)
    → p ≢ q
    → placed_at placed i ≡ some p
    → placed_at placed j ≡ some q
    → i ≢ j
offs-apart swap_off b placed pages p q i j ne at_p at_q same =
    ne (ground (arith, at_p, at_q, ap (placed_at placed) same))

module _ {swap_off : ℕ → Option ℕ} {b : Bitmap} {placed pages : List ℕ} where
  -- A page without a place is given the next one, which is free.
  pub next_slot :
      (v : ℕ)
      → Slots swap_off b placed pages
      → IsValid b
      → swap_off v ≡ none
      → ¬ Absent v pages
      → (after : Bitmap) × (bitmap_alloc b ≡ some (some (length placed), after))
        × IsValid after
        × Slots (update swap_off v (some (length placed * simpagesize))) after (v ∷ placed) pages
  unfolding IsDistinct Absent placed_at
  next_slot v s valid off there =
      let absent = s.without v off in
      let among' : (x : ℕ) → Absent x pages → Absent x (v ∷ placed) =
        λ x gone. ((λ same. there (subst (λ z. Absent z pages) same gone)), s.among x gone) in
      let more = distinct-short (v ∷ placed) pages (absent, s.distinct) among' in
      let free = s.clear (length placed) (omega arith) (omega (arith, more, s.room)) in
      elim (bitmap_alloc-least valid) [
        | inr (e, all) ↦ absurd (ground (arith, free, all (length placed)))
        | inl (i, after, e, lt, size, found, valid') ↦
            let least : i ≡ length placed = elim (dec_lt i (length placed)) [
              | yes early ↦ absurd (ground (arith, s.marked i early, found.clear))
              | no late ↦ elim (dec_lt (length placed) i) [
                | yes past ↦ absurd (ground (arith, found.least (length placed) past, free))
                | no not_past ↦ omega (arith, late, not_past)
              ]
            ] in
            (
              after,
              rw (sym least) e,
              valid',
              record {
                offs = λ q off given. elim (Bool-cases (v == q)) [
                  | inl h ↦ (length placed, ground (arith, h), ground (arith, h, given))
                  | inr h ↦
                      let (j, at, place) = s.offs q off (rw h at given) in
                      let old : (j == length placed) ≡ false =
                        eq-false j (length placed)
                          (λ same. omega (arith, placed_at-lt placed j q at, same)) in
                      (j, rw old at, place)
                ];
                without = λ q none_given. elim (Bool-cases (v == q)) [
                  | inl h ↦ absurd (ground (arith, h, none_given))
                  | inr h ↦ ((λ same. ground (arith, h, same)), s.without q (rw h at none_given))
                ];
                distinct = (absent, s.distinct);
                among = among';
                marked = λ k below. ground (arith, found.marked k, s.marked k, least);
                clear = λ k above below. ground (arith, found.marked k, s.clear k, least, size);
                room = omega (arith, s.room, size);
              },
            )
      ]
