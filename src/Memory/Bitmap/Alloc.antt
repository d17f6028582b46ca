-- ===== src/Memory/Bitmap/Alloc.antt =====
-- The bitmap as a set of numbers: what `bitmap_create`, `bitmap_alloc`, `bitmap_mark` and
-- `bitmap_unmark` of A3/swap.c do to it.
use csc_369_operating_system.Common.{
  ℕ, zero, suc, ◌+◌, ◌-◌, ◌*◌, ◌<◌, ◌≤◌, Bool, true, false, List, [], ◌∷◌, some, none,
  if◌then◌else◌, ◌==◌, ltb, get_or, set, length, ◌≡◌, refl, arith, ◌⊎◌, inl, inr, Bool-cases,
  length-set, get_or-set_self, get_or-set_ne, ap, ◌∙◌,
}
use csc_369_operating_system.Memory.Bitmap.Bits.{
  Bitmap, all_bits, first_clear, full, found, search_words, bitmap_alloc,
}

-- The bit of a number over a list of words; past the end all are set.
unfoldable pub bit : List (List Bool) → ℕ → Bool
bit [] k = true
bit (w ∷ ws) k = if ltb k 32 then get_or w k true else bit ws (k - 32)

abbrev pub AllWords : List (List Bool) → Type 0
AllWords [] = Unit {0}
AllWords (w ∷ ws) = (length w ≡ 32) × AllWords ws

-- Every word has 32 bits, and the bits from `nbits` on are marked in use.
pub record IsValid (b : Bitmap) : Type 0 where
  pub words : AllWords b.v
  pub over : (k : ℕ) → b.nbits ≤ k → bit b.v k ≡ true

all_bits-get_or : (w : List Bool) (k : ℕ) → all_bits w ≡ true → get_or w k true ≡ true
unfolding all_bits
all_bits-get_or [] k h = refl
all_bits-get_or (x ∷ w) zero h = ground arith
all_bits-get_or (x ∷ w) (suc k) h = ground (arith, all_bits-get_or w k)

first_clear-some : (w : List Bool) → all_bits w ≡ false → (o : ℕ) × (first_clear w ≡ some o)
unfolding all_bits first_clear
first_clear-some [] h = cc
first_clear-some (true ∷ w) h = let (o, e) = first_clear-some w h in (suc o, rw e refl)
first_clear-some (false ∷ w) h = (0, refl)

first_clear-get_or :
    (w : List Bool) (o : ℕ) → first_clear w ≡ some o → (o < length w) × (get_or w o true ≡ false)
unfolding first_clear
first_clear-get_or [] o h = cc
first_clear-get_or (true ∷ w) zero h = ground arith
first_clear-get_or (true ∷ w) (suc o) h = ground (arith, first_clear-get_or w o)
first_clear-get_or (false ∷ w) zero h = (omega arith, refl)
first_clear-get_or (false ∷ w) (suc o) h = cc

first_clear-least :
    (w : List Bool) (o k : ℕ) → first_clear w ≡ some o → k < o → get_or w k true ≡ true
unfolding first_clear
first_clear-least [] o k h lt = cc
first_clear-least (true ∷ w) o zero h lt = refl
first_clear-least (true ∷ w) zero (suc k) h lt = absurd (omega arith)
first_clear-least (true ∷ w) (suc o) (suc k) h lt = ground (arith, first_clear-least w o k)
first_clear-least (false ∷ w) zero k h lt = absurd (omega arith)
first_clear-least (false ∷ w) (suc o) k h lt = cc

-- Number `i` is the least whose bit is clear in `ws`; it alone is set in `after`.
pub record Found (ws : List (List Bool)) (i : ℕ) (after : List (List Bool)) : Type 0 where
  pub clear : bit ws i ≡ false
  pub least : (k : ℕ) → k < i → bit ws k ≡ true
  pub marked : (k : ℕ) → bit after k ≡ (if i == k then true else bit ws k)
  pub kept : AllWords after

here-Found :
    (w : List Bool) (ws : List (List Bool)) (o : ℕ)
    → length w ≡ 32
    → AllWords ws
    → first_clear w ≡ some o
    → Found (w ∷ ws) o (set w o true ∷ ws)
unfolding bit
here-Found w ws o size rest e = record {
  clear = ground (arith, at);
  least = λ k lt. ground (arith, at, first_clear-least w o k e);
  marked = λ k. ground (arith, at, get_or-set_self w o true true, get_or-set_ne w o k true true);
  kept = (length-set w o true ∙ size, rest);
}
  where
    at : (o < length w) × (get_or w o true ≡ false)
    at = first_clear-get_or w o e

behind-Found :
    (w : List Bool) (ws : List (List Bool)) (i : ℕ) (after : List (List Bool))
    → length w ≡ 32
    → all_bits w ≡ true
    → Found ws i after
    → Found (w ∷ ws) (32 + i) (w ∷ after)
unfolding bit
behind-Found w ws i after size all f = record {
  clear = ground (arith, f.clear);
  least = λ k lt. ground (arith, all_bits-get_or w k all, f.least (k - 32));
  marked = λ k. ground (arith, f.marked (k - 32));
  kept = (size, f.kept);
}

search_words-cases :
    (ix : ℕ) (ws : List (List Bool))
    → AllWords ws
    → ((search_words ix ws ≡ full) × ((k : ℕ) → bit ws k ≡ true))
      ⊎ ((i : ℕ) × (after : List (List Bool)) × (search_words ix ws ≡ found (ix * 32 + i) after)
          × Found ws i after)
unfolding search_words bit
search_words-cases ix [] h = inl (refl, λ k. refl)
search_words-cases ix (w ∷ ws) h = elim (Bool-cases (all_bits w)) [
  | inl all ↦ elim (search_words-cases (suc ix) ws h.1) [
    | inl (e, set_all) ↦
        inl (rw (all, e) refl, λ k. ground (arith, all_bits-get_or w k all, set_all (k - 32)))
    | inr (i, after, e, f) ↦ inr (
      32 + i,
      w ∷ after,
      rw (all, e) (ap (λ j. found j (w ∷ after)) (omega arith)),
      behind-Found w ws i after h.0 all f,
    )
  ]
  | inr some_clear ↦
      let (o, e) = first_clear-some w some_clear in
      inr (o, set w o true ∷ ws, rw (some_clear, e, search_words) refl, here-Found w ws o h.0 h.1 e)
]

-- On a valid bitmap `bitmap_alloc` meets no failed assertion. Either it returns the least number
-- whose bit is clear, which is below the number of bits; the bit is set in the new bitmap, which
-- is valid, and no other bit changes. Or it fails and changes nothing, and every bit is set.
pub bitmap_alloc-least :
    {b : Bitmap}
    → IsValid b
    → ((i : ℕ) × (after : Bitmap) × (bitmap_alloc b ≡ some (some i, after))
        × (i < b.nbits)
        × (after.nbits ≡ b.nbits)
        × Found b.v i after.v
        × IsValid after)
      ⊎ ((bitmap_alloc b ≡ some (none, b)) × ((k : ℕ) → bit b.v k ≡ true))
unfolding bitmap_alloc
bitmap_alloc-least {b} v = elim (search_words-cases 0 b.v v.words) [
  | inl (e, all) ↦ inr (rw (e, bitmap_alloc) refl, all)
  | inr (i, after, e, f) ↦
      let lt : i < b.nbits = ground (arith, v.over i, f.clear) in
      inl (
        i,
        record b { v = after },
        ground (arith, e),
        lt,
        refl,
        f,
        record { words = f.kept; over = λ k h. ground (arith, f.marked k, v.over k) },
      )
]
