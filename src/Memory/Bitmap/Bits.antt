-- ===== src/Memory/Bitmap/Bits.antt =====
-- The operations of the bitmap of A3/swap.c. A word is the list of its 32 bits, the lowest first:
-- the mask `1 << offset` selects the bit at an offset. `none` is a failed assertion.
use csc_369_operating_system.Common.{
  ℕ, zero, suc, ◌+◌, ◌-◌, ◌*◌, ◌/◌, ◌%◌, ◌^◌, Bool, true, false, ◌&&◌, not, List, [], ◌∷◌, Option,
  some, none, if◌then◌else◌, ◌==◌, ltb, get_or, set, replicate,
}

pub record Bitmap : Type 0 where
  pub nbits : ℕ
  pub v : List (List Bool)

abbrev pub bits_per_word : ℕ
bits_per_word = 32

-- DIVROUNDUP on `unsigned`, which wraps.
abbrev pub div_round_up : ℕ → ℕ → ℕ
div_round_up a b = (a + b - 1) % 2 ^ 32 / b

-- The loop that sets the bits of a word from an offset on.
unfoldable pub fill_from : ℕ → List Bool → List Bool
fill_from offset [] = []
fill_from zero (x ∷ w) = true ∷ fill_from zero w
fill_from (suc offset) (x ∷ w) = x ∷ fill_from offset w

-- `bitmap_create`, where `malloc` finds memory.
unfoldable pub bitmap_create : ℕ → Option Bitmap
bitmap_create nbits =
    let words = div_round_up nbits bits_per_word in
    let blank = replicate words (replicate bits_per_word false) in
    let ix = words - 1 in
    let overbits = nbits - ix * bits_per_word in
    if ltb (nbits / bits_per_word) words
    then (if (nbits / bits_per_word == ix) && ltb 0 overbits && ltb overbits bits_per_word
        then some
            (record { nbits = nbits; v = set blank ix (fill_from overbits (get_or blank ix [])) })
        else none)
    else some (record { nbits = nbits; v = blank })

-- `v[ix] == WORD_ALLBITS`.
unfoldable pub all_bits : List Bool → Bool
all_bits [] = true
all_bits (x ∷ w) = if x then all_bits w else false

-- The offset of the first clear bit of a word.
unfoldable pub first_clear : List Bool → Option ℕ
first_clear [] = none
first_clear (true ∷ w) = elim (first_clear w) [ none ↦ none | some o ↦ some (suc o) ]
first_clear (false ∷ w) = some 0

-- The outer loop of `bitmap_alloc`, from word `ix` on: the index and the changed words.
pub data Search : Type 0 where
  full : Search
  failed : Search
  found : ℕ → List (List Bool) → Search

abbrev pub behind : List Bool → Search → Search
behind w full = full
behind w failed = failed
behind w (found i ws) = found i (w ∷ ws)

unfoldable pub search_words : ℕ → List (List Bool) → Search
unfolding all_bits first_clear
search_words ix [] = full
search_words ix (w ∷ ws) =
    let rest = behind w (search_words (suc ix) ws) in
    if all_bits w then rest else elim (first_clear w) [
      | none ↦ failed
      | some offset ↦ found (ix * bits_per_word + offset) (set w offset true ∷ ws)
    ]

-- `bitmap_alloc`: the index, or nothing where it returns 1.
unfoldable pub bitmap_alloc : Bitmap → Option (Option ℕ × Bitmap)
bitmap_alloc b = elim (search_words 0 b.v) [
  | full ↦ some (none, b)
  | failed ↦ none
  | found i v ↦ if ltb i b.nbits then some (some i, record b { v = v }) else none
]

-- `bitmap_translate` and the test of the bit.
unfoldable pub bitmap_isset : Bitmap → ℕ → Bool
bitmap_isset b i = get_or (get_or b.v (i / bits_per_word) []) (i % bits_per_word) true

abbrev pub put_bit : Bitmap → ℕ → Bool → Bitmap
put_bit b i x =
    let ix = i / bits_per_word in
    record b { v = set b.v ix (set (get_or b.v ix []) (i % bits_per_word) x) }

unfoldable pub bitmap_mark : Bitmap → ℕ → Option Bitmap
unfolding bitmap_isset
bitmap_mark b i = if ltb i b.nbits && not (bitmap_isset b i) then some (put_bit b i true) else none

unfoldable pub bitmap_unmark : Bitmap → ℕ → Option Bitmap
unfolding bitmap_isset
bitmap_unmark b i = if ltb i b.nbits && bitmap_isset b i then some (put_bit b i false) else none
