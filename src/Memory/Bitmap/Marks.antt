-- ===== src/Memory/Bitmap/Marks.antt =====
-- `bitmap_create`, `bitmap_isset`, `bitmap_mark` and `bitmap_unmark` of A3/swap.c on the bitmap as a
-- set of numbers.
use csc_369_operating_system.Common.{
  ℕ, zero, suc, ◌+◌, ◌-◌, ◌*◌, ◌/◌, ◌%◌, ◌^◌, ◌<◌, ◌≤◌, Bool, true, false, ◌&&◌, List, [], ◌∷◌,
  some, none, if◌then◌else◌, ◌==◌, ltb, get_or, set, replicate, length, ◌≡◌, ◌≢◌, refl, arith, inl,
  inr, Bool-cases, length-set, get_or-set_self, get_or-set_ne, ap, sym, ◌∙◌, subst, lt→ltb, dec_lt,
  ℕ_discrete,
}
use csc_369_operating_system.Memory.Bitmap.Bits.{
  Bitmap, fill_from, bitmap_create, bitmap_isset, put_bit, bitmap_mark, bitmap_unmark,
}
use csc_369_operating_system.Memory.Bitmap.Alloc.{bit, AllWords, IsValid}

bit-eq-get_or :
    (ws : List (List Bool)) (k : ℕ) → bit ws k ≡ get_or (get_or ws (k / 32) []) (k % 32) true
unfolding bit
bit-eq-get_or [] k = refl
bit-eq-get_or (w ∷ ws) k = elim (dec_lt k 32) [
  | yes lo ↦
      rw (lt→ltb k 32 lo)
        (let q : k / 32 ≡ 0 = omega arith in let r : k % 32 ≡ k = omega arith in rw (q, r) refl)
  | no hi ↦
      let q : k / 32 ≡ suc ((k - 32) / 32) = omega arith in
      let r : k % 32 ≡ (k - 32) % 32 = omega arith in
      let t : ltb k 32 ≡ false = ground arith in rw (t, q, r) (bit-eq-get_or ws (k - 32))
]

AllWords-set :
    (ws : List (List Bool)) (ix : ℕ) (w : List Bool)
    → AllWords ws
    → length w ≡ 32
    → AllWords (set ws ix w)
AllWords-set [] ix w h e = tt
AllWords-set (x ∷ ws) zero w h e = (e, h.1)
AllWords-set (x ∷ ws) (suc ix) w h e = (h.0, AllWords-set ws ix w h.1 e)

AllWords-get_or :
    (ws : List (List Bool)) (ix : ℕ) → AllWords ws → ix < length ws → length (get_or ws ix []) ≡ 32
AllWords-get_or [] ix h lt = absurd (omega arith)
AllWords-get_or (x ∷ ws) zero h lt = h.0
AllWords-get_or (x ∷ ws) (suc ix) h lt = AllWords-get_or ws ix h.1 (omega arith)

-- A number whose word is not there has its bit set.
bit-lt : (ws : List (List Bool)) (k : ℕ) → bit ws k ≡ false → k / 32 < length ws
unfolding bit
bit-lt [] k h = cc
bit-lt (w ∷ ws) k h = ground (arith, bit-lt ws (k - 32))

get_or-set_cell :
    (ws : List (List Bool)) (ix o jx p : ℕ) (x : Bool)
    → AllWords ws
    → ix < length ws
    → o < 32
    → get_or (get_or (set ws ix (set (get_or ws ix []) o x)) jx []) p true ≡ (
        if ix == jx
        then (if o == p then x else get_or (get_or ws jx []) p true)
        else get_or (get_or ws jx []) p true)
get_or-set_cell ws ix o jx p x h lt small = ground (
  arith,
  get_or-set_self ws ix (set (get_or ws ix []) o x) [],
  get_or-set_ne ws ix jx (set (get_or ws ix []) o x) [],
  get_or-set_self (get_or ws ix []) o x true,
  get_or-set_ne (get_or ws ix []) o p x true,
  AllWords-get_or ws ix h lt,
)

same_cell : (i k : ℕ) → (i == k) ≡ ((i / 32 == k / 32) && (i % 32 == k % 32))
same_cell i k = elim (Bool-cases (i == k)) [
  | inl same ↦ let e : i ≡ k = ground arith in rw e (ground arith)
  | inr other ↦ ground (arith, split other)
]
  where
    split : (i == k) ≡ false → ¬ ((i / 32 ≡ k / 32) × (i % 32 ≡ k % 32))
    split other h = absurd (omega (arith, h.0, h.1, apart other))
      where
        apart : (i == k) ≡ false → i ≢ k
        apart e = ground arith

bit-put_bit :
    (b : Bitmap) (i : ℕ) (x : Bool) (k : ℕ)
    → AllWords b.v
    → i / 32 < length b.v
    → bit (put_bit b i x).v k ≡ (if i == k then x else bit b.v k)
bit-put_bit b i x k h lt =
    rw (bit-eq-get_or (put_bit b i x).v k, bit-eq-get_or b.v k, same_cell i k)
      (get_or-set_cell b.v (i / 32) (i % 32) (k / 32) (k % 32) x h lt (omega arith)
        ∙ if_and (i / 32 == k / 32) (i % 32 == k % 32) _ _)
  where
    if_and : (p q y z : Bool) → (if p then (if q then y else z) else z) ≡ (if p && q then y else z)
    if_and true q y z = refl
    if_and false q y z = refl

put_bit-IsValid :
    (b : Bitmap) (i : ℕ) (x : Bool)
    → IsValid b
    → i < b.nbits
    → i / 32 < length b.v
    → IsValid (put_bit b i x)
put_bit-IsValid b i x v lt there = record {
  words =
      AllWords-set b.v (i / 32) (set (get_or b.v (i / 32) []) (i % 32) x) v.words (
        length-set (get_or b.v (i / 32) []) (i % 32) x
        ∙ AllWords-get_or b.v (i / 32) v.words there);
  over = λ k h. ground (arith, bit-put_bit b i x k v.words there, v.over k);
}

-- On a valid bitmap, let a number be below the number of bits and lie in the bitmap's words.
-- Testing it gives its bit. Marking it succeeds exactly where its bit is clear, and unmarking
-- exactly where it is set; otherwise an assertion fails. After a success the bitmap is valid, and
-- no other bit has changed.
pub bitmap_mark-bit :
    (b : Bitmap) (i : ℕ)
    → IsValid b
    → i < b.nbits
    → i / 32 < length b.v
    → (bitmap_isset b i ≡ bit b.v i)
      × (bitmap_mark b i ≡ (if bit b.v i then none else some (put_bit b i true)))
      × (bitmap_unmark b i ≡ (if bit b.v i then some (put_bit b i false) else none))
      × IsValid (put_bit b i true)
      × IsValid (put_bit b i false)
      × ((x : Bool) (k : ℕ) → bit (put_bit b i x).v k ≡ (if i == k then x else bit b.v k))
unfolding bitmap_mark bitmap_unmark bitmap_isset
bitmap_mark-bit b i v lt there = (
  sym (bit-eq-get_or b.v i),
  ground (arith, bit-eq-get_or b.v i),
  ground (arith, bit-eq-get_or b.v i),
  put_bit-IsValid b i true v lt there,
  put_bit-IsValid b i false v lt there,
  λ x k. bit-put_bit b i x k v.words there,
)

get_or-fill_from :
    (w : List Bool) (o k : ℕ)
    → get_or (fill_from o w) k true ≡ (if ltb k o then get_or w k true else true)
unfolding fill_from
get_or-fill_from [] o k = ground arith
get_or-fill_from (x ∷ w) zero zero = refl
get_or-fill_from (x ∷ w) zero (suc k) = ground (arith, get_or-fill_from w 0 k)
get_or-fill_from (x ∷ w) (suc o) zero = ground arith
get_or-fill_from (x ∷ w) (suc o) (suc k) = ground (arith, get_or-fill_from w o k)

length-fill_from : (w : List Bool) (o : ℕ) → length (fill_from o w) ≡ length w
unfolding fill_from
length-fill_from [] o = refl
length-fill_from (x ∷ w) zero = ap suc (length-fill_from w 0)
length-fill_from (x ∷ w) (suc o) = ap suc (length-fill_from w o)

abbrev clear_words : ℕ → List (List Bool)
clear_words n = replicate n (replicate 32 false)

AllWords-clear_words : (n : ℕ) → AllWords (clear_words n)
AllWords-clear_words zero = tt
AllWords-clear_words (suc n) = (refl, AllWords-clear_words n)

get_or-replicate_lt : (n k : ℕ) (a d : Bool) → k < n → get_or (replicate n a) k d ≡ a
get_or-replicate_lt zero k a d h = absurd (omega arith)
get_or-replicate_lt (suc n) zero a d h = refl
get_or-replicate_lt (suc n) (suc k) a d h = get_or-replicate_lt n k a d (omega arith)

bit-clear_words : (n k : ℕ) → bit (clear_words n) k ≡ (if ltb k (n * 32) then false else true)
unfolding bit
bit-clear_words zero k = ground arith
bit-clear_words (suc n) k =
    ground (arith, bit-clear_words n (k - 32), get_or-replicate_lt 32 k false true)

get_or-clear_words : (n ix : ℕ) → ix < n → get_or (clear_words n) ix [] ≡ replicate 32 false
get_or-clear_words zero ix h = absurd (omega arith)
get_or-clear_words (suc n) zero h = refl
get_or-clear_words (suc n) (suc ix) h = get_or-clear_words n ix (omega arith)

-- The last word, with its bits from an offset on set, behind clear words.
bit-over :
    (n o k : ℕ)
    → 0 < o
    → o < 32
    → bit (set (clear_words (suc n)) n (fill_from o (replicate 32 false))) k
      ≡ (if ltb k (n * 32 + o) then false else true)
unfolding bit
bit-over zero o k lo hi =
    ground (arith, get_or-fill_from (replicate 32 false) o k, get_or-replicate_lt 32 k false true)
bit-over (suc n) o k lo hi =
    ground (arith, bit-over n o (k - 32) lo hi, get_or-replicate_lt 32 k false true)

-- Where the number of bits, rounded up to words, does not overflow an `unsigned`, `bitmap_create`
-- meets no failed assertion, and gives a valid bitmap of that many bits, all clear.
pub bitmap_create-clear :
    (nbits : ℕ)
    → nbits + 32 ≤ 2 ^ 32
    → (b : Bitmap) × (bitmap_create nbits ≡ some b)
      × (b.nbits ≡ nbits)
      × IsValid b
      × ((k : ℕ) → bit b.v k ≡ (if ltb k nbits then false else true))
unfolding bitmap_create
bitmap_create-clear nbits small = elim (ℕ_discrete (nbits % 32) 0) [
  | yes even ↦
      let w : (nbits + 32 - 1) % 2 ^ 32 / 32 ≡ nbits / 32 = omega arith in
      let t : ltb (nbits / 32) (nbits / 32) ≡ false = ground arith in
      let size : nbits / 32 * 32 ≡ nbits = omega arith in
      let bits = λ (k : ℕ).
        subst (λ n. bit (clear_words (nbits / 32)) k ≡ (if ltb k n then false else true)) size
          (bit-clear_words (nbits / 32) k) in
      (
        record { nbits = nbits; v = clear_words (nbits / 32) },
        rw (w, t) refl,
        refl,
        record { words = AllWords-clear_words (nbits / 32); over = λ k h. ground (arith, bits k) },
        bits,
      )
  | no odd ↦
      let q = nbits / 32 in
      let o = nbits % 32 in
      let w : (nbits + 32 - 1) % 2 ^ 32 / 32 ≡ suc (nbits / 32) = omega arith in
      let last : suc (nbits / 32) - 1 ≡ nbits / 32 = omega arith in
      let more : ltb (nbits / 32) (suc (nbits / 32)) ≡ true = ground arith in
      let same : (nbits / 32 == nbits / 32) ≡ true = ground arith in
      let over : nbits - nbits / 32 * 32 ≡ nbits % 32 = omega arith in
      let positive : ltb 0 (nbits % 32) ≡ true = ground arith in
      let below : ltb (nbits % 32) 32 ≡ true = ground arith in
      let size : q * 32 + o ≡ nbits = omega arith in
      let bits = λ (k : ℕ).
        subst
          (λ n.
            bit (set (clear_words (suc q)) q (fill_from o (replicate 32 false))) k
            ≡ (if ltb k n then false else true))
          size (bit-over q o k (omega arith) (omega arith)) in
      (
        record {
          nbits = nbits;
          v = set (clear_words (suc q)) q (fill_from o (replicate 32 false));
        },
        rw (w, last, more, same, over, positive, below, get_or-clear_words (suc q) q (omega arith))
            refl,
        refl,
        record {
          words =
              AllWords-set (clear_words (suc q)) q (fill_from o (replicate 32 false))
                (AllWords-clear_words (suc q)) (length-fill_from (replicate 32 false) o);
          over = λ k h. ground (arith, bits k);
        },
        bits,
      )
]
