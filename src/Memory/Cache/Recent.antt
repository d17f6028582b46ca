-- ===== src/Memory/Cache/Recent.antt =====
-- The last few elements of an order of use.
use csc_369_operating_system.Common.{
  ℕ, suc, ◌+◌, ◌≤◌, true, false, List, [], ◌∷◌, if◌then◌else◌, ◌==◌, length, ◌≡◌, refl, sym, ap,
  ◌∙◌, arith, inl, inr, Bool-cases, dec_lt, ltb, subst, length-append, lt→ltb, ◌++◌,
}
use csc_369_operating_system.Memory.Policy.Queue.{Absent, IsDistinct}
use csc_369_operating_system.Memory.Policy.Recency.{remove, remove-Absent}
use csc_369_operating_system.Memory.Cache.{holds, drop_oldest}

-- The last `n` elements of a list, or all.
unfoldable pub lastn : ℕ → List ℕ → List ℕ
lastn n [] = []
lastn n (a ∷ s) = let rest = lastn n s in if ltb n (length s + 1) then rest else a ∷ s

pub lastn-all : (n : ℕ) (s : List ℕ) → length s ≤ n → lastn n s ≡ s
unfolding lastn
lastn-all n [] le = refl
lastn-all n (a ∷ s) le = ground (arith, le)

lastn-long : (n a : ℕ) (s : List ℕ) → n ≤ length s → lastn n (a ∷ s) ≡ lastn n s
unfolding lastn
lastn-long n a s le = ground (arith, le)

pub lastn-append : (n p : ℕ) (s : List ℕ) → lastn (suc n) (s ++ (p ∷ [])) ≡ lastn n s ++ (p ∷ [])
unfolding lastn
lastn-append n p [] = lastn-all (suc n) (p ∷ []) (omega arith)
lastn-append n p (a ∷ s) =
    let size = length-append s (p ∷ []) in
    elim (dec_lt n (length s + 1)) [
      | yes many ↦
          lastn-long (suc n) a (s ++ (p ∷ [])) (omega (arith, many, size))
          ∙ lastn-append n p s
          ∙ ap (λ l. l ++ (p ∷ [])) (sym (lastn-long n a s (omega (arith, many))))
      | no few ↦
          lastn-all (suc n) (a ∷ (s ++ (p ∷ []))) (omega (arith, few, size))
          ∙ ap (λ l. l ++ (p ∷ [])) (sym (lastn-all n (a ∷ s) (omega (arith, few))))
    ]

pub holds-Absent : (p : ℕ) (s : List ℕ) → holds p s ≡ false → Absent p s
unfolding holds Absent
holds-Absent p [] h = tt
holds-Absent p (a ∷ s) h = ((λ same. ground (arith, h, same)), holds-Absent p s (ground (arith, h)))

-- What is among the last few elements is among more of them.
pub holds-lastn :
    (p n k : ℕ) (s : List ℕ) → n ≤ k → holds p (lastn n s) ≡ true → holds p (lastn k s) ≡ true
unfolding holds lastn
holds-lastn p n k [] le h = h
holds-lastn p n k (a ∷ s) le h = elim (dec_lt n (length s + 1)) [
  | no few ↦
      subst (λ l. holds p l ≡ true)
        (lastn-all n (a ∷ s) (omega (arith, few))
          ∙ sym (lastn-all k (a ∷ s) (omega (arith, few, le))))
        h
  | yes many ↦
      let h' : holds p (lastn n s) ≡ true = rw (lt→ltb n (length s + 1) many) at h in
      elim (dec_lt k (length s + 1)) [
        | yes more ↦ rw (lt→ltb k (length s + 1) more) (holds-lastn p n k s le h')
        | no all ↦
            let later = holds-lastn p n k s le h' in
            let here : holds p s ≡ true =
              subst (λ l. holds p l ≡ true) (lastn-all k s (omega (arith, all))) later in
            subst (λ l. holds p l ≡ true) (sym (lastn-all k (a ∷ s) (omega (arith, all))))
              (ground (arith, here))
      ]
]

holds-all : (p n : ℕ) (s : List ℕ) → holds p (lastn n s) ≡ true → holds p s ≡ true
holds-all p n s h =
    subst (λ l. holds p l ≡ true) (lastn-all (n + length s) s (omega arith))
      (holds-lastn p n (n + length s) s (omega arith) h)

remove-short : (p : ℕ) (s : List ℕ) → IsDistinct s → length s ≤ length (remove p s) + 1
unfolding remove IsDistinct
remove-short p [] distinct = omega arith
remove-short p (a ∷ s) distinct = elim (Bool-cases (p == a)) [
  | inl e ↦
      let same : a ≡ p = ground (arith, e) in
      rw (e, remove-Absent p s (subst (λ x. Absent x s) same distinct.0)) (omega arith)
  | inr e ↦ let rest = remove-short p s distinct.1 in rw e (omega (arith, rest))
]

remove-held :
    (p : ℕ) (s : List ℕ) → IsDistinct s → holds p s ≡ true → length (remove p s) + 1 ≡ length s
unfolding remove IsDistinct holds
remove-held p [] distinct h = absurd (ground (arith, h))
remove-held p (a ∷ s) distinct h = elim (Bool-cases (p == a)) [
  | inl e ↦
      let same : a ≡ p = ground (arith, e) in
      rw (e, remove-Absent p s (subst (λ x. Absent x s) same distinct.0)) (omega arith)
  | inr e ↦ let rest = remove-held p s distinct.1 (rw e at h) in rw e (omega (arith, rest))
]

-- A page that is among the last few is moved to the end.
pub lastn-move :
    (p n : ℕ) (s : List ℕ)
    → IsDistinct s
    → holds p (lastn (suc n) s) ≡ true
    → remove p (lastn (suc n) s) ≡ lastn n (remove p s)
unfolding remove IsDistinct lastn
lastn-move p n [] distinct h = refl
lastn-move p n (a ∷ s) distinct h = elim (dec_lt n (length s)) [
  | yes many ↦
      let same = lastn-long (suc n) a s (omega (arith, many)) in
      let h' = subst (λ l. holds p l ≡ true) same h in
      let here = holds-all p (suc n) s h' in
      let apart : (p == a) ≡ false = elim (Bool-cases (p == a)) [
        | inr e ↦ e
        | inl e ↦
            let self : a ≡ p = ground (arith, e) in
            let gone = ap length (remove-Absent p s (subst (λ x. Absent x s) self distinct.0)) in
            absurd (omega (arith, gone, remove-held p s distinct.1 here))
      ] in
      ap (remove p) same
      ∙ lastn-move p n s distinct.1 h'
      ∙ rw apart
          (sym (lastn-long n a (remove p s) (omega (arith, many, remove-held p s distinct.1 here))))
  | no few ↦
      let whole = lastn-all (suc n) (a ∷ s) (omega (arith, few)) in
      let there = subst (λ l. holds p l ≡ true) whole h in
      ap (remove p) whole
      ∙ sym (
          lastn-all n (remove p (a ∷ s)) (omega (arith, few, remove-held p (a ∷ s) distinct there)))
]

-- A page that is not among them takes the place of the first of them.
pub lastn-drop :
    (p n : ℕ) (s : List ℕ)
    → IsDistinct s
    → holds p (lastn (suc n) s) ≡ false
    → suc n ≤ length s
    → drop_oldest (lastn (suc n) s) ≡ lastn n (remove p s)
unfolding remove IsDistinct
lastn-drop p n [] distinct h le = absurd (omega (arith, le))
lastn-drop p n (a ∷ s) distinct h le = elim (dec_lt n (length s)) [
  | yes many ↦
      let same = lastn-long (suc n) a s (omega (arith, many)) in
      let rest =
        lastn-drop p n s distinct.1 (subst (λ l. holds p l ≡ false) same h) (omega (arith, many)) in
      ap drop_oldest same ∙ rest ∙ elim (Bool-cases (p == a)) [
        | inl e ↦ rw e refl
        | inr e ↦
            rw e
              (sym (lastn-long n a (remove p s) (omega (arith, many, remove-short p s distinct.1))))
      ]
  | no few ↦
      let whole = lastn-all (suc n) (a ∷ s) (omega (arith, few)) in
      let absent = holds-Absent p (a ∷ s) (subst (λ l. holds p l ≡ false) whole h) in
      ap drop_oldest whole
      ∙ sym (lastn-all n s (omega (arith, few)))
      ∙ sym (lastn-long n a s (omega (arith, few, le)))
      ∙ ap (lastn n) (sym (remove-Absent p (a ∷ s) absent))
]

pub lastn-length : (n : ℕ) (s : List ℕ) → n ≤ length s → length (lastn n s) ≡ n
unfolding lastn
lastn-length n [] le = omega (arith, le)
lastn-length n (a ∷ s) le = elim (dec_lt n (length s + 1)) [
  | yes many ↦
      ap length (lastn-long n a s (omega (arith, many))) ∙ lastn-length n s (omega (arith, many))
  | no few ↦ ap length (lastn-all n (a ∷ s) (omega (arith, few))) ∙ omega (arith, few, le)
]
