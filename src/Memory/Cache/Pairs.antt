-- ===== src/Memory/Cache/Pairs.antt =====
-- The order of frames of A3/lru.c and the list of the pages in them.
use csc_369_operating_system.Common.{
  ℕ, true, List, [], ◌∷◌, some, ◌==◌, length, ◌≡◌, ◌≢◌, refl, ap, ◌∙◌, arith, inl, inr, Bool-cases,
  ◌++◌,
}
use csc_369_operating_system.Memory.Machine.{Frame}
use csc_369_operating_system.Memory.Policy.Queue.{Absent}
use csc_369_operating_system.Memory.Policy.Recency.{remove}
use csc_369_operating_system.Memory.Cache.{holds}

-- The frames have the pages, one by one.
unfoldable pub Paired : (ℕ → Frame) → List ℕ → List ℕ → Type 0
Paired coremap [] [] = Unit
Paired coremap [] (p ∷ cache) = ⊥
Paired coremap (f ∷ order) [] = ⊥
Paired coremap (f ∷ order) (p ∷ cache) = ((coremap f).pte ≡ some p) × Paired coremap order cache

module _ (coremap : ℕ → Frame) where
  pub Paired-length :
      (order cache : List ℕ) → Paired coremap order cache → length order ≡ length cache
  unfolding Paired
  Paired-length [] [] r = refl
  Paired-length [] (p ∷ cache) r = absurd r
  Paired-length (f ∷ order) [] r = absurd r
  Paired-length (f ∷ order) (p ∷ cache) r = omega (arith, Paired-length order cache r.1)

  -- A page of the list is in a frame of the order, and the other way round.
  pub Paired-frame :
      (p : ℕ) (order cache : List ℕ)
      → Paired coremap order cache
      → holds p cache ≡ true
      → (f : ℕ) × (¬ Absent f order) × ((coremap f).pte ≡ some p)
  unfolding Paired holds Absent
  Paired-frame p [] [] r h = absurd (ground (arith, h))
  Paired-frame p [] (q ∷ cache) r h = absurd r
  Paired-frame p (f ∷ order) [] r h = absurd r
  Paired-frame p (f ∷ order) (q ∷ cache) r h = elim (Bool-cases (p == q)) [
    | inl e ↦
        let same : q ≡ p = ground (arith, e) in (f, (λ absent. absent.0 refl), r.0 ∙ ap some same)
    | inr e ↦
        let (g, there, points) = Paired-frame p order cache r.1 (rw e at h) in
        (g, (λ absent. there absent.1), points)
  ]

  pub Paired-holds :
      (p f : ℕ) (order cache : List ℕ)
      → Paired coremap order cache
      → ¬ Absent f order
      → (coremap f).pte ≡ some p
      → holds p cache ≡ true
  unfolding Paired holds Absent
  Paired-holds p f [] cache r there points = absurd (there tt)
  Paired-holds p f (g ∷ order) [] r there points = absurd r
  Paired-holds p f (g ∷ order) (q ∷ cache) r there points = elim (Bool-cases (p == q)) [
    | inl e ↦ rw e refl
    | inr e ↦
        let apart : f ≢ g =
          λ same. ground (arith, e, points, ap (λ x. (coremap x).pte) same, r.0) in
        rw e (Paired-holds p f order cache r.1 (λ absent. there (apart, absent)) points)
  ]

  pub Paired-append :
      (f p : ℕ) (order cache : List ℕ)
      → Paired coremap order cache
      → (coremap f).pte ≡ some p
      → Paired coremap (order ++ (f ∷ [])) (cache ++ (p ∷ []))
  unfolding Paired
  Paired-append f p [] [] r points = (points, tt)
  Paired-append f p [] (q ∷ cache) r points = absurd r
  Paired-append f p (g ∷ order) [] r points = absurd r
  Paired-append f p (g ∷ order) (q ∷ cache) r points =
      (r.0, Paired-append f p order cache r.1 points)

  -- A frame and its page are taken out, where it is the only frame with the page.
  pub Paired-remove :
      (f p : ℕ) (order cache : List ℕ)
      → Paired coremap order cache
      → ((g q : ℕ) → ¬ Absent g order → (coremap g).pte ≡ some q → (f == g) ≡ (p == q))
      → Paired coremap (remove f order) (remove p cache)
  unfolding Paired remove Absent
  Paired-remove f p [] [] r alone = tt
  Paired-remove f p [] (q ∷ cache) r alone = absurd r
  Paired-remove f p (g ∷ order) [] r alone = absurd r
  Paired-remove f p (g ∷ order) (q ∷ cache) r alone =
      let rest =
        Paired-remove f p order cache r.1 (λ h q' there. alone h q' (λ absent. there absent.1)) in
      let here = alone g q (λ absent. absent.0 refl) r.0 in
      elim (Bool-cases (p == q)) [
        | inl e ↦ rw (here ∙ e, e) rest
        | inr e ↦ rw (here ∙ e, e) (r.0, rest)
      ]

  pub Paired-agree :
      (coremap' : ℕ → Frame) (order cache : List ℕ)
      → Paired coremap order cache
      → ((g : ℕ) → ¬ Absent g order → (coremap' g).pte ≡ (coremap g).pte)
      → Paired coremap' order cache
  unfolding Paired Absent
  Paired-agree coremap' [] [] r same = tt
  Paired-agree coremap' [] (q ∷ cache) r same = absurd r
  Paired-agree coremap' (g ∷ order) [] r same = absurd r
  Paired-agree coremap' (g ∷ order) (q ∷ cache) r same = (
    same g (λ absent. absent.0 refl) ∙ r.0,
    Paired-agree coremap' order cache r.1 (λ h there. same h (λ absent. there absent.1)),
  )
