-- ===== src/Memory/Policy/Reference.antt =====
-- The operations of A3/lru.c on the order of use.
use csc_369_operating_system.Common.{
  ℕ, List, [], ◌∷◌, none, some, ◌==◌, ◌≡◌, ◌≢◌, refl, sym, ap, ◌∙◌, arith, ◌⊎◌, inl, inr,
  Bool-cases, subst, Option-cases, fun_ext, update,
}
use csc_369_operating_system.Memory.Policy.Queue.{
  next, first, last, Absent, IsDistinct, next-first, next-tail, last-some,
}
use csc_369_operating_system.Memory.Policy.Recency.{prev, remove, remove-Absent}
use csc_369_operating_system.Memory.Policy.Lru.{Lru, unlink_bottom, put_on_top, reference}
use csc_369_operating_system.Memory.Policy.Removal.{remove-last}
use csc_369_operating_system.Memory.Policy.Order.{
  Represents, cleared, refreshed, put_on_top-Represents, top-last, unlink_first-Represents,
  move-Represents,
}

-- Where `top_node` is NULL, at most one frame is in the order.
pub reference-single :
    (s : Lru) (q : List ℕ) (f a : ℕ)
    → Represents s q
    → s.top_node ≡ none
    → s.bottom_node ≡ some a
    → q ≡ a ∷ []
unfolding first last
reference-single s [] f a rep top bottom = absurd (ground (arith, rep.bottom, bottom))
reference-single s (b ∷ []) f a rep top bottom =
    ap (λ n. n ∷ []) (ground (arith, rep.bottom, bottom))
reference-single s (b ∷ c ∷ r) f a rep top bottom =
    let (y, end) = last-some b (c ∷ r) in absurd (ground (arith, top-last s b c r rep, top, end))

reference-first :
    (s : Lru) (f : ℕ)
    → Represents s []
    → (s' : Lru) × (reference f s ≡ some s') × Represents s' (refreshed f [])
unfolding reference first last next prev remove IsDistinct Absent
reference-first s f rep =
    let empty : s.top_node ≡ none = ground (arith, rep.top) in
    (
      record (cleared f s) { bottom_node = some f },
      rw (rep.bottom, reference) refl,
      record {
        distinct = (tt, tt);
        above = λ x. ground (arith, rep.above x);
        below = λ x. ground (arith, rep.below x);
        bottom = refl;
        top = inr (empty, refl);
      },
    )

reference-second :
    (s : Lru) (a f : ℕ)
    → Represents s (a ∷ [])
    → s.top_node ≡ none
    → (s' : Lru) × (reference f s ≡ some s') × Represents s' (refreshed f (a ∷ []))
unfolding reference first last Absent
reference-second s a f rep top = elim (Bool-cases (f == a)) [
  | inl e ↦
      let same : f ≡ a = ground (arith, e) in
      (
        s,
        ground (arith, rep.bottom, top, e),
        rw (remove-last (a ∷ []) f rep.distinct (ap some (sym same))) rep,
      )
  | inr e ↦
      let absent : Absent f (a ∷ []) = ((λ same. ground (arith, e, same)), tt) in
      (
        put_on_top f a s,
        ground (arith, rep.bottom, top, e),
        rw (remove-Absent f (a ∷ []) absent) (put_on_top-Represents s (a ∷ []) f a rep absent refl),
      )
]

-- The links of `lru_ref` move the referenced frame to the recent end of the order, whether it was
-- in the order or not, and no null pointer is followed and no assertion fails. The order may not
-- consist of the referenced frame alone while `top_node` is set, as after an eviction.
pub reference-Represents :
    (s : Lru) (q : List ℕ) (f : ℕ)
    → Represents s q
    → (s.top_node ≡ none) ⊎ (q ≢ f ∷ [])
    → (s' : Lru) × (reference f s ≡ some s') × Represents s' (refreshed f q)
unfolding reference first
reference-Represents s [] f rep apart = reference-first s f rep
reference-Represents s (a ∷ r) f rep apart = elim (Option-cases s.top_node) [
  | inl top ↦
      let alone = reference-single s (a ∷ r) f a rep top rep.bottom in
      subst (λ q. (s' : Lru) × (reference f s ≡ some s') × Represents s' (refreshed f q))
        (sym alone) (reference-second s a f (subst (Represents s) alone rep) top)
  | inr (y, top) ↦
      let end : last (a ∷ r) ≡ some y = ground (arith, rep.top, top) in
      let several : (a ∷ r) ≢ f ∷ [] = elim apart [
        | inl none_yet ↦ absurd (ground (arith, top, none_yet))
        | inr several ↦ several
      ] in
      let (s', result, order) = move-Represents s (a ∷ r) f y rep end several in
      (s', rw (rep.bottom, top, reference) result, order)
]

-- The links of `lru_evict` take the least recently used of two or more frames out of the order.
pub unlink_bottom-Represents :
    (s : Lru) (a b : ℕ) (r : List ℕ)
    → Represents s (a ∷ b ∷ r)
    → (s' : Lru) × (unlink_bottom s ≡ some (a, s')) × Represents s' (b ∷ r)
unfolding unlink_bottom first
unlink_bottom-Represents s a b r rep =
    let up = rep.above a ∙ next-first a (b ∷ r) in
    (_, rw (rep.bottom, up, unlink_bottom) refl, unlink_first-Represents s a b r rep)

-- Where one frame is in the order, as with a memory of one frame, `lru_evict` follows a null
-- pointer.
pub unlink_bottom-single : (s : Lru) (a : ℕ) → Represents s (a ∷ []) → unlink_bottom s ≡ none
unfolding unlink_bottom first next
unlink_bottom-single s a rep = rw (rep.bottom, rep.above a, unlink_bottom) refl

-- The links stand for one order only.
chain_unique :
    (q q' : List ℕ)
    → IsDistinct q
    → IsDistinct q'
    → first q ≡ first q'
    → ((x : ℕ) → next q x ≡ next q' x)
    → q ≡ q'
unfolding first IsDistinct
chain_unique [] [] distinct distinct' start step = refl
chain_unique [] (b ∷ q') distinct distinct' start step = absurd (ground (arith, start))
chain_unique (a ∷ q) [] distinct distinct' start step = absurd (ground (arith, start))
chain_unique (a ∷ q) (b ∷ q') distinct distinct' start step =
    let same : a ≡ b = ground (arith, start) in
    let step' : (x : ℕ) → next q x ≡ next q' x = λ x.
      next-tail a q x distinct
      ∙ ap (λ g. update g a none x) (fun_ext step)
      ∙ ap (λ y. update (next (b ∷ q')) y none x) same
      ∙ sym (next-tail b q' x distinct') in
    let second = sym (next-first a q) ∙ step a ∙ ap (next (b ∷ q')) same ∙ next-first b q' in
    ap (λ y. y ∷ q) same ∙ ap (λ r. b ∷ r) (chain_unique q q' distinct.1 distinct'.1 second step')

pub Represents-unique : (s : Lru) (q q' : List ℕ) → Represents s q → Represents s q' → q ≡ q'
Represents-unique s q q' r r' =
    chain_unique q q' r.distinct r'.distinct (sym r.bottom ∙ r'.bottom)
      (λ x. sym (r.above x) ∙ r'.above x)
