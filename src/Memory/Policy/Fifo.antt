-- ===== src/Memory/Policy/Fifo.antt =====
-- A3/fifo.c. A pointer to a frame of the coremap is the frame's index, and NULL is `none`.
use csc_369_operating_system.Common.{
  ℕ, Option, none, some, update, List, [], ◌∷◌, ◌++◌, ◌≡◌, refl, arith, ◌⊎◌, inl, inr, ◌∙◌, sym,
}
use csc_369_operating_system.Memory.Policy.Queue.{
  next, first, last, Absent, IsDistinct, last-append, first-append, append-IsDistinct, next-append,
  next-Absent, next-last, next-tail, next-first, last-some, first-ne_last, next-irreflexive,
}
use csc_369_operating_system.Memory.Machine.{Machine, Functions}

-- `oldestf`, `youngestf` and the links `frame_above`.
pub record Fifo : Type 0 where
  pub oldest : Option ℕ
  pub youngest : Option ℕ
  pub frame_above : ℕ → Option ℕ

-- The links of `fifo_evict`: the frame of the victim.
unfoldable pub dequeue : Fifo → Option (ℕ × Fifo)
dequeue s = elim s.oldest [
  | none ↦ none
  | some f ↦
      some (f, record s { oldest = s.frame_above f; frame_above = update s.frame_above f none })
]

-- The links of `fifo_ref`, for the frame that the entry names.
unfoldable pub enqueue : ℕ → Fifo → Fifo
enqueue f s = elim (s.frame_above f) [
  | some above ↦ s
  | none ↦ elim s.oldest [
    | none ↦ record s { oldest = some f; frame_above = update s.frame_above f none }
    | some oldest ↦ elim s.youngest [
      | none ↦ record s { youngest = some f; frame_above = update s.frame_above oldest (some f) }
      | some youngest ↦ record s {
        youngest = some f;
        frame_above = update s.frame_above youngest (some f);
      }
    ]
  ]
]

module _ {F : Type 0} where
  unfoldable pub fifo_evict : Machine F Fifo → Option (ℕ × Machine F Fifo)
  fifo_evict m = elim (dequeue m.alg) [
    | none ↦ none
    | some (f, s) ↦ elim (m.coremap f).pte [
      | none ↦ none
      | some p ↦ some ((m.ptes p).number, record m { alg = s })
    ]
  ]

  unfoldable pub fifo_ref : ℕ → Machine F Fifo → Option (Machine F Fifo)
  fifo_ref p m = some (record m { alg = enqueue (m.ptes p).number m.alg })

  abbrev pub fifo : Functions F Fifo
  fifo = record { ref = fifo_ref; evict = fifo_evict }

-- The links stand for a queue, oldest first. With one frame `youngestf` may still be NULL.
pub record IsQueue (s : Fifo) (q : List ℕ) : Type 0 where
  pub distinct : IsDistinct q
  pub links : (x : ℕ) → s.frame_above x ≡ next q x
  pub front : s.oldest ≡ first q
  pub back : (s.youngest ≡ last q) ⊎ ((s.youngest ≡ none) × (last q ≡ first q))

-- The frame above which the next one is linked.
back_link :
    (s : Fifo) (a : ℕ) (r : List ℕ)
    → IsQueue s (a ∷ r)
    → (y : ℕ) × (last (a ∷ r) ≡ some y) × ((s.youngest ≡ some y) ⊎ ((s.youngest ≡ none) × (a ≡ y)))
unfolding first
back_link s a r rep =
    let (y, end) = last-some a r in
    (
      y,
      end,
      elim rep.back [
        | inl youngest ↦ inl (youngest ∙ end)
        | inr (youngest, single) ↦ inr (youngest, ground (arith, single, end))
      ],
    )

-- A frame that is not in the queue and is referenced goes to its end.
pub enqueue-IsQueue :
    (s : Fifo) (q : List ℕ) (f : ℕ)
    → IsQueue s q
    → Absent f q
    → IsQueue (enqueue f s) (q ++ (f ∷ []))
unfolding enqueue next first last IsDistinct Absent
enqueue-IsQueue s [] f rep absent = record {
  distinct = (tt, tt);
  links = λ x. ground (arith, rep.links x, rep.links f, rep.front);
  front = ground (arith, rep.links f, rep.front);
  back = inr (ground (arith, rep.links f, rep.front, rep.back), refl);
}
enqueue-IsQueue s (a ∷ r) f rep absent =
    let alone = rep.links f ∙ next-Absent (a ∷ r) f absent in
    let (y, end, link) = back_link s a r rep in
    record {
      distinct = append-IsDistinct (a ∷ r) f rep.distinct absent;
      links = λ x.
          ground (
            arith,
            alone,
            rep.front,
            rep.links x,
            link,
            next-append (a ∷ r) f y x rep.distinct end,
          );
      front = (ground (arith, alone, rep.front, link, first-append (a ∷ r) f y end));
      back = inl (ground (arith, alone, rep.front, link, last-append (a ∷ r) f));
    }

-- The first of two or more frames in the queue is the one that is evicted, and leaves the queue.
pub dequeue-IsQueue :
    (s : Fifo) (a b : ℕ) (r : List ℕ)
    → IsQueue s (a ∷ b ∷ r)
    → (s' : Fifo) × (dequeue s ≡ some (a, s')) × IsQueue s' (b ∷ r)
unfolding dequeue first last IsDistinct
dequeue-IsQueue s a b r rep =
    let youngest : s.youngest ≡ last (b ∷ r) = elim rep.back [
      | inl e ↦ e
      | inr (e, single) ↦ absurd (first-ne_last a b r rep.distinct single)
    ] in
    (
      record s { oldest = s.frame_above a; frame_above = update s.frame_above a none },
      ground (arith, rep.front),
      record {
        distinct = rep.distinct.1;
        links = λ x. ground (arith, rep.links x, next-tail a (b ∷ r) x rep.distinct);
        front = rep.links a ∙ next-first a (b ∷ r);
        back = inl youngest;
      },
    )

-- A frame in the queue that another one follows stays where it is.
enqueue-followed :
    (s : Fifo) (q : List ℕ) (f b : ℕ) → IsQueue s q → next q f ≡ some b → enqueue f s ≡ s
unfolding enqueue
enqueue-followed s q f b rep later = ground (arith, rep.links f, later)

-- The frame at the end of a queue is taken for one that is not queued: when it is referenced
-- again, it is linked above itself, and the links stand for no queue any more.
pub enqueue-youngest :
    (s : Fifo) (a : ℕ) (r : List ℕ) (f : ℕ)
    → IsQueue s (a ∷ r)
    → last (a ∷ r) ≡ some f
    → ((enqueue f s).frame_above f ≡ some f) × ((q : List ℕ) → ¬ IsQueue (enqueue f s) q)
unfolding enqueue first
enqueue-youngest s a r f rep end =
    let (y, top, link) = back_link s a r rep in
    let alone = rep.links f ∙ next-last (a ∷ r) f rep.distinct end in
    let loop : (enqueue f s).frame_above f ≡ some f =
      ground (arith, alone, rep.front, link, top, end) in
    (loop, λ q other. next-irreflexive q f other.distinct (sym (other.links f) ∙ loop))
