-- ===== src/Memory/Policy/Opt.antt =====
-- A3/opt.c. A node of a queue is pointed to by its number, and NULL is `none`; `none` is also a
-- fault.
use csc_369_operating_system.Common.{
  ℕ, zero, suc, ◌+◌, ◌%◌, Bool, true, List, [], ◌∷◌, Option, none, some, if◌then◌else◌, ltb, update,
  ◌≡◌, refl,
}
use csc_369_operating_system.Memory.Machine.{Machine, Functions}

abbrev pub vaddrmax : ℕ
vaddrmax = 100000

pub record Node : Type 0 where
  pub index : ℕ
  pub next : Option ℕ

-- `struct queue`.
pub record Segment : Type 0 where
  pub head : Option ℕ
  pub tail : Option ℕ

pub record Opt : Type 0 where
  pub nodes : ℕ → Node
  pub vaddr_table : ℕ → Segment
  pub vaddr_counter : ℕ

-- `pop`, for the queue of a hash code, less what it returns.
unfoldable pub pop : ℕ → Opt → Option Opt
pop hashcode s =
    let q = s.vaddr_table hashcode in
    elim q.head [
      | none ↦ none
      | some n ↦ some (record s {
        vaddr_table = update s.vaddr_table hashcode (record q { head = (s.nodes n).next });
      })
    ]

-- The end of `insert`, once there is a node.
unfoldable pub append_node : ℕ → ℕ → ℕ → Opt → Option Opt
append_node n hashcode counter s =
    let nodes = update s.nodes n (record (s.nodes n) { index = counter }) in
    let q = s.vaddr_table hashcode in
    elim q.head [
      | none ↦ some (record s {
        nodes = nodes;
        vaddr_table = update s.vaddr_table hashcode (record { head = some n; tail = some n });
      })
      | some h ↦ elim q.tail [
        | none ↦ none
        | some t ↦ some (record s {
          nodes = update nodes t (record (nodes t) { next = some n });
          vaddr_table = update s.vaddr_table hashcode (record q { tail = some n });
        })
      ]
    ]

-- `new_node`.
abbrev new_node : Option ℕ
new_node = none

unfoldable pub insert : ℕ → ℕ → Opt → Option Opt
insert vaddr counter s = elim new_node [
  | none ↦ none
  | some n ↦ append_node n (vaddr % vaddrmax) counter s
]

-- The loop of `opt_init`, over the addresses of the trace.
unfoldable pub insert_all : List ℕ → Opt → Option Opt
insert_all [] s = some s
insert_all (vaddr ∷ trace) s = elim (insert vaddr s.vaddr_counter s) [
  | none ↦ none
  | some s' ↦ insert_all trace (record s' { vaddr_counter = s'.vaddr_counter + 1 })
]

unfoldable pub opt_init : List ℕ → Opt → Option Opt
opt_init trace s = elim (insert_all trace (record s { vaddr_counter = 0 })) [
  | none ↦ none
  | some s' ↦ some (record s' { vaddr_counter = 0 })
]

-- The inner loop of `opt_evict`: references that have passed are popped. The indices in a queue
-- grow, so that no more are popped than the counter says.
unfoldable pub drop_passed : ℕ → ℕ → Opt → Option Opt
drop_passed zero hashcode s = some s
drop_passed (suc fuel) hashcode s = elim (s.vaddr_table hashcode).head [
  | none ↦ some s
  | some n ↦
      if ltb (s.nodes n).index s.vaddr_counter
      then (elim (pop hashcode s) [ none ↦ none | some s' ↦ drop_passed fuel hashcode s' ])
      else some s
]

-- Whether the page with a hash code is not referenced again: without a head, or with a tail that has
-- passed.
unfoldable pub never_again : ℕ → Opt → Option Bool
never_again hashcode s = elim (s.vaddr_table hashcode).head [
  | none ↦ some true
  | some h ↦ elim (s.vaddr_table hashcode).tail [
    | none ↦ none
    | some t ↦ some (ltb (s.nodes t).index s.vaddr_counter)
  ]
]

module _ {F : Type 0} where
  -- The outer loop of `opt_evict`, over the frames that are left. `furthest_index` and `evicted` are
  -- `none` where they are not set, and to read them then is a fault.
  unfoldable pub seek_furthest :
      ℕ → ℕ → Option ℕ → Option ℕ → Machine F Opt → Option (ℕ × Machine F Opt)
  seek_furthest zero i furthest_index evicted m = elim evicted [
    | none ↦ none
    | some f ↦ some (f, m)
  ]
  seek_furthest (suc left) i furthest_index evicted m =
      let hashcode = (m.coremap i).vaddr % vaddrmax in
      elim (never_again hashcode m.alg) [
        | none ↦ none
        | some gone ↦
            if gone then some (i, m) else (elim (drop_passed m.alg.vaddr_counter hashcode m.alg) [
              | none ↦ none
              | some s ↦ elim furthest_index [
                | none ↦ none
                | some furthest ↦ elim (s.vaddr_table hashcode).head [
                  | none ↦ none
                  | some h ↦
                      let m' = record m { alg = s } in
                      let further =
                        seek_furthest left (i + 1) (some (s.nodes h).index) (some i) m' in
                      let same = seek_furthest left (i + 1) (some furthest) evicted m' in
                      if ltb furthest (s.nodes h).index then further else same
                ]
              ]
            ])
      ]

  unfoldable pub opt_evict : Machine F Opt → Option (ℕ × Machine F Opt)
  opt_evict m = elim (seek_furthest m.memsize 0 none none m) [
    | none ↦ none
    | some (f, m') ↦ elim (m'.coremap f).pte [
      | none ↦ none
      | some p ↦ some ((m'.ptes p).number, m')
    ]
  ]

  unfoldable pub opt_ref : ℕ → Machine F Opt → Option (Machine F Opt)
  opt_ref p m = some (record m { alg = record m.alg { vaddr_counter = m.alg.vaddr_counter + 1 } })

  abbrev pub opt : Functions F Opt
  opt = record { ref = opt_ref; evict = opt_evict }

-- `opt_init` follows a null pointer on every trace with an access.
pub opt_init-fault : (vaddr : ℕ) (trace : List ℕ) (s : Opt) → opt_init (vaddr ∷ trace) s ≡ none
unfolding opt_init insert_all insert
opt_init-fault vaddr trace s = refl
