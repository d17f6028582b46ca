-- ===== src/Memory/Main.antt =====
-- The function main of A3/sim.c with the table `algs`, less its options and its report, and what it
-- calls to initialise: `swap_init` of A3/swap.c and `init_pagetable` of A3/pagetable.c.
pub mod Dispatch
mod Tests
use csc_369_operating_system.Common.{
  ℕ, ltb, ◌&&◌, zero, suc, ◌+◌, ◌*◌, ◌/◌, ◌%◌, ◌^◌, ◌<◌, ◌≤◌, Bool, true, false, List, [], ◌∷◌,
  Option, none, some, if◌then◌else◌, ◌==◌, update, length, map, ◌≡◌, ◌≢◌, refl, sym, ap, ◌∙◌, arith,
  ◌⊎◌, inl, inr, Bool-cases, Option-cases, ℕ_discrete, eq-false, subst, fun_ext, update_self,
  update-same, lt→ltb, not, ◌++◌,
}
use csc_369_operating_system.Memory.Bitmap.Bits.{Bitmap, bitmap_create}
use csc_369_operating_system.Memory.Bitmap.Marks.{bitmap_create-clear}
use csc_369_operating_system.Memory.Machine.{Page, Device, Machine, Functions}
use csc_369_operating_system.Memory.PageTable.Translate.{replay_trace}
use csc_369_operating_system.Memory.Replay.{IsTrace}
use csc_369_operating_system.Memory.Policy.Clock.{clock}
use csc_369_operating_system.Memory.Policy.Lru.{Lru, lru}
use csc_369_operating_system.Memory.Policy.Fifo.{Fifo, fifo}
use csc_369_operating_system.Memory.Policy.Rand.{rand}
use csc_369_operating_system.Memory.Policy.Opt.{Opt, opt, opt_init, opt_init-fault}
use csc_369_operating_system.Memory.Boot.{boot, simulate, no_frames, simulate-Completes}

-- The end of main: the exits with status 1, a fault, or the machine after the replay.
pub data Ending (F : Type 0) : Type 1 where
  usage : Ending F
  no_swap : Ending F
  invalid : Ending F
  fault : Ending F
  finished : (P : Type 0) (m : Machine F P) → Ending F

-- An entry of `algs`, with the global variables of the algorithm when the program starts. A name is
-- the list of its bytes.
pub record Algorithm (F : Type 0) : Type 1 where
  pub name : List ℕ
  pub State : Type 0
  pub globals : State
  pub init : State → Option State
  pub functions : Functions F State

-- Whether `strcmp` gives 0.
unfoldable pub same_name : List ℕ → List ℕ → Bool
same_name [] [] = true
same_name [] (b ∷ bs) = false
same_name (a ∷ more) [] = false
same_name (a ∷ more) (b ∷ bs) = let rest = same_name more bs in (a == b) && rest

-- The names in `algs`, as bytes.
abbrev pub rand_name : List ℕ
rand_name = 114 ∷ 97 ∷ 110 ∷ 100 ∷ []

abbrev pub lru_name : List ℕ
lru_name = 108 ∷ 114 ∷ 117 ∷ []

abbrev pub fifo_name : List ℕ
fifo_name = 102 ∷ 105 ∷ 102 ∷ 111 ∷ []

abbrev pub clock_name : List ℕ
clock_name = 99 ∷ 108 ∷ 111 ∷ 99 ∷ 107 ∷ []

abbrev pub opt_name : List ℕ
opt_name = 111 ∷ 112 ∷ 116 ∷ []

-- The loop over `algs`.
unfoldable pub choose : {F : Type 0} → List ℕ → List (Algorithm F) → Option (Algorithm F)
choose name [] = none
choose name (a ∷ more) =
    let rest = choose name more in if same_name a.name name then some a else rest

-- `swap_init`, given the file that `mkstemp` makes, if it makes one.
unfoldable pub swap_init : {F : Type 0} → Option F → ℕ → Option (F × Bitmap)
swap_init none swapsize = none
swap_init (some file) swapsize = elim (bitmap_create swapsize) [
  | none ↦ none
  | some b ↦ some (file, b)
]

-- `init_pagetable`: the valid bits of the 4096 entries of the page directory are cleared.
unfoldable pub init_pagetable : (ℕ → Bool) → ℕ → Bool
init_pagetable pgdir i = if ltb i 4096 then false else pgdir i

module _ {F : Type 0} where
  abbrev pub rand_entry : (ℕ → ℕ) → Algorithm F
  rand_entry numbers = record {
    name = rand_name;
    State = ℕ → ℕ;
    globals = numbers;
    init = some;
    functions = rand;
  }

  abbrev pub lru_entry : Algorithm F
  lru_entry = record {
    name = lru_name;
    State = Lru;
    globals = no_frames;
    init = some;
    functions = lru;
  }

  abbrev pub fifo_entry : Algorithm F
  fifo_entry = record {
    name = fifo_name;
    State = Fifo;
    globals = record { oldest = none; youngest = none; frame_above = λ f. none };
    init = some;
    functions = fifo;
  }

  abbrev pub clock_entry : Algorithm F
  clock_entry = record {
    name = clock_name;
    State = ℕ;
    globals = 0;
    init = λ hand. some 0;
    functions = clock;
  }

  -- `opt_init` reads the trace itself.
  abbrev pub opt_entry : Opt → List (ℕ × Bool) → Algorithm F
  opt_entry nodes lines = record {
    name = opt_name;
    State = Opt;
    globals = nodes;
    init = opt_init (map (λ line. line.0) lines);
    functions = opt;
  }

  -- `numbers` are those that `random` gives, and `nodes` what the memory of opt.c holds.
  unfoldable pub algs : (ℕ → ℕ) → Opt → List (ℕ × Bool) → List (Algorithm F)
  algs numbers nodes lines =
      rand_entry numbers ∷ lru_entry ∷ fifo_entry ∷ clock_entry ∷ opt_entry nodes lines ∷ []

  -- From the initialisation of the algorithm to the end of the replay.
  unfoldable pub run_with :
      Device F → Algorithm F → ℕ → (ℕ → Page) → F → Bitmap → List (ℕ × Bool) → Ending F
  run_with d a memsize memory file b lines = elim (a.init a.globals) [
    | none ↦ fault
    | some globals ↦
        let m = boot memsize memory b file globals in
        elim (replay_trace d a.functions lines (record m { pgdir = init_pagetable m.pgdir })) [
          | none ↦ fault
          | some m' ↦ finished a.State m'
        ]
  ]

  unfoldable pub main :
      Device F
      → List (Algorithm F)
      → Option (List ℕ)
      → ℕ
      → ℕ
      → (ℕ → Page)
      → Option F
      → List (ℕ × Bool)
      → Ending F
  main d table replacement_alg memsize swapsize memory made lines = elim (swap_init made swapsize) [
    | none ↦ no_swap
    | some (file, b) ↦ elim replacement_alg [
      | none ↦ usage
      | some name ↦ elim (choose name table) [
        | none ↦ invalid
        | some a ↦ run_with d a memsize memory file b lines
      ]
    ]
  ]
