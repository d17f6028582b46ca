-- ===== src/Memory/Main/Tests.antt =====
-- main with a trace of two accesses.
use csc_369_operating_system.Common.{ℕ, Bool, true, false, List, [], ◌∷◌, none, some, ◌≡◌, arith}
use csc_369_operating_system.Memory.Machine.{Page, Machine, Device}
use csc_369_operating_system.Memory.Replay.{IsTrace}
use csc_369_operating_system.Memory.Policy.Clock.{clock}
use csc_369_operating_system.Memory.Policy.Lru.{Lru, lru}
use csc_369_operating_system.Memory.Policy.Rand.{rand}
use csc_369_operating_system.Memory.Policy.Opt.{Opt}
use csc_369_operating_system.Memory.Boot.{simulate, no_frames}
use csc_369_operating_system.Memory.Main.{
  usage, invalid, fault, finished, rand_name, lru_name, clock_name, opt_name,
}
use csc_369_operating_system.Memory.Main.Dispatch.{run_main, main-Dispatches}

abbrev device : Device (Unit {0})
device = record { write = λ file off page. (tt, true); read = λ file off page. (page, true) }

abbrev blank : ℕ → Page
blank = λ f. record { version = 0; vaddr = 0 }

abbrev no_nodes : Opt
no_nodes = record {
  nodes = λ n. record { index = 0; next = none };
  vaddr_table = λ h. record { head = none; tail = none };
  vaddr_counter = 0;
}

abbrev accesses : List (ℕ × Bool)
accesses = (4096, true) ∷ (8192, false) ∷ []

accesses-IsTrace : IsTrace accesses
unfolding IsTrace
accesses-IsTrace = (omega arith, (omega arith, tt))

abbrev mru_name : List ℕ
mru_name = 109 ∷ 114 ∷ 117 ∷ []

main-Dispatches_example :
    ((m : Machine (Unit {0}) Lru) × (run_main device
          (λ i. i)
          no_nodes
          2
          34
          blank
          tt
          accesses
          (some lru_name)
        ≡ finished Lru m)
      × (simulate device lru 2 34 blank tt no_frames accesses ≡ some m))
    × ((m : Machine (Unit {0}) ℕ) × (run_main device
            (λ i. i)
            no_nodes
            2
            34
            blank
            tt
            accesses
            (some clock_name)
          ≡ finished ℕ m)
        × (simulate device clock 2 34 blank tt 0 accesses ≡ some m))
    × ((m : Machine (Unit {0}) (ℕ → ℕ)) × (run_main device
            (λ i. i)
            no_nodes
            2
            34
            blank
            tt
            accesses
            (some rand_name)
          ≡ finished (ℕ → ℕ) m)
        × (simulate device rand 2 34 blank tt (λ i. i) accesses ≡ some m))
    × (run_main device (λ i. i) no_nodes 2 34 blank tt accesses (some opt_name) ≡ fault)
    × (run_main device (λ i. i) no_nodes 2 34 blank tt accesses none ≡ usage)
    × (run_main device (λ i. i) no_nodes 2 34 blank tt accesses (some mru_name) ≡ invalid)
main-Dispatches_example =
    main-Dispatches device (λ i. i) no_nodes 2 34 blank tt 4096 true ((8192, false) ∷ []) mru_name
      (omega arith) (omega arith) (omega arith) accesses-IsTrace
      (
        (λ e. ground (arith, e)),
        (λ e. ground (arith, e)),
        (λ e. ground (arith, e)),
        (λ e. ground (arith, e)),
        (λ e. ground (arith, e)),
      )
