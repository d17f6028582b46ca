-- ===== src/Memory/Main/Dispatch.antt =====
-- How main of A3/sim.c ends for the names of the replacement algorithms.
use csc_369_operating_system.Common.{
  ℕ, ltb, ◌+◌, ◌^◌, ◌≤◌, Bool, true, false, List, [], ◌∷◌, Option, none, some, map, ◌≡◌, ◌≢◌, refl,
  sym, ap, ◌∙◌, arith, inl, inr, Bool-cases, fun_ext,
}
use csc_369_operating_system.Memory.Bitmap.Bits.{Bitmap, bitmap_create}
use csc_369_operating_system.Memory.Bitmap.Marks.{bitmap_create-clear}
use csc_369_operating_system.Memory.Machine.{Page, Device, Machine}
use csc_369_operating_system.Memory.PageTable.Translate.{replay_trace}
use csc_369_operating_system.Memory.Replay.{IsTrace}
use csc_369_operating_system.Memory.Policy.Clock.{clock}
use csc_369_operating_system.Memory.Policy.Lru.{Lru, lru}
use csc_369_operating_system.Memory.Policy.Rand.{rand}
use csc_369_operating_system.Memory.Policy.Opt.{Opt, opt_init-fault}
use csc_369_operating_system.Memory.Boot.{boot, simulate, no_frames, simulate-Completes}
use csc_369_operating_system.Memory.Main.{
  Ending, usage, invalid, fault, finished, Algorithm, same_name, choose, swap_init, init_pagetable,
  rand_name, lru_name, fifo_name, clock_name, opt_name, rand_entry, lru_entry, clock_entry,
  opt_entry, algs, run_with, main,
}

same_name-equal : (a b : List ℕ) → same_name a b ≡ true → a ≡ b
unfolding same_name
same_name-equal [] [] e = refl
same_name-equal [] (b ∷ bs) e = absurd (ground (arith, e))
same_name-equal (a ∷ more) [] e = absurd (ground (arith, e))
same_name-equal (a ∷ more) (b ∷ bs) e =
    let here : a ≡ b = ground (arith, e) in
    let rest = same_name-equal more bs (ground (arith, e)) in
    ap (λ x. x ∷ more) here ∙ ap (λ xs. b ∷ xs) rest

same_name-differs : (a b : List ℕ) → b ≢ a → same_name a b ≡ false
same_name-differs a b ne = elim (Bool-cases (same_name a b)) [
  | inl e ↦ absurd (ne (sym (same_name-equal a b e)))
  | inr e ↦ e
]

-- A name that is not in `algs`.
abbrev pub IsUnknown : List ℕ → Type 0
IsUnknown name =
    (name ≢ rand_name)
    × (name ≢ lru_name)
    × (name ≢ fifo_name)
    × (name ≢ clock_name)
    × (name ≢ opt_name)

module _ {F : Type 0} where
  choose-unknown :
      (name : List ℕ) (numbers : ℕ → ℕ) (nodes : Opt) (lines : List (ℕ × Bool))
      → IsUnknown name
      → choose name (algs {F = F} numbers nodes lines) ≡ none
  unfolding choose algs
  choose-unknown name numbers nodes lines (r, l, f, c, o) =
      rw
        (
          same_name-differs rand_name name r,
          same_name-differs lru_name name l,
          same_name-differs fifo_name name f,
          same_name-differs clock_name name c,
          same_name-differs opt_name name o,
        )
        refl

  -- The page directory was cleared when the program started.
  boot-clear :
      {P : Type 0} (memsize : ℕ) (memory : ℕ → Page) (b : Bitmap) (file : F) (a : P)
      → (let m = boot memsize memory b file a in record m { pgdir = init_pagetable m.pgdir })
        ≡ boot memsize memory b file a
  unfolding boot init_pagetable
  boot-clear memsize memory b file a =
      ap (λ g. record (boot memsize memory b file a) { pgdir = g })
        (fun_ext λ i. elim (Bool-cases (ltb i 4096)) [ inl e ↦ rw e refl | inr e ↦ rw e refl ])

  run_with-finished :
      (d : Device F) (a : Algorithm F) (globals : a.State) (memsize swapsize : ℕ)
      (memory : ℕ → Page) (file : F) (b : Bitmap) (lines : List (ℕ × Bool)) (m : Machine F a.State)
      → a.init a.globals ≡ some globals
      → bitmap_create swapsize ≡ some b
      → simulate d a.functions memsize swapsize memory file globals lines ≡ some m
      → run_with d a memsize memory file b lines ≡ finished a.State m
  unfolding run_with simulate
  run_with-finished d a globals memsize swapsize memory file b lines m begun made result =
      let m0 = boot memsize memory b file globals in
      let replayed : replay_trace d a.functions lines
            (record m0 { pgdir = init_pagetable m0.pgdir })
          ≡ some m =
        ap (replay_trace d a.functions lines) (boot-clear memsize memory b file globals)
        ∙ (rw (made, simulate) at result) in
      rw (begun, replayed, run_with) refl

  -- Where the swap file is made, the bitmap is created, and the name is in the table.
  main-chosen :
      (d : Device F) (table : List (Algorithm F)) (name : List ℕ) (a : Algorithm F)
      (memsize swapsize : ℕ) (memory : ℕ → Page) (file : F) (b : Bitmap) (lines : List (ℕ × Bool))
      → bitmap_create swapsize ≡ some b
      → choose name table ≡ some a
      → main d table (some name) memsize swapsize memory (some file) lines
        ≡ run_with d a memsize memory file b lines
  unfolding main swap_init
  main-chosen d table name a memsize swapsize memory file b lines made chosen =
      rw (made, chosen, main) refl

  -- main with the table of the program and a swap file.
  abbrev pub run_main :
      Device F
      → (ℕ → ℕ)
      → Opt
      → ℕ
      → ℕ
      → (ℕ → Page)
      → F
      → List (ℕ × Bool)
      → Option (List ℕ)
      → Ending F
  run_main d numbers nodes memsize swapsize memory file lines replacement_alg =
      main d (algs numbers nodes lines) replacement_alg memsize swapsize memory (some file) lines

  -- With `-a` lru, clock or rand, where the swap file is made, from two to 2 ^ 20 frames, a swap space
  -- whose size does not overflow, and a trace of one or more accesses to addresses of 36 bits, main
  -- comes to the end of the replay, with the machine of `simulate` for that algorithm. With opt it
  -- follows a null pointer in `opt_init`, and without a name, or with one that is not in `algs`, it
  -- exits before the replay.
  pub main-Dispatches :
      (d : Device F) (numbers : ℕ → ℕ) (nodes : Opt) (memsize swapsize : ℕ) (memory : ℕ → Page)
      (file : F) (vaddr : ℕ) (write : Bool) (rest : List (ℕ × Bool)) (name : List ℕ)
      → 2 ≤ memsize
      → memsize ≤ 2 ^ 20
      → swapsize + 32 ≤ 2 ^ 32
      → IsTrace ((vaddr, write) ∷ rest)
      → IsUnknown name
      → ((m : Machine F Lru) × (run_main d numbers nodes memsize swapsize memory file
              ((vaddr, write) ∷ rest)
              (some lru_name)
            ≡ finished Lru m)
          × (simulate d lru memsize swapsize memory file no_frames ((vaddr, write) ∷ rest)
              ≡ some m))
        × ((m : Machine F ℕ) × (run_main d numbers nodes memsize swapsize memory file
                ((vaddr, write) ∷ rest)
                (some clock_name)
              ≡ finished ℕ m)
            × (simulate d clock memsize swapsize memory file 0 ((vaddr, write) ∷ rest) ≡ some m))
        × ((m : Machine F (ℕ → ℕ)) × (run_main d numbers nodes memsize swapsize memory file
                ((vaddr, write) ∷ rest)
                (some rand_name)
              ≡ finished (ℕ → ℕ) m)
            × (simulate d rand memsize swapsize memory file numbers ((vaddr, write) ∷ rest)
                ≡ some m))
        × (run_main d numbers nodes memsize swapsize memory file
              ((vaddr, write) ∷ rest)
              (some opt_name)
            ≡ fault)
        × (run_main d numbers nodes memsize swapsize memory file ((vaddr, write) ∷ rest) none
            ≡ usage)
        × (run_main d numbers nodes memsize swapsize memory file ((vaddr, write) ∷ rest) (some name)
            ≡ invalid)
  unfolding main swap_init algs choose same_name run_with
  main-Dispatches d numbers nodes memsize swapsize memory file vaddr write rest name several small
        swap trace unknown =
      let lines = (vaddr, write) ∷ rest in
      let table = algs numbers nodes lines in
      let (b, made, size, v, clear) = bitmap_create-clear swapsize swap in
      let ((m1, e1, c1, r1), (m2, e2, c2, r2), (m3, e3, c3, r3)) =
        simulate-Completes d memsize swapsize memory file numbers lines several small swap trace in
      (
        (
          m1,
          main-chosen d table lru_name lru_entry memsize swapsize memory file b lines made refl
              ∙ run_with-finished d lru_entry no_frames memsize swapsize memory file b lines m1 refl
                  made e1,
          e1,
        ),
        (
          m2,
          main-chosen d table clock_name clock_entry memsize swapsize memory file b lines made refl
              ∙ run_with-finished d clock_entry 0 memsize swapsize memory file b lines m2 refl made
                  e2,
          e2,
        ),
        (
          m3,
          main-chosen d table rand_name (rand_entry numbers) memsize swapsize memory file b lines
                made refl
              ∙ run_with-finished d (rand_entry numbers) numbers memsize swapsize memory file b
                  lines m3 refl made e3,
          e3,
        ),
        (main-chosen d table opt_name (opt_entry nodes lines) memsize swapsize memory file b lines
              made refl
            ∙ rw (opt_init-fault vaddr (map (λ line. line.0) rest) nodes, run_with) refl),
        rw (made, main) refl,
        rw (made, choose-unknown name numbers nodes lines unknown, main) refl,
      )
