-- ===== src/Interceptor/Exit.antt =====
-- A process that exits: `del_pid` over all lists, and `my_exit_group`.
use csc_369_operating_system.Common.{
  ℕ, zero, suc, ◌<◌, true, false, List, [], ◌∷◌, ◌≡◌, refl, if◌then◌else◌, ◌==◌, ltb, arith,
  Bool-cases, inl, inr, some, update,
}
use csc_369_operating_system.Interceptor.State.{State, Kernel, Context, Handler, Entry}
use csc_369_operating_system.Interceptor.PidList.{
  contains, remove_first, check_pid_monitored, del_pid_sysc, uncount, del_all, del_pid,
}
use csc_369_operating_system.Interceptor.Hooks.{exit_group}
use csc_369_operating_system.Interceptor.Watch.{
  IsValid, Distinct, contains-remove_first, Distinct-remove_first, length-remove_first,
  contains_of_empty,
}
use csc_369_operating_system.Interceptor.Consistent.{IsConsistent}

remove_first_of_absent : (p : ℕ) (l : List ℕ) → contains p l ≡ false → remove_first p l ≡ l
unfolding contains remove_first
remove_first_of_absent p [] h = refl
remove_first_of_absent p (x ∷ l) h = ground (arith, remove_first_of_absent p l)

-- On a list without repetition the walk of `del_pid` takes out one node at most, and does with it
-- what `del_pid_sysc` does.
del_all_lem :
    (pid : ℕ) (l : List ℕ) (e : Entry)
    → Distinct l
    → del_all pid l e ≡ (
      contains pid l,
      record (if contains pid l then uncount e else e) { my_list = remove_first pid l },
    )
unfolding del_all contains remove_first
del_all_lem pid [] e d = refl
del_all_lem pid (x ∷ l) e d = elim (Bool-cases (x == pid)) [
  | inl same ↦ rw (
    same,
    del_all_lem pid l (uncount e) d.1,
    absent same,
    remove_first_of_absent pid l (absent same),
  )
  | inr other ↦ rw (other, del_all_lem pid l e d.1)
]
  where
    absent : (x == pid) ≡ true → contains pid l ≡ false
    absent same = ground (arith, d.0)

del_all-eq-del_pid_sysc :
    (pid : ℕ) (e : Entry)
    → Distinct e.my_list
    → (del_all pid e.my_list e).1 ≡ (del_pid_sysc pid e).1
unfolding del_pid_sysc check_pid_monitored
del_all-eq-del_pid_sysc pid e d =
    ground (arith, del_all_lem pid e.my_list e d, remove_first_of_absent pid e.my_list)

-- One more list: the loop's body for system call `suc m`, after those below it.
del_pid_step :
    (pid m : ℕ) (table before : ℕ → Entry) (n : ℕ)
    → Distinct (table n).my_list
    → before n ≡ (
        if n == 0
        then table n
        else if ltb n (suc m)
        then (del_pid_sysc pid (table n)).1
        else table n)
    → update before (suc m) (del_all pid (table (suc m)).my_list (table (suc m))).1 n ≡ (
        if n == 0
        then table n
        else if ltb n (suc (suc m))
        then (del_pid_sysc pid (table n)).1
        else table n)
del_pid_step pid m table before n d h = ground (arith, del_all-eq-del_pid_sysc pid (table n) d)

-- Where every list is without repetition, `del_pid` does to each list from system call 1 up to the
-- bound what `del_pid_sysc` does to one, and leaves the others alone.
pub del_pid_lem :
    (pid m : ℕ) (table : ℕ → Entry)
    → ((n : ℕ) → Distinct (table n).my_list)
    → (n : ℕ)
    → (del_pid pid m table).1 n
      ≡ (if n == 0 then table n else if ltb n m then (del_pid_sysc pid (table n)).1 else table n)
unfolding del_pid
del_pid_lem pid zero table d n = ground arith
del_pid_lem pid (suc zero) table d n = ground arith
del_pid_lem pid (suc (suc m)) table d n =
    del_pid_step pid m table (del_pid pid (suc m) table).1 n (d n)
      (del_pid_lem pid (suc m) table d n)

del_pid_sysc-IsValid : (pid : ℕ) (e : Entry) → IsValid e → IsValid (del_pid_sysc pid e).1
unfolding del_pid_sysc check_pid_monitored contains
del_pid_sysc-IsValid pid e v = ground (
  arith,
  length-remove_first pid e.my_list,
  Distinct-remove_first pid e.my_list v.distinct,
  contains-remove_first pid 0 e.my_list v.distinct,
  contains_of_empty pid e.my_list,
)

del_pid_sysc-keeps :
    (pid : ℕ) (e : Entry)
    → ((del_pid_sysc pid e).1.intercepted ≡ e.intercepted) × ((del_pid_sysc pid e).1.f ≡ e.f)
unfolding del_pid_sysc
del_pid_sysc-keeps pid e = ground arith

contains-del_pid_sysc :
    (pid q : ℕ) (e : Entry)
    → IsValid e
    → contains q (del_pid_sysc pid e).1.my_list ≡ (if pid == q then false else contains q e.my_list)
unfolding del_pid_sysc check_pid_monitored
contains-del_pid_sysc pid q e v = ground (arith, contains-remove_first pid q e.my_list v.distinct)

module _ {k : Kernel} {origin : ℕ → Handler} {s : State} (v : IsConsistent k origin s)
    (c : Context) where
  -- The state when `my_exit_group` calls the original.
  abbrev exited : State
  exited = record s { table = (del_pid c.pid k.nr_syscalls s.table).1 }

  exited_entry :
      (n : ℕ)
      → exited.table n ≡ (
          if n == 0
          then s.table n
          else if ltb n k.nr_syscalls
          then (del_pid_sysc c.pid (s.table n)).1
          else s.table n)
  exited_entry = del_pid_lem c.pid k.nr_syscalls s.table (λ n. (v.linked n).valid.distinct)

  exited-IsValid : (n : ℕ) → IsValid (exited.table n)
  exited-IsValid n = rw (exited_entry n) (
      ground (arith, del_pid_sysc-IsValid c.pid (s.table n) (v.linked n).valid, (v.linked n).valid))

  exited-keeps : (n : ℕ) → (exited.table n).intercepted ≡ (s.table n).intercepted
  exited-keeps n = rw (exited_entry n) (ground (arith, del_pid_sysc-keeps c.pid (s.table n)))

  exited-keeps_f : (n : ℕ) → (exited.table n).f ≡ (s.table n).f
  exited-keeps_f n = rw (exited_entry n) (ground (arith, del_pid_sysc-keeps c.pid (s.table n)))

  -- In a consistent state `my_exit_group` calls the handler that the kernel had for `exit_group`,
  -- and leaves a consistent state, in which the lists of system calls 1 up to the number of system
  -- calls hold the pids that they held before, less the exiting one.
  pub exit_group-forgets :
      (after : State) × (exit_group k c s ≡ some (origin k.nr_exit_group, after))
      × IsConsistent k origin after
      × ((n q : ℕ)
          → 0 < n
          → n < k.nr_syscalls
          → contains q (after.table n).my_list
            ≡ (if c.pid == q then false else contains q (s.table n).my_list))
  unfolding exit_group
  exit_group-forgets = (
    exited,
    rw v.exit refl,
    record {
      quiet = ground (arith, v.quiet);
      linked = λ n. ground (arith, v.linked n, exited-IsValid n, exited-keeps n, exited-keeps_f n);
      custom = v.custom;
      exit = v.exit;
    },
    λ n q lo hi.
        ground
          (arith, exited_entry n, contains-del_pid_sysc c.pid q (s.table n) (v.linked n).valid),
  )
