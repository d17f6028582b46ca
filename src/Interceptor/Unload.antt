-- ===== src/Interceptor/Unload.antt =====
-- The module's life: loading it, any sequence of system calls, and unloading it.
use csc_369_operating_system.Common.{
  ℕ, zero, suc, ◌<◌, pos, true, false, [], ◌≡◌, ◌≢◌, refl, if◌then◌else◌, ◌==◌, ltb, arith, ◌&&◌,
  some, update,
}
use csc_369_operating_system.Interceptor.State.{State, Kernel, Handler, my_syscall, my_exit_group}
use csc_369_operating_system.Interceptor.PidList.{contains, destroy_list}
use csc_369_operating_system.Interceptor.Hooks.{
  deinterceptor, deintercept_one, init_lists, init_function, exit_function,
}
use csc_369_operating_system.Interceptor.Effect.{IsQuiet}
use csc_369_operating_system.Interceptor.Consistent.{IsConsistent}

-- The state in which the module is loaded: no lock is held, and the metadata table, a static
-- array, is all zero; lists that `init_function` does not set up are empty.
pub record IsFresh (k : Kernel) (origin : ℕ → Handler) (s : State) : Type 0 where
  pub quiet : IsQuiet s
  pub blank :
      (n : ℕ)
      → ((s.table n).intercepted ≡ 0)
        × ((s.table n).monitored ≡ 0)
        × ((s.table n).listcount ≡ pos 0)
  pub cleared : (n : ℕ) → ¬ ((0 < n) × (n < k.nr_syscalls)) → (s.table n).my_list ≡ []
  pub untouched : (n : ℕ) → s.sys_call_table n ≡ origin n

abbrev loaded : Kernel → State → State
loaded k s = record s {
  table = init_lists k.nr_syscalls s.table;
  sys_call_table = update (update s.sys_call_table 0 my_syscall) k.nr_exit_group my_exit_group;
  orig_custom_syscall = s.sys_call_table 0;
  orig_exit_group = update s.sys_call_table 0 my_syscall k.nr_exit_group;
}

init_function_lem : (k : Kernel) (s : State) → IsQuiet s → init_function k s ≡ some (tt, loaded k s)
unfolding init_function
init_function_lem k s q = ground arith

-- Loading the module in a fresh state, on a kernel where `exit_group` is not system call 0, takes
-- no fault and leaves a consistent state.
pub init_function-IsConsistent :
    {k : Kernel} {origin : ℕ → Handler} {s : State}
    → IsFresh k origin s
    → k.nr_exit_group ≢ 0
    → (after : State) × (init_function k s ≡ some (tt, after)) × IsConsistent k origin after
unfolding init_lists contains
init_function-IsConsistent {k} {origin} {s} v ne = (
  loaded k s,
  init_function_lem k s v.quiet,
  record {
    quiet = ground (arith, v.quiet);
    linked = λ n. ground (arith, v.blank n, v.cleared n, v.untouched n);
    custom = v.untouched 0;
    exit = ground (arith, v.untouched k.nr_exit_group);
  },
)

-- What the loop of `deinterceptor` below `m` has done to `s`.
record Deintercepted (m : ℕ) (s after : State) : Type 0 where
  handlers :
      (n : ℕ)
      → after.sys_call_table n ≡ (
          if n == 0
          then s.sys_call_table n
          else if ltb n m
          then (if (s.table n).intercepted == 0 then s.sys_call_table n else (s.table n).f)
          else s.sys_call_table n)
  entries :
      (n : ℕ)
      → after.table n ≡ (
          if n == 0
          then s.table n
          else if ltb n m
          then (if (s.table n).intercepted == 0
              then s.table n
              else if (s.table n).monitored == 0
              then s.table n
              else destroy_list (s.table n))
          else s.table n)
  pte_kept : after.pte ≡ s.pte
  lock_kept : after.my_table_lock ≡ s.my_table_lock

one_done : ℕ → State → State
one_done n t = record t {
  sys_call_table =
      (if (t.table n).intercepted == 0
        then t.sys_call_table
        else update t.sys_call_table n (t.table n).f);
  table =
      (if (t.table n).intercepted == 0
        then t.table
        else if (t.table n).monitored == 0
        then t.table
        else update t.table n (destroy_list (t.table n)));
}

deintercept_one_lem :
    (n : ℕ) (t : State) → t.pte.rw ≡ true → deintercept_one n t ≡ some (tt, one_done n t)
unfolding deintercept_one one_done
deintercept_one_lem n t w = ground arith

one_done-Deintercepted :
    (m : ℕ) (s t : State)
    → Deintercepted (suc m) s t
    → Deintercepted (suc (suc m)) s (one_done (suc m) t)
unfolding one_done
one_done-Deintercepted m s t d = record {
  handlers = λ n. ground (arith, d.handlers n, d.entries (suc m), d.entries n);
  entries = λ n. ground (arith, d.entries (suc m), d.entries n);
  pte_kept = d.pte_kept;
  lock_kept = d.lock_kept;
}

deinterceptor_lem :
    (m : ℕ) (s : State)
    → s.pte.rw ≡ true
    → (t : State) × (deinterceptor m s ≡ some (tt, t)) × Deintercepted m s t
unfolding deinterceptor
deinterceptor_lem zero s w = (
  s,
  refl,
  record {
    handlers = λ n. ground arith;
    entries = λ n. ground arith;
    pte_kept = refl;
    lock_kept = refl;
  },
)
deinterceptor_lem (suc zero) s w = (
  s,
  refl,
  record {
    handlers = λ n. ground arith;
    entries = λ n. ground arith;
    pte_kept = refl;
    lock_kept = refl;
  },
)
deinterceptor_lem (suc (suc m)) s w =
    let (t, ran, d) = deinterceptor_lem (suc m) s w in
    (
      one_done (suc m) t,
      ground (arith, ran, d.pte_kept, deintercept_one_lem (suc m) t),
      one_done-Deintercepted m s t d,
    )

-- The state in which `exit_function` calls `deinterceptor`.
abbrev unhooked : Kernel → State → State
unhooked k s = record s {
  sys_call_table_lock = true;
  pte = record { rw = true; rest = s.pte.rest };
  sys_call_table =
      update (update s.sys_call_table 0 s.orig_custom_syscall) k.nr_exit_group s.orig_exit_group;
}

abbrev finished : State → State
finished t = record t {
  pte = record { rw = false; rest = t.pte.rest };
  sys_call_table_lock = false;
}

exit_function_lem :
    (k : Kernel) (s t : State)
    → IsQuiet s
    → deinterceptor k.nr_syscalls (unhooked k s) ≡ some (tt, t)
    → exit_function k s ≡ some (tt, finished t)
unfolding exit_function
exit_function_lem k s t q ran = ground arith

-- Unloading the module from a consistent state takes no fault and leaves no lock held and the
-- system call table read-only. The system call table is then as it was before the module was
-- loaded, but for `exit_group`: if that is intercepted at the time, its entry is left pointing
-- to the module's own `my_exit_group`.
pub exit_function-restores :
    {k : Kernel} {origin : ℕ → Handler} {s : State}
    → IsConsistent k origin s
    → (after : State) × (exit_function k s ≡ some (tt, after))
      × IsQuiet after
      × ((n : ℕ)
          → after.sys_call_table n ≡ (
              if (n == k.nr_exit_group) && ((s.table n).intercepted == 1)
              then my_exit_group
              else origin n))
exit_function-restores {k} {origin} {s} v =
    let (t, ran, d) = deinterceptor_lem k.nr_syscalls (unhooked k s) refl in
    (
      finished t,
      exit_function_lem k s t v.quiet ran,
      ground (arith, v.quiet, d.lock_kept, d.pte_kept),
      λ n. ground (arith, v.linked n, d.handlers n, v.custom, v.exit),
    )
