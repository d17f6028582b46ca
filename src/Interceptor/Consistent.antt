-- ===== src/Interceptor/Consistent.antt =====
-- What A1/interceptor.c keeps between two system calls.
use csc_369_operating_system.Common.{ℕ, ◌<◌, Bool, ◌≡◌, ◌≢◌, if◌then◌else◌, ◌==◌, arith}
use csc_369_operating_system.Interceptor.State.{
  State, Kernel, Handler, interceptor, my_syscall, my_exit_group, Entry,
}
use csc_369_operating_system.Interceptor.PidList.{
  contains, add_pid_sysc, check_pid_monitored, del_pid_sysc, destroy_list,
}
use csc_369_operating_system.Interceptor.Command.{start_entry, stop_entry}
use csc_369_operating_system.Interceptor.Effect.{IsQuiet, put_entry, hijacked, released}
use csc_369_operating_system.Interceptor.Watch.{IsValid}

-- The system call table as the kernel had it, with the two entries that the module takes over.
abbrev pub hooked : Kernel → (ℕ → Handler) → ℕ → Handler
hooked k origin n =
    if n == 0 then my_syscall else if n == k.nr_exit_group then my_exit_group else origin n

-- What one entry of the metadata table and of the system call table say of each other.
pub record IsLinked (k : Kernel) (origin : ℕ → Handler) (s : State) (n : ℕ) : Type 0 where
  pub valid : IsValid (s.table n)
  pub in_range : (s.table n).intercepted ≡ 1 → (0 < n) × (n < k.nr_syscalls)
  pub saved : (s.table n).intercepted ≡ 1 → (s.table n).f ≡ hooked k origin n
  pub active :
      s.sys_call_table n ≡ (if (s.table n).intercepted == 1 then interceptor else hooked k origin n)

-- `origin` is the system call table before the module was loaded.
pub record IsConsistent (k : Kernel) (origin : ℕ → Handler) (s : State) : Type 0 where
  pub quiet : IsQuiet s
  pub linked : (n : ℕ) → IsLinked k origin s n
  pub custom : s.orig_custom_syscall ≡ origin 0
  pub exit : s.orig_exit_group ≡ origin k.nr_exit_group

module _ {k : Kernel} {origin : ℕ → Handler} {s : State} (v : IsConsistent k origin s) where
  pub put_entry-IsConsistent :
      (n : ℕ) (e : Entry)
      → IsValid e
      → e.intercepted ≡ (s.table n).intercepted
      → e.f ≡ (s.table n).f
      → IsConsistent k origin (put_entry s n e)
  put_entry-IsConsistent n e w same_flag same_f = record {
    quiet = ground (arith, v.quiet);
    linked = λ m. ground (arith, v.linked m, v.linked n);
    custom = v.custom;
    exit = v.exit;
  }

  pub hijacked-IsConsistent :
      (n : ℕ)
      → 0 < n
      → n < k.nr_syscalls
      → (s.table n).intercepted ≢ 1
      → IsConsistent k origin (hijacked s n)
  hijacked-IsConsistent n lo hi h = record {
    quiet = ground (arith, v.quiet);
    linked = λ m. ground (arith, v.linked m, v.linked n);
    custom = v.custom;
    exit = v.exit;
  }

  pub released-IsConsistent :
      (n : ℕ) → (s.table n).intercepted ≢ 0 → IsConsistent k origin (released s n)
  unfolding destroy_list contains
  released-IsConsistent n h = record {
    quiet = ground (arith, v.quiet);
    linked = λ m. ground (arith, v.linked m, v.linked n);
    custom = v.custom;
    exit = v.exit;
  }

pub start_entry-keeps :
    (memory : Bool) (pid : ℕ) (e : Entry)
    → ((start_entry memory pid e).1.intercepted ≡ e.intercepted)
      × ((start_entry memory pid e).1.f ≡ e.f)
unfolding start_entry add_pid_sysc check_pid_monitored del_pid_sysc destroy_list
start_entry-keeps memory pid e = ground arith

pub stop_entry-keeps :
    (memory : Bool) (pid : ℕ) (e : Entry)
    → ((stop_entry memory pid e).1.intercepted ≡ e.intercepted)
      × ((stop_entry memory pid e).1.f ≡ e.f)
unfolding stop_entry add_pid_sysc check_pid_monitored del_pid_sysc destroy_list
stop_entry-keeps memory pid e = ground arith
