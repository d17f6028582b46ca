-- ===== src/Interceptor/Tests.antt =====
-- Runs of the interceptor on a small kernel, and its theorems at concrete inputs.
use csc_369_operating_system.Common.{
  ℕ, ◌<◌, pos, true, false, [], ◌∷◌, ◌≡◌, refl, if◌then◌else◌, ◌==◌, arith, some, none, ltb, ◌&&◌,
}
use mathlib.Core.Bool.{false≢true}
use csc_369_operating_system.Interceptor.State.{
  State, Entry, Kernel, Context, Handler, original, my_exit_group, interceptor, ebusy, enomem,
}
use csc_369_operating_system.Interceptor.PidList.{contains, check_pid_monitored, add_pid_sysc}
use csc_369_operating_system.Interceptor.Command
use csc_369_operating_system.Interceptor.Command.{start_entry, stop_entry}
use csc_369_operating_system.Interceptor.Hooks
use csc_369_operating_system.Interceptor.Hooks.{init_function, exit_function, exit_group}
use csc_369_operating_system.Interceptor.Effect.{IsQuiet}
use csc_369_operating_system.Interceptor.Watch.{
  IsValid, watched, start_entry-watched, stop_entry-watched, start_entry-result, stop_entry-result,
}
use csc_369_operating_system.Interceptor.Consistent.{IsConsistent, hooked}
use csc_369_operating_system.Interceptor.Safety.{Completes, my_syscall-Completes}
use csc_369_operating_system.Interceptor.Exit.{exit_group-forgets}
use csc_369_operating_system.Interceptor.Logging.{logged, interceptor-watched}
use csc_369_operating_system.Interceptor.Unload.{
  IsFresh, init_function-IsConsistent, exit_function-restores,
}
use csc_369_operating_system.Interceptor.Session.{load, session-restores}

abbrev kernel : Kernel
kernel = record {
  nr_syscalls = 8;
  nr_exit_group = 5;
  owner = λ p. if ltb p 4 then some p else none;
}

abbrev origin : ℕ → Handler
origin n = original n

abbrev unused : Entry
unused = record { f = original 0; intercepted = 0; monitored = 0; listcount = pos 0; my_list = [] }

abbrev fresh : State
fresh = record {
  table = λ n. unused;
  sys_call_table = origin;
  my_table_lock = false;
  sys_call_table_lock = false;
  pte = record { rw = false; rest = 1 };
  orig_custom_syscall = original 0;
  orig_exit_group = original 0;
  log = [];
}

fresh-IsFresh : IsFresh kernel origin fresh
fresh-IsFresh = record {
  quiet = ground arith;
  blank = λ n. (refl, refl, refl);
  cleared = λ n h. refl;
  untouched = λ n. refl;
}

-- Loaded, with system call 3 intercepted and monitored for all pids but 2, and 5 for pid 1.
abbrev ready : State
ready = record fresh {
  table = λ n.
      if n == 3
      then record {
        f = original 3;
        intercepted = 1;
        monitored = 2;
        listcount = pos 1;
        my_list = 2 ∷ [];
      }
      else if n == 5
      then record {
        f = my_exit_group;
        intercepted = 1;
        monitored = 1;
        listcount = pos 1;
        my_list = 1 ∷ [];
      }
      else unused;
  sys_call_table =
      λ n. if n == 3 then interceptor else if n == 5 then interceptor else hooked kernel origin n;
  orig_custom_syscall = original 0;
  orig_exit_group = original 5;
}

ready-IsConsistent : IsConsistent kernel origin ready
unfolding contains
ready-IsConsistent = record {
  quiet = ground arith;
  linked = λ n. ground arith;
  custom = refl;
  exit = refl;
}

abbrev root : Context
root = record { pid = 1; uid = 0; memory = true }

my_syscall-Completes_example :
    Completes kernel origin ready (Command.my_syscall kernel root (pos 3) (pos 3) (pos 2) ready)
my_syscall-Completes_example =
    my_syscall-Completes ready-IsConsistent root refl (pos 3) (pos 3) (pos 2)

abbrev blacklist : Entry
blacklist = ready.table 3

blacklist-IsValid : IsValid blacklist
unfolding contains
blacklist-IsValid = ground arith

start_entry-watched_example : watched (start_entry true 2 blacklist).1 2 ≡ true
unfolding contains start_entry check_pid_monitored
start_entry-watched_example =
    start_entry-watched true 2 blacklist 2 blacklist-IsValid refl (omega arith)

stop_entry-watched_example : watched (stop_entry true 3 blacklist).1 2 ≡ false
unfolding contains stop_entry check_pid_monitored add_pid_sysc
stop_entry-watched_example =
    stop_entry-watched true 3 blacklist 2 blacklist-IsValid refl (omega arith)

start_entry-result_example : (start_entry true 3 blacklist).0 ≡ ebusy
unfolding contains
start_entry-result_example = start_entry-result true 3 blacklist blacklist-IsValid

stop_entry-result_example : (stop_entry false 3 blacklist).0 ≡ enomem
unfolding contains
stop_entry-result_example = stop_entry-result false 3 blacklist blacklist-IsValid

abbrev booted : State
booted = (init_function-IsConsistent {k = kernel} fresh-IsFresh (omega arith)).0

exit_group-forgets_example :
    (after : State) × (exit_group kernel root ready ≡ some (original 5, after))
    × IsConsistent kernel origin after
    × ((n q : ℕ)
        → 0 < n
        → n < 8
        → contains q (after.table n).my_list
          ≡ (if 1 == q then false else contains q (ready.table n).my_list))
exit_group-forgets_example = exit_group-forgets ready-IsConsistent root

interceptor-watched_example :
    Hooks.interceptor root 3 ready ≡ some (original 3, logged root 3 ready)
unfolding contains
interceptor-watched_example =
    interceptor-watched ready-IsConsistent root 3 refl (λ h. false≢true h.1)

exit_function-restores_example :
    (after : State) × (exit_function kernel ready ≡ some (tt, after))
    × IsQuiet after
    × ((n : ℕ)
        → after.sys_call_table n
          ≡ (if (n == 5) && ((ready.table n).intercepted == 1) then my_exit_group else origin n))
exit_function-restores_example = exit_function-restores ready-IsConsistent

booted_run : init_function kernel fresh ≡ some (tt, booted)
booted_run = (init_function-IsConsistent {k = kernel} fresh-IsFresh (omega arith)).1

session-restores_example :
    (after : State) × (exit_function kernel booted ≡ some (tt, after))
    × IsQuiet after
    × ((n : ℕ)
        → after.sys_call_table n
          ≡ (if (n == 5) && ((booted.table n).intercepted == 1) then my_exit_group else origin n))
session-restores_example = session-restores (omega arith) (load fresh-IsFresh booted_run)
