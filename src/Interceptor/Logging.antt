-- ===== src/Interceptor/Logging.antt =====
-- What `interceptor` logs and calls when a process makes an intercepted system call.
use csc_369_operating_system.Common.{
  ℕ, true, false, ◌∷◌, ◌≡◌, if◌then◌else◌, ◌==◌, arith, some, ◌||◌,
}
use csc_369_operating_system.Interceptor.State.{State, Kernel, Context, Handler}
use csc_369_operating_system.Interceptor.PidList.{contains, check_pid_monitored}
use csc_369_operating_system.Interceptor.Hooks.{interceptor}
use csc_369_operating_system.Interceptor.Effect.{IsQuiet}
use csc_369_operating_system.Interceptor.Watch.{watched}
use csc_369_operating_system.Interceptor.Consistent.{IsConsistent, hooked}

abbrev pub logged : Context → ℕ → State → State
logged c n s = record s { log = (c.pid, n) ∷ s.log }

pub interceptor_lem :
    (c : Context) (n : ℕ) (s : State)
    → IsQuiet s
    → interceptor c n s
      ≡ some (
        (s.table n).f,
        if (s.table n).monitored == 0
            then s
            else if (s.table n).monitored == 2 || contains c.pid (s.table n).my_list
            then logged c n s
            else s,
      )
unfolding interceptor check_pid_monitored
interceptor_lem c n s q = ground arith

-- In a consistent state a call of an intercepted system call goes on to the handler that stood in
-- the system call table before; it writes one line, for the caller and this system call, if the
-- bookkeeping watches the caller, and none if it does not, unless the caller is on the
-- blacklist of a system call that is monitored for all pids. Nothing else of the state changes.
pub interceptor-watched :
    {k : Kernel} {origin : ℕ → Handler} {s : State}
    → IsConsistent k origin s
    → (c : Context) (n : ℕ) → (s.table n).intercepted ≡ 1
    → ¬ (((s.table n).monitored ≡ 2) × (contains c.pid (s.table n).my_list ≡ true))
    → interceptor c n s
      ≡ some (hooked k origin n, if watched (s.table n) c.pid then logged c n s else s)
interceptor-watched {k} {origin} {s} v c n on open_list =
    ground (arith, interceptor_lem c n s v.quiet, v.linked n, open_list)

-- On the blacklist of a system call that is monitored for all pids: the bookkeeping leaves the
-- caller out, and its call is logged all the same.
pub interceptor-blacklisted :
    {k : Kernel} {origin : ℕ → Handler} {s : State}
    → IsConsistent k origin s
    → (c : Context) (n : ℕ) → (s.table n).intercepted ≡ 1
    → (s.table n).monitored ≡ 2
    → contains c.pid (s.table n).my_list ≡ true
    → (watched (s.table n) c.pid ≡ false)
      × (interceptor c n s ≡ some (hooked k origin n, logged c n s))
interceptor-blacklisted {k} {origin} {s} v c n on all listed =
    ground (arith, interceptor_lem c n s v.quiet, v.linked n)
