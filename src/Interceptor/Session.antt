-- ===== src/Interceptor/Session.antt =====
-- Every state that loading the module, system calls and exiting processes can bring about.
use csc_369_operating_system.Common.{
  ℕ, ℤ, Bool, true, false, ◌≡◌, ◌≢◌, if◌then◌else◌, ◌==◌, arith, ◌&&◌, ◌||◌, some, Option, subst,
}
use csc_369_operating_system.Interceptor.State.{
  State, Kernel, Context, Handler, Errno, my_exit_group,
}
use csc_369_operating_system.Interceptor.PidList.{contains}
use csc_369_operating_system.Interceptor.Command
use csc_369_operating_system.Interceptor.Hooks.{exit_group, init_function, exit_function}
use csc_369_operating_system.Interceptor.Hooks
use csc_369_operating_system.Interceptor.Effect.{IsQuiet}
use csc_369_operating_system.Interceptor.Consistent.{IsConsistent}
use csc_369_operating_system.Interceptor.Safety.{my_syscall-Completes}
use csc_369_operating_system.Interceptor.Exit.{exit_group-forgets}
use csc_369_operating_system.Interceptor.Logging.{interceptor_lem, logged}
use csc_369_operating_system.Interceptor.Unload.{
  IsFresh, init_function-IsConsistent, exit_function-restores,
}

pub data Reach (k : Kernel) (origin : ℕ → Handler) : State → Type 0 where
  load : {s t : State} → IsFresh k origin s → init_function k s ≡ some (tt, t) → Reach k origin t
  command :
      {s t : State}
      → Reach k origin s
      → (c : Context) (uid : ℕ) → k.owner c.pid ≡ some uid
      → (cmd n pid : ℤ) (r : Errno) → Command.my_syscall k c cmd n pid s ≡ some (r, t)
      → Reach k origin t
  call :
      {s t : State}
      → Reach k origin s
      → (c : Context) (n : ℕ) (h : Handler) → Hooks.interceptor c n s ≡ some (h, t)
      → Reach k origin t
  leave :
      {s t : State}
      → Reach k origin s
      → (c : Context) (h : Handler) → exit_group k c s ≡ some (h, t)
      → Reach k origin t

same_state :
    {A : Type 0} {o : Option (A × State)} {a b : A} {s t : State}
    → o ≡ some (a, s)
    → o ≡ some (b, t)
    → s ≡ t
same_state p q = cc

module _ {k : Kernel} {origin : ℕ → Handler} where
  logged-IsConsistent :
      {s : State} (c : Context) (n : ℕ)
      → IsConsistent k origin s
      → IsConsistent k origin (logged c n s)
  logged-IsConsistent c n v = record {
    quiet = ground (arith, v.quiet);
    linked = λ m. ground (arith, v.linked m);
    custom = v.custom;
    exit = v.exit;
  }

  if-IsConsistent :
      (b : Bool) {s t : State}
      → IsConsistent k origin s
      → IsConsistent k origin t
      → IsConsistent k origin (if b then s else t)
  if-IsConsistent true v w = v
  if-IsConsistent false v w = w

  call-IsConsistent :
      {s t : State} (c : Context) (n : ℕ) (h : Handler)
      → IsConsistent k origin s
      → Hooks.interceptor c n s ≡ some (h, t)
      → IsConsistent k origin t
  call-IsConsistent {s} c n h v e =
      subst (IsConsistent k origin) (same_state (interceptor_lem c n s v.quiet) e) (
        if-IsConsistent ((s.table n).monitored == 0) v (
          if-IsConsistent ((s.table n).monitored == 2 || contains c.pid (s.table n).my_list)
            (logged-IsConsistent c n v) v))

  Reach-IsConsistent :
      k.nr_exit_group ≢ 0 → {s : State} → Reach k origin s → IsConsistent k origin s
  Reach-IsConsistent ne (load fresh e) =
      let (t, ran, v) = init_function-IsConsistent fresh ne in
      subst (IsConsistent k origin) (same_state ran e) v
  Reach-IsConsistent ne (command r c uid known cmd n pid result e) =
      let v = my_syscall-Completes (Reach-IsConsistent ne r) c known cmd n pid in
      subst (IsConsistent k origin) (same_state v.returns e) v.consistent
  Reach-IsConsistent ne (call r c n h e) = call-IsConsistent c n h (Reach-IsConsistent ne r) e
  Reach-IsConsistent ne (leave r c h e) =
      let (t, ran, v, _) = exit_group-forgets (Reach-IsConsistent ne r) c in
      subst (IsConsistent k origin) (same_state ran e) v

  -- After the module is loaded, any sequence of commands, intercepted calls and exits, and an
  -- unload, the system call table is as it was before, unless `exit_group` is intercepted when
  -- the module is unloaded: its entry is then left pointing to `my_exit_group`. The unload takes
  -- no fault. This holds on every kernel where `exit_group` is not system call 0.
  pub session-restores :
      {s : State}
      → k.nr_exit_group ≢ 0
      → Reach k origin s
      → (after : State) × (exit_function k s ≡ some (tt, after))
        × IsQuiet after
        × ((n : ℕ)
            → after.sys_call_table n ≡ (
                if (n == k.nr_exit_group) && ((s.table n).intercepted == 1)
                then my_exit_group
                else origin n))
  session-restores ne r = exit_function-restores (Reach-IsConsistent ne r)
