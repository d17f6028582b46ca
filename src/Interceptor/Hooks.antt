-- ===== src/Interceptor/Hooks.antt =====
-- What A1/interceptor.c puts into the system call table, and how the module comes and goes.
use csc_369_operating_system.Common.{
  ℕ, zero, suc, ◌||◌, [], ◌∷◌, Run, pure, gets, modify, some, ◌>>=◌, ◌>>◌, if◌then◌else◌, ◌==◌, ltb,
  update,
}
use csc_369_operating_system.Interceptor.State.{
  State, Kernel, Context, Entry, Handler, my_custom_syscall, lock_my_table, unlock_my_table,
  lock_sys_call_table, unlock_sys_call_table, set_addr_rw, set_addr_ro, store_handler,
}
use csc_369_operating_system.Interceptor.PidList.{check_pid_monitored, del_pid, destroy_list}

-- `log_message`, without the registers that it prints behind the system call's number.
unfoldable pub log_message : ℕ → ℕ → Run State (Unit {0})
log_message pid syscall s = some (tt, record s { log = (pid, syscall) ∷ s.log })

-- `interceptor`: the result is the handler that it calls, after the lock is released.
unfoldable pub interceptor : Context → ℕ → Run State Handler
unfolding lock_my_table unlock_my_table log_message check_pid_monitored
interceptor c syscall = do
  lock_my_table
  e ← gets (λ s. s.table syscall)
  if e.monitored == 0
      then (do unlock_my_table; pure e.f)
      else if e.monitored == 2 || check_pid_monitored e c.pid
      then (do log_message c.pid syscall; unlock_my_table; pure e.f)
      else (do unlock_my_table; pure e.f)

-- `my_exit_group`: the result is the handler that it calls.
unfoldable pub exit_group : Kernel → Context → Run State Handler
unfolding del_pid
exit_group k c = do
  modify (λ s. record s { table = (del_pid c.pid k.nr_syscalls s.table).1 })
  gets (λ s. s.orig_exit_group)

-- The body of the loop of `deinterceptor`, for system call `n`.
unfoldable pub deintercept_one : ℕ → Run State (Unit {0})
unfolding store_handler
deintercept_one n = do
  e ← gets (λ s. s.table n)
  if e.intercepted == 0 then pure tt else do
    store_handler n e.f
    if e.monitored == 0
        then pure tt
        else modify (λ s. record s { table = update s.table n (destroy_list e) })

-- `deinterceptor`: from system call 1 up to the bound.
unfoldable pub deinterceptor : ℕ → Run State (Unit {0})
deinterceptor zero = pure tt
deinterceptor (suc zero) = pure tt
deinterceptor (suc (suc n)) = do deinterceptor (suc n); deintercept_one (suc n)

-- The loop of `init_function`: `INIT_LIST_HEAD` of each list from system call 1 on.
unfoldable pub init_lists : ℕ → (ℕ → Entry) → ℕ → Entry
init_lists n table i =
    if i == 0 then table i else if ltb i n then record (table i) { my_list = [] } else table i

unfoldable pub init_function : Kernel → Run State (Unit {0})
unfolding lock_my_table unlock_my_table lock_sys_call_table unlock_sys_call_table set_addr_rw
    set_addr_ro store_handler init_lists
init_function k = do
  lock_my_table
  modify (λ s. record s { table = init_lists k.nr_syscalls s.table })
  unlock_my_table
  lock_sys_call_table
  set_addr_rw
  modify (λ s. record s { orig_custom_syscall = s.sys_call_table my_custom_syscall })
  store_handler my_custom_syscall Handler.my_syscall
  modify (λ s. record s { orig_exit_group = s.sys_call_table k.nr_exit_group })
  store_handler k.nr_exit_group Handler.my_exit_group
  set_addr_ro
  unlock_sys_call_table

unfoldable pub exit_function : Kernel → Run State (Unit {0})
unfolding lock_sys_call_table unlock_sys_call_table set_addr_rw set_addr_ro store_handler
exit_function k = do
  lock_sys_call_table
  set_addr_rw
  custom ← gets (λ s. s.orig_custom_syscall)
  store_handler my_custom_syscall custom
  orig ← gets (λ s. s.orig_exit_group)
  store_handler k.nr_exit_group orig
  deinterceptor k.nr_syscalls
  set_addr_ro
  unlock_sys_call_table
