-- ===== src/Interceptor/Command.antt =====
-- The four commands of `my_syscall` in A1/interceptor.c.
use csc_369_operating_system.Common.{
  ℕ, ◌-◌, ℤ, is_negative, to_ℕ, equals, exceeds, Bool, true, ◌||◌, none, some, Run, pure, gets,
  ◌>>=◌, ◌>>◌, if◌then◌else◌, ◌==◌, fault,
}
use csc_369_operating_system.Common.{Bool, true}
use csc_369_operating_system.Interceptor.State.{
  State, Kernel, Context, Entry, Errno, success, einval, eperm, ebusy, enomem, failed,
  my_custom_syscall, interceptor, lock_my_table, unlock_my_table, lock_sys_call_table,
  unlock_sys_call_table, set_addr_rw, set_addr_ro, store_handler, store_entry,
}
use csc_369_operating_system.Interceptor.PidList.{
  add_pid_sysc, check_pid_monitored, del_pid_sysc, destroy_list,
}

unfoldable pub check_valid_syscall : Kernel → ℤ → Errno
check_valid_syscall k syscall =
    if is_negative syscall
      || exceeds syscall (k.nr_syscalls - 1)
      || equals syscall my_custom_syscall
    then einval
    else success

unfoldable pub check_valid_pid : Kernel → ℤ → Errno
check_valid_pid k pid = if is_negative pid then einval else elim (k.owner (to_ℕ pid)) [
  | none ↦ if equals pid 0 then success else einval
  | some u ↦ success
]

-- A pid with no task is a null pointer here: a fault.
unfoldable pub check_pids_same_owner : Kernel → ℕ → ℕ → Run State Errno
check_pids_same_owner k pid1 pid2 = elim (k.owner pid1) [
  | none ↦ fault
  | some u1 ↦ elim (k.owner pid2) [
    | none ↦ fault
    | some u2 ↦ pure (if u1 == u2 then success else eperm)
  ]
]

unfoldable pub unlock_with : Errno → Run State Errno
unfolding unlock_my_table
unlock_with r = do unlock_my_table; pure r

-- REQUEST_SYSCALL_INTERCEPT, once the arguments are checked.
unfoldable pub intercept_locked : ℕ → Run State Errno
unfolding lock_my_table unlock_my_table lock_sys_call_table unlock_sys_call_table set_addr_rw
    set_addr_ro store_handler store_entry unlock_with
intercept_locked syscall = do
  lock_my_table
  e ← gets (λ s. s.table syscall)
  if e.intercepted == 1 then unlock_with ebusy else do
    store_entry syscall (record e { intercepted = 1 })
    lock_sys_call_table
    h ← gets (λ s. s.sys_call_table syscall)
    store_entry syscall (record e { intercepted = 1; f = h })
    unlock_my_table
    set_addr_rw
    store_handler syscall interceptor
    set_addr_ro
    unlock_sys_call_table
    pure success

-- REQUEST_SYSCALL_RELEASE, once the arguments are checked.
unfoldable pub release_locked : ℕ → Run State Errno
unfolding lock_my_table unlock_my_table lock_sys_call_table unlock_sys_call_table set_addr_rw
    set_addr_ro store_handler store_entry unlock_with destroy_list
release_locked syscall = do
  lock_my_table
  e ← gets (λ s. s.table syscall)
  if e.intercepted == 0 then unlock_with einval else do
    store_entry syscall (destroy_list (record e { intercepted = 0 }))
    lock_sys_call_table
    set_addr_rw
    store_handler syscall e.f
    set_addr_ro
    unlock_my_table
    unlock_sys_call_table
    pure success

-- The end of the last two commands, on every path: the changed entry, and the unlock before the
-- return.
unfoldable pub commit : ℕ → Errno × Entry → Run State Errno
unfolding unlock_with store_entry
commit syscall r =
    if failed r.0 then unlock_with r.0 else (do store_entry syscall r.1; unlock_with success)

-- REQUEST_START_MONITORING on the entry that is read under the lock, once the arguments and the
-- permissions are checked: the result and the new entry. Where `monitored` is 2 the list is the
-- blacklist.
unfoldable pub start_entry : Bool → ℕ → Entry → Errno × Entry
start_entry memory pid e =
    if e.intercepted == 0
    then (einval, e)
    else if e.monitored == 2
    then (if check_pid_monitored e pid then (success, (del_pid_sysc pid e).1) else (ebusy, e))
    else if e.monitored == 1
    then (if check_pid_monitored e pid
        then (ebusy, e)
        else if pid == 0
        then (success, record (destroy_list e) { monitored = 2 })
        else add_pid_sysc memory pid e)
    else if e.monitored == 0
    then (if pid == 0
        then (success, record e { monitored = 2 })
        else if memory
        then (success, record (add_pid_sysc true pid e).1 { monitored = 1 })
        else (enomem, e))
    else (success, e)

unfoldable pub start_locked : Context → ℕ → ℕ → Run State Errno
unfolding lock_my_table
start_locked c syscall pid = do
  lock_my_table
  e ← gets (λ s. s.table syscall)
  commit syscall (start_entry c.memory pid e)

-- REQUEST_STOP_MONITORING, likewise.
unfoldable pub stop_entry : Bool → ℕ → Entry → Errno × Entry
stop_entry memory pid e =
    if e.monitored == 0
    then (einval, e)
    else if e.monitored == 1
    then (if check_pid_monitored e pid then (success, (del_pid_sysc pid e).1) else (einval, e))
    else if e.monitored == 2
    then (if pid == 0
        then (success, destroy_list e)
        else if check_pid_monitored e pid
        then (einval, e)
        else add_pid_sysc memory pid e)
    else (success, e)

unfoldable pub stop_locked : Context → ℕ → ℕ → Run State Errno
unfolding lock_my_table
stop_locked c syscall pid = do
  lock_my_table
  e ← gets (λ s. s.table syscall)
  commit syscall (stop_entry c.memory pid e)

-- The checks that the first two commands share, and those that the last two share.
unfoldable pub as_root : Kernel → Context → ℤ → (ℕ → Run State Errno) → Run State Errno
as_root k c syscall command =
    if failed (check_valid_syscall k syscall)
    then pure einval
    else if c.uid == 0
    then command (to_ℕ syscall)
    else pure eperm

unfoldable pub as_owner : Kernel → Context → ℤ → ℤ → (ℕ → ℕ → Run State Errno) → Run State Errno
as_owner k c syscall pid command =
    if failed (check_valid_syscall k syscall)
    then pure einval
    else if failed (check_valid_pid k pid)
    then pure einval
    else if c.uid == 0
    then command (to_ℕ syscall) (to_ℕ pid)
    else if equals pid 0
    then pure eperm
    else do
      r ← check_pids_same_owner k c.pid (to_ℕ pid)
      if failed r then pure eperm else command (to_ℕ syscall) (to_ℕ pid)

unfoldable pub my_syscall : Kernel → Context → ℤ → ℤ → ℤ → Run State Errno
my_syscall k c cmd syscall pid =
    if exceeds cmd 4 || is_negative cmd || equals cmd 0
    then pure einval
    else if equals cmd 1
    then as_root k c syscall intercept_locked
    else if equals cmd 2
    then as_root k c syscall release_locked
    else if equals cmd 3
    then as_owner k c syscall pid (start_locked c)
    else if equals cmd 4
    then as_owner k c syscall pid (stop_locked c)
    else pure success
