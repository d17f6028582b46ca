-- ===== src/Interceptor/State.antt =====
-- The data of A1/interceptor.c: the metadata table, the system call table with its page's write
-- permission, the two spinlocks, and the primitive steps on them.
use csc_369_operating_system.Common.{
  ℕ, ℤ, Bool, true, false, List, Option, some, none, check, Run, update, if◌then◌else◌, ◌==◌,
}

-- What an entry of the system call table points to.
pub data Handler : Type 0 where
  original : ℕ → Handler
  interceptor my_syscall my_exit_group : Handler

-- `mytable`. A pid is not negative: `check_valid_pid` rejects others before they are used.
pub record Entry : Type 0 where
  pub f : Handler
  pub intercepted : ℕ
  pub monitored : ℕ
  pub listcount : ℤ
  pub my_list : List ℕ

-- A page table entry: the bit `_PAGE_RW` and all its other bits.
pub record Pte : Type 0 where
  pub rw : Bool
  pub rest : ℕ

pub record State : Type 0 where
  pub table : ℕ → Entry
  pub sys_call_table : ℕ → Handler
  pub my_table_lock : Bool
  pub sys_call_table_lock : Bool
  pub pte : Pte
  pub orig_custom_syscall : Handler
  pub orig_exit_group : Handler
  -- the pid and system call number of each line that `log_message` has printed, the newest first
  pub log : List (ℕ × ℕ)

-- What the kernel supplies: its constants, and the uid of the task with a given pid, if there is
-- one (`pid_task(find_vpid(pid), PIDTYPE_PID)->real_cred->uid`).
pub record Kernel : Type 0 where
  pub nr_syscalls : ℕ
  pub nr_exit_group : ℕ
  pub owner : ℕ → Option ℕ

-- The calling process, and whether `kmalloc` finds memory in this call.
pub record Context : Type 0 where
  pub pid : ℕ
  pub uid : ℕ
  pub memory : Bool

-- The values that the functions return: 0 and the negated error numbers.
pub data Errno : Type 0 where
  success einval eperm ebusy enomem : Errno

abbrev pub failed : Errno → Bool
failed success = false
failed e = true

abbrev pub my_custom_syscall : ℕ
my_custom_syscall = 0

-- A lock that is held already never comes free on this processor: a fault.
abbrev pub acquire : Bool → Run State (Unit {0})
acquire true s = none
acquire false s = some (tt, s)

unfoldable pub lock_my_table : Run State (Unit {0})
lock_my_table s = acquire s.my_table_lock (record s { my_table_lock = true })

unfoldable pub unlock_my_table : Run State (Unit {0})
unlock_my_table s = some (tt, record s { my_table_lock = false })

unfoldable pub lock_sys_call_table : Run State (Unit {0})
lock_sys_call_table s = acquire s.sys_call_table_lock (record s { sys_call_table_lock = true })

unfoldable pub unlock_sys_call_table : Run State (Unit {0})
unlock_sys_call_table s = some (tt, record s { sys_call_table_lock = false })

unfoldable pub set_addr_rw : Run State (Unit {0})
set_addr_rw s = some (
  tt,
  record s { pte = (if s.pte.rest == 0 then s.pte else record { rw = true; rest = s.pte.rest }) },
)

unfoldable pub set_addr_ro : Run State (Unit {0})
set_addr_ro s = some (tt, record s { pte = record { rw = false; rest = s.pte.rest } })

-- A write to the system call table while its page is read-only is a fault.
unfoldable pub store_handler : ℕ → Handler → Run State (Unit {0})
store_handler n h s = check s.pte.rw (record s { sys_call_table = update s.sys_call_table n h })

unfoldable pub store_entry : ℕ → Entry → Run State (Unit {0})
store_entry n e s = some (tt, record s { table = update s.table n e })
