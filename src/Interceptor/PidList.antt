-- ===== src/Interceptor/PidList.antt =====
-- The operations of A1/interceptor.c on the list of pids of one system call. The pointers of the
-- kernel's list are a list here, the newest pid first, as `list_add` puts it.
use csc_369_operating_system.Common.{
  ℕ, zero, suc, pos, increment, decrement, equals, Bool, true, false, ◌&&◌, List, [], ◌∷◌,
  if◌then◌else◌, ◌==◌, update,
}
use csc_369_operating_system.Interceptor.State.{Entry, Errno, success, einval, enomem}

-- `add_pid_sysc`; the Boolean is whether `kmalloc` finds memory.
unfoldable pub add_pid_sysc : Bool → ℕ → Entry → Errno × Entry
add_pid_sysc false pid e = (enomem, e)
add_pid_sysc true pid e =
    (success, record e { my_list = pid ∷ e.my_list; listcount = increment e.listcount })

-- `check_pid_monitored`: 1 or 0.
unfoldable pub contains : ℕ → List ℕ → Bool
contains pid [] = false
contains pid (p ∷ ps) = if p == pid then true else contains pid ps

unfoldable pub check_pid_monitored : Entry → ℕ → Bool
check_pid_monitored e pid = contains pid e.my_list

-- `list_del` of the first node that holds the pid.
unfoldable pub remove_first : ℕ → List ℕ → List ℕ
remove_first pid [] = []
remove_first pid (p ∷ ps) = if p == pid then ps else p ∷ remove_first pid ps

-- The counter and the flag after one node has been taken out.
abbrev pub uncount : Entry → Entry
uncount e =
    if equals (decrement e.listcount) 0 && (e.monitored == 1)
    then record e { listcount = decrement e.listcount; monitored = 0 }
    else record e { listcount = decrement e.listcount }

unfoldable pub del_pid_sysc : ℕ → Entry → Errno × Entry
unfolding check_pid_monitored
del_pid_sysc pid e =
    if check_pid_monitored e pid
    then (success, uncount (record e { my_list = remove_first pid e.my_list }))
    else (einval, e)

-- One list of `del_pid`: every node with the pid goes. The
-- list is walked as it was at the start, like `list_for_each_safe`.
unfoldable pub del_all : ℕ → List ℕ → Entry → Bool × Entry
del_all pid [] e = (false, record e { my_list = [] })
del_all pid (p ∷ ps) e =
    let (hit, rest) = del_all pid ps (if p == pid then uncount e else e) in
    if p == pid then (true, rest) else (hit, record rest { my_list = p ∷ rest.my_list })

-- `del_pid` over the system calls below the bound, from number 1 on; whether any list had the pid.
unfoldable pub del_pid : ℕ → ℕ → (ℕ → Entry) → Bool × (ℕ → Entry)
unfolding del_all
del_pid pid zero table = (false, table)
del_pid pid (suc zero) table = (false, table)
del_pid pid (suc (suc n)) table =
    let (ispid, table') = del_pid pid (suc n) table in
    let (hit, e) = del_all pid (table (suc n)).my_list (table (suc n)) in
    (if hit then true else ispid, update table' (suc n) e)

unfoldable pub destroy_list : Entry → Entry
destroy_list e = record e { my_list = []; listcount = pos 0; monitored = 0 }
