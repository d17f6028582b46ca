-- ===== src/Interceptor/Watch.antt =====
-- One entry of the metadata table: its invariant, and whom it says to monitor. Start and stop are
-- held against that view.
use csc_369_operating_system.Common.{
  ℕ, suc, ◌≤◌, pos, Bool, true, false, not, List, [], ◌∷◌, length, ◌≡◌, ◌≢◌, refl, if◌then◌else◌,
  ◌==◌, arith,
}
use csc_369_operating_system.Interceptor.State.{Entry, success, einval, ebusy, enomem}
use csc_369_operating_system.Interceptor.PidList.{
  contains, remove_first, add_pid_sysc, check_pid_monitored, del_pid_sysc, destroy_list,
}
use csc_369_operating_system.Interceptor.Command.{start_entry, stop_entry}

abbrev pub Distinct : List ℕ → Type 0
Distinct [] = Unit {0}
Distinct (p ∷ ps) = (contains p ps ≡ false) × Distinct ps

-- The counter is the length of the list; no pid stands twice in it, and 0 never; an entry that is
-- not intercepted monitors nobody; the list is empty if nobody is monitored, and is not if some are.
pub record IsValid (e : Entry) : Type 0 where
  pub flag : e.intercepted ≤ 1
  pub mode : e.monitored ≤ 2
  pub counted : e.listcount ≡ pos (length e.my_list)
  pub distinct : Distinct e.my_list
  pub no_zero : contains 0 e.my_list ≡ false
  pub idle : e.intercepted ≡ 0 → e.monitored ≡ 0
  pub none_listed : e.monitored ≡ 0 → e.my_list ≡ []
  pub some_listed : e.monitored ≡ 1 → length e.my_list ≢ 0

pub contains-remove_first :
    (p q : ℕ) (l : List ℕ)
    → Distinct l
    → contains q (remove_first p l) ≡ (if p == q then false else contains q l)
unfolding contains remove_first
contains-remove_first p q [] d = ground arith
contains-remove_first p q (x ∷ l) d = ground (arith, contains-remove_first p q l d.1)

pub Distinct-remove_first : (p : ℕ) (l : List ℕ) → Distinct l → Distinct (remove_first p l)
unfolding remove_first
Distinct-remove_first p [] d = tt
Distinct-remove_first p (x ∷ l) d =
    ground (arith, Distinct-remove_first p l d.1, contains-remove_first p x l d.1)

pub length-remove_first :
    (p : ℕ) (l : List ℕ) → contains p l ≡ true → suc (length (remove_first p l)) ≡ length l
unfolding contains remove_first
length-remove_first p [] h = cc
length-remove_first p (x ∷ l) h = ground (arith, length-remove_first p l)

pub contains_of_empty : (q : ℕ) (l : List ℕ) → length l ≡ 0 → contains q l ≡ false
unfolding contains
contains_of_empty q [] h = refl
contains_of_empty q (x ∷ l) h = absurd (omega arith)

-- Whether the bookkeeping asks for the calls of a pid to be logged: with `monitored` 2 the list
-- is the blacklist.
abbrev pub watched : Entry → ℕ → Bool
watched e pid =
    if e.monitored == 0
    then false
    else if e.monitored == 1
    then contains pid e.my_list
    else not (contains pid e.my_list)

-- Starting to monitor keeps the invariant of the entry, whatever the result is.
pub start_entry-IsValid :
    (memory : Bool) (pid : ℕ) (e : Entry) → IsValid e → IsValid (start_entry memory pid e).1
unfolding start_entry add_pid_sysc check_pid_monitored del_pid_sysc destroy_list contains
start_entry-IsValid memory pid e v = ground (
  arith,
  length-remove_first pid e.my_list,
  Distinct-remove_first pid e.my_list v.distinct,
  contains-remove_first pid 0 e.my_list v.distinct,
)

pub stop_entry-IsValid :
    (memory : Bool) (pid : ℕ) (e : Entry) → IsValid e → IsValid (stop_entry memory pid e).1
unfolding stop_entry add_pid_sysc check_pid_monitored del_pid_sysc destroy_list contains
stop_entry-IsValid memory pid e v = ground (
  arith,
  length-remove_first pid e.my_list,
  Distinct-remove_first pid e.my_list v.distinct,
  contains-remove_first pid 0 e.my_list v.distinct,
)

-- On an entry that meets its invariant, a start request that succeeds makes the bookkeeping watch
-- the pid, or every pid where the request names pid 0, and changes nothing for other pids.
pub start_entry-watched :
    (memory : Bool) (pid : ℕ) (e : Entry) (q : ℕ)
    → IsValid e
    → (start_entry memory pid e).0 ≡ success
    → q ≢ 0
    → watched (start_entry memory pid e).1 q
      ≡ (if pid == 0 then true else if pid == q then true else watched e q)
unfolding start_entry add_pid_sysc check_pid_monitored del_pid_sysc destroy_list contains
start_entry-watched memory pid e q v h ne =
    ground
      (arith, length-remove_first pid e.my_list, contains-remove_first pid q e.my_list v.distinct)

-- On an entry that meets its invariant, a stop request that succeeds makes the bookkeeping leave
-- out the pid, or every pid where the request names pid 0, and changes nothing for other pids.
pub stop_entry-watched :
    (memory : Bool) (pid : ℕ) (e : Entry) (q : ℕ)
    → IsValid e
    → (stop_entry memory pid e).0 ≡ success
    → q ≢ 0
    → watched (stop_entry memory pid e).1 q
      ≡ (if pid == 0 then false else if pid == q then false else watched e q)
unfolding stop_entry add_pid_sysc check_pid_monitored del_pid_sysc destroy_list contains
stop_entry-watched memory pid e q v h ne = ground (
  arith,
  length-remove_first pid e.my_list,
  contains-remove_first pid q e.my_list v.distinct,
  contains_of_empty q (remove_first pid e.my_list),
)

-- Which error a start request meets, on every branch: EINVAL where the system call is not
-- intercepted, EBUSY where the pid is watched already (for pid 0: where all but a blacklist are),
-- ENOMEM where a pid has to be put on the list and there is no memory, and success otherwise.
pub start_entry-result :
    (memory : Bool) (pid : ℕ) (e : Entry)
    → IsValid e
    → (start_entry memory pid e).0 ≡ (
        if e.intercepted == 0
        then einval
        else if pid == 0
        then (if e.monitored == 2 then ebusy else success)
        else if watched e pid
        then ebusy
        else if e.monitored == 2
        then success
        else if memory
        then success
        else enomem)
unfolding start_entry add_pid_sysc check_pid_monitored del_pid_sysc destroy_list contains
start_entry-result memory pid e v = ground arith

-- Which error a stop request meets, on every branch: EINVAL where the pid is not watched (for pid
-- 0: where not all but a blacklist are), ENOMEM where a pid has to be put on the blacklist and
-- there is no memory, and success otherwise.
pub stop_entry-result :
    (memory : Bool) (pid : ℕ) (e : Entry)
    → IsValid e
    → (stop_entry memory pid e).0 ≡ (
        if pid == 0
        then (if e.monitored == 2 then success else einval)
        else if watched e pid
        then (if e.monitored == 2 then (if memory then success else enomem) else success)
        else einval)
unfolding stop_entry add_pid_sysc check_pid_monitored del_pid_sysc destroy_list contains
stop_entry-result memory pid e v = ground arith
