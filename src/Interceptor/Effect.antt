-- ===== src/Interceptor/Effect.antt =====
-- What a command does to the state, without its steps: an error number and one new entry. The
-- functions here are the specification that the code of `Command` is held against.
use csc_369_operating_system.Common.{
  ℕ, Bool, true, false, ◌≡◌, ◌≢◌, fun_ext, update, if◌then◌else◌, ◌==◌, some, arith, ap, sym,
  Bool-cases, inl, inr,
}
use csc_369_operating_system.Interceptor.State.{
  State, Context, Entry, interceptor, Errno, success, einval, eperm, ebusy, enomem, failed,
}
use csc_369_operating_system.Interceptor.PidList.{destroy_list}
use csc_369_operating_system.Interceptor.Command.{
  unlock_with, commit, start_entry, start_locked, stop_entry, stop_locked, intercept_locked,
  release_locked,
}

-- No lock is held, the system call table is read-only, and its page is present.
pub record IsQuiet (s : State) : Type 0 where
  pub my_table_free : s.my_table_lock ≡ false
  pub sys_call_table_free : s.sys_call_table_lock ≡ false
  pub read_only : s.pte.rw ≡ false
  pub present : s.pte.rest ≢ 0

abbrev pub put_entry : State → ℕ → Entry → State
put_entry s n e = record s { table = update s.table n e }

pub update-get {ℓ} : {A : Type ℓ} (f : ℕ → A) (n : ℕ) → update f n (f n) ≡ f
update-get f n =
    fun_ext λ j. elim (Bool-cases (n == j)) [ inl e ↦ rw e (ap f (ground arith)) | inr e ↦ rw e ]

pub put_entry_same : (s : State) (n : ℕ) → put_entry s n (s.table n) ≡ s
put_entry_same s n = ap (λ t. record s { table = t }) (update-get s.table n)

abbrev unlocked : State → State
unlocked s = record s { my_table_lock = false }

unlocked_same : (s : State) → s.my_table_lock ≡ false → unlocked s ≡ s
unlocked_same s h = ap (λ (b : Bool). record s { my_table_lock = b }) (sym h)

unlock_with_lem :
    (r : Errno) (s : State) (n : ℕ)
    → s.my_table_lock ≡ false
    → unlock_with r (record s { my_table_lock = true }) ≡ some (r, put_entry s n (s.table n))
unfolding unlock_with
unlock_with_lem r s n h = rw (put_entry_same s n) (ap (λ t. some (r, t)) (unlocked_same s h))

-- A command on one entry, run under the lock: the state then differs in that entry alone, and not
-- at all after an error.
abbrev pub outcome : State → ℕ → Errno × Entry → Errno × State
outcome s n r = (r.0, put_entry s n (if failed r.0 then s.table n else r.1))

commit_lem :
    (r : Errno × Entry) (s : State) (n : ℕ)
    → s.my_table_lock ≡ false
    → commit n r (record s { my_table_lock = true }) ≡ some (outcome s n r)
unfolding commit
commit_lem (success, e) s n h = ap (λ t. some (success, put_entry t n e)) (unlocked_same s h)
commit_lem (einval, e) s n h = unlock_with_lem einval s n h
commit_lem (eperm, e) s n h = unlock_with_lem eperm s n h
commit_lem (ebusy, e) s n h = unlock_with_lem ebusy s n h
commit_lem (enomem, e) s n h = unlock_with_lem enomem s n h

pub start_locked_lem :
    (c : Context) (n pid : ℕ) (s : State)
    → s.my_table_lock ≡ false
    → start_locked c n pid s ≡ some (outcome s n (start_entry c.memory pid (s.table n)))
unfolding start_locked
start_locked_lem c n pid s h =
    ground (arith, commit_lem (start_entry c.memory pid (s.table n)) s n h)

pub stop_locked_lem :
    (c : Context) (n pid : ℕ) (s : State)
    → s.my_table_lock ≡ false
    → stop_locked c n pid s ≡ some (outcome s n (stop_entry c.memory pid (s.table n)))
unfolding stop_locked
stop_locked_lem c n pid s h = ground (arith, commit_lem (stop_entry c.memory pid (s.table n)) s n h)

-- The table and the system call table after an intercept and after a release.
abbrev pub hijacked : State → ℕ → State
hijacked s n = record s {
  table = update s.table n (record (s.table n) { intercepted = 1; f = s.sys_call_table n });
  sys_call_table = update s.sys_call_table n interceptor;
}

abbrev pub released : State → ℕ → State
released s n = record s {
  table = update s.table n (destroy_list (record (s.table n) { intercepted = 0 }));
  sys_call_table = update s.sys_call_table n (s.table n).f;
}

pub intercept_locked_lem :
    (n : ℕ) (s : State)
    → IsQuiet s
    → intercept_locked n s
      ≡ some (if (s.table n).intercepted == 1 then (ebusy, s) else (success, hijacked s n))
unfolding intercept_locked
intercept_locked_lem n s q = ground arith

pub release_locked_lem :
    (n : ℕ) (s : State)
    → IsQuiet s
    → release_locked n s
      ≡ some (if (s.table n).intercepted == 0 then (einval, s) else (success, released s n))
unfolding release_locked
release_locked_lem n s q = ground arith
