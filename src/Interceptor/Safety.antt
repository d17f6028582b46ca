-- ===== src/Interceptor/Safety.antt =====
-- The invariant of the module's whole state, and that `my_syscall` never faults, leaves no lock
-- held, keeps the invariant and changes nothing when it fails.
use csc_369_operating_system.Common.{
  ℕ, ◌<◌, ℤ, pos, negsuc, to_ℕ, is_negative, equals, exceeds, Bool, true, false, ◌≡◌, refl,
  if◌then◌else◌, ◌==◌, arith, Bool-cases, inl, inr, ◌||◌, Option, some, pure, ◌>>=◌,
}
use csc_369_operating_system.Interceptor.State.{
  State, Kernel, Context, Handler, Entry, Errno, success, einval, eperm, ebusy, enomem, failed,
}
use csc_369_operating_system.Interceptor.Command
use csc_369_operating_system.Interceptor.Command.{
  start_entry, stop_entry, start_locked, stop_locked, intercept_locked, release_locked, as_root,
  as_owner, check_valid_syscall, check_valid_pid, check_pids_same_owner,
}
use csc_369_operating_system.Interceptor.Effect.{
  put_entry, put_entry_same, outcome, start_locked_lem, stop_locked_lem, hijacked, released,
  intercept_locked_lem, release_locked_lem,
}
use csc_369_operating_system.Interceptor.Watch.{IsValid, start_entry-IsValid, stop_entry-IsValid}
use csc_369_operating_system.Interceptor.Consistent.{
  IsConsistent, put_entry-IsConsistent, hijacked-IsConsistent, released-IsConsistent,
  start_entry-keeps, stop_entry-keeps,
}

-- A command returns; the state that it leaves is consistent, so that no lock is held and the
-- system call table is read-only, and is the old state if the command failed.
pub record Completes (k : Kernel) (origin : ℕ → Handler) (s : State) (ran : Option (Errno × State))
    : Type 0 where
  pub result : Errno
  pub after : State
  pub returns : ran ≡ some (result, after)
  pub consistent : IsConsistent k origin after
  pub atomic : failed result ≡ true → after ≡ s

module _ {k : Kernel} {origin : ℕ → Handler} {s : State} (v : IsConsistent k origin s) where
  rejects : (r : Errno) → Completes k origin s (some (r, s))
  rejects r = record { result = r; after = s; returns = refl; consistent = v; atomic = λ _. refl }

  outcome-Completes :
      (n : ℕ) (r : Errno × Entry)
      → IsValid r.1
      → r.1.intercepted ≡ (s.table n).intercepted
      → r.1.f ≡ (s.table n).f
      → Completes k origin s (some (outcome s n r))
  outcome-Completes n (success, e) w i f = record {
    result = success;
    after = put_entry s n e;
    returns = refl;
    consistent = put_entry-IsConsistent v n e w i f;
    atomic = λ h. cc;
  }
  outcome-Completes n (einval, e) w i f = rw (put_entry_same s n) (rejects einval)
  outcome-Completes n (eperm, e) w i f = rw (put_entry_same s n) (rejects eperm)
  outcome-Completes n (ebusy, e) w i f = rw (put_entry_same s n) (rejects ebusy)
  outcome-Completes n (enomem, e) w i f = rw (put_entry_same s n) (rejects enomem)

  start_locked-Completes : (c : Context) (n pid : ℕ) → Completes k origin s (start_locked c n pid s)
  start_locked-Completes c n pid = rw (start_locked_lem c n pid s v.quiet.my_table_free) (
      outcome-Completes n (start_entry c.memory pid (s.table n))
        (start_entry-IsValid c.memory pid (s.table n) (v.linked n).valid)
        (start_entry-keeps c.memory pid (s.table n)).0
        (start_entry-keeps c.memory pid (s.table n)).1)

  stop_locked-Completes : (c : Context) (n pid : ℕ) → Completes k origin s (stop_locked c n pid s)
  stop_locked-Completes c n pid = rw (stop_locked_lem c n pid s v.quiet.my_table_free) (
      outcome-Completes n (stop_entry c.memory pid (s.table n))
        (stop_entry-IsValid c.memory pid (s.table n) (v.linked n).valid)
        (stop_entry-keeps c.memory pid (s.table n)).0 (stop_entry-keeps c.memory pid (s.table n)).1)

  intercept_locked-Completes :
      (n : ℕ) → 0 < n → n < k.nr_syscalls → Completes k origin s (intercept_locked n s)
  intercept_locked-Completes n lo hi =
      rw (intercept_locked_lem n s v.quiet) elim (Bool-cases ((s.table n).intercepted == 1)) [
        | inl e ↦ rw e (rejects ebusy)
        | inr e ↦ rw e (record {
          result = success;
          after = hijacked s n;
          returns = refl;
          consistent = hijacked-IsConsistent v n lo hi (ground arith);
          atomic = λ h. cc;
        })
      ]

  release_locked-Completes : (n : ℕ) → Completes k origin s (release_locked n s)
  release_locked-Completes n =
      rw (release_locked_lem n s v.quiet) elim (Bool-cases ((s.table n).intercepted == 0)) [
        | inl e ↦ rw e (rejects einval)
        | inr e ↦ rw e (record {
          result = success;
          after = released s n;
          returns = refl;
          consistent = released-IsConsistent v n (ground arith);
          atomic = λ h. cc;
        })
      ]

check_valid_syscall-range :
    (k : Kernel) (n : ℤ)
    → failed (check_valid_syscall k n) ≡ false
    → (0 < to_ℕ n) × (to_ℕ n < k.nr_syscalls)
unfolding check_valid_syscall
check_valid_syscall-range k (pos n) h = ground arith
check_valid_syscall-range k (negsuc n) h = cc

check_valid_pid-owner :
    (k : Kernel) (pid : ℤ)
    → failed (check_valid_pid k pid) ≡ false
    → equals pid 0 ≡ false
    → (u : ℕ) × (k.owner (to_ℕ pid) ≡ some u)
unfolding check_valid_pid
check_valid_pid-owner k (pos n) h ne = ground arith
check_valid_pid-owner k (negsuc n) h ne = cc

module _ {k : Kernel} {origin : ℕ → Handler} {s : State} (v : IsConsistent k origin s) (c : Context)
    {uid : ℕ} (current : k.owner c.pid ≡ some uid) where
  as_root-Completes :
      (n : ℤ) (command : ℕ → State → Option (Errno × State))
      → ((m : ℕ) → 0 < m → m < k.nr_syscalls → Completes k origin s (command m s))
      → Completes k origin s (as_root k c n command s)
  unfolding as_root
  as_root-Completes n command ok = elim (Bool-cases (failed (check_valid_syscall k n))) [
    | inl bad ↦ rw bad (rejects v einval)
    | inr good ↦ elim (Bool-cases (c.uid == 0)) [
      | inl root ↦
          rw (good, root)
            (ok (to_ℕ n) (check_valid_syscall-range k n good).0
              (check_valid_syscall-range k n good).1)
      | inr user ↦ rw (good, user) (rejects v eperm)
    ]
  ]

  same_owner-Completes :
      (n pid : ℕ) (command : ℕ → ℕ → State → Option (Errno × State)) {u : ℕ}
      → k.owner pid ≡ some u
      → Completes k origin s (command n pid s)
      → Completes k origin s (
          (do r ← check_pids_same_owner k c.pid pid; if failed r then pure eperm else command n pid)
            s)
  unfolding check_pids_same_owner
  same_owner-Completes n pid command {u} known ok = elim (Bool-cases (uid == u)) [
    | inl same ↦ rw (current, known, same, check_pids_same_owner) ok
    | inr other ↦ rw (current, known, other, check_pids_same_owner) (rejects v eperm)
  ]

  as_owner-Completes :
      (n pid : ℤ) (command : ℕ → ℕ → State → Option (Errno × State))
      → Completes k origin s (command (to_ℕ n) (to_ℕ pid) s)
      → Completes k origin s (as_owner k c n pid command s)
  unfolding as_owner
  as_owner-Completes n pid command ok = elim (Bool-cases (failed (check_valid_syscall k n))) [
    | inl bad ↦ rw bad (rejects v einval)
    | inr good ↦ elim (Bool-cases (failed (check_valid_pid k pid))) [
      | inl bad ↦ rw (good, bad) (rejects v einval)
      | inr valid ↦ elim (Bool-cases (c.uid == 0)) [
        | inl root ↦ rw (good, valid, root) ok
        | inr user ↦ elim (Bool-cases (equals pid 0)) [
          | inl all ↦ rw (good, valid, user, all) (rejects v eperm)
          | inr one ↦
              let (u, known) = check_valid_pid-owner k pid valid one in
              rw (good, valid, user, one)
                (same_owner-Completes (to_ℕ n) (to_ℕ pid) command known ok)
        ]
      ]
    ]
  ]

  if-Completes :
      (b : Bool) (yes_branch no_branch : State → Option (Errno × State))
      → Completes k origin s (yes_branch s)
      → Completes k origin s (no_branch s)
      → Completes k origin s ((if b then yes_branch else no_branch) s)
  if-Completes true yes_branch no_branch h _ = h
  if-Completes false yes_branch no_branch _ h = h

  -- In a consistent state, for a calling process that exists, every call of `my_syscall` returns
  -- without a fault, whatever its three arguments are; the state that it leaves is consistent, so
  -- that both locks are free and the system call table is read-only again; and a call that
  -- returns an error leaves the state as it was.
  pub my_syscall-Completes :
      (cmd n pid : ℤ) → Completes k origin s (Command.my_syscall k c cmd n pid s)
  unfolding Command.my_syscall
  my_syscall-Completes cmd n pid =
      if-Completes (exceeds cmd 4 || is_negative cmd || equals cmd 0) _ _ (rejects v einval) (
        if-Completes (equals cmd 1) _ _
          (as_root-Completes n intercept_locked (intercept_locked-Completes v))
          (if-Completes (equals cmd 2) _ _
            (as_root-Completes n release_locked (λ m _ _. release_locked-Completes v m))
            (if-Completes (equals cmd 3) _ _
              (as_owner-Completes n pid (start_locked c)
                (start_locked-Completes v c (to_ℕ n) (to_ℕ pid)))
              (if-Completes (equals cmd 4) _ _
                (as_owner-Completes n pid (stop_locked c)
                  (stop_locked-Completes v c (to_ℕ n) (to_ℕ pid)))
                (rejects v success)))))
