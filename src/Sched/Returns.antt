-- ===== src/Sched/Returns.antt =====
-- How a system call of sched/kern/syscall.c ends, and its tests of the environment that it is about.
use tps_sis_ops.Base.{ℕ, Option, none, some}
use tps_sis_ops.Base.Int.{ℤ, pos}
use tps_sis_ops.Sched.Env.{Kernel}
use tps_sis_ops.Sched.Scheduler.{Exit, fault}
use tps_sis_ops.Sched.Envs.{Errno, Lookup, stored, refused, Ends, returns, leaves}

-- What a system call returns: a number (an id, a priority, 0), or a negated error code.
pub data Result : Type 0 where
  value : ℤ → Result
  error : Errno → Result

-- A call that returns to `trap_dispatch`, or that leaves the kernel.
pub data Return : Type 0 where
  back : Result → Kernel → Return
  leave : Exit → Return

-- `envid2env`, an early return of its error, and what follows for the environment it stored.
abbrev pub with_env : Kernel → Lookup → (ℕ → Return) → Return
with_env k (refused e) rest = back (error e) k
with_env k (stored none) rest = leave fault
with_env k (stored (some i)) rest = rest i

-- What follows for the current environment, which exists during a system call.
abbrev pub with_current : Option ℕ → (ℕ → Return) → Return
with_current none rest = leave fault
with_current (some c) rest = rest c

-- `return 0`, unless the call left the kernel.
abbrev pub return_zero : Ends → Return
return_zero (returns k) = back (value (pos 0)) k
return_zero (leaves x) = leave x

-- What follows a call that returned no error.
abbrev pub then_ok : Return → (Kernel → Return) → Return
then_ok (back (value v) k) rest = rest k
then_ok (back (error e) k) rest = back (error e) k
then_ok (leave x) rest = leave x
