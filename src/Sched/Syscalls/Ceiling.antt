-- ===== src/Sched/Syscalls/Ceiling.antt =====
-- No system call lets priorities rise above the initial one (sched/kern/sched.c, sched/kern/syscall.c).
use tps_sis_ops.Base.{ℕ, ◌≡◌, refl, Option, false, update, arith}
use tps_sis_ops.Sched.Scheduler.Ceiling.{
  IsBounded, ExitIsBounded, update-IsBounded, env_run-IsBounded, sched_yield-IsBounded,
}
use tps_sis_ops.Sched.Returns.{Return}
use tps_sis_ops.Sched.Syscalls.{Call, syscall}
use tps_sis_ops.Base.Int.{ℤ, pos, negsuc, ltb_int}
use tps_sis_ops.Sched.Env.{Env, Kernel}
use tps_sis_ops.Sched.Scheduler.{Policy, initial_priority}
use tps_sis_ops.Sched.Syscalls.Interface.{IsTame, Keeps, ReturnKeeps}
use tps_sis_ops.Sched.Syscalls.Kept.{syscall-Keeps}

lowered_bound :
    (p q : ℤ)
    → ltb_int initial_priority p ≡ false
    → ltb_int p q ≡ false
    → ltb_int initial_priority q ≡ false
lowered_bound (pos x) (pos y) b h = ground arith
lowered_bound p (negsuc y) b h = refl
lowered_bound (negsuc x) (pos y) b h = ground arith

-- The bound on priorities as an invariant.
abbrev pub Bounded : (ℕ → Env) → Option ℕ → Type 0
Bounded envs o = IsBounded envs

tame-bound :
    (envs : ℕ → Env) (i : ℕ) (e : Env)
    → IsBounded envs
    → IsTame envs i e
    → IsBounded (update envs i e)
tame-bound envs i e b t =
    update-IsBounded envs i e
      (lowered_bound (envs t.origin).env_priority e.env_priority (b t.origin) t.low) b

pub ceiling_kept : Keeps Bounded ExitIsBounded
ceiling_kept = record {
  yields = sched_yield-IsBounded;
  runs = env_run-IsBounded;
  debugs = λ k b. b;
  faults = tt;
  panics = tt;
  changes = λ envs o i e b t. tame-bound envs i e b t;
  deserts = λ envs c e b s t. tame-bound envs c e b t;
}

-- The state that a call returns with, or the outcome that it leaves the kernel in, is bounded.
abbrev pub ReturnIsBounded : Return → Type 0
ReturnIsBounded r = ReturnKeeps Bounded ExitIsBounded r

-- No system call, under any scheduler, lets a priority rise above the initial one: not by setting
-- it, not by creating an environment, and not by the scheduler's raises. This holds of the state in
-- which the call returns, and of that in which it leaves the kernel.
pub syscall-IsBounded :
    (p : Policy) (k : Kernel) (call : Call) → IsBounded k.envs → ReturnIsBounded (syscall p k call)
syscall-IsBounded p k call b = syscall-Keeps ceiling_kept p k call b
