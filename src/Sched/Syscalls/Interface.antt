-- ===== src/Sched/Syscalls/Interface.antt =====
-- Invariants of the table of environments and the current one, and what an interface asks of them so
-- that every system call keeps them (sched/kern/syscall.c, sched/kern/env.c).
use tps_sis_ops.Base.{ℕ, ◌≡◌, ◌⊎◌, inl, inr, Option, none, some, false, update, arith}
use tps_sis_ops.Sched.Envs.{Ends, returns, leaves}
use tps_sis_ops.Sched.Returns.{Return, back, leave}
use tps_sis_ops.Base.Int.{ℤ, pos, negsuc, ltb_int}
use tps_sis_ops.Sched.Env.{Env, Kernel, running, has_status, env_run}
use tps_sis_ops.Sched.Scheduler.{Policy, Exit, run, debug, fault, panic, sched_yield}

-- A new value for a slot of the table that does not start to run, and whose priority is not above
-- that of some environment of the table.
pub record IsTame (envs : ℕ → Env) (i : ℕ) (e : Env) : Type 0 where
  pub stays : (e.env_status ≡ (envs i).env_status) ⊎ (has_status running e ≡ false)
  pub origin : ℕ
  pub low : ltb_int (envs origin).env_priority e.env_priority ≡ false

pub ltb_int_irrefl : (p : ℤ) → ltb_int p p ≡ false
ltb_int_irrefl (pos n) = ground arith
ltb_int_irrefl (negsuc n) = ground arith

-- A change that touches neither the status nor the priority, and one that sets a status but to running.
pub untouched-IsTame :
    (envs : ℕ → Env) (i : ℕ) (e : Env)
    → e.env_status ≡ (envs i).env_status
    → e.env_priority ≡ (envs i).env_priority
    → IsTame envs i e
untouched-IsTame envs i e s p = record {
  stays = inl s;
  origin = i;
  low = rw p (ltb_int_irrefl (envs i).env_priority);
}

pub stopped-IsTame :
    (envs : ℕ → Env) (i : ℕ) (e : Env)
    → has_status running e ≡ false
    → e.env_priority ≡ (envs i).env_priority
    → IsTame envs i e
stopped-IsTame envs i e s p = record {
  stays = inr s;
  origin = i;
  low = rw p (ltb_int_irrefl (envs i).env_priority);
}

-- An invariant `P`, and what `Q` says of the ways to leave the kernel.
pub record Keeps (P : (ℕ → Env) → Option ℕ → Type 0) (Q : Exit → Type 0) : Type 0 where
  pub yields : (p : Policy) (k : Kernel) → P k.envs k.curenv → Q (sched_yield p k)
  pub runs : (k : Kernel) (i : ℕ) → P k.envs k.curenv → Q (run (env_run k i))
  pub debugs : (k : Kernel) → P k.envs k.curenv → Q (debug k)
  pub faults : Q fault
  pub panics : Q panic
  pub changes :
      (envs : ℕ → Env) (o : Option ℕ) (i : ℕ) (e : Env)
      → P envs o
      → IsTame envs i e
      → P (update envs i e) o
  pub deserts :
      (envs : ℕ → Env) (c : ℕ) (e : Env)
      → P envs (some c)
      → has_status running e ≡ false
      → IsTame envs c e
      → P (update envs c e) none

-- The state that a call returns with, or the outcome that it leaves the kernel in.
abbrev pub ReturnKeeps : ((ℕ → Env) → Option ℕ → Type 0) → (Exit → Type 0) → Return → Type 0
ReturnKeeps P Q (back r k) = P k.envs k.curenv
ReturnKeeps P Q (leave x) = Q x

-- The same of a call whose value is not looked at.
abbrev pub EndsKeeps : ((ℕ → Env) → Option ℕ → Type 0) → (Exit → Type 0) → Ends → Type 0
EndsKeeps P Q (returns k) = P k.envs k.curenv
EndsKeeps P Q (leaves x) = Q x
