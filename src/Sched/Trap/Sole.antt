-- ===== src/Sched/Trap/Sole.antt =====
-- At most one environment of a CPU runs, through any trap (sched/kern/trap.c).
use mathlib.Core.Path.{subst}
use tps_sis_ops.Base.{
  ℕ, ◌≡◌, sym, ap, ◌∙◌, inl, inr, Option, none, some, true, false, ◌==◌, Bool-cases, update, arith,
}
use tps_sis_ops.Sched.Env.{Trapframe, Env, Kernel, running, has_status, status_code}
use tps_sis_ops.Sched.Scheduler.Running.{IsAlone, ExitIsSole, env_run-IsSole, sched_yield-IsSole}
use tps_sis_ops.Sched.Syscalls.Interface.{IsTame, Keeps}
use tps_sis_ops.Sched.Trap.{Given, trap}
use tps_sis_ops.Sched.Trap.Kept.{trap-Keeps}

-- Only the current environment may be running.
abbrev Alone : (ℕ → Env) → Option ℕ → Type 0
Alone envs o = (j : ℕ) → has_status running (envs j) ≡ true → o ≡ some j

tame-running :
    (envs : ℕ → Env) (i : ℕ) (e : Env)
    → IsTame envs i e
    → has_status running e ≡ true
    → has_status running (envs i) ≡ true
tame-running envs i e t r = elim t.stays [
  | inl same ↦ ap (λ s. status_code s == 3) (sym same) ∙ r
  | inr quiet ↦ let f = sym quiet ∙ r in cc
]

changed-Alone :
    (envs : ℕ → Env) (o : Option ℕ) (i : ℕ) (e : Env)
    → Alone envs o
    → IsTame envs i e
    → Alone (update envs i e) o
changed-Alone envs o i e alone t j = elim (Bool-cases (j == i)) [
  | inl same ↦ rw same λ r.
      let q : i ≡ j = ground arith in
      subst (λ j. o ≡ some j) q (alone i (tame-running envs i e t r))
  | inr differs ↦ rw differs (alone j)
]

deserted-Alone :
    (envs : ℕ → Env) (c : ℕ) (e : Env)
    → Alone envs (some c)
    → has_status running e ≡ false
    → Alone (update envs c e) none
deserted-Alone envs c e alone quiet j = elim (Bool-cases (j == c)) [
  | inl same ↦ rw same λ r. let f = sym quiet ∙ r in cc
  | inr differs ↦ rw differs λ r. let q = alone j r in absurd (ground arith)
]

sole_kept : Keeps Alone ExitIsSole
sole_kept = record {
  yields = sched_yield-IsSole;
  runs = env_run-IsSole;
  debugs = λ k alone. alone;
  faults = tt;
  panics = tt;
  changes = changed-Alone;
  deserts = λ envs c e alone quiet t. deserted-Alone envs c e alone quiet;
}

-- If at most the current environment is running when a trap enters the kernel, then, whatever the
-- trap, its system call and the scheduler, the kernel is left to user mode with exactly one
-- environment running, the current one; with no current environment when the CPU halts; and to the
-- monitor, which does not return, either from a scheduler that finds no environment runnable, running
-- or dying, or by a breakpoint, with at most the current environment running still.
pub trap-IsSole : (g : Given) (k : Kernel) (tf : Trapframe) → IsAlone k → ExitIsSole (trap g k tf)
trap-IsSole g k tf alone = trap-Keeps sole_kept g k tf alone
