-- ===== src/Sched/Scheduler/Running.antt =====
-- At most one environment of a CPU runs (sched/kern/sched.c, sched/kern/env.c).
use mathlib.Core.Path.{subst}
use tps_sis_ops.Base.{
  ℕ, ◌+◌, ◌%◌, ◌<◌, ◌≡◌, refl, sym, ap, ◌∙◌, inl, inr, Option, none, some, true, false, ◌&&◌, ltb,
  ◌==◌, find_from, find_from-none, Bool-cases, Option-cases, update, arith,
}
use tps_sis_ops.Base.Int.{ℤ, pos, ltb_int, add_nat}
use tps_sis_ops.Sched.Env.{
  nenv, Env, Kernel, running, runnable, has_status, status_code, preempt_current, preempt, env_run,
}
use tps_sis_ops.Sched.Scheduler.{
  Policy, unscheduled, round_robin, priorities, Exit, run, halt, monitor, debug, fault, panic,
  out_of_fuel, Search, found, nobody, beyond, unfinished, is_live, initial_priority,
  restarting_number, max_history, sched_halt, halt_unless_idle, stay, stay_in, run_current,
  take_turn, next_in_turn, sched_round_robin, improve, improve_priorities, count_call, charge,
  dispatch, choose, sched_with_priority, sched_yield,
}

-- Only the current environment may be running.
abbrev pub IsAlone : Kernel → Type 0
IsAlone k = (j : ℕ) → has_status running (k.envs j) ≡ true → k.curenv ≡ some j

-- Exactly the current environment is running.
abbrev pub IsSole : Kernel → Type 0
IsSole k =
    (i : ℕ) × (k.curenv ≡ some i)
    × (has_status running (k.envs i) ≡ true)
    × ((j : ℕ) → has_status running (k.envs j) ≡ true → j ≡ i)

-- Nothing runs.
abbrev pub IsIdle : Kernel → Type 0
IsIdle k = (k.curenv ≡ none) × ((j : ℕ) → has_status running (k.envs j) ≡ false)

preempt_current-quiet :
    (k : Kernel) (o : Option ℕ)
    → ((j : ℕ) → has_status running (k.envs j) ≡ true → o ≡ some j)
    → (j : ℕ) → has_status running ((preempt_current k o).envs j) ≡ false
preempt_current-quiet k none alone j = elim (Bool-cases (has_status running (k.envs j))) [
  | inl r ↦ let p = alone j r in cc
  | inr r ↦ r
]
preempt_current-quiet k (some c) alone j = elim (Bool-cases (has_status running (k.envs c))) [
  | inl r ↦ rw r (elim (Bool-cases (j == c)) [
    | inl e ↦ rw e refl
    | inr e ↦ rw e (elim (Bool-cases (has_status running (k.envs j))) [
      | inl q ↦ let p = alone j q in absurd (ground arith)
      | inr q ↦ q
    ])
  ])
  | inr r ↦ rw r (elim (Bool-cases (has_status running (k.envs j))) [
    | inl q ↦
        let p = alone j q in
        let e : c ≡ j = cc in subst (λ j. has_status running (k.envs j) ≡ false) e r
    | inr q ↦ q
  ])
]

-- `env_run` enters user mode with exactly its environment running.
pub env_run-IsSole : (k : Kernel) (i : ℕ) → IsAlone k → IsSole (env_run k i)
unfolding env_run preempt
env_run-IsSole k i alone =
    let same : (i == i) ≡ true = ground arith in
    (
      i,
      refl,
      rw same refl,
      λ j r. elim (Bool-cases (j == i)) [
        | inl e ↦ ground arith
        | inr e ↦ let q = preempt_current-quiet k k.curenv alone j in absurd (ground arith)
      ],
    )

-- A state that leaves the kernel: in user mode exactly the current environment runs; a halted CPU
-- has none; the monitor is entered with nobody live, or by a breakpoint with at most the current
-- environment running.
abbrev pub ExitIsSole : Exit → Type 0
ExitIsSole (run k) = IsSole k
ExitIsSole (halt k) = k.curenv ≡ none
ExitIsSole (monitor k) = (j : ℕ) → j < nenv → is_live (k.envs j) ≡ false
ExitIsSole (debug k) = IsAlone k
ExitIsSole fault = Unit
ExitIsSole panic = Unit
ExitIsSole out_of_fuel = Unit

sched_halt-IsSole : (k : Kernel) → ExitIsSole (sched_halt k)
unfolding sched_halt
sched_halt-IsSole k = elim (Option-cases (find_from (λ i. is_live (k.envs i)) nenv 0)) [
  | inl e ↦
      subst (λ o. ExitIsSole (halt_unless_idle k o)) (sym e)
        λ j lt. find_from-none (λ i. is_live (k.envs i)) nenv 0 j e (omega arith) lt
  | inr (i, e) ↦ subst (λ o. ExitIsSole (halt_unless_idle k o)) (sym e) refl
]

stay_in-IsSole : (k : Kernel) (o : Option ℕ) → IsAlone k → ExitIsSole (stay_in k o)
stay_in-IsSole k none alone = sched_halt-IsSole k
stay_in-IsSole k (some c) alone = elim (Bool-cases (has_status running (k.envs c))) [
  | inl r ↦ rw r (env_run-IsSole k c alone)
  | inr r ↦ rw r (sched_halt-IsSole k)
]

stay-IsSole : (k : Kernel) → IsAlone k → ExitIsSole (stay k)
unfolding stay
stay-IsSole k alone = stay_in-IsSole k k.curenv alone

take_turn-IsSole : (k : Kernel) (s : Search) → IsAlone k → ExitIsSole (take_turn k s)
take_turn-IsSole k (found i) alone = env_run-IsSole k i alone
take_turn-IsSole k nobody alone = stay-IsSole k alone
take_turn-IsSole k beyond alone = tt
take_turn-IsSole k unfinished alone = tt

-- Neither the raises nor the charge change a status, or the current environment.
improve-status : (e : Env) → (improve e).env_status ≡ e.env_status
unfolding improve
improve-status e =
    elim (Bool-cases
      (has_status runnable e && ltb_int (add_nat e.env_priority 5) initial_priority)) [
        | inl y ↦ rw y refl
        | inr n ↦ rw n refl
      ]

count_call-IsAlone : (k : Kernel) → IsAlone k → IsAlone (count_call k)
unfolding count_call improve_priorities
count_call-IsAlone k alone = elim (Bool-cases ((k.sched_calls + 1) % restarting_number == 0)) [
  | inl y ↦ rw y λ j r. alone j (ap (λ s. status_code s == 3) (sym (improve-status (k.envs j))) ∙ r)
  | inr n ↦ rw n alone
]

charged-status :
    (envs : ℕ → Env) (i : ℕ) (p : ℤ) (j : ℕ)
    → (update envs i (record (envs i) { env_priority = p }) j).env_status ≡ (envs j).env_status
charged-status envs i p j = elim (Bool-cases (j == i)) [
  | inl e ↦ let q : i ≡ j = ground arith in rw e (ap (λ i. (envs i).env_status) q)
  | inr e ↦ rw e refl
]

charge-IsAlone : (k : Kernel) (i : ℕ) → IsAlone k → IsAlone (charge k i)
unfolding charge
charge-IsAlone k i alone = elim (Bool-cases (ltb k.history_index max_history)) [
  | inl h ↦ elim (Bool-cases (ltb_int (pos 0) (k.envs i).env_priority)) [
    | inl y ↦
        rw (h, y)
          λ j r. alone j (ap (λ s. status_code s == 3) (sym (charged-status k.envs i _ j)) ∙ r)
    | inr n ↦ rw (h, n) alone
  ]
  | inr h ↦ elim (Bool-cases (ltb_int (pos 0) (k.envs i).env_priority)) [
    | inl y ↦
        rw (h, y)
          λ j r. alone j (ap (λ s. status_code s == 3) (sym (charged-status k.envs i _ j)) ∙ r)
    | inr n ↦ rw (h, n) alone
  ]
]

dispatch-IsSole : (k : Kernel) (o : Option ℕ) → IsAlone k → ExitIsSole (dispatch k o)
dispatch-IsSole k none alone = stay-IsSole k alone
dispatch-IsSole k (some i) alone = env_run-IsSole (charge k i) i (charge-IsAlone k i alone)

run_current-IsSole : (k : Kernel) (o : Option ℕ) → IsAlone k → ExitIsSole (run_current k o)
run_current-IsSole k none alone = sched_halt-IsSole k
run_current-IsSole k (some c) alone = env_run-IsSole k c alone

-- If at most the current environment is running, then every scheduler enters user mode in a state
-- in which exactly one environment is running, the current one; halts with no current environment;
-- and goes to the monitor only if none is runnable, running or dying.
pub sched_yield-IsSole : (p : Policy) (k : Kernel) → IsAlone k → ExitIsSole (sched_yield p k)
unfolding sched_yield sched_round_robin sched_with_priority choose
sched_yield-IsSole round_robin k alone = take_turn-IsSole k (next_in_turn k) alone
sched_yield-IsSole priorities k alone =
    dispatch-IsSole (count_call k) _ (count_call-IsAlone k alone)
sched_yield-IsSole unscheduled k alone = run_current-IsSole k k.curenv alone
