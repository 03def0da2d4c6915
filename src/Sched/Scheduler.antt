-- ===== src/Sched/Scheduler.antt =====
-- The scheduler of sched/kern/sched.c. No function of it returns: what is computed is how the CPU
-- leaves the kernel, and the state in which it does.
pub mod Ceiling
pub mod Choice
pub mod Order
pub mod Running
pub mod Priorities
pub mod RoundRobin
use tps_sis_ops.Base.{
  ℕ, zero, suc, ◌+◌, ◌%◌, Option, none, some, Bool, true, false, ◌&&◌, ◌||◌, ltb, leb, ◌==◌,
  if◌then◌else◌, find_from, update,
}
use tps_sis_ops.Base.Int.{ℤ, pos, negsuc, ltb_int, eqb_int, add_nat, pred_int}
use tps_sis_ops.Sched.Env.{
  nenv, envx, Env, Kernel, EnvStatus, runnable, running, dying, has_status, set_env, env_run,
}

-- `run` enters user mode in `curenv`; `halt` waits for an interrupt; `monitor` is the kernel
-- monitor's endless loop where nobody is left to run, and `debug` the same loop, begun by a
-- breakpoint; `fault` reads beyond the table, or through a pointer that is not set; `panic` stops the
-- kernel.
pub data Exit : Type 0 where
  run halt monitor debug : Kernel → Exit
  fault panic out_of_fuel : Exit

abbrev pub initial_priority : ℤ
initial_priority = pos 10

abbrev pub restarting_number : ℕ
restarting_number = 20

abbrev pub max_history : ℕ
max_history = 100

-- The test of the first loop of `sched_halt`.
unfoldable pub is_live : Env → Bool
is_live e = has_status runnable e || has_status running e || has_status dying e

-- What `sched_halt` does behind that loop, which a live environment ended or not.
abbrev pub halt_unless_idle : Kernel → Option ℕ → Exit
halt_unless_idle k none = monitor k
halt_unless_idle k (some _) = halt (record k { curenv = none })

unfoldable pub sched_halt : Kernel → Exit
sched_halt k = halt_unless_idle k (find_from (λ i. is_live (k.envs i)) nenv 0)

-- The end that both schedulers share, where nobody else can run, for a `curenv`.
abbrev pub stay_in : Kernel → Option ℕ → Exit
stay_in k none = sched_halt k
stay_in k (some c) = if has_status running (k.envs c) then run (env_run k c) else sched_halt k

unfoldable pub stay : Kernel → Exit
stay k = stay_in k k.curenv

-- How the round robin's `while` ends.
pub data Search : Type 0 where
  found : ℕ → Search
  nobody beyond unfinished : Search

-- `while (curenv != &envs[index])`, for `curenv` in slot `c`, on fuel.
unfoldable pub circular : (ℕ → Env) → ℕ → ℕ → ℕ → Search
circular envs c zero index = unfinished
circular envs c (suc n) index =
    let rest = circular envs c n (if index + 1 == nenv then 0 else index + 1) in
    if index == c
    then nobody
    else (if leb nenv index
        then beyond
        else (if has_status runnable (envs index) then found index else rest))

unfoldable pub next_in_turn : Kernel → Search
next_in_turn k = elim k.curenv [
  | none ↦ elim (find_from (λ i. has_status runnable (k.envs i)) nenv 0) [
    | none ↦ nobody
    | some i ↦ found i
  ]
  | some c ↦ circular k.envs c nenv (envx (k.envs c).env_id + 1)
]

-- `sched_round_robin` behind its search.
abbrev pub take_turn : Kernel → Search → Exit
take_turn k (found i) = run (env_run k i)
take_turn k nobody = stay k
take_turn k beyond = fault
take_turn k unfinished = out_of_fuel

unfoldable pub sched_round_robin : Kernel → Exit
sched_round_robin k = take_turn k (next_in_turn k)

-- What a round of `improve_priorities` does to its environment.
unfoldable pub improve : Env → Env
improve e =
    if has_status runnable e && ltb_int (add_nat e.env_priority 5) initial_priority
    then record e { env_priority = add_nat e.env_priority 5 }
    else e

unfoldable pub improve_priorities : Kernel → Kernel
improve_priorities k = record k { envs = λ i. improve (k.envs i) }

-- `highest_priority` and `next_env`.
pub record Best : Type 0 where
  pub highest_priority : ℤ
  pub next_env : Option ℕ

-- `next_env = &envs[index]`, with its priority.
abbrev pub take_env : (ℕ → Env) → ℕ → Best
take_env envs index = record { highest_priority = (envs index).env_priority; next_env = some index }

-- A round of the loop of `sched_with_priority`.
unfoldable pub consider : (ℕ → Env) → Best → ℕ → Best
consider envs best index =
    if has_status runnable (envs index)
    then (if ltb_int best.highest_priority (envs index).env_priority
        then take_env envs index
        else (if eqb_int (envs index).env_priority best.highest_priority
            then elim best.next_env [
              | none ↦ record best { next_env = some index }
              | some j ↦
                  if ltb (envs index).env_runs (envs j).env_runs
                  then record best { next_env = some index }
                  else best
            ]
            else best))
    else best

-- The loop's variables at first.
abbrev pub no_env : Best
no_env = record { highest_priority = negsuc 0; next_env = none }

-- The first `n` rounds of that loop.
unfoldable pub consider_all : (ℕ → Env) → ℕ → ℕ → Best
consider_all envs start zero = no_env
consider_all envs start (suc n) = consider envs (consider_all envs start n) ((start + n) % nenv)

unfoldable pub start_index : Kernel → ℕ
start_index k = elim k.curenv [ none ↦ 0 | some c ↦ envx (k.envs c).env_id + 1 ]

-- The state in which `sched_with_priority` runs its loop.
unfoldable pub count_call : Kernel → Kernel
count_call k =
    let k' = record k { sched_calls = k.sched_calls + 1 } in
    if k'.sched_calls % restarting_number == 0 then improve_priorities k' else k'

-- What it does with the environment it found: the history and the priority.
unfoldable pub charge : Kernel → ℕ → Kernel
charge k i =
    let e = k.envs i in
    let h =
      if ltb k.history_index max_history
      then record k {
        execution_history = update k.execution_history k.history_index e.env_id;
        history_index = k.history_index + 1;
      }
      else k in
    if ltb_int (pos 0) e.env_priority
    then set_env h i (record e { env_priority = pred_int e.env_priority })
    else h

-- `sched_with_priority` behind its loop, with its `next_env`.
abbrev pub dispatch : Kernel → Option ℕ → Exit
dispatch k none = stay k
dispatch k (some i) = run (env_run (charge k i) i)

-- `sched_with_priority` from the declaration of `next_env` on.
unfoldable pub choose : Kernel → Exit
choose k = dispatch k (consider_all k.envs (start_index k) nenv).next_env

unfoldable pub sched_with_priority : Kernel → Exit
sched_with_priority k = choose (count_call k)

-- The macro that the kernel is built with.
pub data Policy : Type 0 where
  unscheduled round_robin priorities : Policy

-- `sched_yield` without either macro, for a `curenv`.
abbrev pub run_current : Kernel → Option ℕ → Exit
run_current k none = sched_halt k
run_current k (some c) = run (env_run k c)

unfoldable pub sched_yield : Policy → Kernel → Exit
sched_yield round_robin k = sched_round_robin k
sched_yield priorities k = sched_with_priority k
sched_yield unscheduled k = run_current k k.curenv
