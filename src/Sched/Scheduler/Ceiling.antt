-- ===== src/Sched/Scheduler/Ceiling.antt =====
-- Priorities never rise above the initial one in the scheduler (sched/kern/sched.c).
use tps_sis_ops.Base.{
  ℕ, zero, suc, ◌+◌, ◌%◌, ◌≡◌, refl, inl, inr, Option, none, some, true, false, ◌&&◌, ltb, ◌==◌,
  Bool-cases, update, arith,
}
use tps_sis_ops.Base.Int.{ℤ, pos, negsuc, ltb_int, add_nat, pred_int}
use tps_sis_ops.Sched.Env.{
  Env, Kernel, running, runnable, has_status, preempt_current, preempt, env_run,
}
use tps_sis_ops.Sched.Scheduler.{
  Policy, unscheduled, round_robin, priorities, Exit, run, halt, monitor, debug, fault, panic,
  out_of_fuel, Search, found, nobody, beyond, unfinished, initial_priority, restarting_number,
  max_history, sched_halt, halt_unless_idle, stay, stay_in, run_current, take_turn, next_in_turn,
  sched_round_robin, improve, improve_priorities, count_call, charge, dispatch, choose,
  sched_with_priority, sched_yield,
}

-- No environment has a priority over the initial one.
abbrev pub IsBounded : (ℕ → Env) → Type 0
IsBounded envs = (i : ℕ) → ltb_int initial_priority (envs i).env_priority ≡ false

-- An outcome in which every environment is so bounded.
abbrev pub ExitIsBounded : Exit → Type 0
ExitIsBounded (run k) = IsBounded k.envs
ExitIsBounded (halt k) = IsBounded k.envs
ExitIsBounded (monitor k) = IsBounded k.envs
ExitIsBounded (debug k) = IsBounded k.envs
ExitIsBounded fault = Unit
ExitIsBounded panic = Unit
ExitIsBounded out_of_fuel = Unit

pub update-IsBounded :
    (envs : ℕ → Env) (i : ℕ) (e : Env)
    → ltb_int initial_priority e.env_priority ≡ false
    → IsBounded envs
    → IsBounded (update envs i e)
update-IsBounded envs i e low b j = elim (Bool-cases (j == i)) [
  | inl h ↦ rw h low
  | inr h ↦ rw h (b j)
]

preempt_current-IsBounded :
    (k : Kernel) (o : Option ℕ) → IsBounded k.envs → IsBounded (preempt_current k o).envs
preempt_current-IsBounded k none b = b
preempt_current-IsBounded k (some c) b = elim (Bool-cases (has_status running (k.envs c))) [
  | inl r ↦ rw r (update-IsBounded k.envs c _ (b c) b)
  | inr r ↦ rw r b
]

preempt-IsBounded : (k : Kernel) → IsBounded k.envs → IsBounded (preempt k).envs
unfolding preempt
preempt-IsBounded k b = preempt_current-IsBounded k k.curenv b

pub env_run-IsBounded : (k : Kernel) (i : ℕ) → IsBounded k.envs → IsBounded (env_run k i).envs
unfolding env_run
env_run-IsBounded k i b =
    let p = preempt-IsBounded k b in update-IsBounded (preempt k).envs i _ (p i) p

below_initial : (p : ℤ) → ltb_int p initial_priority ≡ true → ltb_int initial_priority p ≡ false
below_initial (pos n) h = ground arith
below_initial (negsuc n) h = refl

pred_bound :
    (p : ℤ) → ltb_int initial_priority p ≡ false → ltb_int initial_priority (pred_int p) ≡ false
pred_bound (pos zero) h = ground arith
pred_bound (pos (suc n)) h = ground arith
pred_bound (negsuc n) h = refl

improve-bound :
    (e : Env)
    → ltb_int initial_priority e.env_priority ≡ false
    → ltb_int initial_priority (improve e).env_priority ≡ false
unfolding improve
improve-bound e h =
    elim (Bool-cases
      (has_status runnable e && ltb_int (add_nat e.env_priority 5) initial_priority)) [
        | inl y ↦ rw y (below_initial (add_nat e.env_priority 5) (ground arith))
        | inr n ↦ rw n h
      ]

count_call-IsBounded : (k : Kernel) → IsBounded k.envs → IsBounded (count_call k).envs
unfolding count_call improve_priorities
count_call-IsBounded k b = elim (Bool-cases ((k.sched_calls + 1) % restarting_number == 0)) [
  | inl y ↦ rw y λ i. improve-bound (k.envs i) (b i)
  | inr n ↦ rw n b
]

charge-IsBounded : (k : Kernel) (i : ℕ) → IsBounded k.envs → IsBounded (charge k i).envs
unfolding charge
charge-IsBounded k i b = elim (Bool-cases (ltb_int (pos 0) (k.envs i).env_priority)) [
  | inl y ↦ elim (Bool-cases (ltb k.history_index max_history)) [
    | inl r ↦ rw (y, r) (update-IsBounded k.envs i _ (pred_bound (k.envs i).env_priority (b i)) b)
    | inr r ↦ rw (y, r) (update-IsBounded k.envs i _ (pred_bound (k.envs i).env_priority (b i)) b)
  ]
  | inr n ↦ elim (Bool-cases (ltb k.history_index max_history)) [
    | inl r ↦ rw (n, r) b
    | inr r ↦ rw (n, r) b
  ]
]

halt_unless_idle-IsBounded :
    (k : Kernel) (o : Option ℕ) → IsBounded k.envs → ExitIsBounded (halt_unless_idle k o)
halt_unless_idle-IsBounded k none b = b
halt_unless_idle-IsBounded k (some i) b = b

sched_halt-IsBounded : (k : Kernel) → IsBounded k.envs → ExitIsBounded (sched_halt k)
unfolding sched_halt
sched_halt-IsBounded k b = halt_unless_idle-IsBounded k _ b

stay_in-IsBounded : (k : Kernel) (o : Option ℕ) → IsBounded k.envs → ExitIsBounded (stay_in k o)
stay_in-IsBounded k none b = sched_halt-IsBounded k b
stay_in-IsBounded k (some c) b = elim (Bool-cases (has_status running (k.envs c))) [
  | inl r ↦ rw r (env_run-IsBounded k c b)
  | inr r ↦ rw r (sched_halt-IsBounded k b)
]

stay-IsBounded : (k : Kernel) → IsBounded k.envs → ExitIsBounded (stay k)
unfolding stay
stay-IsBounded k b = stay_in-IsBounded k k.curenv b

run_current-IsBounded :
    (k : Kernel) (o : Option ℕ) → IsBounded k.envs → ExitIsBounded (run_current k o)
run_current-IsBounded k none b = sched_halt-IsBounded k b
run_current-IsBounded k (some c) b = env_run-IsBounded k c b

take_turn-IsBounded : (k : Kernel) (s : Search) → IsBounded k.envs → ExitIsBounded (take_turn k s)
take_turn-IsBounded k (found i) b = env_run-IsBounded k i b
take_turn-IsBounded k nobody b = stay-IsBounded k b
take_turn-IsBounded k beyond b = tt
take_turn-IsBounded k unfinished b = tt

dispatch-IsBounded : (k : Kernel) (o : Option ℕ) → IsBounded k.envs → ExitIsBounded (dispatch k o)
dispatch-IsBounded k none b = stay-IsBounded k b
dispatch-IsBounded k (some i) b = env_run-IsBounded (charge k i) i (charge-IsBounded k i b)

pub sched_yield-IsBounded :
    (p : Policy) (k : Kernel) → IsBounded k.envs → ExitIsBounded (sched_yield p k)
unfolding sched_yield sched_round_robin sched_with_priority choose
sched_yield-IsBounded round_robin k b = take_turn-IsBounded k (next_in_turn k) b
sched_yield-IsBounded priorities k b =
    dispatch-IsBounded (count_call k) _ (count_call-IsBounded k b)
sched_yield-IsBounded unscheduled k b = run_current-IsBounded k k.curenv b
