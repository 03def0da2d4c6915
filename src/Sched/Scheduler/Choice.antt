-- ===== src/Sched/Scheduler/Choice.antt =====
-- What `sched_with_priority` (sched/kern/sched.c) runs, from the invariant of its loop.
use mathlib.Core.Path.{subst}
use tps_sis_ops.Base.{ℕ, ◌+◌, ◌-◌, ◌%◌, ◌<◌, ◌≡◌, ap, ◌⊎◌, inl, inr, true, false, arith}
use tps_sis_ops.Base.Int.{negsuc, ltb_int}
use tps_sis_ops.Sched.Env.{nenv, Kernel, env_run, runnable, has_status}
use tps_sis_ops.Sched.Scheduler.Order.{before}
use tps_sis_ops.Sched.Scheduler.{
  run, start_index, count_call, charge, stay, sched_with_priority, choose, dispatch, Best, take_env,
  no_env, consider_all,
}
use tps_sis_ops.Sched.Scheduler.Priorities.{
  slot_at, Chosen, holds_none, holds_some, consider_all-Holds,
}

-- Every slot has its round.
round_of : (start j : ℕ) → j < nenv → (r : ℕ) × (r < nenv) × (slot_at start r ≡ j)
round_of start j lt = ((j + nenv - start % nenv) % nenv, omega arith, omega (arith, lt))

-- Slot `i` holds what `sched_with_priority` is after: no runnable environment of the table goes
-- before it, and those that the loop met earlier come behind it.
pub record Pick (k : Kernel) (i : ℕ) : Type 0 where
  pub inside : i < nenv
  pub chosen : Chosen k.envs (start_index k) nenv i
  pub unbeaten :
      (j : ℕ)
      → j < nenv
      → has_status runnable (k.envs j) ≡ true
      → before (k.envs j) (k.envs i) ≡ false

Chosen-Pick : (k : Kernel) (i : ℕ) → Chosen k.envs (start_index k) nenv i → Pick k i
Chosen-Pick k i c = record {
  inside = omega (arith, c.slot);
  chosen = c;
  unbeaten = λ j lt ready.
      let (r, early, at) = round_of (start_index k) j lt in
      subst (λ j. has_status runnable (k.envs j) ≡ true → before (k.envs j) (k.envs i) ≡ false) at
        (c.best r early) ready;
}

choose-Best :
    (k : Kernel) (b : Best)
    → consider_all k.envs (start_index k) nenv ≡ b
    → choose k ≡ dispatch k b.next_env
unfolding choose
choose-Best k b e = ap (λ b. dispatch k b.next_env) e

-- Unless every runnable environment has a priority below -1, the priority scheduler runs one that
-- no runnable environment goes before (by a higher priority, or by the same and fewer runs), the
-- first of these in circular order behind the current one, after it has counted the call (which
-- every twentieth time raises priorities) and charged the environment. Otherwise it keeps a current
-- environment that is running, or halts.
pub sched_with_priority_lem :
    (k : Kernel)
    → ((i : ℕ) × (sched_with_priority k ≡ run (env_run (charge (count_call k) i) i))
        × Pick (count_call k) i)
      ⊎ ((sched_with_priority k ≡ stay (count_call k))
          × ((j : ℕ)
              → j < nenv
              → has_status runnable ((count_call k).envs j) ≡ true
              → ltb_int ((count_call k).envs j).env_priority (negsuc 0) ≡ true))
unfolding sched_with_priority
sched_with_priority_lem k =
    let k' = count_call k in
    elim (consider_all-Holds k'.envs (start_index k') nenv) [
      | holds_some i e c ↦ inl (i, choose-Best k' (take_env k'.envs i) e, Chosen-Pick k' i c)
      | holds_none e low ↦ inr (
        choose-Best k' no_env e,
        λ j lt ready.
            let (r, early, at) = round_of (start_index k') j lt in
            subst
              (λ j.
                has_status runnable (k'.envs j) ≡ true
                → ltb_int (k'.envs j).env_priority (negsuc 0) ≡ true)
              at (low r early) ready,
      )
    ]
