-- ===== src/Sched/Trap/Liveness.antt =====
-- Every runnable environment gets its turn under the round robin (sched/kern/trap.c,
-- sched/kern/sched.c).
use mathlib.Core.Path.{subst}
use tps_sis_ops.Base.{
  ℕ, zero, suc, ◌+◌, ◌-◌, ◌%◌, ◌<◌, ◌≤◌, ◌≡◌, ◌≢◌, refl, sym, ap, ◌∙◌, ◌⊎◌, inl, inr, Option, none,
  some, true, false, ◌==◌, ltb, Bool-cases, arith,
}
use tps_sis_ops.Sched.Env.{
  nenv, envx, Env, Trapframe, Kernel, free, runnable, running, dying, has_status, status_code,
  set_env, preempt_current, preempt, env_run,
}
use tps_sis_ops.Sched.Scheduler.{round_robin, run, sched_round_robin, sched_yield}
use tps_sis_ops.Sched.Scheduler.Priorities.{slot_at}
use tps_sis_ops.Sched.Scheduler.RoundRobin.{Turn, sched_round_robin_lem}
use tps_sis_ops.Sched.Trap.{Given, timer, cause, after_dispatch, dispatch_user, user_trap, trap}

-- A timer interrupt from user mode.
abbrev pub IsTick : Trapframe → Type 0
IsTick tf = (tf.tf_cs % 4 ≡ 3) × (tf.tf_trapno ≡ 32)

-- Slot `j` is the current one now or after at most `n` timer interrupts, whatever the registers that
-- they find.
abbrev pub Served : Given → ℕ → ℕ → Kernel → Type 0
Served g j zero k = k.curenv ≡ some j
Served g j (suc n) k =
    (k.curenv ≡ some j)
    ⊎ ((tf : Trapframe) → IsTick tf → (k' : Kernel) × (trap g k tf ≡ run k') × Served g j n k')

-- The environment in slot `c` runs; the ids of the slots that are not free name their slots; the last
-- slot, which the round robin does not leave, does not wait for the CPU.
pub record Runs (k : Kernel) (c : ℕ) : Type 0 where
  pub current : k.curenv ≡ some c
  pub inside : c < nenv - 1
  pub active : has_status running (k.envs c) ≡ true
  pub ids : (i : ℕ) → i < nenv → has_status free (k.envs i) ≡ false → envx (k.envs i).env_id ≡ i
  pub last : has_status runnable (k.envs (nenv - 1)) ≡ false

-- How far slot `j` is behind slot `c`.
abbrev behind : ℕ → ℕ → ℕ
behind c j = (j + nenv - c) % nenv

-- The state in which the scheduler is called: the frame is saved.
abbrev saved : Kernel → ℕ → Trapframe → Kernel
saved k c tf = set_env k c (record (k.envs c) { env_tf = tf })

saved-status :
    (k : Kernel) (c : ℕ) (tf : Trapframe) (i : ℕ)
    → (((saved k c tf).envs i).env_status ≡ (k.envs i).env_status)
      × (((saved k c tf).envs i).env_id ≡ (k.envs i).env_id)
saved-status k c tf i = elim (Bool-cases (i == c)) [
  | inl e ↦
      let p : c ≡ i = ground arith in
      rw e (ap (λ i. (k.envs i).env_status) p, ap (λ i. (k.envs i).env_id) p)
  | inr e ↦ rw e (refl, refl)
]

has_status-eq :
    (e e' : Env) → e.env_status ≡ e'.env_status → has_status runnable e ≡ has_status runnable e'
has_status-eq e e' h = ap (λ s. status_code s == 2) h

-- A tick calls the scheduler.
tick-yields :
    (g : Given) (k : Kernel) (c : ℕ) (tf : Trapframe)
    → g.policy ≡ round_robin
    → Runs k c
    → IsTick tf
    → trap g k tf ≡ sched_round_robin (saved k c tf)
unfolding trap cause sched_yield
tick-yields g k c tf policy r (user, timed) =
    let mode : (tf.tf_cs % 4 == 3) ≡ true = rw user refl in
    let why : cause tf.tf_trapno ≡ timer = rw timed refl in
    let lives : has_status dying (k.envs c) ≡ false = let a = r.active in ground arith in
    rw mode (
      ap (user_trap g k tf) r.current
      ∙ rw lives (
          ap (λ w. after_dispatch g.policy (dispatch_user g (saved k c tf) c tf w)) why
          ∙ ap (λ p. sched_yield p (saved k c tf)) policy))

module _ (k : Kernel) (c i : ℕ) (current : k.curenv ≡ some c) where
  preempted-id : (o : Option ℕ) (x : ℕ) → ((preempt_current k o).envs x).env_id ≡ (k.envs x).env_id
  preempted-id none x = refl
  preempted-id (some d) x = elim (Bool-cases (has_status running (k.envs d))) [
    | inl r ↦ rw r (elim (Bool-cases (x == d)) [
      | inl e ↦ let p : d ≡ x = ground arith in rw e (ap (λ i. (k.envs i).env_id) p)
      | inr e ↦ rw e refl
    ])
    | inr r ↦ rw r refl
  ]

  env_run-id : (x : ℕ) → ((env_run k i).envs x).env_id ≡ (k.envs x).env_id
  unfolding env_run preempt
  env_run-id x = elim (Bool-cases (x == i)) [
    | inl e ↦
        let p : i ≡ x = ground arith in
        rw e (preempted-id k.curenv i ∙ ap (λ i. (k.envs i).env_id) p)
    | inr e ↦ rw e (preempted-id k.curenv x)
  ]

  env_run-other : (x : ℕ) → (x == i) ≡ false → (x == c) ≡ false → (env_run k i).envs x ≡ k.envs x
  unfolding env_run preempt
  env_run-other x not_i not_c =
      let quiet : (preempt_current k (some c)).envs x ≡ k.envs x =
        elim (Bool-cases (has_status running (k.envs c))) [
          | inl r ↦ rw (r, not_c) refl
          | inr r ↦ rw r refl
        ] in
      rw not_i (ap (λ o. (preempt_current k o).envs x) current ∙ quiet)

module _ (k : Kernel) (c : ℕ) (tf : Trapframe) (r : Runs k c) where
  saved-runnable :
      (i : ℕ) → has_status runnable ((saved k c tf).envs i) ≡ has_status runnable (k.envs i)
  saved-runnable i = has_status-eq ((saved k c tf).envs i) (k.envs i) (saved-status k c tf i).0

  -- A slot that is in use behind a tick was in use before.
  Turn-in_use :
      (i : ℕ)
      → has_status runnable (k.envs i) ≡ true
      → (x : ℕ) → has_status free ((env_run (saved k c tf) i).envs x) ≡ false
      → has_status free (k.envs x) ≡ false
  Turn-in_use i ready x used = elim (Bool-cases (x == i)) [
    | inl e ↦
        let p : i ≡ x = ground arith in
        let q = subst (λ i. has_status runnable (k.envs i) ≡ true) p ready in ground arith
    | inr not_i ↦ elim (Bool-cases (x == c)) [
      | inl e ↦
          let p : c ≡ x = ground arith in
          let q = subst (λ i. has_status running (k.envs i) ≡ true) p r.active in ground arith
      | inr not_c ↦
          let same = env_run-other (saved k c tf) c i r.current x not_i not_c in
          ap (λ s. status_code s == 0) (sym (saved-status k c tf x).0)
          ∙ ap (λ (e : Env). has_status free e) (sym same)
          ∙ used
    ]
  ]

  -- The slot whose turn it is runs then, and is not further behind than one that waits.
  Turn-Runs : (i : ℕ) → Turn (saved k c tf).envs c 0 i → Runs (env_run (saved k c tf) i) i
  unfolding env_run
  Turn-Runs i t =
      let at = t.slot in
      let ready = sym (saved-runnable i) ∙ t.ready in
      let unlike : i ≢ nenv - 1 = λ e.
        let s = subst (λ i. has_status runnable (k.envs i) ≡ true) e ready in
        let l = r.last in absurd (ground arith) in
      let below : i < nenv - 1 = omega (arith, at, unlike) in
      let same : (i == i) ≡ true = ground arith in
      let last_i : (nenv - 1 == i) ≡ false = ground arith in
      let in_c = r.inside in
      let last_c : (nenv - 1 == c) ≡ false = ground arith in
      record {
        current = refl;
        inside = below;
        active = rw same refl;
        ids = λ x lt used.
            ap envx (env_run-id (saved k c tf) c i r.current x ∙ (saved-status k c tf x).1)
            ∙ r.ids x lt (Turn-in_use i ready x used);
        last =
            ap (λ e. has_status runnable e)
              (env_run-other (saved k c tf) c i r.current (nenv - 1) last_i last_c)
            ∙ saved-runnable (nenv - 1)
            ∙ r.last;
      }

  Turn-closer :
      (i j : ℕ)
      → j < nenv
      → j ≢ c
      → has_status runnable (k.envs j) ≡ true
      → Turn (saved k c tf).envs c 0 i
      → behind i j < behind c j
  Turn-closer i j lt other ready t = elim (Bool-cases (ltb (behind c j - 1) t.round)) [
    | inl late ↦
        let in_c = r.inside in
        let slot : slot_at (c + 1) (behind c j - 1) ≡ j = omega (arith, lt, other, in_c) in
        let missed = t.first (behind c j - 1) (omega arith) (ground arith) in
        let m : has_status runnable ((saved k c tf).envs j) ≡ false =
          subst (λ j. has_status runnable ((saved k c tf).envs j) ≡ false) slot missed in
        let q = saved-runnable j in absurd (ground arith)
    | inr early ↦
        let in_c = r.inside in
        let at = t.slot in
        let e : t.round ≤ behind c j - 1 = ground arith in omega (arith, lt, other, in_c, at, e)
  ]

-- The environment in slot `j` waits, or runs.
abbrev Waits : Kernel → ℕ → ℕ → Type 0
Waits k c j = (j ≡ c) ⊎ (has_status runnable (k.envs j) ≡ true)

-- A tick passes the turn on, to an environment that is not as far before `j`.
tick-closer :
    (g : Given) (k : Kernel) (c j : ℕ) (tf : Trapframe)
    → g.policy ≡ round_robin
    → Runs k c
    → IsTick tf
    → j < nenv - 1
    → j ≢ c
    → has_status runnable (k.envs j) ≡ true
    → (i : ℕ) × (k' : Kernel) × (trap g k tf ≡ run k')
      × Runs k' i
      × (behind i j < behind c j)
      × Waits k' i j
tick-closer g k c j tf policy r tick lt other ready =
    let in_c = r.inside in
    let own =
      ap envx (saved-status k c tf c).1
      ∙ r.ids c (omega (arith, in_c)) (let a = r.active in ground arith) in
    let yields = tick-yields g k c tf policy r tick in
    elim (sched_round_robin_lem (saved k c tf) c r.current (omega (arith, in_c)) own) [
      | inr (last, _) ↦ absurd (omega (arith, last, in_c))
      | inl (_, inr (_, none_else)) ↦
          let n = sym (saved-runnable k c tf r j) ∙ none_else j (omega (arith, lt)) other in
          absurd (ground arith)
      | inl (_, inl (i, e, t)) ↦ (
        i,
        env_run (saved k c tf) i,
        yields ∙ e,
        Turn-Runs k c tf r i t,
        Turn-closer k c tf r i j (omega (arith, lt)) other ready t,
        elim (Bool-cases (j == i)) [
          | inl same ↦ inl (ground arith)
          | inr differs ↦
              let not_c : (j == c) ≡ false = ground arith in
              inr (
                ap (λ e. has_status runnable e)
                  (env_run-other (saved k c tf) c i r.current j differs not_c)
                ∙ saved-runnable k c tf r j
                ∙ ready)
        ],
      )
    ]

Waits-Served :
    (g : Given) (j : ℕ)
    → g.policy ≡ round_robin
    → j < nenv - 1
    → (n : ℕ) (k : Kernel) (c : ℕ) → Runs k c
    → behind c j ≤ n
    → Waits k c j
    → Served g j n k
Waits-Served g j policy lt zero k c r near w =
    let in_c = r.inside in let e : c ≡ j = omega (arith, in_c, lt, near) in r.current ∙ ap some e
Waits-Served g j policy lt (suc n) k c r near (inl here) = inl (r.current ∙ ap some (sym here))
Waits-Served g j policy lt (suc n) k c r near (inr ready) = elim (Bool-cases (j == c)) [
  | inl e ↦ let p : c ≡ j = ground arith in inl (r.current ∙ ap some p)
  | inr e ↦ inr λ tf tick.
      let (i, k', out, r', closer, w) =
        tick-closer g k c j tf policy r tick lt (ground arith) ready in
      (k', out, Waits-Served g j policy lt n k' i r' (omega (arith, near, closer)) w)
]

-- Under the round robin, while an environment runs and the ids of the slots in use name their slots,
-- and if the environment in the last slot is not runnable, every runnable environment is the current one after at most 1023 timer interrupts,
-- whatever the registers that they find, if nothing else enters the kernel in between.
pub runnable-Served :
    (g : Given) (k : Kernel) (c j : ℕ)
    → g.policy ≡ round_robin
    → Runs k c
    → j < nenv - 1
    → has_status runnable (k.envs j) ≡ true
    → Served g j (nenv - 1) k
runnable-Served g k c j policy r lt ready =
    Waits-Served g j policy lt (nenv - 1) k c r (omega arith) (inr ready)
