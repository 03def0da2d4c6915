-- ===== src/Sched/Scheduler/Priorities.antt =====
-- The loop of `sched_with_priority` (sched/kern/sched.c).
use mathlib.Core.Path.{subst}
use tps_sis_ops.Base.{
  ℕ, zero, suc, ◌+◌, ◌%◌, ◌<◌, ◌≡◌, refl, sym, ap, inl, inr, some, true, false, ltb, ◌==◌,
  Bool-cases, arith,
}
use tps_sis_ops.Base.Int.{ℤ, pos, negsuc, ltb_int, eqb_int, eq_of_eqb_int}
use tps_sis_ops.Sched.Env.{nenv, Env, runnable, has_status}
use tps_sis_ops.Sched.Scheduler.Order.{
  before, before_irrefl, before_asym, before_trans, over_floor, keeps_floor,
}
use tps_sis_ops.Sched.Scheduler.{Best, take_env, no_env, consider, consider_all}

-- The slot of a round of a loop over the table, in circular order from `start` on.
abbrev pub slot_at : ℕ → ℕ → ℕ
slot_at start r = (start + r) % nenv

-- What the first `n` rounds from `start` on have found when they hold slot `k`: a runnable
-- environment of priority at least -1 that goes before those of the earlier rounds, and that none
-- of the `n` rounds goes before.
pub record Chosen (envs : ℕ → Env) (start n k : ℕ) : Type 0 where
  pub round : ℕ
  pub early : round < n
  pub slot : k ≡ slot_at start round
  pub ready : has_status runnable (envs k) ≡ true
  pub floor : ltb_int (envs k).env_priority (negsuc 0) ≡ false
  pub first :
      (r : ℕ)
      → r < round
      → has_status runnable (envs (slot_at start r)) ≡ true
      → before (envs k) (envs (slot_at start r)) ≡ true
  pub best :
      (r : ℕ)
      → r < n
      → has_status runnable (envs (slot_at start r)) ≡ true
      → before (envs (slot_at start r)) (envs k) ≡ false

-- No runnable environment of the first `n` rounds has a priority of -1 or more.
abbrev pub NoCandidate : (ℕ → Env) → ℕ → ℕ → Type 0
NoCandidate envs start n =
    (r : ℕ)
    → r < n
    → has_status runnable (envs (slot_at start r)) ≡ true
    → ltb_int (envs (slot_at start r)).env_priority (negsuc 0) ≡ true

-- The two forms of the loop's variables.
pub data Holds (envs : ℕ → Env) (start n : ℕ) (b : Best) : Type 0 where
  holds_none : b ≡ no_env → NoCandidate envs start n → Holds envs start n b
  holds_some : (k : ℕ) → b ≡ take_env envs k → Chosen envs start n k → Holds envs start n b

consider_skip :
    (envs : ℕ → Env) (b : Best) (i : ℕ)
    → has_status runnable (envs i) ≡ false
    → consider envs b i ≡ b
unfolding consider
consider_skip envs b i h = rw h refl

consider_take :
    (envs : ℕ → Env) (k i : ℕ)
    → has_status runnable (envs i) ≡ true
    → before (envs i) (envs k) ≡ true
    → consider envs (take_env envs k) i ≡ take_env envs i
unfolding consider before
consider_take envs k i h b =
    elim (Bool-cases (ltb_int (envs k).env_priority (envs i).env_priority)) [
      | inl e ↦ rw (h, e) refl
      | inr e ↦ elim (Bool-cases (eqb_int (envs i).env_priority (envs k).env_priority)) [
        | inl q ↦
            let p = eq_of_eqb_int (envs i).env_priority (envs k).env_priority q in
            let r : ltb (envs i).env_runs (envs k).env_runs ≡ true = ground arith in
            rw (h, e, q, r) (ap (λ x. record { highest_priority = x; next_env = some i }) (sym p))
        | inr q ↦ ground arith
      ]
    ]

consider_keep :
    (envs : ℕ → Env) (k i : ℕ)
    → has_status runnable (envs i) ≡ true
    → before (envs i) (envs k) ≡ false
    → consider envs (take_env envs k) i ≡ take_env envs k
unfolding consider before
consider_keep envs k i h b =
    let e : ltb_int (envs k).env_priority (envs i).env_priority ≡ false = ground arith in
    elim (Bool-cases (eqb_int (envs i).env_priority (envs k).env_priority)) [
      | inl q ↦
          let r : ltb (envs i).env_runs (envs k).env_runs ≡ false = ground arith in
          rw (h, e, q, r) refl
      | inr q ↦ rw (h, e, q) refl
    ]

at_floor :
    (p : ℤ)
    → ltb_int p (negsuc 0) ≡ false
    → ltb_int (negsuc 0) p ≡ false
    → eqb_int p (negsuc 0) ≡ true
at_floor (pos x) a b = ground arith
at_floor (negsuc x) a b = ground arith

below_floor :
    (p : ℤ)
    → ltb_int p (negsuc 0) ≡ true
    → (ltb_int (negsuc 0) p ≡ false) × (eqb_int p (negsuc 0) ≡ false)
below_floor (pos x) a = ground arith
below_floor (negsuc x) a = (ground arith, ground arith)

consider_first :
    (envs : ℕ → Env) (i : ℕ)
    → has_status runnable (envs i) ≡ true
    → ltb_int (envs i).env_priority (negsuc 0) ≡ false
    → consider envs no_env i ≡ take_env envs i
unfolding consider
consider_first envs i h b = elim (Bool-cases (ltb_int (negsuc 0) (envs i).env_priority)) [
  | inl e ↦ rw (h, e) refl
  | inr e ↦
      let q = at_floor (envs i).env_priority b e in
      let p = eq_of_eqb_int (envs i).env_priority (negsuc 0) q in
      rw (h, e, q) (ap (λ x. record { highest_priority = x; next_env = some i }) (sym p))
]

consider_low :
    (envs : ℕ → Env) (i : ℕ)
    → has_status runnable (envs i) ≡ true
    → ltb_int (envs i).env_priority (negsuc 0) ≡ true
    → consider envs no_env i ≡ no_env
unfolding consider
consider_low envs i h b =
    let (above, apart) = below_floor (envs i).env_priority b in rw (h, above, apart) refl

-- What holds of the rounds so far and of this one holds of the rounds up to this one.
up_to : (P : ℕ → Type 0) (n : ℕ) → P n → ((r : ℕ) → r < n → P r) → (r : ℕ) → r < suc n → P r
up_to P n now past r lt = elim (Bool-cases (r == n)) [
  | inl q ↦ let p : n ≡ r = ground arith in subst P p now
  | inr q ↦ past r (ground arith)
]

module _ (envs : ℕ → Env) (start n : ℕ) where
  abbrev this : ℕ
  this = slot_at start n

  -- A round that keeps the environment in slot `k`.
  Chosen-keep :
      (k : ℕ)
      → (has_status runnable (envs this) ≡ true → before (envs this) (envs k) ≡ false)
      → Chosen envs start n k
      → Chosen envs start (suc n) k
  Chosen-keep k now c = record {
    round = c.round;
    early = omega (arith, c.early);
    slot = c.slot;
    ready = c.ready;
    floor = c.floor;
    first = c.first;
    best =
        up_to
          (λ r.
            has_status runnable (envs (slot_at start r)) ≡ true
            → before (envs (slot_at start r)) (envs k) ≡ false)
          n now c.best;
  }

  -- A round that takes its own.
  Chosen-take :
      has_status runnable (envs this) ≡ true
      → ltb_int (envs this).env_priority (negsuc 0) ≡ false
      → ((r : ℕ)
          → r < n
          → has_status runnable (envs (slot_at start r)) ≡ true
          → before (envs this) (envs (slot_at start r)) ≡ true)
      → Chosen envs start (suc n) this
  Chosen-take ready floor first = record {
    round = n;
    early = omega arith;
    slot = refl;
    ready = ready;
    floor = floor;
    first = first;
    best =
        up_to
          (λ r.
            has_status runnable (envs (slot_at start r)) ≡ true
            → before (envs (slot_at start r)) (envs this) ≡ false)
          n (λ _. before_irrefl (envs this))
          λ r lt on. before_asym (envs this) (envs (slot_at start r)) (first r lt on);
  }

  NoCandidate-keep :
      (has_status runnable (envs this) ≡ true → ltb_int (envs this).env_priority (negsuc 0) ≡ true)
      → NoCandidate envs start n
      → NoCandidate envs start (suc n)
  NoCandidate-keep now past =
      up_to
        (λ r.
          has_status runnable (envs (slot_at start r)) ≡ true
          → ltb_int (envs (slot_at start r)).env_priority (negsuc 0) ≡ true)
        n now past

  Holds-none-step : NoCandidate envs start n → Holds envs start (suc n) (consider envs no_env this)
  Holds-none-step past = elim (Bool-cases (has_status runnable (envs this))) [
    | inr off ↦
        holds_none (consider_skip envs no_env this off)
          (NoCandidate-keep (λ on. absurd (ground arith)) past)
    | inl on ↦ elim (Bool-cases (ltb_int (envs this).env_priority (negsuc 0))) [
      | inl low ↦ holds_none (consider_low envs this on low) (NoCandidate-keep (λ _. low) past)
      | inr floor ↦ holds_some this (consider_first envs this on floor) (
          Chosen-take on floor
            λ r lt ready. over_floor (envs this) (envs (slot_at start r)) floor (past r lt ready))
    ]
  ]

  Holds-some-step :
      (k : ℕ)
      → Chosen envs start n k
      → Holds envs start (suc n) (consider envs (take_env envs k) this)
  Holds-some-step k c = elim (Bool-cases (has_status runnable (envs this))) [
    | inr off ↦
        holds_some k (consider_skip envs (take_env envs k) this off)
          (Chosen-keep k (λ on. absurd (ground arith)) c)
    | inl on ↦ elim (Bool-cases (before (envs this) (envs k))) [
      | inr behind ↦
          holds_some k (consider_keep envs k this on behind) (Chosen-keep k (λ _. behind) c)
      | inl ahead ↦ holds_some this (consider_take envs k this on ahead) (
          Chosen-take on (keeps_floor (envs this) (envs k) ahead c.floor) λ r lt ready.
            before_trans (envs this) (envs k) (envs (slot_at start r)) ahead (c.best r lt ready))
    ]
  ]

  Holds-step : (b : Best) → Holds envs start n b → Holds envs start (suc n) (consider envs b this)
  Holds-step b (holds_none e past) =
      subst (λ b. Holds envs start (suc n) (consider envs b this)) (sym e) (Holds-none-step past)
  Holds-step b (holds_some k e c) =
      subst (λ b. Holds envs start (suc n) (consider envs b this)) (sym e) (Holds-some-step k c)

pub consider_all-Holds :
    (envs : ℕ → Env) (start n : ℕ) → Holds envs start n (consider_all envs start n)
unfolding consider_all
consider_all-Holds envs start zero = holds_none refl λ r lt ready. absurd (omega arith)
consider_all-Holds envs start (suc n) =
    Holds-step envs start n (consider_all envs start n) (consider_all-Holds envs start n)
