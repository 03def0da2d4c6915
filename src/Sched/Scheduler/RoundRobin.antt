-- ===== src/Sched/Scheduler/RoundRobin.antt =====
-- The choice of `sched_round_robin` (sched/kern/sched.c).
use mathlib.Core.Path.{subst}
use tps_sis_ops.Base.{
  ℕ, zero, suc, ◌+◌, ◌-◌, ◌≤◌, ◌<◌, ◌≡◌, refl, sym, ap, ◌∙◌, ◌⊎◌, inl, inr, ◌≢◌, some, true, false,
  ltb, leb, ◌==◌, if◌then◌else◌, Bool-cases, ==_iff, arith,
}
use tps_sis_ops.Sched.Env.{nenv, envx, Env, Kernel, runnable, has_status, env_run}
use tps_sis_ops.Sched.Scheduler.{
  run, fault, take_turn, Search, found, nobody, beyond, circular, next_in_turn, sched_round_robin,
  stay,
}
use tps_sis_ops.Sched.Scheduler.Priorities.{slot_at}

-- Slot `i` is the first runnable one of the rounds from `r` on behind slot `c`, in circular order,
-- before `c` is met again.
pub record Turn (envs : ℕ → Env) (c r i : ℕ) : Type 0 where
  pub round : ℕ
  pub from : r ≤ round
  pub early : round < nenv - 1
  pub slot : i ≡ slot_at (c + 1) round
  pub ready : has_status runnable (envs i) ≡ true
  pub first : (s : ℕ) → r ≤ s → s < round → has_status runnable (envs (slot_at (c + 1) s)) ≡ false

module _ (envs : ℕ → Env) (c : ℕ) (c_in : c < nenv) where
  -- The slot behind that of round `r`.
  abbrev next : ℕ → ℕ
  next r = if slot_at (c + 1) r + 1 == nenv then 0 else slot_at (c + 1) r + 1

  next-slot_at : (r : ℕ) → next r ≡ slot_at (c + 1) (r + 1)
  next-slot_at r = ground arith

  -- What the loop finds from round `r` on.
  abbrev Ends : ℕ → Search → Type 0
  Ends r s =
      ((i : ℕ) × (s ≡ found i) × Turn envs c r i)
      ⊎ ((s ≡ nobody)
          × ((q : ℕ)
              → r ≤ q
              → q < nenv - 1
              → has_status runnable (envs (slot_at (c + 1) q)) ≡ false))

  Ends-miss :
      (r : ℕ) (s : Search)
      → has_status runnable (envs (slot_at (c + 1) r)) ≡ false
      → Ends (r + 1) s
      → Ends r s
  Ends-miss r s miss (inl (i, e, t)) = inl (
    i,
    e,
    record {
      round = t.round;
      from = omega (arith, t.from);
      early = t.early;
      slot = t.slot;
      ready = t.ready;
      first = λ q lo hi. elim (Bool-cases (q == r)) [
        | inl h ↦
            let p : r ≡ q = ground arith in
            subst (λ q. has_status runnable (envs (slot_at (c + 1) q)) ≡ false) p miss
        | inr h ↦ t.first q (ground arith) hi
      ];
    },
  )
  Ends-miss r s miss (inr (e, none_on)) = inr (
    e,
    λ q lo hi. elim (Bool-cases (q == r)) [
      | inl h ↦
          let p : r ≡ q = ground arith in
          subst (λ q. has_status runnable (envs (slot_at (c + 1) q)) ≡ false) p miss
      | inr h ↦ none_on q (ground arith) hi
    ],
  )

  -- The rounds of the loop.
  circular_stop : (n : ℕ) → circular envs c (suc n) c ≡ nobody
  unfolding circular
  circular_stop n = let e : (c == c) ≡ true = ground arith in rw e refl

  circular_hit :
      (n i : ℕ)
      → (i == c) ≡ false
      → leb nenv i ≡ false
      → has_status runnable (envs i) ≡ true
      → circular envs c (suc n) i ≡ found i
  unfolding circular
  circular_hit n i other inside ready = rw (other, inside, ready) refl

  circular_miss :
      (n i : ℕ)
      → (i == c) ≡ false
      → leb nenv i ≡ false
      → has_status runnable (envs i) ≡ false
      → circular envs c (suc n) i ≡ circular envs c n (if i + 1 == nenv then 0 else i + 1)
  unfolding circular
  circular_miss n i other inside miss = rw (other, inside, miss) refl

  last_round : (r : ℕ) → r < nenv → slot_at (c + 1) r ≡ c → r ≡ nenv - 1
  last_round r lt h = omega (arith, c_in)

  not_last : (r : ℕ) → r < nenv → (slot_at (c + 1) r == c) ≡ false → r < nenv - 1
  not_last r lt on = elim (Bool-cases (r == nenv - 1)) [
    | inl e ↦
        let p : r ≡ nenv - 1 = ground arith in
        let q : slot_at (c + 1) r ≡ c = omega (arith, c_in) in absurd (ground arith)
    | inr e ↦ ground arith
  ]

  not_last-suc : (r : ℕ) → r < nenv → (slot_at (c + 1) r == c) ≡ false → r + 1 < nenv
  not_last-suc r lt on = omega (arith, not_last r lt on)

  circular-Ends :
      (n r : ℕ) → r + n ≡ nenv → r < nenv → Ends r (circular envs c n (slot_at (c + 1) r))
  circular-Ends zero r h lt = absurd (omega arith)
  circular-Ends (suc n) r h lt = elim (Bool-cases (slot_at (c + 1) r == c)) [
    | inl stop ↦
        let at : slot_at (c + 1) r ≡ c = (==_iff (slot_at (c + 1) r) c).0 stop in
        let end = last_round r lt at in
        inr (ap (circular envs c (suc n)) at ∙ circular_stop n, λ q lo hi. absurd (omega arith))
    | inr on ↦
        let inside : leb nenv (slot_at (c + 1) r) ≡ false = ground arith in
        elim (Bool-cases (has_status runnable (envs (slot_at (c + 1) r)))) [
          | inl ready ↦ inl (
            slot_at (c + 1) r,
            circular_hit n (slot_at (c + 1) r) on inside ready,
            record {
              round = r;
              from = omega arith;
              early = not_last r lt on;
              slot = refl;
              ready = ready;
              first = λ q lo hi. absurd (omega arith);
            },
          )
          | inr miss ↦ Ends-miss r (circular envs c (suc n) (slot_at (c + 1) r)) miss (
              subst (Ends (r + 1))
                (sym (
                  circular_miss n (slot_at (c + 1) r) on inside miss
                  ∙ ap (circular envs c n) (next-slot_at r)))
                (circular-Ends n (r + 1) (omega (arith, h)) (not_last-suc r lt on)))
        ]
  ]

-- The test at the end of the table comes behind the first read, which is behind the table when the
-- current environment is in the last slot.
circular_beyond : (envs : ℕ → Env) (c n : ℕ) → c < nenv → circular envs c (suc n) nenv ≡ beyond
unfolding circular
circular_beyond envs c n lt = let e : (nenv == c) ≡ false = ground arith in rw e refl

module _ (k : Kernel) (c : ℕ) (current : k.curenv ≡ some c) (c_in : c < nenv)
    (own_id : envx (k.envs c).env_id ≡ c) where
  next-circular : next_in_turn k ≡ circular k.envs c nenv (c + 1)
  unfolding next_in_turn
  next-circular = rw current (ap (λ j. circular k.envs c nenv (j + 1)) own_id)

  -- Every other slot has its round.
  round_behind : (j : ℕ) → j < nenv → j ≢ c → (r : ℕ) × (r < nenv - 1) × (slot_at (c + 1) r ≡ j)
  round_behind j lt other = elim (Bool-cases (ltb c j)) [
    | inl e ↦ (j - (c + 1), ground arith, ground arith)
    | inr e ↦ (j + nenv - (c + 1), ground arith, ground arith)
  ]

  -- What the round robin does for each way that its search ends.
  abbrev Turns : Type 0
  Turns =
      ((i : ℕ) × (sched_round_robin k ≡ run (env_run k i)) × Turn k.envs c 0 i)
      ⊎ ((sched_round_robin k ≡ stay k)
          × ((j : ℕ) → j < nenv → j ≢ c → has_status runnable (k.envs j) ≡ false))

  Ends-Turns :
      c + 1 < nenv → Ends k.envs c c_in 0 (circular k.envs c nenv (slot_at (c + 1) 0)) → Turns
  unfolding sched_round_robin
  Ends-Turns lt ends =
      let at : circular k.envs c nenv (slot_at (c + 1) 0) ≡ next_in_turn k =
        ap (circular k.envs c nenv) (omega arith) ∙ sym next-circular in
      elim ends [
        | inl (i, e, t) ↦ inl (i, ap (take_turn k) (sym at ∙ e), t)
        | inr (e, none_on) ↦ inr (
          ap (take_turn k) (sym at ∙ e),
          λ j inside other.
              let (r, early, slot) = round_behind j inside other in
              subst (λ j. has_status runnable (k.envs j) ≡ false) slot
                (none_on r (omega arith) early),
        )
      ]

  -- For a current environment in slot `c`, which its id names: unless that is the last slot, the
  -- round robin runs the first runnable environment in circular order behind it, and stays with it
  -- (or halts) only if no other one is runnable. In the last slot the search reads behind the
  -- table.
  pub sched_round_robin_lem :
      ((c + 1 < nenv) × Turns) ⊎ ((c + 1 ≡ nenv) × (sched_round_robin k ≡ fault))
  unfolding sched_round_robin
  sched_round_robin_lem = elim (Bool-cases (c + 1 == nenv)) [
    | inl e ↦
        let last : c + 1 ≡ nenv = ground arith in
        inr (
          last,
          ap (take_turn k) (
              next-circular
              ∙ ap (circular k.envs c nenv) last
              ∙ circular_beyond k.envs c (nenv - 1) c_in),
        )
    | inr e ↦
        let lt : c + 1 < nenv = ground arith in
        inl (lt, Ends-Turns lt (circular-Ends k.envs c c_in nenv 0 refl (omega arith)))
  ]
