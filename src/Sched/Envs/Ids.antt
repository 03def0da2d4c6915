-- ===== src/Sched/Envs/Ids.antt =====
-- Environment ids (sched/kern/env.c).
use mathlib.Core.Path.{subst}
use tps_sis_ops.Base.{
  ℕ, ◌+◌, ◌%◌, ◌*◌, ◌/◌, ◌^◌, ◌≤◌, ◌<◌, ◌≡◌, refl, sym, ◌⊎◌, inl, inr, ◌≢◌, some, Bool, true, false,
  ◌&&◌, leb, ◌==◌, Bool-cases, arith,
}
use tps_sis_ops.Sched.Env.{nenv, envx, Env, Kernel, free, has_status}
use tps_sis_ops.Sched.Envs.{
  e_bad_env, stored, refused, envid2env, is_foreign, new_env, next_generation, generation_step,
}

-- Near the top the generations start again; below it they grow by at least 3 of the low bits.
next_generation_wrap :
    (id : ℕ) → id < 2 ^ 31 → 2 ^ 31 ≤ id + generation_step → next_generation id ≡ generation_step
unfolding next_generation
next_generation_wrap id lt top =
    let over : leb (2 ^ 31) ((id + generation_step) % 2 ^ 32 / nenv * nenv) ≡ true = ground arith in
    elim (Bool-cases ((id + generation_step) % 2 ^ 32 / nenv * nenv == 0)) [
      | inl z ↦ rw z refl
      | inr z ↦ rw (z, over) refl
    ]

next_generation_grow :
    (id : ℕ)
    → id + generation_step < 2 ^ 31
    → next_generation id ≡ (id + generation_step) / nenv * nenv
unfolding next_generation
next_generation_grow id lt =
    let same : (id + generation_step) % 2 ^ 32 ≡ id + generation_step = omega arith in
    let z : ((id + generation_step) / nenv * nenv == 0) ≡ false = ground arith in
    let under : leb (2 ^ 31) ((id + generation_step) / nenv * nenv) ≡ false = ground arith in
    rw (same, z, under) refl

-- A generation has its ten low bits clear, is positive as an `int32_t`, and is not that of the id.
record IsNext (id g : ℕ) : Type 0 where
  low : g % nenv ≡ 0
  positive : generation_step ≤ g
  signed : g < 2 ^ 31
  other : g / nenv ≢ id / nenv

next_generation-IsNext : (id : ℕ) → id < 2 ^ 31 → IsNext id (next_generation id)
next_generation-IsNext id lt = elim (Bool-cases (leb (2 ^ 31) (id + generation_step))) [
  | inl top ↦
      let le : 2 ^ 31 ≤ id + generation_step = ground arith in
      subst (IsNext id) (sym (next_generation_wrap id lt le)) record {
        low = refl;
        positive = omega arith;
        signed = omega arith;
        other = λ e. omega (arith, e, le, lt);
      }
  | inr under ↦
      let below : id + generation_step < 2 ^ 31 = ground arith in
      subst (IsNext id) (sym (next_generation_grow id below)) record {
        low = omega arith;
        positive = omega arith;
        signed = omega (arith, below);
        other = λ e. omega (arith, e);
      }
]

-- The id of a new environment in slot `i` is positive and at most 2 ^ 31 - 1, names the slot, and
-- is not the id that the slot had before.
pub new_env_lem :
    (pgdir parent_id i : ℕ) (e : Env)
    → i < nenv
    → e.env_id < 2 ^ 31
    → (envx (new_env pgdir parent_id i e).env_id ≡ i)
      × (0 < (new_env pgdir parent_id i e).env_id)
      × ((new_env pgdir parent_id i e).env_id < 2 ^ 31)
      × ((new_env pgdir parent_id i e).env_id ≢ e.env_id)
unfolding new_env
new_env_lem pgdir parent_id i e lt small =
    let n = next_generation-IsNext e.env_id small in
    (
      omega (arith, n.low),
      omega (arith, n.positive),
      omega (arith, n.low, n.signed),
      λ same. n.other (omega (arith, same, n.low, lt)),
    )

-- What `envid2env` stores: the current environment for 0; otherwise the environment in the slot
-- that the id names, if that is in use under this id, and, with `checkperm`, is the current one or
-- a child of it. Every other id is refused.
pub envid2env_lem :
    (k : Kernel) (envid : ℕ) (checkperm : Bool)
    → ((envid ≡ 0) × (envid2env k envid checkperm ≡ stored k.curenv))
      ⊎ (((envid ≢ 0)
            × (envid2env k envid checkperm ≡ stored (some (envx envid)))
            × (has_status free (k.envs (envx envid)) ≡ false)
            × ((k.envs (envx envid)).env_id ≡ envid)
            × ((checkperm && is_foreign k (envx envid)) ≡ false))
          ⊎ ((envid ≢ 0)
              × (envid2env k envid checkperm ≡ refused e_bad_env)
              × ((has_status free (k.envs (envx envid)) ≡ true)
                  ⊎ (((k.envs (envx envid)).env_id ≢ envid)
                      ⊎ ((checkperm && is_foreign k (envx envid)) ≡ true)))))
unfolding envid2env
envid2env_lem k envid checkperm = elim (Bool-cases (envid == 0)) [
  | inl z ↦ inl (ground arith, rw z refl)
  | inr nz ↦ inr (elim (Bool-cases (has_status free (k.envs (envx envid)))) [
    | inl f ↦ inr (ground arith, rw (nz, f) refl, inl f)
    | inr u ↦ elim (Bool-cases ((k.envs (envx envid)).env_id == envid)) [
      | inr stale ↦ inr (ground arith, rw (nz, u, stale) refl, inr (inl (ground arith)))
      | inl same ↦ elim (Bool-cases (checkperm && is_foreign k (envx envid))) [
        | inl foreign ↦ inr (ground arith, rw (nz, u, same, foreign) refl, inr (inr foreign))
        | inr own ↦ inl (ground arith, rw (nz, u, same, own) refl, u, ground arith, own)
      ]
    ]
  ])
]
