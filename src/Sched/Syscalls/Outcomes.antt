-- ===== src/Sched/Syscalls/Outcomes.antt =====
-- Invariants in the ways that a system call ends (sched/kern/syscall.c, sched/kern/env.c).
use mathlib.Core.Path.{subst}
use tps_sis_ops.Base.{
  ℕ, ◌≡◌, ap, refl, inl, inr, Option, none, some, Bool, true, false, ◌&&◌, not, ◌==◌, if◌then◌else◌,
  Bool-cases, update, arith,
}
use tps_sis_ops.Sched.Memory.{Memory, Check, ok, panicked, e_fault}
use tps_sis_ops.Sched.Envs.{
  Lookup, stored, refused, new_env, alloc_in, alloc_at, release_with, release, env_free,
  env_destroy, is_current, free_address_space, destroyed, Ends, returns, leaves, assert_checked,
  user_mem_assert, env_setup_vm,
}
use tps_sis_ops.Sched.Returns.{
  value, error, Return, back, leave, with_env, with_current, return_zero, then_ok,
}
use tps_sis_ops.Sched.PageCalls.{set_upcall}
use tps_sis_ops.Sched.Syscalls.{child_of, make_child}
use tps_sis_ops.Sched.Env.{Env, Kernel, running, has_status}
use tps_sis_ops.Sched.Scheduler.{Policy, Exit}
use tps_sis_ops.Sched.Syscalls.Interface.{
  untouched-IsTame, stopped-IsTame, ltb_int_irrefl, Keeps, ReturnKeeps, EndsKeeps,
}

module _ {P : (ℕ → Env) → Option ℕ → Type 0} {Q : Exit → Type 0} (inv : Keeps P Q) where
  pub either-Keeps :
      (t : Bool) (x y : Return)
      → ReturnKeeps P Q x
      → ReturnKeeps P Q y
      → ReturnKeeps P Q (if t then x else y)
  either-Keeps true x y a b = a
  either-Keeps false x y a b = b

  pub with_env-Keeps :
      (k : Kernel) (l : Lookup) (rest : ℕ → Return)
      → P k.envs k.curenv
      → ((i : ℕ) → ReturnKeeps P Q (rest i))
      → ReturnKeeps P Q (with_env k l rest)
  with_env-Keeps k (refused e) rest b r = b
  with_env-Keeps k (stored none) rest b r = inv.faults
  with_env-Keeps k (stored (some i)) rest b r = r i

  pub with_current-Keeps :
      (o : Option ℕ) (rest : ℕ → Return)
      → ((c : ℕ) → ReturnKeeps P Q (rest c))
      → ReturnKeeps P Q (with_current o rest)
  with_current-Keeps none rest r = inv.faults
  with_current-Keeps (some c) rest r = r c

  pub then_ok-Keeps :
      (r : Return) (rest : Kernel → Return)
      → ReturnKeeps P Q r
      → ((k : Kernel) → P k.envs k.curenv → ReturnKeeps P Q (rest k))
      → ReturnKeeps P Q (then_ok r rest)
  then_ok-Keeps (back (value v) k) rest b r = r k b
  then_ok-Keeps (back (error e) k) rest b r = b
  then_ok-Keeps (leave x) rest b r = b

  pub return_zero-Keeps : (e : Ends) → EndsKeeps P Q e → ReturnKeeps P Q (return_zero e)
  return_zero-Keeps (returns k) b = b
  return_zero-Keeps (leaves x) b = b

  pub destroyed-Keeps :
      (p : Policy) (current : Bool) (k : Kernel) (i : ℕ) (m : Option Memory)
      → (current ≡ true → k.curenv ≡ some i)
      → P k.envs k.curenv
      → EndsKeeps P Q (destroyed p current (release_with k i m))
  unfolding release
  destroyed-Keeps p current k i none at b = inv.panics
  destroyed-Keeps p true k i (some m) at b = inv.yields p _ (
      inv.deserts k.envs i _ (subst (P k.envs) (at refl) b) refl
        (stopped-IsTame k.envs i _ refl refl))
  destroyed-Keeps p false k i (some m) at b =
      inv.changes k.envs k.curenv i _ b (stopped-IsTame k.envs i _ refl refl)

  is_current-curenv :
      (k : Kernel) (i : ℕ) (o : Option ℕ) → k.curenv ≡ o → is_current k i ≡ true → o ≡ some i
  unfolding is_current
  is_current-curenv k i none e h =
      let f = subst (λ o. (elim o [ none ↦ false | some c ↦ c == i ]) ≡ true) e h in cc
  is_current-curenv k i (some c) e h =
      let f = subst (λ o. (elim o [ none ↦ false | some c ↦ c == i ]) ≡ true) e h in
      let q : c ≡ i = ground arith in ap some q

  pub env_destroy-Keeps :
      (p : Policy) (k : Kernel) (i : ℕ) → P k.envs k.curenv → EndsKeeps P Q (env_destroy p k i)
  unfolding env_destroy env_free
  env_destroy-Keeps p k i b =
      elim (Bool-cases (has_status running (k.envs i) && not (is_current k i))) [
        | inl y ↦ rw y (inv.changes k.envs k.curenv i _ b (stopped-IsTame k.envs i _ refl refl))
        | inr n ↦ rw n (
            destroyed-Keeps p (is_current k i) k i
              (free_address_space k.memory (k.envs i).env_pgdir)
              (is_current-curenv k i k.curenv refl) b)
      ]

  pub assert_checked-Keeps :
      (p : Policy) (k : Kernel) (i : ℕ) (c : Check)
      → P k.envs k.curenv
      → EndsKeeps P Q (assert_checked p k i c)
  assert_checked-Keeps p k i ok b = b
  assert_checked-Keeps p k i panicked b = inv.panics
  assert_checked-Keeps p k i (e_fault va) b = env_destroy-Keeps p k i b

  pub set_upcall-Keeps :
      (i func : ℕ) (e : Ends) → EndsKeeps P Q e → ReturnKeeps P Q (set_upcall i func e)
  set_upcall-Keeps i func (leaves x) b = b
  set_upcall-Keeps i func (returns k) b =
      inv.changes k.envs k.curenv i _ b (untouched-IsTame k.envs i _ refl refl)

  pub alloc_in-Keeps :
      (k : Kernel) (parent_id c i : ℕ) (d : Option ℕ × Memory)
      → P k.envs k.curenv
      → ReturnKeeps P Q (make_child c (alloc_in k parent_id i d))
  unfolding new_env child_of
  alloc_in-Keeps k parent_id c i (none, m) b = b
  alloc_in-Keeps k parent_id c i (some pgdir, m) b =
      let new = new_env pgdir parent_id i (k.envs i) in
      let n = inv.changes k.envs k.curenv i new b (stopped-IsTame k.envs i new refl refl) in
      inv.changes (update k.envs i new) k.curenv i _ n record {
        stays = inr refl;
        origin = c;
        low = ltb_int_irrefl (update k.envs i new c).env_priority;
      }

  pub alloc_at-Keeps :
      (k : Kernel) (parent_id c : ℕ) (o : Option ℕ)
      → P k.envs k.curenv
      → ReturnKeeps P Q (make_child c (alloc_at k parent_id o))
  alloc_at-Keeps k parent_id c none b = b
  alloc_at-Keeps k parent_id c (some i) b = alloc_in-Keeps k parent_id c i (env_setup_vm k.memory) b

  pub user_mem_assert-Keeps :
      (p : Policy) (k : Kernel) (i va len perm : ℕ)
      → P k.envs k.curenv
      → EndsKeeps P Q (user_mem_assert p k i va len perm)
  unfolding user_mem_assert
  user_mem_assert-Keeps p k i va len perm b = assert_checked-Keeps p k i _ b
