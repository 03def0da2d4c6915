-- ===== src/Sched/Syscalls/Kept.antt =====
-- Invariants in the dispatch of system calls (sched/kern/syscall.c).
use mathlib.Core.Path.{subst}
use tps_sis_ops.Base.{
  ℕ, ◌≡◌, sym, ◌∙◌, refl, inl, inr, Option, none, some, true, false, ◌||◌, ◌==◌, if◌then◌else◌,
  Bool-cases,
}
use tps_sis_ops.Sched.Memory.{pgsize}
use tps_sis_ops.Sched.Envs.{e_inval, env_alloc, envid2env}
use tps_sis_ops.Sched.Returns.{value, error, back}
use tps_sis_ops.Sched.PageCalls.{
  is_bad_va, sys_page_alloc, sys_page_map, sys_page_unmap, sys_ipc_try_send, sys_cputs,
  sys_env_set_pgfault_upcall,
}
use tps_sis_ops.Sched.Syscalls.{
  accepted_status, set_status_to, Call, getenvid, yield, get_priority, destroy_env, exofork,
  set_status, ipc_recv, set_priority, set_pgfault_upcall, alloc_page_at, map_page, unmap_page,
  ipc_try_send, cputs, cgetc, unknown_call, sys_getenvid, sys_yield, sys_get_priority,
  sys_env_destroy, sys_exofork, sys_env_set_status, sys_ipc_recv, sys_set_priority, syscall,
}
use tps_sis_ops.Base.Int.{ℤ, pos, ltb_int}
use tps_sis_ops.Sched.Env.{Env, EnvStatus, runnable, not_runnable, Kernel, status_code, set_env}
use tps_sis_ops.Sched.Scheduler.{Policy, Exit}
use tps_sis_ops.Sched.Syscalls.Interface.{untouched-IsTame, stopped-IsTame, Keeps, ReturnKeeps}
use tps_sis_ops.Sched.Syscalls.Outcomes.{
  either-Keeps, with_env-Keeps, with_current-Keeps, return_zero-Keeps, env_destroy-Keeps,
  user_mem_assert-Keeps, set_upcall-Keeps, alloc_at-Keeps,
}
use tps_sis_ops.Sched.Syscalls.Pages.{
  env_page_alloc-Keeps, env_page_map-Keeps, after_remove-Keeps, try_send-Keeps,
}

module _ {P : (ℕ → Env) → Option ℕ → Type 0} {Q : Exit → Type 0} (inv : Keeps P Q) where
  accepted_status-quiet :
      (status : ℕ) (s : EnvStatus) → accepted_status status ≡ some s → (status_code s == 3) ≡ false
  unfolding accepted_status
  accepted_status-quiet status s h = elim (Bool-cases (status == 2)) [
    | inl two ↦
        let e : some runnable ≡ some s = sym (rw two refl) ∙ h in
        let q : runnable ≡ s = cc in subst (λ s. (status_code s == 3) ≡ false) q refl
    | inr other ↦ elim (Bool-cases (status == 4)) [
      | inl four ↦
          let e : some not_runnable ≡ some s = sym (rw (other, four) refl) ∙ h in
          let q : not_runnable ≡ s = cc in subst (λ s. (status_code s == 3) ≡ false) q refl
      | inr neither ↦ let e : none ≡ some s = sym (rw (other, neither) refl) ∙ h in cc
    ]
  ]

  set_status_to-Keeps :
      (k : Kernel) (envid : ℕ) (o : Option EnvStatus)
      → ((s : EnvStatus) → o ≡ some s → (status_code s == 3) ≡ false)
      → P k.envs k.curenv
      → ReturnKeeps P Q (set_status_to k envid o)
  set_status_to-Keeps k envid none quiet b = b
  set_status_to-Keeps k envid (some s) quiet b =
      with_env-Keeps inv k (envid2env k envid true) _ b
        λ i. inv.changes k.envs k.curenv i _ b (stopped-IsTame k.envs i _ (quiet s refl) refl)

  set_priority-Keeps :
      (k : Kernel) (p : ℤ) (i : ℕ)
      → P k.envs k.curenv
      → ReturnKeeps P Q (
          if ltb_int (k.envs i).env_priority p
          then back (error e_inval) k
          else back (value (pos 0)) (set_env k i (record (k.envs i) { env_priority = p })))
  set_priority-Keeps k p i b = elim (Bool-cases (ltb_int (k.envs i).env_priority p)) [
    | inl raised ↦ rw raised b
    | inr kept ↦
        rw kept
          (inv.changes k.envs k.curenv i _ b record { stays = inl refl; origin = i; low = kept })
  ]

  -- Every system call keeps the invariant, in the state it returns with or leaves the kernel in.
  pub syscall-Keeps :
      (p : Policy) (k : Kernel) (call : Call)
      → P k.envs k.curenv
      → ReturnKeeps P Q (syscall p k call)
  unfolding syscall sys_getenvid sys_yield sys_get_priority sys_env_destroy sys_exofork env_alloc
      sys_env_set_status sys_ipc_recv sys_set_priority sys_page_alloc sys_page_map sys_page_unmap
      sys_ipc_try_send sys_cputs sys_env_set_pgfault_upcall
  syscall-Keeps p k getenvid b = with_current-Keeps inv k.curenv _ λ c. b
  syscall-Keeps p k yield b = inv.yields p k b
  syscall-Keeps p k get_priority b =
      with_current-Keeps inv k.curenv _
        λ c. with_env-Keeps inv k (envid2env k (k.envs c).env_id true) _ b λ i. b
  syscall-Keeps p k exofork b =
      with_current-Keeps inv k.curenv _
        λ c. alloc_at-Keeps inv k (k.envs c).env_id c k.env_free_list b
  syscall-Keeps p k (destroy_env envid) b =
      with_env-Keeps inv k (envid2env k envid true) _ b
        λ i. return_zero-Keeps inv _ (env_destroy-Keeps inv p k i b)
  syscall-Keeps p k (set_status envid status) b =
      set_status_to-Keeps k envid (accepted_status status) (accepted_status-quiet status) b
  syscall-Keeps p k (set_pgfault_upcall envid func) b =
      with_env-Keeps inv k (envid2env k envid true) _ b
        λ i. set_upcall-Keeps inv i func _ (user_mem_assert-Keeps inv p k i func pgsize 5 b)
  syscall-Keeps p k (alloc_page_at envid va perm) b =
      either-Keeps inv (is_bad_va va) _ _ b
        (with_env-Keeps inv k (envid2env k envid true) _ b λ i. env_page_alloc-Keeps inv k i va _ b)
  syscall-Keeps p k (map_page srcenvid srcva dstenvid dstva perm) b =
      either-Keeps inv (is_bad_va srcva || is_bad_va dstva) _ _ b (
        with_env-Keeps inv k (envid2env k srcenvid true) _ b λ src.
          with_env-Keeps inv k (envid2env k dstenvid true) _ b
            λ dst. env_page_map-Keeps inv k src srcva dst dstva _ b)
  syscall-Keeps p k (unmap_page envid va) b =
      either-Keeps inv (is_bad_va va) _ _ b
        (with_env-Keeps inv k (envid2env k envid true) _ b λ i. after_remove-Keeps inv k _ b)
  syscall-Keeps p k (ipc_try_send envid message srcva perm) b =
      with_current-Keeps inv k.curenv _ λ c.
        with_env-Keeps inv k (envid2env k envid false) _ b
          λ i. try_send-Keeps inv k c i message srcva perm b
  syscall-Keeps p k (ipc_recv dstva) b = with_current-Keeps inv k.curenv _ λ c.
      either-Keeps inv (is_bad_va dstva) _ _
        (inv.changes k.envs k.curenv c _ b (untouched-IsTame k.envs c _ refl refl))
        (inv.yields p _ (inv.changes k.envs k.curenv c _ b (stopped-IsTame k.envs c _ refl refl)))
  syscall-Keeps p k (set_priority q) b = with_current-Keeps inv k.curenv _ λ c.
      with_env-Keeps inv k (envid2env k (k.envs c).env_id true) _ b λ i. set_priority-Keeps k q i b
  syscall-Keeps p k (cputs s len) b =
      with_current-Keeps inv k.curenv _
        λ c. return_zero-Keeps inv _ (user_mem_assert-Keeps inv p k c s len 7 b)
  syscall-Keeps p k (cgetc c) b = b
  syscall-Keeps p k unknown_call b = b
