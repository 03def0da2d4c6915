-- ===== src/Sched/Trap/Overflow.antt =====
-- A full exception stack (sched/kern/trap.c).
use Prim.Native.Nat.{bit_or}
use tps_sis_ops.Base.{
  ℕ, ◌+◌, ◌-◌, ◌%◌, ◌<◌, ◌≤◌, ◌≡◌, refl, ap, ◌∙◌, some, true, false, ◌||◌, ltb, ◌==◌, arith,
}
use tps_sis_ops.Sched.Memory.{pgsize, Mapping, no_page, bad_page, page_in, ok, user_mem_check}
use tps_sis_ops.Sched.Env.{Trapframe, Kernel, dying, has_status, set_env}
use tps_sis_ops.Sched.Scheduler.{panic}
use tps_sis_ops.Sched.Envs.{leaves, assert_checked, user_mem_assert}
use tps_sis_ops.Sched.Trap.{
  Given, exstk, exstk_top, call_handler, after_assert, page_fault_handler, page_fault, cause,
  after_dispatch, dispatch_user, user_trap, trap,
}

call_handler-panics :
    (g : Given) (k : Kernel) (c : ℕ) (tf : Trapframe) (f : Mapping)
    → exstk ≤ tf.tf_esp
    → tf.tf_esp < exstk + 56
    → call_handler g k c tf f ≡ panic
call_handler-panics g k c tf no_page lo hi = refl
call_handler-panics g k c tf bad_page lo hi = refl
call_handler-panics g k c tf (page_in p t) lo hi =
    let on : (ltb tf.tf_esp exstk || ltb exstk_top tf.tf_esp) ≡ false = ground arith in
    let low : ltb (tf.tf_esp - 4 - 52) exstk ≡ true = ground arith in rw (on, low) refl

module _ (g : Given) (k : Kernel) (c : ℕ) (tf : Trapframe) (lo : exstk ≤ tf.tf_esp)
    (hi : tf.tf_esp < exstk + 56) where
  page_fault_handler-panics :
      ((k.envs c).env_pgfault_upcall == 0) ≡ false
      → user_mem_check k.memory (k.envs c).env_pgdir exstk pgsize (bit_or 6 4) ≡ ok
      → page_fault_handler g k c tf ≡ leaves panic
  unfolding page_fault_handler user_mem_assert
  page_fault_handler-panics upcall checked = rw upcall (
      ap (λ x. leaves (after_assert g c tf (assert_checked g.policy k c x))) checked
      ∙ ap leaves (call_handler-panics g k c tf _ lo hi))

module _ (g : Given) (k : Kernel) (c : ℕ) (tf : Trapframe) (lo : exstk ≤ tf.tf_esp)
    (hi : tf.tf_esp < exstk + 56) where
  -- If an environment with a page fault handler, and a writable exception stack, faults with its stack
  -- pointer in the lowest 56 bytes of that stack, the kernel panics, where the source means to
  -- destroy the environment.
  pub stack_overflow-panics :
      k.curenv ≡ some c
      → has_status dying (k.envs c) ≡ false
      → tf.tf_cs % 4 ≡ 3
      → tf.tf_trapno ≡ 14
      → ((k.envs c).env_pgfault_upcall == 0) ≡ false
      → user_mem_check k.memory (k.envs c).env_pgdir exstk pgsize (bit_or 6 4) ≡ ok
      → trap g k tf ≡ panic
  unfolding trap cause
  stack_overflow-panics current lives user faults upcall checked =
      let same : (c == c) ≡ true = ground arith in
      let k' = set_env k c (record (k.envs c) { env_tf = tf }) in
      let upcall' : ((k'.envs c).env_pgfault_upcall == 0) ≡ false = rw same upcall in
      let checked' : user_mem_check k'.memory (k'.envs c).env_pgdir exstk pgsize (bit_or 6 4) ≡ ok =
        rw same checked in
      let mode : (tf.tf_cs % 4 == 3) ≡ true = rw user refl in
      let why : cause tf.tf_trapno ≡ page_fault = rw faults refl in
      let stuck =
        ap (λ w. after_dispatch g.policy (dispatch_user g k' c tf w)) why
        ∙ ap (after_dispatch g.policy)
            (page_fault_handler-panics g k' c tf lo hi upcall' checked') in
      rw mode (ap (user_trap g k tf) current ∙ rw lives stuck)
