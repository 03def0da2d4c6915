-- ===== src/Sched/Trap/Kept.antt =====
-- Invariants of the environments through a whole trap (sched/kern/trap.c).
use mathlib.Core.Path.{subst}
use tps_sis_ops.Base.{ℕ, ◌%◌, ◌≡◌, refl, inl, inr, Option, none, some, ◌||◌, ltb, ◌==◌, Bool-cases}
use tps_sis_ops.Sched.Memory.{Memory, pgsize, Mapping, no_page, bad_page, page_in}
use tps_sis_ops.Sched.Env.{Trapframe, Env, Kernel, dying, running, has_status, set_env}
use tps_sis_ops.Sched.Scheduler.{Policy, Exit}
use tps_sis_ops.Sched.Envs.{
  Ends, returns, leaves, release, release_with, free_address_space, env_free, user_mem_assert,
}
use tps_sis_ops.Sched.Returns.{Return, back, leave}
use tps_sis_ops.Sched.Syscalls.Interface.{
  untouched-IsTame, stopped-IsTame, Keeps, ReturnKeeps, EndsKeeps,
}
use tps_sis_ops.Sched.Trap.{
  Given, exstk, exstk_top, frame_at, call_handler, after_assert, page_fault_handler, store_result,
  Cause, breakpoint, page_fault, system_call, spurious, timer, other, cause, dispatch_user,
  drop_result, dispatch_kernel, resume, after_dispatch, collect, user_trap, trap, decode,
}
use tps_sis_ops.Sched.Syscalls.Outcomes.{env_destroy-Keeps, user_mem_assert-Keeps}
use tps_sis_ops.Sched.Syscalls.Kept.{syscall-Keeps}

module _ {P : (ℕ → Env) → Option ℕ → Type 0} {Q : Exit → Type 0} (inv : Keeps P Q) where
  call_handler-Keeps :
      (g : Given) (k : Kernel) (c : ℕ) (tf : Trapframe) (f : Mapping)
      → P k.envs k.curenv
      → Q (call_handler g k c tf f)
  call_handler-Keeps g k c tf no_page b = inv.panics
  call_handler-Keeps g k c tf bad_page b = inv.panics
  call_handler-Keeps g k c tf (page_in p t) b =
      elim (Bool-cases (ltb (frame_at tf.tf_esp) exstk || ltb exstk_top (frame_at tf.tf_esp))) [
        | inl out ↦ rw out inv.panics
        | inr within ↦ rw within (
            inv.runs _ c
              (inv.changes k.envs k.curenv c _ b (untouched-IsTame k.envs c _ refl refl)))
      ]

  after_assert-Keeps :
      (g : Given) (c : ℕ) (tf : Trapframe) (e : Ends) → EndsKeeps P Q e → Q (after_assert g c tf e)
  after_assert-Keeps g c tf (leaves x) b = b
  after_assert-Keeps g c tf (returns k) b = call_handler-Keeps g k c tf _ b

  page_fault_handler-Keeps :
      (g : Given) (k : Kernel) (c : ℕ) (tf : Trapframe)
      → P k.envs k.curenv
      → EndsKeeps P Q (page_fault_handler g k c tf)
  unfolding page_fault_handler
  page_fault_handler-Keeps g k c tf b = elim (Bool-cases ((k.envs c).env_pgfault_upcall == 0)) [
    | inl e ↦ rw e (env_destroy-Keeps inv g.policy k c b)
    | inr e ↦ rw e (
        after_assert-Keeps g c tf (user_mem_assert g.policy k c exstk pgsize 6)
          (user_mem_assert-Keeps inv g.policy k c exstk pgsize 6 b))
  ]

  store_result-Keeps : (c : ℕ) (r : Return) → ReturnKeeps P Q r → EndsKeeps P Q (store_result c r)
  store_result-Keeps c (leave x) b = b
  store_result-Keeps c (back r k) b =
      inv.changes k.envs k.curenv c _ b (untouched-IsTame k.envs c _ refl refl)

  drop_result-Keeps : (r : Return) → ReturnKeeps P Q r → EndsKeeps P Q (drop_result r)
  drop_result-Keeps (leave x) b = b
  drop_result-Keeps (back r k) b = b

  dispatch_user-Keeps :
      (g : Given) (k : Kernel) (c : ℕ) (tf : Trapframe) (why : Cause)
      → P k.envs k.curenv
      → EndsKeeps P Q (dispatch_user g k c tf why)
  dispatch_user-Keeps g k c tf breakpoint b = inv.debugs k b
  dispatch_user-Keeps g k c tf page_fault b = page_fault_handler-Keeps g k c tf b
  dispatch_user-Keeps g k c tf system_call b =
      store_result-Keeps c _ (syscall-Keeps inv g.policy k (decode g.typed tf.tf_regs) b)
  dispatch_user-Keeps g k c tf spurious b = b
  dispatch_user-Keeps g k c tf timer b = inv.yields g.policy k b
  dispatch_user-Keeps g k c tf other b = env_destroy-Keeps inv g.policy k c b

  dispatch_kernel-Keeps :
      (g : Given) (k : Kernel) (tf : Trapframe) (why : Cause)
      → P k.envs k.curenv
      → EndsKeeps P Q (dispatch_kernel g k tf why)
  dispatch_kernel-Keeps g k tf breakpoint b = inv.debugs k b
  dispatch_kernel-Keeps g k tf page_fault b = inv.panics
  dispatch_kernel-Keeps g k tf system_call b =
      drop_result-Keeps _ (syscall-Keeps inv g.policy k (decode g.typed tf.tf_regs) b)
  dispatch_kernel-Keeps g k tf spurious b = b
  dispatch_kernel-Keeps g k tf timer b = inv.yields g.policy k b
  dispatch_kernel-Keeps g k tf other b = inv.panics

  resume-Keeps : (p : Policy) (k : Kernel) (o : Option ℕ) → P k.envs k.curenv → Q (resume p k o)
  resume-Keeps p k none b = inv.yields p k b
  resume-Keeps p k (some c) b = elim (Bool-cases (has_status running (k.envs c))) [
    | inl r ↦ rw r (inv.runs k c b)
    | inr r ↦ rw r (inv.yields p k b)
  ]

  after_dispatch-Keeps : (p : Policy) (e : Ends) → EndsKeeps P Q e → Q (after_dispatch p e)
  after_dispatch-Keeps p (leaves x) b = b
  after_dispatch-Keeps p (returns k) b = resume-Keeps p k k.curenv b

  collect-Keeps :
      (p : Policy) (k : Kernel) (c : ℕ) (o : Option Memory)
      → P k.envs (some c)
      → Q (collect p (release_with k c o))
  unfolding release
  collect-Keeps p k c none b = inv.panics
  collect-Keeps p k c (some m) b =
      inv.yields p _ (inv.deserts k.envs c _ b refl (stopped-IsTame k.envs c _ refl refl))

  user_trap-Keeps :
      (g : Given) (k : Kernel) (tf : Trapframe) (o : Option ℕ)
      → k.curenv ≡ o
      → P k.envs k.curenv
      → Q (user_trap g k tf o)
  unfolding env_free
  user_trap-Keeps g k tf none e b = inv.panics
  user_trap-Keeps g k tf (some c) e b = elim (Bool-cases (has_status dying (k.envs c))) [
    | inl d ↦ rw d (
        collect-Keeps g.policy k c (free_address_space k.memory (k.envs c).env_pgdir)
          (subst (P k.envs) e b))
    | inr d ↦ rw d (
        after_dispatch-Keeps g.policy _ (
          dispatch_user-Keeps g (set_env k c (record (k.envs c) { env_tf = tf })) c tf
            (cause tf.tf_trapno)
            (inv.changes k.envs k.curenv c _ b (untouched-IsTame k.envs c _ refl refl))))
  ]

  -- Every trap keeps the invariant.
  pub trap-Keeps : (g : Given) (k : Kernel) (tf : Trapframe) → P k.envs k.curenv → Q (trap g k tf)
  unfolding trap
  trap-Keeps g k tf b = elim (Bool-cases (tf.tf_cs % 4 == 3)) [
    | inl u ↦ rw u (user_trap-Keeps g k tf k.curenv refl b)
    | inr n ↦
        rw n (after_dispatch-Keeps g.policy _ (dispatch_kernel-Keeps g k tf (cause tf.tf_trapno) b))
  ]
