-- ===== src/Sched/Syscalls.antt =====
-- The system calls on environments of sched/kern/syscall.c, and the dispatch of all.
pub mod Ceiling
pub mod Interface
pub mod Kept
pub mod Outcomes
pub mod Pages
use tps_sis_ops.Base.{
  ℕ, ◌%◌, Option, none, some, Bool, true, false, ◌||◌, not, ltb, leb, ◌==◌, if◌then◌else◌,
}
use tps_sis_ops.Base.Int.{ℤ, pos, ltb_int}
use tps_sis_ops.Sched.Env.{
  nenv, Env, Kernel, EnvStatus, runnable, running, not_runnable, has_status, set_env, set_eax,
  env_run,
}
use tps_sis_ops.Sched.Scheduler.{Policy, Exit, run, fault, sched_yield}
use tps_sis_ops.Sched.Envs.{
  Errno, e_bad_env, e_inval, Lookup, stored, refused, envid2env, env_alloc, Ends, returns, leaves,
  env_destroy,
}
use tps_sis_ops.Sched.Returns.{
  Result, value, error, Return, back, leave, with_env, with_current, return_zero,
}
use tps_sis_ops.Sched.PageCalls.{
  is_bad_va, sys_cputs, sys_env_set_pgfault_upcall, sys_page_alloc, sys_page_map, sys_page_unmap,
  sys_ipc_try_send,
}

unfoldable pub sys_getenvid : Kernel → Return
sys_getenvid k = with_current k.curenv λ c. back (value (pos (k.envs c).env_id)) k

unfoldable pub sys_env_destroy : Policy → Kernel → ℕ → Return
sys_env_destroy policy k envid =
    with_env k (envid2env k envid true) λ i. return_zero (env_destroy policy k i)

unfoldable pub sys_yield : Policy → Kernel → Return
sys_yield policy k = leave (sched_yield policy k)

-- The child that `sys_exofork` makes of a new environment, for its parent.
unfoldable pub child_of : Env → Env → Env
child_of parent e = record e {
  env_status = not_runnable;
  env_tf = set_eax parent.env_tf 0;
  env_priority = parent.env_priority;
}

-- What `sys_exofork` does behind `env_alloc`, for a parent in slot `c`.
abbrev pub make_child : ℕ → Lookup × Kernel → Return
make_child c (refused e, k) = back (error e) k
make_child c (stored none, k) = leave fault
make_child c (stored (some i), k) =
    back (value (pos (k.envs i).env_id)) (set_env k i (child_of (k.envs c) (k.envs i)))

unfoldable pub sys_exofork : Kernel → Return
sys_exofork k = with_current k.curenv λ c. make_child c (env_alloc k (k.envs c).env_id)

-- The two statuses that `sys_env_set_status` accepts.
unfoldable pub accepted_status : ℕ → Option EnvStatus
accepted_status status =
    if status == 2 then some runnable else (if status == 4 then some not_runnable else none)

-- What it does with that status.
abbrev pub set_status_to : Kernel → ℕ → Option EnvStatus → Return
set_status_to k envid none = back (error e_inval) k
set_status_to k envid (some s) =
    with_env k (envid2env k envid true)
      λ i. back (value (pos 0)) (set_env k i (record (k.envs i) { env_status = s }))

unfoldable pub sys_env_set_status : Kernel → ℕ → ℕ → Return
sys_env_set_status k envid status = set_status_to k envid (accepted_status status)

unfoldable pub sys_ipc_recv : Policy → Kernel → ℕ → Return
sys_ipc_recv policy k dstva = with_current k.curenv λ c.
    let e = record (k.envs c) { env_ipc_recving = true } in
    if is_bad_va dstva
    then back (error e_inval) (set_env k c e)
    else leave (
        sched_yield policy
          (set_env k c (record e { env_ipc_dstva = dstva; env_status = not_runnable })))

unfoldable pub sys_get_priority : Kernel → Return
sys_get_priority k =
    with_current k.curenv λ c.
      with_env k (envid2env k (k.envs c).env_id true) λ i. back (value (k.envs i).env_priority) k

unfoldable pub sys_set_priority : Kernel → ℤ → Return
sys_set_priority k priority = with_current k.curenv λ c.
    with_env k (envid2env k (k.envs c).env_id true) λ i.
      if ltb_int (k.envs i).env_priority priority
      then back (error e_inval) k
      else back (value (pos 0)) (set_env k i (record (k.envs i) { env_priority = priority }))

-- The system calls with their arguments; that of `cgetc` is what `cons_getc` gives.
pub data Call : Type 0 where
  getenvid yield get_priority exofork : Call
  destroy_env : ℕ → Call
  set_status : ℕ → ℕ → Call
  set_pgfault_upcall : ℕ → ℕ → Call
  alloc_page_at : ℕ → ℕ → ℕ → Call
  map_page : ℕ → ℕ → ℕ → ℕ → ℕ → Call
  unmap_page : ℕ → ℕ → Call
  ipc_try_send : ℕ → ℕ → ℕ → ℕ → Call
  ipc_recv : ℕ → Call
  set_priority : ℤ → Call
  cputs : ℕ → ℕ → Call
  cgetc : ℕ → Call
  unknown_call : Call

unfoldable pub syscall : Policy → Kernel → Call → Return
syscall policy k getenvid = sys_getenvid k
syscall policy k yield = sys_yield policy k
syscall policy k get_priority = sys_get_priority k
syscall policy k exofork = sys_exofork k
syscall policy k (destroy_env envid) = sys_env_destroy policy k envid
syscall policy k (set_status envid status) = sys_env_set_status k envid status
syscall policy k (set_pgfault_upcall envid func) = sys_env_set_pgfault_upcall policy k envid func
syscall policy k (alloc_page_at envid va perm) = sys_page_alloc k envid va perm
syscall policy k (map_page srcenvid srcva dstenvid dstva perm) =
    sys_page_map k srcenvid srcva dstenvid dstva perm
syscall policy k (unmap_page envid va) = sys_page_unmap k envid va
syscall policy k (ipc_try_send envid message srcva perm) =
    sys_ipc_try_send k envid message srcva perm
syscall policy k (ipc_recv dstva) = sys_ipc_recv policy k dstva
syscall policy k (set_priority priority) = sys_set_priority k priority
syscall policy k (cputs s len) = sys_cputs policy k s len
syscall policy k (cgetc c) = back (value (pos c)) k
syscall policy k unknown_call = back (error e_inval) k
