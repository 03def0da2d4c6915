-- ===== src/Sched/Env.antt =====
-- `struct Env` of sched/inc/env.h, the state that sched/kern/env.c and sched/kern/sched.c keep, and
-- `env_run`. The table `envs` is a function of the slot; a pointer to an environment is its slot, and `env_pgdir` the page
-- of its page directory.
-- Ids and the machine's words are numbers below 2 ^ 32.
use tps_sis_ops.Base.{ℕ, ◌+◌, ◌%◌, ◌^◌, Option, none, some, Bool, ◌==◌, if◌then◌else◌, update}
use tps_sis_ops.Base.Int.{ℤ}
use tps_sis_ops.Sched.Memory.{Memory}

abbrev pub nenv : ℕ
nenv = 1024

-- `ENVX`: the ten low bits of an id.
abbrev pub envx : ℕ → ℕ
envx envid = envid % nenv

pub data EnvStatus : Type 0 where
  free dying runnable running not_runnable : EnvStatus

-- The values of the enumeration.
abbrev pub status_code : EnvStatus → ℕ
status_code free = 0
status_code dying = 1
status_code runnable = 2
status_code running = 3
status_code not_runnable = 4

-- `struct PushRegs` of sched/inc/trap.h.
pub record PushRegs : Type 0 where
  pub reg_edi : ℕ
  pub reg_esi : ℕ
  pub reg_ebp : ℕ
  pub reg_oesp : ℕ
  pub reg_ebx : ℕ
  pub reg_edx : ℕ
  pub reg_ecx : ℕ
  pub reg_eax : ℕ

-- `struct Trapframe` without its padding.
pub record Trapframe : Type 0 where
  pub tf_regs : PushRegs
  pub tf_es : ℕ
  pub tf_ds : ℕ
  pub tf_trapno : ℕ
  pub tf_err : ℕ
  pub tf_eip : ℕ
  pub tf_cs : ℕ
  pub tf_eflags : ℕ
  pub tf_esp : ℕ
  pub tf_ss : ℕ

-- `tf->tf_regs.reg_eax = w`.
abbrev pub set_eax : Trapframe → ℕ → Trapframe
set_eax tf w = record tf { tf_regs = record tf.tf_regs { reg_eax = w } }

pub record Env : Type 0 where
  pub env_tf : Trapframe
  pub env_link : Option ℕ
  pub env_id : ℕ
  pub env_parent_id : ℕ
  pub env_status : EnvStatus
  pub env_runs : ℕ
  pub env_cpunum : ℕ
  pub env_priority : ℤ
  pub env_pgdir : ℕ
  pub env_pgfault_upcall : ℕ
  pub env_ipc_recving : Bool
  pub env_ipc_dstva : ℕ
  pub env_ipc_value : ℕ
  pub env_ipc_from : ℕ
  pub env_ipc_perm : ℕ

-- What one CPU, of number `cpunum`, sees: the shared table and the scheduler's statistics, and its
-- own `curenv`. `execution_history` is an array of which `history_index` entries are in use.
pub record Kernel : Type 0 where
  pub envs : ℕ → Env
  pub env_free_list : Option ℕ
  pub curenv : Option ℕ
  pub memory : Memory
  pub cpunum : ℕ
  pub sched_calls : ℕ
  pub execution_history : ℕ → ℕ
  pub history_index : ℕ

-- `e->env_status == status`.
abbrev pub has_status : EnvStatus → Env → Bool
has_status status e = status_code e.env_status == status_code status

abbrev pub set_env : Kernel → ℕ → Env → Kernel
set_env k i e = record k { envs = update k.envs i e }

-- Its first step, for a `curenv`: if it is running, it is runnable again.
abbrev pub preempt_current : Kernel → Option ℕ → Kernel
preempt_current k none = k
preempt_current k (some c) =
    if has_status running (k.envs c)
    then set_env k c (record (k.envs c) { env_status = runnable })
    else k

unfoldable pub preempt : Kernel → Kernel
preempt k = preempt_current k k.curenv

-- The state that `env_run` leaves for the environment in slot `i` as it enters user mode.
unfoldable pub env_run : Kernel → ℕ → Kernel
env_run k i =
    let k' = preempt k in
    record (set_env k' i (record (k'.envs i) {
      env_status = running;
      env_runs = ((k'.envs i).env_runs + 1) % 2 ^ 32;
      env_cpunum = k.cpunum;
    })) { curenv = some i }
