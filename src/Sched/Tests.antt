-- ===== src/Sched/Tests.antt =====
-- Runs of the scheduler, the environment table and the system calls, and their theorems at concrete
-- tables (sched/kern/sched.c, sched/kern/env.c, sched/kern/syscall.c).
use tps_sis_ops.Base.{
  ℕ, ◌-◌, zero, suc, ◌^◌, ◌<◌, ◌≡◌, refl, ◌⊎◌, ◌≢◌, none, some, true, false, ◌&&◌, ◌==◌,
  if◌then◌else◌, List, arith,
}
use tps_sis_ops.Base.Int.{ℤ, pos, negsuc, ltb_int}
use tps_sis_ops.Sched.Trap.{Given, exstk, trap, store_words, store_word, utrapframe}
use tps_sis_ops.Sched.Trap.Liveness.{Runs, Served, runnable-Served}
use tps_sis_ops.Sched.Trap.Sole.{trap-IsSole}
use tps_sis_ops.Sched.Trap.Overflow.{stack_overflow-panics}
use tps_sis_ops.Sched.Memory.{
  user_mem_check, ok, check_pages, pgdir_walk, find_table, ensure_table, pgsize, Memory, PageInfo,
}
use tps_sis_ops.Sched.Env.{
  nenv, envx, Env, EnvStatus, Kernel, Trapframe, free, runnable, running, has_status, env_run,
}
use tps_sis_ops.Sched.Scheduler.{
  round_robin, priorities, run, fault, panic, improve, count_call, charge, stay, found, circular,
  sched_round_robin, sched_with_priority,
}
use tps_sis_ops.Sched.Scheduler.Ceiling.{IsBounded}
use tps_sis_ops.Sched.Scheduler.Order.{before}
use tps_sis_ops.Sched.Scheduler.Choice.{Pick, sched_with_priority_lem}
use tps_sis_ops.Sched.Scheduler.RoundRobin.{Turn, sched_round_robin_lem}
use tps_sis_ops.Sched.Scheduler.Running.{ExitIsSole, IsAlone}
use tps_sis_ops.Sched.Envs.{new_trapframe, next_generation, new_env, env_init, env_alloc}
use tps_sis_ops.Sched.Envs.Ids.{new_env_lem}
use tps_sis_ops.Sched.Envs.FreeList.{FreeList, booted, alloc_step, History-FreeList}
use tps_sis_ops.Sched.Syscalls.{set_priority, syscall}
use tps_sis_ops.Sched.Syscalls.Ceiling.{ReturnIsBounded}
use tps_sis_ops.Sched.Syscalls.Ceiling.{syscall-IsBounded}

abbrev registers : Trapframe
registers = record new_trapframe { tf_eip = 0x800020 }

abbrev env : ℕ → EnvStatus → ℤ → ℕ → Env
env id status priority runs = record {
  env_tf = registers;
  env_link = none;
  env_id = id;
  env_parent_id = 0;
  env_status = status;
  env_runs = runs;
  env_cpunum = 0;
  env_priority = priority;
  env_pgdir = 0;
  env_pgfault_upcall = 0;
  env_ipc_recving = false;
  env_ipc_dstva = 0;
  env_ipc_value = 0;
  env_ipc_from = 0;
  env_ipc_perm = 0;
}

-- Eight pages, of which 3 and 4 are free; page 0 is the kernel's directory.
abbrev infos : ℕ → PageInfo
infos p =
    if p == 3
    then record { pp_link = some 4; pp_ref = 0 }
    else record { pp_link = none; pp_ref = 0 }

abbrev small : Memory
small = record {
  npages = 8;
  pages = infos;
  page_free_list = some 3;
  words = λ p i. 0;
  kern_pgdir = 0;
}

-- Slot 0 runs, 1 and 2 are runnable, and the others are free.
abbrev envs_3 : ℕ → Env
envs_3 zero = env 4096 running (pos 10) 5
envs_3 (suc zero) = env 4097 runnable (pos 7) 3
envs_3 (suc (suc zero)) = env 4098 runnable (pos 7) 2
envs_3 (suc (suc (suc n))) = env 0 free (pos 0) 0

abbrev three : Kernel
three = record {
  envs = envs_3;
  env_free_list = some 3;
  curenv = some 0;
  memory = small;
  cpunum = 0;
  sched_calls = 4;
  execution_history = λ i. 0;
  history_index = 0;
}

-- The environment with fewer runs goes first among equals, a raise stops at the initial priority,
-- and the round robin starts behind the current slot.
fewer_runs : before (envs_3 2) (envs_3 1) ≡ true
unfolding before
fewer_runs = refl

raised : (improve (env 4097 runnable (pos 3) 0)).env_priority ≡ pos 8
unfolding improve
raised = refl

not_raised : (improve (env 4097 runnable (pos 7) 0)).env_priority ≡ pos 7
unfolding improve
not_raised = refl

behind_current : circular envs_3 0 2 1 ≡ found 1
unfolding circular
behind_current = refl

-- The first id of a slot, and the wrap of the generations.
first_generation : next_generation 0 ≡ 4096
unfolding next_generation
first_generation = refl

last_generation : next_generation 0x7ffff401 ≡ 4096
unfolding next_generation
last_generation = refl

sched_with_priority_lem_example :
    ((i : ℕ) × (sched_with_priority three ≡ run (env_run (charge (count_call three) i) i))
      × Pick (count_call three) i)
    ⊎ ((sched_with_priority three ≡ stay (count_call three))
        × ((j : ℕ)
            → j < nenv
            → has_status runnable ((count_call three).envs j) ≡ true
            → ltb_int ((count_call three).envs j).env_priority (negsuc 0) ≡ true))
sched_with_priority_lem_example = sched_with_priority_lem three

sched_round_robin_lem_example :
    ((1 < nenv)
      × (((i : ℕ) × (sched_round_robin three ≡ run (env_run three i)) × Turn envs_3 0 0 i)
          ⊎ ((sched_round_robin three ≡ stay three)
              × ((j : ℕ) → j < nenv → j ≢ 0 → has_status runnable (envs_3 j) ≡ false))))
    ⊎ ((1 ≡ nenv) × (sched_round_robin three ≡ fault))
sched_round_robin_lem_example = sched_round_robin_lem three 0 refl (omega arith) refl

three-IsAlone : IsAlone three
three-IsAlone zero r = refl
three-IsAlone (suc zero) r = absurd (ground arith)
three-IsAlone (suc (suc zero)) r = absurd (ground arith)
three-IsAlone (suc (suc (suc n))) r = absurd (ground arith)

three-IsBounded : IsBounded envs_3
three-IsBounded zero = refl
three-IsBounded (suc zero) = refl
three-IsBounded (suc (suc zero)) = refl
three-IsBounded (suc (suc (suc n))) = refl

syscall-IsBounded_example : ReturnIsBounded (syscall round_robin three (set_priority (pos 9)))
syscall-IsBounded_example =
    syscall-IsBounded round_robin three (set_priority (pos 9)) three-IsBounded

new_env_lem_example :
    (envx (new_env 5 4096 3 (envs_3 3)).env_id ≡ 3)
    × (0 < (new_env 5 4096 3 (envs_3 3)).env_id)
    × ((new_env 5 4096 3 (envs_3 3)).env_id < 2 ^ 31)
    × ((new_env 5 4096 3 (envs_3 3)).env_id ≢ (envs_3 3).env_id)
new_env_lem_example = new_env_lem 5 4096 3 (envs_3 3) (omega arith) (omega arith)

History-FreeList_example : (xs : List ℕ) × FreeList (env_alloc (env_init three) 0).1 xs
History-FreeList_example = History-FreeList (env_alloc (env_init three) 0).1 (
    alloc_step (env_init three) (env_alloc (env_init three) 0).1 0 (env_alloc (env_init three) 0).0
      (booted three) refl)

-- The timer interrupts the environment that runs.
abbrev given : Given
given = record { policy = priorities; cr2 = 0; typed = 0 }

abbrev tick : Trapframe
tick = record registers { tf_trapno = 32 }

trap-IsSole_example : ExitIsSole (trap given three tick)
trap-IsSole_example = trap-IsSole given three tick three-IsAlone

-- The directory in page 1 maps the exception stack to page 5, through the table in page 2.
abbrev stack_words : ℕ → ℕ → ℕ
stack_words p i =
    if (p == 1) && (i == 954) then 0x2007 else (if (p == 2) && (i == 1023) then 0x5007 else 0)

abbrev caught : Env
caught = record (env 4096 running (pos 10) 5) { env_pgdir = 1; env_pgfault_upcall = 0x800100 }

abbrev catching : Kernel
catching = record three {
  envs = λ i. if i == 0 then caught else envs_3 i;
  memory = record small { words = stack_words };
}

-- A fault at the bottom of the exception stack, and one on the normal stack.
abbrev low_fault : Trapframe
low_fault = record registers { tf_trapno = 14; tf_esp = exstk }

catching-check : user_mem_check catching.memory (catching.envs 0).env_pgdir exstk pgsize 6 ≡ ok
unfolding user_mem_check check_pages pgdir_walk find_table ensure_table
catching-check = refl

stack_overflow-panics_example : trap given catching low_fault ≡ panic
stack_overflow-panics_example =
    stack_overflow-panics given catching 0 low_fault (omega arith) (omega arith) refl refl refl refl
      refl catching-check

-- The first word of the frame of a fault on the normal stack, the address of the fault, is not aligned.
pushed_low : (store_words small 5 4043 (utrapframe 0x1234 registers)).words 5 1010 ≡ 0x34000000
unfolding store_words store_word utrapframe
pushed_low = refl

pushed_high : (store_words small 5 4043 (utrapframe 0x1234 registers)).words 5 1011 ≡ 0x12
unfolding store_words store_word utrapframe
pushed_high = refl

-- Slot 0 runs, slot 2 waits, and the others were never used.
abbrev fair : Kernel
fair = record three {
  envs = λ i.
      if i == 0
      then env 4096 running (pos 1) 0
      else (if i == 2 then env 4098 runnable (pos 1) 0 else env 0 free (pos 0) 0);
}

abbrev given_turns : Given
given_turns = record { policy = round_robin; cr2 = 0; typed = 0 }

fair-ids :
    (i : ℕ) → i < nenv → has_status free (fair.envs i) ≡ false → envx (fair.envs i).env_id ≡ i
fair-ids zero lt used = refl
fair-ids (suc zero) lt used = absurd (ground arith)
fair-ids (suc (suc zero)) lt used = refl
fair-ids (suc (suc (suc n))) lt used = absurd (ground arith)

fair-Runs : Runs fair 0
fair-Runs = record {
  current = refl;
  inside = omega arith;
  active = refl;
  ids = fair-ids;
  last = refl;
}

runnable-Served_example : Served given_turns 2 (nenv - 1) fair
runnable-Served_example = runnable-Served given_turns fair 0 2 refl fair-Runs (omega arith) refl
