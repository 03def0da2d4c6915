-- ===== src/Sched/Trap.antt =====
-- Traps, from the entry into the kernel to the way out of it (sched/kern/trap.c). Locks, printing and
-- the acknowledgement of interrupts are not modelled. A breakpoint starts the monitor
-- (sched/kern/monitor.c), which reads commands for good: it returns behind a command with a negative
-- result, and none has one.
pub mod Kept
pub mod Liveness
pub mod Overflow
pub mod Sole
use tps_sis_ops.Base.{
  ℕ, zero, suc, ◌+◌, ◌-◌, ◌*◌, ◌/◌, ◌%◌, ◌^◌, Option, none, some, Bool, true, false, ◌||◌, List, [],
  ◌∷◌, ltb, ◌==◌, if◌then◌else◌,
}
use tps_sis_ops.Base.Int.{ℤ, pos, negsuc}
use tps_sis_ops.Sched.Memory.{
  Memory, pgsize, utop, set_word, Mapping, no_page, bad_page, page_in, page_lookup,
}
use tps_sis_ops.Sched.Env.{
  PushRegs, Trapframe, set_eax, Env, Kernel, dying, running, has_status, set_env, env_run,
}
use tps_sis_ops.Sched.Scheduler.{Policy, Exit, run, debug, panic, fault, sched_yield}
use tps_sis_ops.Sched.Envs.{
  Errno, e_bad_env, e_inval, e_no_mem, e_no_free_env, e_ipc_not_recv, Ends, returns, leaves,
  env_free, env_destroy, user_mem_assert,
}
use tps_sis_ops.Sched.Returns.{Result, value, error, Return, back, leave}
use tps_sis_ops.Sched.Syscalls.{
  Call, getenvid, yield, get_priority, exofork, destroy_env, set_status, set_pgfault_upcall,
  alloc_page_at, map_page, unmap_page, ipc_try_send, ipc_recv, set_priority, cputs, cgetc,
  unknown_call, syscall,
}

-- What is given beside the state: the scheduler that the kernel was built with, the register CR2, and
-- what `cons_getc` gives.
pub record Given : Type 0 where
  pub policy : Policy
  pub cr2 : ℕ
  pub typed : ℕ

-- A word as an `int`.
abbrev pub signed : ℕ → ℤ
signed w = if ltb w (2 ^ 31) then pos w else negsuc (2 ^ 32 - 1 - w)

-- The system calls in the order of their numbers in sched/inc/syscall.h, with their arguments.
abbrev pub calls : ℕ → ℕ → ℕ → ℕ → ℕ → ℕ → List Call
calls typed a1 a2 a3 a4 a5 =
    cputs a1 a2
    ∷ cgetc typed
    ∷ getenvid
    ∷ destroy_env a1
    ∷ alloc_page_at a1 a2 a3
    ∷ map_page a1 a2 a3 a4 a5
    ∷ unmap_page a1 a2
    ∷ exofork
    ∷ set_status a1 a2
    ∷ set_pgfault_upcall a1 a2
    ∷ yield
    ∷ ipc_try_send a1 a2 a3 a4
    ∷ ipc_recv a1
    ∷ get_priority
    ∷ set_priority (signed a1)
    ∷ []

abbrev pub nth_call : List Call → ℕ → Call
nth_call [] n = unknown_call
nth_call (c ∷ cs) zero = c
nth_call (c ∷ cs) (suc n) = nth_call cs n

-- The call of the number in EAX, with its arguments in the other registers.
unfoldable pub decode : ℕ → PushRegs → Call
decode typed r = nth_call (calls typed r.reg_edx r.reg_ecx r.reg_ebx r.reg_edi r.reg_esi) r.reg_eax

abbrev pub errno : Errno → ℕ
errno e_bad_env = 2
errno e_inval = 3
errno e_no_mem = 4
errno e_no_free_env = 5
errno e_ipc_not_recv = 7

-- The word that a call returns.
unfoldable pub to_word : Result → ℕ
to_word (value (pos n)) = n % 2 ^ 32
to_word (value (negsuc n)) = 2 ^ 32 - 1 - n % 2 ^ 32
to_word (error e) = 2 ^ 32 - errno e

-- The byte of index `j` of a word replaced, the lowest first.
abbrev pub put_byte : ℕ → ℕ → ℕ → ℕ
put_byte w j b = w - w / 256 ^ j % 256 * 256 ^ j + b * 256 ^ j

abbrev pub store_byte : Memory → ℕ → ℕ → ℕ → Memory
store_byte m p off b = set_word m p (off / 4) (put_byte (m.words p (off / 4)) (off % 4) b)

-- A word stored at an offset of page `p`, which need not be aligned.
unfoldable pub store_word : Memory → ℕ → ℕ → ℕ → Memory
store_word m p off w =
    let m1 = store_byte m p off (w % 256) in
    let m2 = store_byte m1 p (off + 1) (w / 256 % 256) in
    let m3 = store_byte m2 p (off + 2) (w / 65536 % 256) in
    store_byte m3 p (off + 3) (w / 16777216 % 256)

unfoldable pub store_words : Memory → ℕ → ℕ → List ℕ → Memory
store_words m p off [] = m
store_words m p off (w ∷ ws) = store_words (store_word m p off w) p (off + 4) ws

-- The page of the user exception stack, from `UXSTACKTOP - PGSIZE` to `UXSTACKTOP - 1`.
abbrev pub exstk : ℕ
exstk = 0xeebff000

abbrev pub exstk_top : ℕ
exstk_top = 0xeebfffff

-- `struct UTrapframe`, of 52 bytes.
unfoldable pub utrapframe : ℕ → Trapframe → List ℕ
utrapframe cr2 tf =
    let r = tf.tf_regs in
    cr2 ∷ tf.tf_err ∷ r.reg_edi ∷ r.reg_esi ∷ r.reg_ebp ∷ r.reg_oesp ∷ r.reg_ebx ∷ r.reg_edx
    ∷ r.reg_ecx ∷ r.reg_eax ∷ tf.tf_eip ∷ tf.tf_eflags ∷ tf.tf_esp ∷ []

-- Whether the trap came from elsewhere than the exception stack.
abbrev pub off_stack : ℕ → Bool
off_stack esp = ltb esp exstk || ltb exstk_top esp

-- Where the frame goes: on top, or below the trap-time stack and a free word.
abbrev pub frame_at : ℕ → ℕ
frame_at esp = if off_stack esp then exstk_top - 52 else esp - 4 - 52

-- The stores to the stack's page `p`, for a frame that lies in it.
abbrev pub push_frame : Memory → ℕ → ℕ → List ℕ → Memory
push_frame m p esp frame =
    store_words (if off_stack esp then m else store_word m p (esp - 4 - exstk) 0) p
      (frame_at esp - exstk) frame

-- The environment's way into its handler.
abbrev pub enter_handler : Kernel → ℕ → Trapframe → Kernel
enter_handler k c tf =
    let e = k.envs c in
    set_env k c (record e {
      env_tf = record tf { tf_esp = frame_at tf.tf_esp; tf_eip = e.env_pgfault_upcall };
    })

-- The stores, the check of the stack's bounds, which panics, and `env_run`. A store to a page that is
-- not mapped is a page fault in the kernel, which panics too.
abbrev pub call_handler : Given → Kernel → ℕ → Trapframe → Mapping → Exit
call_handler g k c tf no_page = panic
call_handler g k c tf bad_page = panic
call_handler g k c tf (page_in p t) =
    if ltb (frame_at tf.tf_esp) exstk || ltb exstk_top (frame_at tf.tf_esp)
    then panic
    else run (
        env_run
          (enter_handler
            (record k { memory = push_frame k.memory p tf.tf_esp (utrapframe g.cr2 tf) }) c tf)
          c)

-- What follows `user_mem_assert`, if it returns.
abbrev pub after_assert : Given → ℕ → Trapframe → Ends → Exit
after_assert g c tf (leaves x) = x
after_assert g c tf (returns k) =
    call_handler g k c tf (page_lookup k.memory (k.envs c).env_pgdir exstk)

-- `page_fault_handler` for a trap from user mode of the environment in slot `c`; `6` is
-- `PTE_U | PTE_W`.
unfoldable pub page_fault_handler : Given → Kernel → ℕ → Trapframe → Ends
page_fault_handler g k c tf =
    if (k.envs c).env_pgfault_upcall == 0
    then env_destroy g.policy k c
    else leaves (after_assert g c tf (user_mem_assert g.policy k c exstk pgsize 6))

-- `reg_eax = syscall(…)` in the frame of slot `c`.
abbrev pub store_result : ℕ → Return → Ends
store_result c (leave x) = leaves x
store_result c (back r k) =
    let e = k.envs c in returns (set_env k c (record e { env_tf = set_eax e.env_tf (to_word r) }))

-- The traps that `trap_dispatch` tells apart.
pub data Cause : Type 0 where
  breakpoint page_fault system_call spurious timer other : Cause

unfoldable pub cause : ℕ → Cause
cause trapno =
    if trapno == 3
    then breakpoint
    else (if trapno == 14
        then page_fault
        else (if trapno == 48
            then system_call
            else (if trapno == 39 then spurious else (if trapno == 32 then timer else other))))

-- `trap_dispatch` for a trap from user mode of the environment in slot `c`.
abbrev pub dispatch_user : Given → Kernel → ℕ → Trapframe → Cause → Ends
dispatch_user g k c tf breakpoint = leaves (debug k)
dispatch_user g k c tf page_fault = page_fault_handler g k c tf
dispatch_user g k c tf system_call = store_result c (syscall g.policy k (decode g.typed tf.tf_regs))
dispatch_user g k c tf spurious = returns k
dispatch_user g k c tf timer = leaves (sched_yield g.policy k)
dispatch_user g k c tf other = env_destroy g.policy k c

-- The frame of a trap from kernel mode is left behind.
abbrev pub drop_result : Return → Ends
drop_result (leave x) = leaves x
drop_result (back r k) = returns k

-- `trap_dispatch` for a trap from kernel mode, which runs with the segment `GD_KT`.
abbrev pub dispatch_kernel : Given → Kernel → Trapframe → Cause → Ends
dispatch_kernel g k tf breakpoint = leaves (debug k)
dispatch_kernel g k tf page_fault = leaves panic
dispatch_kernel g k tf system_call = drop_result (syscall g.policy k (decode g.typed tf.tf_regs))
dispatch_kernel g k tf spurious = returns k
dispatch_kernel g k tf timer = leaves (sched_yield g.policy k)
dispatch_kernel g k tf other = leaves panic

-- The end of `trap`, for a `curenv`.
abbrev pub resume : Policy → Kernel → Option ℕ → Exit
resume policy k none = sched_yield policy k
resume policy k (some c) =
    if has_status running (k.envs c) then run (env_run k c) else sched_yield policy k

abbrev pub after_dispatch : Policy → Ends → Exit
after_dispatch policy (leaves x) = x
after_dispatch policy (returns k) = resume policy k k.curenv

-- A zombie is freed.
abbrev pub collect : Policy → Option Kernel → Exit
collect policy none = panic
collect policy (some k) = sched_yield policy (record k { curenv = none })

-- A trap from user mode, for a `curenv`.
abbrev pub user_trap : Given → Kernel → Trapframe → Option ℕ → Exit
user_trap g k tf none = panic
user_trap g k tf (some c) =
    if has_status dying (k.envs c)
    then collect g.policy (env_free k c)
    else after_dispatch g.policy (
        dispatch_user g (set_env k c (record (k.envs c) { env_tf = tf })) c tf (cause tf.tf_trapno))

unfoldable pub trap : Given → Kernel → Trapframe → Exit
trap g k tf =
    if tf.tf_cs % 4 == 3
    then user_trap g k tf k.curenv
    else after_dispatch g.policy (dispatch_kernel g k tf (cause tf.tf_trapno))
