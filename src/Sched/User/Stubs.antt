-- ===== src/Sched/User/Stubs.antt =====
-- The stubs of sched/lib/syscall.c against the numbers by which the kernel dispatches.
use tps_sis_ops.Base.{ℕ, ◌≡◌, refl, Bool, true, false}
use tps_sis_ops.Sched.Env.{PushRegs}
use tps_sis_ops.Sched.Syscalls.{
  Call, getenvid, yield, get_priority, exofork, destroy_env, set_status, set_pgfault_upcall,
  alloc_page_at, map_page, unmap_page, ipc_try_send, ipc_recv, set_priority, cputs, cgetc,
  unknown_call,
}
use tps_sis_ops.Sched.Trap.{decode}

-- The registers that the stubs' `syscall` sets before its interrupt.
abbrev pub int_regs : PushRegs → ℕ → ℕ → ℕ → ℕ → ℕ → ℕ → PushRegs
int_regs r num a1 a2 a3 a4 a5 = record r {
  reg_eax = num;
  reg_edx = a1;
  reg_ecx = a2;
  reg_ebx = a3;
  reg_edi = a4;
  reg_esi = a5;
}

-- The registers with which the stub of a call interrupts; there is none for `unknown_call`. The
-- argument of `cgetc` belongs to the kernel; that of `set_priority` is the word `word`.
unfoldable pub stub : PushRegs → ℕ → Call → PushRegs
stub r word (cputs s len) = int_regs r 0 s len 0 0 0
stub r word (cgetc c) = int_regs r 1 0 0 0 0 0
stub r word getenvid = int_regs r 2 0 0 0 0 0
stub r word (destroy_env envid) = int_regs r 3 envid 0 0 0 0
stub r word (alloc_page_at envid va perm) = int_regs r 4 envid va perm 0 0
stub r word (map_page srcenv srcva dstenv dstva perm) = int_regs r 5 srcenv srcva dstenv dstva perm
stub r word (unmap_page envid va) = int_regs r 6 envid va 0 0 0
stub r word exofork = int_regs r 7 r.reg_edx r.reg_ecx r.reg_ebx r.reg_edi r.reg_esi
stub r word (set_status envid status) = int_regs r 8 envid status 0 0 0
stub r word (set_pgfault_upcall envid upcall) = int_regs r 9 envid upcall 0 0 0
stub r word yield = int_regs r 10 0 0 0 0 0
stub r word (ipc_try_send envid value srcva perm) = int_regs r 11 envid value srcva perm 0
stub r word (ipc_recv dstva) = int_regs r 12 dstva 0 0 0 0
stub r word get_priority = int_regs r 13 0 0 0 0 0
stub r word (set_priority priority) = int_regs r 13 word 0 0 0 0
stub r word unknown_call = r

abbrev pub has_stub : Call → Bool
has_stub unknown_call = false
has_stub _ = true

-- What the kernel does for a stub.
abbrev pub performed : ℕ → Call → Call
performed typed (cgetc c) = cgetc typed
performed typed (set_priority priority) = get_priority
performed typed c = c

-- The kernel reads from the registers of each stub the call of its name with its arguments, but for
-- `sys_set_priority`, whose stub asks for the priority.
pub decode-stub :
    (typed : ℕ) (r : PushRegs) (word : ℕ) (c : Call)
    → has_stub c ≡ true
    → decode typed (stub r word c) ≡ performed typed c
unfolding decode stub
decode-stub typed r word (cputs s len) h = refl
decode-stub typed r word (cgetc c) h = refl
decode-stub typed r word getenvid h = refl
decode-stub typed r word (destroy_env envid) h = refl
decode-stub typed r word (alloc_page_at envid va perm) h = refl
decode-stub typed r word (map_page srcenv srcva dstenv dstva perm) h = refl
decode-stub typed r word (unmap_page envid va) h = refl
decode-stub typed r word exofork h = refl
decode-stub typed r word (set_status envid status) h = refl
decode-stub typed r word (set_pgfault_upcall envid upcall) h = refl
decode-stub typed r word yield h = refl
decode-stub typed r word (ipc_try_send envid value srcva perm) h = refl
decode-stub typed r word (ipc_recv dstva) h = refl
decode-stub typed r word get_priority h = refl
decode-stub typed r word (set_priority priority) h = refl
decode-stub typed r word unknown_call h = cc
