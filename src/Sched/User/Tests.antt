-- ===== src/Sched/User/Tests.antt =====
-- Tests of the user library (sched/lib/fork.c, sched/lib/syscall.c).
use tps_sis_ops.Base.{ℕ, Bool, ◌||◌, ◌≡◌, refl, none, some, false, ◌==◌, if◌then◌else◌, arith}
use tps_sis_ops.Base.Int.{pos}
use tps_sis_ops.Sched.Env.{PushRegs}
use tps_sis_ops.Sched.Syscalls.{set_priority}
use tps_sis_ops.Sched.Trap.{decode}
use tps_sis_ops.Sched.User.{Tables, pgfault, shared_perm}
use tps_sis_ops.Sched.User.Spaces.{Entry, Spaces, Ensures}
use tps_sis_ops.Sched.User.Fault.{IsCopied, pgfault-Ensures}
use tps_sis_ops.Sched.User.Stubs.{stub, performed, decode-stub}

-- A program with one page, which is writable, at 0x800000.
abbrev one_page : Tables
one_page = record { uvpd = λ i. if i == 2 then 7 else 0; uvpt = λ i. if i == 0x800 then 7 else 0 }

abbrev one_entry : Entry
one_entry = record { frame = 3; perm = 7 }

abbrev at_start : Spaces
at_start = record {
  own = λ a. if a == 0x800000 then some one_entry else none;
  child = λ a. none;
  next_frame = 4;
  contents = λ frame. some 0x800000;
  failed = false;
  is_started = false;
}

writable_device : shared_perm 0x17 ≡ 0x1d
unfolding shared_perm
writable_device = refl

-- The pages of the stack and of `PFTEMP` are written on the way.
abbrev on_the_way : ℕ → Bool
on_the_way pn = (pn == 0xeebfd) || (pn == 0x7ff)

pgfault-Ensures_example :
    Ensures (λ w r. IsCopied at_start w 0x800000 one_entry r) at_start (pgfault one_page 0x800123 2)
pgfault-Ensures_example =
    pgfault-Ensures one_page 0x800123 2 at_start one_entry refl refl (omega arith)

abbrev no_regs : PushRegs
no_regs = record {
  reg_edi = 0;
  reg_esi = 0;
  reg_ebp = 0;
  reg_oesp = 0;
  reg_ebx = 0;
  reg_edx = 0;
  reg_ecx = 0;
  reg_eax = 0;
}

decode-stub_example :
    decode 0 (stub no_regs 5 (set_priority (pos 5))) ≡ performed 0 (set_priority (pos 5))
decode-stub_example = decode-stub 0 no_regs 5 (set_priority (pos 5)) refl
