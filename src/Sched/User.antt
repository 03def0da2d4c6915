-- ===== src/Sched/User.antt =====
-- The user library: the system call stubs of sched/lib/syscall.c, sched/lib/fork.c,
-- sched/lib/pgfault.c and sched/lib/ipc.c, as the sequences of their system calls. The page tables
-- that a program reads at `uvpd` and `uvpt` are functions of the page's number, which do not change
-- but by the calls. The page faults that the library's own code takes between its calls are no part of
-- a sequence: `Spaces` says what they may do to the mappings.
pub mod Fault
pub mod Fork
pub mod Guarded
pub mod Mappings
pub mod Rounds
pub mod Spaces
pub mod Stubs
mod Tests
use Prim.Native.Nat.{bit_and, bit_or}
use tps_sis_ops.Base.{
  ℕ, zero, suc, ◌+◌, ◌*◌, ◌/◌, Bool, true, false, ◌||◌, ◌&&◌, not, ◌==◌, if◌then◌else◌,
}
use tps_sis_ops.Base.Int.{ℤ, pos, negsuc, eqb_int}
use tps_sis_ops.Sched.Memory.{pgsize, utop, has_bit, round_down}
use tps_sis_ops.Sched.Syscalls.{
  Call, getenvid, yield, exofork, set_status, set_pgfault_upcall, alloc_page_at, map_page,
  unmap_page, ipc_try_send, ipc_recv,
}

-- A program from some point on: a system call, and what follows for the value of `%eax` behind it; a
-- `memmove` of a page, from the second address to the first; its function returns, or panics; the
-- rounds of the model's loop are used up.
pub data Program : Type 0 where
  call : Call → (ℤ → Program) → Program
  copy_page : ℕ → ℕ → Program → Program
  returns : ℤ → Program
  panics : Program
  out_of_rounds : Program

-- `uvpd` and `uvpt`.
pub record Tables : Type 0 where
  pub uvpd : ℕ → ℕ
  pub uvpt : ℕ → ℕ

abbrev pub pte_cow : ℕ
pte_cow = 0x800

-- `PTE_U | PTE_P`.
abbrev pub pte_up : ℕ
pte_up = 5

-- `PTE_PCD | PTE_PWT`.
abbrev pub pte_io : ℕ
pte_io = 0x18

abbrev pub utemp : ℕ
utemp = 0x400000

abbrev pub pftemp : ℕ
pftemp = 0x7ff000

abbrev pub uxstacktop : ℕ
uxstacktop = utop

-- A stub that checks its result, and the panic of its caller if that is negative.
abbrev pub or_panic : Program → ℤ → Program
or_panic rest (pos zero) = rest
or_panic rest (pos (suc n)) = panics
or_panic rest (negsuc n) = panics

abbrev pub must : Call → Program → Program
must c rest = call c (or_panic rest)

-- The test `(err & FEC_WR) & !(fault_pte & PTE_COW)`.
unfoldable pub is_refused : ℕ → ℕ → Bool
is_refused err pte = not (bit_and (bit_and err 2) (if has_bit pte pte_cow then 0 else 1) == 0)

unfoldable pub pgfault : Tables → ℕ → ℕ → Program
pgfault t addr err =
    if is_refused err (t.uvpt (addr / pgsize))
    then panics
    else must (alloc_page_at 0 pftemp 7) (
        copy_page pftemp (round_down addr) (
          must (map_page 0 pftemp 0 (round_down addr) 7)
            (must (unmap_page 0 pftemp) (returns (pos 0)))))

-- `pte & (PTE_PCD | PTE_PWT)`.
abbrev pub is_io : ℕ → Bool
is_io pte = has_bit pte 0x10 || has_bit pte 8

-- `(pte & PTE_P) && (pte & PTE_U)`.
abbrev pub is_user : ℕ → Bool
is_user pte = has_bit pte 1 && has_bit pte 4

-- `(pte & PTE_W) || (pte & PTE_COW)`.
abbrev pub is_private : ℕ → Bool
is_private pte = has_bit pte 2 || has_bit pte pte_cow

-- The flags of `duppage` for a page that is only read.
unfoldable pub shared_perm : ℕ → ℕ
shared_perm pte = if is_io pte then bit_or pte_up pte_io else pte_up

unfoldable pub duppage : Tables → ℕ → ℕ → Program → Program
duppage t envid pn rest =
    let addr = pn * pgsize in
    let pte = t.uvpt pn in
    let perm = shared_perm pte in
    if not (is_user pte)
    then panics
    else (if is_private pte
        then must (map_page 0 addr envid addr (bit_or perm pte_cow))
            (must (map_page 0 addr 0 addr (bit_or perm pte_cow)) rest)
        else must (map_page 0 addr envid addr perm) rest)

-- The flags of `dup_or_share`: those of `perm` that are `PTE_W`, where the page has it.
unfoldable pub dup_perm : ℕ → ℕ → ℕ
dup_perm pte perm =
    let flags = bit_and (bit_and perm (bit_and pte 2)) 0xe07 in
    if is_io pte then bit_or flags pte_io else flags

unfoldable pub dup_or_share : Tables → ℕ → ℕ → ℕ → Program → Program
dup_or_share t envid pnum perm rest =
    let addr = pnum * pgsize in
    let pte = t.uvpt pnum in
    let flags = dup_perm pte perm in
    if not (has_bit pte 1)
    then rest
    else (if not (has_bit pte 2) || is_io pte
        then must (map_page 0 addr envid addr flags) rest
        else must (alloc_page_at envid addr flags) (
            must (map_page envid addr 0 utemp flags)
              (copy_page utemp addr (must (unmap_page 0 utemp) rest))))

-- The loop of `fork_v0`, for `n` pages from `pnum` on.
unfoldable pub dup_pages : Tables → ℕ → ℕ → ℕ → Program → Program
dup_pages t envid zero pnum rest = rest
dup_pages t envid (suc n) pnum rest =
    let more = dup_pages t envid n (suc pnum) rest in
    if is_user (t.uvpd (pnum / 1024)) then dup_or_share t envid pnum 7 more else more

-- `UTOP >> PGSHIFT`.
abbrev pub pnum_end : ℕ
pnum_end = 0xeec00

-- The end of `fork_v0` and of `fork` in the parent.
abbrev pub start_child : ℕ → Program
start_child envid = must (set_status envid 2) (returns (pos envid))

-- What follows `sys_exofork`; in the child the id is only used to set `thisenv`.
abbrev pub after_exofork : (ℕ → Program) → ℤ → Program
after_exofork parent (negsuc n) = panics
after_exofork parent (pos zero) = call getenvid λ id. returns (pos 0)
after_exofork parent (pos (suc n)) = parent (suc n)

unfoldable pub fork_v0 : Tables → Program
fork_v0 t = call exofork (after_exofork λ envid. dup_pages t envid pnum_end 0 (start_child envid))

-- `(UXSTACKTOP >> PGSHIFT) - 1`.
abbrev pub exception_page : ℕ
exception_page = 0xeebff

abbrev pub exception_stack : ℕ
exception_stack = 0xeebff000

-- The loop of `fork`, for `n` pages from `pnum` on.
unfoldable pub share_pages : Tables → ℕ → ℕ → ℕ → Program → Program
share_pages t envid zero pnum rest = rest
share_pages t envid (suc n) pnum rest =
    let more = share_pages t envid n (suc pnum) rest in
    if not (pnum == exception_page) && is_user (t.uvpd (pnum / 1024)) && is_user (t.uvpt pnum)
    then duppage t envid pnum more
    else more

-- `set_pgfault_handler`, for whether a handler is set; it returns behind a call that fails.
abbrev pub if_ok : Program → Program → ℤ → Program
if_ok rest failed (pos zero) = rest
if_ok rest failed (pos (suc n)) = panics
if_ok rest failed (negsuc n) = failed

unfoldable pub set_pgfault_handler : Bool → ℕ → Program → Program
set_pgfault_handler true pgfault_upcall rest = rest
set_pgfault_handler false pgfault_upcall rest =
    call (alloc_page_at 0 exception_stack 7)
      (if_ok (call (set_pgfault_upcall 0 pgfault_upcall) (if_ok rest rest)) rest)

-- The parent's part of `fork`; `upcall` is `thisenv->env_pgfault_upcall`.
unfoldable pub fork_parent : Tables → ℕ → ℕ → Program
fork_parent t upcall envid = share_pages t envid pnum_end 0 (
    must (alloc_page_at envid exception_stack 7)
      (must (set_pgfault_upcall envid upcall) (start_child envid)))

-- `t` has the tables as they are behind `set_pgfault_handler`.
unfoldable pub fork : Bool → ℕ → ℕ → Tables → Program
fork is_set pgfault_upcall upcall t =
    set_pgfault_handler is_set pgfault_upcall (call exofork (after_exofork (fork_parent t upcall)))

-- What a program reads of `thisenv` behind `sys_ipc_recv`. The pointers that it gets are not NULL.
pub record Message : Type 0 where
  pub env_ipc_value : ℤ
  pub env_ipc_from : ℕ
  pub env_ipc_perm : ℕ

-- What `ipc_recv` returns and stores, for the result of the call: the value, the sender and the flags.
abbrev pub received : Message → ℤ → ℤ × ℕ × ℕ
received m (pos zero) = (m.env_ipc_value, m.env_ipc_from, m.env_ipc_perm)
received m (pos (suc n)) = (pos (suc n), 0, 0)
received m (negsuc n) = (negsuc n, 0, 0)

-- `-E_IPC_NOT_RECV`.
abbrev pub not_receiving : ℤ
not_receiving = negsuc 6

-- `if (r < 0) panic(…)` at the end of `ipc_send`.
abbrev pub end_of_send : ℤ → Program
end_of_send (pos n) = returns (pos 0)
end_of_send (negsuc n) = panics

-- The tries of `ipc_send`, on rounds.
unfoldable pub send_tries : ℕ → Call → Program
send_tries zero c = out_of_rounds
send_tries (suc n) c =
    let again = send_tries n c in
    call c λ r. if eqb_int r not_receiving then call yield (λ _. again) else end_of_send r

-- `!pg` is 0.
unfoldable pub ipc_send : ℕ → ℕ → ℕ → ℕ → ℕ → Program
ipc_send rounds to_env val pg perm =
    send_tries rounds (ipc_try_send to_env val (if pg == 0 then utop else pg) perm)
