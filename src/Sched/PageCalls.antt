-- ===== src/Sched/PageCalls.antt =====
-- The system calls on memory, and the sending of messages (sched/kern/syscall.c).
use Prim.Native.Nat.{bit_and, bit_or}
use tps_sis_ops.Base.{
  ℕ, ◌%◌, Option, none, some, Bool, true, false, ◌&&◌, ◌||◌, not, leb, ◌==◌, if◌then◌else◌,
}
use tps_sis_ops.Base.Int.{pos}
use tps_sis_ops.Sched.Memory.{
  Memory, pgsize, utop, ptx, has_bit, page_alloc, Insert, inserted, no_memory, panicked,
  page_insert, Mapping, no_page, bad_page, page_in, page_lookup, page_remove,
}
use tps_sis_ops.Sched.Env.{Kernel, runnable, set_eax, set_env}
use tps_sis_ops.Sched.Scheduler.{Policy, fault, panic}
use tps_sis_ops.Sched.Envs.{
  e_inval, e_no_mem, e_ipc_not_recv, envid2env, Ends, returns, leaves, user_mem_assert,
}
use tps_sis_ops.Sched.Returns.{
  value, error, Return, back, leave, with_env, with_current, return_zero, then_ok,
}

-- `va >= UTOP || va % PGSIZE`.
abbrev pub is_bad_va : ℕ → Bool
is_bad_va va = leb utop va || not (va % pgsize == 0)

-- The test of the flags in `check_perm`, which is only called without an entry: none beside
-- `PTE_SYSCALL`, whose complement is `0xfffff1f8`, and both `PTE_P` and `PTE_U`.
unfoldable pub check_perm : ℕ → Bool
check_perm perm = (bit_and perm 0xfffff1f8 == 0) && has_bit perm 1 && has_bit perm 4

-- `return page_insert(…)`.
abbrev pub after_insert : Kernel → Insert → Return
after_insert k (inserted m) = back (value (pos 0)) (record k { memory = m })
after_insert k (no_memory m) = back (error e_no_mem) (record k { memory = m })
after_insert k panicked = leave panic

-- What `env_page_alloc` does with what `page_alloc` gave.
abbrev pub insert_new : Kernel → ℕ → ℕ → ℕ → Option ℕ × Memory → Return
insert_new k i va perm (none, m) = back (error e_no_mem) (record k { memory = m })
insert_new k i va perm (some p, m) = after_insert k (page_insert m (k.envs i).env_pgdir p va perm)

unfoldable pub env_page_alloc : Kernel → ℕ → ℕ → ℕ → Return
env_page_alloc k i va perm =
    if check_perm perm
    then insert_new k i va perm (page_alloc true k.memory)
    else back (error e_inval) k

-- What `env_page_map` does with what `page_lookup` found.
abbrev pub map_found : Kernel → ℕ → ℕ → ℕ → ℕ → Mapping → Return
map_found k srcva dst dstva perm no_page = back (error e_inval) k
map_found k srcva dst dstva perm bad_page = leave panic
map_found k srcva dst dstva perm (page_in p t) =
    if has_bit perm 2 && not (has_bit (k.memory.words t (ptx srcva)) 2)
    then back (error e_inval) k
    else after_insert k (page_insert k.memory (k.envs dst).env_pgdir p dstva perm)

unfoldable pub env_page_map : Kernel → ℕ → ℕ → ℕ → ℕ → ℕ → Return
env_page_map k src srcva dst dstva perm =
    map_found k srcva dst dstva perm (page_lookup k.memory (k.envs src).env_pgdir srcva)

-- `5` is `PTE_U | PTE_P`.
unfoldable pub sys_page_alloc : Kernel → ℕ → ℕ → ℕ → Return
sys_page_alloc k envid va perm =
    if is_bad_va va
    then back (error e_inval) k
    else with_env k (envid2env k envid true) λ i. env_page_alloc k i va (bit_or perm 5)

unfoldable pub sys_page_map : Kernel → ℕ → ℕ → ℕ → ℕ → ℕ → Return
sys_page_map k srcenvid srcva dstenvid dstva perm =
    if is_bad_va srcva || is_bad_va dstva
    then back (error e_inval) k
    else with_env k (envid2env k srcenvid true) λ src.
      with_env k (envid2env k dstenvid true)
        λ dst. env_page_map k src srcva dst dstva (bit_or 5 perm)

-- `return 0` behind a `page_remove`.
abbrev pub after_remove : Kernel → Option Memory → Return
after_remove k none = leave panic
after_remove k (some m) = back (value (pos 0)) (record k { memory = m })

unfoldable pub sys_page_unmap : Kernel → ℕ → ℕ → Return
sys_page_unmap k envid va =
    if is_bad_va va
    then back (error e_inval) k
    else with_env k (envid2env k envid true)
        λ i. after_remove k (page_remove k.memory (k.envs i).env_pgdir va)

-- What `sys_ipc_try_send` does from the label `bail` on, for a sender in slot `c`.
unfoldable pub deliver : Kernel → ℕ → ℕ → ℕ → Return
deliver k c i message =
    let e = k.envs i in
    back (value (pos 0)) (
      set_env k i (record e {
        env_ipc_from = (k.envs c).env_id;
        env_ipc_recving = false;
        env_ipc_value = message;
        env_tf = set_eax e.env_tf 0;
        env_status = runnable;
      }))

abbrev pub set_ipc_perm : Kernel → ℕ → ℕ → Kernel
set_ipc_perm k i perm = set_env k i (record (k.envs i) { env_ipc_perm = perm })

-- The sending of the page at `srcva`, with the flags `perm` completed.
unfoldable pub send_page : Kernel → ℕ → ℕ → ℕ → ℕ → Return
send_page k c i srcva perm =
    if (k.envs i).env_ipc_dstva == 0
    then back (value (pos 0)) k
    else then_ok (env_page_alloc k i (k.envs i).env_ipc_dstva perm) λ k'.
      then_ok (env_page_map k' c srcva i (k'.envs i).env_ipc_dstva perm)
        λ k''. back (value (pos 0)) (set_ipc_perm k'' i perm)

-- The tests of the entry for `srcva`. Without one the source reads through a pointer that is not set.
abbrev pub send_found : Kernel → ℕ → ℕ → ℕ → ℕ → ℕ → Mapping → Return
send_found k c i message srcva perm no_page = leave fault
send_found k c i message srcva perm bad_page = leave panic
send_found k c i message srcva perm (page_in p t) =
    let pte = k.memory.words t (ptx srcva) in
    if (not (pte == 0) && not (has_bit pte 1)) || (has_bit perm 2 && not (has_bit pte 2))
    then back (error e_inval) k
    else then_ok (send_page k c i srcva (bit_or perm 5)) λ k'. deliver k' c i message

-- `sys_ipc_try_send` for a sender in slot `c` and a target in slot `i`.
unfoldable pub try_send : Kernel → ℕ → ℕ → ℕ → ℕ → ℕ → Return
try_send k c i message srcva perm =
    if not (k.envs i).env_ipc_recving
    then back (error e_ipc_not_recv) k
    else (if leb utop srcva
        then deliver (set_ipc_perm k i 0) c i message
        else (if not (srcva % pgsize == 0)
            then back (error e_inval) k
            else send_found k c i message srcva perm
                (page_lookup k.memory (k.envs c).env_pgdir srcva)))

unfoldable pub sys_ipc_try_send : Kernel → ℕ → ℕ → ℕ → ℕ → Return
sys_ipc_try_send k envid message srcva perm =
    with_current k.curenv
      λ c. with_env k (envid2env k envid false) λ i. try_send k c i message srcva perm

-- The printing itself is not modelled; `7` is `PTE_P | PTE_W | PTE_U`.
unfoldable pub sys_cputs : Policy → Kernel → ℕ → ℕ → Return
sys_cputs policy k s len =
    with_current k.curenv λ c. return_zero (user_mem_assert policy k c s len 7)

-- `return 0` behind `user_mem_assert`, if that returned.
abbrev pub set_upcall : ℕ → ℕ → Ends → Return
set_upcall i func (leaves x) = leave x
set_upcall i func (returns k) =
    back (value (pos 0)) (set_env k i (record (k.envs i) { env_pgfault_upcall = func }))

unfoldable pub sys_env_set_pgfault_upcall : Policy → Kernel → ℕ → ℕ → Return
sys_env_set_pgfault_upcall policy k envid func =
    with_env k (envid2env k envid true)
      λ i. set_upcall i func (user_mem_assert policy k i func pgsize 5)
