-- ===== src/Sched/Envs.antt =====
-- The environment table of sched/kern/env.c.
pub mod FreeList
pub mod Ids
use Prim.Native.Nat.{bit_or}
use tps_sis_ops.Base.{
  ℕ, zero, suc, ◌+◌, ◌-◌, ◌*◌, ◌/◌, ◌%◌, ◌^◌, Option, none, some, Bool, true, false, ◌&&◌, ◌||◌,
  not, ltb, leb, ◌==◌, if◌then◌else◌, update,
}
use tps_sis_ops.Base.Int.{ℤ}
use tps_sis_ops.Sched.Env.{
  nenv, envx, Env, Trapframe, Kernel, EnvStatus, free, dying, runnable, running, has_status,
  set_env,
}
use tps_sis_ops.Sched.Scheduler.{Policy, Exit, panic, sched_yield}
use tps_sis_ops.Sched.Memory.{
  Memory, pgsize, utop, pdx, incref, set_word, page_alloc, page_decref, page_remove, has_bit, Check,
  ok, panicked, e_fault, user_mem_check,
}

-- The error codes that the kernel returns, negated.
pub data Errno : Type 0 where
  e_bad_env e_inval e_no_mem e_no_free_env e_ipc_not_recv : Errno

-- A call that stores an environment, or fails.
pub data Lookup : Type 0 where
  stored : Option ℕ → Lookup
  refused : Errno → Lookup

-- `e != curenv && e->env_parent_id != curenv->env_id`, for the environment in slot `i`.
unfoldable pub is_foreign : Kernel → ℕ → Bool
is_foreign k i = elim k.curenv [
  | none ↦ true
  | some c ↦ not (i == c) && not ((k.envs i).env_parent_id == (k.envs c).env_id)
]

-- `*env_store` on success. With no current environment the source may only be called without
-- `checkperm`.
unfoldable pub envid2env : Kernel → ℕ → Bool → Lookup
envid2env k envid checkperm =
    if envid == 0
    then stored k.curenv
    else (let e = k.envs (envx envid) in
        if has_status free e || not (e.env_id == envid)
        then refused e_bad_env
        else (if checkperm && is_foreign k (envx envid)
            then refused e_bad_env
            else stored (some (envx envid))))

-- What the loop of `env_init`, and the line behind it, make of the environment in slot `i`.
unfoldable pub init_env : ℕ → Env → Env
init_env i e = record e {
  env_id = 0;
  env_status = free;
  env_link = if i + 1 == nenv then none else some (i + 1);
}

unfoldable pub env_init : Kernel → Kernel
env_init k = record k { envs = λ i. init_env i (k.envs i); env_free_list = some 0 }

-- `1 << ENVGENSHIFT`.
abbrev pub generation_step : ℕ
generation_step = 4096

-- The next generation of an id, in 32 bits with its ten low bits cleared; as an `int32_t` it is not
-- positive if it is 0 or has the sign bit.
unfoldable pub next_generation : ℕ → ℕ
next_generation id =
    let generation = (id + generation_step) % 2 ^ 32 / nenv * nenv in
    if (generation == 0) || leb (2 ^ 31) generation then generation_step else generation

-- The registers of a new environment; `GD_UD | 3`, `GD_UT | 3`, `USTACKTOP` and `FL_IF`.
abbrev pub new_trapframe : Trapframe
new_trapframe = record {
  tf_regs = record {
    reg_edi = 0;
    reg_esi = 0;
    reg_ebp = 0;
    reg_oesp = 0;
    reg_ebx = 0;
    reg_edx = 0;
    reg_ecx = 0;
    reg_eax = 0;
  };
  tf_es = 0x23;
  tf_ds = 0x23;
  tf_trapno = 0;
  tf_err = 0;
  tf_eip = 0;
  tf_cs = 0x1b;
  tf_eflags = 0x200;
  tf_esp = 0xeebfe000;
  tf_ss = 0x23;
}

-- The new environment of `env_alloc` in slot `i`, made of what the slot holds.
unfoldable pub new_env : ℕ → ℕ → ℕ → Env → Env
new_env pgdir parent_id i e = record e {
  env_pgdir = pgdir;
  env_id = next_generation e.env_id + i;
  env_parent_id = parent_id;
  env_status = runnable;
  env_runs = 0;
  env_tf = new_trapframe;
  env_pgfault_upcall = 0;
  env_ipc_recving = false;
}

-- The index of `UVPT` in a page directory.
abbrev pub uvpt : ℕ
uvpt = 957

-- What `env_setup_vm` does with the page that `page_alloc` gave: a copy of the kernel's directory,
-- with an entry for the directory itself; `5` is `PTE_P | PTE_U`.
abbrev pub new_pgdir : Option ℕ × Memory → Option ℕ × Memory
new_pgdir (none, m) = (none, m)
new_pgdir (some p, m) = (
  some p,
  incref
      (set_word (record m { words = update m.words p (m.words m.kern_pgdir) }) p uvpt
        (bit_or (p * pgsize) 5))
      p,
)

-- The directory's page; `none` is -E_NO_MEM.
unfoldable pub env_setup_vm : Memory → Option ℕ × Memory
env_setup_vm m = new_pgdir (page_alloc true m)

-- What `env_alloc` does for the head of the free list behind `env_setup_vm`.
abbrev pub alloc_in : Kernel → ℕ → ℕ → Option ℕ × Memory → Lookup × Kernel
alloc_in k parent_id i (none, m) = (refused e_no_mem, record k { memory = m })
alloc_in k parent_id i (some pgdir, m) = (
  stored (some i),
  record (set_env k i (new_env pgdir parent_id i (k.envs i))) {
    env_free_list = (k.envs i).env_link;
    memory = m;
  },
)

-- What it does for a head of the free list.
abbrev pub alloc_at : Kernel → ℕ → Option ℕ → Lookup × Kernel
alloc_at k parent_id none = (refused e_no_free_env, k)
alloc_at k parent_id (some i) = alloc_in k parent_id i (env_setup_vm k.memory)

unfoldable pub env_alloc : Kernel → ℕ → Lookup × Kernel
env_alloc k parent_id = alloc_at k parent_id k.env_free_list

-- A step that may panic, and what follows.
abbrev pub and_then : Option Memory → (Memory → Option Memory) → Option Memory
and_then none f = none
and_then (some m) f = f m

-- The loop over the entries of table `t`, of index `pdeno` in the directory: `n` rounds from entry
-- `pteno` on.
unfoldable pub free_entries : Memory → ℕ → ℕ → ℕ → ℕ → ℕ → Option Memory
free_entries m pgdir pdeno t zero pteno = some m
free_entries m pgdir pdeno t (suc n) pteno =
    and_then
      (if has_bit (m.words t pteno) 1
        then page_remove m pgdir (pdeno * 0x400000 + pteno * 0x1000)
        else some m)
      λ m'. free_entries m' pgdir pdeno t n (pteno + 1)

-- The round for the directory's entry of index `pdeno`, which names table `t`.
abbrev pub free_table : Memory → ℕ → ℕ → ℕ → Option Memory
free_table m pgdir pdeno t =
    if ltb t m.npages
    then and_then (free_entries m pgdir pdeno t 1024 0)
        (λ m'. page_decref (set_word m' pgdir pdeno 0) t)
    else none

-- The loop over the entries below `UTOP`: `n` rounds from entry `pdeno` on.
unfoldable pub free_tables : Memory → ℕ → ℕ → ℕ → Option Memory
free_tables m pgdir zero pdeno = some m
free_tables m pgdir (suc n) pdeno =
    and_then
      (if has_bit (m.words pgdir pdeno) 1
        then free_table m pgdir pdeno (m.words pgdir pdeno / pgsize)
        else some m)
      λ m'. free_tables m' pgdir n (pdeno + 1)

-- All that `env_free` does to the memory.
unfoldable pub free_address_space : Memory → ℕ → Option Memory
free_address_space m pgdir = and_then (free_tables m pgdir (pdx utop) 0) λ m'. page_decref m' pgdir

-- Its end: back to the free list.
unfoldable pub release : Kernel → ℕ → Kernel
release k i =
    record (set_env k i
      (record (k.envs i) { env_pgdir = 0; env_status = free; env_link = k.env_free_list })) {
        env_free_list = some i;
      }

abbrev pub release_with : Kernel → ℕ → Option Memory → Option Kernel
release_with k i none = none
release_with k i (some m) = some (release (record k { memory = m }) i)

-- `none` is a panic.
unfoldable pub env_free : Kernel → ℕ → Option Kernel
env_free k i = release_with k i (free_address_space k.memory (k.envs i).env_pgdir)

-- `curenv == e`, for the environment in slot `i`.
unfoldable pub is_current : Kernel → ℕ → Bool
is_current k i = elim k.curenv [ none ↦ false | some c ↦ c == i ]

-- A call that returns, or that leaves the kernel.
pub data Ends : Type 0 where
  returns : Kernel → Ends
  leaves : Exit → Ends

-- What `env_destroy` does behind `env_free`.
abbrev pub destroyed : Policy → Bool → Option Kernel → Ends
destroyed policy current none = leaves panic
destroyed policy true (some k) = leaves (sched_yield policy (record k { curenv = none }))
destroyed policy false (some k) = returns k

unfoldable pub env_destroy : Policy → Kernel → ℕ → Ends
env_destroy policy k i =
    if has_status running (k.envs i) && not (is_current k i)
    then returns (set_env k i (record (k.envs i) { env_status = dying }))
    else destroyed policy (is_current k i) (env_free k i)

-- `user_mem_assert` for the environment in slot `i`: it is destroyed if the check fails.
abbrev pub assert_checked : Policy → Kernel → ℕ → Check → Ends
assert_checked policy k i ok = returns k
assert_checked policy k i panicked = leaves panic
assert_checked policy k i (e_fault _) = env_destroy policy k i

unfoldable pub user_mem_assert : Policy → Kernel → ℕ → ℕ → ℕ → ℕ → Ends
user_mem_assert policy k i va len perm =
    assert_checked policy k i (user_mem_check k.memory (k.envs i).env_pgdir va len (bit_or perm 4))
