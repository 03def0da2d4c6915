-- ===== src/Sched/Boot.antt =====
-- The set-up of memory and of the first environments (sched/kern/pmap.c, sched/kern/env.c). Addresses
-- that the boot allocator gives are physical; `KERNBASE` is added for the kernel.
pub mod FreePages
use Prim.Native.Nat.{bit_or}
use tps_sis_ops.Base.{
  ℕ, zero, suc, ◌+◌, ◌-◌, ◌*◌, ◌/◌, ◌%◌, ◌^◌, Option, none, some, Bool, true, false, ◌&&◌, ◌||◌,
  ltb, leb, ◌==◌, if◌then◌else◌,
}
use tps_sis_ops.Base.Int.{ℤ, pos}
use tps_sis_ops.Sched.Memory.{
  Memory, pgsize, utop, ptx, set_page, set_word, page_alloc, Walk, missing, bad_table, pgdir_walk,
  page_remove, Insert, inserted, no_memory, panicked, page_insert, round_down, round_up,
}
use tps_sis_ops.Sched.Memory as Mem
use tps_sis_ops.Sched.Env.{Env, Kernel, set_env}
use tps_sis_ops.Sched.Scheduler.{initial_priority}
use tps_sis_ops.Sched.Envs.{Lookup, stored, refused, env_alloc}

abbrev pub kernbase : ℕ
kernbase = 0xf0000000

-- `boot_alloc` for the address of the next free byte: the address of the chunk of `n` bytes, and the
-- next one behind it; `none` is a panic, of `PADDR` or of the function itself.
unfoldable pub boot_alloc : ℕ → ℕ → ℕ → Option (ℕ × ℕ)
boot_alloc npages nextfree n =
    let virtual = (kernbase + nextfree + n) % 2 ^ 32 in
    if ltb virtual kernbase
    then none
    else (if leb (pgsize * npages % 2 ^ 32) (virtual - kernbase)
        then none
        else some (nextfree, round_up (virtual - kernbase)))

-- The pages that `page_init` leaves out: the first, that of `MPENTRY_PADDR`, the hole for I/O, and
-- what the kernel uses, up to page `kernel_end`.
unfoldable pub is_reserved : ℕ → ℕ → Bool
is_reserved kernel_end i =
    (i == 0) || (i == 7) || (leb 160 i && ltb i 256) || (leb 256 i && ltb i kernel_end)

-- A round of its loop.
unfoldable pub init_page : ℕ → Memory → ℕ → Memory
init_page kernel_end m i =
    if is_reserved kernel_end i
    then set_page m i (record (m.pages i) { pp_link = none })
    else record (set_page m i record { pp_link = m.page_free_list; pp_ref = 0 }) {
      page_free_list = some i;
    }

-- `n` rounds, from page `i` on.
unfoldable pub init_pages : ℕ → Memory → ℕ → ℕ → Memory
init_pages kernel_end m zero i = m
init_pages kernel_end m (suc n) i = init_pages kernel_end (init_page kernel_end m i) n (i + 1)

-- For the next free byte of the boot allocator.
unfoldable pub page_init : Memory → ℕ → Memory
page_init m nextfree = init_pages (nextfree / pgsize) m m.npages 0

-- What a round of `boot_map_region` does behind its walk; `none` is a panic or a fault.
abbrev pub map_entry : ℕ → ℕ → ℕ → Walk × Memory → Option Memory
map_entry pgdir va pte (missing, m) = none
map_entry pgdir va pte (bad_table, m) = none
map_entry pgdir va pte (Mem.table t, m) = elim (page_remove m pgdir va) [
  | none ↦ none
  | some m' ↦ some (set_word m' t (ptx va) pte)
]

-- Its loop, `n` rounds from `va` and `pa` on.
unfoldable pub map_pages : Memory → ℕ → ℕ → ℕ → ℕ → ℕ → Option Memory
map_pages m pgdir perm zero va pa = some m
map_pages m pgdir perm (suc n) va pa =
    elim (map_entry pgdir va (bit_or (bit_or pa perm) 1) (pgdir_walk m pgdir va true)) [
      | none ↦ none
      | some m' ↦ map_pages m' pgdir perm n ((va + pgsize) % 2 ^ 32) ((pa + pgsize) % 2 ^ 32)
    ]

-- Without large pages.
unfoldable pub boot_map_region : Memory → ℕ → ℕ → ℕ → ℕ → ℕ → Option Memory
boot_map_region m pgdir va size pa perm =
    map_pages m pgdir perm ((size + (pgsize - 1)) / pgsize) va pa

-- `mmio_map_region` for its static `base`: the memory and the new base. `0x1b` is
-- `PTE_W | PTE_P | PTE_PCD | PTE_PWT`.
unfoldable pub mmio_map_region : Memory → ℕ → ℕ → ℕ → Option (Memory × ℕ)
mmio_map_region m base pa size =
    if leb 0xefc00000 ((base + round_up size) % 2 ^ 32)
    then none
    else elim (boot_map_region m m.kern_pgdir base (round_up size) (round_down pa) 0x1b) [
      | none ↦ none
      | some m' ↦ some (m', (base + round_up size) % 2 ^ 32)
    ]

-- A page of `region_alloc`, from what `page_alloc` gave; `6` is `PTE_U | PTE_W`.
abbrev pub region_page : ℕ → ℕ → Option ℕ × Memory → Option Memory
region_page pgdir va (none, m) = none
region_page pgdir va (some p, m) = elim (page_insert m pgdir p va 6) [
  | inserted m' ↦ some m'
  | no_memory m' ↦ none
  | panicked ↦ none
]

unfoldable pub region_pages : Memory → ℕ → ℕ → ℕ → Option Memory
region_pages m pgdir zero va = some m
region_pages m pgdir (suc n) va = elim (region_page pgdir va (page_alloc false m)) [
  | none ↦ none
  | some m' ↦ region_pages m' pgdir n (va + pgsize)
]

-- `none` is a panic.
unfoldable pub region_alloc : Memory → ℕ → ℕ → ℕ → Option Memory
region_alloc m pgdir va len =
    let va_lo = round_down va in
    let va_hi = round_up ((va + len) % 2 ^ 32) in
    if ltb utop va_hi then none else region_pages m pgdir ((va_hi - va_lo) / pgsize) va_lo
