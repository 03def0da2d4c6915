-- ===== src/Sched/Memory/Tests.antt =====
-- Runs of the page allocator and of the functions on page tables, and their theorems at a small
-- memory (sched/kern/pmap.c).
use tps_sis_ops.Base.{[], ◌∷◌, ℕ, ◌≡◌, ◌⊎◌, refl, none, some, true, ◌==◌, if◌then◌else◌, arith}
use tps_sis_ops.Sched.Memory.{
  PageInfo, Memory, page_alloc, pgdir_walk, find_table, ensure_table, page_in, page_lookup,
  inserted, no_memory, page_insert, ok, e_fault, user_mem_check, check_pages, pdx,
}
use tps_sis_ops.Sched.Boot.{boot_alloc, is_reserved, page_init}
use tps_sis_ops.Sched.Boot.FreePages.{free_below, booted, Gives, PageHistory-Gives}
use tps_sis_ops.Sched.Memory.Walks.{IsSound}
use tps_sis_ops.Sched.Memory.Roundtrip.{IsMapped, page_insert_lem}
use tps_sis_ops.Sched.Memory.Access.{user_mem_check-wraps}

-- Eight pages, of which 3 and 4 are free. Page 0 is a directory, which maps the page of address
-- 0x1000 to page 5 through the table in page 2.
abbrev infos : ℕ → PageInfo
infos p =
    if p == 3
    then record { pp_link = some 4; pp_ref = 0 }
    else record { pp_link = none; pp_ref = if p == 5 then 1 else 0 }

abbrev words : ℕ → ℕ → ℕ
words p i =
    if p == 0
    then (if i == 0 then 0x2007 else 0)
    else (if p == 2 then (if i == 1 then 0x5007 else 0) else 0)

abbrev eight : Memory
eight = record { npages = 8; pages = infos; page_free_list = some 3; words = words; kern_pgdir = 7 }

page_alloc-first : (page_alloc true eight).0 ≡ some 3
unfolding page_alloc
page_alloc-first = refl

page_lookup-mapped : page_lookup eight 0 0x1abc ≡ page_in 5 2
unfolding page_lookup pgdir_walk find_table ensure_table
page_lookup-mapped = refl

user_mem_check-mapped : user_mem_check eight 0 0x1010 0x20 7 ≡ ok
unfolding user_mem_check check_pages pgdir_walk find_table ensure_table
user_mem_check-mapped = refl

-- The page behind the mapped one is not granted; the first bad address is reported.
user_mem_check-behind : user_mem_check eight 0 0x1ff0 0x20 7 ≡ e_fault 0x2000
unfolding user_mem_check check_pages pgdir_walk find_table ensure_table
user_mem_check-behind = refl

eight-IsSound : IsSound eight 0 0x1000
eight-IsSound = record {
  listed = λ q h. let e : 3 ≡ q = cc in (omega (arith, e), omega (arith, e));
  tabled = λ h. (omega arith, omega arith);
  mapped = λ t h e n. rw e (omega arith, refl);
}

page_insert_lem_example :
    ((m' : Memory) × (t : ℕ) × (page_insert eight 0 5 0x1000 7 ≡ inserted m')
      × IsMapped eight m' 0 5 0x1000 7 t)
    ⊎ ((eight.page_free_list ≡ none)
        × ((eight.words 0 (pdx 0x1000) == 0) ≡ true)
        × (page_insert eight 0 5 0x1000 7 ≡ no_memory eight))
page_insert_lem_example =
    page_insert_lem eight 0 5 0x1000 7 eight-IsSound (omega arith) (omega arith)

-- The kernel's own memory, from 0xf0000000 on, to the end and around it.
user_mem_check-wraps_example : user_mem_check eight 0 0xf0000000 0x10000000 7 ≡ ok
user_mem_check-wraps_example =
    user_mem_check-wraps eight 0 0xf0000000 0x10000000 7 (omega arith) (omega arith)

-- The boot allocator, and the free pages of a machine with 8 pages.
boot_alloc-chunk : boot_alloc 512 0x110000 100 ≡ some (0x110000, 0x111000)
unfolding boot_alloc
boot_alloc-chunk = refl

abbrev fresh : Memory
fresh = record eight { page_free_list = none }

fresh-free : free_below 257 8 ≡ 6 ∷ 5 ∷ 4 ∷ 3 ∷ 2 ∷ 1 ∷ []
unfolding is_reserved
fresh-free = refl

PageHistory-Gives_example : Gives true (page_init fresh 0x101000) (free_below 257 8)
PageHistory-Gives_example =
    PageHistory-Gives true (page_init fresh 0x101000) (free_below 257 8)
      (booted fresh 0x101000 refl)
