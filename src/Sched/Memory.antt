-- ===== src/Sched/Memory.antt =====
-- Physical pages and page tables (sched/kern/pmap.c). A `struct PageInfo *`, and the page that it
-- stands for, is the page's number; of a page's contents there are its 1024 words of 32 bits. A
-- pointer to a page table's entry is the table's page and the entry's index.
pub mod Access
pub mod Roundtrip
mod Tests
pub mod Walks
use Prim.Native.Nat.{bit_and, bit_or}
use tps_sis_ops.Base.{
  ℕ, zero, suc, ◌+◌, ◌-◌, ◌*◌, ◌/◌, ◌%◌, ◌^◌, Option, none, some, Bool, true, false, ◌&&◌, ◌||◌,
  not, ltb, leb, ◌==◌, if◌then◌else◌, update,
}

abbrev pub pgsize : ℕ
pgsize = 4096

-- `UTOP`.
abbrev pub utop : ℕ
utop = 0xeec00000

-- The indices of a linear address in the directory and in a table: `PDX` and `PTX`.
abbrev pub pdx : ℕ → ℕ
pdx va = va / 0x400000 % 1024

abbrev pub ptx : ℕ → ℕ
ptx va = va / 0x1000 % 1024

-- `PTE_P | PTE_W | PTE_U`.
abbrev pub pte_pwu : ℕ
pte_pwu = 7

-- Whether the bit of weight `bit` is set in `pte`.
abbrev pub has_bit : ℕ → ℕ → Bool
has_bit pte bit = pte / bit % 2 == 1

-- `pp_ref` is a `uint16_t`.
pub record PageInfo : Type 0 where
  pub pp_link : Option ℕ
  pub pp_ref : ℕ

-- `words p i` is the word of index `i` of page `p`.
pub record Memory : Type 0 where
  pub npages : ℕ
  pub pages : ℕ → PageInfo
  pub page_free_list : Option ℕ
  pub words : ℕ → ℕ → ℕ
  pub kern_pgdir : ℕ

abbrev pub set_page : Memory → ℕ → PageInfo → Memory
set_page m p info = record m { pages = update m.pages p info }

-- A write to the word of index `i` of page `p`.
abbrev pub set_word : Memory → ℕ → ℕ → ℕ → Memory
set_word m p i v = record m { words = update m.words p (update (m.words p) i v) }

abbrev pub zero_page : Bool → Memory → ℕ → Memory
zero_page false m p = m
zero_page true m p = record m { words = update m.words p (λ i. 0) }

-- What `page_alloc` does for a head of the free list.
abbrev pub alloc_page : Bool → Memory → Option ℕ → Option ℕ × Memory
alloc_page fill m none = (none, m)
alloc_page fill m (some p) = (
  some p,
  zero_page fill
      (record (set_page m p (record (m.pages p) { pp_link = none })) {
        page_free_list = (m.pages p).pp_link;
      })
      p,
)

-- `fill` is the flag `ALLOC_ZERO`.
unfoldable pub page_alloc : Bool → Memory → Option ℕ × Memory
page_alloc fill m = alloc_page fill m m.page_free_list

abbrev pub is_some : Option ℕ → Bool
is_some none = false
is_some (some _) = true

-- The last two lines of `page_free`.
abbrev pub push_free : Memory → ℕ → Memory
push_free m p = record (set_page m p (record (m.pages p) { pp_link = m.page_free_list })) {
  page_free_list = some p;
}

-- `none` is a panic.
unfoldable pub page_free : Memory → ℕ → Option Memory
page_free m p =
    if not ((m.pages p).pp_ref == 0)
    then none
    else (if is_some (m.pages p).pp_link then none else some (push_free m p))

-- `++pp->pp_ref` and `--pp->pp_ref`, in 16 bits.
abbrev pub incref : Memory → ℕ → Memory
incref m p = set_page m p (record (m.pages p) { pp_ref = ((m.pages p).pp_ref + 1) % 2 ^ 16 })

abbrev pub lower_ref : Memory → ℕ → Memory
lower_ref m p =
    set_page m p (record (m.pages p) { pp_ref = ((m.pages p).pp_ref + (2 ^ 16 - 1)) % 2 ^ 16 })

unfoldable pub page_decref : Memory → ℕ → Option Memory
page_decref m p =
    if ((lower_ref m p).pages p).pp_ref == 0
    then page_free (lower_ref m p) p
    else some (lower_ref m p)

-- The page table of a new directory entry, if `page_alloc` gave one.
abbrev pub add_table : ℕ → ℕ → Option ℕ × Memory → Memory
add_table pgdir va (none, m) = m
add_table pgdir va (some p, m) = set_word (incref m p) pgdir (pdx va) (bit_or (p * pgsize) pte_pwu)

-- The first `if` of `pgdir_walk`.
unfoldable pub ensure_table : Memory → ℕ → ℕ → Bool → Memory
ensure_table m pgdir va create =
    if (m.words pgdir (pdx va) == 0) && create then add_table pgdir va (page_alloc true m) else m

-- `NULL`; the entry of index `PTX(va)` of a table; or the panic of `KADDR`.
pub data Walk : Type 0 where
  missing bad_table : Walk
  table : ℕ → Walk

-- Its second `if`.
unfoldable pub find_table : Memory → ℕ → ℕ → Walk
find_table m pgdir va =
    if m.words pgdir (pdx va) == 0
    then missing
    else (if ltb (m.words pgdir (pdx va) / pgsize) m.npages
        then table (m.words pgdir (pdx va) / pgsize)
        else bad_table)

unfoldable pub pgdir_walk : Memory → ℕ → ℕ → Bool → Walk × Memory
pgdir_walk m pgdir va create =
    (find_table (ensure_table m pgdir va create) pgdir va, ensure_table m pgdir va create)

-- `NULL`, a page with the table that its entry stands in, or a panic.
pub data Mapping : Type 0 where
  no_page bad_page : Mapping
  page_in : ℕ → ℕ → Mapping

-- What `page_lookup` makes of the entry: any that is not 0 counts as present.
abbrev pub lookup_in : Memory → ℕ → Walk → Mapping
lookup_in m va missing = no_page
lookup_in m va bad_table = bad_page
lookup_in m va (table t) =
    if m.words t (ptx va) == 0
    then no_page
    else (if ltb (m.words t (ptx va) / pgsize) m.npages
        then page_in (m.words t (ptx va) / pgsize) t
        else bad_page)

unfoldable pub page_lookup : Memory → ℕ → ℕ → Mapping
page_lookup m pgdir va = lookup_in m va (pgdir_walk m pgdir va false).0

-- `*pte = 0`, behind a `page_decref` that returned.
abbrev pub clear_entry : ℕ → ℕ → Option Memory → Option Memory
clear_entry t va none = none
clear_entry t va (some m) = some (set_word m t (ptx va) 0)

-- What `page_remove` does with what it found.
abbrev pub remove_mapping : Memory → ℕ → Mapping → Option Memory
remove_mapping m va no_page = some m
remove_mapping m va bad_page = none
remove_mapping m va (page_in p t) = clear_entry t va (page_decref m p)

-- `none` is a panic.
unfoldable pub page_remove : Memory → ℕ → ℕ → Option Memory
page_remove m pgdir va = remove_mapping m va (page_lookup m pgdir va)

-- A call that returns 0, one that returns -E_NO_MEM, or one that panics.
pub data Insert : Type 0 where
  inserted no_memory : Memory → Insert
  panicked : Insert

-- The entry that maps a page.
abbrev pub new_pte : ℕ → ℕ → ℕ
new_pte p perm = bit_or (bit_or (p * pgsize) perm) 1

-- `*page_table = new_pte`, behind a `page_remove` that returned.
abbrev pub write_entry : ℕ → ℕ → ℕ → Option Memory → Insert
write_entry t va pte none = panicked
write_entry t va pte (some m) = inserted (set_word m t (ptx va) pte)

-- `page_insert` behind its walk.
abbrev pub insert_in : ℕ → ℕ → ℕ → ℕ → Walk × Memory → Insert
insert_in pgdir p va perm (missing, m) = no_memory m
insert_in pgdir p va perm (bad_table, m) = panicked
insert_in pgdir p va perm (table t, m) =
    write_entry t va (new_pte p perm) (page_remove (incref m p) pgdir va)

unfoldable pub page_insert : Memory → ℕ → ℕ → ℕ → ℕ → Insert
page_insert m pgdir p va perm = insert_in pgdir p va perm (pgdir_walk m pgdir va true)

-- `ROUNDDOWN` and `ROUNDUP` to pages, in 32 bits.
abbrev pub round_down : ℕ → ℕ
round_down a = a - a % pgsize

abbrev pub round_up : ℕ → ℕ
round_up a = round_down ((a + (pgsize - 1)) % 2 ^ 32)

-- `(*pte & (perm | PTE_P)) == (perm | PTE_P)`.
abbrev pub grants : ℕ → ℕ → Bool
grants pte perm = bit_and pte (bit_or perm 1) == bit_or perm 1

-- The test that `user_mem_check` makes of the page at `va`; a table that `KADDR` refuses is a panic.
abbrev pub allows : Memory → ℕ → ℕ → Walk → Option Bool
allows m va perm missing = some false
allows m va perm bad_table = none
allows m va perm (table t) = some (grants (m.words t (ptx va)) perm)

-- `ok`, or -E_FAULT with `user_mem_check_addr`, or a panic.
pub data Check : Type 0 where
  ok panicked : Check
  e_fault : ℕ → Check

abbrev pub check_step : Option Bool → ℕ → ℕ → Check → Check
check_step none va va_lo rest = panicked
check_step (some false) va va_lo rest = e_fault (if ltb va_lo va then va else va_lo)
check_step (some true) va va_lo rest = rest

-- Its loop: `n` rounds from `va` on.
unfoldable pub check_pages : Memory → ℕ → ℕ → ℕ → ℕ → ℕ → Check
check_pages m pgdir perm va_lo zero va = ok
check_pages m pgdir perm va_lo (suc n) va =
    let rest = check_pages m pgdir perm va_lo n (va + pgsize) in
    check_step (allows m va perm (pgdir_walk m pgdir va false).0) va va_lo rest

unfoldable pub user_mem_check : Memory → ℕ → ℕ → ℕ → ℕ → Check
user_mem_check m pgdir va len perm =
    let va_hi = round_up ((va + len) % 2 ^ 32) in
    if ltb utop va_hi
    then e_fault va
    else check_pages m pgdir perm va ((va_hi - round_down va) / pgsize) (round_down va)
