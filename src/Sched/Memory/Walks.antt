-- ===== src/Sched/Memory/Walks.antt =====
-- What `pgdir_walk` finds and creates (sched/kern/pmap.c).
use Prim.Native.Nat.{bit_or}
use mathlib.Core.Path.{subst}
use tps_sis_ops.Base.{
  ℕ, ◌+◌, ◌*◌, ◌/◌, ◌<◌, ◌≡◌, ◌≢◌, refl, ap, ◌∙◌, ◌⊎◌, inl, inr, none, some, true, false, ltb, ◌==◌,
  Bool-cases, Option-cases, arith,
}
use tps_sis_ops.Base.Bits.{shl, bit_or-shl}
use tps_sis_ops.Sched.Memory.{
  pgsize, pdx, ptx, pte_pwu, Memory, alloc_page, page_alloc, add_table, ensure_table, missing,
  table, find_table, pgdir_walk,
}

-- The directory entry of a new table holds its page.
table_pde :
    (p : ℕ)
    → (bit_or (p * pgsize) pte_pwu / pgsize ≡ p) × ((bit_or (p * pgsize) pte_pwu == 0) ≡ false)
table_pde p =
    let same : shl 12 p ≡ p * pgsize = omega arith in
    let whole : bit_or (p * pgsize) pte_pwu ≡ p * pgsize + pte_pwu =
      subst (λ x. bit_or x pte_pwu ≡ x + pte_pwu) same (bit_or-shl 12 p pte_pwu (omega arith)) in
    (omega (arith, whole), ground (arith, whole))

-- What the functions on page tables rely on at an address of a directory: the free list starts at
-- a page that is neither outside of memory nor the directory; the table and the page that are there
-- already lie in memory, the table is not the directory, and the page is not on the free list.
pub record IsSound (m : Memory) (pgdir va : ℕ) : Type 0 where
  pub listed : (q : ℕ) → m.page_free_list ≡ some q → (q < m.npages) × (q ≢ pgdir)
  pub tabled :
      (m.words pgdir (pdx va) == 0) ≡ false
      → (m.words pgdir (pdx va) / pgsize < m.npages) × (m.words pgdir (pdx va) / pgsize ≢ pgdir)
  pub mapped :
      (t : ℕ)
      → (m.words pgdir (pdx va) == 0) ≡ false
      → t ≡ m.words pgdir (pdx va) / pgsize
      → (m.words t (ptx va) == 0) ≡ false
      → (m.words t (ptx va) / pgsize < m.npages)
        × ((m.pages (m.words t (ptx va) / pgsize)).pp_link ≡ none)

-- The memory `m'` that a walk of `m` leaves when it ends in table `t`.
pub record Walked (m m' : Memory) (pgdir va t : ℕ) : Type 0 where
  pub size : m'.npages ≡ m.npages
  pub present : (m'.words pgdir (pdx va) == 0) ≡ false
  pub holds : m'.words pgdir (pdx va) / pgsize ≡ t
  pub inside : t < m'.npages
  pub apart : t ≢ pgdir
  pub mapped :
      (m'.words t (ptx va) == 0) ≡ false
      → (m'.words t (ptx va) / pgsize < m'.npages)
        × ((m'.pages (m'.words t (ptx va) / pgsize)).pp_link ≡ none)
  pub others : (q i : ℕ) → q ≢ pgdir → q ≢ t → m'.words q i ≡ m.words q i
  pub siblings : (i : ℕ) → i ≢ pdx va → m'.words pgdir i ≡ m.words pgdir i
  pub entries :
      (i : ℕ)
      → (m'.words t i ≡ m.words t i) ⊎ (((m.words pgdir (pdx va) == 0) ≡ true) × (m'.words t i ≡ 0))

module _ (m : Memory) (pgdir va : ℕ) (sound : IsSound m pgdir va) where
  -- The table that is there already.
  pub Walked-present :
      (m.words pgdir (pdx va) == 0) ≡ false → Walked m m pgdir va (m.words pgdir (pdx va) / pgsize)
  Walked-present e = record {
    size = refl;
    present = e;
    holds = refl;
    inside = (sound.tabled e).0;
    apart = (sound.tabled e).1;
    mapped = sound.mapped (m.words pgdir (pdx va) / pgsize) e refl;
    others = λ q i _ _. refl;
    siblings = λ i _. refl;
    entries = λ i. inl refl;
  }

  -- The table that a page of the free list becomes.
  Walked-new :
      (q : ℕ)
      → m.page_free_list ≡ some q
      → (m.words pgdir (pdx va) == 0) ≡ true
      → Walked m (add_table pgdir va (alloc_page true m (some q))) pgdir va q
  Walked-new q head empty =
      let (lt, apart) = sound.listed q head in
      let (holds, present) = table_pde q in
      let here : (pgdir == pgdir) ≡ true = ground arith in
      let entry : (pdx va == pdx va) ≡ true = ground arith in
      let self : (q == q) ≡ true = ground arith in
      let away : (q == pgdir) ≡ false = ground arith in
      let away' : (pgdir == q) ≡ false = ground arith in
      record {
        size = refl;
        present = rw (here, entry) present;
        holds = rw (here, entry) holds;
        inside = lt;
        apart = apart;
        mapped = λ e.
            let z : (add_table pgdir va (alloc_page true m (some q))).words q (ptx va) ≡ 0 =
              rw (away, self) refl in
            absurd (ground (arith, z, e));
        others = λ p i a b.
            let a' : (p == pgdir) ≡ false = ground arith in
            let b' : (p == q) ≡ false = ground arith in rw (a', b') refl;
        siblings =
            λ i a. let a' : (i == pdx va) ≡ false = ground arith in rw (here, a', away') refl;
        entries = λ i. inr (empty, rw (away, self) refl);
      }

-- A walk ends in the table that the directory entry names.
pub find_table-at :
    (m : Memory) (pgdir va t : ℕ)
    → (m.words pgdir (pdx va) == 0) ≡ false
    → m.words pgdir (pdx va) / pgsize ≡ t
    → t < m.npages
    → find_table m pgdir va ≡ table t
unfolding find_table
find_table-at m pgdir va t present holds lt =
    let inside : ltb (m.words pgdir (pdx va) / pgsize) m.npages ≡ true = ground arith in
    rw (present, inside) (ap table holds)

pub Walked-find_table :
    (m m' : Memory) (pgdir va t : ℕ) → Walked m m' pgdir va t → find_table m' pgdir va ≡ table t
Walked-find_table m m' pgdir va t w = find_table-at m' pgdir va t w.present w.holds w.inside

pub find_table-missing :
    (m : Memory) (pgdir va : ℕ)
    → (m.words pgdir (pdx va) == 0) ≡ true
    → find_table m pgdir va ≡ missing
unfolding find_table
find_table-missing m pgdir va e = rw e refl

-- A walk that may create ends in a table, or finds neither a table nor a free page.
pub pgdir_walk-create :
    (m : Memory) (pgdir va : ℕ)
    → IsSound m pgdir va
    → ((m.page_free_list ≡ none)
        × ((m.words pgdir (pdx va) == 0) ≡ true)
        × (pgdir_walk m pgdir va true ≡ (missing, m)))
      ⊎ ((t : ℕ) × (m' : Memory) × (pgdir_walk m pgdir va true ≡ (table t, m'))
          × Walked m m' pgdir va t)
unfolding pgdir_walk ensure_table page_alloc
pgdir_walk-create m pgdir va sound = elim (Bool-cases (m.words pgdir (pdx va) == 0)) [
  | inr e ↦
      let w = Walked-present m pgdir va sound e in
      let find = Walked-find_table m m pgdir va (m.words pgdir (pdx va) / pgsize) w in
      inr (m.words pgdir (pdx va) / pgsize, m, rw (e) (ap (λ x. (x, m)) find), w)
  | inl e ↦ elim (Option-cases m.page_free_list) [
    | inl head ↦
        let made : ensure_table m pgdir va true ≡ m =
          rw e (ap (λ o. add_table pgdir va (alloc_page true m o)) head) in
        inl (
          head,
          e,
          ap (λ x. (find_table x pgdir va, x)) made
              ∙ ap (λ x. (x, m)) (find_table-missing m pgdir va e),
        )
    | inr (q, head) ↦
        let m' = add_table pgdir va (alloc_page true m (some q)) in
        let w = Walked-new m pgdir va sound q head e in
        let made : ensure_table m pgdir va true ≡ m' =
          rw e (ap (λ o. add_table pgdir va (alloc_page true m o)) head) in
        inr (
          q,
          m',
          ap (λ x. (find_table x pgdir va, x)) made
              ∙ ap (λ x. (x, m')) (Walked-find_table m m' pgdir va q w),
          w,
        )
  ]
]
