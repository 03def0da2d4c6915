-- ===== src/Sched/Memory/Access.antt =====
-- Which ranges `user_mem_check` accepts (sched/kern/pmap.c).
use mathlib.Core.Path.{subst}
use tps_sis_ops.Base.{
  ℕ, zero, suc, ◌+◌, ◌-◌, ◌*◌, ◌/◌, ◌%◌, ◌^◌, ◌≤◌, ◌<◌, ◌≡◌, refl, sym, ap, ◌∙◌, inl, inr, Option,
  none, some, Bool, true, false, ltb, leb, ◌==◌, Bool-cases, arith,
}
use tps_sis_ops.Sched.Memory.{
  pgsize, pdx, ptx, utop, Memory, Walk, missing, bad_table, table, pgdir_walk, ensure_table,
  find_table, round_down, round_up, grants, allows, Check, ok, e_fault, check_step, check_pages,
  user_mem_check,
}

-- Whether the tables of `pgdir` grant the address; `none` if they name a page outside of memory.
unfoldable pub access : Memory → ℕ → ℕ → ℕ → Option Bool
access m pgdir perm va = allows m va perm (pgdir_walk m pgdir va false).0

access-find_table :
    (m : Memory) (pgdir perm va : ℕ)
    → access m pgdir perm va ≡ allows m va perm (find_table m pgdir va)
unfolding access pgdir_walk ensure_table
access-find_table m pgdir perm va = elim (Bool-cases (m.words pgdir (pdx va) == 0)) [
  | inl e ↦ rw e refl
  | inr e ↦ rw e refl
]

find_table-page :
    (m : Memory) (pgdir a b : ℕ) → pdx a ≡ pdx b → find_table m pgdir a ≡ find_table m pgdir b
unfolding find_table
find_table-page m pgdir a b e = rw e refl

allows-page :
    (m : Memory) (perm a b : ℕ) (w : Walk) → ptx a ≡ ptx b → allows m a perm w ≡ allows m b perm w
allows-page m perm a b missing e = refl
allows-page m perm a b bad_table e = refl
allows-page m perm a b (table t) e = ap (λ i. some (grants (m.words t i) perm)) e

-- The answer is that for the address's page.
access-page :
    (m : Memory) (pgdir perm a : ℕ) → access m pgdir perm (round_down a) ≡ access m pgdir perm a
access-page m pgdir perm a =
    let d : pdx (round_down a) ≡ pdx a = omega arith in
    let t : ptx (round_down a) ≡ ptx a = omega arith in
    access-find_table m pgdir perm (round_down a)
    ∙ allows-page m perm (round_down a) a (find_table m pgdir (round_down a)) t
    ∙ ap (allows m a perm) (find_table-page m pgdir (round_down a) a d)
    ∙ sym (access-find_table m pgdir perm a)

check_step-ok :
    (o : Option Bool) (va lo : ℕ) (rest : Check)
    → check_step o va lo rest ≡ ok
    → (o ≡ some true) × (rest ≡ ok)
check_step-ok none va lo rest h = cc
check_step-ok (some false) va lo rest h = cc
check_step-ok (some true) va lo rest h = (refl, h)

check_pages-granted :
    (m : Memory) (pgdir perm lo n va : ℕ)
    → check_pages m pgdir perm lo n va ≡ ok
    → (j : ℕ) → j < n
    → access m pgdir perm (va + j * pgsize) ≡ some true
unfolding check_pages access
check_pages-granted m pgdir perm lo zero va h j lt = absurd (omega arith)
check_pages-granted m pgdir perm lo (suc n) va h zero lt =
    let e : va + 0 * pgsize ≡ va = omega arith in
    rw e (check_step-ok _ va lo (check_pages m pgdir perm lo n (va + pgsize)) h).0
check_pages-granted m pgdir perm lo (suc n) va h (suc j) lt =
    let e : va + suc j * pgsize ≡ va + pgsize + j * pgsize = omega arith in
    rw e (
      check_pages-granted m pgdir perm lo n (va + pgsize)
        (check_step-ok _ va lo (check_pages m pgdir perm lo n (va + pgsize)) h).1 j (omega arith))

granted-check_pages :
    (m : Memory) (pgdir perm lo n va : ℕ)
    → ((j : ℕ) → j < n → access m pgdir perm (va + j * pgsize) ≡ some true)
    → check_pages m pgdir perm lo n va ≡ ok
unfolding check_pages access
granted-check_pages m pgdir perm lo zero va h = refl
granted-check_pages m pgdir perm lo (suc n) va h =
    let e : va + 0 * pgsize ≡ va = omega arith in
    let first = subst (λ a. access m pgdir perm a ≡ some true) e (h 0 (omega arith)) in
    let rest = granted-check_pages m pgdir perm lo n (va + pgsize) λ j lt.
      let s : va + suc j * pgsize ≡ va + pgsize + j * pgsize = omega arith in
      subst (λ a. access m pgdir perm a ≡ some true) s (h (suc j) (omega arith)) in
    ap (λ o. check_step o va lo (check_pages m pgdir perm lo n (va + pgsize))) first ∙ rest

module _ (m : Memory) (pgdir va len perm : ℕ) where
  abbrev rounds : ℕ
  rounds = (round_up ((va + len) % 2 ^ 32) - round_down va) / pgsize

  check_below :
      leb (round_up ((va + len) % 2 ^ 32)) utop ≡ true
      → user_mem_check m pgdir va len perm ≡ check_pages m pgdir perm va rounds (round_down va)
  unfolding user_mem_check
  check_below h =
      let e : ltb utop (round_up ((va + len) % 2 ^ 32)) ≡ false = ground arith in rw e refl

  check_above :
      leb (round_up ((va + len) % 2 ^ 32)) utop ≡ false
      → user_mem_check m pgdir va len perm ≡ e_fault va
  unfolding user_mem_check
  check_above h =
      let e : ltb utop (round_up ((va + len) % 2 ^ 32)) ≡ true = ground arith in rw e refl

  -- A range that ends at or below 0xfffff000 and passes lies below UTOP, and each of its addresses is
  -- granted.
  pub user_mem_check-granted :
      va + len + pgsize ≤ 2 ^ 32
      → user_mem_check m pgdir va len perm ≡ ok
      → (a : ℕ) → va ≤ a
      → a < va + len
      → (a < utop) × (access m pgdir perm a ≡ some true)
  user_mem_check-granted fits h a lo hi =
      elim (Bool-cases (leb (round_up ((va + len) % 2 ^ 32)) utop)) [
        | inr over ↦ let e = sym (check_above over) ∙ h in cc
        | inl under ↦
            let e = sym (check_below under) ∙ h in
            let le : round_up ((va + len) % 2 ^ 32) ≤ utop = ground arith in
            let whole : (va + len) % 2 ^ 32 ≡ va + len = omega arith in
            let j = (round_down a - round_down va) / pgsize in
            let at : round_down va + j * pgsize ≡ round_down a = omega arith in
            (
              omega (arith, le, whole),
              sym (access-page m pgdir perm a)
                  ∙ subst (λ x. access m pgdir perm x ≡ some true) at
                      (check_pages-granted m pgdir perm va rounds (round_down va) e j
                        (omega (arith, whole))),
            )
      ]

  -- Conversely a range below UTOP that is not empty passes if each of its addresses is granted.
  pub granted-user_mem_check :
      0 < len
      → va + len ≤ utop
      → ((a : ℕ) → va ≤ a → a < va + len → access m pgdir perm a ≡ some true)
      → user_mem_check m pgdir va len perm ≡ ok
  granted-user_mem_check pos fits h =
      let whole : (va + len) % 2 ^ 32 ≡ va + len = omega arith in
      let under : leb (round_up ((va + len) % 2 ^ 32)) utop ≡ true = rw whole (ground arith) in
      check_below under
      ∙ granted-check_pages m pgdir perm va rounds (round_down va) λ j lt.
        elim (Bool-cases (j == 0)) [
          | inl e ↦
              let zero_round : j ≡ 0 = ground arith in
              let first : round_down va + j * pgsize ≡ round_down va = omega (arith, zero_round) in
              rw first (access-page m pgdir perm va ∙ h va (omega arith) (omega arith))
          | inr e ↦
              let later : 0 < j = ground arith in
              h (round_down va + j * pgsize) (omega (arith, later)) (omega (arith, lt, whole))
        ]

  -- A range that wraps around the end of the address space passes, whatever the tables say, if its
  -- end, rounded up, is not above its first page.
  pub user_mem_check-wraps :
      round_up ((va + len) % 2 ^ 32) ≤ utop
      → round_up ((va + len) % 2 ^ 32) ≤ round_down va
      → user_mem_check m pgdir va len perm ≡ ok
  unfolding check_pages
  user_mem_check-wraps low below =
      let under : leb (round_up ((va + len) % 2 ^ 32)) utop ≡ true = ground arith in
      let none_left : rounds ≡ 0 = omega (arith, below) in
      check_below under ∙ ap (λ n. check_pages m pgdir perm va n (round_down va)) none_left
