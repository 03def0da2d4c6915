-- ===== src/Sched/Memory/Roundtrip.antt =====
-- What `page_insert` and `page_remove` do to an address space (sched/kern/pmap.c).
use mathlib.Core.Path.{subst}
use tps_sis_ops.Base.{
  ℕ, ◌+◌, ◌-◌, ◌*◌, ◌/◌, ◌%◌, ◌^◌, ◌<◌, ◌≡◌, ◌≢◌, refl, ap, ◌∙◌, ◌⊎◌, inl, inr, none, some, true,
  false, ◌&&◌, ltb, ◌==◌, if◌then◌else◌, Bool-cases, arith,
}
use Prim.Native.Nat.{bit_or}
use tps_sis_ops.Base.Bits.{shl, bit_or-shl, bit_or-one}
use tps_sis_ops.Sched.Memory.Walks.{
  IsSound, Walked, Walked-present, find_table-missing, Walked-find_table, find_table-at,
  pgdir_walk-create,
}
use tps_sis_ops.Sched.Memory.{
  is_some, push_free, pgsize, pdx, ptx, Memory, set_word, page_free, incref, lower_ref, page_decref,
  ensure_table, table, find_table, pgdir_walk, no_page, page_in, lookup_in, page_lookup,
  clear_entry, remove_mapping, page_remove, inserted, no_memory, new_pte, write_entry, insert_in,
  page_insert,
}

-- The words of a memory are those of another.
abbrev SameWords : Memory → Memory → Type 0
SameWords m m' = (p i : ℕ) → m'.words p i ≡ m.words p i

-- An entry for a page, made of flags below 4096, is not 0 and holds the page.
pub new_pte_lem :
    (p perm : ℕ)
    → perm < pgsize
    → (new_pte p perm ≡ p * pgsize + (perm / 2 * 2 + 1))
      × (new_pte p perm / pgsize ≡ p)
      × ((new_pte p perm == 0) ≡ false)
new_pte_lem p perm h =
    let same : shl 12 p ≡ p * pgsize = omega arith in
    let inner : bit_or (p * pgsize) perm ≡ p * pgsize + perm =
      subst (λ x. bit_or x perm ≡ x + perm) same (bit_or-shl 12 p perm (omega (arith, h))) in
    let whole : new_pte p perm ≡ p * pgsize + (perm / 2 * 2 + 1) =
      omega (arith, bit_or-one (bit_or (p * pgsize) perm), inner) in
    (whole, omega (arith, whole, h), ground (arith, whole))

-- The free list does not reach the page, whose references this call takes to 0.
page_decref-returns :
    (m : Memory) (p : ℕ)
    → (m.pages p).pp_link ≡ none
    → (m' : Memory) × (page_decref m p ≡ some m') × SameWords m m' × (m'.npages ≡ m.npages)
unfolding page_decref page_free
page_decref-returns m p unlinked =
    let here : (p == p) ≡ true = ground arith in
    let link : is_some
          (if p == p
            then record (m.pages p) { pp_ref = ((m.pages p).pp_ref + (2 ^ 16 - 1)) % 2 ^ 16 }
            else m.pages p).pp_link
        ≡ false =
      rw (here, unlinked) refl in
    elim (Bool-cases (((lower_ref m p).pages p).pp_ref == 0)) [
      | inl zero_ref ↦ (push_free (lower_ref m p) p, rw (zero_ref, link) refl, (λ q i. refl), refl)
      | inr left ↦ (lower_ref m p, rw left refl, (λ q i. refl), refl)
    ]

-- A lookup does not create tables.
page_lookup-at :
    (m : Memory) (pgdir va : ℕ) → page_lookup m pgdir va ≡ lookup_in m va (find_table m pgdir va)
unfolding page_lookup pgdir_walk ensure_table
page_lookup-at m pgdir va = elim (Bool-cases (m.words pgdir (pdx va) == 0)) [
  | inl e ↦ rw e refl
  | inr e ↦ rw e refl
]

-- Entries but that of `va` in table `t` are those of another memory.
abbrev pub SameBut : Memory → Memory → ℕ → ℕ → Type 0
SameBut m m' t va = (q i : ℕ) → ((q == t) && (i == ptx va)) ≡ false → m'.words q i ≡ m.words q i

set_word-SameBut :
    (m : Memory) (t i v q j : ℕ)
    → ((q == t) && (j == i)) ≡ false
    → (set_word m t i v).words q j ≡ m.words q j
set_word-SameBut m t i v q j h = elim (Bool-cases (q == t)) [
  | inr e ↦ rw e refl
  | inl e ↦
      let p : t ≡ q = ground arith in
      let other : (j == i) ≡ false = ground arith in rw (e, other) (ap (λ x. m.words x j) p)
]

-- `page_remove` on a memory in which the walk ends in table `t` clears the entry, and returns.
module _ (m m' : Memory) (pgdir va t : ℕ) (w : Walked m m' pgdir va t) where
  remove_at :
      (r : Memory) × (page_remove m' pgdir va ≡ some r)
      × SameBut m' r t va
      × (r.npages ≡ m'.npages)
      × (r.words t (ptx va) ≡ 0)
  unfolding page_remove
  remove_at =
      let at =
        page_lookup-at m' pgdir va ∙ ap (lookup_in m' va) (Walked-find_table m m' pgdir va t w) in
      let none_there : (m'.words t (ptx va) == 0) ≡ true → lookup_in m' va (table t) ≡ no_page =
        λ e. rw e refl in
      elim (Bool-cases (m'.words t (ptx va) == 0)) [
        | inl e ↦
            (m', ap (remove_mapping m' va) (at ∙ none_there e), (λ q i _. refl), refl, ground arith)
        | inr e ↦
            let (lt, link) = w.mapped e in
            let inside : ltb (m'.words t (ptx va) / pgsize) m'.npages ≡ true = ground arith in
            let (d, returned, same, size) =
              page_decref-returns m' (m'.words t (ptx va) / pgsize) link in
            let page_there : (m'.words t (ptx va) == 0) ≡ false
                → ltb (m'.words t (ptx va) / pgsize) m'.npages ≡ true
                → lookup_in m' va (table t) ≡ page_in (m'.words t (ptx va) / pgsize) t =
              λ e inside. rw (e, inside) refl in
            let here : (t == t) ≡ true = ground arith in
            let entry : (ptx va == ptx va) ≡ true = ground arith in
            (
              set_word d t (ptx va) 0,
              ap (remove_mapping m' va) (at ∙ page_there e inside) ∙ ap (clear_entry t va) returned,
              (λ q i h. set_word-SameBut d t (ptx va) 0 q i h ∙ same q i),
              size,
              rw (here, entry) refl,
            )
      ]

-- Counting a reference changes no link.
incref-link : (m : Memory) (p q : ℕ) → ((incref m p).pages q).pp_link ≡ (m.pages q).pp_link
incref-link m p q = elim (Bool-cases (q == p)) [
  | inr e ↦ rw e refl
  | inl e ↦ let same : p ≡ q = ground arith in rw e (ap (λ x. (m.pages x).pp_link) same)
]

Walked-incref :
    (m m' : Memory) (pgdir va t p : ℕ) → Walked m m' pgdir va t → Walked m (incref m' p) pgdir va t
Walked-incref m m' pgdir va t p w = record {
  size = w.size;
  present = w.present;
  holds = w.holds;
  inside = w.inside;
  apart = w.apart;
  mapped = λ e.
      let (lt, link) = w.mapped e in (lt, incref-link m' p (m'.words t (ptx va) / pgsize) ∙ link);
  others = w.others;
  siblings = w.siblings;
  entries = w.entries;
}

lookup_in-at :
    (m : Memory) (va t v p : ℕ)
    → m.words t (ptx va) ≡ v
    → (v == 0) ≡ false
    → v / pgsize ≡ p
    → p < m.npages
    → lookup_in m va (table t) ≡ page_in p t
lookup_in-at m va t v p e nonzero holds lt =
    let present : (m.words t (ptx va) == 0) ≡ false = ground arith in
    let inside : ltb (m.words t (ptx va) / pgsize) m.npages ≡ true = ground arith in
    let page : m.words t (ptx va) / pgsize ≡ p = ground arith in
    rw (present, inside) (ap (λ x. page_in x t) page)

-- What a successful `page_insert` of page `p` at `va` leaves.
pub record IsMapped (m m' : Memory) (pgdir p va perm t : ℕ) : Type 0 where
  pub looked_up : page_lookup m' pgdir va ≡ page_in p t
  pub entry : m'.words t (ptx va) ≡ new_pte p perm
  pub apart : t ≢ pgdir
  pub others : (q i : ℕ) → q ≢ pgdir → q ≢ t → m'.words q i ≡ m.words q i
  pub siblings : (i : ℕ) → i ≢ pdx va → m'.words pgdir i ≡ m.words pgdir i
  pub entries :
      (i : ℕ)
      → i ≢ ptx va
      → (m'.words t i ≡ m.words t i) ⊎ (((m.words pgdir (pdx va) == 0) ≡ true) × (m'.words t i ≡ 0))

module _ (m m1 : Memory) (pgdir p va perm t : ℕ) (w : Walked m m1 pgdir va t)
    (flags : perm < pgsize) (in_memory : p < m.npages) where
  abbrev after : Memory → Memory
  after r = set_word r t (ptx va) (new_pte p perm)

  -- All entries but the new one are those that the walk left.
  after-SameBut : (r : Memory) → SameBut m1 r t va → SameBut m1 (after r) t va
  after-SameBut r same q i h = set_word-SameBut r t (ptx va) (new_pte p perm) q i h ∙ same q i h

  after-IsMapped :
      (r : Memory)
      → SameBut m1 r t va
      → r.npages ≡ m1.npages
      → IsMapped m (after r) pgdir p va perm t
  after-IsMapped r same size =
      let kept = after-SameBut r same in
      let here : (t == t) ≡ true = ground arith in
      let index : (ptx va == ptx va) ≡ true = ground arith in
      let away : (pgdir == t) ≡ false = let a = w.apart in ground arith in
      let (whole, holds, present) = new_pte_lem p perm flags in
      let pde = kept pgdir (pdx va) (rw away refl) in
      let found =
        find_table-at (after r) pgdir va t (rw pde w.present) (rw pde w.holds) (rw size w.inside) in
      let looked : page_lookup (after r) pgdir va ≡ page_in p t =
        page_lookup-at (after r) pgdir va
        ∙ ap (lookup_in (after r) va) found
        ∙ lookup_in-at (after r) va t (new_pte p perm) p (rw (here, index) refl) present holds
            (rw (size, w.size) in_memory) in
      record {
        looked_up = looked;
        entry = rw (here, index) refl;
        apart = w.apart;
        others = λ q i a b.
            let b' : (q == t) ≡ false = ground arith in kept q i (rw b' refl) ∙ w.others q i a b;
        siblings = λ i a. kept pgdir i (rw away refl) ∙ w.siblings i a;
        entries = λ i a.
            let a' : (i == ptx va) ≡ false = ground arith in
            let e = kept t i (rw (here, a') refl) in
            elim (w.entries i) [
              | inl old ↦ inl (e ∙ old)
              | inr (empty, fresh) ↦ inr (empty, e ∙ fresh)
            ];
      }

-- In a sound memory a page below the memory's size, with flags below 4096, is either inserted: then
-- a lookup of `va` finds it, its entry is the page's address with the flags and the present flag, no
-- other entry of the directory or of the table has changed (a new table is empty otherwise), and no
-- page beside these two has. Or there is neither a table nor a free page for one: then the call
-- returns -E_NO_MEM and changes nothing. It never panics.
pub page_insert_lem :
    (m : Memory) (pgdir p va perm : ℕ)
    → IsSound m pgdir va
    → p < m.npages
    → perm < pgsize
    → ((m' : Memory) × (t : ℕ) × (page_insert m pgdir p va perm ≡ inserted m')
        × IsMapped m m' pgdir p va perm t)
      ⊎ ((m.page_free_list ≡ none)
          × ((m.words pgdir (pdx va) == 0) ≡ true)
          × (page_insert m pgdir p va perm ≡ no_memory m))
unfolding page_insert
page_insert_lem m pgdir p va perm sound lt flags = elim (pgdir_walk-create m pgdir va sound) [
  | inl (head, empty, e) ↦ inr (head, empty, ap (insert_in pgdir p va perm) e)
  | inr (t, m1, e, w) ↦
      let w' = Walked-incref m m1 pgdir va t p w in
      let (r, removed, same, size, cleared) = remove_at m (incref m1 p) pgdir va t w' in
      inl (
        set_word r t (ptx va) (new_pte p perm),
        t,
        ap (insert_in pgdir p va perm) e ∙ ap (write_entry t va (new_pte p perm)) removed,
        after-IsMapped m m1 pgdir p va perm t w flags lt r same size,
      )
]

-- In a sound memory `page_remove` returns; after it a lookup of `va` finds no page, and no word has
-- changed but the entry of `va`.
pub page_remove_lem :
    (m : Memory) (pgdir va : ℕ)
    → IsSound m pgdir va
    → (m' : Memory) × (t : ℕ) × (page_remove m pgdir va ≡ some m')
      × (page_lookup m' pgdir va ≡ no_page)
      × SameBut m m' t va
unfolding page_remove
page_remove_lem m pgdir va sound = elim (Bool-cases (m.words pgdir (pdx va) == 0)) [
  | inl empty ↦
      let none_there : page_lookup m pgdir va ≡ no_page =
        page_lookup-at m pgdir va ∙ ap (lookup_in m va) (find_table-missing m pgdir va empty) in
      (m, 0, ap (remove_mapping m va) none_there, none_there, λ q i _. refl)
  | inr present ↦
      let t = m.words pgdir (pdx va) / pgsize in
      let w = Walked-present m pgdir va sound present in
      let (r, removed, same, size, cleared) = remove_at m m pgdir va t w in
      let away : (pgdir == t) ≡ false = let a = w.apart in ground arith in
      let pde = same pgdir (pdx va) (rw away refl) in
      let found = find_table-at r pgdir va t (rw pde present) (rw pde refl) (rw size w.inside) in
      let none_left : lookup_in r va (table t) ≡ no_page =
        let e : (r.words t (ptx va) == 0) ≡ true = ground arith in rw e refl in
      (r, t, removed, page_lookup-at r pgdir va ∙ ap (lookup_in r va) found ∙ none_left, same)
]
