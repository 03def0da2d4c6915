-- ===== src/Sched/Boot/FreePages.antt =====
-- The list of free pages that `page_init` makes, and what `page_alloc` and `page_free` make of it
-- (sched/kern/pmap.c).
use mathlib.Core.Path.{subst}
use tps_sis_ops.Base.{
  ℕ, zero, suc, ◌+◌, ◌/◌, ◌≡◌, refl, sym, ap, ◌∙◌, inl, inr, Option, none, some, Bool, true, false,
  ◌&&◌, not, List, [], ◌∷◌, ltb, ◌==◌, if◌then◌else◌, Bool-cases, arith,
}
use tps_sis_ops.Base.Chain.{occurs, Chain, Chain-ext}
use tps_sis_ops.Sched.Memory.{
  PageInfo, Memory, pgsize, set_page, zero_page, alloc_page, page_alloc, is_some, push_free,
  page_free,
}
use tps_sis_ops.Sched.Boot.{is_reserved, init_page, init_pages, page_init}

abbrev page_links : Memory → ℕ → Option ℕ
page_links m p = (m.pages p).pp_link

-- The free list visits the pages of a list in its order, and none of them is referenced.
pub record FreePages (m : Memory) (xs : List ℕ) : Type 0 where
  pub linked : Chain (page_links m) m.page_free_list xs
  pub unused : (p : ℕ) → occurs p xs ≡ true → (m.pages p).pp_ref ≡ 0

other_page :
    (m : Memory) (q p : ℕ) (info : PageInfo)
    → (p == q) ≡ false
    → (set_page m q info).pages p ≡ m.pages p
other_page m q p info e = rw e refl

not_listed : (p q : ℕ) (xs : List ℕ) → occurs q xs ≡ false → occurs p xs ≡ true → (p == q) ≡ false
not_listed p q xs out h = elim (Bool-cases (p == q)) [
  | inr e ↦ e
  | inl e ↦
      let same : p ≡ q = ground arith in
      let f = sym (subst (λ p. occurs p xs ≡ true) same h) ∙ out in cc
]

-- A change of a page that is not on the list.
unlisted-FreePages :
    (m : Memory) (q : ℕ) (info : PageInfo) (xs : List ℕ)
    → occurs q xs ≡ false
    → FreePages m xs
    → FreePages (set_page m q info) xs
unlisted-FreePages m q info xs out f = record {
  linked =
      Chain-ext (page_links m) (page_links (set_page m q info)) m.page_free_list xs
        (λ p h. ap (λ i. i.pp_link) (other_page m q p info (not_listed p q xs out h))) f.linked;
  unused =
      λ p h. ap (λ i. i.pp_ref) (other_page m q p info (not_listed p q xs out h)) ∙ f.unused p h;
}

-- A page that goes on top.
pushed-FreePages :
    (m : Memory) (q : ℕ) (info : PageInfo) (xs : List ℕ)
    → info.pp_link ≡ m.page_free_list
    → info.pp_ref ≡ 0
    → occurs q xs ≡ false
    → FreePages m xs
    → FreePages (record (set_page m q info) { page_free_list = some q }) (q ∷ xs)
pushed-FreePages m q info xs link ref out f =
    let g = unlisted-FreePages m q info xs out f in
    let here : (q == q) ≡ true = ground arith in
    let head : (set_page m q info).pages q ≡ info = rw here refl in
    record {
      linked = (
        refl,
        out,
        subst (λ h. Chain (page_links (set_page m q info)) h xs)
            (sym link ∙ ap (λ i. i.pp_link) (sym head)) g.linked,
      );
      unused = λ p h. elim (Bool-cases (p == q)) [
        | inl e ↦ rw e ref
        | inr e ↦ g.unused p (ground arith)
      ];
    }

-- The list that `page_init` makes: the pages below `n` that are not reserved, the last one first.
abbrev pub free_below : ℕ → ℕ → List ℕ
free_below kernel_end zero = []
free_below kernel_end (suc n) =
    let rest = free_below kernel_end n in if is_reserved kernel_end n then rest else n ∷ rest

occurs-free_below : (e p n : ℕ) → occurs p (free_below e n) ≡ (ltb p n && not (is_reserved e p))
occurs-free_below e p zero = ground arith
occurs-free_below e p (suc n) = elim (Bool-cases (p == n)) [
  | inl same ↦
      let q : n ≡ p = ground arith in
      elim (Bool-cases (is_reserved e n)) [
        | inl r ↦
            let r' : is_reserved e p ≡ true = subst (λ n. is_reserved e n ≡ true) q r in
            rw r (occurs-free_below e p n ∙ rw r' (ground arith))
        | inr r ↦
            let r' : is_reserved e p ≡ false = subst (λ n. is_reserved e n ≡ false) q r in
            rw (r, r') (ground arith)
      ]
  | inr differs ↦ elim (Bool-cases (is_reserved e n)) [
    | inl r ↦ rw r (occurs-free_below e p n ∙ ap (λ b. b && not (is_reserved e p)) (ground arith))
    | inr r ↦
        rw (r, differs)
          (occurs-free_below e p n ∙ ap (λ b. b && not (is_reserved e p)) (ground arith))
  ]
]

init_page-FreePages :
    (e : ℕ) (m : Memory) (i : ℕ)
    → FreePages m (free_below e i)
    → FreePages (init_page e m i) (free_below e (suc i))
unfolding init_page
init_page-FreePages e m i f =
    let out : occurs i (free_below e i) ≡ false = occurs-free_below e i i ∙ ground arith in
    elim (Bool-cases (is_reserved e i)) [
      | inl r ↦ rw r (unlisted-FreePages m i _ (free_below e i) out f)
      | inr r ↦ rw r (pushed-FreePages m i _ (free_below e i) refl refl out f)
    ]

init_pages-FreePages :
    (e n i : ℕ) (m : Memory)
    → FreePages m (free_below e i)
    → FreePages (init_pages e m n i) (free_below e (i + n))
unfolding init_pages
init_pages-FreePages e zero i m f =
    let s : i ≡ i + 0 = omega arith in subst (λ j. FreePages m (free_below e j)) s f
init_pages-FreePages e (suc n) i m f =
    let s : suc i + n ≡ i + suc n = omega arith in
    let t : suc i ≡ i + 1 = omega arith in
    subst (λ j. FreePages (init_pages e (init_page e m i) n (i + 1)) (free_below e j)) s
      (subst (λ j. FreePages (init_pages e (init_page e m i) n j) (free_below e (suc i + n))) t
        (init_pages-FreePages e n (suc i) (init_page e m i) (init_page-FreePages e m i f)))

page_init-FreePages :
    (m : Memory) (nextfree : ℕ)
    → m.page_free_list ≡ none
    → FreePages (page_init m nextfree) (free_below (nextfree / pgsize) m.npages)
unfolding page_init
page_init-FreePages m nextfree empty =
    let s : 0 + m.npages ≡ m.npages = omega arith in
    subst
      (λ n.
        FreePages (init_pages (nextfree / pgsize) m m.npages 0) (free_below (nextfree / pgsize) n))
      s
      (init_pages-FreePages (nextfree / pgsize) m.npages 0 m
        record { linked = empty; unused = λ p h. cc })

zero_page-FreePages :
    (fill : Bool) (m : Memory) (p : ℕ) (xs : List ℕ)
    → FreePages m xs
    → FreePages (zero_page fill m p) xs
zero_page-FreePages false m p xs f = f
zero_page-FreePages true m p xs f = record { linked = f.linked; unused = f.unused }

-- An allocation takes the first page of the list.
page_alloc-FreePages :
    (fill : Bool) (m : Memory) (p : ℕ) (xs : List ℕ)
    → FreePages m (p ∷ xs)
    → ((page_alloc fill m).0 ≡ some p) × FreePages (page_alloc fill m).1 xs
unfolding page_alloc
page_alloc-FreePages fill m p xs f =
    let (head, out, chain) = f.linked in
    let rest : FreePages (record m { page_free_list = (m.pages p).pp_link }) xs = record {
      linked = chain;
      unused = λ q h. f.unused q (ground arith);
    } in
    let taken = unlisted-FreePages _ p (record (m.pages p) { pp_link = none }) xs out rest in
    subst (λ o. ((alloc_page fill m o).0 ≡ some p) × FreePages (alloc_page fill m o).1 xs)
      (sym head) (refl, zero_page-FreePages fill _ p xs taken)

-- A page that is not on the list goes on top of it, unless `page_free` panics.
page_free-FreePages :
    (m m' : Memory) (p : ℕ) (xs : List ℕ)
    → FreePages m xs
    → occurs p xs ≡ false
    → page_free m p ≡ some m'
    → FreePages m' (p ∷ xs)
unfolding page_free
page_free-FreePages m m' p xs f out h = elim (Bool-cases ((m.pages p).pp_ref == 0)) [
  | inr held ↦ let e : none ≡ some m' = sym (rw held refl) ∙ h in cc
  | inl idle ↦ elim (Bool-cases (is_some (m.pages p).pp_link)) [
    | inl linked ↦ let e : none ≡ some m' = sym (rw (idle, linked) refl) ∙ h in cc
    | inr unlinked ↦
        let e : some (push_free m p) ≡ some m' = sym (rw (idle, unlinked) refl) ∙ h in
        let q : push_free m p ≡ m' = cc in
        subst (λ m. FreePages m (p ∷ xs)) q (pushed-FreePages m p _ xs refl (ground arith) out f)
  ]
]

-- The memories, each with its list of free pages as a stack, that these steps make: the start;
-- allocations; releases of pages that are not on the stack; and changes of the contents of pages and
-- of the counts of pages that are not on the stack.
pub data PageHistory : Memory → List ℕ → Type 0 where
  booted :
      (m : Memory) (nextfree : ℕ)
      → m.page_free_list ≡ none
      → PageHistory (page_init m nextfree) (free_below (nextfree / pgsize) m.npages)
  taken :
      (fill : Bool) (m : Memory) (p : ℕ) (xs : List ℕ)
      → PageHistory m (p ∷ xs)
      → PageHistory (page_alloc fill m).1 xs
  given_back :
      (m m' : Memory) (p : ℕ) (xs : List ℕ)
      → PageHistory m xs
      → occurs p xs ≡ false
      → page_free m p ≡ some m'
      → PageHistory m' (p ∷ xs)
  written :
      (m : Memory) (words : ℕ → ℕ → ℕ) (xs : List ℕ)
      → PageHistory m xs
      → PageHistory (record m { words = words }) xs
  counted :
      (m : Memory) (p n : ℕ) (xs : List ℕ)
      → PageHistory m xs
      → occurs p xs ≡ false
      → PageHistory (set_page m p (record (m.pages p) { pp_ref = n })) xs

PageHistory-FreePages : (m : Memory) (xs : List ℕ) → PageHistory m xs → FreePages m xs
PageHistory-FreePages _ _ (booted m nextfree empty) = page_init-FreePages m nextfree empty
PageHistory-FreePages _ _ (taken fill m p xs h) =
    (page_alloc-FreePages fill m p xs (PageHistory-FreePages m (p ∷ xs) h)).1
PageHistory-FreePages _ _ (given_back m m' p xs h out e) =
    page_free-FreePages m m' p xs (PageHistory-FreePages m xs h) out e
PageHistory-FreePages _ _ (written m words xs h) =
    let f = PageHistory-FreePages m xs h in record { linked = f.linked; unused = f.unused }
PageHistory-FreePages _ _ (counted m p n xs h out) =
    unlisted-FreePages m p _ xs out (PageHistory-FreePages m xs h)

page_alloc-empty :
    (fill : Bool) (m : Memory) → m.page_free_list ≡ none → page_alloc fill m ≡ (none, m)
unfolding page_alloc
page_alloc-empty fill m e = ap (alloc_page fill m) e

-- What the page allocator gives out in such a memory: the top of the stack, which is unreferenced, or
-- nothing if the stack is empty.
abbrev pub Gives : Bool → Memory → List ℕ → Type 0
Gives fill m [] = page_alloc fill m ≡ (none, m)
Gives fill m (p ∷ xs) =
    ((page_alloc fill m).0 ≡ some p) × ((m.pages p).pp_ref ≡ 0) × FreePages (page_alloc fill m).1 xs

-- From `page_init` on, through allocations and releases of pages that are not on the list, the page
-- allocator is a stack: it gives the page on top, which is unreferenced, leaves the others, and
-- refuses exactly when the stack is empty.
pub PageHistory-Gives :
    (fill : Bool) (m : Memory) (xs : List ℕ) → PageHistory m xs → Gives fill m xs
PageHistory-Gives fill m [] h = page_alloc-empty fill m (PageHistory-FreePages m [] h).linked
PageHistory-Gives fill m (p ∷ xs) h =
    let f = PageHistory-FreePages m (p ∷ xs) h in
    let (head, after) = page_alloc-FreePages fill m p xs f in
    (head, f.unused p (ground arith), after)
