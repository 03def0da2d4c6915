-- ===== src/Sched/Envs/FreeList.antt =====
-- The free list of sched/kern/env.c.
use mathlib.Core.Path.{subst}
use tps_sis_ops.Base.{
  ℕ, zero, suc, ◌+◌, ◌<◌, ◌≡◌, refl, sym, ap, ◌∙◌, ◌⊎◌, inl, inr, ◌≢◌, Option, none, some, true,
  false, ◌&&◌, List, [], ◌∷◌, ltb, leb, ◌==◌, if◌then◌else◌, Bool-cases, update, arith,
}
use tps_sis_ops.Base.Chain.{occurs, Chain, Chain-ext}
use tps_sis_ops.Sched.Memory.{Memory}
use tps_sis_ops.Sched.Env.{nenv, Env, Kernel, free, has_status, set_env}
use tps_sis_ops.Sched.Envs.{
  e_no_mem, e_no_free_env, Lookup, stored, refused, init_env, env_init, new_env, alloc_in, alloc_at,
  env_setup_vm, release, release_with, free_address_space, env_alloc, env_free,
}

abbrev links : (ℕ → Env) → ℕ → Option ℕ
links envs i = (envs i).env_link

-- The free list holds the given slots in this order, and these are the free environments.
pub record FreeList (k : Kernel) (xs : List ℕ) : Type 0 where
  pub linked : Chain (links k.envs) k.env_free_list xs
  pub inside : (i : ℕ) → occurs i xs ≡ true → i < nenv
  pub listed : (i : ℕ) → i < nenv → occurs i xs ≡ has_status free (k.envs i)

update_self : (envs : ℕ → Env) (i : ℕ) (e : Env) → update envs i e i ≡ e
update_self envs i e = let same : (i == i) ≡ true = ground arith in rw same refl

update_other : (envs : ℕ → Env) (i j : ℕ) (e : Env) → (j == i) ≡ false → update envs i e j ≡ envs j
update_other envs i j e other = rw other refl

-- A change of other slots leaves a chain as it is.
Chain-update :
    (envs : ℕ → Env) (head : Option ℕ) (xs : List ℕ) (i : ℕ) (e : Env)
    → occurs i xs ≡ false
    → Chain (links envs) head xs
    → Chain (links (update envs i e)) head xs
Chain-update envs head xs i e out = Chain-ext (links envs) (links (update envs i e)) head xs λ j h.
    elim (Bool-cases (j == i)) [
      | inl same ↦ let p : j ≡ i = ground arith in absurd (listed_twice j i xs p h out)
      | inr other ↦ ap (λ e. e.env_link) (update_other envs i j e other)
    ]
  where
    listed_twice : (j i : ℕ) (xs : List ℕ) → j ≡ i → occurs j xs ≡ true → occurs i xs ≡ false → ⊥
    listed_twice j i xs p h out = let q = subst (λ j. occurs j xs ≡ true) p h in ground arith

release-FreeList :
    (k : Kernel) (xs : List ℕ) (i : ℕ)
    → FreeList k xs
    → i < nenv
    → has_status free (k.envs i) ≡ false
    → FreeList (release k i) (i ∷ xs)
unfolding release
release-FreeList k xs i f lt used =
    let out : occurs i xs ≡ false = f.listed i lt ∙ used in
    record {
      linked = (
        refl,
        out,
        subst (λ h. Chain (links (release k i).envs) h xs)
            (sym (ap (λ e. e.env_link) (update_self k.envs i _)))
            (Chain-update k.envs k.env_free_list xs i _ out f.linked),
      );
      inside = λ j h. elim (Bool-cases (j == i)) [
        | inl e ↦ ground arith
        | inr e ↦ f.inside j (ground arith)
      ];
      listed =
          λ j h. elim (Bool-cases (j == i)) [ inl e ↦ rw e refl | inr e ↦ rw e (f.listed j h) ];
    }

FreeList-memory :
    (k : Kernel) (xs : List ℕ) (m : Memory) → FreeList k xs → FreeList (record k { memory = m }) xs
FreeList-memory k xs m f = record { linked = f.linked; inside = f.inside; listed = f.listed }

release_with-FreeList :
    (k k' : Kernel) (xs : List ℕ) (i : ℕ) (o : Option Memory)
    → FreeList k xs
    → i < nenv
    → has_status free (k.envs i) ≡ false
    → release_with k i o ≡ some k'
    → FreeList k' (i ∷ xs)
release_with-FreeList k k' xs i none f lt used h = cc
release_with-FreeList k k' xs i (some m) f lt used h =
    let e : release (record k { memory = m }) i ≡ k' = cc in
    subst (λ k. FreeList k (i ∷ xs)) e
      (release-FreeList (record k { memory = m }) xs i (FreeList-memory k xs m f) lt used)

-- An `env_free` that does not panic puts the slot on top of the list.
pub env_free-FreeList :
    (k k' : Kernel) (xs : List ℕ) (i : ℕ)
    → FreeList k xs
    → i < nenv
    → has_status free (k.envs i) ≡ false
    → env_free k i ≡ some k'
    → FreeList k' (i ∷ xs)
unfolding env_free
env_free-FreeList k k' xs i =
    release_with-FreeList k k' xs i (free_address_space k.memory (k.envs i).env_pgdir)

-- The state that a successful `env_alloc` leaves when it takes slot `i`, with the page of the
-- new directory and the memory behind `env_setup_vm`.
abbrev pub allocated : Kernel → ℕ → ℕ → ℕ → Memory → Kernel
allocated k parent_id i pgdir m = record (set_env k i (new_env pgdir parent_id i (k.envs i))) {
  env_free_list = (k.envs i).env_link;
  memory = m;
}

-- A new environment takes the first slot of the list, and leaves the others.
allocated-FreeList :
    (k : Kernel) (parent_id i pgdir : ℕ) (m : Memory) (xs : List ℕ)
    → FreeList k (i ∷ xs)
    → FreeList (allocated k parent_id i pgdir m) xs
unfolding new_env
allocated-FreeList k parent_id i pgdir m xs f =
    let (at, out, chain) = f.linked in
    record {
      linked = Chain-update k.envs (k.envs i).env_link xs i _ out chain;
      inside = λ j h. f.inside j (ground arith);
      listed = λ j h. elim (Bool-cases (j == i)) [
        | inl e ↦ let p : i ≡ j = ground arith in rw e (subst (λ j. occurs j xs ≡ false) p out)
        | inr e ↦ rw e (rest j i xs e ∙ f.listed j h)
      ];
    }
  where
    rest : (j i : ℕ) (xs : List ℕ) → (j == i) ≡ false → occurs j xs ≡ occurs j (i ∷ xs)
    rest j i xs e = rw e refl

-- The list that `env_init` makes: the slots from `i` on.
abbrev pub slots_from : ℕ → ℕ → List ℕ
slots_from zero i = []
slots_from (suc n) i = i ∷ slots_from n (i + 1)

occurs-slots_from : (j n i : ℕ) → occurs j (slots_from n i) ≡ (leb i j && ltb j (i + n))
occurs-slots_from j zero i = ground arith
occurs-slots_from j (suc n) i = rw (occurs-slots_from j n (i + 1)) (ground arith)

init-Chain :
    (envs : ℕ → Env) (n i : ℕ)
    → i + n ≡ nenv
    → Chain (links λ i. init_env i (envs i)) (if i == nenv then none else some i) (slots_from n i)
unfolding init_env
init-Chain envs zero i h = let e : (i == nenv) ≡ true = ground arith in rw e refl
init-Chain envs (suc n) i h =
    let e : (i == nenv) ≡ false = ground arith in
    let out : occurs i (slots_from n (i + 1)) ≡ false =
      occurs-slots_from i n (i + 1) ∙ ground arith in
    (rw e refl, out, init-Chain envs n (i + 1) (omega (arith, h)))

-- At first all slots are free, and are given out in their order.
pub env_init-FreeList : (k : Kernel) → FreeList (env_init k) (slots_from nenv 0)
unfolding env_init init_env
env_init-FreeList k = record {
  linked = init-Chain k.envs nenv 0 refl;
  inside = λ j h. let e = sym (occurs-slots_from j nenv 0) ∙ h in ground arith;
  listed = λ j h. occurs-slots_from j nenv 0 ∙ ground arith;
}

-- How an allocation may end with the free list `xs`: refused for the empty list, refused for want of
-- a page, or with the first slot of the list.
abbrev pub AllocEnds : Kernel → ℕ → List ℕ → Lookup × Kernel → Type 0
AllocEnds k parent_id xs result =
    ((xs ≡ []) × (result ≡ (refused e_no_free_env, k)))
    ⊎ (((m : Memory) × (xs ≢ [])
          × (env_setup_vm k.memory ≡ (none, m))
          × (result ≡ (refused e_no_mem, record k { memory = m })))
        ⊎ ((i : ℕ) × (ys : List ℕ) × (pgdir : ℕ) × (m : Memory) × (xs ≡ i ∷ ys)
            × (i < nenv)
            × (env_setup_vm k.memory ≡ (some pgdir, m))
            × (has_status free (k.envs i) ≡ true)
            × (result ≡ (stored (some i), allocated k parent_id i pgdir m))
            × FreeList (allocated k parent_id i pgdir m) ys))

alloc_in-AllocEnds :
    (k : Kernel) (parent_id i : ℕ) (xs : List ℕ)
    → FreeList k (i ∷ xs)
    → (o : Option ℕ × Memory) → env_setup_vm k.memory ≡ o
    → AllocEnds k parent_id (i ∷ xs) (alloc_in k parent_id i o)
alloc_in-AllocEnds k parent_id i xs f (none, m) e = inr (inl (m, (λ h. cc), e, refl))
alloc_in-AllocEnds k parent_id i xs f (some pgdir, m) e =
    let here : occurs i (i ∷ xs) ≡ true = ground arith in
    let lt = f.inside i here in
    inr (
      inr (
        i,
        xs,
        pgdir,
        m,
        refl,
        lt,
        e,
        sym (f.listed i lt) ∙ here,
        refl,
        allocated-FreeList k parent_id i pgdir m xs f,
      ))

-- With the free list `xs`, an allocation is refused if the list is empty, and then changes nothing,
-- or if there is no page for a directory, and then changes no environment and not the list;
-- otherwise it takes the first slot of the list, which was free, and the rest is the new free list.
pub env_alloc_lem :
    (k : Kernel) (parent_id : ℕ) (xs : List ℕ)
    → FreeList k xs
    → AllocEnds k parent_id xs (env_alloc k parent_id)
unfolding env_alloc
env_alloc_lem k parent_id [] f = inl (refl, ap (alloc_at k parent_id) f.linked)
env_alloc_lem k parent_id (i ∷ xs) f =
    subst (AllocEnds k parent_id (i ∷ xs)) (sym (ap (alloc_at k parent_id) f.linked.0))
      (alloc_in-AllocEnds k parent_id i xs f (env_setup_vm k.memory) refl)

-- The states that allocations, and releases of environments in use that do not panic, make of that
-- of `env_init`.
pub data History : Kernel → Type 0 where
  booted : (k : Kernel) → History (env_init k)
  alloc_step :
      (k k' : Kernel) (parent_id : ℕ) (l : Lookup)
      → History k
      → env_alloc k parent_id ≡ (l, k')
      → History k'
  free_step :
      (k k' : Kernel) (i : ℕ)
      → History k
      → i < nenv
      → has_status free (k.envs i) ≡ false
      → env_free k i ≡ some k'
      → History k'

alloc_step-FreeList :
    (k k' : Kernel) (parent_id : ℕ) (l : Lookup) (xs : List ℕ)
    → FreeList k xs
    → env_alloc k parent_id ≡ (l, k')
    → (ys : List ℕ) × FreeList k' ys
alloc_step-FreeList k k' parent_id l xs f e = elim (env_alloc_lem k parent_id xs f) [
  | inl (_, q) ↦ (xs, subst (λ k. FreeList k xs) (ap (λ r. r.1) (sym q ∙ e)) f)
  | inr (inl (m, _, _, q)) ↦
      (xs, subst (λ k. FreeList k xs) (ap (λ r. r.1) (sym q ∙ e)) (FreeList-memory k xs m f))
  | inr (inr (i, ys, _, _, _, _, _, _, q, g)) ↦
      (ys, subst (λ k. FreeList k ys) (ap (λ r. r.1) (sym q ∙ e)) g)
]

-- After any allocations and releases from `env_init` on, the free list visits exactly the free
-- environments of the table, each once.
pub History-FreeList : (k : Kernel) → History k → (xs : List ℕ) × FreeList k xs
History-FreeList _ (booted k) = (slots_from nenv 0, env_init-FreeList k)
History-FreeList _ (alloc_step k k' parent_id l h e) =
    let (xs, f) = History-FreeList k h in alloc_step-FreeList k k' parent_id l xs f e
History-FreeList _ (free_step k k' i h lt used e) =
    let (xs, f) = History-FreeList k h in (i ∷ xs, env_free-FreeList k k' xs i f lt used e)
