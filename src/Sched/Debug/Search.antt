-- ===== src/Sched/Debug/Search.antt =====
-- The binary search in the debugging table ends, within its region (sched/kern/kdebug.c).
use mathlib.Core.Path.{subst}
use tps_sis_ops.Base.{
  ℕ, zero, suc, ◌+◌, ◌-◌, ◌*◌, ◌%◌, ◌^◌, ◌≤◌, ◌<◌, ◌≡◌, ◌≢◌, refl, sym, inl, inr, Option, none,
  some, true, false, ltb, leb, ◌==◌, if◌then◌else◌, Bool-cases, arith,
}
use tps_sis_ops.Base.Int.{ℤ, pos, pred_int}
use tps_sis_ops.Sched.Debug.{
  Stab, earliest, Region, Bounds, search_round, middle, search, rightmost, bracket, bracket_found,
  stab_binsearch,
}

-- The result of the inner loop lies between its ends.
abbrev IsFrom : ℕ → ℕ → Option ℕ → Type 0
IsFrom low high none = Unit
IsFrom low high (some m) = (low ≤ m) × (m ≤ high)

IsFrom-suc : (low high : ℕ) (o : Option ℕ) → IsFrom low high o → IsFrom low (suc high) o
IsFrom-suc low high none h = tt
IsFrom-suc low high (some m) h = (h.0, omega (arith, h.1))

earliest-IsFrom :
    (stabs : ℕ → Stab) (type l k high : ℕ) → high ≡ l + k → IsFrom l high (earliest stabs type l k)
unfolding earliest
earliest-IsFrom stabs type l zero high e = elim (Bool-cases ((stabs l).n_type == type)) [
  | inl t ↦ rw t (omega arith, omega (arith, e))
  | inr t ↦ rw t tt
]
earliest-IsFrom stabs type l (suc k) high e =
    elim (Bool-cases ((stabs (l + suc k)).n_type == type)) [
      | inl t ↦ rw t (omega arith, omega (arith, e))
      | inr t ↦
          let next : high ≡ suc (l + k) = omega (arith, e) in
          rw t (
            subst (λ top. IsFrom l top (earliest stabs type l k)) (sym next)
              (IsFrom-suc l (l + k) _ (earliest-IsFrom stabs type l k (l + k) refl)))
    ]

-- 1 if the entry at `l` is an exact match, which the loop may find again.
abbrev again : (ℕ → Stab) → Bounds → ℕ
again stabs b = if (stabs b.l).n_value == b.addr then 1 else 0

-- What goes down in each round.
abbrev measure : (ℕ → Stab) → Bounds → ℕ
measure stabs b = 2 * (b.end - b.l) + again stabs b

again_bound : (stabs : ℕ → Stab) (b : Bounds) → again stabs b ≤ 1
again_bound stabs b = elim (Bool-cases ((stabs b.l).n_value == b.addr)) [
  | inl e ↦ rw e (omega arith)
  | inr e ↦ rw e (omega arith)
]

-- The search stays within the indices from `low` on that are less than `high`.
abbrev IsWithin : ℕ → ℕ → Bounds → Region → Type 0
IsWithin low high b s =
    (low ≤ b.l)
    × (b.end ≤ high)
    × (low ≤ s.region_left)
    × (s.region_left < high)
    × (low ≤ s.region_end)
    × (s.region_end ≤ high)

-- A round goes down and stays within.
abbrev Advances : (ℕ → Stab) → ℕ → ℕ → Bounds → Bounds × Region → Type 0
Advances stabs low high b next =
    (measure stabs next.0 < measure stabs b) × IsWithin low high next.0 next.1

-- An exact match at `l` is not found again.
not_again : (a : ℕ) → (a == (a + 1) % 2 ^ 32) ≡ false
not_again a = ground arith

again_exact : (stabs : ℕ → Stab) (b : Bounds) → (stabs b.l).n_value ≡ b.addr → again stabs b ≡ 1
again_exact stabs b h =
    let e : ((stabs b.l).n_value == b.addr) ≡ true = ground (arith, h) in rw e refl

again_next :
    (stabs : ℕ → Stab) (m end addr : ℕ)
    → (stabs m).n_value ≡ addr
    → again stabs (record { l = m; end = end; addr = (addr + 1) % 2 ^ 32 }) ≡ 0
again_next stabs m end addr h =
    let e : ((stabs m).n_value == (addr + 1) % 2 ^ 32) ≡ false = rw h (not_again addr) in rw e refl

exact-Advances :
    (stabs : ℕ → Stab) (low high m : ℕ) (b : Bounds) (s : Region)
    → b.l ≤ m
    → m < b.end
    → (stabs m).n_value ≡ b.addr
    → IsWithin low high b s
    → Advances stabs low high b (
      record b { l = m; addr = (b.addr + 1) % 2 ^ 32 },
      record s { region_left = m; any_matches = true },
    )
exact-Advances stabs low high m b s above below exact w =
    let after = again_next stabs m b.end b.addr exact in
    (
      elim (Bool-cases (m == b.l)) [
        | inl e ↦
            let same : m ≡ b.l = ground arith in
            let before = again_exact stabs b (subst (λ i. (stabs i).n_value ≡ b.addr) same exact) in
            omega (arith, same, after, before)
        | inr e ↦ let apart : m ≢ b.l = ground arith in omega (arith, apart, above, below, after)
      ],
      (
        omega (arith, w.0, above),
        w.1,
        omega (arith, w.0, above),
        omega (arith, w.1, below),
        w.4,
        w.5,
      ),
    )

-- The search goes on behind `true_m`.
right-Advances :
    (stabs : ℕ → Stab) (low high true_m : ℕ) (b : Bounds) (s : Region)
    → b.l ≤ true_m
    → true_m < b.end
    → IsWithin low high b s
    → Advances stabs low high b (record b { l = suc true_m }, s)
right-Advances stabs low high true_m b s above below w = (
  omega (arith, above, below, again_bound stabs (record b { l = suc true_m })),
  (omega (arith, w.0, above), w.1, w.2, w.3, w.4, w.5),
)

-- The search goes on before `m`.
left-Advances :
    (stabs : ℕ → Stab) (low high m : ℕ) (b : Bounds) (s : Region)
    → b.l ≤ m
    → m < b.end
    → IsWithin low high b s
    → Advances stabs low high b
        (record b { end = m }, record s { region_end = m; any_matches = true })
left-Advances stabs low high m b s above below w = (
  omega (arith, above, below),
  (w.0, omega (arith, w.1, below), w.2, w.3, omega (arith, w.0, above), omega (arith, w.1, below)),
)

search_round-Advances :
    (stabs : ℕ → Stab) (low high true_m : ℕ) (o : Option ℕ) (b : Bounds) (s : Region)
    → b.l ≤ true_m
    → true_m < b.end
    → IsFrom b.l true_m o
    → IsWithin low high b s
    → Advances stabs low high b (search_round stabs true_m o b s)
unfolding search_round
search_round-Advances stabs low high true_m none b s above below from w =
    right-Advances stabs low high true_m b s above below w
search_round-Advances stabs low high true_m (some m) b s above below from w =
    elim (Bool-cases (ltb (stabs m).n_value b.addr)) [
      | inl less ↦ rw less (
          right-Advances stabs low high true_m b (record s { region_left = m; any_matches = true })
            above below
            (w.0, w.1, omega (arith, w.0, from.0), omega (arith, w.1, from.1, below), w.4, w.5))
      | inr not_less ↦ elim (Bool-cases (ltb b.addr (stabs m).n_value)) [
        | inl more ↦
            rw (not_less, more)
              (left-Advances stabs low high m b s from.0 (omega (arith, from.1, below)) w)
        | inr not_more ↦
            let exact : (stabs m).n_value ≡ b.addr = ground arith in
            rw (not_less, not_more)
              (exact-Advances stabs low high m b s from.0 (omega (arith, from.1, below)) exact w)
      ]
    ]

-- The loop ends, with what it found within.
abbrev Ends : ℕ → ℕ → Option Region → Type 0
Ends low high none = ⊥
Ends low high (some s) =
    (low ≤ s.region_left) × (s.region_left < high) × (low ≤ s.region_end) × (s.region_end ≤ high)

search-Ends :
    (stabs : ℕ → Stab) (type low high n : ℕ) (b : Bounds) (s : Region)
    → IsWithin low high b s
    → measure stabs b < n
    → Ends low high (search stabs type n b s)
unfolding search
search-Ends stabs type low high zero b s w h = absurd (omega (arith, h))
search-Ends stabs type low high (suc n) b s w h = elim (Bool-cases (ltb b.l b.end)) [
  | inl e ↦
      let some_entry : b.l < b.end = ground arith in
      let above : b.l ≤ middle b = omega (arith, some_entry) in
      let below : middle b < b.end = omega (arith, some_entry) in
      let found = earliest stabs type b.l (middle b - b.l) in
      let from =
        earliest-IsFrom stabs type b.l (middle b - b.l) (middle b) (omega (arith, above)) in
      let next = search_round-Advances stabs low high (middle b) found b s above below from w in
      rw e (search-Ends stabs type low high n _ _ next.1 (omega (arith, next.0, h)))
  | inr e ↦ rw e (w.2, w.3, w.4, w.5)
]

rightmost_bound :
    (stabs : ℕ → Stab) (type left k : ℕ)
    → (left ≤ rightmost stabs type left k) × (rightmost stabs type left k ≤ left + k)
unfolding rightmost
rightmost_bound stabs type left zero = (omega arith, omega arith)
rightmost_bound stabs type left (suc k) =
    elim (Bool-cases ((stabs (left + suc k)).n_type == type)) [
      | inl e ↦ rw e (omega arith, omega arith)
      | inr e ↦ let rest = rightmost_bound stabs type left k in rw e (rest.0, omega (arith, rest.1))
    ]

-- An index from `low - 1` on that is less than `high`.
abbrev pub IsIndex : ℕ → ℕ → ℤ → Type 0
IsIndex low high z = (n : ℕ) × (z ≡ pred_int (pos n)) × (low ≤ n) × (n ≤ high)

abbrev pub IsBracket : ℕ → ℕ → Option (ℤ × ℤ) → Type 0
IsBracket low high none = ⊥
IsBracket low high (some r) = IsIndex low high r.0 × IsIndex low high r.1

bracket-IsIndex :
    (stabs : ℕ → Stab) (type low high : ℕ) (s : Region)
    → Ends low high (some s)
    → IsIndex low high (bracket stabs type s).0 × IsIndex low high (bracket stabs type s).1
unfolding bracket
bracket-IsIndex stabs type low high s h = elim (Bool-cases s.any_matches) [
  | inl any ↦ elim (Bool-cases (leb s.region_end s.region_left)) [
    | inl e ↦ rw (any, e) ((s.region_end, refl, h.2, h.3), (s.region_end, refl, h.2, h.3))
    | inr e ↦
        let k = s.region_end - 1 - s.region_left in
        let bound = rightmost_bound stabs type s.region_left k in
        let above : s.region_left < s.region_end = ground arith in
        rw (any, e)
          (
            (
              suc (rightmost stabs type s.region_left k),
              refl,
              omega (arith, bound.0, h.0),
              omega (arith, bound.1, h.3, above),
            ),
            (s.region_end, refl, h.2, h.3),
          )
  ]
  | inr no_match ↦ rw no_match (
    (suc s.region_left, refl, omega (arith, h.0), omega (arith, h.1)),
    (s.region_left, refl, h.0, omega (arith, h.1)),
  )
]

bracket_found-IsBracket :
    (stabs : ℕ → Stab) (type low high : ℕ) (o : Option Region)
    → Ends low high o
    → IsBracket low high (bracket_found stabs type o)
bracket_found-IsBracket stabs type low high none h = h
bracket_found-IsBracket stabs type low high (some s) h = bracket-IsIndex stabs type low high s h

-- On a region that is not empty, whatever its entries are, the binary search ends within two rounds
-- for each entry and two more, and leaves both ends of the region at indices of it, or one before it.
pub stab_binsearch_lem :
    (stabs : ℕ → Stab) (left end type addr : ℕ)
    → left < end
    → IsBracket left end (stab_binsearch stabs left end type addr)
unfolding stab_binsearch
stab_binsearch_lem stabs left end type addr h =
    let b : Bounds = record { l = left; end = end; addr = addr } in
    let s : Region = record { region_left = left; region_end = end; any_matches = false } in
    bracket_found-IsBracket stabs type left end _ (
      search-Ends stabs type left end (2 * (end - left) + 2) b s
        (omega arith, omega arith, omega arith, h, omega (arith, h), omega arith)
        (omega (arith, again_bound stabs b)))
