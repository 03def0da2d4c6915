-- ===== src/Sched/Debug.antt =====
-- The binary search of sched/kern/kdebug.c in the debugging table, a function of the index.
pub mod Search
mod Tests
use tps_sis_ops.Base.{
  ℕ, zero, suc, ◌+◌, ◌-◌, ◌*◌, ◌/◌, ◌%◌, ◌^◌, Option, none, some, Bool, true, false, ltb, leb, ◌==◌,
  if◌then◌else◌,
}
use tps_sis_ops.Base.Int.{ℤ, pos, pred_int}

-- The fields of `struct Stab` that the search reads.
pub record Stab : Type 0 where
  pub n_type : ℕ
  pub n_value : ℕ

-- The inner loop, from `m = l + k` down to `l`: the last entry of the type.
unfoldable pub earliest : (ℕ → Stab) → ℕ → ℕ → ℕ → Option ℕ
earliest stabs type l zero = if (stabs l).n_type == type then some l else none
earliest stabs type l (suc k) =
    let rest = earliest stabs type l k in
    if (stabs (l + suc k)).n_type == type then some (l + suc k) else rest

-- The variables of the search: `*region_left`, one more than `*region_right`, and `any_matches`.
pub record Region : Type 0 where
  pub region_left : ℕ
  pub region_end : ℕ
  pub any_matches : Bool

-- The loop's own variables: `l`, one more than `r`, and `addr`.
pub record Bounds : Type 0 where
  pub l : ℕ
  pub end : ℕ
  pub addr : ℕ

-- A round of the loop, for `true_m` and the result of the inner loop.
unfoldable pub search_round : (ℕ → Stab) → ℕ → Option ℕ → Bounds → Region → Bounds × Region
search_round stabs true_m none b s = (record b { l = suc true_m }, s)
search_round stabs true_m (some m) b s =
    if ltb (stabs m).n_value b.addr
    then (record b { l = suc true_m }, record s { region_left = m; any_matches = true })
    else (if ltb b.addr (stabs m).n_value
        then (record b { end = m }, record s { region_end = m; any_matches = true })
        else (
          record b { l = m; addr = (b.addr + 1) % 2 ^ 32 },
          record s { region_left = m; any_matches = true },
        ))

-- `(l + r) / 2`.
abbrev pub middle : Bounds → ℕ
middle b = (b.l + (b.end - 1)) / 2

-- The loop, on fuel.
unfoldable pub search : (ℕ → Stab) → ℕ → ℕ → Bounds → Region → Option Region
search stabs type zero b s = none
search stabs type (suc n) b s =
    let next = search_round stabs (middle b) (earliest stabs type b.l (middle b - b.l)) b s in
    let rest = search stabs type n next.0 next.1 in if ltb b.l b.end then rest else some s

-- The last loop, from `l = left + k` down to `left`.
unfoldable pub rightmost : (ℕ → Stab) → ℕ → ℕ → ℕ → ℕ
rightmost stabs type left zero = left
rightmost stabs type left (suc k) =
    let rest = rightmost stabs type left k in
    if (stabs (left + suc k)).n_type == type then left + suc k else rest

-- `*region_left` and `*region_right` at the end.
unfoldable pub bracket : (ℕ → Stab) → ℕ → Region → ℤ × ℤ
bracket stabs type s =
    if s.any_matches
    then (if leb s.region_end s.region_left
        then (pred_int (pos s.region_end), pred_int (pos s.region_end))
        else (
          pos (rightmost stabs type s.region_left (s.region_end - 1 - s.region_left)),
          pred_int (pos s.region_end),
        ))
    else (pos s.region_left, pred_int (pos s.region_left))

abbrev pub bracket_found : (ℕ → Stab) → ℕ → Option Region → Option (ℤ × ℤ)
bracket_found stabs type none = none
bracket_found stabs type (some s) = some (bracket stabs type s)

-- For a `*region_right` of one less than `end`; two rounds for each entry, and two more, are given.
unfoldable pub stab_binsearch : (ℕ → Stab) → ℕ → ℕ → ℕ → ℕ → Option (ℤ × ℤ)
stab_binsearch stabs left end type addr = bracket_found stabs type (
    search stabs type (2 * (end - left) + 2) record { l = left; end = end; addr = addr }
      record { region_left = left; region_end = end; any_matches = false })
