-- ===== src/Sched/Debug/Tests.antt =====
-- Tests of the search in the debugging table (sched/kern/kdebug.c).
use tps_sis_ops.Base.{ℕ, ◌≡◌, refl, some, ◌==◌, if◌then◌else◌, ltb, arith}
use tps_sis_ops.Base.Int.{pos, negsuc}
use tps_sis_ops.Sched.Debug.{
  Stab, earliest, search_round, search, rightmost, bracket, stab_binsearch,
}
use tps_sis_ops.Sched.Debug.Search.{IsBracket, stab_binsearch_lem}

-- Functions (36) at 0, 3 and 5, each line (68) in between with the address of its function.
abbrev table : ℕ → Stab
table i = record {
  n_type = if i == 0 then 36 else (if i == 3 then 36 else (if i == 5 then 36 else 68));
  n_value = if ltb i 3 then 100 else (if ltb i 5 then 130 else 150);
}

-- Address 140 is in the function from entry 3 to entry 4.
found : stab_binsearch table 0 6 36 140 ≡ some (pos 3, pos 4)
unfolding stab_binsearch search search_round earliest bracket rightmost
found = refl

-- Address 50 is before every function; both ends are before the region, and none is behind the other.
before_all : stab_binsearch table 0 6 36 50 ≡ some (negsuc 0, negsuc 0)
unfolding stab_binsearch search search_round earliest bracket rightmost
before_all = refl

stab_binsearch_lem_example : IsBracket 0 6 (stab_binsearch table 0 6 36 130)
stab_binsearch_lem_example = stab_binsearch_lem table 0 6 36 130 (omega arith)
