-- ===== src/Sched/Scheduler/Order.antt =====
-- The order in which `sched_with_priority` (sched/kern/sched.c) prefers environments.
use tps_sis_ops.Base.{ℕ, ◌≡◌, Bool, true, false, ◌&&◌, ◌||◌, ltb, arith}
use tps_sis_ops.Base.Int.{ℤ, pos, negsuc, ltb_int, eqb_int}
use tps_sis_ops.Sched.Env.{Env}

-- An environment of priority `p` that ran `a` times goes before one of priority `q` that ran `b`
-- times.
abbrev outranks : ℤ → ℕ → ℤ → ℕ → Bool
outranks p a q b = ltb_int q p || (eqb_int p q && ltb a b)

unfoldable pub before : Env → Env → Bool
before e f = outranks e.env_priority e.env_runs f.env_priority f.env_runs

outranks_irrefl : (p : ℤ) (a : ℕ) → outranks p a p a ≡ false
outranks_irrefl (pos x) a = ground arith
outranks_irrefl (negsuc x) a = ground arith

outranks_asym : (p q : ℤ) (a b : ℕ) → outranks p a q b ≡ true → outranks q b p a ≡ false
outranks_asym (pos x) (pos y) a b h = ground arith
outranks_asym (pos x) (negsuc y) a b h = ground arith
outranks_asym (negsuc x) (pos y) a b h = ground arith
outranks_asym (negsuc x) (negsuc y) a b h = ground arith

outranks_trans :
    (p q r : ℤ) (a b c : ℕ)
    → outranks p a q b ≡ true
    → outranks r c q b ≡ false
    → outranks p a r c ≡ true
outranks_trans (pos x) (pos y) (pos z) a b c h n = ground arith
outranks_trans (pos x) (pos y) (negsuc z) a b c h n = ground arith
outranks_trans (pos x) (negsuc y) (pos z) a b c h n = ground arith
outranks_trans (pos x) (negsuc y) (negsuc z) a b c h n = ground arith
outranks_trans (negsuc x) (pos y) (pos z) a b c h n = ground arith
outranks_trans (negsuc x) (pos y) (negsuc z) a b c h n = ground arith
outranks_trans (negsuc x) (negsuc y) (pos z) a b c h n = ground arith
outranks_trans (negsuc x) (negsuc y) (negsuc z) a b c h n = ground arith

-- The order is irreflexive, asymmetric, and what does not go before `f` comes behind what does.
pub before_irrefl : (e : Env) → before e e ≡ false
unfolding before
before_irrefl e = outranks_irrefl e.env_priority e.env_runs

pub before_asym : (e f : Env) → before e f ≡ true → before f e ≡ false
unfolding before
before_asym e f = outranks_asym e.env_priority f.env_priority e.env_runs f.env_runs

pub before_trans : (e f g : Env) → before e f ≡ true → before g f ≡ false → before e g ≡ true
unfolding before
before_trans e f g =
    outranks_trans e.env_priority f.env_priority g.env_priority e.env_runs f.env_runs g.env_runs

outranks_over_floor :
    (p q : ℤ) (a b : ℕ)
    → ltb_int p (negsuc 0) ≡ false
    → ltb_int q (negsuc 0) ≡ true
    → outranks p a q b ≡ true
outranks_over_floor (pos x) (pos y) a b h l = ground arith
outranks_over_floor (pos x) (negsuc y) a b h l = ground arith
outranks_over_floor (negsuc x) (pos y) a b h l = ground arith
outranks_over_floor (negsuc x) (negsuc y) a b h l = ground arith

outranks_keeps_floor :
    (p q : ℤ) (a b : ℕ)
    → outranks p a q b ≡ true
    → ltb_int q (negsuc 0) ≡ false
    → ltb_int p (negsuc 0) ≡ false
outranks_keeps_floor (pos x) (pos y) a b h l = ground arith
outranks_keeps_floor (pos x) (negsuc y) a b h l = ground arith
outranks_keeps_floor (negsuc x) (pos y) a b h l = ground arith
outranks_keeps_floor (negsuc x) (negsuc y) a b h l = ground arith

-- A priority of -1 or more goes before a lower one, and what goes before such a one has such a one.
pub over_floor :
    (e f : Env)
    → ltb_int e.env_priority (negsuc 0) ≡ false
    → ltb_int f.env_priority (negsuc 0) ≡ true
    → before e f ≡ true
unfolding before
over_floor e f = outranks_over_floor e.env_priority f.env_priority e.env_runs f.env_runs

pub keeps_floor :
    (e f : Env)
    → before e f ≡ true
    → ltb_int f.env_priority (negsuc 0) ≡ false
    → ltb_int e.env_priority (negsuc 0) ≡ false
unfolding before
keeps_floor e f = outranks_keeps_floor e.env_priority f.env_priority e.env_runs f.env_runs
