-- ===== src/Sched/User/Spaces.antt =====
-- What system calls promise of the address spaces of a program and of its child, without how the
-- kernel keeps them, and what a program brings about through them.
use Prim.Native.Nat.{bit_or}
use mathlib.Core.Path.{subst}
use tps_sis_ops.Base.{
  sym, ℕ, zero, suc, ◌≡◌, Option, none, some, Bool, true, false, ◌*◌, ◌/◌, ◌==◌, update,
}
use tps_sis_ops.Base.Int.{ℤ, pos, negsuc}
use tps_sis_ops.Sched.Memory.{pgsize}
use tps_sis_ops.Sched.Syscalls.{
  Call, getenvid, yield, exofork, set_status, alloc_page_at, map_page, unmap_page,
}
use tps_sis_ops.Sched.User.{pftemp, Program, call, copy_page, returns, panics, out_of_rounds, must}

-- A mapped address of a page: the physical page, and the flags.
pub record Entry : Type 0 where
  pub frame : ℕ
  pub perm : ℕ

-- What the addresses of pages are mapped to in the program and in its child; the number of the next
-- physical page that is allocated; the address whose contents, of the start, a physical page has;
-- whether a call failed, and whether the child was made runnable.
pub record Spaces : Type 0 where
  pub own : ℕ → Option Entry
  pub child : ℕ → Option Entry
  pub next_frame : ℕ
  pub contents : ℕ → Option ℕ
  pub failed : Bool
  pub is_started : Bool

abbrev pub has_failed : Spaces → Spaces
has_failed v = record v { failed = true }

-- The space of the id: 0 is the program itself, and every other id the child.
abbrev pub space_of : Spaces → ℕ → ℕ → Option Entry
space_of v zero = v.own
space_of v (suc envid) = v.child

abbrev pub set_space : Spaces → ℕ → ℕ → Option Entry → Spaces
set_space v zero va e = record v { own = update v.own va e }
set_space v (suc envid) va e = record v { child = update v.child va e }

-- A mapping of what another address is mapped to.
abbrev pub map_entry_of : Spaces → ℕ → ℕ → ℕ → Option Entry → Spaces
map_entry_of v envid va perm none = v
map_entry_of v envid va perm (some e) =
    set_space v envid va (some (record { frame = e.frame; perm = bit_or 5 perm }))

-- A call that succeeds.
abbrev pub effect : Spaces → Call → Spaces
effect v (map_page src srcva dst dstva perm) = map_entry_of v dst dstva perm (space_of v src srcva)
effect v (alloc_page_at envid va perm) =
    let fresh = v.next_frame in
    set_space (record v { next_frame = suc fresh; contents = update v.contents fresh none }) envid
      va (some (record { frame = fresh; perm = bit_or perm 5 }))
effect v (unmap_page envid va) = set_space v envid va none
effect v (set_status envid status) = record v { is_started = true }
effect v _ = v

-- A call with its result. Only ids are positive: another positive result counts as a failure.
abbrev pub behind : Spaces → Call → ℤ → Spaces
behind v exofork (pos n) = v
behind v exofork (negsuc n) = has_failed v
behind v getenvid r = v
behind v yield r = v
behind v c (pos zero) = effect v c
behind v c (pos (suc n)) = has_failed v
behind v c (negsuc n) = has_failed v

abbrev pub copy_contents : Spaces → Option Entry → Option Entry → Spaces
copy_contents v (some d) (some s) = record v {
  contents = update v.contents d.frame (v.contents s.frame);
}
copy_contents v _ _ = v

-- Whatever the calls answer, the program returns a result of which `post` holds, or it panics, and
-- does that only if a call has failed.
abbrev pub Ensures : (Spaces → ℤ → Type 0) → Spaces → Program → Type 0
Ensures post v (call c next) = (r : ℤ) → Ensures post (behind v c r) (next r)
Ensures post v (copy_page dst src rest) =
    Ensures post (copy_contents v (v.own dst) (v.own src)) rest
Ensures post v (returns r) = post v r
Ensures post v panics = v.failed ≡ true
Ensures post v out_of_rounds = ⊥

-- What page faults of the code that runs between two calls may do, for the pages that it and its
-- handler write: their addresses may be mapped to other physical pages, with other flags; only `PFTEMP`
-- is unmapped.
pub record Faulted (is_written : ℕ → Bool) (v w : Spaces) : Type 0 where
  pub own_kept : (pn : ℕ) → is_written pn ≡ false → w.own (pn * pgsize) ≡ v.own (pn * pgsize)
  pub mapped :
      (pn : ℕ) (e : Entry)
      → (pn == pftemp / pgsize) ≡ false
      → v.own (pn * pgsize) ≡ some e
      → (e' : Entry) × (w.own (pn * pgsize) ≡ some e')
  pub child_kept : (a : ℕ) → w.child a ≡ v.child a
  pub failed_kept : w.failed ≡ v.failed
  pub started_kept : w.is_started ≡ v.is_started

-- The same as `Ensures`, whatever such faults do before each call.
abbrev pub Withstands : (ℕ → Bool) → (Spaces → ℤ → Type 0) → Spaces → Program → Type 0
Withstands is_written post v (call c next) =
    (w : Spaces)
    → Faulted is_written v w
    → (r : ℤ) → Withstands is_written post (behind w c r) (next r)
Withstands is_written post v (copy_page dst src rest) =
    (w : Spaces)
    → Faulted is_written v w
    → Withstands is_written post (copy_contents w (w.own dst) (w.own src)) rest
Withstands is_written post v (returns r) = post v r
Withstands is_written post v panics = v.failed ≡ true
Withstands is_written post v out_of_rounds = ⊥

-- A call whose result is 0 if it succeeds.
abbrev pub IsChecked : Call → Type 0
IsChecked c =
    (v : Spaces)
    → (behind v c (pos zero) ≡ effect v c)
      × ((n : ℕ) → (behind v c (pos (suc n))).failed ≡ true)
      × ((n : ℕ) → (behind v c (negsuc n)).failed ≡ true)

module _ (post : Spaces → ℤ → Type 0) where
  -- A call that must succeed has its effect on what follows.
  pub must-Ensures :
      (c : Call) (v : Spaces) (rest : Program)
      → IsChecked c
      → Ensures post (effect v c) rest
      → Ensures post v (must c rest)
  must-Ensures c v rest good h (pos zero) = subst (λ w. Ensures post w rest) (sym (good v).0) h
  must-Ensures c v rest good h (pos (suc n)) = (good v).1 n
  must-Ensures c v rest good h (negsuc n) = (good v).2 n

module _ (is_written : ℕ → Bool) (post : Spaces → ℤ → Type 0) where
  -- A call that must succeed has its effect on what the faults before it leave.
  pub must-Withstands :
      (c : Call) (v : Spaces) (rest : Program)
      → IsChecked c
      → ((w : Spaces) → Faulted is_written v w → Withstands is_written post (effect w c) rest)
      → Withstands is_written post v (must c rest)
  must-Withstands c v rest good h w f (pos zero) =
      subst (λ w. Withstands is_written post w rest) (sym (good w).0) (h w f)
  must-Withstands c v rest good h w f (pos (suc n)) = (good w).1 n
  must-Withstands c v rest good h w f (negsuc n) = (good w).2 n
