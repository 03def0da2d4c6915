-- ===== src/Sched/User/Mappings.antt =====
-- What mapping a page again makes of the address spaces, page by page (sched/lib/fork.c).
use Prim.Native.Nat.{bit_or}
use tps_sis_ops.Base.{
  ℕ, zero, suc, ◌*◌, ◌/◌, ◌≡◌, ◌≢◌, refl, Option, none, some, Bool, true, false, ◌&&◌, not, ◌==◌,
  if◌then◌else◌, arith,
}
use tps_sis_ops.Sched.Memory.{pgsize}
use tps_sis_ops.Sched.User.{Tables, pte_cow, is_user, is_private, shared_perm, exception_page}
use tps_sis_ops.Sched.User.Spaces.{Entry, Spaces, map_entry_of}

-- The pages that `fork` shares.
abbrev pub is_shared : Tables → ℕ → Bool
is_shared t pn = not (pn == exception_page) && is_user (t.uvpd (pn / 1024)) && is_user (t.uvpt pn)

-- What an address is mapped to in the program and in the child.
abbrev pub at : Spaces → ℕ → Option Entry × Option Entry
at v va = (v.own va, v.child va)

-- The flags of a shared page.
abbrev pub flags : ℕ → ℕ
flags pte = bit_or 5 (if is_private pte then bit_or (shared_perm pte) pte_cow else shared_perm pte)

abbrev pub shared_at : ℕ → Option Entry × Option Entry → Option Entry × Option Entry
shared_at pte (none, c) = (none, c)
shared_at pte (some e, c) =
    let s = some (record { frame = e.frame; perm = flags pte }) in
    (if is_private pte then s else some e, s)

abbrev pub round_at : Tables → ℕ → Option Entry × Option Entry → Option Entry × Option Entry
round_at t pn x = if is_shared t pn then shared_at (t.uvpt pn) x else x

-- An entry mapped again, with flags.
abbrev pub remapped : ℕ → Option Entry → Option Entry → Option Entry
remapped perm none old = old
remapped perm (some e) old = some (record { frame = e.frame; perm = bit_or 5 perm })

pub child-map :
    (v : Spaces) (i va perm : ℕ) (o : Option Entry)
    → (map_entry_of v (suc i) va perm o).child va ≡ remapped perm o (v.child va)
child-map v i va perm none = refl
child-map v i va perm (some e) = let same : (va == va) ≡ true = ground arith in rw same refl

pub own-map :
    (v : Spaces) (va perm : ℕ) (o : Option Entry)
    → (map_entry_of v 0 va perm o).own va ≡ remapped perm o (v.own va)
own-map v va perm none = refl
own-map v va perm (some e) = let same : (va == va) ≡ true = ground arith in rw same refl

pub own-map_child :
    (v : Spaces) (i va perm a : ℕ) (o : Option Entry)
    → (map_entry_of v (suc i) va perm o).own a ≡ v.own a
own-map_child v i va perm a none = refl
own-map_child v i va perm a (some e) = refl

pub child-map_own :
    (v : Spaces) (va perm a : ℕ) (o : Option Entry)
    → (map_entry_of v 0 va perm o).child a ≡ v.child a
child-map_own v va perm a none = refl
child-map_own v va perm a (some e) = refl

-- A mapping changes no other page.
pub at-map_other :
    (v : Spaces) (i pn q perm : ℕ) (o : Option Entry)
    → q ≢ pn
    → at (map_entry_of v i (pn * pgsize) perm o) (q * pgsize) ≡ at v (q * pgsize)
at-map_other v i pn q perm none ne = refl
at-map_other v zero pn q perm (some e) ne =
    let apart : (q * pgsize == pn * pgsize) ≡ false = ground arith in rw apart refl
at-map_other v (suc i) pn q perm (some e) ne =
    let apart : (q * pgsize == pn * pgsize) ≡ false = ground arith in rw apart refl
