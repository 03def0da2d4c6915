-- ===== src/Sched/User/Fork.antt =====
-- What `fork` of sched/lib/fork.c brings about, with the page faults that it takes on its way: once the
-- page of its own stack is copy-on-write, the next write to it is one.
use Prim.Native.Nat.{bit_or}
use tps_sis_ops.Base.{
  ℕ, zero, suc, ◌*◌, ◌/◌, ◌<◌, ◌≡◌, some, Bool, true, false, ◌==◌, if◌then◌else◌,
}
use tps_sis_ops.Base.Int.{ℤ, pos, negsuc}
use tps_sis_ops.Sched.Memory.{pgsize, has_bit}
use tps_sis_ops.Sched.User.{
  pftemp, Tables, is_private, exception_page, exception_stack, pte_cow, pte_up, pte_io,
}
use tps_sis_ops.Sched.User.Spaces.{Entry, Spaces}
use tps_sis_ops.Sched.User.Mappings.{is_shared, flags, at}

-- What `fork` makes of the addresses of page `pn`, which was mapped to `e`.
abbrev pub IsShared : Tables → Spaces → ℕ → Entry → Type 0
IsShared t w pn e =
    let shared = some (record { frame = e.frame; perm = flags (t.uvpt pn) }) in
    (w.child (pn * pgsize) ≡ shared)
    × (w.own (pn * pgsize) ≡ (if is_private (t.uvpt pn) then shared else some e))
    × (has_bit (flags (t.uvpt pn)) 2 ≡ false)
    × (has_bit (flags (t.uvpt pn)) pte_cow ≡ is_private (t.uvpt pn))

-- The end of `fork` that began in `v`, in the child, which gets 0, and in the parent.
abbrev pub ForkEnds : (ℕ → Bool) → Tables → Spaces → Spaces → ℤ → Type 0
ForkEnds is_written t v w (pos zero) = Unit
ForkEnds is_written t v w (pos (suc i)) =
    (w.is_started ≡ true)
    × ((f : ℕ) × (w.child exception_stack ≡ some (record { frame = f; perm = 7 })))
    × ((pn : ℕ) (e : Entry)
        → pn < exception_page
        → (pn == pftemp / pgsize) ≡ false
        → is_shared t pn ≡ true
        → v.own (pn * pgsize) ≡ some e
        → (f : ℕ) × (w.child (pn * pgsize) ≡ some (record { frame = f; perm = flags (t.uvpt pn) }))
          × (has_bit (flags (t.uvpt pn)) 2 ≡ false))
    × ((pn : ℕ) (e : Entry)
        → pn < exception_page
        → is_written pn ≡ false
        → is_shared t pn ≡ true
        → v.own (pn * pgsize) ≡ some e
        → IsShared t w pn e)
    × ((pn : ℕ)
        → pn < exception_page
        → is_written pn ≡ false
        → is_shared t pn ≡ false
        → at w (pn * pgsize) ≡ at v (pn * pgsize))
ForkEnds is_written t v w (negsuc n) = ⊥

-- The flags, for whether the page is private and whether it is one of input and output.
abbrev flags_of : Bool → Bool → ℕ
flags_of is_own io =
    let perm = if io then bit_or pte_up pte_io else pte_up in
    bit_or 5 (if is_own then bit_or perm pte_cow else perm)
