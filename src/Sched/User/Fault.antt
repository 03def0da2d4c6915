-- ===== src/Sched/User/Fault.antt =====
-- What the handler of page faults of sched/lib/fork.c brings about.
use mathlib.Core.Path.{subst}
use Prim.Native.Nat.{bit_and, bit_and-bitwise, digits, min}
use tps_sis_ops.Base.{
  ℕ, zero, suc, ◌/◌, ◌%◌, ◌<◌, ◌≡◌, refl, sym, ap, inl, inr, none, some, true, false, ◌==◌,
  Bool-cases, update, arith,
}
use tps_sis_ops.Base.Int.{ℤ, pos}
use tps_sis_ops.Sched.Memory.{pgsize, has_bit, round_down}
use tps_sis_ops.Sched.Syscalls.{map_page, alloc_page_at, unmap_page}
use tps_sis_ops.Sched.User.{returns, must, copy_page, Tables, is_refused, pte_cow, pgfault, pftemp}
use tps_sis_ops.Sched.User.Spaces.{Entry, Spaces, Ensures, must-Ensures, effect, copy_contents}

-- The definition that the native operation stands for, on a number of digits.
abbrev and_digits : ℕ → ℕ → ℕ → ℕ
and_digits n a b = digits (λ b. zero) min n a b

and_digits-zero : (n a : ℕ) → and_digits n a 0 ≡ 0
and_digits-zero zero a = refl
and_digits-zero (suc n) zero = refl
and_digits-zero (suc n) (suc a) = omega (arith, and_digits-zero n (suc a / 2))

-- An even number has no bit in common with 1.
bit_and-even : (a : ℕ) → a % 2 ≡ 0 → bit_and a 1 ≡ 0
bit_and-even zero h = bit_and-bitwise 0 1
bit_and-even (suc a) h = omega (arith, h, bit_and-bitwise (suc a) 1, and_digits-zero a (suc a / 2))

even-bit_and : (a : ℕ) → bit_and a 2 % 2 ≡ 0
even-bit_and zero = omega (arith, bit_and-bitwise 0 2)
even-bit_and (suc a) = omega (arith, bit_and-bitwise (suc a) 2)

bit_and-zero : (a : ℕ) → bit_and a 0 ≡ 0
bit_and-zero zero = bit_and-bitwise 0 0
bit_and-zero (suc a) = omega (arith, bit_and-bitwise (suc a) 0, and_digits-zero a (suc a / 2))

-- The test of the handler refuses no fault: `!` gives 0 or 1, and the bit of `FEC_WR` is 2.
is_refused-never : (err pte : ℕ) → is_refused err pte ≡ false
unfolding is_refused
is_refused-never err pte = elim (Bool-cases (has_bit pte pte_cow)) [
  | inl e ↦
      let none : bit_and (bit_and err 2) 0 ≡ 0 = bit_and-zero (bit_and err 2) in rw (e, none) refl
  | inr e ↦
      let none : bit_and (bit_and err 2) 1 ≡ 0 = bit_and-even (bit_and err 2) (even-bit_and err) in
      rw (e, none) refl
]

-- What `pgfault` makes of the address `va` of a page that is mapped to `e`, in `v`.
abbrev pub IsCopied : Spaces → Spaces → ℕ → Entry → ℤ → Type 0
IsCopied v w va e r =
    (r ≡ pos 0)
    × (w.own va ≡ some (record { frame = v.next_frame; perm = 7 }))
    × (w.contents v.next_frame ≡ v.contents e.frame)
    × ((frame : ℕ) → frame < v.next_frame → w.contents frame ≡ v.contents frame)
    × (w.own pftemp ≡ none)
    × ((a : ℕ) → (a == va) ≡ false → (a == pftemp) ≡ false → w.own a ≡ v.own a)
    × ((a : ℕ) → w.child a ≡ v.child a)

-- The spaces behind the copy.
abbrev copied : Spaces → Entry → Spaces
copied v e =
    let v' = effect v (alloc_page_at 0 pftemp 7) in
    record v' { contents = update v'.contents v.next_frame (v'.contents e.frame) }

copy_contents-copied :
    (v : Spaces) (va : ℕ) (e : Entry)
    → v.own va ≡ some e
    → (va == pftemp) ≡ false
    → let v' = effect v (alloc_page_at 0 pftemp 7) in
      copy_contents v' (v'.own pftemp) (v'.own va) ≡ copied v e
copy_contents-copied v va e mapped apart =
    let v' = effect v (alloc_page_at 0 pftemp 7) in
    let source : v'.own va ≡ some e = rw apart mapped in
    ap (copy_contents v' (v'.own pftemp)) source

abbrev remapped : Spaces → ℕ → Entry → Spaces
remapped v va e = effect (effect (copied v e) (map_page 0 pftemp 0 va 7)) (unmap_page 0 pftemp)

remapped-IsCopied :
    (v : Spaces) (va : ℕ) (e : Entry)
    → (va == pftemp) ≡ false
    → e.frame < v.next_frame
    → IsCopied v (remapped v va e) va e (pos 0)
remapped-IsCopied v va e apart old =
    let same : (va == va) ≡ true = ground arith in
    let fresh : (v.next_frame == v.next_frame) ≡ true = ground arith in
    let other : (e.frame == v.next_frame) ≡ false = ground arith in
    (
      refl,
      rw (apart, same) refl,
      rw (fresh, other) refl,
      λ frame h. let older : (frame == v.next_frame) ≡ false = ground arith in rw older refl,
      refl,
      λ a here temp. rw (temp, here) refl,
      λ a. refl,
    )

-- For a fault at an address of a page that is mapped and is not the page of `PFTEMP`, whatever the
-- system calls answer, the handler ends. If no call fails it returns: the page is mapped, writable, to
-- a new physical page with the contents of the one that it was mapped to; the contents of no
-- other physical page change; `PFTEMP` is not mapped; and every other address of the program, and
-- every one of the child, is mapped as before. It panics only if a call fails, and so also copies pages
-- that are not copy-on-write.
pub pgfault-Ensures :
    (t : Tables) (addr err : ℕ) (v : Spaces) (e : Entry)
    → v.own (round_down addr) ≡ some e
    → (round_down addr == pftemp) ≡ false
    → e.frame < v.next_frame
    → Ensures (λ w r. IsCopied v w (round_down addr) e r) v (pgfault t addr err)
unfolding pgfault
pgfault-Ensures t addr err v e mapped apart old =
    let va = round_down addr in
    let post : Spaces → ℤ → Type 0 = λ w r. IsCopied v w va e r in
    let c1 = alloc_page_at 0 pftemp 7 in
    let c2 = map_page 0 pftemp 0 va 7 in
    let c3 = unmap_page 0 pftemp in
    rw (is_refused-never err (t.uvpt (addr / pgsize))) (
      must-Ensures post c1 v (copy_page pftemp va (must c2 (must c3 (returns (pos 0)))))
        (λ v. (refl, (λ n. refl), (λ n. refl)))
        (subst (λ s. Ensures post s (must c2 (must c3 (returns (pos 0)))))
          (sym (copy_contents-copied v va e mapped apart))
          (must-Ensures post c2 (copied v e) (must c3 (returns (pos 0)))
            (λ v. (refl, (λ n. refl), (λ n. refl)))
            (must-Ensures post c3 (effect (copied v e) c2) (returns (pos 0))
              (λ v. (refl, (λ n. refl), (λ n. refl))) (remapped-IsCopied v va e apart old)))))
