-- ===== src/Sched/User/Guarded.antt =====
-- What every page that `fork` shares is mapped to on its way, whatever page faults it takes
-- (sched/lib/fork.c).
use Prim.Native.Nat.{bit_or}
use mathlib.Core.Path.{subst}
use tps_sis_ops.Base.{
  ℕ, suc, ◌*◌, ◌/◌, ◌<◌, ◌≡◌, ◌≢◌, sym, ap, ◌∙◌, inl, inr, Option, some, Bool, true, false, ◌==◌,
  ltb, Bool-cases, arith,
}
use tps_sis_ops.Sched.Memory.{pgsize}
use tps_sis_ops.Sched.User.{pftemp, Tables, exception_page}
use tps_sis_ops.Sched.User.Spaces.{Entry, Spaces, map_entry_of, Faulted}
use tps_sis_ops.Sched.User.Mappings.{
  is_shared, flags, remapped, child-map, own-map, own-map_child, child-map_own, at-map_other,
}

module _ (is_written : ℕ → Bool) (t : Tables) (v0 : Spaces) where
  -- The pages that are shared stay mapped in the program, and those below `pn` are mapped in the child
  -- with the flags of a shared page, those that page faults change among them.
  abbrev pub AreGuarded : ℕ → Spaces → Type 0
  AreGuarded pn v =
      (q : ℕ) (e : Entry)
      → q < exception_page
      → (q == pftemp / pgsize) ≡ false
      → is_shared t q ≡ true
      → v0.own (q * pgsize) ≡ some e
      → ((e' : Entry) × (v.own (q * pgsize) ≡ some e'))
        × (ltb q pn ≡ true
            → (f : ℕ) × (v.child (q * pgsize)
                ≡ some (record { frame = f; perm = flags (t.uvpt q) })))

  pub AreGuarded-Faulted :
      (pn : ℕ) (v w : Spaces) → AreGuarded pn v → Faulted is_written v w → AreGuarded pn w
  AreGuarded-Faulted pn v w h f q e lt temp shared mapped =
      let (kept, there) = h q e lt temp shared mapped in
      (
        f.mapped q kept.0 temp kept.1,
        λ below. let c = there below in (c.0, f.child_kept (q * pgsize) ∙ c.1),
      )

  pub AreGuarded-skip :
      (pn : ℕ) (v : Spaces) → is_shared t pn ≡ false → AreGuarded pn v → AreGuarded (suc pn) v
  AreGuarded-skip pn v unshared h q e lt temp shared mapped =
      let (kept, there) = h q e lt temp shared mapped in
      (
        kept,
        λ below. elim (Bool-cases (q == pn)) [
          | inl same ↦
              let p : q ≡ pn = ground arith in
              let yes = subst (λ q. is_shared t q ≡ true) p shared in absurd (ground arith)
          | inr differs ↦ there (ground arith)
        ],
      )

  remapped-some :
      (perm : ℕ) (o old : Option Entry) (e : Entry)
      → o ≡ some e
      → remapped perm o old ≡ some (record { frame = e.frame; perm = bit_or 5 perm })
  remapped-some perm o old e h = ap (λ o. remapped perm o old) h

  pub AreGuarded-child :
      (i pn perm : ℕ) (v : Spaces)
      → bit_or 5 perm ≡ flags (t.uvpt pn)
      → AreGuarded pn v
      → AreGuarded (suc pn) (map_entry_of v (suc i) (pn * pgsize) perm (v.own (pn * pgsize)))
  AreGuarded-child i pn perm v same_flags h q e lt temp shared mapped =
      let va = pn * pgsize in
      let (kept, there) = h q e lt temp shared mapped in
      (
        (kept.0, own-map_child v i va perm (q * pgsize) (v.own va) ∙ kept.1),
        λ below. elim (Bool-cases (q == pn)) [
          | inl same ↦
              let p : q ≡ pn = ground arith in
              let own = subst (λ p. v.own (p * pgsize) ≡ some kept.0) p kept.1 in
              (
                kept.0.frame,
                ap (λ q. (map_entry_of v (suc i) va perm (v.own va)).child (q * pgsize)) p
                    ∙ child-map v i va perm (v.own va)
                    ∙ remapped-some perm (v.own va) (v.child va) kept.0 own
                    ∙ ap (λ p. some (record { frame = kept.0.frame; perm = p }))
                        (same_flags ∙ ap (λ q. flags (t.uvpt q)) (sym p)),
              )
          | inr differs ↦
              let c = there (ground arith) in
              let ne : q ≢ pn = ground arith in
              (c.0, ap (λ x. x.1) (at-map_other v (suc i) pn q perm (v.own va) ne) ∙ c.1)
        ],
      )

  pub AreGuarded-own :
      (m pn perm : ℕ) (v : Spaces)
      → AreGuarded m v
      → AreGuarded m (map_entry_of v 0 (pn * pgsize) perm (v.own (pn * pgsize)))
  AreGuarded-own m pn perm v h q e lt temp shared mapped =
      let va = pn * pgsize in
      let (kept, there) = h q e lt temp shared mapped in
      (
        elim (Bool-cases (q == pn)) [
          | inl same ↦
              let p : q ≡ pn = ground arith in
              let own = subst (λ p. v.own (p * pgsize) ≡ some kept.0) p kept.1 in
              (
                record { frame = kept.0.frame; perm = bit_or 5 perm },
                ap (λ q. (map_entry_of v 0 va perm (v.own va)).own (q * pgsize)) p
                    ∙ own-map v va perm (v.own va)
                    ∙ remapped-some perm (v.own va) (v.own va) kept.0 own,
              )
          | inr differs ↦
              let ne : q ≢ pn = ground arith in
              (kept.0, ap (λ x. x.0) (at-map_other v 0 pn q perm (v.own va) ne) ∙ kept.1)
        ],
        λ below.
            let c = there below in (c.0, child-map_own v va perm (q * pgsize) (v.own va) ∙ c.1),
      )
