-- ===== src/Sched/User/Rounds.antt =====
-- What the loop of `fork` over the pages brings about (sched/lib/fork.c).
use Prim.Native.Nat.{bit_or}
use mathlib.Core.Path.{subst}
use tps_sis_ops.Base.{
  ℕ, zero, suc, ◌+◌, ◌*◌, ◌<◌, ◌≡◌, ◌≢◌, refl, sym, ap, ap₂, ◌∙◌, inl, inr, Option, none, some,
  Bool, true, false, ◌==◌, ltb, if◌then◌else◌, Bool-cases, arith,
}
use tps_sis_ops.Base.Int.{ℤ}
use tps_sis_ops.Sched.Memory.{pgsize}
use tps_sis_ops.Sched.Syscalls.{map_page}
use tps_sis_ops.Sched.User.{
  Program, Tables, pte_cow, is_user, is_private, shared_perm, duppage, share_pages, exception_page,
}
use tps_sis_ops.Sched.User.Spaces.{
  Entry, Spaces, map_entry_of, Faulted, Withstands, must-Withstands,
}
use tps_sis_ops.Sched.User.Mappings.{
  is_shared, at, shared_at, round_at, remapped, child-map, own-map, own-map_child, child-map_own,
  at-map_other,
}
use tps_sis_ops.Sched.User.Guarded.{
  AreGuarded, AreGuarded-Faulted, AreGuarded-skip, AreGuarded-child, AreGuarded-own,
}

-- What `duppage` makes of its own page, whose entry is `o` at both calls.
shared_at-private :
    (pte : ℕ) (o c : Option Entry)
    → is_private pte ≡ true
    → (
      remapped (bit_or (shared_perm pte) pte_cow) o o,
      remapped (bit_or (shared_perm pte) pte_cow) o c,
    )
      ≡ shared_at pte (o, c)
shared_at-private pte none c e = refl
shared_at-private pte (some x) c e = rw e refl

shared_at-read :
    (pte : ℕ) (o c : Option Entry)
    → is_private pte ≡ false
    → (o, remapped (shared_perm pte) o c) ≡ shared_at pte (o, c)
shared_at-read pte none c e = refl
shared_at-read pte (some x) c e = rw e refl

module _ (is_written : ℕ → Bool) (t : Tables) (v0 : Spaces) where
  -- The pages below `pn` are as the loop makes them of `v0`, and the others as there, but for those
  -- that page faults change.
  abbrev pub Reached : ℕ → Spaces → Type 0
  Reached pn v =
      (q : ℕ)
      → q < exception_page
      → is_written q ≡ false
      → at v (q * pgsize)
        ≡ (if ltb q pn then round_at t q (at v0 (q * pgsize)) else at v0 (q * pgsize))

  at-Faulted :
      (v w : Spaces) (q : ℕ)
      → Faulted is_written v w
      → is_written q ≡ false
      → at w (q * pgsize) ≡ at v (q * pgsize)
  at-Faulted v w q f clean = ap₂ (λ a b. (a, b)) (f.own_kept q clean) (f.child_kept (q * pgsize))

  pub Reached-Faulted :
      (pn : ℕ) (v w : Spaces) → Reached pn v → Faulted is_written v w → Reached pn w
  Reached-Faulted pn v w h f q lt clean = at-Faulted v w q f clean ∙ h q lt clean

  -- A round that changes its own page as it should, and no other.
  Reached-round :
      (pn : ℕ) (v w : Spaces)
      → Reached pn v
      → ((q : ℕ) → q ≢ pn → is_written q ≡ false → at w (q * pgsize) ≡ at v (q * pgsize))
      → (is_written pn ≡ false → at w (pn * pgsize) ≡ round_at t pn (at v (pn * pgsize)))
      → Reached (suc pn) w
  Reached-round pn v w h other own q lt clean = elim (Bool-cases (q == pn)) [
    | inl e ↦
        let p : pn ≡ q = ground arith in
        let in_loop : ltb q (suc pn) ≡ true = ground arith in
        let before : ltb q pn ≡ false = ground arith in
        let clean' : is_written pn ≡ false = rw p clean in
        let h' : at v (q * pgsize) ≡ at v0 (q * pgsize) = h q lt clean ∙ rw before refl in
        subst (λ p. at w (p * pgsize) ≡ round_at t p (at v (p * pgsize))) p (own clean')
        ∙ ap (round_at t q) h'
        ∙ rw in_loop refl
    | inr e ↦
        let ne : q ≢ pn = ground arith in
        let same : ltb q (suc pn) ≡ ltb q pn = ground arith in
        other q ne clean ∙ h q lt clean ∙ rw same refl
  ]

  Reached-skip : (pn : ℕ) (v : Spaces) → is_shared t pn ≡ false → Reached pn v → Reached (suc pn) v
  Reached-skip pn v e h = Reached-round pn v v h (λ q ne clean. refl) (λ clean. rw e refl)

  Reached-read :
      (i pn : ℕ) (v w : Spaces)
      → is_shared t pn ≡ true
      → is_private (t.uvpt pn) ≡ false
      → Reached pn v
      → Faulted is_written v w
      → Reached
          (suc pn)
          (map_entry_of w (suc i) (pn * pgsize) (shared_perm (t.uvpt pn)) (w.own (pn * pgsize)))
  Reached-read i pn v w shared e h f =
      let va = pn * pgsize in
      let o = w.own va in
      let y = map_entry_of w (suc i) va (shared_perm (t.uvpt pn)) o in
      Reached-round pn w y (Reached-Faulted pn v w h f)
        (λ q ne clean. at-map_other w (suc i) pn q (shared_perm (t.uvpt pn)) o ne)
        (λ clean. rw shared (
          ap₂ (λ a b. (a, b)) (own-map_child w i va _ va o) (child-map w i va _ o)
          ∙ shared_at-read (t.uvpt pn) o (w.child va) e))

  Reached-private :
      (i pn : ℕ) (v w x : Spaces)
      → is_shared t pn ≡ true
      → is_private (t.uvpt pn) ≡ true
      → Reached pn v
      → Faulted is_written v w
      → let cow = bit_or (shared_perm (t.uvpt pn)) pte_cow in
        Faulted is_written (map_entry_of w (suc i) (pn * pgsize) cow (w.own (pn * pgsize))) x
        → Reached (suc pn) (map_entry_of x 0 (pn * pgsize) cow (x.own (pn * pgsize)))
  Reached-private i pn v w x shared e h f g =
      let va = pn * pgsize in
      let cow = bit_or (shared_perm (t.uvpt pn)) pte_cow in
      let o = w.own va in
      let y = map_entry_of w (suc i) va cow o in
      let z = map_entry_of x 0 va cow (x.own va) in
      Reached-round pn w z (Reached-Faulted pn v w h f)
        (λ q ne clean.
          at-map_other x 0 pn q cow (x.own va) ne
          ∙ at-Faulted y x q g clean
          ∙ at-map_other w (suc i) pn q cow o ne)
        (λ clean.
          let same : x.own va ≡ o = g.own_kept pn clean ∙ own-map_child w i va cow va o in
          rw shared (
            ap₂ (λ a b. (a, b)) (own-map x va cow (x.own va) ∙ ap (λ o. remapped cow o o) same)
              (child-map_own x va cow va (x.own va) ∙ g.child_kept va ∙ child-map w i va cow o)
            ∙ shared_at-private (t.uvpt pn) o (w.child va) e))

  -- What the loop keeps.
  abbrev pub Kept : ℕ → Spaces → Type 0
  Kept pn v = Reached pn v × AreGuarded is_written t v0 pn v

  pub Kept-Faulted : (pn : ℕ) (v w : Spaces) → Kept pn v → Faulted is_written v w → Kept pn w
  Kept-Faulted pn v w h f =
      (Reached-Faulted pn v w h.0 f, AreGuarded-Faulted is_written t v0 pn v w h.1 f)

  module _ (post : Spaces → ℤ → Type 0) where
    duppage-Withstands :
        (i pn : ℕ) (v : Spaces) (rest : Program)
        → is_user (t.uvpt pn) ≡ true
        → is_shared t pn ≡ true
        → Kept pn v
        → ((w : Spaces) → Kept (suc pn) w → Withstands is_written post w rest)
        → Withstands is_written post v (duppage t (suc i) pn rest)
    unfolding duppage
    duppage-Withstands i pn v rest user shared h next =
        let va = pn * pgsize in
        let perm = shared_perm (t.uvpt pn) in
        let cow = bit_or perm pte_cow in
        elim (Bool-cases (is_private (t.uvpt pn))) [
          | inl e ↦
              rw (user, e)
                (must-Withstands is_written post (map_page 0 va (suc i) va cow) v _
                  (λ v. (refl, (λ n. refl), (λ n. refl)))
                  λ w f.
                    must-Withstands is_written post (map_page 0 va 0 va cow) _ rest
                      (λ v. (refl, (λ n. refl), (λ n. refl)))
                      λ x g. next _ (
                        Reached-private i pn v w x shared e h.0 f g,
                        AreGuarded-own is_written t v0 (suc pn) pn cow x (
                            AreGuarded-Faulted is_written t v0 (suc pn) _ x
                              (AreGuarded-child is_written t v0 i pn cow w (rw e refl)
                                (AreGuarded-Faulted is_written t v0 pn v w h.1 f))
                              g),
                      ))
          | inr e ↦
              rw (user, e)
                (must-Withstands is_written post (map_page 0 va (suc i) va perm) v rest
                  (λ v. (refl, (λ n. refl), (λ n. refl)))
                  λ w f. next _ (
                    Reached-read i pn v w shared e h.0 f,
                    AreGuarded-child is_written t v0 i pn perm w (rw e refl)
                        (AreGuarded-Faulted is_written t v0 pn v w h.1 f),
                  ))
        ]

    -- The loop, from page `pn` on.
    pub share_pages-Withstands :
        (i n pn : ℕ) (v : Spaces) (rest : Program)
        → Kept pn v
        → ((w : Spaces) → Kept (n + pn) w → Withstands is_written post w rest)
        → Withstands is_written post v (share_pages t (suc i) n pn rest)
    unfolding share_pages
    share_pages-Withstands i zero pn v rest h next =
        let start : 0 + pn ≡ pn = omega arith in next v (subst (λ m. Kept m v) (sym start) h)
    share_pages-Withstands i (suc n) pn v rest h next =
        let last : n + suc pn ≡ suc n + pn = omega arith in
        let next' : (w : Spaces) → Kept (n + suc pn) w → Withstands is_written post w rest =
          subst (λ m. (w : Spaces) → Kept m w → Withstands is_written post w rest) (sym last)
            next in
        elim (Bool-cases (is_shared t pn)) [
          | inl e ↦
              let user : is_user (t.uvpt pn) ≡ true = ground arith in
              rw e (
                duppage-Withstands i pn v _ user e h
                  λ w h'. share_pages-Withstands i n (suc pn) w rest h' next')
          | inr e ↦ rw e (
              share_pages-Withstands i n (suc pn) v rest
                (Reached-skip pn v e h.0, AreGuarded-skip is_written t v0 pn v e h.1) next')
        ]
