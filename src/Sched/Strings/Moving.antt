-- ===== src/Sched/Strings/Moving.antt =====
-- What `memmove` does where its ranges overlap (sched/lib/string.c).
use tps_sis_ops.Base.{
  ℕ, zero, suc, ◌+◌, ◌-◌, ◌*◌, ◌/◌, ◌≤◌, ◌<◌, ◌≡◌, ◌⊎◌, refl, sym, ap, ap₂, ◌∙◌, inl, inr, ◌&&◌,
  ltb, Bool-cases, arith,
}
use tps_sis_ops.Sched.Strings.{moved, rep_movs_up, rep_movs_down, are_aligned, memmove}

-- Two moves one behind the other are one, if the first does not change what the second reads.
moved_up :
    (m : ℕ → ℕ) (d s w r j : ℕ)
    → (d ≤ s) ⊎ (s + w + r ≤ d)
    → moved (moved m d s w) (d + w) (s + w) r j ≡ moved m d s (w + r) j
moved_up m d s w r j (inl h) = ground arith
moved_up m d s w r j (inr h) = ground arith

moved_down :
    (m : ℕ → ℕ) (d s w r j : ℕ)
    → s < d
    → moved (moved m (d + r) (s + r) w) d s r j ≡ moved m d s (r + w) j
moved_down m d s w r j h = ground arith

units : (k w : ℕ) → suc k * w ≡ w + k * w
units k w = omega arith

rep_movs_up_lem :
    (w : ℕ) (m : ℕ → ℕ) (d s k j : ℕ)
    → (d ≤ s) ⊎ (s + k * w ≤ d)
    → rep_movs_up w m d s k j ≡ moved m d s (k * w) j
unfolding rep_movs_up
rep_movs_up_lem w m d s zero j h = ground arith
rep_movs_up_lem w m d s (suc k) j h =
    let n : suc k * w ≡ w + k * w = units k w in
    let apart : (d ≤ s) ⊎ (s + w + k * w ≤ d) = ground (arith, h, n) in
    let apart' : (d + w ≤ s + w) ⊎ (s + w + k * w ≤ d + w) = ground (arith, apart) in
    rep_movs_up_lem w (moved m d s w) (d + w) (s + w) k j apart'
    ∙ moved_up m d s w (k * w) j apart
    ∙ ap (λ r. moved m d s r j) (sym n)

-- `dd` and `ss` are the last units of the ranges.
rep_movs_down_lem :
    (w : ℕ) (m : ℕ → ℕ) (d s k j dd ss : ℕ)
    → s < d
    → dd ≡ d + k * w
    → ss ≡ s + k * w
    → rep_movs_down w m dd ss (suc k) j ≡ moved m d s (suc k * w) j
unfolding rep_movs_down
rep_movs_down_lem w m d s zero j dd ss h at_d at_s =
    let n : 1 * w ≡ w = omega arith in
    let here_d : dd ≡ d = omega (arith, at_d) in
    let here_s : ss ≡ s = omega (arith, at_s) in rw (here_d, here_s, n) refl
rep_movs_down_lem w m d s (suc k) j dd ss h at_d at_s =
    let n : suc k * w ≡ w + k * w = units k w in
    let n' : suc (suc k) * w ≡ suc k * w + w = omega (arith, units (suc k) w) in
    let next_d : dd - w ≡ d + k * w = omega (arith, at_d, n) in
    let next_s : ss - w ≡ s + k * w = omega (arith, at_s, n) in
    rep_movs_down_lem w (moved m dd ss w) d s k j (dd - w) (ss - w) h next_d next_s
    ∙ ap₂ (λ x y. moved (moved m x y w) d s (suc k * w) j) at_d at_s
    ∙ moved_down m d s w (suc k * w) j h
    ∙ ap (λ r. moved m d s r j) (sym n')

down_lem :
    (w : ℕ) (m : ℕ → ℕ) (dst src n k j : ℕ)
    → src < dst
    → 1 ≤ k
    → n ≡ k * w
    → rep_movs_down w m (dst + n - w) (src + n - w) k j ≡ moved m dst src n j
down_lem w m dst src n zero j h some_unit e = absurd (omega (arith, some_unit))
down_lem w m dst src n (suc k) j h some_unit e =
    let u : suc k * w ≡ w + k * w = units k w in
    rep_movs_down_lem w m dst src k j (dst + n - w) (src + n - w) h (omega (arith, e, u))
      (omega (arith, e, u))
    ∙ ap (λ r. moved m dst src r j) (sym e)

up_lem :
    (w : ℕ) (m : ℕ → ℕ) (dst src n k j : ℕ)
    → (dst ≤ src) ⊎ (src + n ≤ dst)
    → n ≡ k * w
    → rep_movs_up w m dst src k j ≡ moved m dst src n j
up_lem w m dst src n k j h e =
    let apart : (dst ≤ src) ⊎ (src + k * w ≤ dst) = ground (arith, h, e) in
    rep_movs_up_lem w m dst src k j apart ∙ ap (λ r. moved m dst src r j) (sym e)

-- Whether the ranges overlap or not, `memmove` moves the bytes that the source range has before
-- it, and changes no byte outside of the destination.
pub memmove_lem : (m : ℕ → ℕ) (dst src n j : ℕ) → memmove m dst src n j ≡ moved m dst src n j
unfolding memmove
memmove_lem m dst src n j = elim (Bool-cases (ltb src dst && ltb dst (src + n))) [
  | inl over ↦
      let h : src < dst = ground arith in
      let some_byte : 1 ≤ n = ground arith in
      elim (Bool-cases (are_aligned (src + n) (dst + n) n)) [
        | inl e ↦
            let quarter : n ≡ n / 4 * 4 = ground arith in
            rw (over, e) (down_lem 4 m dst src n (n / 4) j h (omega arith) quarter)
        | inr e ↦ rw (over, e) (down_lem 1 m dst src n n j h some_byte (omega arith))
      ]
  | inr apart ↦
      let h : (dst ≤ src) ⊎ (src + n ≤ dst) = ground arith in
      elim (Bool-cases (are_aligned src dst n)) [
        | inl e ↦
            let quarter : n ≡ n / 4 * 4 = ground arith in
            rw (apart, e) (up_lem 4 m dst src n (n / 4) j h quarter)
        | inr e ↦ rw (apart, e) (up_lem 1 m dst src n n j h (omega arith))
      ]
]
