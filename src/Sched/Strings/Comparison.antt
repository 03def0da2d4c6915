-- ===== src/Sched/Strings/Comparison.antt =====
-- `strcmp` as an order of the strings (sched/lib/string.c).
use mathlib.Core.Path.{subst}
use tps_sis_ops.Base.{
  ℕ, zero, suc, ◌-◌, ◌≤◌, ◌≡◌, ◌≢◌, ◌↔◌, refl, sym, ap, ap₂, ◌∙◌, inl, inr, true, false, List, [],
  ◌∷◌, ltb, ◌==◌, if◌then◌else◌, Bool-cases, arith,
}
use tps_sis_ops.Base.Int.{ℤ, pos, negsuc}
use tps_sis_ops.Sched.Strings.{minus, strcmp}

-- No byte is 0.
abbrev pub IsText : List ℕ → Type 0
IsText [] = Unit
IsText (x ∷ s) = (1 ≤ x) × IsText s

abbrev pub negated : ℤ → ℤ
negated (pos zero) = pos 0
negated (pos (suc n)) = negsuc n
negated (negsuc n) = pos (suc n)

abbrev value_of : ℤ → ℕ
value_of (pos n) = n
value_of (negsuc n) = suc n

minus-apart : (a b : ℕ) → (a == b) ≡ false → minus a b ≢ pos 0
minus-apart a b h e = elim (Bool-cases (ltb a b)) [
  | inl below ↦
      let other : negsuc (b - a - 1) ≡ pos 0 =
        subst (λ t. (if t then negsuc (b - a - 1) else pos (a - b)) ≡ pos 0) below e in
      cc
  | inr above ↦
      let same : pos (a - b) ≡ pos 0 =
        subst (λ t. (if t then negsuc (b - a - 1) else pos (a - b)) ≡ pos 0) above e in
      let none : a - b ≡ 0 = ap value_of same in ground arith
]

negated-pos : (n : ℕ) → 1 ≤ n → negated (pos n) ≡ negsuc (n - 1)
negated-pos zero h = absurd (omega (arith, h))
negated-pos (suc n) h = ap negsuc (omega arith)

negated-minus : (a b : ℕ) → (a == b) ≡ false → minus b a ≡ negated (minus a b)
negated-minus a b h = elim (Bool-cases (ltb a b)) [
  | inl below ↦
      let above : ltb b a ≡ false = ground arith in
      let n : b - a ≡ suc (b - a - 1) = ground arith in rw (below, above) (ap pos n)
  | inr above ↦
      let below : ltb b a ≡ true = ground arith in
      let some_byte : 1 ≤ a - b = ground arith in
      rw (below, above) (sym (negated-pos (a - b) some_byte))
]

-- What is said of the result for two strings.
abbrev IsOrdered : List ℕ → List ℕ → Type 0
IsOrdered p q = ((strcmp p q ≡ pos 0) ↔ (p ≡ q)) × (strcmp q p ≡ negated (strcmp p q))

apart_lem :
    (p q : List ℕ) (a b : ℕ)
    → (a == b) ≡ false
    → p ≢ q
    → strcmp p q ≡ minus a b
    → strcmp q p ≡ minus b a
    → IsOrdered p q
apart_lem p q a b h other e e' = (
  ((λ z. absurd (minus-apart a b h (sym e ∙ z))), (λ z. absurd (other z))),
  e' ∙ negated-minus a b h ∙ ap negated (sym e),
)

abbrev first : List ℕ → ℕ
first [] = 0
first (x ∷ s) = x

abbrev behind_first : List ℕ → List ℕ
behind_first [] = []
behind_first (x ∷ s) = s

-- `strcmp` gives 0 exactly for equal strings, and the negated result for exchanged arguments.
pub strcmp_lem :
    (p q : List ℕ)
    → IsText p
    → IsText q
    → ((strcmp p q ≡ pos 0) ↔ (p ≡ q)) × (strcmp q p ≡ negated (strcmp p q))
unfolding strcmp
strcmp_lem [] [] hp hq = (((λ z. refl), (λ z. refl)), refl)
strcmp_lem [] (y ∷ q) hp hq =
    let h : (0 == y) ≡ false = ground (arith, hq.0) in
    apart_lem [] (y ∷ q) 0 y h (λ z. cc) refl refl
strcmp_lem (x ∷ p) [] hp hq =
    let h : (x == 0) ≡ false = ground (arith, hp.0) in
    apart_lem (x ∷ p) [] x 0 h (λ z. cc) refl refl
strcmp_lem (x ∷ p) (y ∷ q) hp hq = elim (Bool-cases (x == y)) [
  | inl e ↦
      let e' : (y == x) ≡ true = ground arith in
      let same : x ≡ y = ground arith in
      let rest = strcmp_lem p q hp.1 hq.1 in
      rw (e, e')
        (((λ z. ap₂ (λ a s. a ∷ s) same (rest.0.0 z)), (λ z. rest.0.1 (ap behind_first z))), rest.1)
  | inr e ↦
      let e' : (y == x) ≡ false = ground arith in
      let other : (x ∷ p) ≢ (y ∷ q) = λ z. let f : x ≡ y = ap first z in ground arith in
      apart_lem (x ∷ p) (y ∷ q) x y e other (rw e refl) (rw e' refl)
]
