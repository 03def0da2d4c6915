-- ===== src/Base/Search.antt =====
-- `for (i = 0; i < n; i++) if (p(i)) return i;` over an array that is a function of its index.
use Prim.Native.Nat.{ℕ, zero, suc, ◌+◌, ◌≤◌, ◌<◌}
use mathlib.Core.Path.{◌≡◌, refl, ap, ◌∙◌}
use mathlib.Core.Logic.{inl, inr}
use mathlib.Core.Bool.{Bool, true, false}
use mathlib.Core.Option.{Option, none, some}
use native.Mathlib.Omega.{arith}
use tps_sis_ops.Base.Tests.{◌==◌, if◌then◌else◌, Bool-cases, Option-cases}

-- `n` rounds, from index `i` on.
unfoldable pub find_from : (ℕ → Bool) → ℕ → ℕ → Option ℕ
find_from p zero i = none
find_from p (suc n) i = let rest = find_from p n (i + 1) in if p i then some i else rest

-- `a[i] = v`.
abbrev pub update {ℓ} : {A : Type ℓ} → (ℕ → A) → ℕ → A → ℕ → A
update f i v j = if j == i then v else f j

-- What is found satisfies the test, lies in the range, and is the first such index.
pub record Found (p : ℕ → Bool) (n i k : ℕ) : Type 0 where
  pub holds : p k ≡ true
  pub above : i ≤ k
  pub below : k < i + n
  pub first : (j : ℕ) → i ≤ j → j < k → p j ≡ false

Found-shift : (p : ℕ → Bool) (n i k : ℕ) → p i ≡ false → Found p n (i + 1) k → Found p (suc n) i k
Found-shift p n i k miss f = record {
  holds = f.holds;
  above = omega (arith, f.above);
  below = omega (arith, f.below);
  first = λ j lo hi. elim (Bool-cases (j == i)) [
    | inl e ↦ ground arith
    | inr e ↦ f.first j (ground arith) hi
  ];
}

pub find_from-Found : (p : ℕ → Bool) (n i : ℕ) (k : ℕ) → find_from p n i ≡ some k → Found p n i k
unfolding find_from
find_from-Found p zero i k h = cc
find_from-Found p (suc n) i k h = elim (Bool-cases (p i)) [
  | inl hit ↦
      let e : i ≡ k = ground arith in
      record {
        holds = ground arith;
        above = omega arith;
        below = omega arith;
        first = λ j lo hi. absurd (omega arith);
      }
  | inr miss ↦ Found-shift p n i k miss (find_from-Found p n (i + 1) k (ground arith))
]

-- Nothing is found exactly if the test fails on the whole range.
pub find_from-none :
    (p : ℕ → Bool) (n i j : ℕ) → find_from p n i ≡ none → i ≤ j → j < i + n → p j ≡ false
unfolding find_from
find_from-none p zero i j h lo hi = absurd (omega arith)
find_from-none p (suc n) i j h lo hi = elim (Bool-cases (p i)) [
  | inl hit ↦ ground arith
  | inr miss ↦ elim (Bool-cases (j == i)) [
    | inl e ↦ ground arith
    | inr e ↦ find_from-none p n (i + 1) j (ground arith) (ground arith) (omega arith)
  ]
]

pub find_from-all_false :
    (p : ℕ → Bool) (n i : ℕ) → ((j : ℕ) → i ≤ j → j < i + n → p j ≡ false) → find_from p n i ≡ none
unfolding find_from
find_from-all_false p zero i h = refl
find_from-all_false p (suc n) i h =
    rw (h i (omega arith) (omega arith))
      (find_from-all_false p n (i + 1) λ j lo hi. h j (omega arith) (omega arith))

-- The search returns `k` if `k` is the only index of the range that passes the test.
pub find_from_unique :
    (p : ℕ → Bool) (n i k : ℕ)
    → p k ≡ true
    → i ≤ k
    → k < i + n
    → ((j : ℕ) → i ≤ j → j < i + n → p j ≡ true → j ≡ k)
    → find_from p n i ≡ some k
find_from_unique p n i k hit lo hi only = elim (Option-cases (find_from p n i)) [
  | inl e ↦ let miss : p k ≡ false = find_from-none p n i k e lo hi in cc
  | inr (j, e) ↦ let f = find_from-Found p n i j e in e ∙ ap some (only j f.above f.below f.holds)
]

-- Two tests that agree on the range find the same index.
pub find_from_ext :
    (p q : ℕ → Bool) (n i : ℕ)
    → ((j : ℕ) → i ≤ j → j < i + n → p j ≡ q j)
    → find_from p n i ≡ find_from q n i
unfolding find_from
find_from_ext p q zero i h = refl
find_from_ext p q (suc n) i h = rw (
  h i (omega arith) (omega arith),
  find_from_ext p q n (i + 1) λ j lo hi. h j (omega arith) (omega arith),
)
