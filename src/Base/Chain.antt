-- ===== src/Base/Chain.antt =====
-- Linked lists through an array: the links from a head on visit the given indices, none twice.
use mathlib.Core.Path.{subst}
use Prim.Native.Nat.{ℕ}
use mathlib.Core.Path.{◌≡◌, sym}
use mathlib.Core.Bool.{Bool, true, false, ◌||◌}
use mathlib.Core.Option.{Option, none, some}
use mathlib.Core.List.{List, [], ◌∷◌}
use native.Mathlib.Omega.{arith}
use tps_sis_ops.Base.Tests.{◌==◌}

abbrev pub occurs : ℕ → List ℕ → Bool
occurs i [] = false
occurs i (x ∷ xs) = (i == x) || occurs i xs

abbrev pub Chain : (ℕ → Option ℕ) → Option ℕ → List ℕ → Type 0
Chain link head [] = head ≡ none
Chain link head (i ∷ xs) = (head ≡ some i) × (occurs i xs ≡ false) × Chain link (link i) xs

-- Links that agree on the indices visited make the same chain.
pub Chain-ext :
    (link link' : ℕ → Option ℕ) (head : Option ℕ) (xs : List ℕ)
    → ((j : ℕ) → occurs j xs ≡ true → link' j ≡ link j)
    → Chain link head xs
    → Chain link' head xs
Chain-ext link link' head [] same c = c
Chain-ext link link' head (x ∷ xs) same (at, fresh, c) = (
  at,
  fresh,
  subst (λ h. Chain link' h xs) (sym (same x (ground arith)))
      (Chain-ext link link' (link x) xs (λ j h. same j (ground arith)) c),
)
