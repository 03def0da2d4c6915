-- ===== src/Fisopfs/Handlers/Content.antt =====
-- `memset` and `memcpy` on the array `data` of an inode (fisopfs/fisopfs.c).
use tps_sis_ops.Base.{
  ℕ, zero, suc, ◌+◌, ◌-◌, ◌≤◌, ◌≡◌, refl, sym, ap, ap₂, ◌∙◌, List, [], ◌∷◌, ◌++◌, some, false, ltb,
  arith, length, take, drop, replicate, length-append, length-take, length-drop, length-replicate,
}
use tps_sis_ops.Fisopfs.Table.Invariant.{AreZeros}
use tps_sis_ops.Fisopfs.Handlers.{memset_zero, memcpy_at}

module _ {A : Type 0} where
  pub drop-nil : (n : ℕ) → drop {A = A} n [] ≡ []
  drop-nil zero = refl
  drop-nil (suc n) = refl

  pub take-nil : (n : ℕ) → take {A = A} n [] ≡ []
  take-nil zero = refl
  take-nil (suc n) = refl

  pub drop-append : (s t : List A) (k j : ℕ) → k ≡ length s + j → drop k (s ++ t) ≡ drop j t
  drop-append [] t k j e = let e' : k ≡ j = omega arith in rw e'
  drop-append (x ∷ s) t zero j e = absurd (omega arith)
  drop-append (x ∷ s) t (suc k) j e = drop-append s t k j (omega arith)

  pub take-append : (s t : List A) (k : ℕ) → k ≡ length s → take k (s ++ t) ≡ s
  take-append [] t zero e = refl
  take-append [] t (suc k) e = absurd (omega arith)
  take-append (x ∷ s) t zero e = absurd (omega arith)
  take-append (x ∷ s) t (suc k) e = ap (◌∷◌ x) (take-append s t k (omega arith))

  pub drop-drop : (m n k : ℕ) (s : List A) → k ≡ n + m → drop m (drop n s) ≡ drop k s
  drop-drop m zero k s e = let e' : m ≡ k = omega arith in rw e'
  drop-drop m (suc n) zero s e = absurd (omega arith)
  drop-drop m (suc n) (suc k) [] e = drop-nil m
  drop-drop m (suc n) (suc k) (x ∷ s) e = drop-drop m n k s (omega arith)

  pub take-drop : (n : ℕ) (s : List A) → take n s ++ drop n s ≡ s
  take-drop zero s = refl
  take-drop (suc n) [] = refl
  take-drop (suc n) (x ∷ s) = ap (◌∷◌ x) (take-drop n s)

-- A block of zeros in front of what follows it.
zeros_front : (n : ℕ) (s : List ℕ) → AreZeros s → n ≤ length s → replicate n 0 ++ drop n s ≡ s
zeros_front zero s z h = refl
zeros_front (suc n) [] z h = absurd (omega arith)
zeros_front (suc n) (x ∷ s) z h = ap₂ ◌∷◌ (sym z.0) (zeros_front n s z.1 (omega arith))

-- Clearing what is zero changes nothing.
pub memset_zero-id :
    (a : List ℕ) (start count : ℕ)
    → AreZeros (drop start a)
    → start + count ≤ length a
    → memset_zero a start count ≡ some a
unfolding memset_zero
memset_zero-id a start count z h =
    let fits : ltb (length a) (start + count) ≡ false = ground arith in
    rw fits (
      ap some (
        ap (λ (t : List ℕ). take start a ++ (replicate count 0 ++ t))
          (sym (drop-drop count start (start + count) a refl))
        ∙ ap (λ (t : List ℕ). take start a ++ t)
            (zeros_front count (drop start a) z (omega (arith, length-drop start a)))
        ∙ take-drop start a))

AreZeros-append : (n : ℕ) (s : List ℕ) → AreZeros s → AreZeros (replicate n 0 ++ s)
AreZeros-append zero s z = z
AreZeros-append (suc n) s z = (refl, AreZeros-append n s z)

-- An array with a part of it overwritten by `bytes`.
abbrev pub splice : List ℕ → ℕ → List ℕ → List ℕ
splice a start bytes = take start a ++ (bytes ++ drop (start + length bytes) a)

module _ (a : List ℕ) (start : ℕ) (bytes : List ℕ) (fits : start + length bytes ≤ length a) where
  front : length (take start a) ≡ start
  front = omega (arith, length-take start a)

  pub length-splice : length (splice a start bytes) ≡ length a
  length-splice = omega (
    arith,
    front,
    length-append (take start a) (bytes ++ drop (start + length bytes) a),
    length-append bytes (drop (start + length bytes) a),
    length-drop (start + length bytes) a,
  )

  -- Behind the written part the array is as it was.
  pub drop-splice : (k : ℕ) → start + length bytes ≤ k → drop k (splice a start bytes) ≡ drop k a
  drop-splice k h =
      drop-append (take start a) _ k (k - start) (omega (arith, front))
      ∙ drop-append bytes _ (k - start) (k - start - length bytes) (omega arith)
      ∙ drop-drop (k - start - length bytes) (start + length bytes) k a (omega arith)

  -- In front of it too.
  pub take-splice : take start (splice a start bytes) ≡ take start a
  take-splice = take-append (take start a) _ start (sym front)

  -- And the written part reads back.
  pub read-splice : take (length bytes) (drop start (splice a start bytes)) ≡ bytes
  read-splice =
      ap (take (length bytes)) (drop-append (take start a) _ start 0 (omega (arith, front)))
      ∙ take-append bytes _ (length bytes) refl

  pub memcpy_at-splice : memcpy_at a start bytes ≡ some (splice a start bytes)
  unfolding memcpy_at
  memcpy_at-splice = let e : ltb (length a) (start + length bytes) ≡ false = ground arith in rw e

-- Clearing from `start` up to what is zero already.
pub memset_zero-rest :
    (a : List ℕ) (start count : ℕ)
    → AreZeros (drop (start + count) a)
    → start + count ≤ length a
    → (b : List ℕ) × (memset_zero a start count ≡ some b)
      × (length b ≡ length a)
      × AreZeros (drop start b)
      × (take start b ≡ take start a)
unfolding memset_zero
memset_zero-rest a start count z h =
    let e : ltb (length a) (start + count) ≡ false = ground arith in
    let b : List ℕ = take start a ++ (replicate count 0 ++ drop (start + count) a) in
    let front = length-take start a in
    (
      b,
      rw e,
      omega (
        arith,
        front,
        length-append (take start a) (replicate count 0 ++ drop (start + count) a),
        length-append (replicate count 0) (drop (start + count) a),
        length-replicate {A = ℕ} count 0,
        length-drop (start + count) a,
      ),
      rw
          (drop-append (take start a) (replicate count 0 ++ drop (start + count) a) start 0
            (omega (arith, front)))
          (AreZeros-append count (drop (start + count) a) z),
      take-append (take start a) _ start (omega arith),
    )
