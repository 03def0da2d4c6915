-- ===== src/Fork/Primes/Sieve.antt =====
-- The sieve of fork/primes.c prints the primes.
use mathlib.Core.Path.{subst}
use native.Mathlib.Nat.{le_of_dvd, dvd_trans, mod-eq-zero_of_dvd, dvd_of_mod-eq-zero}
use tps_sis_ops.Base.{
  ℕ, zero, suc, ◌+◌, ◌-◌, ◌%◌, ◌≤◌, ◌<◌, ◌≡◌, ◌≢◌, inl, inr, refl, sym, ap, ◌∙◌, some, Bool, true,
  false, ◌&&◌, ◌||◌, not, List, [], ◌∷◌, ◌++◌, length, ltb, leb, ◌==◌, if◌then◌else◌, Bool-cases,
  arith,
}
use tps_sis_ops.Base.Int.{ℤ, pos}
use tps_sis_ops.Base.Chain.{occurs}
use tps_sis_ops.Fork.Primes.{
  filtrar, cadena_pipes, cadena_bufer, escribir, numeros, primes, primes_bufer,
}

-- No number from 2 on and below `b` divides `i`.
abbrev pub IsRough : ℕ → ℕ → Type 0
IsRough b i = (d : ℕ) → 2 ≤ d → d < b → i % d ≢ 0

abbrev pub IsPrime : ℕ → Type 0
IsPrime i = (2 ≤ i) × IsRough i i

-- The numbers ascend, from `b` on.
abbrev pub IsAscending : ℕ → List ℕ → Type 0
IsAscending b [] = Unit
IsAscending b (x ∷ xs) = (b ≤ x) × IsAscending (suc x) xs

-- What a process reads whose ancestors have sifted by all numbers below `b`.
record Sifted (b n : ℕ) (xs : List ℕ) : Type 0 where
  ascending : IsAscending b xs
  rough : (i : ℕ) → occurs i xs ≡ true → (i ≤ n) × IsRough b i
  complete : (i : ℕ) → b ≤ i → i ≤ n → IsRough b i → occurs i xs ≡ true

IsAscending-lower : (a b : ℕ) (xs : List ℕ) → a ≤ b → IsAscending b xs → IsAscending a xs
IsAscending-lower a b [] le h = tt
IsAscending-lower a b (x ∷ xs) le (low, h) = (omega (arith, le, low), h)

occurs-from : (b i : ℕ) (xs : List ℕ) → IsAscending b xs → occurs i xs ≡ true → b ≤ i
occurs-from b i [] a h = cc
occurs-from b i (x ∷ xs) (low, a) h = elim (Bool-cases (i == x)) [
  | inl e ↦ let p : i ≡ x = ground arith in omega (arith, p, low)
  | inr e ↦ let r = occurs-from (suc x) i xs a (ground arith) in omega (arith, r, low)
]

occurs-filtrar :
    (p i : ℕ) (ns : List ℕ) → occurs i (filtrar p ns) ≡ (occurs i ns && not (i % p == 0))
unfolding filtrar
occurs-filtrar p i [] = refl
occurs-filtrar p i (n ∷ ns) = elim (Bool-cases (n % p == 0)) [
  | inl e ↦ rw e (
      occurs-filtrar p i ns ∙ elim (Bool-cases (i == n)) [
        | inl s ↦
            let q : i ≡ n = ground arith in
            let m : (i % p == 0) ≡ true = rw q e in rw m (ground arith)
        | inr s ↦ rw s refl
      ])
  | inr e ↦ rw e (
      ap (λ b. (i == n) || b) (occurs-filtrar p i ns) ∙ elim (Bool-cases (i == n)) [
        | inl s ↦
            let q : i ≡ n = ground arith in let m : (i % p == 0) ≡ false = rw q e in rw (m, s) refl
        | inr s ↦ rw s refl
      ])
]

IsAscending-filtrar : (p b : ℕ) (ns : List ℕ) → IsAscending b ns → IsAscending b (filtrar p ns)
unfolding filtrar
IsAscending-filtrar p b [] a = tt
IsAscending-filtrar p b (n ∷ ns) (low, a) = elim (Bool-cases (n % p == 0)) [
  | inl e ↦
      rw e (IsAscending-filtrar p b ns (IsAscending-lower b (suc n) ns (omega (arith, low)) a))
  | inr e ↦ rw e (low, IsAscending-filtrar p (suc n) ns a)
]

-- A divisor of a rough number is rough.
IsRough-divisor : (b i d : ℕ) → IsRough b i → i % d ≡ 0 → IsRough b d
IsRough-divisor b i d rough div e two lt h =
    rough e two lt
      (mod-eq-zero_of_dvd _ (dvd_trans _ (dvd_of_mod-eq-zero _ h) (dvd_of_mod-eq-zero _ div)))

module _ (b n p : ℕ) (ns : List ℕ) (s : Sifted b n (p ∷ ns)) where
  -- Of the numbers that are not divided below `b`, none is divided below the first.
  IsRough-head : (i : ℕ) → 0 < i → i ≤ n → IsRough b i → IsRough p i
  IsRough-head i positive le rough d two lt h = elim (Bool-cases (ltb d b)) [
    | inl below ↦ rough d two (ground arith) h
    | inr above ↦
        let small : d ≤ i = le_of_dvd positive (dvd_of_mod-eq-zero _ h) in
        let there =
          s.complete d (ground arith) (omega (arith, small, le)) (IsRough-divisor b i d rough h) in
        let late = occurs-from p d (p ∷ ns) (omega arith, s.ascending.1) there in
        absurd (omega (arith, late, lt))
  ]

  head-IsPrime : 2 ≤ b → (p ≤ n) × IsPrime p
  head-IsPrime two =
      let low = s.ascending.0 in
      let here = s.rough p (ground arith) in
      (here.0, (omega (arith, two, low), IsRough-head p (omega (arith, two, low)) here.0 here.1))

  filtrar-Sifted : 2 ≤ b → Sifted (suc p) n (filtrar p ns)
  filtrar-Sifted two =
      let low = s.ascending.0 in
      record {
        ascending = IsAscending-filtrar p (suc p) ns s.ascending.1;
        rough = λ i h.
            let o = sym (occurs-filtrar p i ns) ∙ h in
            let old = s.rough i (ground arith) in
            let late = occurs-from (suc p) i ns s.ascending.1 (ground arith) in
            (
              old.0,
              λ d two' lt. elim (Bool-cases (d == p)) [
                | inl e ↦ let q : d ≡ p = ground arith in rw q (λ z. ground arith)
                | inr e ↦ IsRough-head i (omega (arith, late)) old.0 old.1 d two' (ground arith)
              ],
            );
        complete = λ i late le rough.
            let old =
              s.complete i (omega (arith, late, low)) le
                (λ d two' lt. rough d two' (omega (arith, lt, low))) in
            let kept = rough p (omega (arith, two, low)) (omega arith) in
            occurs-filtrar p i ns ∙ ground arith;
      }

length-filtrar : (p : ℕ) (ns : List ℕ) → length (filtrar p ns) ≤ length ns
unfolding filtrar
length-filtrar p [] = omega arith
length-filtrar p (n ∷ ns) =
    let r = length-filtrar p ns in
    elim (Bool-cases (n % p == 0)) [
      | inl e ↦ rw e (omega (arith, r))
      | inr e ↦ rw e (omega (arith, r))
    ]

-- What a process that reads sifted numbers prints, with those below it.
record Prints (falla : ℕ → Bool) (b n : ℕ) (out : List ℕ) : Type 0 where
  ascending : IsAscending b out
  prime : (i : ℕ) → occurs i out ≡ true → (i ≤ n) × IsPrime i
  every : ((d : ℕ) → falla d ≡ false) → (i : ℕ) → b ≤ i → i ≤ n → IsPrime i → occurs i out ≡ true

Prints-cons :
    (falla : ℕ → Bool) (b n p d : ℕ) (ns out : List ℕ)
    → 2 ≤ b
    → Sifted b n (p ∷ ns)
    → Prints falla (suc p) n out
    → Prints falla b n (p ∷ (if falla d then [] else out))
Prints-cons falla b n p d ns out two s o =
    let first = head-IsPrime b n p ns s two in
    elim (Bool-cases (falla d)) [
      | inl fails ↦ rw fails record {
        ascending = (s.ascending.0, tt);
        prime = λ i h. let q : p ≡ i = ground arith in subst (λ i. (i ≤ n) × IsPrime i) q first;
        every = λ fine. let e = sym fails ∙ fine d in cc;
      }
      | inr runs ↦ rw runs record {
        ascending = (s.ascending.0, o.ascending);
        prime = λ i h. elim (Bool-cases (i == p)) [
          | inl e ↦ let q : p ≡ i = ground arith in subst (λ i. (i ≤ n) × IsPrime i) q first
          | inr e ↦ o.prime i (ground arith)
        ];
        every = λ fine i low le prime. elim (Bool-cases (i == p)) [
          | inl e ↦ rw e refl
          | inr e ↦
              let there =
                s.complete i low le (λ d two' lt. prime.1 d two' (omega (arith, lt, low))) in
              let after = occurs-from (suc p) i ns s.ascending.1 (ground arith) in
              rw e (o.every fine i after le prime)
        ];
      }
    ]

cadena_pipes-Prints :
    (falla : ℕ → Bool) (f d b n : ℕ) (xs : List ℕ)
    → length xs ≤ f
    → 2 ≤ b
    → Sifted b n xs
    → Prints falla b n (cadena_pipes falla f d xs)
unfolding cadena_pipes
cadena_pipes-Prints falla zero d b n [] enough two s = record {
  ascending = tt;
  prime = λ i h. cc;
  every = λ fine i low le prime.
      s.complete i low le (λ d two' lt. prime.1 d two' (omega (arith, lt, low)));
}
cadena_pipes-Prints falla zero d b n (p ∷ ns) enough two s = absurd (omega (arith, enough))
cadena_pipes-Prints falla (suc f) d b n [] enough two s = record {
  ascending = tt;
  prime = λ i h. cc;
  every = λ fine i low le prime.
      s.complete i low le (λ d two' lt. prime.1 d two' (omega (arith, lt, low)));
}
cadena_pipes-Prints falla (suc f) d b n (p ∷ ns) enough two s =
    let fewer = length-filtrar p ns in
    let low = s.ascending.0 in
    Prints-cons falla b n p d ns _ two s (
      cadena_pipes-Prints falla f (d + 1) (suc p) n (filtrar p ns) (omega (arith, enough, fewer))
        (omega (arith, two, low)) (filtrar-Sifted b n p ns s two))

-- What `main` writes is sifted by nothing.
escribir-IsAscending : (i k : ℕ) → IsAscending i (escribir i k)
unfolding escribir
escribir-IsAscending i zero = tt
escribir-IsAscending i (suc k) =
    let e : i + 1 ≡ suc i = omega arith in
    (
      omega arith,
      subst (λ j. IsAscending j (escribir (i + 1) k)) e (escribir-IsAscending (i + 1) k),
    )

occurs-escribir : (j i k : ℕ) → occurs j (escribir i k) ≡ (leb i j && ltb j (i + k))
unfolding escribir
occurs-escribir j i zero = ground arith
occurs-escribir j i (suc k) = rw (occurs-escribir j (i + 1) k) (ground arith)

numeros-Sifted : (n : ℕ) → Sifted 2 n (numeros (pos n))
numeros-Sifted n = record {
  ascending = escribir-IsAscending 2 (n - 1);
  rough = λ i h.
      let o = sym (occurs-escribir i 2 (n - 1)) ∙ h in
      let lo : 2 ≤ i = ground arith in
      let hi : i < 2 + (n - 1) = ground arith in
      (omega (arith, lo, hi), λ d two lt z. absurd (omega (arith, two, lt)));
  complete = λ i lo hi rough.
      let hi' : i < 2 + (n - 1) = omega (arith, lo, hi) in
      occurs-escribir i 2 (n - 1) ∙ ground arith;
}

-- Where the standard output is a terminal: however the calls of `pipe` and `fork` in the processes of
-- the sieve end, the numbers printed for `n` ascend and are primes up to `n`; if none fails, every
-- prime up to `n` is printed.
pub primes_lem :
    (falla : ℕ → Bool) (n : ℕ)
    → IsAscending 2 (primes false falla (some (pos n))).1
      × ((i : ℕ) → occurs i (primes false falla (some (pos n))).1 ≡ true → (i ≤ n) × IsPrime i)
      × (((d : ℕ) → falla d ≡ false)
          → (i : ℕ) → i ≤ n
          → IsPrime i
          → occurs i (primes false falla (some (pos n))).1 ≡ true)
unfolding primes
primes_lem falla n =
    let o =
      cadena_pipes-Prints falla (length (numeros (pos n))) 0 2 n (numeros (pos n)) (omega arith)
        (omega arith) (numeros-Sifted n) in
    (o.ascending, o.prime, λ fine i le prime. o.every fine i prime.0 le prime)

-- Each process's lines, those of its ancestors before its own, from the last process up.
abbrev repetido : List ℕ → List ℕ → List ℕ
repetido bufer [] = bufer
repetido bufer (p ∷ ps) = repetido (bufer ++ (p ∷ [])) ps ++ (bufer ++ (p ∷ []))

cadena_bufer-repetido :
    (f d : ℕ) (bufer ns : List ℕ)
    → cadena_bufer f bufer ns ≡ repetido bufer (cadena_pipes (λ i. false) f d ns)
unfolding cadena_bufer cadena_pipes
cadena_bufer-repetido zero d bufer ns = refl
cadena_bufer-repetido (suc f) d bufer [] = refl
cadena_bufer-repetido (suc f) d bufer (p ∷ ns) =
    ap (λ r. r ++ (bufer ++ (p ∷ [])))
      (cadena_bufer-repetido f (d + 1) (bufer ++ (p ∷ [])) (filtrar p ns))

-- Where it is not a terminal, and no call fails, every process puts out the numbers printed at a
-- terminal up to its own, the last process first.
primes_bufer-repetido :
    (n : ℤ) → primes_bufer n ≡ repetido [] (primes false (λ i. false) (some n)).1
unfolding primes_bufer primes
primes_bufer-repetido n = cadena_bufer-repetido (length (numeros n)) 0 [] (numeros n)
