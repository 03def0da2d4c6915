-- ===== src/Fork/Tests.antt =====
-- xargs on five lines, and the sieve (fork/xargs.c, fork/primes.c).
use tps_sis_ops.Base.{
  ℕ, ◌==◌, ◌≤◌, ◌*◌, ltb, if◌then◌else◌, replicate, arith, true, false, none, some, ◌≡◌, refl, List,
  [], ◌∷◌, map,
}
use tps_sis_ops.Base.Int.{pos}
use tps_sis_ops.Base.Chain.{occurs}
use tps_sis_ops.Fork.Primes.{filtrar, cadena_pipes, cadena_bufer, escribir, primes, primes_bufer}
use tps_sis_ops.Fork.Primes.Sieve.{IsAscending, IsPrime, primes_lem}
use tps_sis_ops.Fork.Xargs.{
  reemplazar_n, getline, leer, Biblioteca, Ejecucion, xargs, todos, IsBatched, xargs_lem,
}

abbrev five : List (List ℕ)
five =
    (b'a' ∷ b'\n' ∷ [])
    ∷ (b'b' ∷ b'\n' ∷ [])
    ∷ (b'c' ∷ b'\n' ∷ [])
    ∷ (b'd' ∷ b'\n' ∷ [])
    ∷ (b'e' ∷ [])
    ∷ []

without_newline : reemplazar_n (b'a' ∷ b'\n' ∷ []) ≡ b'a' ∷ []
unfolding reemplazar_n
without_newline = refl

-- A library that allocates 120 bytes at first, and doubles a buffer at least.
abbrev doubling : Biblioteca
doubling = record {
  primera = 120;
  crece = λ tam bytes. if ltb (2 * tam) bytes then bytes else 2 * tam;
}

xargs_lem_example :
    (es : List Ejecucion) × (xargs doubling (b'w' ∷ b'c' ∷ []) five ≡ some es)
    × (todos es ≡ map reemplazar_n five)
    × IsBatched es
xargs_lem_example =
    xargs_lem doubling (b'w' ∷ b'c' ∷ []) five
      (omega arith, (omega arith, (omega arith, (omega arith, (omega arith, tt)))))

-- With 200 bytes in the fourth and the fifth line, the fifth goes behind the first buffer.
abbrev wide : List ℕ
wide = replicate 200 b'x'

overrun :
    xargs doubling (b'w' ∷ b'c' ∷ []) ((b'a' ∷ []) ∷ (b'b' ∷ []) ∷ (b'c' ∷ []) ∷ wide ∷ wide ∷ [])
    ≡ none
unfolding xargs leer getline reemplazar_n
overrun = refl

primes-up_to_12 : (primes false (λ d. false) (some (pos 12))).1 ≡ 2 ∷ 3 ∷ 5 ∷ 7 ∷ 11 ∷ []
unfolding primes cadena_pipes filtrar escribir
primes-up_to_12 = refl

-- The third process cannot make its pipe.
primes-cut : (primes false (λ d. d == 2) (some (pos 12))).1 ≡ 2 ∷ 3 ∷ 5 ∷ []
unfolding primes cadena_pipes filtrar escribir
primes-cut = refl

-- Behind a pipe, the lines of a process come again from each one below it.
printed_again : primes_bufer (pos 5) ≡ 2 ∷ 3 ∷ 5 ∷ 2 ∷ 3 ∷ 5 ∷ 2 ∷ 3 ∷ 2 ∷ []
unfolding primes_bufer cadena_bufer filtrar escribir
printed_again = refl

primes_lem_example :
    IsAscending 2 (primes false (λ d. d == 2) (some (pos 12))).1
    × ((i : ℕ)
        → occurs i (primes false (λ d. d == 2) (some (pos 12))).1 ≡ true
        → (i ≤ 12) × IsPrime i)
    × (((d : ℕ) → (d == 2) ≡ false)
        → (i : ℕ) → i ≤ 12
        → IsPrime i
        → occurs i (primes false (λ d. d == 2) (some (pos 12))).1 ≡ true)
primes_lem_example = primes_lem (λ d. d == 2) 12
