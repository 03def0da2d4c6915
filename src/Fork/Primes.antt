-- ===== src/Fork/Primes.antt =====
-- fork/primes.c: the sieve of processes that pipes connect. A pipe is the list of what is written
-- to it until it is closed. What `printf` puts into the buffer of the standard output depends on what
-- that is. At a terminal the buffer goes out at the end of each line, and since each process prints
-- its prime before it makes the next process, the lines come in the order of the processes. In a pipe
-- or a file the buffer goes out when a process ends, and `fork` copies it. That writing to a pipe
-- succeeds is assumed.
pub mod Sieve
use tps_sis_ops.Base.{
  ℕ, zero, suc, ◌+◌, ◌-◌, ◌%◌, Option, none, some, Bool, true, false, not, List, [], ◌∷◌, ◌++◌,
  length, ◌==◌, if◌then◌else◌,
}
use tps_sis_ops.Base.Int.{ℤ, pos, negsuc}

-- What the loop over `read` hands on.
unfoldable pub filtrar : ℕ → List ℕ → List ℕ
filtrar p [] = []
filtrar p (n ∷ ns) = let rest = filtrar p ns in if not (n % p == 0) then n ∷ rest else rest

-- The numbers printed at a terminal by the process of depth `d` and those below it; in that process `pipe` or `fork`
-- fails if `falla d`. The recursion runs on fuel.
unfoldable pub cadena_pipes : (ℕ → Bool) → ℕ → ℕ → List ℕ → List ℕ
cadena_pipes falla zero d ns = []
cadena_pipes falla (suc f) d [] = []
cadena_pipes falla (suc f) d (p ∷ ns) =
    let hijo = cadena_pipes falla f (d + 1) (filtrar p ns) in p ∷ (if falla d then [] else hijo)

-- The loop of `main`: `n` rounds from `i` on.
unfoldable pub escribir : ℕ → ℕ → List ℕ
escribir i zero = []
escribir i (suc n) = i ∷ escribir (i + 1) n

-- What it writes for the number that `atoi` gave.
abbrev pub numeros : ℤ → List ℕ
numeros (negsuc n) = []
numeros (pos n) = escribir 2 (n - 1)

-- `main`, for its argument, if there is one, with its status and what is printed at a terminal; `falla_main` tells
-- whether its own `pipe` or `fork` fails.
unfoldable pub primes : Bool → (ℕ → Bool) → Option ℤ → ℕ × List ℕ
primes falla_main falla none = (1, [])
primes true falla (some n) = (1, [])
primes false falla (some n) = (0, cadena_pipes falla (length (numeros n)) 0 (numeros n))

-- `cadena_pipes` where the standard output is not a terminal, and no call fails: the numbers that
-- reach it from a process with `bufer` in its buffer, which that does not fill, and from those below
-- it. A process waits for the next one before it ends.
unfoldable pub cadena_bufer : ℕ → List ℕ → List ℕ → List ℕ
cadena_bufer zero bufer ns = bufer
cadena_bufer (suc f) bufer [] = bufer
cadena_bufer (suc f) bufer (p ∷ ns) =
    let hijo = cadena_bufer f (bufer ++ (p ∷ [])) (filtrar p ns) in hijo ++ (bufer ++ (p ∷ []))

-- What `main` brings about there.
unfoldable pub primes_bufer : ℤ → List ℕ
primes_bufer n = cadena_bufer (length (numeros n)) [] (numeros n)
