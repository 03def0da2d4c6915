-- ===== src/Fork/Xargs.antt =====
-- fork/xargs.c: the program is run on every `NARGS` lines of the standard input. Strings are the
-- lists of their bytes without the final 0. The lines that `getline` gives, and how it sizes buffers, are
-- the C library's; it is told one size for all buffers, so that their sizes are part of the state.
use mathlib.Core.List.{append-nil, append_assoc}
use tps_sis_ops.Base.{
  ℕ, ◌≤◌, ◌<◌, ◌≡◌, refl, sym, ap, ◌∙◌, inl, inr, List, [], ◌∷◌, ◌++◌, map, length, length-append,
  Option, none, some, false, ◌||◌, ◌+◌, ◌⊎◌, ltb, update, ◌==◌, if◌then◌else◌, Bool-cases, arith,
}

abbrev pub nargs : ℕ
nargs = 4

-- The string that is left when a 0 replaces the newlines.
unfoldable pub reemplazar_n : List ℕ → List ℕ
reemplazar_n [] = []
reemplazar_n (x ∷ xs) =
    let rest = reemplazar_n xs in if (x == b'\n') || (x == 0) then [] else x ∷ rest

-- `getline` of the C library: the size of the buffer that it allocates for a null pointer, and the
-- size to which it brings a buffer of one size that must hold a number of bytes.
pub record Biblioteca : Type 0 where
  pub primera : ℕ
  pub crece : ℕ → ℕ → ℕ

abbrev pub asegurar : Biblioteca → ℕ → ℕ → ℕ
asegurar b tam bytes = if ltb tam bytes then b.crece tam bytes else tam

-- What `getline(&argumentos[i], &tam, stdin)` does for a line that takes `bytes` bytes with its final
-- 0: the size of the buffer behind the call, and `tam`; `none` if it writes behind the buffer. The
-- buffer's true size is given, if it has been allocated; `getline` goes by `tam`.
unfoldable pub getline : Biblioteca → Option ℕ → ℕ → ℕ → Option (ℕ × ℕ)
getline b none tam bytes = let t = asegurar b b.primera bytes in some (t, t)
getline b (some capacidad) tam bytes =
    if ltb tam bytes
    then some (b.crece tam bytes, b.crece tam bytes)
    else (if ltb capacidad bytes then none else some (capacidad, tam))

-- A call of `ejecutar_programa`: the program, and the arguments behind it.
pub record Ejecucion : Type 0 where
  pub programa : List ℕ
  pub argumentos : List (List ℕ)

-- The call behind the loop: with `i != 1`.
unfoldable pub ultima : List ℕ → List (List ℕ) → List Ejecucion
ultima programa [] = []
ultima programa (a ∷ bs) = record { programa = programa; argumentos = a ∷ bs } ∷ []

abbrev pub agregar : Ejecucion → Option (List Ejecucion) → Option (List Ejecucion)
agregar e none = none
agregar e (some es) = some (e ∷ es)

-- The loop of `main` and what follows, for the lines still to come, with the sizes of the buffers,
-- and with the arguments in those at 1 up to `i - 1`; `none` if a line is written behind its buffer.
unfoldable pub leer :
    Biblioteca
    → List ℕ
    → (ℕ → Option ℕ)
    → ℕ
    → List (List ℕ)
    → List (List ℕ)
    → Option (List Ejecucion)
leer b programa sizes tam buffer [] = some (ultima programa buffer)
leer b programa sizes tam buffer (linea ∷ lineas) =
    let i = length buffer + 1 in
    elim (getline b (sizes i) tam (length linea + 1)) [
      | none ↦ none
      | some r ↦
          let lleno = buffer ++ (reemplazar_n linea ∷ []) in
          let rest =
            leer b programa (update sizes i (some r.0)) r.1
              (if length lleno == nargs then [] else lleno) lineas in
          if length lleno == nargs
          then agregar (record { programa = programa; argumentos = lleno }) rest
          else rest
    ]

-- No buffer is allocated at first.
unfoldable pub xargs : Biblioteca → List ℕ → List (List ℕ) → Option (List Ejecucion)
xargs b programa lineas = leer b programa (λ i. none) 0 [] lineas

-- The arguments of all calls, in order.
abbrev pub todos : List Ejecucion → List (List ℕ)
todos [] = []
todos (e ∷ es) = e.argumentos ++ todos es

-- All calls but the last have `NARGS` arguments, and that has one to `NARGS`.
abbrev pub IsBatched : List Ejecucion → Type 0
IsBatched [] = Unit
IsBatched (e ∷ []) = (1 ≤ length e.argumentos) × (length e.argumentos ≤ nargs)
IsBatched (e ∷ f ∷ es) = (length e.argumentos ≡ nargs) × IsBatched (f ∷ es)

full-IsBatched :
    (e : Ejecucion) (es : List Ejecucion)
    → length e.argumentos ≡ nargs
    → IsBatched es
    → IsBatched (e ∷ es)
full-IsBatched e [] h b = (omega (arith, h), omega (arith, h))
full-IsBatched e (f ∷ es) h b = (h, b)

todos-ultima :
    (programa : List ℕ) (buffer : List (List ℕ)) → todos (ultima programa buffer) ≡ buffer
unfolding ultima
todos-ultima programa [] = refl
todos-ultima programa (a ∷ bs) = append-nil (a ∷ bs)

ultima-IsBatched :
    (programa : List ℕ) (buffer : List (List ℕ))
    → length buffer < nargs
    → IsBatched (ultima programa buffer)
unfolding ultima
ultima-IsBatched programa [] h = tt
ultima-IsBatched programa (a ∷ bs) h = (omega arith, omega (arith, h))

-- What the calls of `es` do with the lines, behind the arguments already in the buffer.
record Handed (buffer lineas : List (List ℕ)) (es : List Ejecucion) : Type 0 where
  in_order : todos es ≡ buffer ++ map reemplazar_n lineas
  batched : IsBatched es

module _ (b : Biblioteca) where
  -- A buffer that is not allocated, or has the first size, which `tam` is then.
  abbrev IsFirst : ℕ → Option ℕ → Type 0
  IsFirst tam o = (o ≡ none) ⊎ ((o ≡ some b.primera) × (tam ≡ b.primera))

  abbrev Fit : List (List ℕ) → Type 0
  Fit [] = Unit
  Fit (linea ∷ lineas) = (length linea < b.primera) × Fit lineas

  getline_first :
      (o : Option ℕ) (tam bytes : ℕ)
      → IsFirst tam o
      → bytes ≤ b.primera
      → getline b o tam bytes ≡ some (b.primera, b.primera)
  unfolding getline
  getline_first none tam bytes h fits =
      let e : ltb b.primera bytes ≡ false = ground arith in rw e refl
  getline_first (some size) tam bytes (inl bad) fits = cc
  getline_first (some size) tam bytes (inr (same, t)) fits =
      let s : size ≡ b.primera = cc in
      let e : ltb b.primera bytes ≡ false = ground arith in rw (t, s, e) refl

  sizes-IsFirst :
      (sizes : ℕ → Option ℕ) (tam i : ℕ)
      → ((j : ℕ) → IsFirst tam (sizes j))
      → (j : ℕ) → IsFirst b.primera (update sizes i (some b.primera) j)
  sizes-IsFirst sizes tam i h j = elim (Bool-cases (j == i)) [
    | inl e ↦ rw e (inr (refl, refl))
    | inr e ↦ rw e (elim (h j) [ inl n ↦ inl n | inr f ↦ inr (f.0, refl) ])
  ]

  leer-Handed :
      (programa : List ℕ) (sizes : ℕ → Option ℕ) (tam : ℕ) (buffer lineas : List (List ℕ))
      → ((j : ℕ) → IsFirst tam (sizes j))
      → length buffer < nargs
      → Fit lineas
      → (es : List Ejecucion) × (leer b programa sizes tam buffer lineas ≡ some es)
        × Handed buffer lineas es
  unfolding leer
  leer-Handed programa sizes tam buffer [] first h fits = (
    ultima programa buffer,
    refl,
    record {
      in_order = todos-ultima programa buffer ∙ sym (append-nil buffer);
      batched = ultima-IsBatched programa buffer h;
    },
  )
  leer-Handed programa sizes tam buffer (linea ∷ lineas) first h (fit, fits) =
      let i = length buffer + 1 in
      let lleno = buffer ++ (reemplazar_n linea ∷ []) in
      let call : Ejecucion = record { programa = programa; argumentos = lleno } in
      let more = length-append buffer (reemplazar_n linea ∷ []) in
      let assoc = append_assoc buffer (reemplazar_n linea ∷ []) (map reemplazar_n lineas) in
      let read = getline_first (sizes i) tam (length linea + 1) (first i) (omega (arith, fit)) in
      let first' = sizes-IsFirst sizes tam i first in
      let sizes' = update sizes i (some b.primera) in
      rw (read, leer)
        (elim (Bool-cases (length lleno == nargs)) [
          | inl f ↦
              let (es, e, rest) =
                leer-Handed programa sizes' b.primera [] lineas first' (omega arith) fits in
              (
                call ∷ es,
                rw f (ap (agregar call) e),
                record {
                  in_order = ap (λ r. lleno ++ r) rest.in_order ∙ assoc;
                  batched = full-IsBatched call es (ground arith) rest.batched;
                },
              )
          | inr n ↦
              let (es, e, rest) =
                leer-Handed programa sizes' b.primera lleno lineas first' (ground arith) fits in
              (es, rw n e, record { in_order = rest.in_order ∙ assoc; batched = rest.batched })
        ])

  -- If every line is shorter than the buffer that `getline` allocates at first, nothing is written
  -- behind a buffer, and the calls take the lines of the input, without their newlines, all and in
  -- order; each takes 4 but the last, which takes 1 to 4.
  pub xargs_lem :
      (programa : List ℕ) (lineas : List (List ℕ))
      → Fit lineas
      → (es : List Ejecucion) × (xargs b programa lineas ≡ some es)
        × (todos es ≡ map reemplazar_n lineas)
        × IsBatched es
  unfolding xargs
  xargs_lem programa lineas fits =
      let (es, e, h) =
        leer-Handed programa (λ i. none) 0 [] lineas (λ j. inl refl) (omega arith) fits in
      (es, e, h.in_order, h.batched)
