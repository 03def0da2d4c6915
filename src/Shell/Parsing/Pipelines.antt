-- ===== src/Shell/Parsing/Pipelines.antt =====
-- The commands of a line with pipes (shell/parsing.c).
use tps_sis_ops.Base.{
  ℕ, zero, suc, ◌≤◌, ◌<◌, ◌≡◌, refl, ap, ap₂, ◌+◌, ◌∙◌, inl, inr, Option, none, some, Bool, true,
  false, List, [], ◌∷◌, ◌++◌, length, ◌==◌, if◌then◌else◌, Bool-cases, arith,
}
use tps_sis_ops.Base.Chain.{occurs}
use tps_sis_ops.Shell.Parsing.{
  space, block_contains, skip_spaces, split_line, ExecCmd, exec_cmd_create, Environment, front,
  parse_cmd, Cmd, single, pipe, pipe_cmd_create, to_cmd, has_no_pipe, parse_line,
}
use tps_sis_ops.Shell.Parsing.Words.{
  IsPlain, words, words-skip_spaces, IsPlain-skip_spaces, parse_exec-words,
}

-- The array `argv` has room for `max_args - 1` words, and a NULL.
abbrev pub max_args : ℕ
max_args = 20

-- The text of a command with one word at least and no more than fit, without `> < = $ | &`.
pub record IsPart (c : List ℕ) : Type 0 where
  pub plain : IsPlain c
  pub some_word : 1 ≤ length (words c)
  pub fits : length (words c) < max_args
  pub no_bar : occurs b'|' c ≡ false
  pub no_amp : occurs b'&' c ≡ false

abbrev pub AreParts : List (List ℕ) → Type 0
AreParts [] = Unit
AreParts (c ∷ cs) = IsPart c × AreParts cs

-- A line of commands with a `|` between two.
abbrev pub pipeline : List ℕ → List (List ℕ) → List ℕ
pipeline c [] = c
pipeline c (d ∷ ds) = c ++ (b'|' ∷ pipeline d ds)

abbrev pub command_of : List ℕ → ExecCmd
command_of c = record (exec_cmd_create c) { argv = words c }

-- The spaces behind a `|` are skipped.
abbrev pub piped : List ℕ → List (List ℕ) → Cmd
piped c [] = single (front (command_of c))
piped c (d ∷ ds) = pipe (some (front (command_of c))) (piped (skip_spaces d) ds)

occurs-skip_spaces : (x : ℕ) (xs : List ℕ) → occurs x xs ≡ false → occurs x (skip_spaces xs) ≡ false
unfolding skip_spaces
occurs-skip_spaces x [] h = h
occurs-skip_spaces x (y ∷ xs) h = elim (Bool-cases (y == space)) [
  | inl e ↦ rw e (occurs-skip_spaces x xs (ground arith))
  | inr e ↦ rw e h
]

skip_spaces-IsPart : (c : List ℕ) → IsPart c → IsPart (skip_spaces c)
skip_spaces-IsPart c p = record {
  plain = IsPlain-skip_spaces c p.plain;
  some_word = rw (words-skip_spaces c) p.some_word;
  fits = rw (words-skip_spaces c) p.fits;
  no_bar = occurs-skip_spaces b'|' c p.no_bar;
  no_amp = occurs-skip_spaces b'&' c p.no_amp;
}

block_contains-none : (c : ℕ) (xs : List ℕ) → occurs c xs ≡ false → block_contains xs c ≡ none
unfolding block_contains
block_contains-none c [] h = refl
block_contains-none c (x ∷ xs) h =
    let other : (x == c) ≡ false = ground arith in
    rw (other, block_contains-none c xs (ground arith)) refl

abbrev is_none : Option ℕ → Bool
is_none none = true
is_none (some _) = false

abbrev next_index : Option ℕ → Option ℕ
next_index none = none
next_index (some i) = some (i + 1)

is_none-next_index : (o : Option ℕ) → is_none (next_index o) ≡ is_none o
is_none-next_index none = refl
is_none-next_index (some i) = refl

block_contains_here :
    (c : ℕ) (xs : List ℕ) (x : ℕ) → (x == c) ≡ true → block_contains (x ∷ xs) c ≡ some 0
unfolding block_contains
block_contains_here c xs x h = rw h refl

block_contains_next :
    (c : ℕ) (xs : List ℕ) (x : ℕ)
    → (x == c) ≡ false
    → block_contains (x ∷ xs) c ≡ next_index (block_contains xs c)
unfolding block_contains
block_contains_next c xs x h = rw h refl

pipe_found : (xs ys : List ℕ) → is_none (block_contains (xs ++ (b'|' ∷ ys)) b'|') ≡ false
pipe_found [] ys = ap is_none (block_contains_here b'|' ys b'|' refl)
pipe_found (x ∷ xs) ys = elim (Bool-cases (x == b'|')) [
  | inl e ↦ ap is_none (block_contains_here b'|' (xs ++ (b'|' ∷ ys)) x e)
  | inr e ↦
      ap is_none (block_contains_next b'|' (xs ++ (b'|' ∷ ys)) x e)
      ∙ is_none-next_index (block_contains (xs ++ (b'|' ∷ ys)) b'|')
      ∙ pipe_found xs ys
]

split_line-none : (xs : List ℕ) → occurs b'|' xs ≡ false → split_line xs b'|' ≡ (xs, [])
unfolding split_line
split_line-none [] h = refl
split_line-none (x ∷ xs) h =
    let other : (x == b'|') ≡ false = ground arith in
    rw other (ap (λ r. (x ∷ r.0, r.1)) (split_line-none xs (ground arith)))

split_line-piped :
    (xs ys : List ℕ)
    → occurs b'|' xs ≡ false
    → split_line (xs ++ (b'|' ∷ ys)) b'|' ≡ (xs, skip_spaces ys)
unfolding split_line
split_line-piped [] ys h = refl
split_line-piped (x ∷ xs) ys h =
    let other : (x == b'|') ≡ false = ground arith in
    rw other (ap (λ r. (x ∷ r.0, r.1)) (split_line-piped xs ys (ground arith)))

skip_spaces-append :
    (c rest : List ℕ) → 1 ≤ length (words c) → skip_spaces (c ++ rest) ≡ skip_spaces c ++ rest
unfolding skip_spaces
skip_spaces-append [] rest h = absurd (omega (arith, h))
skip_spaces-append (x ∷ c) rest h = elim (Bool-cases (x == space)) [
  | inl e ↦ let h' : 1 ≤ length (words c) = rw e at h in rw e (skip_spaces-append c rest h')
  | inr e ↦ rw e refl
]

skip_spaces-pipeline :
    (c : List ℕ) (cs : List (List ℕ))
    → IsPart c
    → skip_spaces (pipeline c cs) ≡ pipeline (skip_spaces c) cs
skip_spaces-pipeline c [] h = refl
skip_spaces-pipeline c (d ∷ ds) h = skip_spaces-append c (b'|' ∷ pipeline d ds) h.some_word

parse_cmd-part :
    (env : Environment) (before : ℕ) (c : List ℕ)
    → IsPart c
    → parse_cmd env before c ≡ some (front (command_of c))
unfolding parse_cmd
parse_cmd-part env before [] h = absurd (omega (arith, h.some_word))
parse_cmd-part env before (x ∷ xs) h =
    rw (parse_cmd, block_contains-none b'&' (x ∷ xs) h.no_amp)
      (ap (λ e. some (front e)) (parse_exec-words env (x ∷ xs) h.plain))

has_no_pipe_lem :
    (xs : List ℕ) (b : Bool) → is_none (block_contains xs b'|') ≡ b → has_no_pipe xs ≡ b
has_no_pipe_lem xs b h = elim_lem (block_contains xs b'|') ∙ h
  where
    elim_lem : (o : Option ℕ) → (elim o [ none ↦ true | some _ ↦ false ]) ≡ is_none o
    elim_lem none = refl
    elim_lem (some i) = refl

-- `parse_line` behind `split_line`.
abbrev line_of : Environment → ℕ → ℕ → List ℕ × List ℕ → Option Cmd
line_of env before n parts =
    pipe_cmd_create (parse_cmd env before parts.0)
      (if has_no_pipe parts.1 then to_cmd (parse_cmd env 0 parts.1) else parse_line env 0 n parts.1)

parse_line_step :
    (env : Environment) (before n : ℕ) (buf : List ℕ) (parts : List ℕ × List ℕ)
    → split_line buf b'|' ≡ parts
    → parse_line env before (suc n) buf ≡ line_of env before n parts
unfolding parse_line
parse_line_step env before n buf parts h = ap (line_of env before n) h

-- There is no right side.
last_part :
    (env : Environment) (before n : ℕ) (c : List ℕ)
    → IsPart c
    → line_of env before n (c, []) ≡ some (single (front (command_of c)))
unfolding block_contains parse_cmd pipe_cmd_create
last_part env before n c part = ap (λ l. pipe_cmd_create l none) (parse_cmd-part env before c part)

-- The right side of a `|`, as a command of its own or as a line.
right_side :
    (env : Environment) (n : ℕ) (d : List ℕ) (ds : List (List ℕ))
    → IsPart d
    → ((e : List ℕ) (es : List (List ℕ))
        → ds ≡ e ∷ es
        → parse_line env 0 n (pipeline d ds) ≡ some (piped d ds))
    → (if has_no_pipe (pipeline d ds)
        then to_cmd (parse_cmd env 0 (pipeline d ds))
        else parse_line env 0 n (pipeline d ds))
      ≡ some (piped d ds)
right_side env n d [] part rest =
    rw (has_no_pipe_lem d true (ap is_none (block_contains-none b'|' d part.no_bar)))
      (ap to_cmd (parse_cmd-part env 0 d part))
right_side env n d (e ∷ es) part rest =
    rw (has_no_pipe_lem (pipeline d (e ∷ es)) false (pipe_found d (pipeline e es))) (rest e es refl)

-- A line of commands, with a `|` between two, is parsed to the pipe of these commands, on as many
-- rounds as there are commands.
pub parse_line-pipeline :
    (env : Environment) (before n : ℕ) (c : List ℕ) (cs : List (List ℕ))
    → IsPart c
    → AreParts cs
    → length cs < n
    → parse_line env before n (pipeline c cs) ≡ some (piped c cs)
unfolding pipe_cmd_create
parse_line-pipeline env before zero c cs part parts h = absurd (omega (arith, h))
parse_line-pipeline env before (suc n) c [] part parts h =
    parse_line_step env before n c (c, []) (split_line-none c part.no_bar)
    ∙ last_part env before n c part
parse_line-pipeline env before (suc n) c (d ∷ ds) part parts h =
    let next = skip_spaces-IsPart d parts.0 in
    parse_line_step env before n (pipeline c (d ∷ ds)) (c, pipeline (skip_spaces d) ds)
      (split_line-piped c (pipeline d ds) part.no_bar
        ∙ ap (λ r. (c, r)) (skip_spaces-pipeline d ds parts.0))
    ∙ ap₂ pipe_cmd_create (parse_cmd-part env before c part) (
        right_side env n (skip_spaces d) ds next (λ e es q.
          parse_line-pipeline env 0 n (skip_spaces d) ds next parts.1 (omega (arith, h))))
