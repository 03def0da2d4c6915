-- ===== src/Shell/Session/Lines.antt =====
-- The shell's loop over its input (shell/readline.c, shell/sh.c).
use tps_sis_ops.Base.{
  ℕ, zero, suc, inl, inr, Bool-cases, ◌+◌, ◌≤◌, ◌<◌, ◌≡◌, refl, ap, ◌∙◌, true, false, List, [], ◌∷◌,
  ◌++◌, length, leb, ◌==◌, arith,
}
use tps_sis_ops.Base.Chain.{occurs}
use tps_sis_ops.Shell.Session.{
  Library, Shell, buflen, end_line, run_cmd, line, no_line, overflow, with_byte, read_from,
  c_string, Ending, returns, overflows, Outcome, goes_on, exits, crashes, next_round, after_line,
  run_shell,
}

read_from-line :
    (i : ℕ) (l rest : List ℕ)
    → occurs end_line l ≡ false
    → i + length l < buflen
    → read_from i (l ++ (end_line ∷ rest)) ≡ line l rest
unfolding read_from
read_from-line i [] rest fresh short =
    let room : leb buflen i ≡ false = ground arith in rw room refl
read_from-line i (c ∷ l) rest fresh short =
    let room : leb buflen i ≡ false = ground arith in
    let inside : (c == end_line) ≡ false = ground arith in
    rw (room, inside)
      (ap (with_byte c) (read_from-line (i + 1) l rest (ground arith) (omega (arith, short))))

-- The input ends in the middle of a line.
read_from-end :
    (i : ℕ) (l : List ℕ)
    → occurs end_line l ≡ false
    → i + length l ≤ buflen
    → read_from i l ≡ no_line
unfolding read_from
read_from-end i [] fresh short = refl
read_from-end i (c ∷ l) fresh short =
    let room : leb buflen i ≡ false = ground arith in
    let inside : (c == end_line) ≡ false = ground arith in
    rw (room, inside)
      (ap (with_byte c) (read_from-end (i + 1) l (ground arith) (omega (arith, short))))

read_from-overflow :
    (i : ℕ) (l rest : List ℕ)
    → occurs end_line l ≡ false
    → buflen ≤ i + length l
    → read_from i (l ++ (end_line ∷ rest)) ≡ overflow
unfolding read_from
read_from-overflow i [] rest fresh long =
    let full : leb buflen i ≡ true = ground arith in rw full refl
read_from-overflow i (c ∷ l) rest fresh long = elim (Bool-cases (leb buflen i)) [
  | inl e ↦ rw e refl
  | inr e ↦
      let inside : (c == end_line) ≡ false = ground arith in
      rw (e, inside)
        (ap (with_byte c) (read_from-overflow (i + 1) l rest (ground arith) (omega (arith, long))))
]

-- A line that the buffer has room for.
abbrev pub IsLine : List ℕ → Type 0
IsLine l = (occurs end_line l ≡ false) × (length l < buflen)

abbrev pub AreLines : List (List ℕ) → Type 0
AreLines [] = Unit
AreLines (l ∷ ls) = IsLine l × AreLines ls

-- The lines as the shell's input; `rest` is behind the last end of a line.
abbrev pub unlines : List (List ℕ) → List ℕ → List ℕ
unlines [] rest = rest
unlines (l ∷ ls) rest = l ++ (end_line ∷ unlines ls rest)

module _ {W : Type 0} where
  -- The lines as commands, one after the other, until one ends the shell.
  abbrev pub run_lines : Library W → ℕ → Shell W → List (List ℕ) → Ending W
  run_lines lib before s [] = returns s
  run_lines lib before s (l ∷ ls) =
      next_round (λ s'. run_lines lib before s' ls) (run_cmd lib before s (c_string l))

  next_round-ext :
      (f g : Shell W → Ending W) (o : Outcome W)
      → ((s : Shell W) → f s ≡ g s)
      → next_round f o ≡ next_round g o
  next_round-ext f g (goes_on s) same = same s
  next_round-ext f g (exits s) same = refl
  next_round-ext f g (crashes s) same = refl

  -- On lines of less than 1024 bytes, and less than 1025 bytes behind the last end of a line, which
  -- are ignored, the shell runs each line as a command, in order, until one exits it or has it
  -- access memory through a NULL pointer, and returns behind the last one; a round more than there
  -- are lines is enough.
  pub run_shell-lines :
      (lib : Library W) (before n : ℕ) (s : Shell W) (ls : List (List ℕ)) (rest : List ℕ)
      → AreLines ls
      → occurs end_line rest ≡ false
      → length rest ≤ buflen
      → length ls < n
      → run_shell lib before n s (unlines ls rest) ≡ run_lines lib before s ls
  unfolding run_shell
  run_shell-lines lib before zero s ls rest good fresh short enough = absurd (omega (arith, enough))
  run_shell-lines lib before (suc n) s [] rest good fresh short enough =
      ap (after_line lib before (run_shell lib before n) s)
        (read_from-end 0 rest fresh (omega (arith, short)))
  run_shell-lines lib before (suc n) s (l ∷ ls) rest good fresh short enough =
      ap (after_line lib before (run_shell lib before n) s)
        (read_from-line 0 l (unlines ls rest) good.0.0 (omega (arith, good.0.1)))
      ∙ next_round-ext _ _ (run_cmd lib before s (c_string l))
          (λ s'. run_shell-lines lib before n s' ls rest good.1 fresh short (omega (arith, enough)))

  -- A line of 1024 bytes or more is written behind the end of the buffer.
  pub run_shell-overflows :
      (lib : Library W) (before n : ℕ) (s : Shell W) (l rest : List ℕ)
      → occurs end_line l ≡ false
      → buflen ≤ length l
      → run_shell lib before (suc n) s (l ++ (end_line ∷ rest)) ≡ overflows s
  unfolding run_shell
  run_shell-overflows lib before n s l rest fresh long =
      ap (after_line lib before (run_shell lib before n) s)
        (read_from-overflow 0 l rest fresh (omega (arith, long)))
