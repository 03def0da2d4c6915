-- ===== src/Shell/Parsing/Pipes.antt =====
-- The loop over the pipes of a line ends (shell/parsing.c).
use tps_sis_ops.Base.{
  ℕ, zero, suc, ◌-◌, ◌≤◌, ◌<◌, ◌≡◌, refl, ap, inl, inr, false, List, [], ◌∷◌, length, ◌==◌,
  Bool-cases, arith,
}
use tps_sis_ops.Shell.Parsing.{
  space, block_contains, skip_spaces, split_line, Environment, pipe_cmd_create, has_no_pipe,
  parse_cmd, parse_line,
}

length-skip_spaces : (xs : List ℕ) → length (skip_spaces xs) ≤ length xs
unfolding skip_spaces
length-skip_spaces [] = omega arith
length-skip_spaces (x ∷ xs) = elim (Bool-cases (x == space)) [
  | inl e ↦ rw e (omega (arith, length-skip_spaces xs))
  | inr e ↦ rw e (omega arith)
]

-- What `split_line` returns is shorter than the line.
length-split_line : (c : ℕ) (buf : List ℕ) → length (split_line buf c).1 ≤ length buf - 1
unfolding split_line
length-split_line c [] = omega arith
length-split_line c (x ∷ xs) = elim (Bool-cases (x == c)) [
  | inl e ↦ rw e (omega (arith, length-skip_spaces xs))
  | inr e ↦ rw e (omega (arith, length-split_line c xs))
]

piped_length : (xs : List ℕ) → has_no_pipe xs ≡ false → 1 ≤ length xs
unfolding block_contains
piped_length [] h = absurd (ground arith)
piped_length (x ∷ xs) h = omega arith

-- The recursion of `parse_line` ends within one round more than the line has bytes: more fuel gives
-- the same command.
pub parse_line_enough :
    (env : Environment) (before n m : ℕ) (buf : List ℕ)
    → length buf < n
    → length buf < m
    → parse_line env before n buf ≡ parse_line env before m buf
unfolding parse_line
parse_line_enough env before zero m buf a b = absurd (omega (arith, a))
parse_line_enough env before (suc n) zero buf a b = absurd (omega (arith, b))
parse_line_enough env before (suc n) (suc m) buf a b =
    let right = (split_line buf b'|').1 in
    elim (Bool-cases (has_no_pipe right)) [
      | inl e ↦ rw e refl
      | inr e ↦
          let some_left = piped_length right e in
          let shorter = length-split_line b'|' buf in
          rw e (
            ap (pipe_cmd_create (parse_cmd env before (split_line buf b'|').0)) (
              parse_line_enough env 0 n m right (omega (arith, a, shorter, some_left))
                (omega (arith, b, shorter, some_left))))
    ]
