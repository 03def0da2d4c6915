-- ===== src/Shell/Session/Commands.antt =====
-- Which command lines end the shell by an access through a NULL pointer (shell/runcmd.c).
use tps_sis_ops.Base.{
  ℕ, suc, ◌≡◌, refl, ap, ◌∙◌, Option, none, some, Bool, true, false, List, ◌∷◌, not, length,
}
use tps_sis_ops.Shell.Parsing
use tps_sis_ops.Shell.Parsing.{
  block_contains, Simple, Cmd, single, parse_cmd, parse_line, pipe_cmd_create, split_line,
  has_no_pipe, to_cmd,
}
use tps_sis_ops.Shell.Session.{
  Library, Shell, starts_with, cd_word, exit_word, pwd_word, exit_shell, cd, pwd, wait_for, Block,
  free_pipe, free_command, Outcome, goes_on, exits, crashes, freed, run_parsed, environment,
  run_cmd,
}

-- No side of a pipe is missing.
unfoldable pub has_sides : Cmd → Bool
has_sides (single c) = true
has_sides (Parsing.pipe none r) = false
has_sides (Parsing.pipe (some l) r) = has_sides r

unfoldable pub is_complete : Option Cmd → Bool
is_complete none = false
is_complete (some cmd) = has_sides cmd

abbrev is_freed : Option (List Block) → Bool
is_freed none = false
is_freed (some blocks) = true

is_freed-free_pipe :
    (l : Simple) (r : Cmd) (b : Option (List Block)) → is_freed (free_pipe l r b) ≡ is_freed b
is_freed-free_pipe l r none = refl
is_freed-free_pipe l r (some b) = refl

is_freed-free_command : (cmd : Cmd) → is_freed (free_command cmd) ≡ has_sides cmd
unfolding free_command has_sides
is_freed-free_command (single c) = refl
is_freed-free_command (Parsing.pipe none r) = refl
is_freed-free_command (Parsing.pipe (some l) r) =
    is_freed-free_pipe l r (free_command r) ∙ is_freed-free_command r

module _ {W : Type 0} where
  abbrev pub is_crash : Outcome W → Bool
  is_crash (goes_on s) = false
  is_crash (exits s) = false
  is_crash (crashes s) = true

  is_crash-freed : (s : Shell W) (b : Option (List Block)) → is_crash (freed s b) ≡ not (is_freed b)
  is_crash-freed s none = refl
  is_crash-freed s (some b) = refl

  is_crash-run_parsed :
      (lib : Library W) (s : Shell W) (cmd : Option Cmd)
      → is_crash (run_parsed lib s cmd) ≡ not (is_complete cmd)
  unfolding is_complete
  is_crash-run_parsed lib s none = refl
  is_crash-run_parsed lib s (some cmd) =
      is_crash-freed _ (free_command cmd) ∙ ap not (is_freed-free_command cmd)

  -- The state in which a line is parsed.
  abbrev pub reaped : Library W → Shell W → Shell W
  reaped lib s = wait_for lib s s.background true

  -- On a line that is not empty and begins with none of the words `cd`, `exit` and `pwd`, whatever
  -- the calls of the operating system answer, the shell accesses memory through a NULL pointer
  -- exactly if the line has no command, or a pipe has no left side.
  pub run_cmd-crashes :
      (lib : Library W) (before : ℕ) (s : Shell W) (x : ℕ) (xs : List ℕ)
      → starts_with cd_word (x ∷ xs) ≡ false
      → starts_with exit_word (x ∷ xs) ≡ false
      → starts_with pwd_word (x ∷ xs) ≡ false
      → is_crash (run_cmd lib before s (x ∷ xs))
        ≡ not (
            is_complete
              (parse_line (environment lib (reaped lib s)) before (suc (length (x ∷ xs))) (x ∷ xs)))
  unfolding run_cmd cd exit_shell pwd
  run_cmd-crashes lib before s x xs no_cd no_exit no_pwd =
      rw (no_cd, no_exit, no_pwd) (is_crash-run_parsed lib (reaped lib s) _)

no_left-IsIncomplete : (r : Option Cmd) → is_complete (pipe_cmd_create none r) ≡ false
unfolding is_complete pipe_cmd_create has_sides
no_left-IsIncomplete none = refl
no_left-IsIncomplete (some r) = refl

pipe_first-parse_line :
    (env : Parsing.Environment) (before n : ℕ) (xs : List ℕ)
    → is_complete (parse_line env before (suc n) (b'|' ∷ xs)) ≡ false
unfolding parse_line split_line parse_cmd
pipe_first-parse_line env before n xs = no_left-IsIncomplete _

module _ {W : Type 0} where
  -- Every line that begins with `|` makes the shell access memory through a NULL pointer.
  pub pipe_first-run_cmd :
      (lib : Library W) (before : ℕ) (s : Shell W) (xs : List ℕ)
      → is_crash (run_cmd lib before s (b'|' ∷ xs)) ≡ true
  unfolding starts_with
  pipe_first-run_cmd lib before s xs =
      run_cmd-crashes lib before s b'|' xs refl refl refl
      ∙ ap not (pipe_first-parse_line (environment lib (reaped lib s)) before _ xs)
