-- ===== src/Shell/Session/Tests.antt =====
-- Tests of the shell's loop (shell/runcmd.c, shell/readline.c).
use tps_sis_ops.Base.{ℕ, ◌≡◌, refl, none, some, true, false, List, [], ◌∷◌, ◌++◌, not, arith}
use tps_sis_ops.Base.Int.{pos}
use tps_sis_ops.Shell.Parsing.{parse_line}
use tps_sis_ops.Shell.Session.{
  Library, Shell, end_line, starts_with, exit_shell, cd, goes_on, environment, run_cmd, line,
  read_from, read_line, run_shell,
}
use tps_sis_ops.Shell.Session.Lines.{unlines, run_lines, run_shell-lines}
use tps_sis_ops.Shell.Session.Commands.{is_complete, is_crash, reaped, run_cmd-crashes}

-- An operating system whose state is the current directory.
abbrev linux : Library (List ℕ)
linux = record {
  getenv = λ name. none;
  chdir = λ w dir. some dir;
  getcwd = λ w. some w;
  fork = λ w cmd. (pos 7, w);
  waitpid = λ w pid no_hang. (some (pos 256), w);
  text = λ n. b'0' ∷ [];
  has_exited = λ status. true;
  exit_status = λ status. pos 1;
  is_signaled = λ status. false;
  term_sig = λ status. 0;
  stop_sig = λ status. 0;
}

abbrev at_start : Shell (List ℕ)
at_start = record {
  world = b'/' ∷ [];
  prompt = [];
  status = pos 0;
  background = pos 0;
  written = [];
}

abbrev cd_tmp : List ℕ
cd_tmp = b'c' ∷ b'd' ∷ b' ' ∷ b't' ∷ []

-- `cd` makes the new directory the prompt.
cd_prompt :
    run_cmd linux 0 at_start cd_tmp
    ≡ goes_on (record at_start { world = b't' ∷ []; prompt = b't' ∷ []; status = pos 256 })
unfolding run_cmd cd starts_with
cd_prompt = refl

line_read : read_line (b'l' ∷ b's' ∷ end_line ∷ b'x' ∷ []) ≡ line (b'l' ∷ b's' ∷ []) (b'x' ∷ [])
unfolding read_from
line_read = refl

abbrev exit_line : List ℕ
exit_line = b'e' ∷ b'x' ∷ b'i' ∷ b't' ∷ []

-- `exitfoo` exits, too.
exit_prefix : exit_shell (exit_line ++ (b'f' ∷ b'o' ∷ b'o' ∷ [])) ≡ true
unfolding exit_shell starts_with
exit_prefix = refl

run_shell-lines_example :
    run_shell linux 0 3 at_start (unlines (cd_tmp ∷ exit_line ∷ []) (b'x' ∷ []))
    ≡ run_lines linux 0 at_start (cd_tmp ∷ exit_line ∷ [])
run_shell-lines_example =
    run_shell-lines linux 0 3 at_start (cd_tmp ∷ exit_line ∷ []) (b'x' ∷ [])
      ((refl, omega arith), ((refl, omega arith), tt)) refl (omega arith) (omega arith)

-- `ls`.
abbrev ls_tail : List ℕ
ls_tail = b's' ∷ []

run_cmd-crashes_example :
    is_crash (run_cmd linux 0 at_start (b'l' ∷ ls_tail))
    ≡ not
        (is_complete (parse_line (environment linux (reaped linux at_start)) 0 3 (b'l' ∷ ls_tail)))
unfolding starts_with
run_cmd-crashes_example = run_cmd-crashes linux 0 at_start b'l' ls_tail refl refl refl
