-- ===== src/Shell/Exec/Wiring.antt =====
-- Where the standard streams of the programs of a command lead (shell/exec.c).
pub mod Pipelines
pub mod Starts
use tps_sis_ops.Base.{
  ℕ, zero, suc, ◌≡◌, refl, ap, ap₂, ◌∙◌, inl, inr, Option, none, some, true, false, List, [], ◌∷◌,
  ◌++◌, ◌==◌, if◌then◌else◌, Bool-cases, str_eq, arith,
}
use mathlib.Core.List.{append-nil}
use tps_sis_ops.Shell.Parsing
use tps_sis_ops.Shell.Parsing.{
  block_contains, ExecType, exec, redir, ExecCmd, Simple, front, back, Cmd, single,
}
use tps_sis_ops.Shell.Exec.{
  Flags, Process, execvp, exit, crash, setenv, open_file, dup2, close, make_pipe, fork, setpgid,
  waitpid, stdin_fileno, stdout_fileno, stderr_fileno, get_environ_key, value_behind,
  set_environ_vars, open_redir_fd, handle_redirection, exec_program, redirect_error, exec_redir,
  exec_typed, exec_simple, exec_left, exec_side, exec_cmd,
}

-- What a descriptor leads to: a stream of the shell, an opened file, or an end of the n-th pipe.
pub data Stream : Type 0 where
  inherited : ℕ → Stream
  opened : List ℕ → Flags → Stream
  read_end write_end : ℕ → Stream
  closed : Stream

-- A process: its descriptors 0, 1, 2 and those from 3 on, the variables that it has set, and the
-- pipes that were made before.
pub record State : Type 0 where
  pub stdin : Stream
  pub stdout : Stream
  pub stderr : Stream
  pub others : ℕ → Stream
  pub vars : List (List ℕ × List ℕ)
  pub pipes : ℕ

-- A program that was started.
pub record Program : Type 0 where
  pub argv : List (List ℕ)
  pub vars : List (List ℕ × List ℕ)
  pub stdin : Stream
  pub stdout : Stream
  pub stderr : Stream

-- The descriptors, less 3, that the operating system gives to the ends of the n-th pipe and to a
-- file, and the pid that it gives.
pub record System : Type 0 where
  pub pipe_at : ℕ → ℕ × ℕ
  pub file_at : ℕ
  pub pid : ℕ

abbrev pub lookup : State → ℕ → Stream
lookup s zero = s.stdin
lookup s (suc zero) = s.stdout
lookup s (suc (suc zero)) = s.stderr
lookup s (suc (suc (suc n))) = s.others n

abbrev pub set_other : (ℕ → Stream) → ℕ → Stream → ℕ → Stream
set_other others n f i = if i == n then f else others i

abbrev pub set_stream : State → ℕ → Stream → State
set_stream s zero f = record s { stdin = f }
set_stream s (suc zero) f = record s { stdout = f }
set_stream s (suc (suc zero)) f = record s { stderr = f }
set_stream s (suc (suc (suc n))) f = record s { others = set_other s.others n f }

abbrev pub above : ℕ → ℕ
above n = suc (suc (suc n))

-- The state behind the n-th `pipe`.
abbrev pub with_pipe : System → State → State
with_pipe os s =
    let ends = os.pipe_at s.pipes in
    record s {
      others = set_other (set_other s.others ends.0 (read_end s.pipes)) ends.1 (write_end s.pipes);
      pipes = suc s.pipes;
    }

abbrev pub start : State → List (List ℕ) → Program
start s argv = record {
  argv = argv;
  vars = s.vars;
  stdin = s.stdin;
  stdout = s.stdout;
  stderr = s.stderr;
}

-- The programs that a process and those that it forks become, if every call succeeds; the child's
-- come first.
abbrev pub programs : System → State → Process → List Program
programs os s (execvp argv rest) = start s argv ∷ []
programs os s (exit status) = []
programs os s crash = []
programs os s (setenv key value rest) = programs os (record s { vars = (key, value) ∷ s.vars }) rest
programs os s (open_file file flags mode next) =
    programs os (set_stream s (above os.file_at) (opened file flags))
      (next (some (above os.file_at)))
programs os s (dup2 fd fd_std next) = programs os (set_stream s fd_std (lookup s fd)) (next true)
programs os s (close fd rest) = programs os (set_stream s fd closed) rest
programs os s (make_pipe next) =
    let ends = os.pipe_at s.pipes in
    programs os (with_pipe os s) (next (some (above ends.0, above ends.1)))
programs os s (fork fails child parent) = programs os s child ++ programs os s (parent os.pid)
programs os s (setpgid pid pgid rest) = programs os s rest
programs os s (waitpid pid next) = programs os s (next (some (some 0)))

-- A redirection, of a stream that leads to `f` without it.
unfoldable pub redirected : List ℕ → Flags → Stream → Stream
redirected [] flags f = f
redirected (x ∷ file) flags f = opened (x ∷ file) flags

abbrev pub for_input : Flags
for_input = record { writes = false; creates = false; truncates = false }

abbrev pub for_output : Flags
for_output = record { writes = true; creates = true; truncates = true }

abbrev pub for_errors : Flags
for_errors = record { writes = true; creates = true; truncates = false }

unfoldable pub redirected_error : List ℕ → Stream → Stream → Stream
redirected_error file out f =
    if str_eq file (b'&' ∷ b'1' ∷ []) then out else redirected file for_errors f

-- The variables of a command, in front of those set before; the last one set comes first.
unfoldable pub with_vars : List (List ℕ) → List (List ℕ × List ℕ) → List (List ℕ × List ℕ)
with_vars [] vars = vars
with_vars (arg ∷ args) vars =
    with_vars args ((get_environ_key arg, value_behind arg (block_contains arg b'=')) ∷ vars)

unfoldable pub program_of : State → ExecType → ExecCmd → Program
program_of s exec e = record (start s e.argv) { vars = with_vars e.eargv s.vars }
program_of s redir e =
    let out = redirected e.out_file for_output s.stdout in
    record {
      argv = e.argv;
      vars = with_vars e.eargv s.vars;
      stdin = redirected e.in_file for_input s.stdin;
      stdout = out;
      stderr = redirected_error e.err_file out s.stderr;
    }

unfoldable pub program : State → Simple → Program
program s (front e) = program_of s e.type e
program s (back e) = program_of s e.type e

unfoldable pub left_programs : State → Option Simple → List Program
left_programs s none = []
left_programs s (some l) = program s l ∷ []

-- The programs that a command line describes: that of the left side writes to a new pipe, and those of
-- the right side have the first one read from it.
unfoldable pub connected : State → Cmd → List Program
connected s (single c) = program s c ∷ []
connected s (Parsing.pipe l r) =
    left_programs (record s { stdout = write_end s.pipes; pipes = suc s.pipes }) l
    ++ connected (record s { stdin = read_end s.pipes; pipes = suc s.pipes }) r
