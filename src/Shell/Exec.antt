-- ===== src/Shell/Exec.antt =====
-- The execution of a parsed command (shell/exec.c): the calls of the operating system that the process
-- makes which the shell forks for it, and those of the processes that it forks in turn. What the
-- calls answer is open. Messages on the standard error stream are not modelled.
pub mod Descriptors
pub mod Wiring
mod Tests
use tps_sis_ops.Base.{
  ℕ, zero, suc, Option, none, some, Bool, true, false, List, [], ◌∷◌, ◌==◌, if◌then◌else◌, drop,
  str_eq,
}
use tps_sis_ops.Shell.Parsing
use tps_sis_ops.Shell.Parsing.{
  block_contains, ExecType, exec, redir, ExecCmd, Simple, front, back, Cmd, single,
}

-- The flags of `open`: `O_WRONLY` or `O_RDONLY`, `O_CREAT` and `O_TRUNC`.
pub record Flags : Type 0 where
  pub writes : Bool
  pub creates : Bool
  pub truncates : Bool

-- A process from some point on: the next call, and what follows for each answer. A call that fails
-- answers `none` or `false`. `execvp` goes on only if it fails; `fork` goes on in the parent if it
-- fails, in the child, and in the parent with the child's pid; the answer of `waitpid` is the exit
-- status, if the child exited. `crash` is an access through a NULL pointer.
pub data Process : Type 0 where
  execvp : List (List ℕ) → Process → Process
  exit : ℕ → Process
  crash : Process
  setenv : List ℕ → List ℕ → Process → Process
  open_file : List ℕ → Flags → Bool → (Option ℕ → Process) → Process
  dup2 : ℕ → ℕ → (Bool → Process) → Process
  close : ℕ → Process → Process
  make_pipe : (Option (ℕ × ℕ) → Process) → Process
  fork : Process → Process → (ℕ → Process) → Process
  setpgid : ℕ → ℕ → Process → Process
  waitpid : ℕ → (Option (Option ℕ) → Process) → Process

-- `STDIN_FILENO`, `STDOUT_FILENO` and `STDERR_FILENO`; `EXIT_FAILURE`.
abbrev pub stdin_fileno : ℕ
stdin_fileno = 0

abbrev pub stdout_fileno : ℕ
stdout_fileno = 1

abbrev pub stderr_fileno : ℕ
stderr_fileno = 2

abbrev pub exit_failure : ℕ
exit_failure = 1

-- The bytes before the first `=`; the source reads on where there is none.
unfoldable pub get_environ_key : List ℕ → List ℕ
get_environ_key [] = []
get_environ_key (x ∷ arg) = let rest = get_environ_key arg in if x == b'=' then [] else x ∷ rest

unfoldable pub get_environ_value : List ℕ → ℕ → List ℕ
get_environ_value arg idx = drop (suc idx) arg

-- The value, for the index of the `=`; the index -1 makes it the whole string.
abbrev pub value_behind : List ℕ → Option ℕ → List ℕ
value_behind arg none = arg
value_behind arg (some idx) = get_environ_value arg idx

unfoldable pub set_environ_vars : List (List ℕ) → Process → Process
set_environ_vars [] rest = rest
set_environ_vars (arg ∷ args) rest =
    setenv (get_environ_key arg) (value_behind arg (block_contains arg b'='))
      (set_environ_vars args rest)

-- The mode is given for a file that may be created.
unfoldable pub open_redir_fd : List ℕ → Flags → (Option ℕ → Process) → Process
open_redir_fd file flags next = open_file file flags flags.creates next

-- What `handle_redirection` does with the descriptor.
abbrev pub redirect_to : ℕ → Process → Option ℕ → Process
redirect_to fd_std rest none = exit exit_failure
redirect_to fd_std rest (some fd) = dup2 fd fd_std λ _. close fd rest

unfoldable pub handle_redirection : List ℕ → Flags → ℕ → Process → Process
handle_redirection [] flags fd_std rest = rest
handle_redirection (x ∷ file) flags fd_std rest =
    open_redir_fd (x ∷ file) flags (redirect_to fd_std rest)

-- `EXEC`.
unfoldable pub exec_program : ExecCmd → Process
exec_program e = set_environ_vars e.eargv (execvp e.argv (exit exit_failure))

-- The standard error stream of a `REDIR`: to where the standard output goes, to a file, or as it is.
unfoldable pub redirect_error : List ℕ → Process → Process
redirect_error file rest =
    if str_eq file (b'&' ∷ b'1' ∷ [])
    then dup2 stdout_fileno stderr_fileno (λ ok. if ok then rest else exit exit_failure)
    else handle_redirection file record { writes = true; creates = true; truncates = false }
        stderr_fileno rest

-- `REDIR`.
unfoldable pub exec_redir : ExecCmd → Process
exec_redir e =
    handle_redirection e.in_file record { writes = false; creates = false; truncates = false }
      stdin_fileno
      (handle_redirection e.out_file record { writes = true; creates = true; truncates = true }
        stdout_fileno (redirect_error e.err_file (exec_program e)))

abbrev pub exec_typed : ExecType → ExecCmd → Process
exec_typed exec e = exec_program e
exec_typed redir e = exec_redir e

-- `BACK` goes on to its command.
unfoldable pub exec_simple : Simple → Process
exec_simple (front e) = exec_typed e.type e
exec_simple (back e) = exec_typed e.type e

-- The left side of a pipe may be NULL.
abbrev pub exec_left : Option Simple → Process
exec_left none = crash
exec_left (some s) = exec_simple s

-- A side of a pipe: the end `unused` is closed, and `used` becomes `fd_std`.
abbrev pub exec_side : ℕ → ℕ → ℕ → ℕ → Process → Process
exec_side pid unused used fd_std rest =
    setpgid 0 pid
      (close unused (dup2 used fd_std λ ok. close used (if ok then rest else exit exit_failure)))

-- The exit status that the parent of a pipe takes over, for the answer of the second `waitpid`; if
-- that has none, `status2` is not set, and stands for `unset`.
abbrev pub exit_code : ℕ → Option (Option ℕ) → ℕ
exit_code unset none = unset
exit_code unset (some none) = 1
exit_code unset (some (some code)) = code

-- The second `waitpid` is not called if the first one fails.
abbrev pub await_right : ℕ → ℕ → Option (Option ℕ) → Process
await_right unset pid2 none = exit unset
await_right unset pid2 (some _) = waitpid pid2 λ answer. exit (exit_code unset answer)

-- The end of the parent of a pipe.
abbrev pub await_sides : ℕ → ℕ × ℕ → ℕ → ℕ → Process
await_sides unset fd pid pid2 = close fd.0 (close fd.1 (waitpid pid (await_right unset pid2)))

-- `close(fd[READ]); close(fd[WRITE]); _exit(EXIT_FAILURE)`.
abbrev pub give_up : ℕ × ℕ → Process
give_up fd = close fd.0 (close fd.1 (exit exit_failure))

-- `PIPE` behind its `pipe`, for the processes of both sides.
abbrev pub exec_pipe : ℕ → Process → Process → Option (ℕ × ℕ) → Process
exec_pipe unset left right none = exit exit_failure
exec_pipe unset left right (some fd) =
    fork (give_up fd) (exec_side 0 fd.0 fd.1 stdout_fileno left) λ pid.
      fork (give_up fd) (exec_side pid fd.1 fd.0 stdin_fileno right)
        λ pid2. await_sides unset fd pid pid2

-- `unset` stands for what an `int` holds that was not set.
unfoldable pub exec_cmd : ℕ → Cmd → Process
exec_cmd unset (single s) = exec_simple s
exec_cmd unset (Parsing.pipe l r) = make_pipe (exec_pipe unset (exec_left l) (exec_cmd unset r))
