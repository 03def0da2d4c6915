-- ===== src/Shell/Exec/Descriptors.antt =====
-- No process of a command keeps a descriptor that the shell opened for it (shell/exec.c).
use tps_sis_ops.Base.{
  ℕ, ◌≡◌, refl, inl, inr, Option, none, some, Bool, true, false, List, [], ◌∷◌, ◌==◌, if◌then◌else◌,
  Bool-cases, str_eq, arith,
}
use tps_sis_ops.Base.Chain.{occurs}
use tps_sis_ops.Shell.Parsing
use tps_sis_ops.Shell.Parsing.{ExecType, exec, redir, ExecCmd, Simple, front, back, Cmd, single}
use tps_sis_ops.Shell.Exec.{
  Flags, Process, execvp, exit, crash, setenv, open_file, dup2, close, make_pipe, fork, setpgid,
  waitpid, stdin_fileno, stdout_fileno, stderr_fileno, exit_failure, set_environ_vars,
  open_redir_fd, handle_redirection, exec_program, redirect_error, exec_redir, exec_typed,
  exec_simple, exec_left, exec_side, await_right, give_up, exec_pipe, exec_cmd,
}

-- The first occurrence is taken out.
abbrev pub remove : ℕ → List ℕ → List ℕ
remove x [] = []
remove x (y ∷ ys) = let rest = remove x ys in if x == y then ys else y ∷ rest

-- Whatever the calls answer, the process and those that it forks close only descriptors of `held` and
-- those that `open` and `pipe` gave them, and have closed all of these when they exit or become
-- another program.
abbrev pub Closes : List ℕ → Process → Type 0
Closes held (execvp argv rest) = (held ≡ []) × Closes held rest
Closes held (exit status) = held ≡ []
Closes held crash = held ≡ []
Closes held (setenv key value rest) = Closes held rest
Closes held (open_file file flags mode next) =
    Closes held (next none) × ((fd : ℕ) → Closes (fd ∷ held) (next (some fd)))
Closes held (dup2 fd fd_std next) = (ok : Bool) → Closes held (next ok)
Closes held (close fd rest) = (occurs fd held ≡ true) × Closes (remove fd held) rest
Closes held (make_pipe next) =
    Closes held (next none) × ((fd : ℕ × ℕ) → Closes (fd.0 ∷ fd.1 ∷ held) (next (some fd)))
Closes held (fork fails child parent) =
    Closes held fails × Closes held child × ((pid : ℕ) → Closes held (parent pid))
Closes held (setpgid pid pgid rest) = Closes held rest
Closes held (waitpid pid next) = (answer : Option (Option ℕ)) → Closes held (next answer)

-- A descriptor that was just got is closed again.
close-Closes :
    (fd : ℕ) (held : List ℕ) (rest : Process)
    → Closes held rest
    → Closes (fd ∷ held) (close fd rest)
close-Closes fd held rest c = let same : (fd == fd) ≡ true = ground arith in rw same (refl, c)

set_environ_vars-Closes :
    (held : List ℕ) (args : List (List ℕ)) (rest : Process)
    → Closes held rest
    → Closes held (set_environ_vars args rest)
unfolding set_environ_vars
set_environ_vars-Closes held [] rest c = c
set_environ_vars-Closes held (arg ∷ args) rest c = set_environ_vars-Closes held args rest c

handle_redirection-Closes :
    (file : List ℕ) (flags : Flags) (fd_std : ℕ) (rest : Process)
    → Closes [] rest
    → Closes [] (handle_redirection file flags fd_std rest)
unfolding handle_redirection open_redir_fd
handle_redirection-Closes [] flags fd_std rest c = c
handle_redirection-Closes (x ∷ file) flags fd_std rest c =
    (refl, λ fd ok. close-Closes fd [] rest c)

exec_program-Closes : (e : ExecCmd) → Closes [] (exec_program e)
unfolding exec_program
exec_program-Closes e = set_environ_vars-Closes [] e.eargv _ (refl, refl)

exit_unless-Closes :
    (rest : Process)
    → Closes [] rest
    → (ok : Bool) → Closes [] (if ok then rest else exit exit_failure)
exit_unless-Closes rest c true = c
exit_unless-Closes rest c false = refl

redirect_error-Closes :
    (file : List ℕ) (rest : Process) → Closes [] rest → Closes [] (redirect_error file rest)
unfolding redirect_error
redirect_error-Closes file rest c = elim (Bool-cases (str_eq file (b'&' ∷ b'1' ∷ []))) [
  | inl e ↦ rw e (exit_unless-Closes rest c)
  | inr e ↦ rw e (handle_redirection-Closes file _ stderr_fileno rest c)
]

exec_typed-Closes : (t : ExecType) (e : ExecCmd) → Closes [] (exec_typed t e)
unfolding exec_redir
exec_typed-Closes exec e = exec_program-Closes e
exec_typed-Closes redir e = handle_redirection-Closes e.in_file _ _ _ (
    handle_redirection-Closes e.out_file _ _ _
      (redirect_error-Closes e.err_file (exec_program e) (exec_program-Closes e)))

exec_simple-Closes : (s : Simple) → Closes [] (exec_simple s)
unfolding exec_simple
exec_simple-Closes (front e) = exec_typed-Closes e.type e
exec_simple-Closes (back e) = exec_typed-Closes e.type e

exec_left-Closes : (l : Option Simple) → Closes [] (exec_left l)
exec_left-Closes none = refl
exec_left-Closes (some s) = exec_simple-Closes s

-- The second of two descriptors is closed, then the first.
close_second-Closes :
    (fd fd' : ℕ) (rest : Process) → Closes (fd ∷ []) rest → Closes (fd ∷ fd' ∷ []) (close fd' rest)
close_second-Closes fd fd' rest c =
    let same : (fd' == fd') ≡ true = ground arith in
    elim (Bool-cases (fd' == fd)) [
      | inl e ↦ let q : fd' ≡ fd = ground arith in rw (e, q) (refl, c)
      | inr e ↦ rw (e, same) (refl, c)
    ]

-- Both ends of a pipe are closed.
close_both-Closes :
    (fd : ℕ × ℕ) (rest : Process)
    → Closes [] rest
    → Closes (fd.0 ∷ fd.1 ∷ []) (close fd.0 (close fd.1 rest))
close_both-Closes fd rest c =
    close-Closes fd.0 (fd.1 ∷ []) (close fd.1 rest) (close-Closes fd.1 [] rest c)

give_up-Closes : (fd : ℕ × ℕ) → Closes (fd.0 ∷ fd.1 ∷ []) (give_up fd)
give_up-Closes fd = close_both-Closes fd (exit exit_failure) refl

left_side-Closes :
    (fd : ℕ × ℕ) (rest : Process)
    → Closes [] rest
    → Closes (fd.0 ∷ fd.1 ∷ []) (exec_side 0 fd.0 fd.1 stdout_fileno rest)
left_side-Closes fd rest c =
    let behind : Bool → Process = λ ok. if ok then rest else exit exit_failure in
    close-Closes fd.0 (fd.1 ∷ []) (dup2 fd.1 stdout_fileno λ ok. close fd.1 (behind ok))
      (λ ok. close-Closes fd.1 [] (behind ok) (exit_unless-Closes rest c ok))

right_side-Closes :
    (pid : ℕ) (fd : ℕ × ℕ) (rest : Process)
    → Closes [] rest
    → Closes (fd.0 ∷ fd.1 ∷ []) (exec_side pid fd.1 fd.0 stdin_fileno rest)
right_side-Closes pid fd rest c =
    let behind : Bool → Process = λ ok. if ok then rest else exit exit_failure in
    close_second-Closes fd.0 fd.1 (dup2 fd.0 stdin_fileno λ ok. close fd.0 (behind ok))
      (λ ok. close-Closes fd.0 [] (behind ok) (exit_unless-Closes rest c ok))

await_right-Closes :
    (unset pid2 : ℕ) (answer : Option (Option ℕ)) → Closes [] (await_right unset pid2 answer)
await_right-Closes unset pid2 none = refl
await_right-Closes unset pid2 (some _) = λ answer. refl

exec_pipe-Closes :
    (unset : ℕ) (left right : Process)
    → Closes [] left
    → Closes [] right
    → (fd : ℕ × ℕ) → Closes (fd.0 ∷ fd.1 ∷ []) (exec_pipe unset left right (some fd))
exec_pipe-Closes unset left right cl cr fd = (
  give_up-Closes fd,
  left_side-Closes fd left cl,
  λ pid. (
    give_up-Closes fd,
    right_side-Closes pid fd right cr,
    λ pid2.
        close_both-Closes fd (waitpid pid (await_right unset pid2)) (await_right-Closes unset pid2),
  ),
)

-- Whatever the operating system answers to the calls of the processes of a command, each of them
-- closes only descriptors that it got from `open` or `pipe` and has not closed, and has closed all
-- of them when it becomes a program, when it goes on after a failed `execvp`, and when it ends.
pub exec_cmd-Closes : (unset : ℕ) (cmd : Cmd) → Closes [] (exec_cmd unset cmd)
unfolding exec_cmd
exec_cmd-Closes unset (single s) = exec_simple-Closes s
exec_cmd-Closes unset (Parsing.pipe l r) =
    (refl, λ fd. exec_pipe-Closes unset _ _ (exec_left-Closes l) (exec_cmd-Closes unset r) fd)
