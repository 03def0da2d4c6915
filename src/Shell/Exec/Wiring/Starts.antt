-- ===== src/Shell/Exec/Wiring/Starts.antt =====
-- The programs that a command starts are those that it describes (shell/exec.c).
use tps_sis_ops.Base.{
  ℕ, suc, ◌≡◌, refl, ap, ap₂, ◌∙◌, inl, inr, Option, none, some, true, false, List, [], ◌∷◌, ◌++◌,
  ◌==◌, Bool-cases, str_eq, arith,
}
use mathlib.Core.List.{append-nil}
use tps_sis_ops.Shell.Parsing
use tps_sis_ops.Shell.Parsing.{
  block_contains, ExecType, exec, redir, ExecCmd, Simple, front, back, Cmd, single,
}
use tps_sis_ops.Shell.Exec.{
  Flags, Process, stdin_fileno, stdout_fileno, stderr_fileno, get_environ_key, value_behind,
  set_environ_vars, open_redir_fd, handle_redirection, exec_program, redirect_error, exec_redir,
  exec_typed, exec_simple, exec_left, exec_side, exec_cmd,
}
use tps_sis_ops.Shell.Exec.Wiring.{
  Stream, opened, read_end, write_end, closed, State, Program, System, set_other, above, with_pipe,
  programs, redirected, for_input, for_output, for_errors, redirected_error, with_vars, program_of,
  program, left_programs, connected,
}

set_other-same : (others : ℕ → Stream) (n : ℕ) (f : Stream) → set_other others n f n ≡ f
set_other-same others n f = let same : (n == n) ≡ true = ground arith in rw same refl

set_other-apart :
    (others : ℕ → Stream) (n i : ℕ) (f : Stream)
    → (i == n) ≡ false
    → set_other others n f i ≡ others i
set_other-apart others n i f apart = rw apart refl

-- What the descriptors from 3 on lead to makes no difference to a list of programs.
abbrev Starts : System → State → Process → List Program → Type 0
Starts os s p result = (others : ℕ → Stream) → programs os (record s { others = others }) p ≡ result

set_environ_vars-Starts :
    (os : System) (s : State) (args : List (List ℕ)) (rest : Process) (result : List Program)
    → Starts os (record s { vars = with_vars args s.vars }) rest result
    → Starts os s (set_environ_vars args rest) result
unfolding set_environ_vars with_vars
set_environ_vars-Starts os s [] rest result c = c
set_environ_vars-Starts os s (arg ∷ args) rest result c =
    set_environ_vars-Starts os
      (record s {
        vars = (get_environ_key arg, value_behind arg (block_contains arg b'=')) ∷ s.vars;
      })
      args rest result c

exec_program-Starts :
    (os : System) (s : State) (e : ExecCmd)
    → Starts os s (exec_program e) (program_of s exec e ∷ [])
unfolding exec_program program_of
exec_program-Starts os s e = set_environ_vars-Starts os s e.eargv _ _ (λ others. refl)

input-Starts :
    (os : System) (s : State) (file : List ℕ) (flags : Flags) (rest : Process)
    (result : List Program)
    → Starts os (record s { stdin = redirected file flags s.stdin }) rest result
    → Starts os s (handle_redirection file flags stdin_fileno rest) result
unfolding handle_redirection open_redir_fd redirected
input-Starts os s [] flags rest result c = c
input-Starts os s (x ∷ file) flags rest result c = λ others.
    let file_open = set_other others os.file_at (opened (x ∷ file) flags) in
    let file_closed = set_other file_open os.file_at closed in
    ap (λ f. programs os (record s { stdin = f; others = file_closed }) rest)
      (set_other-same others os.file_at (opened (x ∷ file) flags))
    ∙ c file_closed

output-Starts :
    (os : System) (s : State) (file : List ℕ) (flags : Flags) (rest : Process)
    (result : List Program)
    → Starts os (record s { stdout = redirected file flags s.stdout }) rest result
    → Starts os s (handle_redirection file flags stdout_fileno rest) result
unfolding handle_redirection open_redir_fd redirected
output-Starts os s [] flags rest result c = c
output-Starts os s (x ∷ file) flags rest result c = λ others.
    let file_open = set_other others os.file_at (opened (x ∷ file) flags) in
    let file_closed = set_other file_open os.file_at closed in
    ap (λ f. programs os (record s { stdout = f; others = file_closed }) rest)
      (set_other-same others os.file_at (opened (x ∷ file) flags))
    ∙ c file_closed

error-Starts :
    (os : System) (s : State) (file : List ℕ) (flags : Flags) (rest : Process)
    (result : List Program)
    → Starts os (record s { stderr = redirected file flags s.stderr }) rest result
    → Starts os s (handle_redirection file flags stderr_fileno rest) result
unfolding handle_redirection open_redir_fd redirected
error-Starts os s [] flags rest result c = c
error-Starts os s (x ∷ file) flags rest result c = λ others.
    let file_open = set_other others os.file_at (opened (x ∷ file) flags) in
    let file_closed = set_other file_open os.file_at closed in
    ap (λ f. programs os (record s { stderr = f; others = file_closed }) rest)
      (set_other-same others os.file_at (opened (x ∷ file) flags))
    ∙ c file_closed

redirect_error-Starts :
    (os : System) (s : State) (file : List ℕ) (rest : Process) (result : List Program)
    → Starts os (record s { stderr = redirected_error file s.stdout s.stderr }) rest result
    → Starts os s (redirect_error file rest) result
unfolding redirect_error redirected_error
redirect_error-Starts os s file rest result = elim (Bool-cases (str_eq file (b'&' ∷ b'1' ∷ []))) [
  | inl e ↦ rw e (λ c. c)
  | inr e ↦ rw e (error-Starts os s file for_errors rest result)
]

exec_typed-Starts :
    (os : System) (s : State) (t : ExecType) (e : ExecCmd)
    → Starts os s (exec_typed t e) (program_of s t e ∷ [])
unfolding exec_redir program_of
exec_typed-Starts os s exec e = exec_program-Starts os s e
exec_typed-Starts os s redir e =
    let out = redirected e.out_file for_output s.stdout in
    let s1 = record s { stdin = redirected e.in_file for_input s.stdin } in
    let s2 = record s1 { stdout = out } in
    let s3 = record s2 { stderr = redirected_error e.err_file out s.stderr } in
    input-Starts os s e.in_file for_input _ _ (
      output-Starts os s1 e.out_file for_output _ _
        (redirect_error-Starts os s2 e.err_file _ _ (exec_program-Starts os s3 e)))

exec_simple-Starts :
    (os : System) (s : State) (c : Simple) → Starts os s (exec_simple c) (program s c ∷ [])
unfolding exec_simple program
exec_simple-Starts os s (front e) = exec_typed-Starts os s e.type e
exec_simple-Starts os s (back e) = exec_typed-Starts os s e.type e

exec_left-Starts :
    (os : System) (s : State) (l : Option Simple) → Starts os s (exec_left l) (left_programs s l)
unfolding left_programs
exec_left-Starts os s none = λ others. refl
exec_left-Starts os s (some l) = exec_simple-Starts os s l

-- The ends of a pipe get two descriptors.
abbrev pub HasTwoEnds : System → Type 0
HasTwoEnds os = (n : ℕ) → ((os.pipe_at n).1 == (os.pipe_at n).0) ≡ false

-- `exec_side` where the pipe was just made, on the left and on the right.
left_side-Starts :
    (os : System) (s : State) (left : Process) (result : List Program)
    → HasTwoEnds os
    → let ends = os.pipe_at s.pipes in
      Starts os (record s { stdout = write_end s.pipes; pipes = suc s.pipes }) left result
      → (others : ℕ → Stream)
      → programs os
          (with_pipe os (record s { others = others }))
          (exec_side 0 (above ends.0) (above ends.1) stdout_fileno left)
        ≡ result
left_side-Starts os s left result two c others =
    let ends = os.pipe_at s.pipes in
    let reads = set_other others ends.0 (read_end s.pipes) in
    let made = set_other reads ends.1 (write_end s.pipes) in
    let unused_closed = set_other made ends.0 closed in
    let ends_closed = set_other unused_closed ends.1 closed in
    ap (λ f. programs os (record s { stdout = f; others = ends_closed; pipes = suc s.pipes }) left)
      (set_other-apart made ends.0 ends.1 closed (two s.pipes)
        ∙ set_other-same reads ends.1 (write_end s.pipes))
    ∙ c ends_closed

right_side-Starts :
    (os : System) (s : State) (pid : ℕ) (right : Process) (result : List Program)
    → HasTwoEnds os
    → let ends = os.pipe_at s.pipes in
      Starts os (record s { stdin = read_end s.pipes; pipes = suc s.pipes }) right result
      → (others : ℕ → Stream)
      → programs os
          (with_pipe os (record s { others = others }))
          (exec_side pid (above ends.1) (above ends.0) stdin_fileno right)
        ≡ result
right_side-Starts os s pid right result two c others =
    let ends = os.pipe_at s.pipes in
    let apart : (ends.1 == ends.0) ≡ false = two s.pipes in
    let apart' : (ends.0 == ends.1) ≡ false = ground arith in
    let reads = set_other others ends.0 (read_end s.pipes) in
    let made = set_other reads ends.1 (write_end s.pipes) in
    let unused_closed = set_other made ends.1 closed in
    let ends_closed = set_other unused_closed ends.0 closed in
    ap (λ f. programs os (record s { stdin = f; others = ends_closed; pipes = suc s.pipes }) right)
      (set_other-apart made ends.1 ends.0 closed apart'
        ∙ set_other-apart reads ends.1 ends.0 (write_end s.pipes) apart'
        ∙ set_other-same others ends.0 (read_end s.pipes))
    ∙ c ends_closed

exec_cmd-Starts :
    (os : System) (unset : ℕ) (s : State) (cmd : Cmd)
    → HasTwoEnds os
    → Starts os s (exec_cmd unset cmd) (connected s cmd)
unfolding exec_cmd connected
exec_cmd-Starts os unset s (single c) two = exec_simple-Starts os s c
exec_cmd-Starts os unset s (Parsing.pipe l r) two = λ others.
    ap₂ (λ x y. x ++ y) (left_side-Starts os s (exec_left l) _ two (exec_left-Starts os _ l) others)
      (append-nil _
        ∙ right_side-Starts os s os.pid (exec_cmd unset r) _ two
            (exec_cmd-Starts os unset (record s { stdin = read_end s.pipes; pipes = suc s.pipes }) r
              two)
            others)

-- If every call succeeds and the ends of each pipe get two descriptors above 2, the programs that a
-- command line starts, from left to right, are those of its commands, each with its arguments and
-- variables; the standard output of each left side leads to the pipe that the standard input of the
-- next program comes from, unless a redirection overrides it, and every other standard stream is
-- the shell's.
pub exec_cmd-connected :
    (os : System) (unset : ℕ) (s : State) (cmd : Cmd)
    → HasTwoEnds os
    → programs os s (exec_cmd unset cmd) ≡ connected s cmd
exec_cmd-connected os unset s cmd two = exec_cmd-Starts os unset s cmd two s.others
