-- ===== src/Shell/Exec/Tests.antt =====
-- Tests of the execution of commands (shell/exec.c).
use tps_sis_ops.Base.{ℕ, ◌≡◌, refl, none, some, List, [], map, ◌∷◌, str_eq, arith}
use tps_sis_ops.Shell.Parsing
use tps_sis_ops.Shell.Parsing.{
  exec_cmd_create, ExecCmd, exec, redir, front, Cmd, single, Environment, parse_line,
}
use tps_sis_ops.Shell.Exec.{get_environ_key, get_environ_value, exec_cmd}
use tps_sis_ops.Shell.Exec.Descriptors.{Closes, exec_cmd-Closes}
use tps_sis_ops.Shell.Exec.Wiring.{
  inherited, opened, read_end, write_end, State, System, Program, programs, for_errors, redirected,
  redirected_error, with_vars, program_of, program, left_programs, connected,
}
use tps_sis_ops.Shell.Exec.Wiring.Starts.{exec_cmd-connected}
use tps_sis_ops.Shell.Exec.Wiring.Pipelines.{chain, pipeline-programs}
use tps_sis_ops.Shell.Parsing.Words.{words}
use tps_sis_ops.Shell.Parsing.Pipelines.{IsPart, pipeline}

-- `ls 2>e|wc`.
abbrev ls : ExecCmd
ls = record (exec_cmd_create []) {
  type = redir;
  argv = (b'l' ∷ b's' ∷ []) ∷ [];
  err_file = b'e' ∷ [];
}

abbrev wc : ExecCmd
wc = record (exec_cmd_create []) { argv = (b'w' ∷ b'c' ∷ []) ∷ [] }

abbrev ls_wc : Cmd
ls_wc = Parsing.pipe (some (front ls)) (single (front wc))

abbrev of_shell : State
of_shell = record {
  stdin = inherited 0;
  stdout = inherited 1;
  stderr = inherited 2;
  others = inherited;
  vars = [];
  pipes = 0;
}

abbrev linux : System
linux = record { pipe_at = λ n. (0, 1); file_at = 0; pid = 7 }

abbrev ls_started : Program
ls_started = record {
  argv = ls.argv;
  vars = [];
  stdin = inherited 0;
  stdout = write_end 0;
  stderr = opened (b'e' ∷ []) for_errors;
}

abbrev wc_started : Program
wc_started = record {
  argv = wc.argv;
  vars = [];
  stdin = read_end 0;
  stdout = inherited 1;
  stderr = inherited 2;
}

ls_wc-connected : connected of_shell ls_wc ≡ ls_started ∷ wc_started ∷ []
unfolding connected left_programs program program_of redirected redirected_error with_vars
    exec_cmd_create str_eq
ls_wc-connected = refl

-- `A=b`.
key_of : get_environ_key (b'A' ∷ b'=' ∷ b'b' ∷ []) ≡ b'A' ∷ []
unfolding get_environ_key
key_of = refl

value_of : get_environ_value (b'A' ∷ b'=' ∷ b'b' ∷ []) 1 ≡ b'b' ∷ []
unfolding get_environ_value
value_of = refl

exec_cmd-Closes_example : Closes [] (exec_cmd 0 ls_wc)
exec_cmd-Closes_example = exec_cmd-Closes 0 ls_wc

exec_cmd-connected_example : programs linux of_shell (exec_cmd 0 ls_wc) ≡ connected of_shell ls_wc
exec_cmd-connected_example = exec_cmd-connected linux 0 of_shell ls_wc (λ n. refl)

-- `ls -l | wc`.
abbrev ls_text : List ℕ
ls_text = b'l' ∷ b's' ∷ b' ' ∷ b'-' ∷ b'l' ∷ b' ' ∷ []

abbrev wc_text : List ℕ
wc_text = b' ' ∷ b'w' ∷ b'c' ∷ []

ls_text-IsPart : IsPart ls_text
ls_text-IsPart = record {
  plain = (refl, (refl, (refl, (refl, (refl, (refl, tt))))));
  some_word = omega arith;
  fits = omega arith;
  no_bar = refl;
  no_amp = refl;
}

wc_text-IsPart : IsPart wc_text
wc_text-IsPart = record {
  plain = (refl, (refl, (refl, tt)));
  some_word = omega arith;
  fits = omega arith;
  no_bar = refl;
  no_amp = refl;
}

abbrev no_variables : Environment
no_variables = record { getenv = λ name. none; status_text = b'0' ∷ [] }

ls_words : words ls_text ≡ (b'l' ∷ b's' ∷ []) ∷ (b'-' ∷ b'l' ∷ []) ∷ []
ls_words = refl

pipeline-programs_example :
    (cmd : Cmd) × (parse_line no_variables 0 2 (pipeline ls_text (wc_text ∷ [])) ≡ some cmd)
    × (programs linux of_shell (exec_cmd 0 cmd)
        ≡ chain of_shell (words ls_text) (map words (wc_text ∷ [])))
pipeline-programs_example =
    pipeline-programs no_variables linux 0 0 2 of_shell ls_text (wc_text ∷ []) ls_text-IsPart
      (wc_text-IsPart, tt) (omega arith) (λ n. refl) (omega arith)
