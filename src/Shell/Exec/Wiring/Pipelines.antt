-- ===== src/Shell/Exec/Wiring/Pipelines.antt =====
-- From a line with pipes to the programs that it starts (shell/parsing.c, shell/exec.c).
use tps_sis_ops.Base.{ℕ, suc, ◌<◌, ◌≡◌, refl, ap, ◌∙◌, some, List, [], ◌∷◌, length, map}
use tps_sis_ops.Shell.Parsing.Words.{words, words-skip_spaces}
use tps_sis_ops.Shell.Parsing.{skip_spaces, exec_cmd_create, Environment, Cmd, parse_line}
use tps_sis_ops.Shell.Parsing.Pipelines.{IsPart, AreParts, pipeline, piped, parse_line-pipeline}
use tps_sis_ops.Shell.Exec.{exec_cmd}
use tps_sis_ops.Shell.Exec.Wiring.{
  read_end, write_end, State, Program, System, start, programs, with_vars, program_of, program,
  left_programs, connected,
}
use tps_sis_ops.Shell.Exec.Wiring.Starts.{HasTwoEnds, exec_cmd-connected}

-- The programs of the given words, each of which writes to a pipe that the next one reads from.
abbrev pub chain : State → List (List ℕ) → List (List (List ℕ)) → List Program
chain s c [] = start s c ∷ []
chain s c (d ∷ ds) =
    start (record s { stdout = write_end s.pipes; pipes = suc s.pipes }) c
    ∷ chain (record s { stdin = read_end s.pipes; pipes = suc s.pipes }) d ds

connected-piped :
    (s : State) (c : List ℕ) (cs : List (List ℕ))
    → connected s (piped c cs) ≡ chain s (words c) (map words cs)
unfolding connected left_programs program program_of with_vars exec_cmd_create
connected-piped s c [] = refl
connected-piped s c (d ∷ ds) =
    let s' = record s { stdin = read_end s.pipes; pipes = suc s.pipes } in
    ap (λ ps. start (record s { stdout = write_end s.pipes; pipes = suc s.pipes }) (words c) ∷ ps)
      (connected-piped s' (skip_spaces d) ds
        ∙ ap (λ ws. chain s' ws (map words ds)) (words-skip_spaces d))

-- A line of commands with a `|` between two, each a text without `> < = $ | &` that has between 1 and
-- 19 words with any spaces between and around them, and less than 1024 bytes in all, is parsed on as
-- many rounds as there are commands; and if every call succeeds and the ends of each pipe get two
-- descriptors above 2, the process of the command starts one program for each, in their order, with
-- its words as the arguments, the standard output of each leading to the pipe that the standard
-- input of the next one comes from, and all other standard streams as they were.
pub pipeline-programs :
    (env : Environment) (os : System) (before unset n : ℕ) (s : State)
    → (c : List ℕ) (cs : List (List ℕ)) → IsPart c
    → AreParts cs
    → length (pipeline c cs) < 1024
    → HasTwoEnds os
    → length cs < n
    → (cmd : Cmd) × (parse_line env before n (pipeline c cs) ≡ some cmd)
      × (programs os s (exec_cmd unset cmd) ≡ chain s (words c) (map words cs))
pipeline-programs env os before unset n s c cs part parts short two rounds = (
  piped c cs,
  parse_line-pipeline env before n c cs part parts rounds,
  exec_cmd-connected os unset s (piped c cs) two ∙ connected-piped s c cs,
)
