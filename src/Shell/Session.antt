-- ===== src/Shell/Session.antt =====
-- The shell's loop: shell/readline.c, shell/builtin.c, shell/runcmd.c, shell/printstatus.c,
-- shell/freecmd.c and `run_shell` of shell/sh.c. The operating system's state is of any type. The
-- prompt and the reports on a terminal are not modelled.
pub mod Lines
pub mod Commands
mod Tests
use tps_sis_ops.Base.{
  ℕ, zero, suc, ◌+◌, ◌*◌, Option, none, some, Bool, true, false, List, [], ◌∷◌, ◌++◌, ◌&&◌, map,
  length, drop, leb, ◌==◌, if◌then◌else◌,
}
use tps_sis_ops.Base.Int.{ℤ, pos, negsuc, eqb_int}
use tps_sis_ops.Shell.Parsing
use tps_sis_ops.Shell.Parsing.{ExecCmd, Simple, front, back, Cmd, single, Environment, parse_line}

-- What the shell calls of the C library and the operating system, whose state is a `W`. `fork`
-- starts `exec_cmd` on a command in the child and gives the pid, or -1; a status is given by
-- `waitpid` if a process of the pid is found that has ended, where it may not wait (`WNOHANG`).
-- The last five read a status, as the macros of `sys/wait.h` do.
pub record Library (W : Type 0) : Type 0 where
  pub getenv : List ℕ → Option (List ℕ)
  pub chdir : W → List ℕ → Option W
  pub getcwd : W → Option (List ℕ)
  pub fork : W → Cmd → ℤ × W
  pub waitpid : W → ℤ → Bool → Option ℤ × W
  pub text : ℤ → List ℕ
  pub has_exited : ℤ → Bool
  pub exit_status : ℤ → ℤ
  pub is_signaled : ℤ → Bool
  pub term_sig : ℤ → ℕ
  pub stop_sig : ℤ → ℕ

-- The shell's global variables, and the lines that it has written, the last one first.
pub record Shell (W : Type 0) : Type 0 where
  pub world : W
  pub prompt : List ℕ
  pub status : ℤ
  pub background : ℤ
  pub written : List (List ℕ)

abbrev pub buflen : ℕ
buflen = 1024

abbrev pub end_line : ℕ
end_line = 10

-- `strncmp(cmd, word, strlen(word)) == 0`.
unfoldable pub starts_with : List ℕ → List ℕ → Bool
starts_with [] cmd = true
starts_with (x ∷ word) [] = false
starts_with (x ∷ word) (y ∷ cmd) = (x == y) && starts_with word cmd

abbrev pub exit_word : List ℕ
exit_word = b'e' ∷ b'x' ∷ b'i' ∷ b't' ∷ []

abbrev pub cd_word : List ℕ
cd_word = b'c' ∷ b'd' ∷ []

abbrev pub pwd_word : List ℕ
pwd_word = b'p' ∷ b'w' ∷ b'd' ∷ []

abbrev pub home_name : List ℕ
home_name = b'H' ∷ b'O' ∷ b'M' ∷ b'E' ∷ []

unfoldable pub exit_shell : List ℕ → Bool
exit_shell cmd = starts_with exit_word cmd

-- It is not implemented.
abbrev pub history : List ℕ → Bool
history cmd = false

-- `-n`.
abbrev pub neg : ℕ → ℤ
neg zero = pos 0
neg (suc n) = negsuc n

module _ {W : Type 0} where
  -- The end of `cd`, for the answer of `chdir` and for that of `getcwd` behind it.
  abbrev pub set_prompt : Shell W → Option (List ℕ) → Bool × Shell W
  set_prompt s none = (false, s)
  set_prompt s (some cwd) = (true, record s { prompt = cwd })

  abbrev pub changed : Library W → Shell W → Option W → Bool × Shell W
  changed lib s none = (false, s)
  changed lib s (some w) = set_prompt (record s { world = w }) (lib.getcwd w)

  -- `cd`, for the answer of `getenv`.
  abbrev pub cd_home : Library W → Shell W → Option (List ℕ) → Bool × Shell W
  cd_home lib s none = (false, s)
  cd_home lib s (some home) = changed lib s (lib.chdir s.world home)

  -- What it does with the text behind `cd`, the first byte of which is skipped.
  abbrev pub cd_to : Library W → Shell W → List ℕ → Bool × Shell W
  cd_to lib s [] = cd_home lib s (lib.getenv home_name)
  cd_to lib s (_ ∷ no_cd) = changed lib s (lib.chdir s.world no_cd)

  unfoldable pub cd : Library W → Shell W → List ℕ → Bool × Shell W
  cd lib s cmd = if starts_with cd_word cmd then cd_to lib s (drop 2 cmd) else (false, s)

  abbrev pub write_line : Shell W → Option (List ℕ) → Bool × Shell W
  write_line s none = (false, s)
  write_line s (some cwd) = (true, record s { written = cwd ∷ s.written })

  unfoldable pub pwd : Library W → Shell W → List ℕ → Bool × Shell W
  pwd lib s cmd = if starts_with pwd_word cmd then write_line s (lib.getcwd s.world) else (false, s)

  -- `waitpid(pid, &status, …)`.
  abbrev pub store : Shell W → Option ℤ × W → Shell W
  store s (none, w) = record s { world = w }
  store s (some status, w) = record s { world = w; status = status }

  abbrev pub wait_for : Library W → Shell W → ℤ → Bool → Shell W
  wait_for lib s pid no_hang = store s (lib.waitpid s.world pid no_hang)

  -- The text of a command that is not a pipe; `print_status_info` leaves a pipe's status as it is.
  unfoldable pub print_status_info : Library W → Shell W → ExecCmd → Shell W
  print_status_info lib s e = elim e.scmd [
    | [] ↦ s
    | _ ∷ _ ↦
        if lib.has_exited s.status
        then record s { status = lib.exit_status s.status }
        else (if lib.is_signaled s.status
            then record s { status = neg (lib.term_sig s.status) }
            else (if lib.term_sig s.status == 0
                then s
                else record s { status = neg (lib.stop_sig s.status) }))
  ]

  -- What `run_cmd` does with the command and the pid of its process.
  unfoldable pub await : Library W → Shell W → Cmd → ℤ → Shell W
  await lib s (single (back e)) pid = record s { background = pid }
  await lib s (single (front e)) pid = print_status_info lib (wait_for lib s pid false) e
  await lib s (Parsing.pipe l r) pid = wait_for lib s pid false

-- What `free_command` frees: an argument, a variable, or the structure of a command.
pub data Block : Type 0 where
  argument variable : List ℕ → Block
  exec_block : ExecCmd → Block
  back_block : ExecCmd → Block
  pipe_block : Option Simple → Cmd → Block

unfoldable pub free_exec : ExecCmd → List Block
free_exec e = map argument e.argv ++ map variable e.eargv ++ (exec_block e ∷ [])

unfoldable pub free_simple : Simple → List Block
free_simple (front e) = free_exec e
free_simple (back e) = free_exec e ++ (back_block e ∷ [])

-- The end of a pipe's `free_command`, where the left side is not NULL.
abbrev pub free_pipe : Simple → Cmd → Option (List Block) → Option (List Block)
free_pipe l r none = none
free_pipe l r (some blocks) = some (free_simple l ++ blocks ++ (pipe_block (some l) r ∷ []))

-- `none` is an access through a NULL pointer.
unfoldable pub free_command : Cmd → Option (List Block)
free_command (single c) = some (free_simple c)
free_command (Parsing.pipe none r) = none
free_command (Parsing.pipe (some l) r) = free_pipe l r (free_command r)

-- `run_cmd` returns 0 or `EXIT_SHELL`, or the shell accesses memory through a NULL pointer.
pub data Outcome (W : Type 0) : Type 0 where
  goes_on exits crashes : Shell W → Outcome W

module _ {W : Type 0} where
  abbrev pub freed : Shell W → Option (List Block) → Outcome W
  freed s none = crashes s
  freed s (some blocks) = goes_on s

  -- `run_cmd` behind `fork`, and behind `parse_line`.
  abbrev pub in_parent : Library W → Shell W → Cmd → ℤ × W → Outcome W
  in_parent lib s cmd (pid, w) =
      freed (await lib (record s { world = w }) cmd pid) (free_command cmd)

  abbrev pub run_parsed : Library W → Shell W → Option Cmd → Outcome W
  run_parsed lib s none = crashes s
  run_parsed lib s (some cmd) = in_parent lib s cmd (lib.fork s.world cmd)

  abbrev pub environment : Library W → Shell W → Environment
  environment lib s = record { getenv = lib.getenv; status_text = lib.text s.status }

  -- Each built-in command, if the ones before it return 0.
  abbrev pub after_pwd : Library W → ℕ → List ℕ → Bool × Shell W → Outcome W
  after_pwd lib before cmd (true, s) = goes_on s
  after_pwd lib before cmd (false, s) =
      run_parsed lib s (parse_line (environment lib s) before (suc (length cmd)) cmd)

  abbrev pub after_cd : Library W → ℕ → List ℕ → Bool × Shell W → Outcome W
  after_cd lib before cmd (true, s) = goes_on s
  after_cd lib before cmd (false, s) =
      if exit_shell cmd then exits s else after_pwd lib before cmd (pwd lib s cmd)

  -- `before` is the byte before the line's buffer.
  unfoldable pub run_cmd : Library W → ℕ → Shell W → List ℕ → Outcome W
  run_cmd lib before s [] = goes_on (wait_for lib s s.background true)
  run_cmd lib before s (x ∷ xs) =
      let s' = wait_for lib s s.background true in
      if history (x ∷ xs) then goes_on s' else after_cd lib before (x ∷ xs) (cd lib s' (x ∷ xs))

-- A line and the input behind it; the end of the input; or a byte is written behind the buffer.
pub data Line : Type 0 where
  line : List ℕ → List ℕ → Line
  no_line overflow : Line

abbrev pub with_byte : ℕ → Line → Line
with_byte c (line bytes input) = line (c ∷ bytes) input
with_byte c no_line = no_line
with_byte c overflow = overflow

-- `read_line` on the input, from the byte `i` of the buffer on.
unfoldable pub read_from : ℕ → List ℕ → Line
read_from i [] = no_line
read_from i (c ∷ input) =
    let rest = read_from (i + 1) input in
    if leb buflen i then overflow else (if c == end_line then line [] input else with_byte c rest)

abbrev pub read_line : List ℕ → Line
read_line = read_from 0

-- The bytes before the first 0, which are the line as a C string.
unfoldable pub c_string : List ℕ → List ℕ
c_string [] = []
c_string (x ∷ xs) = let rest = c_string xs in if x == 0 then [] else x ∷ rest

-- How the shell's loop ends; `out_of_fuel` is where the rounds of the model are used up.
pub data Ending (W : Type 0) : Type 0 where
  returns killed overflows out_of_fuel : Shell W → Ending W

module _ {W : Type 0} where
  -- The rest of the loop, for the rounds behind a `run_cmd` that returns 0.
  abbrev pub next_round : (Shell W → Ending W) → Outcome W → Ending W
  next_round rounds (goes_on s) = rounds s
  next_round rounds (exits s) = returns s
  next_round rounds (crashes s) = killed s

  -- A round, for what `read_line` gives.
  abbrev pub after_line : Library W → ℕ → (Shell W → List ℕ → Ending W) → Shell W → Line → Ending W
  after_line lib before rounds s (line bytes rest) =
      next_round (λ s'. rounds s' rest) (run_cmd lib before s (c_string bytes))
  after_line lib before rounds s no_line = returns s
  after_line lib before rounds s overflow = overflows s

  unfoldable pub run_shell : Library W → ℕ → ℕ → Shell W → List ℕ → Ending W
  run_shell lib before zero s input = out_of_fuel s
  run_shell lib before (suc n) s input =
      after_line lib before (λ s' rest. run_shell lib before n s' rest) s (read_line input)
