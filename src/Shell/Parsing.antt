-- ===== src/Shell/Parsing.antt =====
-- The parser of command lines: shell/parsing.c, with shell/createcmd.c and the string functions of
-- shell/utils.c. A C string is the list of its bytes, of any length, and the bytes behind the end
-- of the line's buffer are 0. The arrays of a `struct execcmd` (shell/types.h) are lists without a bound:
-- `argv` and `eargv` have room for 20 pointers, and the source writes behind them from 20 words or 21
-- variables on, so that the model is of commands with fewer.
pub mod Pipes
pub mod Pipelines
pub mod Words
use tps_sis_ops.Base.{
  ℕ, zero, suc, ◌+◌, Option, none, some, Bool, true, false, List, [], ◌∷◌, ◌++◌, ◌&&◌, not, length,
  take, drop, get_or, ltb, ◌==◌, if◌then◌else◌, str_eq,
}

abbrev pub space : ℕ
space = b' '

-- The index of the first `c`; `none` is -1.
unfoldable pub block_contains : List ℕ → ℕ → Option ℕ
block_contains [] c = none
block_contains (x ∷ xs) c =
    let rest = block_contains xs c in
    if x == c then some 0 else elim rest [ none ↦ none | some i ↦ some (i + 1) ]

-- The bytes up to the first space, or all.
unfoldable pub get_token : List ℕ → List ℕ
get_token [] = []
get_token (x ∷ xs) = let rest = get_token xs in if x == space then [] else x ∷ rest

-- The second loop of `split_line`.
unfoldable pub skip_spaces : List ℕ → List ℕ
skip_spaces [] = []
skip_spaces (x ∷ xs) = let rest = skip_spaces xs in if x == space then rest else x ∷ xs

-- What it leaves in `buf`, and what it returns.
unfoldable pub split_line : List ℕ → ℕ → List ℕ × List ℕ
split_line [] splitter = ([], [])
split_line (x ∷ xs) splitter =
    let rest = split_line xs splitter in
    if x == splitter then ([], skip_spaces xs) else (x ∷ rest.0, rest.1)

-- `EXEC` and `REDIR`, the types of a `struct execcmd`.
pub data ExecType : Type 0 where
  exec redir : ExecType

pub record ExecCmd : Type 0 where
  pub type : ExecType
  pub scmd : List ℕ
  pub argv : List (List ℕ)
  pub eargv : List (List ℕ)
  pub out_file : List ℕ
  pub in_file : List ℕ
  pub err_file : List ℕ

unfoldable pub exec_cmd_create : List ℕ → ExecCmd
exec_cmd_create buf_cmd = record {
  type = exec;
  scmd = buf_cmd;
  argv = [];
  eargv = [];
  out_file = [];
  in_file = [];
  err_file = [];
}

-- The `switch` on the index of `>`.
abbrev pub redirect_output : ExecCmd → List ℕ → ℕ → ExecCmd
redirect_output c arg zero = record c { type = redir; out_file = drop 1 arg }
redirect_output c arg (suc zero) = record c { type = redir; err_file = drop 2 arg }
redirect_output c arg (suc (suc n)) = record c { type = redir }

-- Its redirections, for the indices of `>` and `<`; `none` if it returns false.
abbrev pub redirect : ExecCmd → List ℕ → Option ℕ → Option ℕ → Option ExecCmd
redirect c arg (some i) less = some (redirect_output c arg i)
redirect c arg none (some i) = some (record c { type = redir; in_file = drop 1 arg })
redirect c arg none none = none

unfoldable pub parse_redir_flow : ExecCmd → List ℕ → Option ExecCmd
parse_redir_flow c arg = redirect c arg (block_contains arg b'>') (block_contains arg b'<')

-- The variable that it sets, for the indices of `=` and `-`; `none` if it returns false.
abbrev pub set_variable : ExecCmd → List ℕ → Option ℕ → Option ℕ → Option ExecCmd
set_variable c arg (some (suc i)) none = some (record c { eargv = c.eargv ++ (arg ∷ []) })
set_variable c arg _ _ = none

unfoldable pub parse_environ_var : ExecCmd → List ℕ → Option ExecCmd
parse_environ_var c arg = set_variable c arg (block_contains arg b'=') (block_contains arg b'-')

-- What the shell has besides the line: `getenv`, and the text of the last `status`.
pub record Environment : Type 0 where
  pub getenv : List ℕ → Option (List ℕ)
  pub status_text : List ℕ

abbrev or_empty : Option (List ℕ) → List ℕ
or_empty none = []
or_empty (some v) = v

-- `realloc` succeeds.
unfoldable pub expand_environ_var : Environment → List ℕ → List ℕ
expand_environ_var env [] = []
expand_environ_var env (x ∷ name) =
    if not (x == b'$')
    then x ∷ name
    else (if str_eq name (b'?' ∷ []) then env.status_text else or_empty (env.getenv name))

-- The end of a round of `parse_exec`: an empty argument is left out.
abbrev pub add_argument : ExecCmd → List ℕ → ExecCmd
add_argument c [] = c
add_argument c (x ∷ xs) = record c { argv = c.argv ++ ((x ∷ xs) ∷ []) }

-- `if (…) continue;`
abbrev pub or_else : Option ExecCmd → ExecCmd → ExecCmd
or_else (some c) rest = c
or_else none rest = rest

-- A round of `parse_exec` on its token.
unfoldable pub parse_token : Environment → ExecCmd → List ℕ → ExecCmd
parse_token env c tok =
    or_else (parse_redir_flow c tok)
      (or_else (parse_environ_var c tok) (add_argument c (expand_environ_var env tok)))

-- The loop of `parse_exec`, on fuel: every round takes a byte at least.
unfoldable pub parse_tokens : Environment → ℕ → ExecCmd → List ℕ → ExecCmd
parse_tokens env zero c buf = c
parse_tokens env (suc n) c [] = c
parse_tokens env (suc n) c (x ∷ xs) =
    let tok = get_token (x ∷ xs) in
    parse_tokens env n (parse_token env c tok) (drop (suc (length tok)) (x ∷ xs))

unfoldable pub parse_exec : Environment → List ℕ → ExecCmd
parse_exec env buf_cmd = parse_tokens env (length buf_cmd) (exec_cmd_create buf_cmd) buf_cmd

-- A command that is no pipe; `back` is a `struct backcmd`.
pub data Simple : Type 0 where
  front back : ExecCmd → Simple

-- `parse_back`, for the index of the `&`.
unfoldable pub parse_back : Environment → List ℕ → ℕ → Simple
parse_back env buf_cmd i = back (parse_exec env (take i buf_cmd))

-- `buf_cmd[idx - 1]`; `before` is the byte before the string.
abbrev pub byte_before : ℕ → List ℕ → ℕ → ℕ
byte_before before buf zero = before
byte_before before buf (suc i) = get_or buf i 0

unfoldable pub parse_cmd : Environment → ℕ → List ℕ → Option Simple
parse_cmd env before [] = none
parse_cmd env before (x ∷ xs) = elim (block_contains (x ∷ xs) b'&') [
  | none ↦ some (front (parse_exec env (x ∷ xs)))
  | some idx ↦
      if byte_before before (x ∷ xs) idx == b'>'
      then some (front (parse_exec env (x ∷ xs)))
      else some (parse_back env (x ∷ xs) idx)
]

-- A command line; `pipe` is a `struct pipecmd`, of which the left side may be NULL.
pub data Cmd : Type 0 where
  single : Simple → Cmd
  pipe : Option Simple → Cmd → Cmd

unfoldable pub pipe_cmd_create : Option Simple → Option Cmd → Option Cmd
pipe_cmd_create none none = none
pipe_cmd_create (some l) none = some (single l)
pipe_cmd_create l (some r) = some (pipe l r)

-- A command without pipes as a line.
abbrev pub to_cmd : Option Simple → Option Cmd
to_cmd none = none
to_cmd (some s) = some (single s)

-- `strchr(right, '|') == NULL`.
abbrev pub has_no_pipe : List ℕ → Bool
has_no_pipe right = elim (block_contains right b'|') [ none ↦ true | some _ ↦ false ]

-- On fuel: the right side is shorter than the line. The byte before a right side is a 0 or a space.
unfoldable pub parse_line : Environment → ℕ → ℕ → List ℕ → Option Cmd
parse_line env before zero buf = none
parse_line env before (suc n) buf =
    let parts = split_line buf b'|' in
    let rest = parse_line env 0 n parts.1 in
    pipe_cmd_create (parse_cmd env before parts.0)
      (if has_no_pipe parts.1 then to_cmd (parse_cmd env 0 parts.1) else rest)
