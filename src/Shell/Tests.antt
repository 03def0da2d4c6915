-- ===== src/Shell/Tests.antt =====
-- Tests of the parser (shell/parsing.c).
use tps_sis_ops.Base.{◌≡◌, refl, none, [], ◌∷◌, str_eq}
use tps_sis_ops.Shell.Parsing.{space, skip_spaces, split_line, Environment, expand_environ_var}

abbrev no_variables : Environment
no_variables = record { getenv = λ name. none; status_text = b'0' ∷ [] }

-- `a| b`.
pipe_split : split_line (b'a' ∷ b'|' ∷ space ∷ b'b' ∷ []) b'|' ≡ (b'a' ∷ [], b'b' ∷ [])
unfolding split_line skip_spaces
pipe_split = refl

-- `$?`.
last_status : expand_environ_var no_variables (b'$' ∷ b'?' ∷ []) ≡ b'0' ∷ []
unfolding expand_environ_var str_eq
last_status = refl
