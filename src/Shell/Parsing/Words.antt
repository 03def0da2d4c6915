-- ===== src/Shell/Parsing/Words.antt =====
-- The words of a plain command line (shell/parsing.c).
use mathlib.Core.List.{append-nil, append_assoc}
use tps_sis_ops.Base.{
  ℕ, zero, suc, ◌≤◌, ◌≡◌, refl, sym, ap, ap₂, ◌∙◌, none, Bool, true, false, List, [], ◌∷◌, ◌++◌,
  ◌&&◌, not, length, drop, ◌==◌, if◌then◌else◌, inl, inr, Bool-cases, arith, length-drop,
}
use tps_sis_ops.Shell.Parsing.{
  space, block_contains, get_token, ExecCmd, exec_cmd_create, redirect, set_variable,
  parse_redir_flow, parse_environ_var, Environment, expand_environ_var, parse_token, parse_tokens,
  parse_exec, skip_spaces, add_argument,
}

-- A byte without a meaning to `parse_exec`, but a space.
abbrev pub is_plain : ℕ → Bool
is_plain x = not (x == b'>') && not (x == b'<') && not (x == b'=') && not (x == b'$')

abbrev pub IsPlain : List ℕ → Type 0
IsPlain [] = Unit
IsPlain (x ∷ xs) = (is_plain x ≡ true) × IsPlain xs

-- A word, if it is one.
abbrev flush : List ℕ → List (List ℕ)
flush [] = []
flush (x ∷ xs) = (x ∷ xs) ∷ []

-- The words between the spaces of a text, behind the bytes `word` of the first.
abbrev words_in : List ℕ → List ℕ → List (List ℕ)
words_in word [] = flush word
words_in word (x ∷ xs) =
    let ended = words_in [] xs in
    let more = words_in (word ++ (x ∷ [])) xs in if x == space then flush word ++ ended else more

-- The words of a text.
abbrev pub words : List ℕ → List (List ℕ)
words xs = words_in [] xs

IsPlain-get_token : (xs : List ℕ) → IsPlain xs → IsPlain (get_token xs)
unfolding get_token
IsPlain-get_token [] p = tt
IsPlain-get_token (x ∷ xs) (p, ps) = elim (Bool-cases (x == space)) [
  | inl e ↦ rw e tt
  | inr e ↦ rw e (p, IsPlain-get_token xs ps)
]

IsPlain-drop : (n : ℕ) (xs : List ℕ) → IsPlain xs → IsPlain (drop n xs)
IsPlain-drop zero xs p = p
IsPlain-drop (suc n) [] p = tt
IsPlain-drop (suc n) (x ∷ xs) (p, ps) = IsPlain-drop n xs ps

-- The first token, and the words behind it.
words_in-get_token :
    (word xs : List ℕ)
    → words_in word xs
      ≡ flush (word ++ get_token xs) ++ words (drop (suc (length (get_token xs))) xs)
unfolding get_token
words_in-get_token word [] =
    ap flush (sym (append-nil word)) ∙ sym (append-nil (flush (word ++ [])))
words_in-get_token word (x ∷ xs) = elim (Bool-cases (x == space)) [
  | inl e ↦ rw e (ap (λ w. flush w ++ words xs) (sym (append-nil word)))
  | inr e ↦ rw e (
      words_in-get_token (word ++ (x ∷ [])) xs
      ∙ ap (λ w. flush w ++ words (drop (suc (length (get_token xs))) xs))
          (append_assoc word (x ∷ []) (get_token xs)))
]

plain-block_contains :
    (c : ℕ) (w : List ℕ)
    → ((x : ℕ) → is_plain x ≡ true → (x == c) ≡ false)
    → IsPlain w
    → block_contains w c ≡ none
unfolding block_contains
plain-block_contains c [] out p = refl
plain-block_contains c (x ∷ xs) out (p, ps) = rw (out x p, plain-block_contains c xs out ps) refl

parse_redir_flow-none :
    (c : ExecCmd) (w : List ℕ)
    → block_contains w b'>' ≡ none
    → block_contains w b'<' ≡ none
    → parse_redir_flow c w ≡ none
unfolding parse_redir_flow
parse_redir_flow-none c w gt lt = ap₂ (redirect c w) gt lt

parse_environ_var-none :
    (c : ExecCmd) (w : List ℕ) → block_contains w b'=' ≡ none → parse_environ_var c w ≡ none
unfolding parse_environ_var
parse_environ_var-none c w eq = ap (λ o. set_variable c w o (block_contains w b'-')) eq

expand_environ_var-plain :
    (env : Environment) (x : ℕ) (xs : List ℕ)
    → (x == b'$') ≡ false
    → expand_environ_var env (x ∷ xs) ≡ x ∷ xs
unfolding expand_environ_var
expand_environ_var-plain env x xs dollar = rw dollar refl

-- The command with the given words behind its arguments.
abbrev pub add_words : ExecCmd → List (List ℕ) → ExecCmd
add_words c ws = record c { argv = c.argv ++ ws }

add_argument-flush : (c : ExecCmd) (tok : List ℕ) → add_argument c tok ≡ add_words c (flush tok)
add_argument-flush c [] = ap (λ v. record c { argv = v }) (sym (append-nil c.argv))
add_argument-flush c (x ∷ xs) = refl

expand_plain : (env : Environment) (tok : List ℕ) → IsPlain tok → expand_environ_var env tok ≡ tok
unfolding expand_environ_var
expand_plain env [] p = refl
expand_plain env (x ∷ xs) p = expand_environ_var-plain env x xs (let h = p.0 in ground arith)

-- A plain token becomes an argument, if it is not empty.
parse_token-plain :
    (env : Environment) (c : ExecCmd) (tok : List ℕ)
    → IsPlain tok
    → parse_token env c tok ≡ add_words c (flush tok)
unfolding parse_token
parse_token-plain env c tok p =
    let gt = plain-block_contains b'>' tok (λ y h. ground arith) p in
    let lt = plain-block_contains b'<' tok (λ y h. ground arith) p in
    let eq = plain-block_contains b'=' tok (λ y h. ground arith) p in
    let redir = parse_redir_flow-none c tok gt lt in
    let var = parse_environ_var-none c tok eq in
    rw (redir, var, expand_plain env tok p) (add_argument-flush c tok)

parse_tokens-nil : (env : Environment) (n : ℕ) (c : ExecCmd) → parse_tokens env n c [] ≡ c
unfolding parse_tokens
parse_tokens-nil env zero c = refl
parse_tokens-nil env (suc n) c = refl

parse_tokens-words :
    (env : Environment) (n : ℕ) (c : ExecCmd) (xs : List ℕ)
    → IsPlain xs
    → length xs ≤ n
    → parse_tokens env n c xs ≡ add_words c (words xs)
unfolding parse_tokens
parse_tokens-words env n c [] p le =
    parse_tokens-nil env n c ∙ ap (λ v. record c { argv = v }) (sym (append-nil c.argv))
parse_tokens-words env zero c (x ∷ xs) p le = absurd (omega (arith, le))
parse_tokens-words env (suc n) c (x ∷ xs) p le =
    let tok = get_token (x ∷ xs) in
    let rest = drop (length tok) xs in
    ap (λ c. parse_tokens env n c rest) (parse_token-plain env c tok (IsPlain-get_token (x ∷ xs) p))
    ∙ parse_tokens-words env n (add_words c (flush tok)) rest (IsPlain-drop (length tok) xs p.1)
        (omega (arith, le, length-drop (length tok) xs))
    ∙ ap (λ v. record c { argv = v })
        (append_assoc c.argv (flush tok) (words rest)
          ∙ ap (λ v. c.argv ++ v) (sym (words_in-get_token [] (x ∷ xs))))

-- A text without the bytes > < = $ is parsed to the command with its words as the arguments, in their
-- order, and nothing redirected or set.
pub parse_exec-words :
    (env : Environment) (xs : List ℕ)
    → IsPlain xs
    → parse_exec env xs ≡ record (exec_cmd_create xs) { argv = words xs }
unfolding parse_exec exec_cmd_create
parse_exec-words env xs p =
    parse_tokens-words env (length xs) (exec_cmd_create xs) xs p (omega arith)

-- The spaces before the first word do not count.
pub words-skip_spaces : (xs : List ℕ) → words (skip_spaces xs) ≡ words xs
unfolding skip_spaces
words-skip_spaces [] = refl
words-skip_spaces (x ∷ xs) = elim (Bool-cases (x == space)) [
  | inl e ↦ rw e (words-skip_spaces xs)
  | inr e ↦ rw e (rw e refl)
]

pub IsPlain-skip_spaces : (xs : List ℕ) → IsPlain xs → IsPlain (skip_spaces xs)
unfolding skip_spaces
IsPlain-skip_spaces [] p = tt
IsPlain-skip_spaces (x ∷ xs) (p, ps) = elim (Bool-cases (x == space)) [
  | inl e ↦ rw e (IsPlain-skip_spaces xs ps)
  | inr e ↦ rw e (p, ps)
]

-- Rounds enough for the bytes of a line are as good as any greater number of them: its length is
-- enough for the loop to reach the line's end.
pub parse_tokens_enough :
    (env : Environment) (n m : ℕ) (c : ExecCmd) (buf : List ℕ)
    → length buf ≤ n
    → length buf ≤ m
    → parse_tokens env n c buf ≡ parse_tokens env m c buf
unfolding parse_tokens
parse_tokens_enough env n m c [] a b = parse_tokens-nil env n c ∙ sym (parse_tokens-nil env m c)
parse_tokens_enough env zero m c (x ∷ xs) a b = absurd (omega (arith, a))
parse_tokens_enough env (suc n) zero c (x ∷ xs) a b = absurd (omega (arith, b))
parse_tokens_enough env (suc n) (suc m) c (x ∷ xs) a b =
    let k = length (get_token (x ∷ xs)) in
    parse_tokens_enough env n m (parse_token env c (get_token (x ∷ xs))) (drop k xs)
      (omega (arith, a, length-drop k xs)) (omega (arith, b, length-drop k xs))
