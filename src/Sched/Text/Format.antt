-- ===== src/Sched/Text/Format.antt =====
-- Formatted output: `vprintfmt` of sched/lib/printfmt.c. The output is the list of
-- the low bytes of what `putch` gets.
pub mod Pieces
pub mod Buffer
mod Tests
use tps_sis_ops.Base.{
  ℕ, zero, suc, ◌+◌, ◌-◌, ◌*◌, ◌%◌, ◌^◌, Option, none, some, Bool, true, false, ◌&&◌, ◌||◌, not,
  List, [], ◌∷◌, ◌++◌, map, length, take, ltb, leb, ◌==◌, if◌then◌else◌, update,
}
use tps_sis_ops.Base.Int.{ℤ, pos, negsuc, ltb_int}
use tps_sis_ops.Sched.Text.{padding, printnum}

-- An argument: an `int`, `long` or `long long`; an unsigned one or a pointer; or a string, which may
-- be NULL.
pub data Arg : Type 0 where
  int : ℤ → Arg
  unsigned : ℕ → Arg
  string : Option (List ℕ) → Arg

-- The state of an escape sequence: the variables of `vprintfmt`; the characters behind the `%`, the
-- last one first; and the number read so far, within a width field.
pub record Escape : Type 0 where
  pub padc : ℕ
  pub width : ℤ
  pub precision : ℤ
  pub altflag : Bool
  pub seen : List ℕ
  pub number : Option ℕ

abbrev pub no_flags : Escape
no_flags = record {
  padc = b' ';
  width = negsuc 0;
  precision = negsuc 0;
  altflag = false;
  seen = [];
  number = none;
}

abbrev pub magnitude : ℤ → ℕ
magnitude (pos n) = n
magnitude (negsuc n) = suc n

-- The low byte of an `int`.
abbrev pub low_byte : ℤ → ℕ
low_byte (pos n) = n % 256
low_byte (negsuc n) = 255 - n % 256

-- A width; below 0 it is as good as 0.
abbrev pub field : ℤ → ℕ
field (pos n) = n
field (negsuc n) = 0

abbrev pub unspecified_error : List ℕ
unspecified_error =
    b'u' ∷ b'n' ∷ b's' ∷ b'p' ∷ b'e' ∷ b'c' ∷ b'i' ∷ b'f' ∷ b'i' ∷ b'e' ∷ b'd' ∷ b' ' ∷ b'e' ∷ b'r'
    ∷ b'r' ∷ b'o' ∷ b'r' ∷ []

abbrev pub bad_environment : List ℕ
bad_environment =
    b'b' ∷ b'a' ∷ b'd' ∷ b' ' ∷ b'e' ∷ b'n' ∷ b'v' ∷ b'i' ∷ b'r' ∷ b'o' ∷ b'n' ∷ b'm' ∷ b'e' ∷ b'n'
    ∷ b't' ∷ []

abbrev pub invalid_parameter : List ℕ
invalid_parameter =
    b'i' ∷ b'n' ∷ b'v' ∷ b'a' ∷ b'l' ∷ b'i' ∷ b'd' ∷ b' ' ∷ b'p' ∷ b'a' ∷ b'r' ∷ b'a' ∷ b'm' ∷ b'e'
    ∷ b't' ∷ b'e' ∷ b'r' ∷ []

abbrev pub out_of_memory : List ℕ
out_of_memory =
    b'o' ∷ b'u' ∷ b't' ∷ b' ' ∷ b'o' ∷ b'f' ∷ b' ' ∷ b'm' ∷ b'e' ∷ b'm' ∷ b'o' ∷ b'r' ∷ b'y' ∷ []

abbrev pub out_of_environments : List ℕ
out_of_environments =
    b'o' ∷ b'u' ∷ b't' ∷ b' ' ∷ b'o' ∷ b'f' ∷ b' ' ∷ b'e' ∷ b'n' ∷ b'v' ∷ b'i' ∷ b'r' ∷ b'o' ∷ b'n'
    ∷ b'm' ∷ b'e' ∷ b'n' ∷ b't' ∷ b's' ∷ []

abbrev pub segmentation_fault : List ℕ
segmentation_fault =
    b's' ∷ b'e' ∷ b'g' ∷ b'm' ∷ b'e' ∷ b'n' ∷ b't' ∷ b'a' ∷ b't' ∷ b'i' ∷ b'o' ∷ b'n' ∷ b' ' ∷ b'f'
    ∷ b'a' ∷ b'u' ∷ b'l' ∷ b't' ∷ []

abbrev pub not_recving : List ℕ
not_recving =
    b'e' ∷ b'n' ∷ b'v' ∷ b' ' ∷ b'i' ∷ b's' ∷ b' ' ∷ b'n' ∷ b'o' ∷ b't' ∷ b' ' ∷ b'r' ∷ b'e' ∷ b'c'
    ∷ b'v' ∷ b'i' ∷ b'n' ∷ b'g' ∷ []

abbrev pub end_of_file : List ℕ
end_of_file =
    b'u' ∷ b'n' ∷ b'e' ∷ b'x' ∷ b'p' ∷ b'e' ∷ b'c' ∷ b't' ∷ b'e' ∷ b'd' ∷ b' ' ∷ b'e' ∷ b'n' ∷ b'd'
    ∷ b' ' ∷ b'o' ∷ b'f' ∷ b' ' ∷ b'f' ∷ b'i' ∷ b'l' ∷ b'e' ∷ []

abbrev pub null_text : List ℕ
null_text = b'(' ∷ b'n' ∷ b'u' ∷ b'l' ∷ b'l' ∷ b')' ∷ []

abbrev pub error_text : List ℕ
error_text = b'e' ∷ b'r' ∷ b'r' ∷ b'o' ∷ b'r' ∷ b' ' ∷ []

-- `error_string`, from 1 on.
abbrev pub error_strings : List (List ℕ)
error_strings =
    unspecified_error ∷ bad_environment ∷ invalid_parameter ∷ out_of_memory ∷ out_of_environments
    ∷ segmentation_fault ∷ not_recving ∷ end_of_file ∷ []

abbrev pub nth_string : List (List ℕ) → ℕ → Option (List ℕ)
nth_string [] n = none
nth_string (t ∷ ts) zero = some t
nth_string (t ∷ ts) (suc n) = nth_string ts n

abbrev pub error_string : ℕ → Option (List ℕ)
error_string zero = none
error_string (suc n) = nth_string error_strings n

-- What `%e` puts, without the fields that its `printfmt` of another format does not have.
abbrev pub put_error : ℕ → Option (List ℕ) → List ℕ
put_error err none = error_text ++ printnum err 10 0 b' '
put_error err (some text) = text

-- A character of a string.
abbrev pub shown : Bool → ℕ → ℕ
shown altflag ch = if altflag && (ltb ch b' ' || ltb b'~' ch) then b'?' else ch

-- What a precision leaves of a string.
abbrev pub cut : ℤ → List ℕ → List ℕ
cut (pos n) text = take n text
cut (negsuc n) text = text

abbrev pub or_null : Option (List ℕ) → List ℕ
or_null none = null_text
or_null (some text) = text

unfoldable pub put_string : Escape → List ℕ → List ℕ
put_string e text =
    let body = map (shown e.altflag) (cut e.precision text) in
    let pad = field e.width - length body in
    if e.padc == b'-' then body ++ padding b' ' pad else padding e.padc pad ++ body

unfoldable pub put_number : Escape → ℕ → ℕ → List ℕ
put_number e num base = printnum num base (field e.width) e.padc

unfoldable pub put_signed : Escape → ℤ → List ℕ
put_signed e (pos n) = put_number e n 10
put_signed e (negsuc n) = b'-' ∷ put_number e (suc n) 10

-- What a character of an escape sequence leads to: the next one, with the arguments left; an output
-- behind which the text goes on; the escape sequence as it stands; or no defined behaviour, where
-- an argument is missing or of another type.
pub data Action : Type 0 where
  reswitch : Escape → List Arg → Action
  put : List ℕ → List Arg → Action
  literally undefined : Action

-- `process_precision`.
unfoldable pub process_precision : Escape → ℤ → Escape
process_precision e precision =
    if ltb_int e.width (pos 0)
    then record e { width = precision; precision = negsuc 0 }
    else record e { precision = precision }

-- The conversions, with their arguments.
abbrev pub with_int : List Arg → (ℤ → List Arg → Action) → Action
with_int (int z ∷ args) next = next z args
with_int _ next = undefined

abbrev pub with_unsigned : List Arg → (ℕ → List Arg → Action) → Action
with_unsigned (unsigned n ∷ args) next = next n args
with_unsigned _ next = undefined

abbrev pub with_string : List Arg → (Option (List ℕ) → List Arg → Action) → Action
with_string (string text ∷ args) next = next text args
with_string _ next = undefined

unfoldable pub convert : Escape → List Arg → ℕ → Action
convert e args ch =
    if ch == b'c'
    then with_int args (λ z. put (low_byte z ∷ []))
    else (if ch == b'e'
        then with_int args (λ z. put (put_error (magnitude z) (error_string (magnitude z))))
        else (if ch == b's'
            then with_string args (λ text. put (put_string e (or_null text)))
            else (if ch == b'd'
                then with_int args (λ z. put (put_signed e z))
                else (if ch == b'u'
                    then with_unsigned args (λ n. put (put_number e n 10))
                    else (if ch == b'o'
                        then with_unsigned args (λ n. put (put_number e n 8))
                        else (if ch == b'p'
                            then with_unsigned args (λ n. put (b'0' ∷ b'x' ∷ put_number e n 16))
                            else (if ch == b'x'
                                then with_unsigned args (λ n. put (put_number e n 16))
                                else (if ch == b'%' then put (b'%' ∷ []) args else literally))))))))

abbrev pub is_digit : ℕ → Bool
is_digit ch = leb b'0' ch && leb ch b'9'

-- The `switch`. The type of an argument says what `lflag` does.
unfoldable pub switch : Escape → List Arg → ℕ → Action
switch e args ch =
    if ch == b'-'
    then reswitch (record e { padc = b'-' }) args
    else (if ch == b'0'
        then reswitch (record e { padc = b'0' }) args
        else (if is_digit ch
            then reswitch (record e { number = some (ch - b'0') }) args
            else (if ch == b'*'
                then with_int args (λ z. reswitch (process_precision e z))
                else (if ch == b'.'
                    then reswitch
                        (if ltb_int e.width (pos 0) then record e { width = pos 0 } else e) args
                    else (if ch == b'#'
                        then reswitch (record e { altflag = true }) args
                        else (if ch == b'l' then reswitch e args else convert e args ch))))))

-- A character within or behind a width field, or where there is none.
unfoldable pub next_action : Escape → List Arg → ℕ → Option ℕ → Action
next_action e args ch none = switch e args ch
next_action e args ch (some n) =
    if is_digit ch
    then reswitch (record e { number = some (n * 10 + (ch - b'0')) }) args
    else switch (process_precision (record e { number = none }) (pos n)) args ch

abbrev pub put_back : List ℕ → List ℕ → List ℕ
put_back [] text = text
put_back (ch ∷ seen) text = put_back seen (ch ∷ text)

abbrev pub prepend : List ℕ → Option (List ℕ) → Option (List ℕ)
prepend text none = none
prepend text (some rest) = some (text ++ rest)

-- What follows an action on `ch`: `escape` goes on in the escape sequence, `plain` behind it. An
-- unrecognised sequence is read again as text; none of its characters is a `%`.
abbrev pub follow :
    Escape
    → List Arg
    → ℕ
    → (Escape → List Arg → Option (List ℕ))
    → (List Arg → Option (List ℕ))
    → Action
    → Option (List ℕ)
follow e args ch escape plain (reswitch e' args') = escape (record e' { seen = ch ∷ e.seen }) args'
follow e args ch escape plain (put text args') = prepend text (plain args')
follow e args ch escape plain literally = prepend (b'%' ∷ put_back (ch ∷ e.seen) []) (plain args)
follow e args ch escape plain undefined = none

-- `vprintfmt` in the text (`none`) and in an escape sequence.
unfoldable pub format_from : Option Escape → List Arg → List ℕ → Option (List ℕ)
format_from none args [] = some []
format_from none args (ch ∷ fmt) =
    let escape = format_from (some no_flags) args fmt in
    let plain = format_from none args fmt in if ch == b'%' then escape else prepend (ch ∷ []) plain
format_from (some e) args [] = some (b'%' ∷ put_back e.seen [])
format_from (some e) args (ch ∷ fmt) =
    follow e args ch (λ e' args'. format_from (some e') args' fmt)
      (λ args'. format_from none args' fmt) (next_action e args ch e.number)

unfoldable pub vprintfmt : List ℕ → List Arg → Option (List ℕ)
vprintfmt fmt args = format_from none args fmt
