-- ===== src/Sched/Text/Format/Pieces.antt =====
-- Formats made of pieces (sched/lib/printfmt.c).
use tps_sis_ops.Base.{
  ℕ, suc, ◌+◌, ◌-◌, length, ◌≤◌, ◌≡◌, refl, ap, ap₂, map, ◌∙◌, Option, none, some, true, false,
  List, [], ◌∷◌, ◌++◌, ◌==◌, arith,
}
use tps_sis_ops.Base.Chain.{occurs}
use tps_sis_ops.Base.Int.{ℤ, pos, negsuc}
use tps_sis_ops.Sched.Text.{padding, printnum}
use tps_sis_ops.Sched.Text.Format.{
  Arg, int, unsigned, string, no_flags, low_byte, or_null, shown, put_string, put_number,
  put_signed, process_precision, is_digit, convert, switch, next_action, prepend, format_from,
  vprintfmt,
}

-- A piece of a format, with its argument: text without `%`, `%d`, `%u`, `%x`, `%c`, `%s`, `%%`, and
-- `%0wx` with a width of one digit.
pub data Piece : Type 0 where
  plain : List ℕ → Piece
  decimal : ℤ → Piece
  natural : ℕ → Piece
  hexadecimal : ℕ → Piece
  character : ℤ → Piece
  text : Option (List ℕ) → Piece
  percent : Piece
  padded : ℕ → ℕ → Piece

abbrev pub format_of : Piece → List ℕ
format_of (plain t) = t
format_of (decimal z) = b'%' ∷ b'd' ∷ []
format_of (natural n) = b'%' ∷ b'u' ∷ []
format_of (hexadecimal n) = b'%' ∷ b'x' ∷ []
format_of (character z) = b'%' ∷ b'c' ∷ []
format_of (text t) = b'%' ∷ b's' ∷ []
format_of percent = b'%' ∷ b'%' ∷ []
format_of (padded w n) = b'%' ∷ b'0' ∷ (b'0' + w) ∷ b'x' ∷ []

abbrev pub args_of : Piece → List Arg
args_of (plain t) = []
args_of (decimal z) = int z ∷ []
args_of (natural n) = unsigned n ∷ []
args_of (hexadecimal n) = unsigned n ∷ []
args_of (character z) = int z ∷ []
args_of (text t) = string t ∷ []
args_of percent = []
args_of (padded w n) = unsigned n ∷ []

abbrev pub signed_text : ℤ → List ℕ
signed_text (pos n) = printnum n 10 0 b' '
signed_text (negsuc n) = b'-' ∷ printnum (suc n) 10 0 b' '

-- What a piece prints.
abbrev pub printed : Piece → List ℕ
printed (plain t) = t
printed (decimal z) = signed_text z
printed (natural n) = printnum n 10 0 b' '
printed (hexadecimal n) = printnum n 16 0 b' '
printed (character z) = low_byte z ∷ []
printed (text t) = or_null t
printed percent = b'%' ∷ []
printed (padded w n) = printnum n 16 w b'0'

abbrev pub IsPiece : Piece → Type 0
IsPiece (plain t) = occurs b'%' t ≡ false
IsPiece (padded w n) = (1 ≤ w) × (w ≤ 9)
IsPiece _ = Unit

abbrev pub ArePieces : List Piece → Type 0
ArePieces [] = Unit
ArePieces (p ∷ ps) = IsPiece p × ArePieces ps

abbrev pub formats : List Piece → List ℕ
formats [] = []
formats (p ∷ ps) = format_of p ++ formats ps

abbrev pub args : List Piece → List Arg
args [] = []
args (p ∷ ps) = args_of p ++ args ps

abbrev pub prints : List Piece → List ℕ
prints [] = []
prints (p ∷ ps) = printed p ++ prints ps

plain_lem :
    (t : List ℕ) (others : List Arg) (fmt out : List ℕ)
    → occurs b'%' t ≡ false
    → format_from none others fmt ≡ some out
    → format_from none others (t ++ fmt) ≡ some (t ++ out)
unfolding format_from
plain_lem [] others fmt out h e = e
plain_lem (x ∷ t) others fmt out h e =
    let other : (x == b'%') ≡ false = ground arith in
    rw other (ap (prepend (x ∷ [])) (plain_lem t others fmt out (ground arith) e))

shown_all : (t : List ℕ) → map (shown false) t ≡ t
shown_all [] = refl
shown_all (x ∷ t) = ap (λ r. x ∷ r) (shown_all t)

put_string_lem : (t : List ℕ) → put_string (record no_flags { seen = [] }) t ≡ t
unfolding put_string
put_string_lem t =
    let body = map (shown false) t in
    let no_pad : 0 - length body ≡ 0 = omega arith in
    ap (λ n. padding b' ' n ++ body) no_pad ∙ shown_all t

-- One piece in front of a format.
piece_lem :
    (p : Piece) (others : List Arg) (fmt out : List ℕ)
    → IsPiece p
    → format_from none others fmt ≡ some out
    → format_from none (args_of p ++ others) (format_of p ++ fmt) ≡ some (printed p ++ out)
unfolding format_from next_action switch convert put_signed put_number process_precision
piece_lem (plain t) others fmt out h e = plain_lem t others fmt out h e
piece_lem (decimal (pos n)) others fmt out h e = ap (prepend (printed (decimal (pos n)))) e
piece_lem (decimal (negsuc n)) others fmt out h e = ap (prepend (printed (decimal (negsuc n)))) e
piece_lem (natural n) others fmt out h e = ap (prepend (printed (natural n))) e
piece_lem (hexadecimal n) others fmt out h e = ap (prepend (printed (hexadecimal n))) e
piece_lem (character z) others fmt out h e = ap (prepend (printed (character z))) e
piece_lem (text t) others fmt out h e = ap₂ prepend (put_string_lem (or_null t)) e
piece_lem percent others fmt out h e = ap (prepend (printed percent)) e
piece_lem (padded w n) others fmt out h e =
    let is_minus : (b'0' + w == b'-') ≡ false = ground (arith, h.0) in
    let is_zero : (b'0' + w == b'0') ≡ false = ground (arith, h.0) in
    let digit : is_digit (b'0' + w) ≡ true = ground (arith, h.1) in
    let value : b'0' + w - b'0' ≡ w = omega arith in
    rw (is_minus, is_zero, digit, value) (ap (prepend (printnum n 16 w b'0')) e)

-- `vprintfmt` prints a format that is made of pieces piece by piece, each with its own argument.
pub vprintfmt-formats :
    (ps : List Piece) → ArePieces ps → vprintfmt (formats ps) (args ps) ≡ some (prints ps)
unfolding vprintfmt format_from
vprintfmt-formats [] h = refl
vprintfmt-formats (p ∷ ps) h =
    piece_lem p (args ps) (formats ps) (prints ps) h.0 (vprintfmt-formats ps h.1)
