-- ===== src/Sched/Text/Format/Tests.antt =====
-- Tests of formatted output (sched/lib/printfmt.c).
use Prim.Native.Nat.{min}
use tps_sis_ops.Base.{ℕ, ◌≡◌, ◌<◌, refl, some, List, [], ◌∷◌, length, get_or, arith}
use tps_sis_ops.Base.Int.{pos, negsuc}
use tps_sis_ops.Sched.Text.{printnum, printnum_in}
use tps_sis_ops.Sched.Text.Format.{
  int, string, put_string, put_number, put_signed, process_precision, convert, switch, next_action,
  format_from, vprintfmt,
}
use tps_sis_ops.Sched.Text.Format.Pieces.{
  Piece, plain, decimal, padded, formats, args, prints, vprintfmt-formats,
}
use tps_sis_ops.Sched.Text.Format.Buffer.{vsnprintf, vsnprintf_lem}

-- `%3s`.
string_in_field :
    vprintfmt (b'%' ∷ b'3' ∷ b's' ∷ []) (string (some (b'a' ∷ [])) ∷ [])
    ≡ some (b' ' ∷ b' ' ∷ b'a' ∷ [])
unfolding vprintfmt format_from next_action switch process_precision convert put_string
string_in_field = refl

-- `%-3d` fills the field with `-` on the left.
left_flag :
    vprintfmt (b'%' ∷ b'-' ∷ b'3' ∷ b'd' ∷ []) (int (pos 5) ∷ []) ≡ some (b'-' ∷ b'-' ∷ b'5' ∷ [])
unfolding vprintfmt format_from next_action switch process_precision convert put_signed put_number
    printnum printnum_in
left_flag = refl

-- `%lz` is not a conversion.
unrecognised : vprintfmt (b'%' ∷ b'l' ∷ b'z' ∷ []) [] ≡ some (b'%' ∷ b'l' ∷ b'z' ∷ [])
unfolding vprintfmt format_from next_action switch convert
unrecognised = refl

-- `x=%d %08x`.
abbrev pieces : List Piece
pieces = plain (b'x' ∷ b'=' ∷ []) ∷ decimal (negsuc 4) ∷ plain (b' ' ∷ []) ∷ padded 8 255 ∷ []

vprintfmt-formats_example : vprintfmt (formats pieces) (args pieces) ≡ some (prints pieces)
vprintfmt-formats_example =
    vprintfmt-formats pieces (refl, (tt, (refl, ((omega arith, omega arith), tt))))

abbrev zeros : ℕ → ℕ
zeros a = 0

abbrev abc : List ℕ
abc = b'a' ∷ b'b' ∷ b'c' ∷ []

vsnprintf_lem_example :
    let r = vsnprintf zeros 3 abc in
    (r.0 ≡ pos (length abc))
    × ((j : ℕ) → j < min (length abc) 2 → r.1 j ≡ get_or abc j 0)
    × (r.1 (min (length abc) 2) ≡ 0)
    × ((j : ℕ) → min (length abc) 2 < j → r.1 j ≡ zeros j)
vsnprintf_lem_example = vsnprintf_lem zeros 2 abc
