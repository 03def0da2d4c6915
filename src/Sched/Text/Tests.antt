-- ===== src/Sched/Text/Tests.antt =====
-- Numbers printed and read (sched/lib/printfmt.c, sched/lib/string.c).
use tps_sis_ops.Base.{◌≡◌, refl, [], ◌∷◌, arith}
use tps_sis_ops.Base.Int.{negsuc}
use tps_sis_ops.Sched.Text.{
  printnum_in, printnum, digit_value, read_digits, skip_blanks, read_sign, read_prefix, strtol,
}
use tps_sis_ops.Sched.Text.Roundtrip.{strtol-printnum}

padded : printnum 255 16 4 b'0' ≡ b'0' ∷ b'0' ∷ b'f' ∷ b'f' ∷ []
unfolding printnum printnum_in
padded = refl

negative_octal : strtol (b' ' ∷ b'-' ∷ b'0' ∷ b'1' ∷ b'7' ∷ b'8' ∷ []) 0 ≡ (negsuc 14, b'8' ∷ [])
unfolding strtol skip_blanks read_sign read_prefix read_digits digit_value
negative_octal = refl

strtol-printnum_example : strtol (printnum 3405691582 16 0 b' ') 16 ≡ (negsuc 889275713, [])
strtol-printnum_example =
    strtol-printnum 3405691582 16 b' ' (omega arith) (omega arith) (omega arith)
