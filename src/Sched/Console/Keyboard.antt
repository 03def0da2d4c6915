-- ===== src/Sched/Console/Keyboard.antt =====
-- The keyboard's tables and its shift state (sched/kern/console.c).
use Prim.Native.Nat.{bit_and, bit_or, bit_xor}
use tps_sis_ops.Base.{
  ℕ, zero, suc, ◌+◌, ◌-◌, ◌%◌, ◌^◌, ◌&&◌, List, [], ◌∷◌, leb, ◌==◌, if◌then◌else◌,
}

-- An initialised array of 256 bytes: the entries given in order, then those given with an index; the
-- others are 0.
abbrev pub nth_or_0 : List ℕ → ℕ → ℕ
nth_or_0 [] i = 0
nth_or_0 (x ∷ xs) zero = x
nth_or_0 (x ∷ xs) (suc i) = nth_or_0 xs i

abbrev pub at_key : List (ℕ × ℕ) → ℕ → ℕ
at_key [] i = 0
at_key ((k, v) ∷ xs) i = let rest = at_key xs i in if i == k then v else rest

abbrev pub table : List ℕ → List (ℕ × ℕ) → ℕ → ℕ
table xs keyed i = let later = at_key keyed i in if later == 0 then nth_or_0 xs i else later

-- `SHIFT`, `CTL`, `ALT`, `CAPSLOCK` and `E0ESC` are the bits 1, 2, 4, 8 and 64.
abbrev pub shiftcode : ℕ → ℕ
shiftcode = table [] ((0x1d, 2) ∷ (0x2a, 1) ∷ (0x36, 1) ∷ (0x38, 4) ∷ (0x9d, 2) ∷ (0xb8, 4) ∷ [])

abbrev pub togglecode : ℕ → ℕ
togglecode = table [] ((0x3a, 8) ∷ (0x45, 16) ∷ (0x46, 32) ∷ [])

abbrev pub normalmap : ℕ → ℕ
normalmap =
    table
      (0 ∷ 0x1b ∷ b'1' ∷ b'2' ∷ b'3' ∷ b'4' ∷ b'5' ∷ b'6' ∷ b'7' ∷ b'8' ∷ b'9' ∷ b'0' ∷ b'-' ∷ b'='
        ∷ 8 ∷ 9 ∷ b'q' ∷ b'w' ∷ b'e' ∷ b'r' ∷ b't' ∷ b'y' ∷ b'u' ∷ b'i' ∷ b'o' ∷ b'p' ∷ b'[' ∷ b']'
        ∷ 0xa ∷ 0 ∷ b'a' ∷ b's' ∷ b'd' ∷ b'f' ∷ b'g' ∷ b'h' ∷ b'j' ∷ b'k' ∷ b'l' ∷ b';' ∷ 0x27
        ∷ b'`' ∷ 0 ∷ 0x5c ∷ b'z' ∷ b'x' ∷ b'c' ∷ b'v' ∷ b'b' ∷ b'n' ∷ b'm' ∷ b',' ∷ b'.' ∷ b'/' ∷ 0
        ∷ b'*' ∷ 0 ∷ 0x20 ∷ 0 ∷ 0 ∷ 0 ∷ 0 ∷ 0 ∷ 0 ∷ 0 ∷ 0 ∷ 0 ∷ 0 ∷ 0 ∷ 0 ∷ 0 ∷ b'7' ∷ b'8' ∷ b'9'
        ∷ b'-' ∷ b'4' ∷ b'5' ∷ b'6' ∷ b'+' ∷ b'1' ∷ b'2' ∷ b'3' ∷ b'0' ∷ b'.' ∷ 0 ∷ 0 ∷ 0 ∷ 0 ∷ [])
      ((0xc7, 0xe0)
        ∷ (0x9c, 0xa)
        ∷ (0xb5, b'/')
        ∷ (0xc8, 0xe2)
        ∷ (0xc9, 0xe6)
        ∷ (0xcb, 0xe4)
        ∷ (0xcd, 0xe5)
        ∷ (0xcf, 0xe1)
        ∷ (0xd0, 0xe3)
        ∷ (0xd1, 0xe7)
        ∷ (0xd2, 0xe8)
        ∷ (0xd3, 0xe9)
        ∷ [])

abbrev pub shiftmap : ℕ → ℕ
shiftmap =
    table
      (0 ∷ 0x1b ∷ b'!' ∷ b'@' ∷ b'#' ∷ b'$' ∷ b'%' ∷ b'^' ∷ b'&' ∷ b'*' ∷ b'(' ∷ b')' ∷ b'_' ∷ b'+'
        ∷ 8 ∷ 9 ∷ b'Q' ∷ b'W' ∷ b'E' ∷ b'R' ∷ b'T' ∷ b'Y' ∷ b'U' ∷ b'I' ∷ b'O' ∷ b'P' ∷ b'{' ∷ b'}'
        ∷ 0xa ∷ 0 ∷ b'A' ∷ b'S' ∷ b'D' ∷ b'F' ∷ b'G' ∷ b'H' ∷ b'J' ∷ b'K' ∷ b'L' ∷ b':' ∷ b'"'
        ∷ b'~' ∷ 0 ∷ b'|' ∷ b'Z' ∷ b'X' ∷ b'C' ∷ b'V' ∷ b'B' ∷ b'N' ∷ b'M' ∷ b'<' ∷ b'>' ∷ b'?' ∷ 0
        ∷ b'*' ∷ 0 ∷ 0x20 ∷ 0 ∷ 0 ∷ 0 ∷ 0 ∷ 0 ∷ 0 ∷ 0 ∷ 0 ∷ 0 ∷ 0 ∷ 0 ∷ 0 ∷ 0 ∷ b'7' ∷ b'8' ∷ b'9'
        ∷ b'-' ∷ b'4' ∷ b'5' ∷ b'6' ∷ b'+' ∷ b'1' ∷ b'2' ∷ b'3' ∷ b'0' ∷ b'.' ∷ 0 ∷ 0 ∷ 0 ∷ 0 ∷ [])
      ((0xc7, 0xe0)
        ∷ (0x9c, 0xa)
        ∷ (0xb5, b'/')
        ∷ (0xc8, 0xe2)
        ∷ (0xc9, 0xe6)
        ∷ (0xcb, 0xe4)
        ∷ (0xcd, 0xe5)
        ∷ (0xcf, 0xe1)
        ∷ (0xd0, 0xe3)
        ∷ (0xd1, 0xe7)
        ∷ (0xd2, 0xe8)
        ∷ (0xd3, 0xe9)
        ∷ [])

abbrev pub ctlmap : ℕ → ℕ
ctlmap =
    table
      (0 ∷ 0 ∷ 0 ∷ 0 ∷ 0 ∷ 0 ∷ 0 ∷ 0 ∷ 0 ∷ 0 ∷ 0 ∷ 0 ∷ 0 ∷ 0 ∷ 0 ∷ 0 ∷ 0x11 ∷ 0x17 ∷ 5 ∷ 0x12 ∷ 0x14
        ∷ 0x19 ∷ 0x15 ∷ 9 ∷ 0xf ∷ 0x10 ∷ 0 ∷ 0 ∷ 0xd ∷ 0 ∷ 1 ∷ 0x13 ∷ 4 ∷ 6 ∷ 7 ∷ 8 ∷ 0xa ∷ 0xb
        ∷ 0xc ∷ 0 ∷ 0 ∷ 0 ∷ 0 ∷ 0x1c ∷ 0x1a ∷ 0x18 ∷ 3 ∷ 0x16 ∷ 2 ∷ 0xe ∷ 0xd ∷ 0 ∷ 0 ∷ 0xef ∷ 0 ∷ 0
        ∷ [])
      ((0x97, 0xe0)
        ∷ (0xb5, 0xef)
        ∷ (0xc8, 0xe2)
        ∷ (0xc9, 0xe6)
        ∷ (0xcb, 0xe4)
        ∷ (0xcd, 0xe5)
        ∷ (0xcf, 0xe1)
        ∷ (0xd0, 0xe3)
        ∷ (0xd1, 0xe7)
        ∷ (0xd2, 0xe8)
        ∷ (0xd3, 0xe9)
        ∷ [])

-- `charcode[shift & (CTL | SHIFT)][data]`.
abbrev pub charcode : ℕ → ℕ → ℕ
charcode shift code =
    if shift % 4 == 0
    then normalmap code
    else (if shift % 4 == 1 then shiftmap code else ctlmap code)

-- The other case of a letter, with `CAPSLOCK`.
abbrev pub swap_case : ℕ → ℕ
swap_case c =
    if leb b'a' c && leb c b'z' then c - 32 else (if leb b'A' c && leb c b'Z' then c + 32 else c)

-- `shift & ~bits`, in 32 bits.
abbrev pub clear_bits : ℕ → ℕ → ℕ
clear_bits shift bits = bit_and shift (2 ^ 32 - 1 - bits)

-- A key that is pressed, of the code `code`.
abbrev pub pressed : ℕ → ℕ → ℕ × ℕ
pressed shift code =
    let held = bit_xor (bit_or shift (shiftcode code)) (togglecode code) in
    let c = charcode held code in (if bit_and held 8 == 0 then c else swap_case c, held)

-- `kbd_proc_data` for a byte of the keyboard: the character, or 0, and the new `shift`. The reboot by
-- Ctrl-Alt-Del is not modelled.
unfoldable pub kbd_proc_data : ℕ → ℕ → ℕ × ℕ
kbd_proc_data shift code =
    if code == 0xe0
    then (0, bit_or shift 64)
    else (if leb 128 code
        then (
          0,
          clear_bits shift
              (bit_or (shiftcode (if bit_and shift 64 == 0 then code % 128 else code)) 64),
        )
        else (if bit_and shift 64 == 0
            then pressed shift code
            else pressed (clear_bits shift 64) (code + 128)))
