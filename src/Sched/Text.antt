-- ===== src/Sched/Text.antt =====
-- Numbers as text: `printnum` of sched/lib/printfmt.c and `strtol` of sched/lib/string.c. Strings are
-- the lists of their bytes without the final 0. A `long` has 32 bits, and wraps around where it
-- overflows; the number that is printed is an `unsigned long long` of 64 bits.
pub mod Format
pub mod Roundtrip
mod Tests
use tps_sis_ops.Base.{
  ℕ, zero, suc, ◌+◌, ◌-◌, ◌*◌, ◌/◌, ◌%◌, ◌^◌, Option, none, some, Bool, true, false, ◌&&◌, ◌||◌,
  List, [], ◌∷◌, ◌++◌, ltb, leb, ◌==◌, if◌then◌else◌,
}
use tps_sis_ops.Base.Int.{ℤ, pos, negsuc}

-- `"0123456789abcdef"[d]`.
abbrev pub digit_char : ℕ → ℕ
digit_char d = if ltb d 10 then b'0' + d else b'a' + (d - 10)

-- The pad characters before the first digit: `n` of them.
abbrev pub padding : ℕ → ℕ → List ℕ
padding padc zero = []
padding padc (suc n) = padc ∷ padding padc n

-- The characters that `printnum` puts, by recursion on fuel; a width below 0 is as good as 0.
unfoldable pub printnum_in : ℕ → ℕ → ℕ → ℕ → ℕ → List ℕ
printnum_in zero num base width padc = []
printnum_in (suc f) num base width padc =
    let above = printnum_in f (num / base) base (width - 1) padc in
    (if leb base num then above else padding padc (width - 1)) ++ (digit_char (num % base) ∷ [])

unfoldable pub printnum : ℕ → ℕ → ℕ → ℕ → List ℕ
printnum num base width padc = let n = num % 2 ^ 64 in printnum_in (n + 1) n base width padc

-- The value of a digit of any base.
unfoldable pub digit_value : ℕ → Option ℕ
digit_value c =
    if leb b'0' c && leb c b'9'
    then some (c - b'0')
    else (if leb b'a' c && leb c b'z'
        then some (c - b'a' + 10)
        else (if leb b'A' c && leb c b'Z' then some (c - b'A' + 10) else none))

-- A round of the loop over the digits, for the digit's value: `next` is what follows.
abbrev pub read_step : ℕ → ℕ → List ℕ → (ℕ → ℕ × List ℕ) → Option ℕ → ℕ × List ℕ
read_step base val s next none = (val, s)
read_step base val s next (some dig) = if leb base dig then (val, s) else next dig

-- The loop, with the word of `val` so far: the word, and the rest of the string.
unfoldable pub read_digits : ℕ → ℕ → List ℕ → ℕ × List ℕ
read_digits base val [] = (val, [])
read_digits base val (c ∷ cs) =
    read_step base val (c ∷ cs) (λ dig. read_digits base ((val * base + dig) % 2 ^ 32) cs)
      (digit_value c)

unfoldable pub skip_blanks : List ℕ → List ℕ
skip_blanks [] = []
skip_blanks (c ∷ cs) =
    let rest = skip_blanks cs in if (c == b' ') || (c == b'\t') then rest else c ∷ cs

-- The sign: whether it is a minus, and what follows.
unfoldable pub read_sign : List ℕ → Bool × List ℕ
read_sign [] = (false, [])
read_sign (c ∷ cs) =
    if c == b'+' then (false, cs) else (if c == b'-' then (true, cs) else (false, c ∷ cs))

-- The prefix `0x` or `0`, and the base that it gives.
unfoldable pub read_prefix : ℕ → List ℕ → ℕ × List ℕ
read_prefix base [] = ((if base == 0 then 10 else base), [])
read_prefix base (c ∷ []) =
    if (base == 0) && (c == b'0') then (8, []) else ((if base == 0 then 10 else base), c ∷ [])
read_prefix base (c ∷ d ∷ cs) =
    if ((base == 0) || (base == 16)) && (c == b'0') && (d == b'x')
    then (16, cs)
    else (if (base == 0) && (c == b'0')
        then (8, d ∷ cs)
        else ((if base == 0 then 10 else base), c ∷ d ∷ cs))

-- A word as a `long`.
abbrev pub long : ℕ → ℤ
long w = if ltb w (2 ^ 31) then pos w else negsuc (2 ^ 32 - 1 - w)

-- The word of `-val`, or of `val`.
abbrev pub negated : Bool → ℕ → ℕ
negated neg w = if neg then (2 ^ 32 - w) % 2 ^ 32 else w

-- The value, and what `*endptr` is set to.
unfoldable pub strtol : List ℕ → ℕ → ℤ × List ℕ
strtol s base =
    let signed = read_sign (skip_blanks s) in
    let prefixed = read_prefix base signed.1 in
    let r = read_digits prefixed.0 0 prefixed.1 in (long (negated signed.0 r.0), r.1)
