-- ===== src/Sched/Text/Roundtrip.antt =====
-- `strtol` reads what `printnum` prints (sched/lib/string.c, sched/lib/printfmt.c).
use mathlib.Core.List.{append-nil, append_assoc}
use native.Mathlib.Nat.{mul-suc, add-mod-mod, div-add-mod', div-lt_self, mod-lt, mod-eq_of_lt}
use tps_sis_ops.Base.{
  ℕ, zero, suc, ◌+◌, ◌-◌, ◌*◌, ◌/◌, ◌%◌, ◌^◌, ◌<◌, ◌≤◌, ◌≡◌, refl, sym, ap, ◌∙◌, inl, inr, some,
  true, false, ◌&&◌, ◌||◌, List, [], ◌∷◌, ◌++◌, ltb, leb, ◌==◌, Bool-cases, arith,
}
use tps_sis_ops.Sched.Text.{
  digit_char, printnum_in, printnum, digit_value, read_step, read_digits, skip_blanks, read_sign,
  read_prefix, long, strtol,
}

digit_value-digit_char : (d : ℕ) → d < 16 → digit_value (digit_char d) ≡ some d
unfolding digit_value
digit_value-digit_char d lt = elim (Bool-cases (ltb d 10)) [
  | inl e ↦
      let a : (leb b'0' (b'0' + d) && leb (b'0' + d) b'9') ≡ true = ground arith in
      let v : b'0' + d - b'0' ≡ d = omega arith in rw (e, a) (ap some v)
  | inr e ↦
      let ten : 10 ≤ d = ground arith in
      let a : (leb b'0' (b'a' + (d - 10)) && leb (b'a' + (d - 10)) b'9') ≡ false = ground arith in
      let b : (leb b'a' (b'a' + (d - 10)) && leb (b'a' + (d - 10)) b'z') ≡ true = ground arith in
      let v : b'a' + (d - 10) - b'a' + 10 ≡ d = omega (arith, ten) in rw (e, a, b) (ap some v)
]

-- Wrapping around before a digit is read does not change the word behind it.
wrapped_digit : (q base d : ℕ) → (q % 2 ^ 32 * base + d) % 2 ^ 32 ≡ (q * base + d) % 2 ^ 32
wrapped_digit q zero d =
    let e : q % 2 ^ 32 * 0 + d ≡ q * 0 + d = omega arith in ap (λ v. v % 2 ^ 32) e
wrapped_digit q (suc base) d =
    let low = mul-suc (q % 2 ^ 32) base in
    let high = mul-suc q base in
    let start : q % 2 ^ 32 * suc base + d ≡ q % 2 ^ 32 * base + (q % 2 ^ 32 + d) =
      omega (arith, low) in
    let swap : q * base + (q % 2 ^ 32 + d) ≡ q * base + d + q % 2 ^ 32 = omega arith in
    let end : q * base + d + q ≡ q * suc base + d = omega (arith, high) in
    ap (λ v. v % 2 ^ 32) start
    ∙ wrapped_digit q base (q % 2 ^ 32 + d)
    ∙ ap (λ v. v % 2 ^ 32) swap
    ∙ add-mod-mod (q * base + d) q (2 ^ 32)
    ∙ ap (λ v. v % 2 ^ 32) end

module _ (base : ℕ) (two : 2 ≤ base) (small : base ≤ 16) where
  -- A digit is read.
  read_digit :
      (val d : ℕ) (cs : List ℕ)
      → d < base
      → read_digits base val (digit_char d ∷ cs) ≡ read_digits base ((val * base + d) % 2 ^ 32) cs
  unfolding read_digits
  read_digit val d cs lt =
      let e = digit_value-digit_char d (omega arith) in
      let below : leb base d ≡ false = ground arith in
      ap
        (read_step base val (digit_char d ∷ cs)
          λ dig. read_digits base ((val * base + dig) % 2 ^ 32) cs)
        e
      ∙ rw below refl

  smaller : (num : ℕ) → leb base num ≡ true → num / base < num
  smaller num h =
      let le : base ≤ num = ground arith in div-lt_self (omega (arith, le)) (omega arith)

  -- Enough fuel: more than the number.
  read-printnum_in :
      (f num padc : ℕ) (cs : List ℕ)
      → num < f
      → read_digits base 0 (printnum_in f num base 0 padc ++ cs)
        ≡ read_digits base (num % 2 ^ 32) cs
  unfolding printnum_in
  read-printnum_in zero num padc cs lt = absurd (omega arith)
  read-printnum_in (suc f) num padc cs lt = elim (Bool-cases (leb base num)) [
    | inr one ↦
        let below : num < base = ground arith in
        let same : num % base ≡ num = mod-eq_of_lt below in
        rw (one, same)
          (read_digit 0 num cs below ∙ ap (λ v. read_digits base (v % 2 ^ 32) cs) (omega arith))
    | inl more ↦
        let s = smaller num more in
        rw more (
          ap (read_digits base 0) (
            append_assoc (printnum_in f (num / base) base 0 padc) (digit_char (num % base) ∷ []) cs)
          ∙ read-printnum_in f (num / base) padc (digit_char (num % base) ∷ cs)
              (omega (arith, s, lt))
          ∙ read_digit (num / base % 2 ^ 32) (num % base) cs (mod-lt num (omega arith))
          ∙ ap (λ v. read_digits base v cs)
              (wrapped_digit (num / base) base (num % base)
                ∙ ap (λ v. v % 2 ^ 32) (div-add-mod' num base)))
  ]

-- Characters that neither begin a number otherwise nor belong to a prefix.
abbrev IsPlain : List ℕ → Type 0
IsPlain [] = Unit
IsPlain (c ∷ cs) = ((b'0' ≤ c) × (c < b'x')) × IsPlain cs

IsPlain-append : (xs ys : List ℕ) → IsPlain xs → IsPlain ys → IsPlain (xs ++ ys)
IsPlain-append [] ys p q = q
IsPlain-append (x ∷ xs) ys (h, p) q = (h, IsPlain-append xs ys p q)

printnum_in-IsPlain :
    (base f num padc : ℕ) → 2 ≤ base → base ≤ 16 → IsPlain (printnum_in f num base 0 padc)
unfolding printnum_in
printnum_in-IsPlain base zero num padc two small = tt
printnum_in-IsPlain base (suc f) num padc two small =
    let d : num % base < base = mod-lt num (omega arith) in
    let here : (b'0' ≤ digit_char (num % base)) × (digit_char (num % base) < b'x') =
      elim (Bool-cases (ltb (num % base) 10)) [
        | inl e ↦ rw e (omega arith, ground arith)
        | inr e ↦ rw e (omega arith, omega (arith, d))
      ] in
    let last : IsPlain (digit_char (num % base) ∷ []) = (here, tt) in
    elim (Bool-cases (leb base num)) [
      | inr one ↦ rw one last
      | inl more ↦ rw more (
          IsPlain-append (printnum_in f (num / base) base 0 padc) (digit_char (num % base) ∷ [])
            (printnum_in-IsPlain base f (num / base) padc two small) last)
    ]

-- Behind the blanks, the sign and the prefix, of which there are none.
strtol-plain :
    (base : ℕ) (s : List ℕ)
    → 2 ≤ base
    → IsPlain s
    → strtol s base ≡ (long (read_digits base 0 s).0, (read_digits base 0 s).1)
unfolding strtol skip_blanks read_sign read_prefix
strtol-plain base [] two p = let given : (base == 0) ≡ false = ground arith in rw given refl
strtol-plain base (c ∷ []) two ((lo, hi), p) =
    let given : (base == 0) ≡ false = ground arith in
    let blank : (c == b' ') ≡ false = ground arith in
    let tab : (c == b'\t') ≡ false = ground arith in
    let plus : (c == b'+') ≡ false = ground arith in
    let minus : (c == b'-') ≡ false = ground arith in rw (blank, tab, plus, minus, given) refl
strtol-plain base (c ∷ d ∷ cs) two ((lo, hi), ((_, hi'), p)) =
    let given : (base == 0) ≡ false = ground arith in
    let blank : (c == b' ') ≡ false = ground arith in
    let tab : (c == b'\t') ≡ false = ground arith in
    let plus : (c == b'+') ≡ false = ground arith in
    let minus : (c == b'-') ≡ false = ground arith in
    let hex : (((base == 0) || (base == 16)) && (c == b'0') && (d == b'x')) ≡ false =
      ground arith in
    rw (blank, tab, plus, minus, hex, given) refl

read_nothing : (base val : ℕ) → read_digits base val [] ≡ (val, [])
unfolding read_digits
read_nothing base val = refl

-- In every base from 2 to 16, `strtol` reads what `printnum` printed of a 64-bit number without padding
-- to its end, and gives the number's low 32 bits as a `long`.
pub strtol-printnum :
    (num base padc : ℕ)
    → num < 2 ^ 64
    → 2 ≤ base
    → base ≤ 16
    → strtol (printnum num base 0 padc) base ≡ (long (num % 2 ^ 32), [])
unfolding printnum
strtol-printnum num base padc word two small =
    let s = printnum_in (num + 1) num base 0 padc in
    let whole : read_digits base 0 s ≡ (num % 2 ^ 32, []) =
      ap (read_digits base 0) (sym (append-nil s))
      ∙ read-printnum_in base two small (num + 1) num padc [] (omega arith)
      ∙ read_nothing base (num % 2 ^ 32) in
    let fits : num % 2 ^ 64 ≡ num = mod-eq_of_lt word in
    ap (λ n. strtol (printnum_in (n + 1) n base 0 padc) base) fits
    ∙ strtol-plain base s two (printnum_in-IsPlain base (num + 1) num padc two small)
    ∙ ap (λ r. (long r.0, r.1)) whole
