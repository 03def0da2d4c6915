-- ===== src/Sched/Console/Screen.antt =====
-- The text screen of sched/kern/console.c.
use Prim.Native.Nat.{bit_or}
use tps_sis_ops.Base.{
  ℕ, zero, suc, ◌+◌, ◌-◌, ◌*◌, ◌/◌, ◌%◌, ◌<◌, ◌≤◌, ◌≡◌, refl, ◌∙◌, inl, inr, false, ltb, leb, ◌==◌,
  if◌then◌else◌, Bool-cases, update, arith,
}

abbrev pub crt_cols : ℕ
crt_cols = 80

abbrev pub crt_size : ℕ
crt_size = 2000

-- `crt_buf`, whose cells hold an attribute and a byte, and the cursor `crt_pos`.
pub record Screen : Type 0 where
  pub crt_buf : ℕ → ℕ
  pub crt_pos : ℕ

-- The default attribute.
abbrev pub with_attribute : ℕ → ℕ
with_attribute c = if ltb c 256 then bit_or c 0x700 else c

-- The screen moves up by a line when the cursor leaves it.
unfoldable pub scroll : Screen → Screen
scroll s =
    if leb crt_size s.crt_pos
    then record {
      crt_buf = λ i.
          if ltb i (crt_size - crt_cols)
          then s.crt_buf (i + crt_cols)
          else (if ltb i crt_size then 0x720 else s.crt_buf i);
      crt_pos = s.crt_pos - crt_cols;
    }
    else s

-- A character that is written where the cursor is; `c` has its attribute.
unfoldable pub put_char : Screen → ℕ → Screen
put_char s c = record {
  crt_buf = update s.crt_buf s.crt_pos (c % 0x10000);
  crt_pos = s.crt_pos + 1;
}

-- The character before the cursor is blanked.
unfoldable pub backspace : Screen → ℕ → Screen
backspace s c = if s.crt_pos == 0 then s else record {
  crt_buf = update s.crt_buf (s.crt_pos - 1) (c / 256 * 256 % 0x10000 + b' ');
  crt_pos = s.crt_pos - 1;
}

abbrev pub carriage_return : ℕ → ℕ
carriage_return pos = pos - pos % crt_cols

-- The five blanks of a tab, each through `cga_putc`.
unfoldable pub put_spaces : Screen → ℕ → Screen
put_spaces s zero = s
put_spaces s (suc n) = put_spaces (scroll (put_char s (with_attribute b' '))) n

-- The `switch` of `cga_putc`.
unfoldable pub place : Screen → ℕ → Screen
place s c =
    if c % 256 == 8
    then backspace s c
    else (if c % 256 == b'\n'
        then record s { crt_pos = carriage_return (s.crt_pos + crt_cols) }
        else (if c % 256 == b'\r'
            then record s { crt_pos = carriage_return s.crt_pos }
            else (if c % 256 == b'\t' then put_spaces s 5 else put_char s c)))

-- The move of the hardware's cursor is not modelled.
unfoldable pub cga_putc : Screen → ℕ → Screen
cga_putc s c = scroll (place s (with_attribute c))

-- The cursor is on the screen.
abbrev pub IsOnScreen : Screen → Type 0
IsOnScreen s = s.crt_pos < crt_size

-- The cells beyond the screen's memory are untouched.
abbrev pub SameBeyond : Screen → Screen → Type 0
SameBeyond s s' = (i : ℕ) → crt_size ≤ i → s'.crt_buf i ≡ s.crt_buf i

scroll-IsOnScreen :
    (s : Screen) → s.crt_pos < crt_size + crt_cols → IsOnScreen (scroll s) × SameBeyond s (scroll s)
unfolding scroll
scroll-IsOnScreen s h = elim (Bool-cases (leb crt_size s.crt_pos)) [
  | inl e ↦ rw e (
    omega (arith, h),
    λ i beyond.
        let a : ltb i (crt_size - crt_cols) ≡ false = ground arith in
        let b : ltb i crt_size ≡ false = ground arith in rw (a, b) refl,
  )
  | inr e ↦ rw e (ground arith, λ i beyond. refl)
]

put_char-IsOnScreen :
    (s : Screen) (c : ℕ)
    → IsOnScreen s
    → ((put_char s c).crt_pos < crt_size + crt_cols) × SameBeyond s (put_char s c)
unfolding put_char
put_char-IsOnScreen s c h = (
  omega (arith, h),
  λ i beyond. let other : (i == s.crt_pos) ≡ false = ground arith in rw other refl,
)

put_spaces-IsOnScreen :
    (s : Screen) (n : ℕ)
    → IsOnScreen s
    → IsOnScreen (put_spaces s n) × SameBeyond s (put_spaces s n)
unfolding put_spaces
put_spaces-IsOnScreen s zero h = (h, λ i beyond. refl)
put_spaces-IsOnScreen s (suc n) h =
    let put = put_char-IsOnScreen s (with_attribute b' ') h in
    let moved = scroll-IsOnScreen (put_char s (with_attribute b' ')) put.0 in
    let rest = put_spaces-IsOnScreen (scroll (put_char s (with_attribute b' '))) n moved.0 in
    (rest.0, λ i beyond. rest.1 i beyond ∙ moved.1 i beyond ∙ put.1 i beyond)

backspace-IsOnScreen :
    (s : Screen) (c : ℕ)
    → IsOnScreen s
    → ((backspace s c).crt_pos < crt_size + crt_cols) × SameBeyond s (backspace s c)
unfolding backspace
backspace-IsOnScreen s c h = elim (Bool-cases (s.crt_pos == 0)) [
  | inl e ↦ rw e (omega (arith, h), λ i beyond. refl)
  | inr e ↦ rw e (
    omega (arith, h),
    λ i beyond. let other : (i == s.crt_pos - 1) ≡ false = ground arith in rw other refl,
  )
]

place-IsOnScreen :
    (s : Screen) (c : ℕ)
    → IsOnScreen s
    → ((place s c).crt_pos < crt_size + crt_cols) × SameBeyond s (place s c)
unfolding place
place-IsOnScreen s c h = elim (Bool-cases (c % 256 == 8)) [
  | inl e ↦ rw e (backspace-IsOnScreen s c h)
  | inr not_back ↦ elim (Bool-cases (c % 256 == b'\n')) [
    | inl e ↦ rw (not_back, e) (omega (arith, h), λ i beyond. refl)
    | inr not_line ↦ elim (Bool-cases (c % 256 == b'\r')) [
      | inl e ↦ rw (not_back, not_line, e) (omega (arith, h), λ i beyond. refl)
      | inr not_return ↦ elim (Bool-cases (c % 256 == b'\t')) [
        | inl e ↦
            let put = put_spaces-IsOnScreen s 5 h in
            rw (not_back, not_line, not_return, e) (omega (arith, put.0), put.1)
        | inr e ↦ rw (not_back, not_line, not_return, e) (put_char-IsOnScreen s c h)
      ]
    ]
  ]
]

-- Whatever is written, the cursor stays on the screen, and no cell beyond the screen is written.
pub cga_putc-IsOnScreen :
    (s : Screen) (c : ℕ) → IsOnScreen s → IsOnScreen (cga_putc s c) × SameBeyond s (cga_putc s c)
unfolding cga_putc
cga_putc-IsOnScreen s c h =
    let placed = place-IsOnScreen s (with_attribute c) h in
    let moved = scroll-IsOnScreen (place s (with_attribute c)) placed.0 in
    (moved.0, λ i beyond. moved.1 i beyond ∙ placed.1 i beyond)
