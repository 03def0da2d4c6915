-- ===== src/Sched/Text/Format/Buffer.antt =====
-- `vsnprintf` of sched/lib/printfmt.c, and what it writes to its buffer.
use Prim.Native.Nat.{min}
use tps_sis_ops.Base.{
  ℕ, zero, suc, ◌+◌, ◌≤◌, ◌<◌, ◌≡◌, refl, ap, ◌∙◌, inl, inr, true, false, List, [], ◌∷◌, ◌||◌,
  length, get_or, ltb, leb, ◌==◌, if◌then◌else◌, Bool-cases, update, arith,
}
use tps_sis_ops.Base.Int.{ℤ, pos, negsuc}

-- `struct sprintbuf`: the bytes of the buffer, the index of the next one and that of the last.
record Sprintbuf : Type 0 where
  pub bytes : ℕ → ℕ
  pub buf : ℕ
  pub ebuf : ℕ
  pub cnt : ℕ

sprintputch : ℕ → Sprintbuf → Sprintbuf
sprintputch ch b =
    if ltb b.buf b.ebuf
    then record b { bytes = update b.bytes b.buf ch; buf = suc b.buf; cnt = suc b.cnt }
    else record b { cnt = suc b.cnt }

abbrev put_all : List ℕ → Sprintbuf → Sprintbuf
put_all [] b = b
put_all (ch ∷ out) b = put_all out (sprintputch ch b)

-- The result and the bytes of the buffer.
abbrev terminated : Sprintbuf → ℤ × (ℕ → ℕ)
terminated b = (pos b.cnt, update b.bytes b.buf 0)

-- `vsnprintf` for a buffer that is not NULL and the output of `vprintfmt`; `negsuc 2` is `-E_INVAL`.
pub vsnprintf : (ℕ → ℕ) → ℕ → List ℕ → ℤ × (ℕ → ℕ)
vsnprintf bytes zero out = (negsuc 2, bytes)
vsnprintf bytes (suc n) out =
    terminated (put_all out record { bytes = bytes; buf = 0; ebuf = n; cnt = 0 })

-- The buffer behind a byte that there is room for, and behind one that there is none for.
abbrev with_byte : ℕ → Sprintbuf → Sprintbuf
with_byte ch b = record b { bytes = update b.bytes b.buf ch; buf = suc b.buf; cnt = suc b.cnt }

abbrev without_byte : Sprintbuf → Sprintbuf
without_byte b = record b { cnt = suc b.cnt }

sprintputch_room :
    (ch : ℕ) (b : Sprintbuf) → ltb b.buf b.ebuf ≡ true → sprintputch ch b ≡ with_byte ch b
unfolding sprintputch
sprintputch_room ch b e = rw e refl

sprintputch_full :
    (ch : ℕ) (b : Sprintbuf) → ltb b.buf b.ebuf ≡ false → sprintputch ch b ≡ without_byte b
unfolding sprintputch
sprintputch_full ch b e = rw e refl

-- The bytes before the next one, those behind the output, and the last one and those behind it are
-- as they were.
put_all-kept :
    (out : List ℕ) (b : Sprintbuf) (j : ℕ)
    → (ltb j b.buf || leb (b.buf + length out) j || leb b.ebuf j) ≡ true
    → (put_all out b).bytes j ≡ b.bytes j
put_all-kept [] b j h = refl
put_all-kept (ch ∷ out) b j h = elim (Bool-cases (ltb b.buf b.ebuf)) [
  | inl e ↦
      let other : (j == b.buf) ≡ false = ground arith in
      let still : (ltb j (suc b.buf) || leb (suc b.buf + length out) j || leb b.ebuf j) ≡ true =
        ground arith in
      ap (λ c. (put_all out c).bytes j) (sprintputch_room ch b e)
      ∙ put_all-kept out (with_byte ch b) j still
      ∙ rw other refl
  | inr e ↦
      let full : (ltb j b.buf || leb (b.buf + length out) j || leb b.ebuf j) ≡ true =
        ground arith in
      ap (λ c. (put_all out c).bytes j) (sprintputch_full ch b e)
      ∙ put_all-kept out (without_byte b) j full
]

-- Where there is room, byte `k` of the output comes `k` behind the next byte.
put_all-bytes :
    (out : List ℕ) (b : Sprintbuf) (k j : ℕ)
    → j ≡ b.buf + k
    → k < length out
    → j < b.ebuf
    → (put_all out b).bytes j ≡ get_or out k 0
put_all-bytes [] b k j here inside room = absurd (omega (arith, inside))
put_all-bytes (ch ∷ out) b zero j here inside room =
    let e : ltb b.buf b.ebuf ≡ true = ground (arith, here, room) in
    let same : (j == b.buf) ≡ true = ground (arith, here) in
    let before : (ltb j (suc b.buf) || leb (suc b.buf + length out) j || leb b.ebuf j) ≡ true =
      ground (arith, here) in
    ap (λ c. (put_all out c).bytes j) (sprintputch_room ch b e)
    ∙ put_all-kept out (with_byte ch b) j before
    ∙ rw same refl
put_all-bytes (ch ∷ out) b (suc k) j here inside room =
    let e : ltb b.buf b.ebuf ≡ true = ground (arith, here, room) in
    ap (λ c. (put_all out c).bytes j) (sprintputch_room ch b e)
    ∙ put_all-bytes out (with_byte ch b) k j (omega (arith, here)) (omega (arith, inside)) room

put_all-buf :
    (out : List ℕ) (b : Sprintbuf)
    → b.buf ≤ b.ebuf
    → (put_all out b).buf ≡ min (b.buf + length out) b.ebuf
put_all-buf [] b h = omega (arith, h)
put_all-buf (ch ∷ out) b h = elim (Bool-cases (ltb b.buf b.ebuf)) [
  | inl e ↦
      let room : suc b.buf ≤ b.ebuf = ground arith in
      omega (
        arith,
        put_all-buf out (with_byte ch b) room,
        ap (λ c. (put_all out c).buf) (sprintputch_room ch b e),
      )
  | inr e ↦
      let full : b.ebuf ≤ b.buf = ground arith in
      omega (
        arith,
        full,
        h,
        put_all-buf out (without_byte b) h,
        ap (λ c. (put_all out c).buf) (sprintputch_full ch b e),
      )
]

put_all-cnt : (out : List ℕ) (b : Sprintbuf) → (put_all out b).cnt ≡ b.cnt + length out
put_all-cnt [] b = omega arith
put_all-cnt (ch ∷ out) b = elim (Bool-cases (ltb b.buf b.ebuf)) [
  | inl e ↦ omega (
    arith,
    put_all-cnt out (with_byte ch b),
    ap (λ c. (put_all out c).cnt) (sprintputch_room ch b e),
  )
  | inr e ↦ omega (
    arith,
    put_all-cnt out (without_byte b),
    ap (λ c. (put_all out c).cnt) (sprintputch_full ch b e),
  )
]

-- For a buffer of `suc n` bytes, `vsnprintf` returns the number of bytes of the whole output, writes
-- as many of them as the first `n` bytes have room for, in order, and a 0 behind them, and changes
-- nothing else: no byte behind the buffer.
pub vsnprintf_lem :
    (bytes : ℕ → ℕ) (n : ℕ) (out : List ℕ)
    → let r = vsnprintf bytes (suc n) out in
      (r.0 ≡ pos (length out))
      × ((j : ℕ) → j < min (length out) n → r.1 j ≡ get_or out j 0)
      × (r.1 (min (length out) n) ≡ 0)
      × ((j : ℕ) → min (length out) n < j → r.1 j ≡ bytes j)
unfolding vsnprintf
vsnprintf_lem bytes n out =
    let b : Sprintbuf = record { bytes = bytes; buf = 0; ebuf = n; cnt = 0 } in
    let at_end : (put_all out b).buf ≡ min (length out) n =
      omega (arith, put_all-buf out b (omega arith)) in
    let count : (put_all out b).cnt ≡ length out = omega (arith, put_all-cnt out b) in
    let end = (put_all out b).buf in
    (
      ap pos count,
      λ j h.
          let apart : (j == end) ≡ false = ground (arith, h, at_end) in
          rw apart (put_all-bytes out b j j (omega arith) (omega (arith, h)) (omega (arith, h))),
      let same : (min (length out) n == end) ≡ true = ground (arith, at_end) in rw same refl,
      λ j h.
          let apart : (j == end) ≡ false = ground (arith, h, at_end) in
          let behind : (ltb j 0 || leb (0 + length out) j || leb n j) ≡ true = ground (arith, h) in
          rw apart (put_all-kept out b j behind),
    )
