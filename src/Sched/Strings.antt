-- ===== src/Sched/Strings.antt =====
-- The memory and string functions of sched/lib/string.c, with the string instructions that it uses.
-- Memory is a function of the address, and no range reaches the end of the address space; a string
-- that is only read is the list of its bytes without the final 0.
pub mod Comparison
pub mod Moving
mod Tests
use tps_sis_ops.Base.{
  ℕ, zero, suc, ◌+◌, ◌-◌, ◌*◌, ◌/◌, ◌%◌, Bool, true, false, ◌&&◌, List, [], ◌∷◌, ltb, leb, ◌==◌,
  if◌then◌else◌, update,
}
use tps_sis_ops.Base.Int.{ℤ, pos, negsuc}

-- A byte or a word of four bytes is stored: what `n` bytes at `d` are behind a move from `s`.
abbrev pub moved : (ℕ → ℕ) → ℕ → ℕ → ℕ → ℕ → ℕ
moved m d s n j = if leb d j && ltb j (d + n) then m (s + (j - d)) else m j

-- `cld; rep movs` and `std; rep movs`, for units of `w` bytes: EDI, ESI and ECX.
unfoldable pub rep_movs_up : ℕ → (ℕ → ℕ) → ℕ → ℕ → ℕ → ℕ → ℕ
rep_movs_up w m d s zero = m
rep_movs_up w m d s (suc k) = rep_movs_up w (moved m d s w) (d + w) (s + w) k

unfoldable pub rep_movs_down : ℕ → (ℕ → ℕ) → ℕ → ℕ → ℕ → ℕ → ℕ
rep_movs_down w m d s zero = m
rep_movs_down w m d s (suc k) = rep_movs_down w (moved m d s w) (d - w) (s - w) k

abbrev pub are_aligned : ℕ → ℕ → ℕ → Bool
are_aligned s d n = (s % 4 == 0) && (d % 4 == 0) && (n % 4 == 0)

unfoldable pub memmove : (ℕ → ℕ) → ℕ → ℕ → ℕ → ℕ → ℕ
memmove m dst src n =
    if ltb src dst && ltb dst (src + n)
    then (if are_aligned (src + n) (dst + n) n
        then rep_movs_down 4 m (dst + n - 4) (src + n - 4) (n / 4)
        else rep_movs_down 1 m (dst + n - 1) (src + n - 1) n)
    else (if are_aligned src dst n
        then rep_movs_up 4 m dst src (n / 4)
        else rep_movs_up 1 m dst src n)

unfoldable pub memcpy : (ℕ → ℕ) → ℕ → ℕ → ℕ → ℕ → ℕ
memcpy m dst src n = memmove m dst src n

-- The byte of index `i` of a word.
abbrev pub byte_of : ℕ → ℕ → ℕ
byte_of c zero = c % 256
byte_of c (suc i) = byte_of (c / 256) i

-- A unit of `w` bytes of the word `c` is stored at `d`, and `cld; rep stos`.
abbrev pub filled : (ℕ → ℕ) → ℕ → ℕ → ℕ → ℕ → ℕ
filled m d c w j = if leb d j && ltb j (d + w) then byte_of c (j - d) else m j

unfoldable pub rep_stos : ℕ → (ℕ → ℕ) → ℕ → ℕ → ℕ → ℕ → ℕ
rep_stos w m d c zero = m
rep_stos w m d c (suc k) = rep_stos w (filled m d c w) (d + w) c k

-- `(c << 24) | (c << 16) | (c << 8) | c` for a byte.
abbrev pub four_times : ℕ → ℕ
four_times c = c * 16777216 + c * 65536 + c * 256 + c

unfoldable pub memset : (ℕ → ℕ) → ℕ → ℕ → ℕ → ℕ → ℕ
memset m v c zero = m
memset m v c (suc n) =
    if (v % 4 == 0) && (suc n % 4 == 0)
    then rep_stos 4 m v (four_times (c % 256)) (suc n / 4)
    else rep_stos 1 m v c (suc n)

-- The difference of two bytes.
abbrev pub minus : ℕ → ℕ → ℤ
minus a b = if ltb a b then negsuc (b - a - 1) else pos (a - b)

unfoldable pub strcmp : List ℕ → List ℕ → ℤ
strcmp [] [] = pos 0
strcmp [] (y ∷ q) = minus 0 y
strcmp (x ∷ p) [] = minus x 0
strcmp (x ∷ p) (y ∷ q) = let rest = strcmp p q in if x == y then rest else minus x y

unfoldable pub strncmp : List ℕ → List ℕ → ℕ → ℤ
strncmp p q zero = pos 0
strncmp [] [] (suc n) = pos 0
strncmp [] (y ∷ q) (suc n) = minus 0 y
strncmp (x ∷ p) [] (suc n) = minus x 0
strncmp (x ∷ p) (y ∷ q) (suc n) = let rest = strncmp p q n in if x == y then rest else minus x y

-- `memcmp` on two areas of memory.
unfoldable pub memcmp : (ℕ → ℕ) → ℕ → ℕ → ℕ → ℤ
memcmp m v1 v2 zero = pos 0
memcmp m v1 v2 (suc n) =
    let rest = memcmp m (suc v1) (suc v2) n in if m v1 == m v2 then rest else minus (m v1) (m v2)

-- The address of the first `c` among `n` bytes, or that behind them.
unfoldable pub memfind : (ℕ → ℕ) → ℕ → ℕ → ℕ → ℕ
memfind m s c zero = s
memfind m s c (suc n) = let rest = memfind m (suc s) c n in if m s == c % 256 then s else rest

-- The loop of `strlcpy`, for a size of `suc size`: the memory and the number of bytes copied.
unfoldable pub copy_string : (ℕ → ℕ) → ℕ → List ℕ → ℕ → (ℕ → ℕ) × ℕ
copy_string m dst [] size = (update m dst 0, 0)
copy_string m dst (x ∷ src) zero = (update m dst 0, 0)
copy_string m dst (x ∷ src) (suc size) =
    let rest = copy_string (update m dst x) (suc dst) src size in (rest.0, suc rest.1)

-- `src` does not overlap the destination.
unfoldable pub strlcpy : (ℕ → ℕ) → ℕ → List ℕ → ℕ → (ℕ → ℕ) × ℕ
strlcpy m dst src zero = (m, 0)
strlcpy m dst src (suc size) = copy_string m dst src size

unfoldable pub strncpy : (ℕ → ℕ) → ℕ → List ℕ → ℕ → ℕ → ℕ
strncpy m dst src zero = m
strncpy m dst [] (suc size) = strncpy (update m dst 0) (suc dst) [] size
strncpy m dst (x ∷ src) (suc size) = strncpy (update m dst x) (suc dst) src size
