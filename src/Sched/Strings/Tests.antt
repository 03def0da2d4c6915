-- ===== src/Sched/Strings/Tests.antt =====
-- Tests of the memory and string functions (sched/lib/string.c).
use tps_sis_ops.Base.{ℕ, ◌≡◌, refl, [], ◌∷◌}
use tps_sis_ops.Base.Int.{pos, negsuc}
use tps_sis_ops.Sched.Strings.{
  moved, memmove, rep_stos, memset, strncmp, memcmp, memfind, copy_string, strlcpy, strncpy,
}
use tps_sis_ops.Sched.Strings.Moving.{memmove_lem}

-- The byte at each address is the address.
abbrev addresses : ℕ → ℕ
addresses a = a

memset_word : memset addresses 4 7 8 9 ≡ 7
unfolding memset rep_stos
memset_word = refl

memfind_test : memfind addresses 3 5 9 ≡ 5
unfolding memfind
memfind_test = refl

memcmp_test : memcmp addresses 3 5 2 ≡ negsuc 1
unfolding memcmp
memcmp_test = refl

prefix_same : strncmp (1 ∷ 2 ∷ []) (1 ∷ 3 ∷ []) 1 ≡ pos 0
unfolding strncmp
prefix_same = refl

last_dropped : (strlcpy addresses 4 (9 ∷ 8 ∷ 7 ∷ []) 3).1 ≡ 2
unfolding strlcpy copy_string
last_dropped = refl

padded_copy : strncpy addresses 4 (9 ∷ []) 3 6 ≡ 0
unfolding strncpy
padded_copy = refl

-- The ranges overlap.
memmove_lem_example : memmove addresses 6 4 8 9 ≡ moved addresses 6 4 8 9
memmove_lem_example = memmove_lem addresses 6 4 8 9
