-- ===== src/Fisopfs/Paths.antt =====
-- The path functions of fisopfs/fs.c (`extract_filename`, `extract_prev_path`) and of
-- fisopfs/fisopfs.c (`path_depth`). A C string is the list of its bytes without the final 0.
pub mod Join
use tps_sis_ops.Base.{
  ℕ, zero, suc, ◌+◌, List, [], ◌∷◌, Option, none, some, Bool, true, false, ◌&&◌, not, length, take,
  drop, ltb, ◌==◌, if◌then◌else◌, str_eq,
}

-- `SLASH` and `SLASH_STR`.
abbrev pub slash : ℕ
slash = b'/'

abbrev pub slash_str : List ℕ
slash_str = slash ∷ []

-- The offset of the last `c` in a string, as the C library's `strrchr` finds it.
unfoldable pub strrchr : List ℕ → ℕ → Option ℕ
strrchr [] c = none
strrchr (x ∷ s) c = elim (strrchr s c) [
  | some k ↦ some (suc k)
  | none ↦ if x == c then some 0 else none
]

-- What stands behind the last slash; the string "/" if nothing does.
name_or_slash : List ℕ → List ℕ
name_or_slash [] = slash_str
name_or_slash (x ∷ s) = x ∷ s

unfoldable pub extract_filename : List ℕ → List ℕ
unfolding name_or_slash
extract_filename path = elim (strrchr path slash) [
  | some k ↦ name_or_slash (drop (suc k) path)
  | none ↦ path
]

unfoldable pub extract_prev_path : List ℕ → List ℕ
extract_prev_path path = elim (strrchr path slash) [
  | none ↦ slash_str
  | some zero ↦ slash_str
  | some (suc k) ↦ take (suc k) path
]

-- The loop of `path_depth`.
unfoldable pub count_slashes : List ℕ → ℕ
count_slashes [] = 0
count_slashes (x ∷ s) = (if x == slash then 1 else 0) + count_slashes s

-- `if (*p == SLASH) p++;`
unfoldable pub skip_slash : List ℕ → List ℕ
skip_slash [] = []
skip_slash (x ∷ s) = if x == slash then s else x ∷ s

unfoldable pub path_depth : List ℕ → ℕ
path_depth path =
    count_slashes (skip_slash path)
    + (if not (str_eq path slash_str) && ltb 0 (length path) then 1 else 0)
