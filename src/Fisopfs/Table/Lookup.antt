-- ===== src/Fisopfs/Table/Lookup.antt =====
-- What `fs_lookup` of fisopfs/fs.c finds in a valid table.
use tps_sis_ops.Base.{
  ℕ, ◌<◌, ◌≡◌, ◌≢◌, refl, sym, ap, ◌∙◌, inl, inr, List, [], ◌∷◌, none, some, true, ◌==◌, str_eq,
  str_eq_iff, str_eq_refl, eq_of_str_eq, Bool-cases, Option-cases, arith, find_from-Found,
  find_from-none,
}
use tps_sis_ops.Fisopfs.Paths.{slash_str, strrchr, extract_filename, extract_prev_path}
use tps_sis_ops.Fisopfs.Inode.{max_inodes}
use tps_sis_ops.Fisopfs.Table.{Filesystem, has_key, find_key, fs_lookup}
use tps_sis_ops.Fisopfs.Table.Invariant.{IsUsed, IsFresh, IsValid}

-- What a successful search for a key says of the slot.
pub record HasKey (fs : Filesystem) (name prev_path : List ℕ) (i : ℕ) : Type 0 where
  pub below : i < max_inodes
  pub used : IsUsed fs i
  pub name_eq : (fs.inodes i).name ≡ name
  pub prev_eq : (fs.inodes i).prev_path ≡ prev_path

has_key-HasKey :
    (fs : Filesystem) (name prev_path : List ℕ) (i : ℕ)
    → i < max_inodes
    → has_key fs name prev_path i ≡ true
    → HasKey fs name prev_path i
unfolding has_key
has_key-HasKey fs name prev_path i lt h = record {
  below = lt;
  used = ground arith;
  name_eq = eq_of_str_eq (fs.inodes i).name name (ground arith);
  prev_eq = eq_of_str_eq (fs.inodes i).prev_path prev_path (ground arith);
}

HasKey-has_key :
    (fs : Filesystem) (name prev_path : List ℕ) (i : ℕ)
    → IsUsed fs i
    → (fs.inodes i).name ≡ name
    → (fs.inodes i).prev_path ≡ prev_path
    → has_key fs name prev_path i ≡ true
unfolding has_key
HasKey-has_key fs name prev_path i used en ep =
    rw (used, en, ep, str_eq_refl name, str_eq_refl prev_path)

pub find_key-HasKey :
    (fs : Filesystem) (name prev_path : List ℕ) (i : ℕ)
    → find_key fs name prev_path ≡ some i
    → HasKey fs name prev_path i
unfolding find_key
find_key-HasKey fs name prev_path i h =
    let f = find_from-Found (has_key fs name prev_path) max_inodes 0 i h in
    has_key-HasKey fs name prev_path i (omega (arith, f.below)) f.holds

pub find_key-IsFresh :
    (fs : Filesystem) (name prev_path : List ℕ)
    → find_key fs name prev_path ≡ none
    → IsFresh fs name prev_path
unfolding find_key
find_key-IsFresh fs name prev_path h i lt used en ep =
    let miss =
      find_from-none (has_key fs name prev_path) max_inodes 0 i h (omega arith) (omega arith) in
    let hit = HasKey-has_key fs name prev_path i used en ep in cc (miss, hit)

pub IsFresh-find_key :
    (fs : Filesystem) (name prev_path : List ℕ)
    → IsFresh fs name prev_path
    → find_key fs name prev_path ≡ none
IsFresh-find_key fs name prev_path fresh = elim (Option-cases (find_key fs name prev_path)) [
  | inl e ↦ e
  | inr (i, e) ↦
      let k = find_key-HasKey fs name prev_path i e in
      absurd (fresh i k.below k.used k.name_eq k.prev_eq)
]

-- In a valid table a used slot is what the search for its key finds.
pub find_key-of_IsUsed :
    (fs : Filesystem) (i : ℕ)
    → IsValid fs
    → i < max_inodes
    → IsUsed fs i
    → find_key fs (fs.inodes i).name (fs.inodes i).prev_path ≡ some i
find_key-of_IsUsed fs i valid lt used =
    elim (Option-cases (find_key fs (fs.inodes i).name (fs.inodes i).prev_path)) [
      | inl e ↦
          absurd
            (find_key-IsFresh fs (fs.inodes i).name (fs.inodes i).prev_path e i lt used refl refl)
      | inr (j, e) ↦
          let k = find_key-HasKey fs (fs.inodes i).name (fs.inodes i).prev_path j e in
          e ∙ ap some (valid.unique j i k.below lt k.used used k.name_eq k.prev_eq)
    ]

prev-nil : extract_prev_path [] ≡ slash_str
unfolding extract_prev_path strrchr
prev-nil = refl

-- The path of a directory is never empty.
extract_prev_path-ne_nil : (p : List ℕ) → extract_prev_path p ≢ []
unfolding extract_prev_path
extract_prev_path-ne_nil [] e = cc prev-nil
extract_prev_path-ne_nil (x ∷ s) e = ground arith

pub fs_lookup-root : (fs : Filesystem) → fs_lookup fs slash_str ≡ some 0
unfolding fs_lookup str_eq
fs_lookup-root fs = refl

pub fs_lookup-ne_root :
    (fs : Filesystem) (path : List ℕ)
    → path ≢ slash_str
    → fs_lookup fs path ≡ find_key fs (extract_filename path) (extract_prev_path path)
unfolding fs_lookup
fs_lookup-ne_root fs path ne = elim (Bool-cases (str_eq path slash_str)) [
  | inl e ↦ absurd (ne (eq_of_str_eq path slash_str e))
  | inr e ↦ rw e
]

-- Slot 0 is found under the root's path alone.
pub fs_lookup-zero :
    (fs : Filesystem) (path : List ℕ) → IsValid fs → fs_lookup fs path ≡ some 0 → path ≡ slash_str
fs_lookup-zero fs path valid h = elim (Bool-cases (str_eq path slash_str)) [
  | inl e ↦ eq_of_str_eq path slash_str e
  | inr e ↦
      let ne : path ≢ slash_str = λ p. ground (arith, (str_eq_iff path slash_str).1 p) in
      let k =
        find_key-HasKey fs (extract_filename path) (extract_prev_path path) 0
          (sym (fs_lookup-ne_root fs path ne) ∙ h) in
      absurd (extract_prev_path-ne_nil path (sym k.prev_eq ∙ valid.root.root_prev))
]

-- In a valid table every inode in use is found under the path that it holds, the root included.
pub lookup-stored_path :
    (fs : Filesystem) (i : ℕ)
    → IsValid fs
    → i < max_inodes
    → IsUsed fs i
    → fs_lookup fs (fs.inodes i).path ≡ some i
lookup-stored_path fs i valid lt used = elim (Bool-cases (i == 0)) [
  | inl e ↦ let z : i ≡ 0 = ground arith in rw (z, valid.root.root_path) (fs_lookup-root fs)
  | inr e ↦
      let k = valid.keyed i lt used (ground arith) in
      fs_lookup-ne_root fs (fs.inodes i).path k.not_root
      ∙ rw (← k.name_of_path, ← k.prev_of_path) (find_key-of_IsUsed fs i valid lt used)
]

-- What `fs_lookup` returns is a slot in range and in use; away from the root it has the key of the
-- path.
pub fs_lookup-HasKey :
    (fs : Filesystem) (path : List ℕ) (i : ℕ)
    → path ≢ slash_str
    → fs_lookup fs path ≡ some i
    → HasKey fs (extract_filename path) (extract_prev_path path) i
fs_lookup-HasKey fs path i ne h =
    find_key-HasKey fs (extract_filename path) (extract_prev_path path) i
      (sym (fs_lookup-ne_root fs path ne) ∙ h)

-- What `fs_lookup` returns in a valid table is a slot in range and in use.
pub fs_lookup-IsUsed :
    (fs : Filesystem) (path : List ℕ) (i : ℕ)
    → IsValid fs
    → fs_lookup fs path ≡ some i
    → (i < max_inodes) × IsUsed fs i
fs_lookup-IsUsed fs path i valid h = elim (Bool-cases (str_eq path slash_str)) [
  | inl e ↦
      let p = eq_of_str_eq path slash_str e in
      let z : some 0 ≡ some i = sym (fs_lookup-root fs) ∙ (ap (fs_lookup fs) (sym p) ∙ h) in
      let z' : 0 ≡ i = cc in (omega arith, rw (← z') valid.root_used)
  | inr e ↦
      let ne : path ≢ slash_str = λ p. ground (arith, (str_eq_iff path slash_str).1 p) in
      let k = fs_lookup-HasKey fs path i ne h in (k.below, k.used)
]
