-- ===== src/Fisopfs/Table/Keys.antt =====
-- How the changes of the table act on the search for a key (fisopfs/fs.c: `fs_add_inode`,
-- `fs_lookup`), in the form of map laws.
use mathlib.Core.Path.{subst, subst₂}
use tps_sis_ops.Base.{
  ℕ, ◌<◌, ◌≡◌, ◌≢◌, ap, inl, inr, List, Option, none, some, Bool, false, ◌&&◌, ◌==◌, if◌then◌else◌,
  str_eq, eq_of_str_eq, Bool-cases, arith, update, find_from_ext, find_from-Found, find_from-none,
}
use tps_sis_ops.Fisopfs.Paths.{slash_str, extract_filename, extract_prev_path}
use tps_sis_ops.Fisopfs.Inode.{max_inodes, Inode, zero_inode}
use tps_sis_ops.Fisopfs.Table.{
  Filesystem, set_inode, place, has_key, find_key, find_free_inode_slot, fs_lookup,
}
use tps_sis_ops.Fisopfs.Table.Invariant.{
  IsUsed, IsFresh, IsKeyed, IsStored, IsValid, SameKey, edited, Change-IsValid, add, update_self,
}
use tps_sis_ops.Fisopfs.Table.Lookup.{IsFresh-find_key, find_key-of_IsUsed}

abbrev pub same_key : Inode → List ℕ → List ℕ → Bool
same_key v name prev_path = str_eq v.name name && str_eq v.prev_path prev_path

-- A free slot is in range, free, and not the root's.
pub record FreeSlot (fs : Filesystem) (i : ℕ) : Type 0 where
  pub below : i < max_inodes
  pub free : fs.inodes_bitmap i ≡ 0

pub find_free-FreeSlot :
    (fs : Filesystem) (i : ℕ) → find_free_inode_slot fs ≡ some i → FreeSlot fs i
unfolding find_free_inode_slot
find_free-FreeSlot fs i h =
    let f = find_from-Found (λ j. fs.inodes_bitmap j == 0) max_inodes 0 i h in
    record { below = omega (arith, f.below); free = ground (arith, f.holds) }

pub find_free-none :
    (fs : Filesystem)
    → find_free_inode_slot fs ≡ none
    → (j : ℕ) → j < max_inodes
    → fs.inodes_bitmap j ≢ 0
unfolding find_free_inode_slot
find_free-none fs h j lt e =
    let used = find_from-none (λ j. fs.inodes_bitmap j == 0) max_inodes 0 j h (omega arith) lt in
    absurd (ground arith)

pub free-ne_zero : (fs : Filesystem) (i : ℕ) → IsValid fs → fs.inodes_bitmap i ≡ 0 → i ≢ 0
free-ne_zero fs i valid free e = ground (arith, ap fs.inodes_bitmap e, valid.root_used)

-- An edit that keeps the keys keeps what every search finds.
pub find_key-edit :
    (fs : Filesystem) (i : ℕ) (v : Inode) (name prev_path : List ℕ)
    → SameKey (fs.inodes i) v
    → find_key (set_inode fs i v) name prev_path ≡ find_key fs name prev_path
unfolding find_key has_key
find_key-edit fs i v name prev_path same =
    find_from_ext _ _ max_inodes 0
      λ j lo hi. let s = edited fs i v same j in rw (s.same_name, s.same_prev)

pub fs_lookup-edit :
    (fs : Filesystem) (i : ℕ) (v : Inode) (path : List ℕ)
    → SameKey (fs.inodes i) v
    → fs_lookup (set_inode fs i v) path ≡ fs_lookup fs path
unfolding fs_lookup
fs_lookup-edit fs i v path same =
    rw (find_key-edit fs i v (extract_filename path) (extract_prev_path path) same)

module _ (fs : Filesystem) (i : ℕ) (v : Inode) (valid : IsValid fs) (slot : FreeSlot fs i)
    (fresh : IsFresh fs v.name v.prev_path) (keys : IsKeyed v) (ok : IsStored v) where
  place-IsValid : IsValid (place fs i v)
  place-IsValid = Change-IsValid (add i v (free-ne_zero fs i valid slot.free) fresh keys ok) valid

  find_key-place_self : find_key (place fs i v) v.name v.prev_path ≡ some i
  find_key-place_self =
      subst (λ (w : Inode). find_key (place fs i v) w.name w.prev_path ≡ some i)
        (update_self fs.inodes i v)
        (find_key-of_IsUsed (place fs i v) i place-IsValid slot.below
          (update_self fs.inodes_bitmap i 1))

  find_key-place_ne :
      (name prev_path : List ℕ)
      → same_key v name prev_path ≡ false
      → find_key (place fs i v) name prev_path ≡ find_key fs name prev_path
  unfolding find_key has_key
  find_key-place_ne name prev_path ne = find_from_ext _ _ max_inodes 0 λ j lo hi.
      elim (Bool-cases (j == i)) [
        | inl e ↦ let free : fs.inodes_bitmap j ≡ 0 = ground (arith, slot.free) in rw (e, free, ne)
        | inr e ↦ rw e
      ]

  -- A new entry is found under its key, and nothing else changes.
  pub find_key-place :
      (name prev_path : List ℕ)
      → find_key (place fs i v) name prev_path
        ≡ (if same_key v name prev_path then some i else find_key fs name prev_path)
  find_key-place name prev_path = elim (Bool-cases (same_key v name prev_path)) [
    | inl e ↦ rw e (
        subst₂ (λ n p. find_key (place fs i v) n p ≡ some i)
          (eq_of_str_eq v.name name (ground arith))
          (eq_of_str_eq v.prev_path prev_path (ground arith)) find_key-place_self)
    | inr e ↦ rw e (find_key-place_ne name prev_path e)
  ]

-- What `unlink` and `rmdir` leave of a slot.
abbrev pub removed : Filesystem → ℕ → Filesystem
removed fs i = record fs {
  inodes = update fs.inodes i zero_inode;
  inodes_bitmap = update fs.inodes_bitmap i 0;
}

module _ (fs : Filesystem) (i : ℕ) (valid : IsValid fs) (lt : i < max_inodes)
    (used : IsUsed fs i) where
  removed-IsFresh : IsFresh (removed fs i) (fs.inodes i).name (fs.inodes i).prev_path
  removed-IsFresh j ltj usedj en ep = elim (Bool-cases (j == i)) [
    | inl e ↦ ground arith
    | inr e ↦
        let same : j ≡ i =
          valid.unique j i ltj lt (ground arith) used (ground arith) (ground arith) in
        ground arith
  ]

  find_key-removed_ne :
      (name prev_path : List ℕ)
      → same_key (fs.inodes i) name prev_path ≡ false
      → find_key (removed fs i) name prev_path ≡ find_key fs name prev_path
  unfolding find_key has_key
  find_key-removed_ne name prev_path ne = find_from_ext _ _ max_inodes 0 λ j lo hi.
      elim (Bool-cases (j == i)) [
        | inl e ↦ let e' : j ≡ i = ground arith in rw (e, e', used, ne)
        | inr e ↦ rw e
      ]

  -- A removed entry is found no more, and nothing else changes.
  pub find_key-removed :
      (name prev_path : List ℕ)
      → find_key (removed fs i) name prev_path
        ≡ (if same_key (fs.inodes i) name prev_path then none else find_key fs name prev_path)
  find_key-removed name prev_path = elim (Bool-cases (same_key (fs.inodes i) name prev_path)) [
    | inl e ↦ rw e (
        subst₂ (λ n p. find_key (removed fs i) n p ≡ none)
          (eq_of_str_eq (fs.inodes i).name name (ground arith))
          (eq_of_str_eq (fs.inodes i).prev_path prev_path (ground arith))
          (IsFresh-find_key (removed fs i) (fs.inodes i).name (fs.inodes i).prev_path
            removed-IsFresh))
    | inr e ↦ rw e (find_key-removed_ne name prev_path e)
  ]

-- What a free slot holds does not matter.
pub fs_lookup-unused :
    (fs : Filesystem) (i : ℕ) (v : Inode) (q : List ℕ)
    → fs.inodes_bitmap i ≡ 0
    → fs_lookup (set_inode fs i v) q ≡ fs_lookup fs q
unfolding fs_lookup find_key has_key
fs_lookup-unused fs i v q free =
    ap (λ (o : Option ℕ). if str_eq q slash_str then some 0 else o)
      (find_from_ext _ _ max_inodes 0 λ j lo hi. elim (Bool-cases (j == i)) [
        | inl e ↦ let free' : fs.inodes_bitmap j ≡ 0 = ground arith in rw (e, free')
        | inr e ↦ rw e
      ])
