-- ===== src/Fisopfs/Table/Create.antt =====
-- `modify_nlink_path`, `fs_add_inode` and `fs_create_entry` of fisopfs/fs.c in a valid table.
use tps_sis_ops.Base.{
  ℕ, ◌-◌, ◌<◌, ◌≡◌, ◌≢◌, ◌⊎◌, refl, sym, ap, ◌∙◌, inl, inr, List, none, some, Bool, true, false,
  ltb, Bool-cases, Option-cases, arith,
}
use tps_sis_ops.Fisopfs.Paths.{slash_str, extract_filename, extract_prev_path}
use tps_sis_ops.Fisopfs.Inode.{max_inodes, Inode, InodeType, Context, init_inode}
use tps_sis_ops.Fisopfs.Table.{
  Filesystem, set_inode, add_link, place, find_key, find_free_inode_slot, fs_lookup, fs_add_inode,
  modify_nlink_path,
}
use tps_sis_ops.Fisopfs.Table.Invariant.{
  IsFresh, IsKeyed, IsStored, IsValid, SameKey, Change, Changes, here, one, edit, update_self,
}
use tps_sis_ops.Fisopfs.Table.Lookup.{find_key-IsFresh, fs_lookup-root, fs_lookup-ne_root}
use tps_sis_ops.Fisopfs.Table.Keys.{FreeSlot, find_free-FreeSlot, find_free-none, fs_lookup-edit}

-- A different link count.
pub nlink-IsStored : (v : Inode) (n : ℕ) → IsStored v → IsStored (record v { nlink = n })
nlink-IsStored v n s = record {
  capacity = s.capacity;
  bounded = s.bounded;
  rest_zero = s.rest_zero;
}

pub nlink-SameKey : (v : Inode) (n : ℕ) → SameKey v (record v { nlink = n })
nlink-SameKey v n = record {
  same_name = refl;
  same_path = refl;
  same_prev = refl;
  same_type = refl;
}

nlink_edit :
    (fs : Filesystem) (i n : ℕ)
    → IsValid fs
    → Change fs (set_inode fs i (record (fs.inodes i) { nlink = n }))
nlink_edit fs i n valid =
    edit i _ (nlink-SameKey (fs.inodes i) n) (nlink-IsStored (fs.inodes i) n (valid.stored i))

pub modify_nlink_path-Changes :
    (fs : Filesystem) (path : List ℕ) (up : Bool)
    → IsValid fs
    → Changes fs (modify_nlink_path fs path up)
unfolding modify_nlink_path
modify_nlink_path-Changes fs path up valid = elim (Option-cases (fs_lookup fs path)) [
  | inl e ↦ rw (e, modify_nlink_path) here
  | inr (i, e) ↦
      rw (e, modify_nlink_path)
        (elim (Bool-cases up) [
          | inl u ↦ rw u (one (nlink_edit fs i _ valid))
          | inr u ↦ rw u (elim (Bool-cases (ltb 0 (fs.inodes i).nlink)) [
            | inl p ↦ rw p (one (nlink_edit fs i _ valid))
            | inr p ↦ rw p here
          ])
        ])
]

-- The link count of the inode found under `path` changes, and no lookup does.
pub fs_lookup-modify_nlink_path :
    (fs : Filesystem) (path q : List ℕ) (up : Bool)
    → fs_lookup (modify_nlink_path fs path up) q ≡ fs_lookup fs q
unfolding modify_nlink_path
fs_lookup-modify_nlink_path fs path q up = elim (Option-cases (fs_lookup fs path)) [
  | inl e ↦ rw (e, modify_nlink_path) refl
  | inr (i, e) ↦
      rw (e, modify_nlink_path)
        (elim (Bool-cases up) [
          | inl u ↦ rw u (fs_lookup-edit fs i _ q (nlink-SameKey (fs.inodes i) _))
          | inr u ↦ rw u (elim (Bool-cases (ltb 0 (fs.inodes i).nlink)) [
            | inl p ↦ rw p (fs_lookup-edit fs i _ q (nlink-SameKey (fs.inodes i) _))
            | inr p ↦ rw p refl
          ])
        ])
]

-- `modify_nlink_path` leaves the inodes alone that `path` does not name.
pub modify_nlink_path-other :
    (fs : Filesystem) (path : List ℕ) (up : Bool) (j : ℕ)
    → fs_lookup fs path ≢ some j
    → (modify_nlink_path fs path up).inodes j ≡ fs.inodes j
unfolding modify_nlink_path
modify_nlink_path-other fs path up j ne = ground arith

pub modify_nlink_path-bitmap :
    (fs : Filesystem) (path : List ℕ) (up : Bool) (j : ℕ)
    → (modify_nlink_path fs path up).inodes_bitmap j ≡ fs.inodes_bitmap j
unfolding modify_nlink_path
modify_nlink_path-bitmap fs path up j = ground arith

pub modify_nlink_path-up :
    (fs : Filesystem) (path : List ℕ) (j : ℕ)
    → fs_lookup fs path ≡ some j
    → modify_nlink_path fs path true ≡ add_link fs j
unfolding modify_nlink_path
modify_nlink_path-up fs path j e = rw (e, modify_nlink_path) refl

-- The link count goes down, but not below 0.
pub modify_nlink_path-down :
    (fs : Filesystem) (path : List ℕ) (j : ℕ)
    → fs_lookup fs path ≡ some j
    → (modify_nlink_path fs path false).inodes j
      ≡ record (fs.inodes j) { nlink = (fs.inodes j).nlink - 1 }
unfolding modify_nlink_path
modify_nlink_path-down fs path j e =
    rw (e, modify_nlink_path)
      (elim (Bool-cases (ltb 0 (fs.inodes j).nlink)) [
        | inl p ↦ rw p (update_self fs.inodes j _)
        | inr p ↦
            let same : (fs.inodes j).nlink ≡ (fs.inodes j).nlink - 1 = ground arith in
            rw p (ap (λ n. record (fs.inodes j) { nlink = n }) same)
      ])

-- The inode that `fs_create_entry` builds.
abbrev pub new_inode : Context → List ℕ → InodeType → Inode
new_inode c path type = init_inode c (extract_filename path) path (extract_prev_path path) type

pub ne_root_of_lookup :
    (fs : Filesystem) (path : List ℕ) → fs_lookup fs path ≡ none → path ≢ slash_str
ne_root_of_lookup fs path h e = cc (h, ap (fs_lookup fs) e, fs_lookup-root fs)

module _ (c : Context) (fs : Filesystem) (path : List ℕ) (type : InodeType) where
  pub new_inode-IsKeyed : path ≢ slash_str → IsKeyed (new_inode c path type)
  unfolding init_inode
  new_inode-IsKeyed ne = record { name_of_path = refl; prev_of_path = refl; not_root = ne }

  pub new_inode-IsFresh :
      fs_lookup fs path ≡ none
      → IsFresh fs (new_inode c path type).name (new_inode c path type).prev_path
  unfolding init_inode
  new_inode-IsFresh h =
      find_key-IsFresh fs (extract_filename path) (extract_prev_path path)
        (sym (fs_lookup-ne_root fs path (ne_root_of_lookup fs path h)) ∙ h)

  new_inode_key_none :
      fs_lookup fs path ≡ none
      → find_key fs (new_inode c path type).name (new_inode c path type).prev_path ≡ none
  unfolding init_inode
  new_inode_key_none h = sym (fs_lookup-ne_root fs path (ne_root_of_lookup fs path h)) ∙ h

  -- Adding the inode of a path that is not there fills a free slot, or finds none.
  pub fs_add_inode-new :
      fs_lookup fs path ≡ none
      → (((j : ℕ) → j < max_inodes → fs.inodes_bitmap j ≢ 0)
          × (fs_add_inode fs (new_inode c path type) ≡ (none, fs)))
        ⊎ ((i : ℕ) × FreeSlot fs i
            × (fs_add_inode fs (new_inode c path type)
                ≡ (some i, place fs i (new_inode c path type))))
  unfolding fs_add_inode
  fs_add_inode-new h = elim (Option-cases (find_free_inode_slot fs)) [
    | inl e ↦ inl (find_free-none fs e, rw (e, fs_add_inode) refl)
    | inr (i, e) ↦
        inr (i, find_free-FreeSlot fs i e, rw (e, fs_add_inode, new_inode_key_none h) refl)
  ]
