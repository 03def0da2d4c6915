-- ===== src/Fisopfs/Table.antt =====
-- The inode table and its operations (fisopfs/fs.c). An array of `MAX_INODES` entries is a function
-- of its index, which only the loops over `0 .. MAX_INODES - 1` produce. `none` is `BAD_INDEX`.
pub mod Create
pub mod Entry
pub mod Invariant
pub mod Keys
pub mod Lookup
use tps_sis_ops.Base.{
  ℕ, ◌+◌, ◌-◌, List, [], Option, none, some, Bool, true, false, ◌&&◌, ltb, ◌==◌, if◌then◌else◌,
  str_eq, find_from, update,
}
use tps_sis_ops.Fisopfs.Paths.{slash_str, extract_filename, extract_prev_path}
use tps_sis_ops.Fisopfs.Inode.{
  max_inodes, Inode, InodeType, dir_type, Context, zero_inode, init_inode,
}

-- `filesystem_t`; an entry of the bitmap is `USED_INODE`, 1, or `NOT_USED_INODE`, 0.
pub record Filesystem : Type 0 where
  pub inodes : ℕ → Inode
  pub inodes_bitmap : ℕ → ℕ
  pub inodes_amount : ℕ

-- The error codes that the handlers return, negated; -1, `BAD_INDEX`, is -EPERM.
pub data Errno : Type 0 where
  eperm enoent eio enomem eacces eexist enotdir eisdir einval enospc enametoolong enotempty : Errno

-- What a handler returns: a count, or a negated error code.
pub data Code : Type 0 where
  ret : ℕ → Code
  fail : Errno → Code

abbrev pub set_inode : Filesystem → ℕ → Inode → Filesystem
set_inode fs i v = record fs { inodes = update fs.inodes i v }

unfoldable pub find_free_inode_slot : Filesystem → Option ℕ
find_free_inode_slot fs = find_from (λ i. fs.inodes_bitmap i == 0) max_inodes 0

-- The test that `fs_lookup` and `fs_add_inode` make of an inode.
unfoldable pub has_key : Filesystem → List ℕ → List ℕ → ℕ → Bool
has_key fs name prev_path i =
    (fs.inodes_bitmap i == 1)
    && str_eq (fs.inodes i).name name
    && str_eq (fs.inodes i).prev_path prev_path

unfoldable pub find_key : Filesystem → List ℕ → List ℕ → Option ℕ
find_key fs name prev_path = find_from (has_key fs name prev_path) max_inodes 0

unfoldable pub fs_lookup : Filesystem → List ℕ → Option ℕ
fs_lookup fs path =
    if str_eq path slash_str
    then some 0
    else find_key fs (extract_filename path) (extract_prev_path path)

abbrev pub add_link : Filesystem → ℕ → Filesystem
add_link fs i = set_inode fs i (record (fs.inodes i) { nlink = (fs.inodes i).nlink + 1 })

-- The new table entry of `fs_add_inode`.
abbrev pub place : Filesystem → ℕ → Inode → Filesystem
place fs i inode = record {
  inodes = update fs.inodes i inode;
  inodes_bitmap = update fs.inodes_bitmap i 1;
  inodes_amount = fs.inodes_amount + 1;
}

unfoldable pub fs_add_inode : Filesystem → Inode → Option ℕ × Filesystem
fs_add_inode fs inode = elim (find_free_inode_slot fs) [
  | none ↦ (none, fs)
  | some index ↦ elim (find_key fs inode.name inode.prev_path) [
    | some i ↦ (some i, add_link fs i)
    | none ↦ (some index, place fs index inode)
  ]
]

unfoldable pub modify_nlink_path : Filesystem → List ℕ → Bool → Filesystem
modify_nlink_path fs path add = elim (fs_lookup fs path) [
  | none ↦ fs
  | some i ↦
      if add
      then add_link fs i
      else (if ltb 0 (fs.inodes i).nlink
          then set_inode fs i (record (fs.inodes i) { nlink = (fs.inodes i).nlink - 1 })
          else fs)
]

-- The requested mode only goes into a message.
unfoldable pub fs_create_entry : Context → Filesystem → List ℕ → ℕ → InodeType → Code × Filesystem
fs_create_entry c fs path mode type =
    if fs.inodes_amount == max_inodes
    then (fail enomem, fs)
    else (let prev_path = extract_prev_path path in
        let added = fs_add_inode fs (init_inode c (extract_filename path) path prev_path type) in
        elim added.0 [
          | none ↦ (fail eperm, added.1)
          | some index ↦ (ret 0, modify_nlink_path added.1 prev_path true)
        ])

unfoldable pub fs_initialize : Context → Filesystem
fs_initialize c = record {
  inodes = update (λ i. zero_inode) 0 (init_inode c slash_str slash_str [] dir_type);
  inodes_bitmap = update (λ i. 0) 0 1;
  inodes_amount = 1;
}
