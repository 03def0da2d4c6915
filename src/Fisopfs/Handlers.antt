-- ===== src/Fisopfs/Handlers.antt =====
-- The handlers of fisopfs/fisopfs.c, one function each. Offsets and sizes are not negative: the
-- kernel refuses the others before they reach FUSE.
pub mod Content
pub mod Listing
pub mod Remove
pub mod Truncate
pub mod Write
use tps_sis_ops.Base.{
  ℕ, zero, suc, ◌+◌, ◌-◌, ◌*◌, ◌/◌, ◌%◌, ◌^◌, List, [], ◌∷◌, ◌++◌, Option, none, some, Bool, true,
  false, ◌&&◌, not, length, take, drop, replicate, ltb, leb, ◌==◌, if◌then◌else◌, str_eq, update,
}
use tps_sis_ops.Fisopfs.Paths.{slash_str, path_depth}
use tps_sis_ops.Fisopfs.Inode.{
  max_data, max_inodes, max_depth, Inode, InodeType, file_type, dir_type, Context, zero_inode,
}
use tps_sis_ops.Fisopfs.Table.{
  Filesystem, Errno, eperm, enoent, enospc, eacces, eexist, enotdir, eisdir, einval, enametoolong,
  enotempty, Code, ret, fail, set_inode, fs_lookup, modify_nlink_path, fs_create_entry,
}

-- A call that returns, or one that writes outside of an inode's `data`.
pub data Outcome : Type 0 where
  done : Code → Filesystem → Outcome
  fault : Outcome

-- The fields of `struct stat` that `fisopfs_getattr` fills; it zeroes the others.
pub record Stat : Type 0 where
  pub st_ino : ℕ
  pub st_uid : ℕ
  pub st_gid : ℕ
  pub st_mode : ℕ
  pub st_nlink : ℕ
  pub st_size : ℕ
  pub st_atime : ℕ
  pub st_mtime : ℕ
  pub st_ctime : ℕ

abbrev zero_stat : Stat
zero_stat = record {
  st_ino = 0;
  st_uid = 0;
  st_gid = 0;
  st_mode = 0;
  st_nlink = 0;
  st_size = 0;
  st_atime = 0;
  st_mtime = 0;
  st_ctime = 0;
}

unfoldable pub getattr : Filesystem → List ℕ → Code × Stat
getattr fs path = elim (fs_lookup fs path) [
  | none ↦ (fail enoent, zero_stat)
  | some index ↦
      let inode = fs.inodes index in
      (
        ret 0,
        record {
          st_ino = index;
          st_uid = inode.uid;
          st_gid = inode.gid;
          st_mode = inode.mode;
          st_nlink = inode.nlink;
          st_size = inode.size;
          st_atime = inode.access_time;
          st_mtime = inode.modification_time;
          st_ctime = inode.creation_time;
        },
      )
]

abbrev pub dot : List ℕ
dot = b'.' ∷ []

abbrev pub dot_dot : List ℕ
dot_dot = b'.' ∷ b'.' ∷ []

-- The test of the loop of `fisopfs_readdir`.
unfoldable pub is_child : Filesystem → List ℕ → ℕ → Bool
is_child fs dir i = (fs.inodes_bitmap i == 1) && str_eq (fs.inodes i).prev_path dir

-- The loop of `fisopfs_readdir`: `n` rounds from index `i` on.
unfoldable pub children : Filesystem → List ℕ → ℕ → ℕ → List (List ℕ)
children fs dir zero i = []
children fs dir (suc n) i =
    let rest = children fs dir n (i + 1) in
    if is_child fs dir i then (fs.inodes i).name ∷ rest else rest

-- The list holds the names handed to `filler`, in order.
unfoldable pub readdir : Filesystem → List ℕ → Code × List (List ℕ)
readdir fs path = elim (fs_lookup fs path) [
  | none ↦ (fail enoent, dot ∷ dot_dot ∷ [])
  | some index ↦ elim (fs.inodes index).type [
    | file_type ↦ (fail enotdir, dot ∷ dot_dot ∷ [])
    | dir_type ↦ (ret 0, dot ∷ dot_dot ∷ children fs (fs.inodes index).path max_inodes 0)
  ]
]

-- The bytes that `fisopfs_read` copies.
abbrev pub read_length : Inode → ℕ → ℕ → ℕ
read_length inode size offset = if ltb size (inode.size - offset) then size else inode.size - offset

-- `fisopfs_read` from the test of the offset on, for the file in slot `index`.
unfoldable pub read_file : Context → Filesystem → ℕ → Inode → ℕ → ℕ → Code × List ℕ × Filesystem
read_file c fs index inode size offset =
    if leb inode.size offset
    then (ret 0, [], fs)
    else (let len = read_length inode size offset in
        (
          ret len,
          take len (drop offset inode.content),
          set_inode fs index (record inode { access_time = c.time 0 }),
        ))

-- The code, the bytes put into `buffer`, and the new state.
unfoldable pub read : Context → Filesystem → List ℕ → ℕ → ℕ → Code × List ℕ × Filesystem
read c fs path size offset = elim (fs_lookup fs path) [
  | none ↦ (fail enoent, [], fs)
  | some index ↦ elim (fs.inodes index).type [
    | dir_type ↦ (fail eisdir, [], fs)
    | file_type ↦ read_file c fs index (fs.inodes index) size offset
  ]
]

unfoldable pub mkdir : Context → Filesystem → List ℕ → ℕ → Code × Filesystem
mkdir c fs path mode =
    if ltb max_depth (path_depth path) then (fail enametoolong, fs) else elim (fs_lookup fs path) [
      | some index ↦ (fail eexist, fs)
      | none ↦ fs_create_entry c fs path mode dir_type
    ]

unfoldable pub create : Context → Filesystem → List ℕ → ℕ → Code × Filesystem
create c fs path mode = elim (fs_lookup fs path) [
  | some index ↦ (fail eexist, fs)
  | none ↦ fs_create_entry c fs path mode file_type
]

abbrev pub free_slot : Filesystem → ℕ → Filesystem
free_slot fs index = record fs { inodes_bitmap = update fs.inodes_bitmap index 0 }

-- `fisopfs_rmdir` from the test of the link count on, for the directory in slot `index`.
unfoldable pub rmdir_dir : Filesystem → ℕ → Inode → Code × Filesystem
rmdir_dir fs index inode =
    if ltb 2 inode.nlink
    then (fail enotempty, fs)
    else (if str_eq inode.path slash_str then (fail eperm, fs) else (
      ret 0,
      set_inode (modify_nlink_path (free_slot fs index) inode.prev_path false) index zero_inode,
    ))

unfoldable pub rmdir : Filesystem → List ℕ → Code × Filesystem
rmdir fs path = elim (fs_lookup fs path) [
  | none ↦ (fail enoent, fs)
  | some index ↦ elim (fs.inodes index).type [
    | file_type ↦ (fail enotdir, fs)
    | dir_type ↦ rmdir_dir fs index (fs.inodes index)
  ]
]

-- `memset(data + start, 0, count)` and `memcpy(data + start, bytes, …)`; `none` if they leave the
-- array.
unfoldable pub memset_zero : List ℕ → ℕ → ℕ → Option (List ℕ)
memset_zero a start count =
    if ltb (length a) (start + count)
    then none
    else some (take start a ++ (replicate count 0 ++ drop (start + count) a))

unfoldable pub memcpy_at : List ℕ → ℕ → List ℕ → Option (List ℕ)
memcpy_at a start bytes =
    if ltb (length a) (start + length bytes)
    then none
    else some (take start a ++ (bytes ++ drop (start + length bytes) a))

-- `offset + size`, of type `size_t`.
abbrev pub end_of : ℕ → List ℕ → ℕ
end_of offset buffer = (offset + length buffer) % 2 ^ 64

-- The part of `fisopfs_write` behind its `memset`: `gap` is the array that this leaves.
unfoldable pub write_from : Context → Filesystem → ℕ → Inode → List ℕ → ℕ → Outcome
write_from c fs index inode buffer offset =
    if ltb max_data (end_of offset buffer)
    then done (fail enospc) (set_inode fs index inode)
    else (if not (inode.uid == c.caller_uid)
        then done (fail eacces) (set_inode fs index inode)
        else elim (memcpy_at inode.content offset buffer) [
          | none ↦ fault
          | some content ↦ done (ret (length buffer)) (
              set_inode fs index (record inode {
                content = content;
                access_time = c.time 0;
                modification_time = c.time 1;
                size =
                    if ltb inode.size (end_of offset buffer)
                    then end_of offset buffer
                    else inode.size;
              }))
        ])

-- `fisopfs_write` from the test of the gap on, for the file in slot `index`.
unfoldable pub write_file : Context → Filesystem → ℕ → Inode → List ℕ → ℕ → Outcome
write_file c fs index inode buffer offset =
    if ltb inode.size offset
    then elim (memset_zero inode.content inode.size (offset - inode.size)) [
      | none ↦ fault
      | some content ↦ write_from c fs index (record inode { content = content }) buffer offset
    ]
    else write_from c fs index inode buffer offset

-- `size` is the number of bytes of `buffer`.
unfoldable pub write : Context → Filesystem → List ℕ → List ℕ → ℕ → Outcome
write c fs path buffer offset = elim (fs_lookup fs path) [
  | none ↦ done (fail enoent) fs
  | some index ↦ elim (fs.inodes index).type [
    | dir_type ↦ done (fail eisdir) fs
    | file_type ↦ write_file c fs index (fs.inodes index) buffer offset
  ]
]

-- `fisopfs_truncate` from the test of the owner on, for the file in slot `index`.
unfoldable pub truncate_file : Context → Filesystem → ℕ → Inode → ℕ → Outcome
truncate_file c fs index inode size =
    if not (inode.uid == c.caller_uid)
    then done (fail eacces) fs
    else (let inode' = record inode { modification_time = c.time 0; size = size } in
        if ltb size inode.size
        then elim (memset_zero inode.content size (inode.size - size)) [
          | none ↦ fault
          | some content ↦ done (ret 0) (set_inode fs index (record inode' { content = content }))
        ]
        else done (ret 0) (set_inode fs index inode'))

unfoldable pub truncate : Context → Filesystem → List ℕ → ℕ → Outcome
truncate c fs path size =
    if ltb max_data size then done (fail einval) fs else elim (fs_lookup fs path) [
      | none ↦ done (fail enoent) fs
      | some index ↦ elim (fs.inodes index).type [
        | dir_type ↦ done (fail eisdir) fs
        | file_type ↦ truncate_file c fs index (fs.inodes index) size
      ]
    ]

-- `fisopfs_unlink` from the test of the ids on, for the file in slot `index`.
unfoldable pub unlink_file : Context → Filesystem → ℕ → Inode → Code × Filesystem
unlink_file c fs index inode =
    if not (c.caller_uid == 0) && not (inode.uid == c.caller_uid)
    then (fail eacces, fs)
    else (ret 0, set_inode (free_slot fs index) index zero_inode)

unfoldable pub unlink : Context → Filesystem → List ℕ → Code × Filesystem
unlink c fs path = elim (fs_lookup fs path) [
  | none ↦ (fail enoent, fs)
  | some index ↦ elim (fs.inodes index).type [
    | dir_type ↦ (fail eisdir, fs)
    | file_type ↦ unlink_file c fs index (fs.inodes index)
  ]
]

-- `none` is the NULL `tv`; otherwise the two times in seconds.
unfoldable pub utimens : Context → Filesystem → List ℕ → Option (ℕ × ℕ) → Code × Filesystem
utimens c fs path tv = elim (fs_lookup fs path) [
  | none ↦ (fail enoent, fs)
  | some index ↦
      let inode = fs.inodes index in
      elim tv [
        | none ↦ (
          ret 0,
          set_inode fs index
              (record inode { access_time = c.time 0; modification_time = c.time 0 }),
        )
        | some (atime, mtime) ↦ (
          ret 0,
          set_inode fs index (record inode { access_time = atime; modification_time = mtime }),
        )
      ]
]

-- Whether the bit of weight `bit` is set in `mode`.
abbrev pub mode_bit : ℕ → ℕ → Bool
mode_bit mode bit = mode / bit % 2 == 1

-- `has_read_permission`: the bits `S_IRUSR`, `S_IRGRP` and `S_IROTH`.
unfoldable pub has_read_permission : Inode → ℕ → ℕ → Bool
has_read_permission inode uid gid =
    if uid == 0
    then true
    else (if uid == inode.uid
        then mode_bit inode.mode 0o400
        else (if gid == inode.gid then mode_bit inode.mode 0o40 else mode_bit inode.mode 0o4))

-- `(uid_t) -1`, which leaves an id as it is.
abbrev pub no_id : ℕ
no_id = 2 ^ 32 - 1

unfoldable pub chown : Context → Filesystem → List ℕ → ℕ → ℕ → Code × Filesystem
chown c fs path uid gid = elim (fs_lookup fs path) [
  | none ↦ (fail enoent, fs)
  | some index ↦
      let inode = fs.inodes index in
      if not (c.caller_uid == 0) then (fail eperm, fs) else (
        ret 0,
        set_inode fs index (record inode {
          uid = if uid == no_id then inode.uid else uid;
          gid = if gid == no_id then inode.gid else gid;
          modification_time = c.time 0;
        }),
      )
]

-- The twelve permission bits come from `mode`, the others from the inode.
unfoldable pub chmod : Context → Filesystem → List ℕ → ℕ → Code × Filesystem
chmod c fs path mode = elim (fs_lookup fs path) [
  | none ↦ (fail enoent, fs)
  | some index ↦
      let inode = fs.inodes index in
      if not (c.caller_uid == 0) && not (c.caller_uid == inode.uid) then (fail eperm, fs) else (
        ret 0,
        set_inode fs index (record inode {
          mode = inode.mode / 0o10000 * 0o10000 + mode % 0o10000;
          modification_time = c.time 0;
        }),
      )
]
