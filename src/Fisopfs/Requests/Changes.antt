-- ===== src/Fisopfs/Requests/Changes.antt =====
-- The requests of fisopfs/fisopfs.c that touch one inode or add one, as changes of the inode table.
use tps_sis_ops.Base.{
  ℕ, ◌≡◌, refl, inl, inr, List, Option, none, some, not, ◌&&◌, ◌==◌, ltb, leb, Bool-cases,
  Option-cases,
}
use tps_sis_ops.Fisopfs.Paths.{path_depth}
use tps_sis_ops.Fisopfs.Inode.{max_depth, Inode, InodeType, file_type, dir_type, Context}
use tps_sis_ops.Fisopfs.Table.{Filesystem, Code, ret, set_inode, fs_lookup, fs_create_entry}
use tps_sis_ops.Fisopfs.Table.Invariant.{IsValid, Changes, one, here, edit}
use tps_sis_ops.Fisopfs.Table.Entry.{fs_create_entry-cases}
use tps_sis_ops.Fisopfs.Handlers.{read, read_file, mkdir, create, utimens, chown, chmod}
use tps_sis_ops.Fisopfs.Handlers.Write.{read_at}
use tps_sis_ops.Fisopfs.Handlers.Remove.{InodeType-cases}

-- An inode with other ids, mode and times.
abbrev retouched : Inode → ℕ → ℕ → ℕ → ℕ → ℕ → Inode
retouched v uid gid mode access modified = record v {
  uid = uid;
  gid = gid;
  mode = mode;
  access_time = access;
  modification_time = modified;
}

module _ (fs : Filesystem) (i uid gid mode access modified : ℕ) (valid : IsValid fs) where
  retouch : Changes fs (set_inode fs i (retouched (fs.inodes i) uid gid mode access modified))
  retouch =
      let s = valid.stored i in
      one (
        edit i _ (record { same_name = refl; same_path = refl; same_prev = refl; same_type = refl })
          (record { capacity = s.capacity; bounded = s.bounded; rest_zero = s.rest_zero }))

pub create-Changes :
    (c : Context) (fs : Filesystem) (path : List ℕ) (mode : ℕ) (type : InodeType)
    → IsValid fs
    → fs_lookup fs path ≡ none
    → Changes fs (fs_create_entry c fs path mode type).1
create-Changes c fs path mode type valid h =
    elim (fs_create_entry-cases c fs path type mode valid h) [
      | inl (_, e) ↦ rw e here
      | inr (inl (_, _, e)) ↦ rw e here
      | inr (inr (_, e, made, changes)) ↦ changes
    ]

pub read_file-Changes :
    (c : Context) (fs : Filesystem) (i size offset : ℕ)
    → IsValid fs
    → Changes fs (read_file c fs i (fs.inodes i) size offset).2
unfolding read_file
read_file-Changes c fs i size offset valid = elim (Bool-cases (leb (fs.inodes i).size offset)) [
  | inl b ↦ rw b here
  | inr b ↦ rw b (
      retouch fs i (fs.inodes i).uid (fs.inodes i).gid (fs.inodes i).mode (c.time 0)
        (fs.inodes i).modification_time valid)
]

pub read-Changes :
    (c : Context) (fs : Filesystem) (path : List ℕ) (size offset : ℕ)
    → IsValid fs
    → Changes fs (read c fs path size offset).2
unfolding read
read-Changes c fs path size offset valid = elim (Option-cases (fs_lookup fs path)) [
  | inl e ↦ rw (e, read) here
  | inr (i, e) ↦ elim (InodeType-cases (fs.inodes i).type) [
    | inl t ↦ rw (read_at c fs path size offset i e t) (read_file-Changes c fs i size offset valid)
    | inr t ↦ rw (e, read) (simp t here)
  ]
]

pub mkdir-Changes :
    (c : Context) (fs : Filesystem) (path : List ℕ) (mode : ℕ)
    → IsValid fs
    → Changes fs (mkdir c fs path mode).1
unfolding mkdir
mkdir-Changes c fs path mode valid = elim (Bool-cases (ltb max_depth (path_depth path))) [
  | inl deep ↦ rw deep here
  | inr shallow ↦ rw shallow (elim (Option-cases (fs_lookup fs path)) [
    | inl e ↦ rw e (create-Changes c fs path mode dir_type valid e)
    | inr (i, e) ↦ rw e here
  ])
]

pub create_file-Changes :
    (c : Context) (fs : Filesystem) (path : List ℕ) (mode : ℕ)
    → IsValid fs
    → Changes fs (create c fs path mode).1
unfolding create
create_file-Changes c fs path mode valid = elim (Option-cases (fs_lookup fs path)) [
  | inl e ↦ rw (e, create) (create-Changes c fs path mode file_type valid e)
  | inr (i, e) ↦ rw (e, create) here
]

pub utimens-Changes :
    (c : Context) (fs : Filesystem) (path : List ℕ) (tv : Option (ℕ × ℕ))
    → IsValid fs
    → Changes fs (utimens c fs path tv).1
unfolding utimens
utimens-Changes c fs path tv valid = elim (Option-cases (fs_lookup fs path)) [
  | inl e ↦ rw (e, utimens) here
  | inr (i, e) ↦ rw (e, utimens) (go tv i)
]
  where
    go :
        (tv : Option (ℕ × ℕ)) (i : ℕ)
        → Changes fs
            (elim tv as (λ _. Code × Filesystem) [
              | none ↦ (
                ret 0,
                set_inode fs i
                    (record (fs.inodes i) { access_time = c.time 0; modification_time = c.time 0 }),
              )
              | some (atime, mtime) ↦ (
                ret 0,
                set_inode fs i
                    (record (fs.inodes i) { access_time = atime; modification_time = mtime }),
              )
            ]).1
    go none i = let v = fs.inodes i in retouch fs i v.uid v.gid v.mode (c.time 0) (c.time 0) valid
    go (some (a, m)) i = let v = fs.inodes i in retouch fs i v.uid v.gid v.mode a m valid

pub chown-Changes :
    (c : Context) (fs : Filesystem) (path : List ℕ) (uid gid : ℕ)
    → IsValid fs
    → Changes fs (chown c fs path uid gid).1
unfolding chown
chown-Changes c fs path uid gid valid = elim (Option-cases (fs_lookup fs path)) [
  | inl e ↦ rw (e, chown) here
  | inr (i, e) ↦
      rw (e, chown)
        (elim (Bool-cases (c.caller_uid == 0)) [
          | inl b ↦
              rw b (let v = fs.inodes i in retouch fs i _ _ v.mode v.access_time (c.time 0) valid)
          | inr b ↦ rw b here
        ])
]

pub chmod-Changes :
    (c : Context) (fs : Filesystem) (path : List ℕ) (mode : ℕ)
    → IsValid fs
    → Changes fs (chmod c fs path mode).1
unfolding chmod
chmod-Changes c fs path mode valid = elim (Option-cases (fs_lookup fs path)) [
  | inl e ↦ rw (e, chmod) here
  | inr (i, e) ↦
      rw (e, chmod)
        (elim (Bool-cases (not (c.caller_uid == 0) && not (c.caller_uid == (fs.inodes i).uid))) [
          | inl b ↦ rw b here
          | inr b ↦
              rw b
                (let v = fs.inodes i in retouch fs i v.uid v.gid _ v.access_time (c.time 0) valid)
        ])
]
