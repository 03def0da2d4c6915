-- ===== src/Fisopfs/Requests/Invariant.antt =====
-- Every request of fisopfs/fisopfs.c keeps the invariant of the inode table.
use mathlib.Core.Path.{subst}
use tps_sis_ops.Base.{
  ℕ, ◌+◌, ◌^◌, ◌≤◌, ◌<◌, ◌≡◌, refl, sym, inl, inr, List, [], some, not, ◌==◌, ltb, if◌then◌else◌,
  Bool-cases, Option-cases, arith, length,
}
use tps_sis_ops.Fisopfs.Paths.{slash_str}
use tps_sis_ops.Fisopfs.Inode.{max_data, max_inodes, file_type, dir_type, Context, init_inode}
use tps_sis_ops.Fisopfs.Table.{
  Filesystem, Code, ret, fail, enospc, eacces, set_inode, fs_lookup, fs_initialize,
}
use tps_sis_ops.Fisopfs.Table.Invariant.{
  IsUsed, IsValid, Changes, Changes-IsValid, one, here, edit, init_inode-IsStored,
  zero_inode-IsStored,
}
use tps_sis_ops.Fisopfs.Table.Lookup.{fs_lookup-root, lookup-stored_path}
use tps_sis_ops.Fisopfs.Handlers.{Outcome, done, fault, write, truncate}
use tps_sis_ops.Fisopfs.Handlers.Write.{written, write_lem, written-IsStored, written-SameKey}
use tps_sis_ops.Fisopfs.Handlers.Truncate.{
  truncated, truncate_owned, truncate_denied, truncated-IsStored,
}
use tps_sis_ops.Fisopfs.Handlers.Remove.{InodeType-cases, unlink-Changes, rmdir-Changes}
use tps_sis_ops.Fisopfs.Requests.{Request, step}
use tps_sis_ops.Fisopfs.Requests.Changes.{
  read-Changes, mkdir-Changes, create_file-Changes, utimens-Changes, chown-Changes, chmod-Changes,
}

-- What an outcome leaves is reached by changes.
abbrev Leads : Filesystem → Outcome → Type 0
Leads fs (done r g) = Changes fs g
Leads fs fault = Unit

module _ (c : Context) (fs : Filesystem) (i : ℕ) (buffer : List ℕ) (offset : ℕ)
    (valid : IsValid fs) where
  written-Leads : Leads fs (
      if ltb max_data offset
      then fault
      else (if ltb max_data (offset + length buffer)
          then done (fail enospc) fs
          else (if not ((fs.inodes i).uid == c.caller_uid)
              then done (fail eacces) fs
              else done
                  (ret (length buffer))
                  (set_inode fs i (written c (fs.inodes i) buffer offset)))))
  written-Leads = elim (Bool-cases (ltb max_data offset)) [
    | inl far ↦ rw far tt
    | inr near ↦ rw near (elim (Bool-cases (ltb max_data (offset + length buffer))) [
      | inl big ↦ rw big here
      | inr room ↦ rw room (elim (Bool-cases ((fs.inodes i).uid == c.caller_uid)) [
        | inl own ↦ rw own (
            one (
              edit i (written c (fs.inodes i) buffer offset)
                (written-SameKey c (fs.inodes i) buffer offset)
                (written-IsStored c (fs.inodes i) buffer offset (valid.stored i) (ground arith))))
        | inr other ↦ rw other here
      ])
    ])
  ]

write-Leads :
    (c : Context) (fs : Filesystem) (path buffer : List ℕ) (offset : ℕ)
    → IsValid fs
    → offset + length buffer < 2 ^ 64
    → Leads fs (write c fs path buffer offset)
unfolding write
write-Leads c fs path buffer offset valid small = elim (Option-cases (fs_lookup fs path)) [
  | inl e ↦ rw (e, write) here
  | inr (i, e) ↦ elim (InodeType-cases (fs.inodes i).type) [
    | inl t ↦
        subst (Leads fs) (sym (write_lem c fs path buffer offset i valid e t small))
          (written-Leads c fs i buffer offset valid)
    | inr t ↦ rw (e, write) (simp t here)
  ]
]

module _ (c : Context) (fs : Filesystem) (path : List ℕ) (size i : ℕ) (valid : IsValid fs)
    (found : fs_lookup fs path ≡ some i) (file : (fs.inodes i).type ≡ file_type)
    (fits : size ≤ max_data) where
  truncate_file-Leads : Leads fs (truncate c fs path size)
  truncate_file-Leads = elim (Bool-cases ((fs.inodes i).uid == c.caller_uid)) [
    | inl own ↦
        let (b, e, cut) = truncate_owned c fs path size i valid found file fits own in
        subst (Leads fs) (sym e) (
          one (
            edit i (truncated c (fs.inodes i) size b)
              (record { same_name = refl; same_path = refl; same_prev = refl; same_type = refl })
              (truncated-IsStored c (fs.inodes i) size b (valid.stored i) fits cut)))
    | inr other ↦
        subst (Leads fs) (sym (truncate_denied c fs path size i valid found file fits other)) here
  ]

truncate-Leads :
    (c : Context) (fs : Filesystem) (path : List ℕ) (size : ℕ)
    → IsValid fs
    → Leads fs (truncate c fs path size)
unfolding truncate
truncate-Leads c fs path size valid = elim (Bool-cases (ltb max_data size)) [
  | inl big ↦ rw big here
  | inr fits ↦ elim (Option-cases (fs_lookup fs path)) [
    | inl e ↦ rw (fits, e, truncate) here
    | inr (i, e) ↦ elim (InodeType-cases (fs.inodes i).type) [
      | inl t ↦ truncate_file-Leads c fs path size i valid e t (ground arith)
      | inr t ↦ rw (fits, e, truncate) (simp t here)
    ]
  ]
]

-- A write whose end fits in a `size_t`; the other requests are free.
abbrev pub IsSized : Request → Type 0
IsSized (Request.write path buffer offset) = offset + length buffer < 2 ^ 64
IsSized _ = Unit

step-Leads :
    (c : Context) (fs : Filesystem) (r : Request) → IsValid fs → IsSized r → Leads fs (step c fs r)
unfolding step
step-Leads c fs (Request.getattr path) valid small = here
step-Leads c fs (Request.readdir path) valid small = here
step-Leads c fs (Request.read path size offset) valid small =
    read-Changes c fs path size offset valid
step-Leads c fs (Request.write path buffer offset) valid small =
    write-Leads c fs path buffer offset valid small
step-Leads c fs (Request.mkdir path mode) valid small = mkdir-Changes c fs path mode valid
step-Leads c fs (Request.unlink path) valid small = unlink-Changes c fs path valid
step-Leads c fs (Request.create path mode) valid small = create_file-Changes c fs path mode valid
step-Leads c fs (Request.rmdir path) valid small = rmdir-Changes fs path valid
step-Leads c fs (Request.truncate path size) valid small = truncate-Leads c fs path size valid
step-Leads c fs (Request.utimens path tv) valid small = utimens-Changes c fs path tv valid
step-Leads c fs (Request.chown path uid gid) valid small = chown-Changes c fs path uid gid valid
step-Leads c fs (Request.chmod path mode) valid small = chmod-Changes c fs path mode valid

-- Every request that returns keeps the invariant of the table.
pub step-IsValid :
    (c : Context) (fs : Filesystem) (r : Request) (code : Code) (g : Filesystem)
    → IsValid fs
    → IsSized r
    → step c fs r ≡ done code g
    → IsValid g
step-IsValid c fs r code g valid small e =
    Changes-IsValid (subst (Leads fs) e (step-Leads c fs r valid small)) valid

-- A history of requests that all return.
pub data History (fs : Filesystem) : Filesystem → Type 0 where
  start : History fs fs
  request :
      {g h : Filesystem} (c : Context) (r : Request) (code : Code)
      → History fs g
      → IsSized r
      → step c g r ≡ done code h
      → History fs h

pub History-IsValid : {fs g : Filesystem} → History fs g → IsValid fs → IsValid g
History-IsValid start valid = valid
History-IsValid (request {g} {h} c r code past small e) valid =
    step-IsValid c g r code h (History-IsValid past valid) small e

pub initialized-IsValid : (c : Context) → IsValid (fs_initialize c)
unfolding fs_initialize
initialized-IsValid c = record {
  root_used = refl;
  root =
      unfold init_inode in
      record { root_name = refl; root_path = refl; root_prev = refl; root_type = refl };
  keyed = λ i lt used ne. absurd (ground arith);
  unique = λ i j li lj ui uj en ep. ground arith;
  stored = λ i. elim (Bool-cases (i == 0)) [
    | inl e ↦ rw e (init_inode-IsStored c slash_str slash_str [] dir_type)
    | inr e ↦ rw e zero_inode-IsStored
  ];
}

-- After `fs_initialize` and any requests that return, slot 0 is a directory and found under "/", and
-- every inode in use is found under the path that it holds.
pub History-lookup :
    (c : Context) (g : Filesystem) (i : ℕ)
    → History (fs_initialize c) g
    → i < max_inodes
    → IsUsed g i
    → ((g.inodes 0).type ≡ dir_type)
      × (fs_lookup g slash_str ≡ some 0)
      × (fs_lookup g (g.inodes i).path ≡ some i)
History-lookup c g i past lt used =
    let valid = History-IsValid past (initialized-IsValid c) in
    (valid.root.root_type, fs_lookup-root g, lookup-stored_path g i valid lt used)
