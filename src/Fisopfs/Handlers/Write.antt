-- ===== src/Fisopfs/Handlers/Write.antt =====
-- `fisopfs_write` and `fisopfs_read` of fisopfs/fisopfs.c in a valid table.
use mathlib.Core.Path.{fun_ext}
use tps_sis_ops.Base.{
  ℕ, ◌+◌, ◌-◌, ◌^◌, ◌≤◌, ◌<◌, ◌≡◌, ◌⊎◌, refl, sym, ap, ◌∙◌, inl, inr, List, none, some, true, false,
  not, ◌==◌, ltb, leb, if◌then◌else◌, Bool-cases, arith, length, take, drop, update,
}
use tps_sis_ops.Fisopfs.Inode.{max_data, Inode, file_type, Context}
use tps_sis_ops.Fisopfs.Table.{Filesystem, ret, fail, enospc, eacces, set_inode, fs_lookup}
use tps_sis_ops.Fisopfs.Table.Invariant.{AreZeros-drop, IsStored, IsValid, SameKey, update_self}
use tps_sis_ops.Fisopfs.Table.Keys.{fs_lookup-edit}
use tps_sis_ops.Fisopfs.Handlers.{
  Outcome, done, fault, end_of, memset_zero, write_from, write_file, write, read, read_file,
  read_length,
}
use tps_sis_ops.Fisopfs.Handlers.Content.{
  splice, memset_zero-id, memcpy_at-splice, length-splice, drop-splice, read-splice,
}

-- The inode that a successful write leaves.
abbrev pub written : Context → Inode → List ℕ → ℕ → Inode
written c v buffer offset = record v {
  content = splice v.content offset buffer;
  access_time = c.time 0;
  modification_time = c.time 1;
  size = if ltb v.size (offset + length buffer) then offset + length buffer else v.size;
}

pub set_inode-same : (fs : Filesystem) (i : ℕ) → set_inode fs i (fs.inodes i) ≡ fs
set_inode-same fs i =
    ap (λ (f : ℕ → Inode). record fs { inodes = f }) (fun_ext λ j. go j (Bool-cases (j == i)))
  where
    go :
        (j : ℕ)
        → ((j == i) ≡ true) ⊎ ((j == i) ≡ false)
        → update fs.inodes i (fs.inodes i) j ≡ fs.inodes j
    go j (inl e) = rw e (let e' : i ≡ j = ground arith in ap fs.inodes e')
    go j (inr e) = rw e

pub written-IsStored :
    (c : Context) (v : Inode) (buffer : List ℕ) (offset : ℕ)
    → IsStored v
    → offset + length buffer ≤ max_data
    → IsStored (written c v buffer offset)
written-IsStored c v buffer offset s h = record {
  capacity = length-splice v.content offset buffer fits ∙ s.capacity;
  bounded = ground (arith, s.bounded);
  rest_zero = elim (Bool-cases (ltb v.size (offset + length buffer))) [
    | inl e ↦ rw e (
        rw (drop-splice v.content offset buffer fits (offset + length buffer) (omega arith))
          (AreZeros-drop v.content v.size (offset + length buffer) (ground arith) s.rest_zero))
    | inr e ↦ rw e (rw (drop-splice v.content offset buffer fits v.size (ground arith)) s.rest_zero)
  ];
}
  where
    fits : offset + length buffer ≤ length v.content
    fits = omega (arith, s.capacity)

write_from_lem :
    (c : Context) (fs : Filesystem) (i : ℕ) (v : Inode) (buffer : List ℕ) (offset : ℕ)
    → IsStored v
    → offset + length buffer < 2 ^ 64
    → write_from c fs i v buffer offset ≡ (
        if ltb max_data (offset + length buffer)
        then done (fail enospc) (set_inode fs i v)
        else (if not (v.uid == c.caller_uid)
            then done (fail eacces) (set_inode fs i v)
            else done (ret (length buffer)) (set_inode fs i (written c v buffer offset))))
unfolding write_from
write_from_lem c fs i v buffer offset s small =
    let e : end_of offset buffer ≡ offset + length buffer = omega arith in
    rw e (elim (Bool-cases (ltb max_data (offset + length buffer))) [
      | inl big ↦ rw big
      | inr room ↦
          let fits : offset + length buffer ≤ length v.content = ground (arith, s.capacity) in
          rw (room, memcpy_at-splice v.content offset buffer fits) (rw e refl)
    ])

module _ (c : Context) (fs : Filesystem) (i : ℕ) (v : Inode) (buffer : List ℕ) (offset : ℕ)
    (s : IsStored v) where
  memset_zero-far : max_data < offset → memset_zero v.content v.size (offset - v.size) ≡ none
  unfolding memset_zero
  memset_zero-far h = ground (arith, s.capacity, s.bounded)

  write_file_gap :
      write_file c fs i v buffer offset
      ≡ (if ltb max_data offset then fault else write_from c fs i v buffer offset)
  unfolding write_file
  write_file_gap = elim (Bool-cases (ltb v.size offset)) [
    | inl gap ↦ rw gap (elim (Bool-cases (ltb max_data offset)) [
      | inl far ↦ rw (far, memset_zero-far (ground arith))
      | inr near ↦ rw (
        near,
        memset_zero-id v.content v.size (offset - v.size) s.rest_zero (ground (arith, s.capacity)),
      )
    ])
    | inr no_gap ↦
        let near : ltb max_data offset ≡ false = ground (arith, s.bounded) in rw (no_gap, near)
  ]

write_at :
    (c : Context) (fs : Filesystem) (path buffer : List ℕ) (offset i : ℕ)
    → fs_lookup fs path ≡ some i
    → (fs.inodes i).type ≡ file_type
    → write c fs path buffer offset ≡ write_file c fs i (fs.inodes i) buffer offset
unfolding write
write_at c fs path buffer offset i found file = rw (found, write) (simp file)

module _ (c : Context) (fs : Filesystem) (path buffer : List ℕ) (offset i : ℕ) (valid : IsValid fs)
    (found : fs_lookup fs path ≡ some i) (file : (fs.inodes i).type ≡ file_type) where
  -- What a write to a file does, in the order of the tests: beyond the array for an offset over
  -- 1024, where the gap is cleared before the room is checked; no room; another owner; or the bytes
  -- are written. An error leaves the table as it was.
  pub write_lem :
      offset + length buffer < 2 ^ 64
      → write c fs path buffer offset ≡ (
          if ltb max_data offset
          then fault
          else (if ltb max_data (offset + length buffer)
              then done (fail enospc) fs
              else (if not ((fs.inodes i).uid == c.caller_uid)
                  then done (fail eacces) fs
                  else done
                      (ret (length buffer))
                      (set_inode fs i (written c (fs.inodes i) buffer offset)))))
  write_lem small =
      write_at c fs path buffer offset i found file
      ∙ write_file_gap c fs i (fs.inodes i) buffer offset (valid.stored i)
      ∙ ap (λ (o : Outcome). if ltb max_data offset then fault else o)
          (write_from_lem c fs i (fs.inodes i) buffer offset (valid.stored i) small
            ∙ rw (set_inode-same fs i) refl)

  -- A write that succeeds had room, and wrote all of its bytes.
  write_ok :
      (n : ℕ) (g : Filesystem)
      → offset + length buffer < 2 ^ 64
      → write c fs path buffer offset ≡ done (ret n) g
      → (n ≡ length buffer)
        × (offset + length buffer ≤ max_data)
        × (g ≡ set_inode fs i (written c (fs.inodes i) buffer offset))
  write_ok n g small h = let e = sym (write_lem small) ∙ h in ground arith

pub written-SameKey :
    (c : Context) (v : Inode) (buffer : List ℕ) (offset : ℕ) → SameKey v (written c v buffer offset)
written-SameKey c v buffer offset = record {
  same_name = refl;
  same_path = refl;
  same_prev = refl;
  same_type = refl;
}

pub read_at :
    (c : Context) (fs : Filesystem) (path : List ℕ) (size offset i : ℕ)
    → fs_lookup fs path ≡ some i
    → (fs.inodes i).type ≡ file_type
    → read c fs path size offset ≡ read_file c fs i (fs.inodes i) size offset
unfolding read
read_at c fs path size offset i found file = rw (found, read) (simp file)

read_length-within :
    (w : Inode) (len offset : ℕ) → offset + len ≤ w.size → read_length w len offset ≡ len
read_length-within w len offset h = ground arith

-- Reading inside a file gives the bytes that stand there.
read_file-within :
    (c : Context) (fs : Filesystem) (i : ℕ) (w : Inode) (len offset : ℕ)
    → offset + len ≤ w.size
    → ((read_file c fs i w len offset).0 ≡ ret len)
      × ((read_file c fs i w len offset).1 ≡ take len (drop offset w.content))
unfolding read_file
read_file-within c fs i w len offset h = elim (Bool-cases (leb w.size offset)) [
  | inl at_end ↦ let none_left : len ≡ 0 = ground arith in rw (at_end, none_left) (refl, refl)
  | inr inside ↦ rw (inside, read_length-within w len offset h) (refl, refl)
]

module _ (c : Context) (fs : Filesystem) (path buffer : List ℕ) (offset i : ℕ) (valid : IsValid fs)
    (found : fs_lookup fs path ≡ some i) (file : (fs.inodes i).type ≡ file_type) where
  -- Reading back: after a write that succeeds, a read of as many bytes at the same offset returns
  -- exactly those bytes.
  pub read-write :
      (d : Context) (n : ℕ) (g : Filesystem)
      → offset + length buffer < 2 ^ 64
      → write c fs path buffer offset ≡ done (ret n) g
      → ((read d g path (length buffer) offset).0 ≡ ret n)
        × ((read d g path (length buffer) offset).1 ≡ buffer)
  read-write d n g small h =
      let (count, fits, after) = write_ok c fs path buffer offset i valid found file n g small h in
      let v = fs.inodes i in
      let w = written c v buffer offset in
      let room : offset + length buffer ≤ length v.content =
        omega (arith, (valid.stored i).capacity) in
      let found' = fs_lookup-edit fs i w path (written-SameKey c v buffer offset) ∙ found in
      let file' = ap (λ (u : Inode). u.type) (update_self fs.inodes i w) ∙ file in
      let r = read_file-within d (set_inode fs i w) i w (length buffer) offset (ground arith) in
      let at =
        read_at d (set_inode fs i w) path (length buffer) offset i found' file'
        ∙ ap (λ (u : Inode). read_file d (set_inode fs i w) i u (length buffer) offset)
            (update_self fs.inodes i w) in
      rw (after, at, count) (r.0, r.1 ∙ read-splice v.content offset buffer room)
