-- ===== src/Fisopfs/Handlers/Truncate.antt =====
-- `fisopfs_truncate` of fisopfs/fisopfs.c in a valid table.
use tps_sis_ops.Base.{
  ℕ, ◌+◌, ◌-◌, ◌≤◌, ◌<◌, ◌≡◌, ◌⊎◌, refl, ◌∙◌, inl, inr, List, some, true, false, ◌==◌, ltb,
  Bool-cases, arith, length, take, drop,
}
use Prim.Native.Nat.{min}
use tps_sis_ops.Fisopfs.Inode.{max_data, Inode, file_type, Context}
use tps_sis_ops.Fisopfs.Table.{Filesystem, ret, fail, eacces, einval, set_inode, fs_lookup}
use tps_sis_ops.Fisopfs.Table.Invariant.{AreZeros, AreZeros-drop, IsStored, IsValid}
use tps_sis_ops.Fisopfs.Handlers.{done, truncate_file, truncate}
use tps_sis_ops.Fisopfs.Handlers.Content.{memset_zero-rest}

-- The inode that a successful truncation leaves, with content `b`.
abbrev pub truncated : Context → Inode → ℕ → List ℕ → Inode
truncated c v size b = record v { modification_time = c.time 0; size = size; content = b }

-- `b` is the content of `v` up to the old and the new size, and zero behind that.
pub record Cut (v : Inode) (size : ℕ) (b : List ℕ) : Type 0 where
  pub kept : take (min size v.size) b ≡ take (min size v.size) v.content
  pub cleared : AreZeros (drop (min size v.size) b)
  pub capacity : length b ≡ length v.content

pub truncated-IsStored :
    (c : Context) (v : Inode) (size : ℕ) (b : List ℕ)
    → IsStored v
    → size ≤ max_data
    → Cut v size b
    → IsStored (truncated c v size b)
truncated-IsStored c v size b s h cut = record {
  capacity = cut.capacity ∙ s.capacity;
  bounded = h;
  rest_zero = AreZeros-drop b (min size v.size) size (omega arith) cut.cleared;
}

Cut-shorter :
    (v : Inode) (size : ℕ) (b : List ℕ)
    → size < v.size
    → length b ≡ length v.content
    → AreZeros (drop size b)
    → take size b ≡ take size v.content
    → Cut v size b
Cut-shorter v size b lt len zeros front =
    let old : min size v.size ≡ size = omega arith in
    record { kept = rw old front; cleared = rw old zeros; capacity = len }

truncate_file_lem :
    (c : Context) (fs : Filesystem) (i : ℕ) (v : Inode) (size : ℕ)
    → IsStored v
    → size ≤ max_data
    → (v.uid == c.caller_uid) ≡ true
    → (b : List ℕ) × (truncate_file c fs i v size
        ≡ done (ret 0) (set_inode fs i (truncated c v size b)))
      × Cut v size b
unfolding truncate_file
truncate_file_lem c fs i v size s h own = elim (Bool-cases (ltb size v.size)) [
  | inl shorter ↦
      let lt : size < v.size = ground arith in
      let whole : size + (v.size - size) ≡ v.size = omega arith in
      let (b, set, len, zeros, front) =
        memset_zero-rest v.content size (v.size - size) (rw whole s.rest_zero)
          (omega (arith, s.capacity, s.bounded)) in
      (b, rw (own, shorter, set), Cut-shorter v size b lt len zeros front)
  | inr longer ↦
      let ge : v.size ≤ size = ground arith in
      let old : min size v.size ≡ v.size = omega arith in
      (
        v.content,
        rw (own, longer),
        record { kept = refl; cleared = rw old s.rest_zero; capacity = refl },
      )
]

module _ (c : Context) (fs : Filesystem) (path : List ℕ) (size i : ℕ) (valid : IsValid fs)
    (found : fs_lookup fs path ≡ some i) (file : (fs.inodes i).type ≡ file_type)
    (fits : size ≤ max_data) where
  pub truncate_at : truncate c fs path size ≡ truncate_file c fs i (fs.inodes i) size
  unfolding truncate
  truncate_at =
      let e : ltb max_data size ≡ false = ground arith in rw (e, found, truncate) (simp file)

  pub truncate_owned :
      ((fs.inodes i).uid == c.caller_uid) ≡ true
      → (b : List ℕ) × (truncate c fs path size
          ≡ done (ret 0) (set_inode fs i (truncated c (fs.inodes i) size b)))
        × Cut (fs.inodes i) size b
  truncate_owned own =
      let (b, e, cut) = truncate_file_lem c fs i (fs.inodes i) size (valid.stored i) fits own in
      (b, truncate_at ∙ e, cut)

  pub truncate_denied :
      ((fs.inodes i).uid == c.caller_uid) ≡ false → truncate c fs path size ≡ done (fail eacces) fs
  unfolding truncate_file
  truncate_denied other = truncate_at ∙ rw other refl

module _ (c : Context) (fs : Filesystem) (path : List ℕ) (size i : ℕ) (valid : IsValid fs)
    (found : fs_lookup fs path ≡ some i) (file : (fs.inodes i).type ≡ file_type) where
  -- Truncating a file that is found: a size over 1024 is refused with EINVAL, and anybody but the
  -- owner with EACCES, and nothing changes; the owner's truncation to at most 1024 bytes succeeds and
  -- never writes outside of the array; the file keeps its bytes up to the shorter of the two sizes,
  -- and is zero from there on, so that a file that grows reads zeros.
  pub truncate_lem :
      ((max_data < size) × (truncate c fs path size ≡ done (fail einval) fs))
      ⊎ (((size ≤ max_data)
            × (((fs.inodes i).uid == c.caller_uid) ≡ false)
            × (truncate c fs path size ≡ done (fail eacces) fs))
          ⊎ ((size ≤ max_data)
              × (((fs.inodes i).uid == c.caller_uid) ≡ true)
              × ((b : List ℕ) × (truncate c fs path size
                    ≡ done (ret 0) (set_inode fs i (truncated c (fs.inodes i) size b)))
                  × Cut (fs.inodes i) size b)))
  unfolding truncate
  truncate_lem = elim (Bool-cases (ltb max_data size)) [
    | inl over ↦ inl (ground arith, rw over refl)
    | inr under ↦
        let fits : size ≤ max_data = ground arith in
        inr (elim (Bool-cases ((fs.inodes i).uid == c.caller_uid)) [
          | inl own ↦ inr (fits, own, truncate_owned c fs path size i valid found file fits own)
          | inr other ↦
              inl (fits, other, truncate_denied c fs path size i valid found file fits other)
        ])
  ]
