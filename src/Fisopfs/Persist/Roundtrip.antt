-- ===== src/Fisopfs/Persist/Roundtrip.antt =====
-- What survives a restart (fisopfs/fs.c, fisopfs/fisopfs.c).
use tps_sis_ops.Base.{
  ℕ, ◌≡◌, inl, inr, List, [], ◌∷◌, ◌++◌, some, true, false, str_eq, str_eq_refl, Bool-cases, arith,
}
use tps_sis_ops.Fisopfs.Inode.{Context}
use tps_sis_ops.Fisopfs.Table.{Filesystem, ret, fs_initialize}
use tps_sis_ops.Fisopfs.Table.Invariant.{IsValid}
use tps_sis_ops.Fisopfs.Requests.Invariant.{initialized-IsValid}
use tps_sis_ops.Fisopfs.Persist.{
  Disk, absent, torn, image, Io, fs_serialize, fs_deserialize, init, flush, filedisk_flag,
  strip_filedisk,
}

-- A flush that returns 0, and whose `fclose` succeeded, saves the whole table: a later start that can
-- read the file has this table again, whatever its memory held, and leaves the file alone.
pub init-flush :
    (c : Context) (io later : Io) (fs memory : Filesystem) (disk : Disk)
    → (flush io fs disk).0 ≡ ret 0
    → io.closes ≡ true
    → later.opens_read ≡ true
    → later.reads ≡ true
    → init c later memory (flush io fs disk).1 ≡ (fs, image fs)
unfolding init flush fs_serialize fs_deserialize
init-flush c io later fs memory disk saved closes opens reads = ground arith

-- The images of a file hold valid tables.
abbrev pub HoldsValid : Disk → Type 0
HoldsValid absent = Unit
HoldsValid torn = Unit
HoldsValid (image fs) = IsValid fs

saved-HoldsValid :
    (io : Io) (fs : Filesystem) (disk : Disk)
    → IsValid fs
    → HoldsValid disk
    → HoldsValid (fs_serialize io fs disk).1
unfolding fs_serialize
saved-HoldsValid io fs disk valid ok = elim (Bool-cases io.opens_write) [
  | inl o ↦ rw o (elim (Bool-cases io.writes) [
    | inl w ↦ rw w (elim (Bool-cases io.closes) [ inl c ↦ rw c valid | inr c ↦ rw c tt ])
    | inr w ↦ rw w tt
  ])
  | inr o ↦ rw o ok
]

loaded-IsValid :
    (io : Io) (memory : Filesystem) (disk : Disk)
    → HoldsValid disk
    → (fs_deserialize io memory disk).0 ≡ true
    → IsValid (fs_deserialize io memory disk).1
unfolding fs_deserialize
loaded-IsValid io memory absent ok e = absurd (ground arith)
loaded-IsValid io memory torn ok e = absurd (ground arith)
loaded-IsValid io memory (image g) ok e = elim (Bool-cases io.opens_read) [
  | inl o ↦ elim (Bool-cases io.reads) [ inl r ↦ rw (o, r) ok | inr r ↦ absurd (ground arith) ]
  | inr o ↦ absurd (ground arith)
]

-- However opening, reading and writing end, a start leaves a valid table and a file whose image, if
-- it is one, is valid.
pub init-IsValid :
    (c : Context) (io : Io) (memory : Filesystem) (disk : Disk)
    → HoldsValid disk
    → IsValid (init c io memory disk).0 × HoldsValid (init c io memory disk).1
unfolding init
init-IsValid c io memory disk ok = elim (Bool-cases (fs_deserialize io memory disk).0) [
  | inl e ↦ rw e (loaded-IsValid io memory disk ok e, ok)
  | inr e ↦
      let fresh = initialized-IsValid c in
      rw e (fresh, saved-HoldsValid io (fs_initialize c) disk fresh ok)
]

-- No argument of the list is the flag.
abbrev pub NoFlag : List (List ℕ) → Type 0
NoFlag [] = Unit
NoFlag (a ∷ rest) = (str_eq a filedisk_flag ≡ false) × NoFlag rest

-- The first flag and the file behind it are taken out, and the other arguments stay in order.
pub strip_filedisk_lem :
    (before after : List (List ℕ)) (file : List ℕ)
    → NoFlag before
    → strip_filedisk (before ++ (filedisk_flag ∷ (file ∷ after))) ≡ (before ++ after, some file)
unfolding strip_filedisk
strip_filedisk_lem [] after file ok = rw (str_eq_refl filedisk_flag)
strip_filedisk_lem (a ∷ []) after file ok = rw (ok.0, str_eq_refl filedisk_flag)
strip_filedisk_lem (a ∷ (b ∷ before)) after file ok =
    rw (ok.0, strip_filedisk_lem (b ∷ before) after file ok.1)
