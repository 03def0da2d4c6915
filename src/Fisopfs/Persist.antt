-- ===== src/Fisopfs/Persist.antt =====
-- Saving and loading the table: `fs_serialize` and `fs_deserialize` of fisopfs/fs.c, and `init`,
-- `destroy`, `flush` and the scan of the arguments in `main` of fisopfs/fisopfs.c.
pub mod Roundtrip
use tps_sis_ops.Base.{
  ℕ, List, [], ◌∷◌, Option, none, some, Bool, true, false, not, if◌then◌else◌, str_eq,
}
use tps_sis_ops.Fisopfs.Inode.{Context}
use tps_sis_ops.Fisopfs.Table.{Filesystem, Code, ret, fail, eio, fs_initialize}

-- What stands under the name of the persistence file: no file, a whole image of the table, or
-- something shorter than an image.
pub data Disk : Type 0 where
  absent torn : Disk
  image : Filesystem → Disk

-- What the C library does during one call: whether `fopen` for writing, `fwrite`, the `fclose` behind
-- it, `fopen` for reading and `fread` succeed, and what a failing `fread` leaves in the table. What
-- `fwrite` took may reach the file as late as in `fclose`.
pub record Io : Type 0 where
  pub opens_write : Bool
  pub writes : Bool
  pub closes : Bool
  pub opens_read : Bool
  pub reads : Bool
  pub partial : Filesystem

-- Whether the call reports success, and the file behind it. Opening for writing cuts the file to
-- nothing; the result of `fclose` is not looked at.
unfoldable pub fs_serialize : Io → Filesystem → Disk → Bool × Disk
fs_serialize io fs disk =
    if not io.opens_write
    then (false, disk)
    else (if not io.writes then (false, torn) else (true, if io.closes then image fs else torn))

-- Whether the call succeeded, and the table behind it.
unfoldable pub fs_deserialize : Io → Filesystem → Disk → Bool × Filesystem
fs_deserialize io fs absent = (false, fs)
fs_deserialize io fs torn = if not io.opens_read then (false, fs) else (false, io.partial)
fs_deserialize io fs (image g) =
    if not io.opens_read
    then (false, fs)
    else (if not io.reads then (false, io.partial) else (true, g))

-- The table and the file that `fisopfs_init` leaves.
unfoldable pub init : Context → Io → Filesystem → Disk → Filesystem × Disk
init c io fs disk =
    let loaded = fs_deserialize io fs disk in
    if loaded.0
    then (loaded.1, disk)
    else (let fresh = fs_initialize c in (fresh, (fs_serialize io fresh disk).1))

unfoldable pub destroy : Io → Filesystem → Disk → Disk
destroy io fs disk = (fs_serialize io fs disk).1

unfoldable pub flush : Io → Filesystem → Disk → Code × Disk
flush io fs disk =
    let saved = fs_serialize io fs disk in (if saved.0 then ret 0 else fail eio, saved.1)

-- "--filedisk"
abbrev pub filedisk_flag : List ℕ
filedisk_flag = b'-' ∷ b'-' ∷ b'f' ∷ b'i' ∷ b'l' ∷ b'e' ∷ b'd' ∷ b'i' ∷ b's' ∷ b'k' ∷ []

-- The loop of `main` over the arguments behind the program's name: what is left for FUSE, and the
-- file that the first flag names, if any. A flag in the last place is left alone.
unfoldable pub strip_filedisk : List (List ℕ) → List (List ℕ) × Option (List ℕ)
strip_filedisk [] = ([], none)
strip_filedisk (a ∷ []) = (a ∷ [], none)
strip_filedisk (a ∷ (b ∷ rest)) =
    let stripped = strip_filedisk (b ∷ rest) in
    if str_eq a filedisk_flag then (rest, some b) else (a ∷ stripped.0, stripped.1)
