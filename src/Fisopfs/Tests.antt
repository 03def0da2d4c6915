-- ===== src/Fisopfs/Tests.antt =====
-- Runs of the file system, and its theorems at concrete tables (fisopfs/fs.c, fisopfs/fisopfs.c).
use tps_sis_ops.Base.{
  ℕ, ◌+◌, ◌≤◌, ◌<◌, ◌≡◌, ◌≢◌, ◌⊎◌, ◌↔◌, refl, List, [], ◌∷◌, some, true, false, not, ◌==◌, ltb,
  if◌then◌else◌, str_eq, find_from, length, arith,
}
use tps_sis_ops.Fisopfs.Paths.{
  slash_str, strrchr, extract_filename, extract_prev_path, count_slashes, skip_slash, path_depth,
}
use tps_sis_ops.Fisopfs.Paths.Join.{render, join, join-split}
use tps_sis_ops.Fisopfs.Inode.{
  max_data, max_inodes, file_type, dir_type, Context, zero_inode, init_inode,
}
use tps_sis_ops.Fisopfs.Table.{
  Filesystem, Code, ret, fail, enomem, eperm, einval, enospc, eacces, enotempty, set_inode,
  find_free_inode_slot, has_key, find_key, fs_lookup, fs_add_inode, modify_nlink_path,
  fs_create_entry, fs_initialize,
}
use tps_sis_ops.Fisopfs.Table.Invariant.{IsValid, Changes}
use tps_sis_ops.Fisopfs.Table.Entry.{Created, fs_create_entry-cases}
use tps_sis_ops.Fisopfs.Handlers.{
  done, fault, dot, dot_dot, children, is_child, readdir, read, mkdir, create, unlink, unlink_file,
  rmdir, write, truncate,
}
use tps_sis_ops.Fisopfs.Handlers.Write.{written, write_lem, read-write}
use tps_sis_ops.Fisopfs.Handlers.Truncate.{Cut, truncated, truncate_lem}
use tps_sis_ops.Fisopfs.Handlers.Remove.{Unlinked, rmdir_lem}
use tps_sis_ops.Fisopfs.Handlers.Listing.{IsListed, Entry, readdir_lem}
use tps_sis_ops.Fisopfs.Requests.{Request, step}
use tps_sis_ops.Fisopfs.Requests.Invariant.{
  History, start, request, initialized-IsValid, step-IsValid, History-lookup,
}
use tps_sis_ops.Fisopfs.Requests.Links.{rmdir_after_unlink}

abbrev user : Context
user = record { server_uid = 1000; server_gid = 1000; caller_uid = 1000; time = λ k. k + 7 }

-- "/d", "/d/f" and "f".
abbrev d_path : List ℕ
d_path = b'/' ∷ b'd' ∷ []

abbrev f_path : List ℕ
f_path = b'/' ∷ b'd' ∷ b'/' ∷ b'f' ∷ []

abbrev f_name : List ℕ
f_name = b'f' ∷ []

-- A new table, with the directory /d, with the file /d/f in it, and with that file unlinked again.
base : Filesystem
unfolding fs_initialize init_inode zero_inode fs_lookup find_key has_key find_from str_eq
    extract_filename extract_prev_path strrchr
base = fs_initialize user

made_dir : Code × Filesystem
unfolding base mkdir path_depth count_slashes skip_slash fs_create_entry fs_add_inode
    find_free_inode_slot modify_nlink_path
made_dir = mkdir user base d_path 0

with_dir : Filesystem
unfolding made_dir
with_dir = made_dir.1

made_file : Code × Filesystem
unfolding with_dir create
made_file = create user with_dir f_path 0

with_file : Filesystem
unfolding made_file
with_file = made_file.1

without_file : Code × Filesystem
unfolding with_file unlink unlink_file
without_file = unlink user with_file f_path

codes : (made_dir.0 ≡ ret 0) × (made_file.0 ≡ ret 0) × (without_file.0 ≡ ret 0)
unfolding without_file
codes = (refl, refl, refl)

found_file : fs_lookup with_file f_path ≡ some 2
unfolding with_file
found_file = refl

base-IsValid : IsValid base
unfolding base
base-IsValid = initialized-IsValid user

with_dir-IsValid : IsValid with_dir
unfolding with_dir step
with_dir-IsValid =
    step-IsValid user base (Request.mkdir d_path 0) (ret 0) with_dir base-IsValid tt refl

with_file-IsValid : IsValid with_file
unfolding with_file step
with_file-IsValid =
    step-IsValid user with_dir (Request.create f_path 0) (ret 0) with_file with_dir-IsValid tt refl

step-IsValid_example : IsValid (without_file.1)
unfolding without_file step
step-IsValid_example =
    step-IsValid user with_file (Request.unlink f_path) (ret 0) (without_file.1) with_file-IsValid
      tt refl

past : History (fs_initialize user) with_file
unfolding with_file step
past =
    request user (Request.create f_path 0) (ret 0)
      (request user (Request.mkdir d_path 0) (ret 0) start tt refl) tt refl

History-lookup_example :
    ((with_file.inodes 0).type ≡ dir_type)
    × (fs_lookup with_file slash_str ≡ some 0)
    × (fs_lookup with_file (with_file.inodes 2).path ≡ some 2)
unfolding with_file
History-lookup_example = History-lookup user with_file 2 past (omega arith) refl

fs_create_entry-cases_example :
    ((with_dir.inodes_amount ≡ max_inodes)
      × (fs_create_entry user with_dir f_path 0 file_type ≡ (fail enomem, with_dir)))
    ⊎ (((with_dir.inodes_amount ≢ max_inodes)
          × ((j : ℕ) → j < max_inodes → with_dir.inodes_bitmap j ≢ 0)
          × (fs_create_entry user with_dir f_path 0 file_type ≡ (fail eperm, with_dir)))
        ⊎ ((with_dir.inodes_amount ≢ max_inodes)
            × ((fs_create_entry user with_dir f_path 0 file_type).0 ≡ ret 0)
            × Created user with_dir f_path file_type
                (fs_create_entry user with_dir f_path 0 file_type).1
            × Changes with_dir (fs_create_entry user with_dir f_path 0 file_type).1))
unfolding with_dir
fs_create_entry-cases_example =
    fs_create_entry-cases user with_dir f_path file_type 0 with_dir-IsValid refl

-- Two bytes at offset 1 of the empty file.
abbrev bytes : List ℕ
bytes = 65 ∷ 66 ∷ []

write_lem_example : write user with_file f_path bytes 1 ≡ (
    if ltb max_data 1
    then fault
    else (if ltb max_data (1 + length bytes)
        then done (fail enospc) with_file
        else (if not ((with_file.inodes 2).uid == 1000)
            then done (fail eacces) with_file
            else done (ret 2) (set_inode with_file 2 (written user (with_file.inodes 2) bytes 1)))))
unfolding with_file
write_lem_example =
    write_lem user with_file f_path bytes 1 2 with_file-IsValid refl refl (omega arith)

abbrev after_write : Filesystem
after_write = set_inode with_file 2 (written user (with_file.inodes 2) bytes 1)

write_runs : write user with_file f_path bytes 1 ≡ done (ret 2) after_write
unfolding with_file
write_runs = write_lem user with_file f_path bytes 1 2 with_file-IsValid refl refl (omega arith)

read-write_example :
    ((read user after_write f_path 2 1).0 ≡ ret 2) × ((read user after_write f_path 2 1).1 ≡ bytes)
unfolding with_file
read-write_example =
    read-write user with_file f_path bytes 1 2 with_file-IsValid refl refl user 2 after_write
      (omega arith) write_runs

truncate_lem_example :
    ((max_data < 3) × (truncate user with_file f_path 3 ≡ done (fail einval) with_file))
    ⊎ (((3 ≤ max_data)
          × (((with_file.inodes 2).uid == user.caller_uid) ≡ false)
          × (truncate user with_file f_path 3 ≡ done (fail eacces) with_file))
        ⊎ ((3 ≤ max_data)
            × (((with_file.inodes 2).uid == user.caller_uid) ≡ true)
            × ((b : List ℕ) × (truncate user with_file f_path 3
                  ≡ done (ret 0) (set_inode with_file 2 (truncated user (with_file.inodes 2) 3 b)))
                × Cut (with_file.inodes 2) 3 b)))
unfolding with_file
truncate_lem_example = truncate_lem user with_file f_path 3 2 with_file-IsValid refl refl

rmdir_lem_example :
    ((rmdir with_dir d_path ≡ (fail enotempty, with_dir)) × (2 < (with_dir.inodes 1).nlink))
    ⊎ (((rmdir with_dir d_path ≡ (fail eperm, with_dir))
          × ((with_dir.inodes 1).nlink ≤ 2)
          × (d_path ≡ slash_str))
        ⊎ (((rmdir with_dir d_path).0 ≡ ret 0)
            × ((with_dir.inodes 1).nlink ≤ 2)
            × (d_path ≢ slash_str)
            × Unlinked with_dir (rmdir with_dir d_path).1 1))
unfolding with_dir
rmdir_lem_example = rmdir_lem with_dir d_path 1 with_dir-IsValid refl refl

readdir_lem_example :
    (names : List (List ℕ)) × (readdir with_file d_path ≡ (ret 0, dot ∷ dot_dot ∷ names))
    × (IsListed f_name names ↔ ((j : ℕ) × Entry with_file (with_file.inodes 1).path f_name 0 j))
unfolding with_file
readdir_lem_example = readdir_lem with_file d_path f_name 1 refl refl

readdir_runs : readdir with_file d_path ≡ (ret 0, dot ∷ dot_dot ∷ f_name ∷ [])
unfolding with_file readdir children is_child
readdir_runs = refl

rmdir_after_unlink_example :
    rmdir (without_file.1) (extract_prev_path f_path) ≡ (fail enotempty, without_file.1)
unfolding without_file
rmdir_after_unlink_example =
    rmdir_after_unlink user user with_dir with_file (without_file.1) f_path 0 1 with_dir-IsValid
      refl refl refl (omega arith) refl refl

-- A directory with a file, with the counter that 253 more creations leave which unlinking followed.
abbrev full : Filesystem
full = record with_file { inodes_amount = 256 }

-- The file is unlinked, too.
abbrev emptied : Code × Filesystem
emptied = unlink user full f_path

-- "d"
abbrev d_name : List ℕ
d_name = b'd' ∷ []

join-split_example :
    join
      (extract_prev_path (render (d_name ∷ f_name ∷ [])))
      (extract_filename (render (d_name ∷ f_name ∷ [])))
    ≡ render (d_name ∷ f_name ∷ [])
join-split_example = join-split (d_name ∷ []) f_name ((refl, tt), tt) (refl, tt)
