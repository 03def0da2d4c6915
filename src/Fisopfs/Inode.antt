-- ===== src/Fisopfs/Inode.antt =====
-- Inodes (fisopfs/fs.h), `init_inode` (fisopfs/fs.c), and what a call takes from outside: the
-- ids of the server process and of the caller, and the clock.
use tps_sis_ops.Base.{ℕ, List, [], replicate}

abbrev pub max_data : ℕ
max_data = 1024

abbrev pub max_inodes : ℕ
max_inodes = 256

abbrev pub max_depth : ℕ
max_depth = 4

pub data InodeType : Type 0 where
  file_type dir_type : InodeType

-- `struct inode`; `content` is its field `data`.
pub record Inode : Type 0 where
  pub name : List ℕ
  pub size : ℕ
  pub uid : ℕ
  pub gid : ℕ
  pub type : InodeType
  pub path : List ℕ
  pub nlink : ℕ
  pub prev_path : List ℕ
  pub content : List ℕ
  pub mode : ℕ
  pub access_time : ℕ
  pub modification_time : ℕ
  pub creation_time : ℕ

-- `getuid()`, `getgid()`, the uid of `fuse_get_context()`, and the successive results of
-- `time(NULL)` during one call.
pub record Context : Type 0 where
  pub server_uid : ℕ
  pub server_gid : ℕ
  pub caller_uid : ℕ
  pub time : ℕ → ℕ

-- What `memset(inode, 0, sizeof(inode_t))` leaves.
unfoldable pub zero_inode : Inode
zero_inode = record {
  name = [];
  size = 0;
  uid = 0;
  gid = 0;
  type = file_type;
  path = [];
  nlink = 0;
  prev_path = [];
  content = replicate max_data 0;
  mode = 0;
  access_time = 0;
  modification_time = 0;
  creation_time = 0;
}

-- `__S_IFREG | 0644` and `__S_IFDIR | 0755`.
abbrev pub initial_mode : InodeType → ℕ
initial_mode file_type = 0o100644
initial_mode dir_type = 0o40755

-- `MIN_FILE_NLINKS` and `MIN_DIR_NLINKS`.
abbrev pub min_nlinks : InodeType → ℕ
min_nlinks file_type = 1
min_nlinks dir_type = 2

unfoldable pub init_inode : Context → List ℕ → List ℕ → List ℕ → InodeType → Inode
init_inode c name path prev_path type = record {
  name = name;
  size = 0;
  uid = c.server_uid;
  gid = c.server_gid;
  type = type;
  path = path;
  nlink = min_nlinks type;
  prev_path = prev_path;
  content = replicate max_data 0;
  mode = initial_mode type;
  access_time = c.time 0;
  modification_time = c.time 0;
  creation_time = c.time 0;
}
