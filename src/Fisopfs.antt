-- ===== src/Fisopfs.antt =====
-- fisopfs: the file system of fisopfs/fs.c and fisopfs/fisopfs.c.
pub mod Paths
pub mod Inode
pub mod Table
pub mod Handlers
pub mod Requests
pub mod Persist
mod Tests
