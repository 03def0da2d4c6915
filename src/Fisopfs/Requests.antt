-- ===== src/Fisopfs/Requests.antt =====
-- The requests that FUSE dispatches by the table `operations` of fisopfs/fisopfs.c, and the file
-- system's answer to each. (`init`, `destroy` and `flush` stand in `Persist`.)
pub mod Changes
pub mod Invariant
pub mod Links
use tps_sis_ops.Base.{ℕ, List, Option}
use tps_sis_ops.Fisopfs.Inode.{Context}
use tps_sis_ops.Fisopfs.Table.{Filesystem, Code}
use tps_sis_ops.Fisopfs.Handlers
use tps_sis_ops.Fisopfs.Handlers.{Outcome, done}

pub data Request : Type 0 where
  getattr : List ℕ → Request
  readdir : List ℕ → Request
  read : List ℕ → ℕ → ℕ → Request
  write : List ℕ → List ℕ → ℕ → Request
  mkdir : List ℕ → ℕ → Request
  unlink : List ℕ → Request
  create : List ℕ → ℕ → Request
  rmdir : List ℕ → Request
  truncate : List ℕ → ℕ → Request
  utimens : List ℕ → Option (ℕ × ℕ) → Request
  chown : List ℕ → ℕ → ℕ → Request
  chmod : List ℕ → ℕ → Request

abbrev pub returned : Code × Filesystem → Outcome
returned (r, fs) = done r fs

-- The code that a request returns and the table that it leaves; what `getattr`, `readdir` and `read`
-- hand back besides is in `Handlers`.
unfoldable pub step : Context → Filesystem → Request → Outcome
step c fs (getattr path) = done (Handlers.getattr fs path).0 fs
step c fs (readdir path) = done (Handlers.readdir fs path).0 fs
step c fs (read path size offset) = let r = Handlers.read c fs path size offset in done r.0 r.2
step c fs (write path buffer offset) = Handlers.write c fs path buffer offset
step c fs (mkdir path mode) = returned (Handlers.mkdir c fs path mode)
step c fs (unlink path) = returned (Handlers.unlink c fs path)
step c fs (create path mode) = returned (Handlers.create c fs path mode)
step c fs (rmdir path) = returned (Handlers.rmdir fs path)
step c fs (truncate path size) = Handlers.truncate c fs path size
step c fs (utimens path tv) = returned (Handlers.utimens c fs path tv)
step c fs (chown path uid gid) = returned (Handlers.chown c fs path uid gid)
step c fs (chmod path mode) = returned (Handlers.chmod c fs path mode)
