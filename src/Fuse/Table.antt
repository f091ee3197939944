-- ===== src/Fuse/Table.antt =====
-- `fuse_oper` (src/client/agilefs-fuse.c): the table of handlers, for those that hand over to one call
-- of the system.
use agilefs.Prelude.{ℕ, ◌/◌, List, Option, none, some}
use agilefs.Prelude.Int.{ℤ, pos}
use agilefs.Platform.{Platform}
use agilefs.Fuse.{FileContext}
use agilefs.Fuse.Os.{
  Os, FilePath, TimeVal, Call, access, mkfifo, mkdir, chmod, mknod, rmdir, symlink, rename, link,
  lchown, utimes, statvfs, ioctl, lsetxattr, lgetxattr, llistxattr, lremovexattr,
}
use agilefs.Fuse.Calls.{
  FileKind, regular, fifo, other, TimeSpec, fuse_access, fuse_mkdir, fuse_chmod, fuse_mknod,
  fuse_rmdir, fuse_statfs, fuse_flush, fuse_symlink, fuse_rename, fuse_link, fuse_chown,
  fuse_utimens, fuse_ioctl, fuse_setxattr, fuse_removexattr, fuse_getxattr, fuse_listxattr,
}

pub data Request : Type 0 where
  ask_access ask_mkdir ask_chmod : FilePath → ℕ → Request
  ask_mknod : FilePath → FileKind → ℕ → ℕ → Request
  ask_rmdir ask_statfs ask_flush ask_listxattr : FilePath → Request
  ask_symlink ask_rename ask_link : FilePath → FilePath → Request
  ask_chown : FilePath → ℕ → ℕ → Request
  ask_utimens : FilePath → TimeSpec → TimeSpec → Request
  ask_ioctl : FileContext → ℕ → Request
  ask_setxattr : FilePath → List ℕ → List ℕ → ℕ → Request
  ask_getxattr ask_removexattr : FilePath → List ℕ → Request

-- `struct timespec` in microseconds.
abbrev pub microseconds : TimeSpec → TimeVal
microseconds t = record { tv_sec = t.tv_sec; tv_usec = t.tv_nsec / 1000 }

-- The system call that a request is answered by. A regular file is made by two calls, and `flush`
-- is answered without one.
abbrev pub asked : Request → Option Call
asked (ask_access path mask) = some (access path mask)
asked (ask_mkdir path mode) = some (mkdir path mode)
asked (ask_chmod path mode) = some (chmod path mode)
asked (ask_mknod path regular mode rdev) = none
asked (ask_mknod path fifo mode rdev) = some (mkfifo path mode)
asked (ask_mknod path other mode rdev) = some (mknod path mode rdev)
asked (ask_rmdir path) = some (rmdir path)
asked (ask_statfs path) = some (statvfs path)
asked (ask_flush path) = none
asked (ask_symlink from to) = some (symlink from to)
asked (ask_rename from to) = some (rename from to)
asked (ask_link from to) = some (link from to)
asked (ask_chown path uid gid) = some (lchown path uid gid)
asked (ask_utimens path t0 t1) = some (utimes path (microseconds t0) (microseconds t1))
asked (ask_ioctl fi cmd) = some (ioctl fi.fd cmd)
asked (ask_setxattr path name value flags) = some (lsetxattr path name value flags)
asked (ask_removexattr path name) = some (lremovexattr path name)
asked (ask_getxattr path name) = some (lgetxattr path name)
asked (ask_listxattr path) = some (llistxattr path)

-- What a call that did not fail is reported as: a size for the extended attributes, else 0.
abbrev pub reported : Request → ℤ → ℤ
reported (ask_getxattr path name) res = res
reported (ask_listxattr path) res = res
reported r res = pos 0

module _ (p : Platform) (os : Os p) where
  open p use {World, errno}

  pub dispatch : Request → World → ℤ × World
  dispatch (ask_access path mask) w = fuse_access p os path mask w
  dispatch (ask_mkdir path mode) w = fuse_mkdir p os path mode w
  dispatch (ask_chmod path mode) w = fuse_chmod p os path mode w
  dispatch (ask_mknod path kind mode rdev) w = fuse_mknod p os path kind mode rdev w
  dispatch (ask_rmdir path) w = fuse_rmdir p os path w
  dispatch (ask_statfs path) w = fuse_statfs p os path w
  dispatch (ask_flush path) w = fuse_flush p os path w
  dispatch (ask_symlink from to) w = fuse_symlink p os from to w
  dispatch (ask_rename from to) w = fuse_rename p os from to w
  dispatch (ask_link from to) w = fuse_link p os from to w
  dispatch (ask_chown path uid gid) w = fuse_chown p os path uid gid w
  dispatch (ask_utimens path t0 t1) w = fuse_utimens p os path t0 t1 w
  dispatch (ask_ioctl fi cmd) w = fuse_ioctl p os fi cmd w
  dispatch (ask_setxattr path name value flags) w = fuse_setxattr p os path name value flags w
  dispatch (ask_removexattr path name) w = fuse_removexattr p os path name w
  dispatch (ask_getxattr path name) w = fuse_getxattr p os path name w
  dispatch (ask_listxattr path) w = fuse_listxattr p os path w
