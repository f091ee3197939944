-- ===== src/Fuse/Os.antt =====
-- The system calls on paths and descriptors that the handlers of src/client/agilefs-fuse.c hand over
-- to. Each returns its result, -1 for a failure, and the world after it.
use agilefs.Prelude.{ℕ, Option, List}
use agilefs.Prelude.Int.{ℤ}
use agilefs.Platform.{Platform}

abbrev pub FilePath : Type 0
FilePath = List ℕ

pub record TimeVal : Type 0 where
  pub tv_sec : ℕ
  pub tv_usec : ℕ

-- The calls whose result alone matters. Flags are `O_CREAT` and so on, as bits.
pub data Call : Type 0 where
  access : FilePath → ℕ → Call
  mkfifo mkdir chmod : FilePath → ℕ → Call
  mknod : FilePath → ℕ → ℕ → Call
  create_new : FilePath → ℕ → Call
  rmdir unlink : FilePath → Call
  symlink rename link : FilePath → FilePath → Call
  lchown : FilePath → ℕ → ℕ → Call
  utimes : FilePath → TimeVal → TimeVal → Call
  statvfs : FilePath → Call
  ioctl : ℤ → ℕ → Call
  open_file : FilePath → ℕ → Call
  close : ℤ → Call
  fsync fdatasync : ℤ → Call
  lsetxattr : FilePath → List ℕ → List ℕ → ℕ → Call
  lgetxattr : FilePath → List ℕ → Call
  llistxattr : FilePath → Call
  lremovexattr : FilePath → List ℕ → Call

-- `struct stat`, as far as the handlers look at it.
pub record Stat : Type 0 where
  pub st_mode : ℕ
  pub st_size : ℤ

pub record Os (p : Platform) : Type 0 where
  pub call : p.World → Call → ℤ × p.World
  pub lstat : p.World → FilePath → Option Stat
  pub fstat : p.World → ℤ → Option Stat
  -- The target of a link, cut at the size that is asked for.
  pub readlink : p.World → FilePath → ℕ → Option (List ℕ)
  -- The entries of a directory.
  pub read_dir : p.World → FilePath → Option (List (List ℕ))
