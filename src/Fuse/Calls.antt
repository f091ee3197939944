-- ===== src/Fuse/Calls.antt =====
-- src/client/agilefs-fuse.c: the handlers that hand a request over to a system call.
use agilefs.Prelude.{
  ℕ, ◌+◌, ◌-◌, ◌/◌, if◌then◌else◌, none, some, List, [], ◌∷◌, ◌++◌, length, drop, Bool,
}
use agilefs.Prelude.Int.{ℤ, pos, minus_one, neg, eqb_ℤ}
use agilefs.Fuse.{FileContext}
use agilefs.Fuse.Os.{
  Os, FilePath, TimeVal, access, mkfifo, mkdir, chmod, mknod, create_new, rmdir, symlink, rename,
  link, lchown, utimes, statvfs, ioctl, close, lsetxattr, lgetxattr, llistxattr, lremovexattr,
}
use agilefs.Platform.{Platform}

-- `S_ISREG`, `S_ISFIFO` or neither.
pub data FileKind : Type 0 where
  regular fifo other : FileKind

pub record TimeSpec : Type 0 where
  pub tv_sec : ℕ
  pub tv_nsec : ℕ

abbrev pub to_timeval : TimeSpec → TimeVal
to_timeval t = record { tv_sec = t.tv_sec; tv_usec = t.tv_nsec / 1000 }

-- The loop of `fuse_readdir`: the names given to `filler`, up to the first that it refuses.
unfoldable pub fill_dir : (List ℕ → Bool) → List (List ℕ) → List (List ℕ)
fill_dir filler [] = []
fill_dir filler (name ∷ names) =
    let more = fill_dir filler names in if filler name then name ∷ [] else name ∷ more

module _ (p : Platform) (os : Os p) where
  open p use {World, errno}

  -- `if (res == -1) return -errno; return 0;`
  unfoldable pub zero_or_errno : ℤ × World → ℤ × World
  zero_or_errno (res, w) = (if eqb_ℤ res minus_one then neg (errno w) else pos 0, w)

  -- `if (res == -1) return -errno; return res;`
  unfoldable pub result_or_errno : ℤ × World → ℤ × World
  result_or_errno (res, w) = (if eqb_ℤ res minus_one then neg (errno w) else res, w)

  unfoldable pub fuse_access : FilePath → ℕ → World → ℤ × World
  fuse_access path mask w = zero_or_errno (os.call w (access path mask))

  -- The buffer of `size` bytes: the target and a zero byte, over what it held.
  unfoldable pub fuse_readlink : FilePath → List ℕ → World → ℤ × List ℕ
  fuse_readlink path buf w = elim (os.readlink w path (length buf - 1)) [
    | none ↦ (neg (errno w), buf)
    | some target ↦ (pos 0, target ++ (0 ∷ drop (length target + 1) buf))
  ]

  unfoldable pub fuse_readdir : FilePath → (List ℕ → Bool) → World → ℤ × List (List ℕ)
  unfolding fill_dir
  fuse_readdir path filler w = elim (os.read_dir w path) [
    | none ↦ (neg (errno w), [])
    | some names ↦ (pos 0, fill_dir filler names)
  ]

  unfoldable pub fuse_mknod : FilePath → FileKind → ℕ → ℕ → World → ℤ × World
  fuse_mknod path regular mode rdev w =
      let (fd, w') = os.call w (create_new path mode) in
      zero_or_errno (if eqb_ℤ fd minus_one then (fd, w') else os.call w' (close fd))
  fuse_mknod path fifo mode rdev w = zero_or_errno (os.call w (mkfifo path mode))
  fuse_mknod path other mode rdev w = zero_or_errno (os.call w (mknod path mode rdev))

  unfoldable pub fuse_mkdir : FilePath → ℕ → World → ℤ × World
  fuse_mkdir path mode w = zero_or_errno (os.call w (mkdir path mode))

  unfoldable pub fuse_rmdir : FilePath → World → ℤ × World
  fuse_rmdir path w = zero_or_errno (os.call w (rmdir path))

  unfoldable pub fuse_symlink : FilePath → FilePath → World → ℤ × World
  fuse_symlink from to w = zero_or_errno (os.call w (symlink from to))

  unfoldable pub fuse_rename : FilePath → FilePath → World → ℤ × World
  fuse_rename from to w = zero_or_errno (os.call w (rename from to))

  unfoldable pub fuse_link : FilePath → FilePath → World → ℤ × World
  fuse_link from to w = zero_or_errno (os.call w (link from to))

  unfoldable pub fuse_chmod : FilePath → ℕ → World → ℤ × World
  fuse_chmod path mode w = zero_or_errno (os.call w (chmod path mode))

  unfoldable pub fuse_chown : FilePath → ℕ → ℕ → World → ℤ × World
  fuse_chown path uid gid w = zero_or_errno (os.call w (lchown path uid gid))

  unfoldable pub fuse_utimens : FilePath → TimeSpec → TimeSpec → World → ℤ × World
  fuse_utimens path t0 t1 w =
      zero_or_errno (os.call w (utimes path (to_timeval t0) (to_timeval t1)))

  unfoldable pub fuse_statfs : FilePath → World → ℤ × World
  fuse_statfs path w = zero_or_errno (os.call w (statvfs path))

  unfoldable pub fuse_flush : FilePath → World → ℤ × World
  fuse_flush path w = (pos 0, w)

  unfoldable pub fuse_ioctl : FileContext → ℕ → World → ℤ × World
  fuse_ioctl fi cmd w = zero_or_errno (os.call w (ioctl fi.fd cmd))

  unfoldable pub fuse_setxattr : FilePath → List ℕ → List ℕ → ℕ → World → ℤ × World
  fuse_setxattr path name value flags w =
      zero_or_errno (os.call w (lsetxattr path name value flags))

  unfoldable pub fuse_getxattr : FilePath → List ℕ → World → ℤ × World
  fuse_getxattr path name w = result_or_errno (os.call w (lgetxattr path name))

  unfoldable pub fuse_listxattr : FilePath → World → ℤ × World
  fuse_listxattr path w = result_or_errno (os.call w (llistxattr path))

  unfoldable pub fuse_removexattr : FilePath → List ℕ → World → ℤ × World
  fuse_removexattr path name w = zero_or_errno (os.call w (lremovexattr path name))
