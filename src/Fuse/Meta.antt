-- ===== src/Fuse/Meta.antt =====
-- src/client/agilefs-fuse.c: the handlers that open, size and close a metafile.
use agilefs.Prelude.{
  ℕ, zero, suc, ◌+◌, ◌-◌, ◌/◌, ◌%◌, ltb, ◌==◌, if◌then◌else◌, Option, none, some, ◌>>=◌, replicate,
  Bool, true, false, bit_or, bit_and,
}
use agilefs.Prelude.Int.{ℤ, pos, negsuc, minus_one, neg, eqb_ℤ, pos_part, off_of_u64, u64_of_off}
use agilefs.Chunks.{Segment}
use agilefs.ChunkIo.{State, del_chunk}
use agilefs.Fuse.{FileContext, block_size, hash_size, hash_offset, filled, encode_off, decode_off}
use agilefs.Fuse.Os.{Os, Stat, FilePath, open_file, close, unlink, create_new, fsync, fdatasync}
use agilefs.Platform.{Key, Platform}

-- The size rounded up to a whole block, from where the blocks are given up.
unfoldable pub round_up : ℕ → ℕ
round_up size = if size % block_size == 0 then size else size + block_size - size % block_size

-- The flags of `open` (Linux): access modes in the low two bits, `O_APPEND`.
abbrev pub o_wronly : ℕ
o_wronly = 1

abbrev pub o_rdwr : ℕ
o_rdwr = 2

abbrev pub o_append : ℕ
o_append = 0x400

-- `flags &= ~bit`.
unfoldable pub clear_flag : ℕ → ℕ → ℕ
clear_flag flags bit = flags - bit_and flags bit

unfoldable pub open_flags : ℕ → ℕ
unfolding clear_flag
open_flags flags = clear_flag (bit_or (clear_flag flags o_wronly) o_rdwr) o_append

-- `st_mode & S_IFREG`: one bit (0100000) of the type, which symbolic links (0120000) and sockets
-- (0140000) have as well.
abbrev pub tests_regular : Stat → Bool
tests_regular st = st.st_mode / 0x8000 % 2 == 1

module _ (p : Platform) (os : Os p) where
  open p use {World, pread, pwrite, errno}

  abbrev pub world_of : State p → World → State p
  world_of s w = record s { world = w }

  -- The 8 bytes at the start, read into an `off_t` that holds `old`.
  unfoldable pub read_size : ℤ → ℤ → World → ℤ
  read_size fd old w =
      off_of_u64 (decode_off (filled (encode_off 8 (u64_of_off old)) (pread w fd 8 (pos 0))))

  -- The loop of `fuse_truncate` and `fuse_ftruncate` from byte `i`. `malloc i` is what an allocation
  -- at `i` gives.
  unfoldable pub punch_from : ℕ → ℤ → ℕ → ℕ → Key → (ℕ → Segment) → State p → Option (State p)
  punch_from zero fd i st_size key malloc s = if ltb i st_size then none else some s
  punch_from (suc fuel) fd i st_size key malloc s = elim (ltb i st_size) [
    | false ↦ some s
    | true ↦ do
      let key' = filled key (pread s.world fd hash_size (pos (hash_offset i)))
      (_, s') ← del_chunk p key' (malloc i) s
      punch_from fuel fd (i + block_size) st_size key' malloc s'
  ]

  abbrev pub zero_key : Key
  zero_key = replicate hash_size 0

  unfoldable pub fuse_ftruncate :
      FileContext → ℕ → (ℕ → Segment) → State p → Option (ℤ × FileContext × State p)
  unfolding punch_from
  fuse_ftruncate fi size malloc s = do
    s' ← punch_from fi.st_size fi.fd (round_up size) fi.st_size zero_key malloc s
    let (_, w) = pwrite s'.world fi.fd (encode_off 8 size) (pos 0)
    some (pos 0, record fi { st_size = size }, world_of s' w)

  -- The loop has no round for a negative size.
  unfoldable pub fuse_truncate : FilePath → ℕ → (ℕ → Segment) → State p → Option (ℤ × State p)
  unfolding punch_from read_size
  fuse_truncate path size malloc s =
      let (fd, w) = os.call s.world (open_file path o_rdwr) in
      if eqb_ℤ fd minus_one
      then some (neg (errno w), world_of s w)
      else elim (pread w fd 8 (pos 0)) [
        | none ↦ some (neg (errno w), world_of s w)
        | some got ↦ do
          let st_size = pos_part (read_size fd (pos 0) w)
          s' ← punch_from st_size fd (round_up size) st_size zero_key malloc (world_of s w)
          let (_, w') = pwrite s'.world fd (encode_off 8 size) (pos 0)
          let (_, w'') = os.call w' (close fd)
          some (pos 0, world_of s' w'')
      ]

  -- The result of `fuse_truncate` is not looked at.
  unfoldable pub fuse_unlink : FilePath → (ℕ → Segment) → State p → Option (ℤ × State p)
  unfolding fuse_truncate
  fuse_unlink path malloc s = do
    (_, s') ← fuse_truncate path 0 malloc s
    let (res, w) = os.call s'.world (unlink path)
    some (if eqb_ℤ res minus_one then neg (errno w) else pos 0, world_of s' w)

  -- The context of the new file, where it was created.
  unfoldable pub fuse_create : FilePath → ℕ → World → ℤ × Option FileContext × World
  fuse_create path mode w =
      let (fd, w') = os.call w (create_new path mode) in
      if eqb_ℤ fd minus_one then (neg (errno w'), none, w') else (
        pos 0,
        some (record { fd = fd; st_size = 0 }),
        (pwrite w' fd (replicate 16 0) (pos 0)).1,
      )

  -- A context with the size `st_size`, which the model has only where it is not negative.
  abbrev pub context_of : ℤ → ℤ → Option FileContext
  context_of fd (pos n) = some (record { fd = fd; st_size = n })
  context_of fd (negsuc _) = none

  -- `garbage` is what `malloc` left in the `st_size` of the new context. `none` is a metafile with a
  -- negative size: the context that the code then makes is not in the model.
  unfoldable pub fuse_open : FilePath → ℕ → ℤ → World → Option (ℤ × Option FileContext × World)
  unfolding open_flags read_size
  fuse_open path flags garbage w =
      let (fd, w') = os.call w (open_file path (open_flags flags)) in
      if eqb_ℤ fd minus_one
      then some (neg (errno w'), none, w')
      else (do context ← context_of fd (read_size fd garbage w'); some (pos 0, some context, w'))

  unfoldable pub is_negative : ℤ → Bool
  is_negative (pos _) = false
  is_negative (negsuc _) = true

  -- `sync_chunk_file` and `printf` change nothing here.
  unfoldable pub fuse_release : FileContext → World → ℤ × World
  unfolding is_negative
  fuse_release fi w =
      let (ret, w') = pwrite w fi.fd (encode_off 8 fi.st_size) (pos 0) in
      if is_negative ret then (neg (errno w'), w') else (pos 0, (os.call w' (close fi.fd)).1)

  unfoldable pub fuse_fsync : Bool → FileContext → World → ℤ × World
  fuse_fsync isdatasync fi w =
      let w' = (pwrite w fi.fd (encode_off 8 fi.st_size) (pos 0)).1 in
      let (ret, w'') = os.call w' (if isdatasync then fdatasync fi.fd else fsync fi.fd) in
      (if eqb_ℤ ret minus_one then neg (errno w'') else pos 0, w'')

  unfoldable pub fuse_getattr : FilePath → World → ℤ × Option Stat × World
  unfolding read_size
  fuse_getattr path w = elim (os.lstat w path) [
    | none ↦ (neg (errno w), none, w)
    | some st ↦
        if tests_regular st
        then (let (fd, w') = os.call w (open_file path 0) in
            if eqb_ℤ fd minus_one then (neg (errno w'), some st, w') else (
              pos 0,
              some (record st { st_size = read_size fd st.st_size w' }),
              (os.call w' (close fd)).1,
            ))
        else (pos 0, some st, w)
  ]

  unfoldable pub fuse_fgetattr : FileContext → World → ℤ × Option Stat
  fuse_fgetattr fi w = elim (os.fstat w fi.fd) [
    | none ↦ (neg (errno w), none)
    | some st ↦
        (pos 0, some (if tests_regular st then record st { st_size = pos fi.st_size } else st))
  ]
