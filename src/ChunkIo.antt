-- ===== src/ChunkIo.antt =====
-- src/server/chunks-io.c: blocks under their hashes. A state holds the chunk files with their free
-- lists, and the world with the files' bytes and the hash database; each function returns its
-- code, and the new state. `none` is undefined behaviour or a failed assertion.
pub mod Sound
pub mod Allocate
pub mod Enter
pub mod Put
pub mod Delete
pub mod Reference
pub mod Loss
pub mod ReadPart
pub mod Sync
pub mod Refine
pub mod Foreign
mod Tests
use agilefs.Prelude.{
  ℕ, zero, suc, ◌+◌, ◌-◌, ◌*◌, ◌/◌, ◌%◌, ◌^◌, ltb, ◌==◌, if◌then◌else◌, Option, none, some, ◌>>=◌,
  List, [], ◌∷◌, length, get_elem?, set,
}
use agilefs.Prelude.Int.{ℤ, pos, negsuc, minus_one, eqb_ℤ}
use agilefs.Chunks.{Segment, FreeChunkList, get_first_free_chunk, add_free_chunk}
use agilefs.ChunkFiles.{ChunkFileInfo, fsp_size, get_proper_chunk_file}
use agilefs.Platform.{Key, BlockData, Platform}
use agilefs.HashDb.{db_get, db_put, db_del}

pub record State (p : Platform) : Type 0 where
  pub cfi : ChunkFileInfo
  pub world : p.World

-- Where the next block of file `i` goes: the byte offset, and the file's new free list and size.
-- The offset is negative where a free entry is no chunk number.
pub record Allocation : Type 0 where
  pub offset : ℤ
  pub size : ℕ
  pub fcl : FreeChunkList

-- `ret << FSP_OFFSET` for a chunk from the free list; -1 extends the file.
unfoldable pub allocate_from : ℕ → ℤ → FreeChunkList → Allocation
allocate_from size (pos x) fcl = record { offset = pos (x * fsp_size); size = size; fcl = fcl }
allocate_from size (negsuc zero) fcl = record {
  offset = pos size;
  size = size + fsp_size;
  fcl = fcl;
}
allocate_from size (negsuc (suc n)) fcl = record {
  offset = negsuc ((n + 2) * fsp_size - 1);
  size = size;
  fcl = fcl;
}

unfoldable pub allocate : ChunkFileInfo → ℕ → Option (ℤ × ChunkFileInfo)
unfolding allocate_from
allocate cfi i = do
  fcl ← get_elem? cfi.fcls i
  size ← get_elem? cfi.cur_size i
  (ret, popped) ← get_first_free_chunk fcl
  let a = allocate_from size ret popped
  some (a.offset, record cfi { cur_size = set cfi.cur_size i a.size; fcls = set cfi.fcls i a.fcl })

abbrev pub zero_block : BlockData
zero_block = record { fd_index = 0; ref_count = 0; offset = 0 }

abbrev pub max_int : ℕ
max_int = 2 ^ 31 - 1

abbrev pub read_code : Option (List ℕ) → ℤ
read_code none = minus_one
read_code (some bytes) = pos (length bytes)

module _ (p : Platform) where
  open p use {World, pread, pwrite, fsync, write_hash_db}

  -- After `pwrite` returned `n`: a whole block is entered in the database. (Only a whole block is,
  -- and that is at an offset which is not negative.)
  unfoldable pub enter_block : ChunkFileInfo → Key → ℤ → ℕ → ℤ × World → ℤ × State p
  enter_block cfi key (negsuc o) f (n, w) = (n, record { cfi = cfi; world = w })
  enter_block cfi key (pos o) f (n, w) =
      if eqb_ℤ n (pos fsp_size)
      then (let (x, w') = write_hash_db w key o f in
          (if eqb_ℤ x (pos 0) then n else minus_one, record { cfi = cfi; world = w' }))
      else (n, record { cfi = cfi; world = w })

  -- `block_write` in file `f`.
  unfoldable pub write_in : Key → List ℕ → ℕ → State p → Option (ℤ × State p)
  unfolding allocate enter_block
  write_in key buf f s = do
    (offset, cfi) ← allocate s.cfi f
    fd ← get_elem? cfi.fds f
    some (enter_block cfi key offset f (pwrite s.world fd buf offset))

  -- The assertion that there is a file.
  unfoldable pub write_where : Key → List ℕ → ℤ → State p → Option (ℤ × State p)
  unfolding write_in
  write_where key buf (pos f) s = write_in key buf f s
  write_where key buf (negsuc _) s = none

  -- `buf` is the `size` bytes that the C function is given.
  unfoldable pub block_write : Key → List ℕ → State p → Option (ℤ × State p)
  unfolding write_where
  block_write key buf s = do f ← get_proper_chunk_file s.cfi; write_where key buf f s

  -- The bytes that arrive in `buf`, or `none` for the return of -1.
  unfoldable pub block_read : Key → ℕ → ℕ → State p → Option (Option (List ℕ))
  block_read key size offset s = do
    found ← db_get p key s.world
    elim found [
      | none ↦ some none
      | some bd ↦ do
        fd ← get_elem? s.cfi.fds bd.fd_index
        some (pread s.world fd size (pos (bd.offset + offset)))
    ]

  -- `put_new_chunk` for a hash that the database has.
  pub add_reference : Key → BlockData → State p → Option (ℤ × State p)
  add_reference key bd s =
      if ltb bd.ref_count max_int
      then (do
        (c, w) ← db_put p key (record bd { ref_count = bd.ref_count + 1 }) s.world
        some (if eqb_ℤ c (pos 0) then pos 0 else minus_one, record s { world = w }))
      else none

  unfoldable pub put_new_chunk : Key → List ℕ → State p → Option (ℤ × State p)
  unfolding add_reference
  put_new_chunk key buf s = do
    found ← db_get p key s.world
    elim found [
      | none ↦ do
        (n, s') ← block_write key buf s
        some (if eqb_ℤ n (pos fsp_size) then pos 0 else minus_one, s')
      | some bd ↦ add_reference key bd s
    ]

  -- The inner branches of `del_chunk`, on the block data `bd`. `malloc` is what an allocation of a
  -- segment of the free list returns.
  pub drop_block : Key → BlockData → Segment → State p → Option (ℤ × State p)
  drop_block key bd malloc s =
      if ltb 1 bd.ref_count
      then (do
        (c, w) ← db_put p key (record bd { ref_count = bd.ref_count - 1 }) s.world
        some (c, record s { world = w }))
      else (do
        fcl ← get_elem? s.cfi.fcls bd.fd_index
        (_, fcl') ← add_free_chunk fcl (bd.offset / fsp_size % 2 ^ 32) malloc
        (c, w) ← db_del p key s.world
        some (
          c,
          record { cfi = record s.cfi { fcls = set s.cfi.fcls bd.fd_index fcl' }; world = w },
        ))

  -- The test is `if (ret)`: the block is dropped where `db_get` fails, with `bd` still zero.
  pub del_chunk : Key → Segment → State p → Option (ℤ × State p)
  unfolding drop_block
  del_chunk key malloc s = do
    found ← db_get p key s.world
    elim found [ none ↦ drop_block key zero_block malloc s | some bd ↦ some (pos 0, s) ]

  -- The loop of `sync_chunk_data` from file `i` on: the files that it warns of, which are those
  -- whose `fsync` returned 0.
  pub sync_from : ℕ → ℕ → State p → Option (List ℕ)
  sync_from zero i s = some []
  sync_from (suc left) i s = do
    fd ← get_elem? s.cfi.fds i
    later ← sync_from left (i + 1) s
    some (if eqb_ℤ (fsync s.world fd) (pos 0) then i ∷ later else later)

  pub sync_chunk_data : State p → Option (ℤ × List ℕ)
  unfolding sync_from
  sync_chunk_data s = do warned ← sync_from s.cfi.total 0 s; some (pos 0, warned)
