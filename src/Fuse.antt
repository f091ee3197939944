-- ===== src/Fuse.antt =====
-- src/client/agilefs-fuse.c: the data path of the file system. A file is a metafile: 16 bytes with
-- the size, then for each block of 4096 bytes the hash under which the block is stored. The size of
-- an open file is kept in its context. The functions return their code beside the new state; `none`
-- is undefined behaviour below. The cache is compiled out (no `WITH_CACHE`): `cache_read` returns 0
-- and `cache_write` does nothing, so the code that follows a cache hit is not reached.
pub mod Os
pub mod Read
pub mod Returns
pub mod RoundTrip
pub mod Aligned
pub mod Meta
pub mod Header
pub mod Calls
pub mod Table
mod Tests
use agilefs.Prelude.{
  ℕ, zero, suc, ◌+◌, ◌-◌, ◌*◌, ◌/◌, ◌%◌, ◌^◌, ltb, leb, ◌==◌, not, if◌then◌else◌, Option, none,
  some, ◌>>=◌, Bool, true, false, List, [], ◌∷◌, ◌++◌, length, take, drop, replicate,
}
use agilefs.Prelude.Int.{ℤ, pos, negsuc, minus_one, neg, add_int, eqb_ℤ}
use agilefs.Chunks.{Segment}
use agilefs.ChunkIo.{State, block_read, put_new_chunk, del_chunk, read_code}
use agilefs.Md5.{md5}
use agilefs.Platform.{Key, Platform}

abbrev pub block_size : ℕ
block_size = 4096

abbrev pub hash_size : ℕ
hash_size = 16

abbrev pub init_offset : ℕ
init_offset = 16

-- `get_min` (src/client/fuse_io_util.c).
pub get_min : ℕ → ℕ → ℕ
get_min a b = if ltb a b then a else b

-- Where the metafile has the hash of the block with byte `i`.
abbrev pub hash_offset : ℕ → ℕ
hash_offset i = i / block_size * hash_size + init_offset

-- `struct file_context` (src/client/fuse_io_util.h).
pub record FileContext : Type 0 where
  pub fd : ℤ
  pub st_size : ℕ

-- A buffer after a call that read `got` into its start; where the call failed it is as before.
abbrev pub filled : List ℕ → Option (List ℕ) → List ℕ
filled old none = old
filled old (some got) = got ++ drop (length got) old

-- A buffer with `bytes` copied over it from index `at` on.
abbrev pub overlay : List ℕ → ℕ → List ℕ → List ℕ
overlay buffer at bytes = take at buffer ++ (bytes ++ drop (at + length bytes) buffer)

abbrev pub overlay_read : List ℕ → ℕ → Option (List ℕ) → List ℕ
overlay_read buffer at none = buffer
overlay_read buffer at (some bytes) = overlay buffer at bytes

-- The part of a request up to the end of its block: `get_min(size + offset - i, g_block_size -
-- (i & (g_block_size - 1)))`.
pub piece : ℕ → ℕ → ℕ
unfolding get_min
piece last i = get_min (last - i) (block_size - i % block_size)

-- A number as the 8 bytes of an `off_t`, and back.
pub encode_off : ℕ → ℕ → List ℕ
encode_off zero n = []
encode_off (suc k) n = n % 256 ∷ encode_off k (n / 256)

pub decode_off : List ℕ → ℕ
decode_off [] = 0
decode_off (b ∷ bs) = b + 256 * decode_off bs

module _ (p : Platform) where
  open p use {World, pread, pwrite, errno}

  -- One round of the loop of `fuse_read` at byte `i`: the code of `block_read` and the buffer.
  pub read_piece : ℤ → ℕ → ℕ → ℕ → Key → List ℕ → State p → Option (ℤ × List ℕ)
  unfolding get_min
  read_piece fd size offset i key buf s = do
    got ← block_read p key (get_min block_size (size + offset - i)) (i % block_size) s
    some (read_code got, overlay_read buf (i - offset) got)

  -- The loop from byte `i` up to `end`, with `hash_key` and `rdcount`, an `int`; a failed `pread` of the
  -- hash ends it with `-errno`. One round at least for each unit of fuel.
  pub read_from : ℕ → ℤ → ℕ → ℕ → ℕ → ℕ → Key → ℤ → List ℕ → State p → Option (ℤ × List ℕ)
  unfolding read_piece piece
  read_from zero fd size offset end i hash_key rdcount buf s =
      if ltb i end then none else some (rdcount, buf)
  read_from (suc fuel) fd size offset end i hash_key rdcount buf s = elim (ltb i end) [
    | false ↦ some (rdcount, buf)
    | true ↦ elim (pread s.world fd hash_size (pos (hash_offset i))) [
      | none ↦ some (neg (errno s.world), buf)
      | some got ↦ do
        let key = got ++ drop (length got) hash_key
        (ret, buf') ← read_piece fd size offset i key buf s
        count ← add_int rdcount ret
        read_from fuel fd size offset end (i + piece (size + offset) i) key count buf' s
    ]
  ]

  -- `hash_key` is uninitialised: `garbage` is what it holds.
  pub fuse_read : FileContext → Key → List ℕ → ℕ → ℕ → State p → Option (ℤ × List ℕ)
  unfolding read_from
  fuse_read fi garbage buf size offset s =
      let end = if ltb fi.st_size (offset + size) then fi.st_size else offset + size in
      read_from (end - offset) fi.fd size offset end offset garbage (pos 0) buf s

  -- The block that a round of `fuse_write` stores: where the request does not cover it, the old
  -- block is read first.
  pub new_data : Key → ℕ → List ℕ → State p → Option (List ℕ)
  new_data hash_key i part s = do
    old ←
        (if length part == block_size then some (replicate block_size 0) else (do
          got ← block_read p hash_key block_size 0 s
          some (overlay_read (replicate block_size 0) 0 got)))
    some (overlay old (i % block_size) part)

  -- The end of a round: the new hash is written to the metafile, and the block is stored. The
  -- flag says that the loop goes on, and the hash is what `hash_key` then holds.
  pub store_piece : ℤ → ℕ → List ℕ → State p → Option (Bool × Key × State p)
  store_piece fd i block s =
      let hash = md5 block in
      let (n, w) = pwrite s.world fd hash (pos (hash_offset i)) in
      if eqb_ℤ n (pos hash_size)
      then (do
        (ret, s') ← put_new_chunk p hash block (record s { world = w })
        some (eqb_ℤ ret (pos 0), hash, s'))
      else some (false, hash, record s { world = w })

  -- One round at byte `i`, where `part` is what the request puts into the block.
  pub write_piece : ℤ → ℕ → List ℕ → Key → Segment → State p → Option (Bool × Key × State p)
  unfolding new_data store_piece
  write_piece fd i part hash_key malloc s = do
    let key = filled hash_key (pread s.world fd hash_size (pos (hash_offset i)))
    block ← new_data key i part s
    (_, s') ← del_chunk p key malloc s
    store_piece fd i block s'

  -- The loop of `fuse_write` from byte `i` up to `last`, with the rest of the buffer. The flag is
  -- false where it went to `write_err`. `malloc i` is what an allocation in the round at `i` gives.
  pub write_from : ℕ → ℤ → ℕ → ℕ → List ℕ → Key → (ℕ → Segment) → State p → Option (Bool × State p)
  unfolding write_piece piece
  write_from zero fd last i rest hash_key malloc s = if ltb i last then none else some (true, s)
  write_from (suc fuel) fd last i rest hash_key malloc s = elim (ltb i last) [
    | false ↦ some (true, s)
    | true ↦ do
      let n = piece last i
      (goes_on, key, s') ← write_piece fd i (take n rest) hash_key (malloc i) s
      elim goes_on [
        | true ↦ write_from fuel fd last (i + n) (drop n rest) key malloc s'
        | false ↦ some (false, s')
      ]
  ]

  pub fuse_write :
      FileContext → Key → List ℕ → ℕ → (ℕ → Segment) → State p → Option (ℤ × FileContext × State p)
  unfolding write_from
  fuse_write fi garbage buf offset malloc s = do
    let size = length buf
    (done, s') ← write_from size fi.fd (offset + size) offset buf garbage malloc s
    some (
        if done
        then (
          pos size,
          record fi {
            st_size = if ltb fi.st_size (offset + size) then offset + size else fi.st_size;
          },
          s',
        )
        else (neg (errno s'.world), fi, s'))
