-- ===== src/ChunkFiles.antt =====
-- The chunk files of the server: `struct chunk_file_info` (src/server/chunks.h) and the choice of
-- the file for a new block, `get_proper_chunk_file` (src/server/chunks-io.c).
pub mod Proper
mod Tests
use agilefs.Prelude.{
  ℕ, zero, suc, ◌+◌, ◌-◌, ◌*◌, if◌then◌else◌, Option, some, ◌>>=◌, ◌&&◌, List, get_elem?,
}
use agilefs.Prelude.Int.{ℤ, pos, negsuc, minus_one, ◌-ℤ◌, ltb_ℤ}
use agilefs.Chunks.{FreeChunkList}

-- `FSP_SIZE`, the size of a block, is 4096, and a chunk number shifted by `FSP_OFFSET` is its offset.
abbrev pub fsp_size : ℕ
fsp_size = 4096

abbrev pub max_chunk_file_size : ℤ
max_chunk_file_size = pos 0x1_0000_0000

pub record ChunkFileInfo : Type 0 where
  pub total : ℕ
  pub fds : List ℤ
  pub cur_size : List ℕ
  pub fcls : List FreeChunkList

-- `current == -1 ? 0 : (current << FSP_OFFSET)`
unfoldable pub freed_bytes : ℤ → ℤ
freed_bytes (pos c) = pos (c * fsp_size)
freed_bytes (negsuc zero) = pos 0
freed_bytes (negsuc (suc n)) = negsuc ((n + 2) * fsp_size - 1)

-- What the loop computes for file `i`.
unfoldable pub capacity : ChunkFileInfo → ℕ → Option ℤ
unfolding freed_bytes ◌-ℤ◌
capacity cfi i = do
  size ← get_elem? cfi.cur_size i
  fcl ← get_elem? cfi.fcls i
  some (pos size -ℤ freed_bytes fcl.current)

-- The loop from file `i` on, with `left` files to see, the variables `__min` and `ret`.
unfoldable pub proper_from : ChunkFileInfo → ℕ → ℕ → ℤ → ℤ → Option ℤ
unfolding capacity
proper_from cfi zero i least ret = some ret
proper_from cfi (suc left) i least ret = do
  c ← capacity cfi i
  let better = ltb_ℤ c max_chunk_file_size && ltb_ℤ c least
  proper_from cfi left (i + 1) (if better then c else least) (if better then pos i else ret)

unfoldable pub get_proper_chunk_file : ChunkFileInfo → Option ℤ
unfolding proper_from
get_proper_chunk_file cfi = proper_from cfi cfi.total 0 (pos 0xffff_ffff) minus_one
