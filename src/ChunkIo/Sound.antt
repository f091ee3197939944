-- ===== src/ChunkIo/Sound.antt =====
-- The block store that src/server/chunks-io.c keeps over the free lists, the chunk files and the
-- hash database: when a state is sound.

use agilefs.Prelude.{
  ℕ, ◌+◌, ◌*◌, ◌/◌, ◌%◌, ◌≤◌, ◌<◌, ◌≡◌, ◌≢◌, ◌⊎◌, some, List, [], ◌∷◌, length, get_elem?,
}
use agilefs.Prelude.Int.{ℤ, pos}
use agilefs.Chunks.{FreeChunkList}
use agilefs.Chunks.Stack.{contents, IsValid}
use agilefs.ChunkFiles.{ChunkFileInfo}
use agilefs.Platform.{Key, BlockData, Platform}
use agilefs.HashDb.{db_get}
use agilefs.ChunkIo.{State}

abbrev pub In : ℕ → List ℕ → Type 0
In x [] = ⊥
In x (y ∷ ys) = (x ≡ y) ⊎ In x ys

abbrev pub Distinct : List ℕ → Type 0
Distinct [] = Unit
Distinct (x ∷ xs) = (¬ In x xs) × Distinct xs

-- File `i` of the three arrays.
pub record HasFile (cfi : ChunkFileInfo) (i : ℕ) (fd : ℤ) (size : ℕ) (fcl : FreeChunkList)
    : Type 0 where
  pub fd_at : get_elem? cfi.fds i ≡ some fd
  pub size_at : get_elem? cfi.cur_size i ≡ some size
  pub fcl_at : get_elem? cfi.fcls i ≡ some fcl

-- The free chunks of a file are different whole blocks of it.
pub record IsSoundFile (size : ℕ) (fcl : FreeChunkList) : Type 0 where
  pub valid : IsValid fcl
  pub aligned : size % 4096 ≡ 0
  pub below : (x : ℕ) → In x (contents fcl) → x * 4096 + 4096 ≤ size
  pub distinct : Distinct (contents fcl)

module _ (p : Platform) where
  -- The database has `bd` for the hash `k`.
  abbrev pub Stored : State p → Key → BlockData → Type 0
  Stored s k bd = db_get p k s.world ≡ some (some bd)

  -- A block in its file, on no free chunk.
  pub record IsPlaced (s : State p) (bd : BlockData) : Type 0 where
    pub fd : ℤ
    pub size : ℕ
    pub fcl : FreeChunkList
    pub bytes : List ℕ
    pub file : HasFile s.cfi bd.fd_index fd size fcl
    pub inside : bd.offset + 4096 ≤ size
    pub aligned : bd.offset % 4096 ≡ 0
    pub not_free : ¬ In (bd.offset / 4096) (contents fcl)
    pub reads : p.pread s.world fd 4096 (pos bd.offset) ≡ some bytes
    pub full : length bytes ≡ 4096

  -- Every file is open under its own descriptor, every stored block is in its file and is on no
  -- free chunk, and two hashes never share a block.
  pub record IsSound (s : State p) : Type 0 where
    pub known :
        (i : ℕ)
        → i < s.cfi.total
        → (fd : ℤ) × (size : ℕ) × (fcl : FreeChunkList) × HasFile s.cfi i fd size fcl
    pub files :
        (i : ℕ) (fd : ℤ) (size : ℕ) (fcl : FreeChunkList)
        → HasFile s.cfi i fd size fcl
        → IsSoundFile size fcl
    pub separate :
        (i j : ℕ) (fd fd' : ℤ)
        → i ≢ j
        → get_elem? s.cfi.fds i ≡ some fd
        → get_elem? s.cfi.fds j ≡ some fd'
        → fd ≢ fd'
    pub placed : (k : Key) (bd : BlockData) → Stored s k bd → IsPlaced s bd
    pub apart :
        (k k' : Key) (bd bd' : BlockData)
        → k ≢ k'
        → Stored s k bd
        → Stored s k' bd'
        → bd.fd_index ≡ bd'.fd_index
        → bd.offset ≢ bd'.offset
