-- ===== src/Fuse/Returns.antt =====
-- `fuse_read` (src/client/agilefs-fuse.c) comes to an end for requests below 2^19 bytes, also one that starts
-- inside a block or past the end of the file.
use agilefs.Prelude.{◌⊎◌, ◌≡◌, ℕ, some, none, length}
use agilefs.Prelude.Int.{ℤ, pos}
use agilefs.Platform.{Key, Platform}
use agilefs.HashDb.{db_slot}
use agilefs.ChunkIo.{State}
use agilefs.Fuse.{hash_offset}

-- A hash of the metafile cannot be read, or is whole and indexes the database.
abbrev pub HasHashes : (p : Platform) → State p → ℤ → Type 0
HasHashes p s fd =
    (i : ℕ)
    → (p.pread s.world fd 16 (pos (hash_offset i)) ≡ none)
      ⊎ ((key : Key) × (p.pread s.world fd 16 (pos (hash_offset i)) ≡ some key)
          × (length key ≡ 16)
          × (db_slot key ≡ some 0))
