-- ===== src/Platform.antt =====
-- What the storage code calls and the repository does not implement: `pread`, `pwrite` and `fsync`
-- of the operating system with its `errno`, the `get`, `put` and `del` of a Berkeley DB handle (called in
-- src/server/db_ops.c), and `write_hash_db`, which src/server/chunks-io.h declares and no file
-- defines. Their state is one world; their laws say what the code relies on.
use agilefs.Prelude.{ℕ, ◌+◌, ◌≤◌, ◌≡◌, ◌≢◌, ◌⊎◌, Option, some, none, List, length, take, drop}
use agilefs.Prelude.Int.{ℤ, pos}

-- `hash_key`: the bytes of a hash.
abbrev pub Key : Type 0
Key = List ℕ

-- `struct block_data` (src/server/db_ops.h).
pub record BlockData : Type 0 where
  pub fd_index : ℕ
  pub ref_count : ℕ
  pub offset : ℕ

-- `DB` handles are numbered as in `dbp`. A database returns 0 or an error code.
pub record Platform : Type 1 where
  pub World : Type 0
  pub errno : World → ℕ
  -- The bytes read, or `none` for -1.
  pub pread : World → ℤ → ℕ → ℤ → Option (List ℕ)
  pub pwrite : World → ℤ → List ℕ → ℤ → ℤ × World
  pub fsync : World → ℤ → ℤ
  pub db_read : World → ℕ → Key → Option BlockData
  pub db_write : World → ℕ → Key → BlockData → ℤ × World
  pub db_remove : World → ℕ → Key → ℤ × World
  -- The key, the offset and the number of the chunk file.
  pub write_hash_db : World → Key → ℕ → ℕ → ℤ × World

-- The ranges `[a, a + m)` and `[b, b + n)` have no byte in common.
abbrev pub Disjoint : ℕ → ℕ → ℕ → ℕ → Type 0
Disjoint a m b n = (a + m ≤ b) ⊎ (b + n ≤ a)

module _ (p : Platform) where
  open p use {World, pread, pwrite, db_read, db_write, db_remove, write_hash_db}

  -- A write of a whole block is read back; a write touches only its range (where it was readable
  -- before), and not the databases. A part of a range that is read whole is read as that part. The databases are maps, changed at one key when the call
  -- returns 0 and not at all otherwise; they are not the chunk files. `write_hash_db` enters a block
  -- with one reference, in the one database that there is.
  pub record Laws : Type 0 where
    pub pread-pwrite :
        (w : World) (fd : ℤ) (buf : List ℕ) (o : ℕ)
        → (pwrite w fd buf (pos o)).0 ≡ pos (length buf)
        → pread (pwrite w fd buf (pos o)).1 fd (length buf) (pos o) ≡ some buf
    pub pread-pwrite_apart :
        (w : World) (fd fd' : ℤ) (buf old : List ℕ) (o o' : ℕ)
        → (fd ≢ fd') ⊎ Disjoint o (length buf) o' (length old)
        → pread w fd' (length old) (pos o') ≡ some old
        → pread (pwrite w fd buf (pos o)).1 fd' (length old) (pos o') ≡ some old
    pub pread-part :
        (w : World) (fd : ℤ) (old : List ℕ) (m o a n : ℕ)
        → pread w fd m (pos o) ≡ some old
        → length old ≡ m
        → a + n ≤ m
        → pread w fd n (pos (o + a)) ≡ some (take n (drop a old))
    pub db_read-pwrite :
        (w : World) (fd : ℤ) (buf : List ℕ) (o : ℤ) (i : ℕ) (k : Key)
        → db_read (pwrite w fd buf o).1 i k ≡ db_read w i k
    pub db_read-db_write :
        (w : World) (i : ℕ) (k : Key) (bd : BlockData)
        → (db_write w i k bd).0 ≡ pos 0
        → db_read (db_write w i k bd).1 i k ≡ some bd
    pub db_read-db_write_failed :
        (w : World) (i : ℕ) (k : Key) (bd : BlockData)
        → (db_write w i k bd).0 ≢ pos 0
        → db_read (db_write w i k bd).1 i k ≡ db_read w i k
    pub db_read-db_write_ne :
        (w : World) (i : ℕ) (k k' : Key) (bd : BlockData)
        → k' ≢ k
        → db_read (db_write w i k bd).1 i k' ≡ db_read w i k'
    pub pread-db_write :
        (w : World) (i : ℕ) (k : Key) (bd : BlockData) (fd : ℤ) (n : ℕ) (o : ℤ)
        → pread (db_write w i k bd).1 fd n o ≡ pread w fd n o
    pub db_read-db_remove_ne :
        (w : World) (i : ℕ) (k k' : Key)
        → k' ≢ k
        → db_read (db_remove w i k).1 i k' ≡ db_read w i k'
    pub db_read-db_remove_none :
        (w : World) (i : ℕ) (k : Key)
        → db_read w i k ≡ none
        → db_read (db_remove w i k).1 i k ≡ none
    pub pread-db_remove :
        (w : World) (i : ℕ) (k : Key) (fd : ℤ) (n : ℕ) (o : ℤ)
        → pread (db_remove w i k).1 fd n o ≡ pread w fd n o
    pub db_read-write_hash_db :
        (w : World) (k : Key) (o f : ℕ)
        → (write_hash_db w k o f).0 ≡ pos 0
        → db_read (write_hash_db w k o f).1 0 k
          ≡ some (record { fd_index = f; ref_count = 1; offset = o })
    pub db_read-write_hash_db_failed :
        (w : World) (k : Key) (o f i : ℕ)
        → (write_hash_db w k o f).0 ≢ pos 0
        → db_read (write_hash_db w k o f).1 i k ≡ db_read w i k
    pub db_read-write_hash_db_ne :
        (w : World) (k k' : Key) (o f i : ℕ)
        → k' ≢ k
        → db_read (write_hash_db w k o f).1 i k' ≡ db_read w i k'
    pub pread-write_hash_db :
        (w : World) (k : Key) (o f : ℕ) (fd : ℤ) (n : ℕ) (o' : ℤ)
        → pread (write_hash_db w k o f).1 fd n o' ≡ pread w fd n o'
