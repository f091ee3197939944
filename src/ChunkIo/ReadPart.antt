-- ===== src/ChunkIo/ReadPart.antt =====
-- `block_read` of a part of a stored block (src/server/chunks-io.c).
use agilefs.Prelude.{
  ℕ, ◌+◌, ◌≤◌, ◌≡◌, ap, ◌∙◌, inl, inr, Option, Option-cases, none, some, List, take, drop, length,
  refl, arith,
}
use agilefs.Prelude.Int.{ℤ, pos, pos_part, neg_part}
use agilefs.HashDb.{db_slot, db_get_at}
use agilefs.Platform.{Key, BlockData, Platform, Laws}
use agilefs.ChunkIo.{State, block_read, read_code}
use agilefs.ChunkIo.Sound.{Stored, IsPlaced, IsSound}

-- `block_read` of `n` bytes from byte `a` of a stored block, both inside the block, returns
-- exactly those bytes of it.
pub block_read_part :
    (p : Platform)
    → Laws p
    → (s : State p) (k : Key) (bd : BlockData) (a n : ℕ) → Stored p s k bd
    → (b : IsPlaced p s bd) → a + n ≤ 4096
    → block_read p k n a s ≡ some (some (take n (drop a b.bytes)))
unfolding block_read
block_read_part p l s k bd a n st b h =
    rw (st, b.file.fd_at, l.pread-part s.world b.fd b.bytes 4096 bd.offset a n b.reads b.full h)

-- `pread` gives no more bytes than it was asked for.
abbrev pub IsShort : Platform → Type 0
IsShort p =
    (w : p.World) (fd : ℤ) (n : ℕ) (o : ℤ) (got : List ℕ)
    → p.pread w fd n o ≡ some got
    → length got ≤ n

read_code-bounds :
    (got : Option (List ℕ)) (n : ℕ)
    → ((bytes : List ℕ) → got ≡ some bytes → length bytes ≤ n)
    → (pos_part (read_code got) ≤ n) × (neg_part (read_code got) ≤ 1)
read_code-bounds none n h = (omega arith, omega arith)
read_code-bounds (some bytes) n h = (h bytes refl, omega arith)

-- In a sound store a read faults for no hash that indexes the database, and returns -1 or at most
-- as many bytes as it was asked for.
pub block_read-returns :
    (p : Platform) (s : State p) (sound : IsSound p s) (key : Key) (n a : ℕ)
    → db_slot key ≡ some 0
    → IsShort p
    → (got : Option (List ℕ)) × (block_read p key n a s ≡ some got)
      × (pos_part (read_code got) ≤ n)
      × (neg_part (read_code got) ≤ 1)
unfolding block_read
block_read-returns p s sound key n a slot short = elim (Option-cases (p.db_read s.world 0 key)) [
  | inl absent ↦
      (none, rw (block_read, db_get_at p key s.world slot, absent), omega arith, omega arith)
  | inr (bd, found) ↦
      let st : Stored p s key bd = db_get_at p key s.world slot ∙ ap some found in
      let b : IsPlaced p s bd = sound.placed key bd st in
      let (most, least) =
        read_code-bounds (p.pread s.world b.fd n (pos (bd.offset + a))) n
          (short s.world b.fd n (pos (bd.offset + a))) in
      (p.pread s.world b.fd n (pos (bd.offset + a)), rw (block_read, st, b.file.fd_at), most, least)
]
