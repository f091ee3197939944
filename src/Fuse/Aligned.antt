-- ===== src/Fuse/Aligned.antt =====
-- What `fuse_read` (src/client/agilefs-fuse.c) returns for a request that starts at a block: inside
-- the file, and past its end.
use agilefs.Prelude.{
  ℕ, suc, ◌+◌, ◌-◌, ◌*◌, ◌/◌, ◌%◌, ◌≤◌, ◌<◌, ◌^◌, ◌≡◌, ap, ap₂, ◌∙◌, arith, some, List, [], length,
  take, lt→ltb, le→ltb, min,
}
use agilefs.Prelude.Int.{pos}
use agilefs.Platform.{Key, Platform, Laws}
use agilefs.ChunkIo.{State}
use agilefs.Fuse.{FileContext, fuse_read, read_from, overlay}
use agilefs.Fuse.Read.{IsBlock, HasBlocks, file_bytes, read_from_lem, read_from_done, round}

module _ (p : Platform) (l : Laws p) (s : State p) (fi : FileContext) (garbage : Key) (buf : List ℕ)
    (size offset : ℕ) (blk : ℕ → List ℕ) where
  fuse_read_inside :
      (k : ℕ)
      → offset % 4096 ≡ 0
      → offset + size ≤ fi.st_size
      → size ≤ 4096 * k
      → size < 2 ^ 31
      → length buf ≡ size
      → length garbage ≡ 16
      → HasBlocks p s fi.fd blk k (offset / 4096)
      → fuse_read p fi garbage buf size offset s
        ≡ some (pos size, take size (file_bytes blk k (offset / 4096)))
  fuse_read_inside k al inside hk fits len o bs =
      unfold fuse_read in
      rw (le→ltb fi.st_size (offset + size) inside) (
        ap₂ (λ (j e : ℕ). read_from p j fi.fd size offset e offset garbage (pos 0) buf s)
          (let fuel : offset + size - offset ≡ size = omega arith in fuel)
          (let end : offset + size ≡ size + offset = omega arith in end)
        ∙ read_from_lem p l s fi.fd size offset blk k size offset size 0 garbage [] buf bs al
            (omega arith) (omega arith) hk (omega arith) (omega arith) (omega arith) len o
        ∙ ap (λ (j : ℕ). some (pos j, take size (file_bytes blk k (offset / 4096))))
            (let sum : 0 + size ≡ size = omega arith in sum))

  fuse_read_beyond :
      0 < fi.st_size - offset
      → offset % 4096 ≡ 0
      → fi.st_size < offset + size
      → size ≤ 4096
      → length garbage ≡ 16
      → IsBlock p s fi.fd (offset / 4096) (blk (offset / 4096))
      → (out : List ℕ) × (fuse_read p fi garbage buf size offset s ≡ some (pos size, out))
  fuse_read_beyond some_left al past small o b = (
    overlay buf (offset - offset) (take (min 4096 (size + offset - offset)) (blk (offset / 4096))),
    unfold fuse_read in
        rw (lt→ltb fi.st_size (offset + size) past) (
          ap (λ (j : ℕ). read_from p j fi.fd size offset fi.st_size offset garbage (pos 0) buf s)
            (let fuel : fi.st_size - offset ≡ suc (fi.st_size - offset - 1) = omega arith in fuel)
          ∙ round p l s fi.fd size offset blk (fi.st_size - offset - 1) fi.st_size offset 0 garbage
              buf b al (omega arith) (omega arith) o
          ∙ read_from_done p l s fi.fd size offset blk (fi.st_size - offset - 1) fi.st_size _ _ _ _
              (omega arith)
          ∙ ap
              (λ (j : ℕ). some (
                pos j,
                overlay buf (offset - offset)
                    (take (min 4096 (size + offset - offset)) (blk (offset / 4096))),
              ))
              (let all : 0 + min 4096 (size + offset - offset) ≡ size = omega arith in all)),
  )

-- A read of fewer than 2^31 bytes that starts at a block boundary and lies inside the file returns its size and fills the
-- buffer with exactly the bytes of the file from there, read through the hashes of the metafile,
-- where the metafile has hashes of stored blocks for the `k` blocks that the request touches.
pub fuse_read_aligned :
    (p : Platform) (l : Laws p) (s : State p) (fi : FileContext) (garbage : Key) (buf : List ℕ)
    (size offset : ℕ) (blk : ℕ → List ℕ) (k : ℕ)
    → offset % 4096 ≡ 0
    → offset + size ≤ fi.st_size
    → size ≤ 4096 * k
    → size < 2 ^ 31
    → length buf ≡ size
    → length garbage ≡ 16
    → HasBlocks p s fi.fd blk k (offset / 4096)
    → fuse_read p fi garbage buf size offset s
      ≡ some (pos size, take size (file_bytes blk k (offset / 4096)))
fuse_read_aligned = fuse_read_inside

-- A read of at most 4096 bytes that starts at a block boundary, inside the file, and reaches past the
-- end of the file returns the size that was asked for, more than the file has from there, where the
-- metafile has the hash of a stored block for the block it starts in.
pub fuse_read_past_end :
    (p : Platform) (l : Laws p) (s : State p) (fi : FileContext) (garbage : Key) (buf : List ℕ)
    (size offset : ℕ) (blk : ℕ → List ℕ)
    → offset < fi.st_size
    → offset % 4096 ≡ 0
    → fi.st_size < offset + size
    → size ≤ 4096
    → length garbage ≡ 16
    → IsBlock p s fi.fd (offset / 4096) (blk (offset / 4096))
    → (out : List ℕ) × (fuse_read p fi garbage buf size offset s ≡ some (pos size, out))
      × (fi.st_size - offset < size)
fuse_read_past_end p l s fi garbage buf size offset blk lt al past small o b =
    let (out, e) =
      fuse_read_beyond p l s fi garbage buf size offset blk (omega arith) al past small o b in
    (out, e, omega arith)
