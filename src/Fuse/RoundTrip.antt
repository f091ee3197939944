-- ===== src/Fuse/RoundTrip.antt =====
-- A block that `fuse_write` has written is what `fuse_read` reads (src/client/agilefs-fuse.c).
use agilefs.Prelude.{
  ◌⊎◌, inl, inr, ◌≤◌, ◌<◌, ◌≡◌, refl, sym, ap, ◌∙◌, arith, ltb, lt→ltb, le→ltb, ℕ, zero, suc, ◌+◌,
  ◌/◌, ◌%◌, if◌then◌else◌, Bool, true, false, Option, some, none, some-inj, List, [], ◌++◌, length,
  take, drop, replicate, length-replicate, take-all, drop-length, append-nil,
}
use agilefs.Prelude.Int.{ℤ, pos, eqb_ℤ, neg}
use agilefs.Chunks.{Segment}
use agilefs.ChunkFiles.{get_proper_chunk_file}
use agilefs.Platform.{Key, BlockData, Platform, Laws}
use agilefs.HashDb.{db_get}
use agilefs.Md5.{md5}
use agilefs.Md5.Reference.{length-md5}
use agilefs.ChunkIo.{State, put_new_chunk, block_read}
use agilefs.ChunkIo.Sound.{Stored, IsPlaced, IsSound}
use agilefs.ChunkIo.Put.{IsPut, IsForeign, put_new_chunk-IsPut, block_read-IsPlaced}
use agilefs.ChunkIo.Foreign.{beside, beside_db, beside-IsSound, del_chunk_keeps}
use agilefs.Fuse.{
  FileContext, hash_offset, piece, new_data, store_piece, write_piece, write_from, fuse_write,
  fuse_read,
}
use agilefs.Fuse.Read.{IsBlock, HasBlocks, piece-aligned}
use agilefs.Fuse.Aligned.{fuse_read_aligned}

module _ (p : Platform) where
  over-eq :
      (fuel : ℕ) (fd : ℤ) (last i : ℕ) (rest : List ℕ) (key : Key) (malloc : ℕ → Segment)
      (s : State p)
      → last ≤ i
      → write_from p fuel fd last i rest key malloc s ≡ some (true, s)
  unfolding write_from
  over-eq zero fd last i rest key malloc s le = rw (write_from, le→ltb i last le)
  over-eq (suc fuel) fd last i rest key malloc s le = rw (write_from, le→ltb i last le)

  -- The last round.
  last-eq :
      (fuel : ℕ) (fd : ℤ) (last i : ℕ) (rest : List ℕ) (key key' : Key) (malloc : ℕ → Segment)
      (s s' : State p) (goes_on : Bool)
      → i < last
      → last ≤ i + piece last i
      → write_piece p fd i (take (piece last i) rest) key (malloc i) s ≡ some (goes_on, key', s')
      → write_from p (suc fuel) fd last i rest key malloc s ≡ some (goes_on, s')
  unfolding write_from
  last-eq fuel fd last i rest key key' malloc s s' true lt le e =
      rw (write_from, lt→ltb i last lt, e)
        (over-eq fuel fd last (i + piece last i) (drop (piece last i) rest) key' malloc s' le)
  last-eq fuel fd last i rest key key' malloc s s' false lt le e =
      rw (write_from, lt→ltb i last lt, e)

  -- A whole block needs nothing of the old one.
  new_data-whole :
      (key part : List ℕ) (i : ℕ) (s : State p)
      → length part ≡ 4096
      → i % 4096 ≡ 0
      → new_data p key i part s ≡ some part
  unfolding new_data
  new_data-whole key part i s len al =
      let nothing : drop 4096 (replicate {A = ℕ} 4096 0) ≡ [] =
        drop-length (replicate {A = ℕ} 4096 0) {n = 4096} (length-replicate {A = ℕ} 4096 0) in
      let at : 0 + 4096 ≡ 4096 = omega arith in
      rw (new_data, len, al) (ap (λ rest. some (part ++ rest)) nothing ∙ ap some (append-nil part))

  store-eq :
      (fd : ℤ) (i : ℕ) (block : List ℕ) (s after : State p) (code : ℤ)
      → (p.pwrite s.world fd (md5 block) (pos (hash_offset i))).0 ≡ pos 16
      → put_new_chunk p
          (md5 block)
          block
          (record s { world = (p.pwrite s.world fd (md5 block) (pos (hash_offset i))).1 })
        ≡ some (code, after)
      → store_piece p fd i block s ≡ some (eqb_ℤ code (pos 0), md5 block, after)
  unfolding store_piece
  store-eq fd i block s after code whole e = rw (store_piece, whole, e)

  -- A round for a whole block, over a block whose hash `old` is stored.
  round-eq :
      (fd : ℤ) (i : ℕ) (block : List ℕ) (garbage old : Key) (bd : BlockData) (malloc : Segment)
      (s after : State p) (code : ℤ)
      → length block ≡ 4096
      → i % 4096 ≡ 0
      → length garbage ≡ 16
      → length old ≡ 16
      → p.pread s.world fd 16 (pos (hash_offset i)) ≡ some old
      → Stored p s old bd
      → store_piece p fd i block s ≡ some (eqb_ℤ code (pos 0), md5 block, after)
      → write_piece p fd i block garbage malloc s ≡ some (eqb_ℤ code (pos 0), md5 block, after)
  unfolding write_piece
  round-eq fd i block garbage old bd malloc s after code len al g o r st e = rw (
    write_piece,
    r,
    drop-length garbage (g ∙ sym o),
    append-nil old,
    new_data-whole old block i s len al,
    del_chunk_keeps p old bd malloc s st,
    e,
  )

-- The block that is written at `offset` replaces one whose hash is stored, and its own hash is not.
pub record MayWrite (p : Platform) (s : State p) (fi : FileContext) (buf : List ℕ) (offset : ℕ)
    : Type 0 where
  pub sound : IsSound p s
  pub foreign : IsForeign p s fi.fd
  pub block : length buf ≡ 4096
  pub aligned : offset % 4096 ≡ 0
  pub old : Key
  pub old_at : p.pread s.world fi.fd 16 (pos (hash_offset offset)) ≡ some old
  pub old_whole : length old ≡ 16
  pub old_data : BlockData
  pub old_stored : Stored p s old old_data
  pub fresh : db_get p (md5 buf) s.world ≡ some none
  pub file : ℕ
  pub chosen : get_proper_chunk_file s.cfi ≡ some (pos file)
  pub below : file < s.cfi.total
  pub hash_written : (p.pwrite s.world fi.fd (md5 buf) (pos (hash_offset offset))).0 ≡ pos 16

-- The call returned an error, or the size of the block, which is then read at the place.
pub record IsWritten (p : Platform) (fi : FileContext) (buf : List ℕ) (offset : ℕ)
    (m : Option (ℤ × FileContext × State p)) : Type 0 where
  pub code : ℤ
  pub context : FileContext
  pub after : State p
  pub returns : m ≡ some (code, context, after)
  pub sound : IsSound p after
  pub outcome :
      ((code ≡ pos 4096)
        × ((garbage : Key) (out : List ℕ)
            → length garbage ≡ 16
            → length out ≡ 4096
            → fuse_read p context garbage out 4096 offset after ≡ some (pos 4096, buf)))
      ⊎ (code ≡ neg (p.errno after.world))

module _ (p : Platform) (l : Laws p) (s : State p) (fi : FileContext) (garbage : Key) (buf : List ℕ)
    (offset : ℕ) (malloc : ℕ → Segment) (may : MayWrite p s fi buf offset)
    (g : length garbage ≡ 16) where
  abbrev next : State p
  next = beside p l s fi.fd (md5 buf) (hash_offset offset)

  put : IsPut p next (md5 buf) buf (put_new_chunk p (md5 buf) buf next)
  put =
      put_new_chunk-IsPut p l next (md5 buf) buf may.file
        (beside-IsSound p l s fi.fd (md5 buf) (hash_offset offset) may.sound may.foreign) may.block
        (beside_db p l s fi.fd (md5 buf) (hash_offset offset) (md5 buf) ∙ may.fresh) may.chosen
        may.below

  take-all_of : take (piece (offset + 4096) offset) buf ≡ buf
  take-all_of =
      let whole : piece (offset + 4096) offset ≡ 4096 =
        piece-aligned (offset + 4096) offset may.aligned ∙ omega arith in
      rw whole (take-all buf 4096 (omega (arith, may.block)))

  run-eq :
      write_from p 4096 fi.fd (offset + 4096) offset buf garbage malloc s
      ≡ some (eqb_ℤ put.code (pos 0), put.after)
  run-eq =
      let whole : piece (offset + 4096) offset ≡ 4096 =
        piece-aligned (offset + 4096) offset may.aligned ∙ omega arith in
      last-eq p 4095 fi.fd (offset + 4096) offset buf garbage (md5 buf) malloc s put.after
        (eqb_ℤ put.code (pos 0)) (omega arith) (omega arith)
        (ap (λ part. write_piece p fi.fd offset part garbage (malloc offset) s) take-all_of
          ∙ round-eq p fi.fd offset buf garbage may.old may.old_data (malloc offset) s put.after
              put.code may.block may.aligned g may.old_whole may.old_at may.old_stored
              (store-eq p fi.fd offset buf s put.after put.code may.hash_written put.returns))

  write-eq :
      (goes_on : Bool)
      → eqb_ℤ put.code (pos 0) ≡ goes_on
      → fuse_write p fi garbage buf offset malloc s
        ≡ some (
            if goes_on
            then (
              pos 4096,
              record fi {
                st_size = if ltb fi.st_size (offset + 4096) then offset + 4096 else fi.st_size;
              },
              put.after,
            )
            else (neg (p.errno put.after.world), fi, put.after))
  unfolding fuse_write
  write-eq goes_on e = rw (fuse_write, may.block, run-eq, e)

  -- The metafile has the hash of the block.
  hash_at : p.pread put.after.world fi.fd 16 (pos (hash_offset offset)) ≡ some (md5 buf)
  hash_at =
      let sixteen : length (md5 buf) ≡ 16 = length-md5 buf in
      rw sixteen at (
        put.frame fi.fd (hash_offset offset) (md5 buf) may.foreign (
          l.pread-pwrite s.world fi.fd (md5 buf) (hash_offset offset)
            (may.hash_written ∙ ap pos (sym sixteen))))

  written-IsBlock :
      (bd : BlockData)
      → Stored p put.after (md5 buf) bd
      → block_read p (md5 buf) 4096 0 put.after ≡ some (some buf)
      → IsBlock p put.after fi.fd (offset / 4096) buf
  written-IsBlock bd st reads =
      let b : IsPlaced p put.after bd = put.sound.placed (md5 buf) bd st in
      record {
        key = md5 buf;
        bd = bd;
        hash = hash_at;
        whole = length-md5 buf;
        stored = st;
        placed = b;
        content =
            some-inj (some-inj (sym (block_read-IsPlaced p put.after (md5 buf) bd st b) ∙ reads));
      }

  read-eq :
      (context : FileContext) (garbage' : Key) (out : List ℕ)
      → context.fd ≡ fi.fd
      → offset + 4096 ≤ context.st_size
      → IsBlock p put.after fi.fd (offset / 4096) buf
      → length garbage' ≡ 16
      → length out ≡ 4096
      → fuse_read p context garbage' out 4096 offset put.after ≡ some (pos 4096, buf)
  read-eq context garbage' out same inside b g' o =
      let blocks : HasBlocks p put.after context.fd (λ i. buf) 1 (offset / 4096) =
        λ i lo hi. let here : i ≡ offset / 4096 = omega arith in rw (here, same) b in
      fuse_read_aligned p l put.after context garbage' out 4096 offset (λ i. buf) 1 may.aligned
        inside (omega arith) (omega arith) o g' blocks
      ∙ ap (λ bytes. some (pos 4096, take 4096 bytes)) (append-nil buf)
      ∙ ap (λ bytes. some (pos 4096, bytes)) (take-all buf 4096 (omega (arith, may.block)))

  written : IsWritten p fi buf offset (fuse_write p fi garbage buf offset malloc s)
  written = elim put.outcome [
    | inl (done, reads, (bd, st, one)) ↦
        let context = record fi {
          st_size = if ltb fi.st_size (offset + 4096) then offset + 4096 else fi.st_size;
        } in
        record {
          code = pos 4096;
          context = context;
          after = put.after;
          returns = write-eq true (rw done);
          sound = put.sound;
          outcome = inl (
            refl,
            λ garbage' out g' o.
                read-eq context garbage' out refl (ground arith) (written-IsBlock bd st reads) g' o,
          );
        }
    | inr (failed, absent) ↦ record {
      code = neg (p.errno put.after.world);
      context = fi;
      after = put.after;
      returns = write-eq false (rw failed);
      sound = put.sound;
      outcome = inr refl;
    }
  ]

-- `fuse_write` of a whole block at a block boundary, over a block whose hash is stored, where the
-- hash of the new one is not stored yet and is written to the metafile, returns the size or -errno
-- and leaves a sound store; where it returns the size, `fuse_read` of that block gives exactly the
-- bytes that were written. The metafile is not a chunk file, and there is a chunk file for the block.
pub fuse_write-fuse_read :
    (p : Platform) (l : Laws p) (s : State p) (fi : FileContext) (garbage : Key) (buf : List ℕ)
    (offset : ℕ) (malloc : ℕ → Segment)
    → MayWrite p s fi buf offset
    → length garbage ≡ 16
    → IsWritten p fi buf offset (fuse_write p fi garbage buf offset malloc s)
fuse_write-fuse_read p l s fi garbage buf offset malloc may g =
    written p l s fi garbage buf offset malloc may g
