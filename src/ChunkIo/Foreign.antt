-- ===== src/ChunkIo/Foreign.antt =====
-- The store (src/server/chunks-io.c) beside a file that is not one of its own, the metafile of the
-- client.
use agilefs.Prelude.{ℕ, ◌≡◌, inl, sym, ◌∙◌, some, List}
use agilefs.Prelude.Int.{ℤ, pos}
use agilefs.Chunks.{Segment}
use agilefs.Platform.{Key, BlockData, Platform, Laws}
use agilefs.HashDb.{db_get, db_get_cong}
use agilefs.ChunkIo.{State, del_chunk}
use agilefs.ChunkIo.Sound.{Stored, IsPlaced, IsSound}
use agilefs.ChunkIo.Put.{IsForeign}

-- `del_chunk` of a hash that is stored changes nothing.
pub del_chunk_keeps :
    (p : Platform) (key : Key) (bd : BlockData) (malloc : Segment) (s : State p)
    → Stored p s key bd
    → del_chunk p key malloc s ≡ some (pos 0, s)
unfolding del_chunk
del_chunk_keeps p key bd malloc s st = rw st

module _ (p : Platform) (l : Laws p) (s : State p) (fd : ℤ) (bytes : List ℕ) (o : ℕ) where
  abbrev pub beside : State p
  beside = record s { world = (p.pwrite s.world fd bytes (pos o)).1 }

  pub beside_db : (k : Key) → db_get p k beside.world ≡ db_get p k s.world
  beside_db k = db_get_cong p k s.world beside.world (l.db_read-pwrite s.world fd bytes (pos o) 0 k)

  pub beside-IsSound : IsSound p s → IsForeign p s fd → IsSound p beside
  beside-IsSound sound foreign = record {
    known = sound.known;
    files = sound.files;
    separate = sound.separate;
    placed = λ k bd st.
        let b : IsPlaced p s bd = sound.placed k bd (sym (beside_db k) ∙ st) in
        record {
          fd = b.fd;
          size = b.size;
          fcl = b.fcl;
          bytes = b.bytes;
          file = b.file;
          inside = b.inside;
          aligned = b.aligned;
          not_free = b.not_free;
          reads = rw b.full at (
              l.pread-pwrite_apart s.world fd b.fd bytes b.bytes o bd.offset
                (inl (λ e. foreign bd.fd_index b.fd b.file.fd_at (sym e))) (rw b.full (b.reads)));
          full = b.full;
        };
    apart = λ k k' bd bd' ne st st'.
        sound.apart k k' bd bd' ne (sym (beside_db k) ∙ st) (sym (beside_db k') ∙ st');
  }
