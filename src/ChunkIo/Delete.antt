-- ===== src/ChunkIo/Delete.antt =====
-- `del_chunk` (src/server/chunks-io.c), whose test of the return of `db_get` is the wrong way round.
use agilefs.Prelude.{
  ℕ, ◌*◌, ◌<◌, ◌≡◌, ◌≢◌, refl, ap, ◌∙◌, arith, Option, some, none, ◌∷◌, get_elem?, set,
  get_elem?-set_self, lt-of-get_elem?,
}
use agilefs.Prelude.Int.{ℤ, pos}
use agilefs.Chunks.{Segment, FreeChunkList, add_free_chunk}
use agilefs.Chunks.Stack.{contents, count, IsValid, Leaves}
use agilefs.Chunks.Push.{Granted, add_free_chunk_pushes}
use agilefs.Platform.{Key, BlockData, Platform, Laws}
use agilefs.HashDb.{db_get, db_get-db_read, db_get_at, db_get_cong, db_del_at}
use agilefs.ChunkIo.{State, del_chunk, drop_block}
use agilefs.ChunkIo.Sound.{HasFile, Stored, IsSound}

-- What `del_chunk` leaves for a hash that is not stored.
pub record FreesBlockZero (p : Platform) (s : State p) (key : Key) (fcl : FreeChunkList)
    (m : Option (ℤ × State p)) : Type 0 where
  pub code : ℤ
  pub after : State p
  pub fcl' : FreeChunkList
  pub returns : m ≡ some (code, after)
  pub valid : IsValid fcl'
  pub freed : contents fcl' ≡ 0 ∷ contents fcl
  pub fcl_at : get_elem? after.cfi.fcls 0 ≡ some fcl'
  pub same_fds : after.cfi.fds ≡ s.cfi.fds
  pub same_sizes : after.cfi.cur_size ≡ s.cfi.cur_size
  pub still_absent : db_get p key after.world ≡ some none
  pub others : (k : Key) (bd : BlockData) → k ≢ key → Stored p s k bd → Stored p after k bd

-- `del_chunk` of a hash that is not stored, in a sound store, puts block 0 of file 0 on the free
-- list of that file, whoever owns the block, and keeps the stored hashes; the list has room, and an
-- allocation that it needs succeeds.
pub del_chunk_backwards :
    (p : Platform)
    → Laws p
    → (s : State p) (key : Key) (malloc : Segment) (fd : ℤ) (size : ℕ) (fcl : FreeChunkList)
    → IsSound p s
    → HasFile s.cfi 0 fd size fcl
    → db_get p key s.world ≡ some none
    → count fcl.current < 1024 * 1024
    → Granted fcl malloc
    → FreesBlockZero p s key fcl (del_chunk p key malloc s)
del_chunk_backwards p l s key malloc fd size fcl sound h absent room granted =
    let pushed : Leaves (add_free_chunk fcl 0 malloc) (pos 0) (0 ∷ contents fcl) =
      add_free_chunk_pushes fcl 0 malloc ((sound.files 0 fd size fcl h).valid) room (omega arith)
        granted in
    let facts = db_get-db_read p key s.world none absent in
    record {
      code = (p.db_remove s.world 0 key).0;
      after = record {
        cfi = record s.cfi { fcls = set s.cfi.fcls 0 pushed.after };
        world = (p.db_remove s.world 0 key).1;
      };
      fcl' = pushed.after;
      returns =
          unfold del_chunk drop_block in
          rw (absent, h.fcl_at, pushed.returns, db_del_at p key s.world facts.0);
      valid = pushed.valid;
      freed = pushed.holds;
      fcl_at = get_elem?-set_self s.cfi.fcls 0 pushed.after (lt-of-get_elem? _ 0 _ h.fcl_at);
      same_fds = refl;
      same_sizes = refl;
      still_absent =
          db_get_at p key _ facts.0 ∙ ap some (l.db_read-db_remove_none s.world 0 key facts.1);
      others =
          λ k bd ne st. db_get_cong p k s.world _ (l.db_read-db_remove_ne s.world 0 key k ne) ∙ st;
    }
