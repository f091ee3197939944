-- ===== src/Fuse/Tests.antt =====
-- Reads of src/client/agilefs-fuse.c from a metafile of zeros, whose every hash is the one of the
-- block that the store has.
use agilefs.Prelude.{
  ℕ, ◌+◌, ◌-◌, ◌<◌, ◌≡◌, refl, arith, some, List, ◌∷◌, replicate, length-replicate, take, zero, suc,
  ap, ◌*◌,
}
use agilefs.Prelude.Int.{pos}
use agilefs.Prelude.{true, false, [], ◌∷◌, none, some, Option, ◌>>=◌}
use agilefs.Prelude.Int.{ℤ}
use agilefs.Chunks.{Segment}
use agilefs.Fuse.{fuse_write, write_from, encode_off, decode_off}
use agilefs.Fuse.Os.{Os, Call, lgetxattr}
use agilefs.Fuse.Meta.{
  round_up, clear_flag, open_flags, read_size, punch_from, fuse_ftruncate, fuse_truncate,
  fuse_unlink, fuse_create, fuse_open, is_negative, fuse_release, fuse_fsync, fuse_getattr,
  fuse_fgetattr,
}
use agilefs.Fuse.Calls.{fill_dir, fuse_readlink, fuse_readdir}
use agilefs.Fuse.Header.{read_size-pwrite}
use agilefs.HashDb.{db_get, db_slot, db_slot_at, hash_to_index}
use agilefs.ChunkIo.Sound.{Stored}
use agilefs.Disk.{disk, disk_laws}
use agilefs.Disk.Bytes.{read_bytes}
use agilefs.Disk.Sound.{store, zeros_key, zeros_block, zeros_placed}
use agilefs.Fuse.{FileContext, fuse_read}
use agilefs.Fuse.Read.{IsBlock, file_bytes}
use agilefs.Prelude.{◌++◌, some-inj, ◌∙◌}
use agilefs.Prelude.Int.{◌-ℤ◌}
use agilefs.Md5.{md5}
use agilefs.ChunkFiles.{get_proper_chunk_file, proper_from, capacity, freed_bytes}
use agilefs.ChunkIo.Put.{IsForeign}
use agilefs.Fuse.RoundTrip.{MayWrite, IsWritten, fuse_write-fuse_read}
use agilefs.Fuse.{hash_offset}
use agilefs.Disk.Sound.{store-IsSound}
use agilefs.Fuse.Aligned.{fuse_read_aligned, fuse_read_past_end}

zeros-Stored : Stored disk store zeros_key zeros_block
unfolding db_get db_slot db_slot_at hash_to_index
zeros-Stored = refl

abbrev zeros : ℕ → List ℕ
zeros b = read_bytes (λ i. 0) 4096 0

zeros_read : (n o : ℕ) → read_bytes (λ i. 0) n o ≡ replicate n 0
zeros_read zero o = refl
zeros_read (suc n) o = ap (λ z. 0 ∷ z) (zeros_read n (o + 1))

IsBlock-at : (b : ℕ) → IsBlock disk store (pos 5) b (zeros b)
IsBlock-at b = record {
  key = zeros_key;
  bd = zeros_block;
  hash = ap some (zeros_read 16 (b * 16 + 16));
  whole = refl;
  stored = zeros-Stored;
  placed = zeros_placed;
  content = refl;
}

abbrev opened : FileContext
opened = record { fd = pos 5; st_size = 5000 }

abbrev garbage : List ℕ
garbage = replicate 16 1

fuse_read_aligned_example :
    fuse_read disk opened garbage (replicate 5000 9) 5000 0 store
    ≡ some (pos 5000, take 5000 (file_bytes zeros 2 0))
fuse_read_aligned_example =
    fuse_read_aligned disk disk_laws store opened garbage (replicate 5000 9) 5000 0 zeros 2 refl
      (omega arith) (omega arith) (omega arith) (length-replicate {A = ℕ} 5000 9) refl
      (λ b lo hi. IsBlock-at b)

fuse_read_past_end_example :
    (out : List ℕ) × (fuse_read disk opened garbage (replicate 4096 9) 4096 4096 store
      ≡ some (pos 4096, out))
    × (5000 - 4096 < 4096)
fuse_read_past_end_example =
    fuse_read_past_end disk disk_laws store opened garbage (replicate 4096 9) 4096 4096 zeros
      (omega arith) refl (omega arith) (omega arith) refl (IsBlock-at 1)

abbrev answer : Call → ℤ
answer (lgetxattr path name) = pos 3
answer c = pos 0

-- An operating system on which the calls return 0, or 3 for an attribute, and every path is a regular file.
abbrev small_os : Os disk
small_os = record {
  call = λ w c. (answer c, w);
  lstat = λ w path. some (record { st_mode = 0x81a4; st_size = pos 9 });
  fstat = λ w fd. some (record { st_mode = 0x81a4; st_size = pos 9 });
  readlink = λ w path n. some (take n (7 ∷ 8 ∷ []));
  read_dir = λ w path. some ((1 ∷ []) ∷ (2 ∷ []) ∷ []);
}

header_whole : (disk.pwrite store.world (pos 5) (encode_off 8 5000) (pos 0)).0 ≡ pos 8
unfolding encode_off
header_whole = refl

size_read_back :
    read_size disk small_os
      (pos 5)
      (pos 77)
      (disk.pwrite store.world (pos 5) (encode_off 8 5000) (pos 0)).1
    ≡ pos 5000
size_read_back =
    read_size-pwrite disk small_os (pos 5) store.world 5000 (pos 77) disk_laws (omega arith)
      header_whole

created : (fuse_create disk small_os [] 0 store.world).0 ≡ pos 0
unfolding fuse_create
created = refl

opens :
    fuse_open disk small_os [] 1 (pos 77) store.world
    ≡ some (pos 0, some (record { fd = pos 0; st_size = 0 }), store.world)
unfolding fuse_open open_flags clear_flag read_size decode_off encode_off
opens = refl

released : (fuse_release disk small_os opened store.world).0 ≡ pos 0
unfolding fuse_release is_negative encode_off
released = refl

synced : (fuse_fsync disk small_os true opened store.world).0 ≡ pos 0
unfolding fuse_fsync encode_off
synced = refl

size_of_path :
    (fuse_getattr disk small_os [] store.world).1
    ≡ some (record { st_mode = 0x81a4; st_size = pos 0 })
unfolding fuse_getattr read_size decode_off encode_off
size_of_path = refl

size_of_file :
    (fuse_fgetattr disk small_os opened store.world).1
    ≡ some (record { st_mode = 0x81a4; st_size = pos 5000 })
unfolding fuse_fgetattr
size_of_file = refl

link_target : (fuse_readlink disk small_os [] (replicate 4 9) store.world).1 ≡ 7 ∷ 8 ∷ 0 ∷ 9 ∷ []
unfolding fuse_readlink
link_target = refl

entries : (fuse_readdir disk small_os [] (λ name. false) store.world).1 ≡ (1 ∷ []) ∷ (2 ∷ []) ∷ []
unfolding fuse_readdir fill_dir
entries = refl

abbrev no_memory : ℕ → Segment
no_memory i = none

nothing_cut :
    fuse_ftruncate disk small_os opened 5000 no_memory store
    ≡ some (
      pos 0,
      opened,
      record store { world = (disk.pwrite store.world (pos 5) (encode_off 8 5000) (pos 0)).1 },
    )
unfolding fuse_ftruncate punch_from round_up
nothing_cut = refl

-- The file has no bytes by its header.
abbrev truncated : Option ℤ
truncated = do (code, s) ← fuse_truncate disk small_os [] 0 no_memory store; some code

truncated_code : truncated ≡ some (pos 0)
unfolding fuse_truncate punch_from round_up read_size decode_off encode_off
truncated_code = refl

abbrev unlinked : Option ℤ
unlinked = do (code, s) ← fuse_unlink disk small_os [] no_memory store; some code

unlinked_code : unlinked ≡ some (pos 0)
unfolding fuse_unlink fuse_truncate punch_from round_up read_size decode_off encode_off
unlinked_code = refl

nothing_written : fuse_write disk opened garbage [] 3 no_memory store ≡ some (pos 0, opened, store)
unfolding fuse_write write_from
nothing_written = refl

-- A block whose MD5 hash begins with four zeros, and so indexes the database.
abbrev block : List ℕ
block = replicate 4088 0 ++ (0xf9 ∷ 0x31 ∷ 0x39 ∷ 0x3f ∷ 0x01 ∷ 0x00 ∷ 0x00 ∷ 0x00 ∷ [])

abbrev block_hash : List ℕ
block_hash =
    0x00 ∷ 0x00 ∷ 0x00 ∷ 0x00 ∷ 0xf0 ∷ 0x8f ∷ 0x7e ∷ 0x1b ∷ 0xad ∷ 0x3b ∷ 0x52 ∷ 0x3a ∷ 0x87 ∷ 0x82
    ∷ 0x67 ∷ 0x6c ∷ []

md5_block : md5 block ≡ block_hash
unfolding md5
md5_block = refl

block_absent : db_get disk block_hash store.world ≡ some none
unfolding db_get db_slot db_slot_at hash_to_index
block_absent = refl

one_file_chosen : get_proper_chunk_file store.cfi ≡ some (pos 0)
unfolding get_proper_chunk_file proper_from capacity freed_bytes ◌-ℤ◌
one_file_chosen = refl

opened-IsForeign : IsForeign disk store (pos 5)
opened-IsForeign zero fd e same = let differ : pos 3 ≡ pos 5 = some-inj e ∙ same in cc
opened-IsForeign (suc i) fd e same = cc

may_write : MayWrite disk store opened block 4096
may_write = record {
  sound = store-IsSound;
  foreign = opened-IsForeign;
  block = refl;
  aligned = refl;
  old = zeros_key;
  old_at = ap some (zeros_read 16 (hash_offset 4096));
  old_whole = refl;
  old_data = zeros_block;
  old_stored = zeros-Stored;
  fresh = rw md5_block block_absent;
  file = 0;
  chosen = one_file_chosen;
  below = omega arith;
  hash_written = rw md5_block refl;
}

fuse_write-fuse_read_example :
    IsWritten disk opened block 4096 (fuse_write disk opened garbage block 4096 (λ i. none) store)
fuse_write-fuse_read_example =
    fuse_write-fuse_read disk disk_laws store opened garbage block 4096 (λ i. none) may_write refl
