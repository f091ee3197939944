-- ===== src/Server/Tests.antt =====
-- Two blocks that begin alike (`test_get_one_chunk` of src/server/agilefs-server.c).
use agilefs.Prelude.{
  ◌≡◌, refl, sym, ap, ◌∙◌, arith, some-inj, ℕ, Option, none, some, List, [], ◌∷◌, ◌++◌, replicate,
}
use agilefs.Prelude.Int.{ℤ, pos, ◌-ℤ◌}
use agilefs.Chunks.{get_first_free_chunk, free_list}
use agilefs.ChunkFiles.{get_proper_chunk_file, proper_from, capacity, freed_bytes}
use agilefs.Platform.{Key, BlockData}
use agilefs.HashDb.{db_get, db_slot, db_slot_at, hash_to_index}
use agilefs.Md5.{md5}
use agilefs.ChunkIo.{
  State, put_new_chunk, block_write, write_where, write_in, allocate, allocate_from, enter_block,
  block_read,
}
use agilefs.ChunkIo.Sound.{Stored, IsSound}
use agilefs.ChunkIo.Put.{IsPut, put_new_chunk-IsPut}
use agilefs.Disk.{disk, disk_laws}
use agilefs.Disk.Sound.{store, store-IsSound}
use agilefs.Server.{test_get_one_chunk}
use agilefs.Server.Loss.{IsLost, get_one_chunk_lem, get-put_loses}

-- 16 bytes whose hash indexes the database.
abbrev head : List ℕ
head =
    0x98 ∷ 0xfd ∷ 0xfb ∷ 0xf7 ∷ 0x00 ∷ 0x00 ∷ 0x00 ∷ 0x00 ∷ 0x00 ∷ 0x00 ∷ 0x00 ∷ 0x00 ∷ 0x00 ∷ 0x00
    ∷ 0x00 ∷ 0x00 ∷ []

abbrev head_hash : Key
head_hash =
    0x00 ∷ 0x00 ∷ 0x00 ∷ 0x00 ∷ 0x61 ∷ 0xf8 ∷ 0x6b ∷ 0x55 ∷ 0x22 ∷ 0xb7 ∷ 0x1b ∷ 0xd0 ∷ 0x2f ∷ 0xc1
    ∷ 0x83 ∷ 0x1d ∷ []

abbrev first_block : List ℕ
first_block = head ++ replicate 4080 0

abbrev next_block : List ℕ
next_block = head ++ replicate 4080 1

abbrev old_buffer : List ℕ
old_buffer = replicate 4096 9

first_hash : (test_get_one_chunk (some first_block) old_buffer []).2 ≡ head_hash
unfolding md5
first_hash = ap (λ r. r.2) (get_one_chunk_lem first_block old_buffer [] refl refl) ∙ refl

abbrev after : Option (ℤ × State disk) → State disk
after none = store
after (some (_, s)) = s

abbrev with_first : State disk
with_first = after (put_new_chunk disk head_hash first_block store)

puts_first : put_new_chunk disk head_hash first_block store ≡ some (pos 0, with_first)
unfolding db_get db_slot db_slot_at hash_to_index get_proper_chunk_file proper_from capacity
    freed_bytes ◌-ℤ◌ put_new_chunk block_write write_where write_in allocate allocate_from
    enter_block get_first_free_chunk free_list
puts_first = refl

abbrev first_data : BlockData
first_data = record { fd_index = 0; ref_count = 1; offset = 4096 }

first-Stored : Stored disk with_first head_hash first_data
unfolding db_get db_slot db_slot_at hash_to_index get_proper_chunk_file proper_from capacity
    freed_bytes ◌-ℤ◌ put_new_chunk block_write write_where write_in allocate allocate_from
    enter_block get_first_free_chunk free_list
first-Stored = refl

first_reads : block_read disk head_hash 4096 0 with_first ≡ some (some first_block)
unfolding db_get db_slot db_slot_at hash_to_index get_proper_chunk_file proper_from capacity
    freed_bytes ◌-ℤ◌ put_new_chunk block_write write_where write_in allocate allocate_from
    enter_block get_first_free_chunk free_list block_read
first_reads = refl

chosen : get_proper_chunk_file store.cfi ≡ some (pos 0)
unfolding get_proper_chunk_file proper_from capacity freed_bytes ◌-ℤ◌
chosen = refl

absent : db_get disk head_hash store.world ≡ some none
unfolding db_get db_slot db_slot_at hash_to_index
absent = refl

with_first-IsSound : IsSound disk with_first
with_first-IsSound =
    let r : IsPut disk store head_hash first_block
        (put_new_chunk disk head_hash first_block store) =
      put_new_chunk-IsPut disk disk_laws store head_hash first_block 0 store-IsSound refl absent
        chosen (omega arith) in
    let same : r.after ≡ with_first = ap (λ x. x.1) (some-inj (sym r.returns ∙ puts_first)) in
    rw (← same) (r.sound)

get-put_loses_example :
    IsLost disk (test_get_one_chunk (some next_block) old_buffer []).2 first_block (
      put_new_chunk disk
        (test_get_one_chunk (some next_block) old_buffer []).2
        next_block
        with_first)
get-put_loses_example =
    get-put_loses disk disk_laws with_first first_block next_block old_buffer [] first_data
      with_first-IsSound refl refl refl refl (rw first_hash first-Stored)
      (rw first_hash first_reads) (omega arith)

end_of_file : test_get_one_chunk (some []) old_buffer [] ≡ (pos 0, old_buffer, [])
unfolding test_get_one_chunk
end_of_file = refl
