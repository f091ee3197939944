-- ===== src/ChunkIo/Tests.antt =====
-- src/server/chunks-io.c on a store that runs, with one block of zeros.
use agilefs.Prelude.{
  sym, ◌∙◌, Bool-cases, inl, inr, some-inj, none-ne-some, [], if◌then◌else◌, ℕ, ◌≡◌, refl, arith,
  Option, some, none, List, ◌∷◌, replicate, take, drop, length-replicate,
}
use agilefs.Prelude.Int.{ℤ, pos, ◌-ℤ◌}
use agilefs.Chunks.{
  Segment, empty_list, add_free_chunk, add_at, new_segment, store_chunk, set_free_list, segment_at,
  get_first_free_chunk, free_list,
}
use agilefs.Chunks.Push.{Granted}
use agilefs.ChunkFiles.{get_proper_chunk_file, proper_from, capacity, freed_bytes}
use agilefs.Platform.{Key}
use agilefs.HashDb.{db_get, db_del, db_slot, db_slot_at, hash_to_index}
use agilefs.ChunkIo.{
  State, put_new_chunk, block_read, del_chunk, drop_block, block_write, write_where, write_in,
  allocate, allocate_from, enter_block,
}
use agilefs.ChunkIo.Sound.{Stored}
use agilefs.ChunkIo.Refine.{
  Map, Shows, Refines, Puts, no_puts, a_put, map_puts, IsMap, put_new_chunk-Refines,
}
use agilefs.ChunkIo.{add_reference}
use agilefs.HashDb.{db_put, db_get_at}
use agilefs.Disk.{same_key, same_key→eq}
use agilefs.ChunkIo.Put.{block_read-IsPlaced, IsPut, put_new_chunk-IsPut}
use agilefs.ChunkIo.Reference.{IsShared, put_new_chunk-IsShared}
use agilefs.ChunkIo.ReadPart.{block_read_part}
use agilefs.ChunkIo.Delete.{FreesBlockZero, del_chunk_backwards}
use agilefs.Prelude.{zero, suc, ◌<◌, ◌↔◌, get_elem?}
use agilefs.ChunkIo.{sync_chunk_data}
use agilefs.ChunkIo.Sync.{sync_chunk_data_warns}
use agilefs.ChunkIo.Sound.{In}
use agilefs.ChunkIo.Loss.{del_chunk_loses_block}
use agilefs.Disk.{disk, disk_laws}
use agilefs.Disk.Bytes.{read_bytes}
use agilefs.Disk.Sound.{store, store-IsSound, zeros_key, zeros_block, zeros_placed, first_file}

-- A hash and a block that the store does not have.
abbrev new_key : Key
new_key = 0 ∷ 0 ∷ 0 ∷ 0 ∷ replicate 12 7

abbrev other_key : Key
other_key = 0 ∷ 0 ∷ 0 ∷ 0 ∷ replicate 12 9

abbrev sevens : List ℕ
sevens = replicate 4096 7

zeros-Stored : Stored disk store zeros_key zeros_block
unfolding db_get db_slot db_slot_at hash_to_index
zeros-Stored = refl

new_absent : db_get disk new_key store.world ≡ some none
unfolding db_get db_slot db_slot_at hash_to_index
new_absent = refl

chosen : get_proper_chunk_file store.cfi ≡ some (pos 0)
unfolding get_proper_chunk_file proper_from capacity freed_bytes ◌-ℤ◌
chosen = refl

put_new_chunk-IsPut_example :
    IsPut disk store new_key sevens (put_new_chunk disk new_key sevens store)
put_new_chunk-IsPut_example =
    put_new_chunk-IsPut disk disk_laws store new_key sevens 0 store-IsSound
      (length-replicate {A = ℕ} 4096 7) new_absent chosen (omega arith)

put_new_chunk-IsShared_example :
    IsShared disk store zeros_key zeros_block (put_new_chunk disk zeros_key sevens store)
put_new_chunk-IsShared_example =
    put_new_chunk-IsShared disk disk_laws store zeros_key zeros_block sevens store-IsSound
      zeros-Stored (omega arith)

block_read_part_example :
    block_read disk zeros_key 3 5 store ≡ some (some (take 3 (drop 5 (read_bytes (λ i. 0) 4096 0))))
block_read_part_example =
    block_read_part disk disk_laws store zeros_key zeros_block 5 3 zeros-Stored zeros_placed
      (omega arith)

abbrev segment : Segment
segment = some (replicate 1024 0)

segment-Granted : Granted empty_list segment
segment-Granted = λ full. (replicate 1024 0, refl, length-replicate {A = ℕ} 1024 0)

frees_block_zero :
    FreesBlockZero disk store new_key empty_list (del_chunk disk new_key segment store)
frees_block_zero =
    del_chunk_backwards disk disk_laws store new_key segment (pos 3) 4096 empty_list store-IsSound
      first_file new_absent (omega arith) segment-Granted

-- The store after `del_chunk` of a hash that it does not have, and after a new block.
abbrev after : Option (ℤ × State disk) → State disk
after none = store
after (some (_, s)) = s

abbrev deleted : State disk
deleted = after (del_chunk disk other_key segment store)

abbrev overwritten : State disk
overwritten = after (put_new_chunk disk new_key sevens deleted)

other_absent : db_get disk other_key store.world ≡ some none
unfolding db_get db_slot db_slot_at hash_to_index
other_absent = refl

deletes : del_chunk disk other_key segment store ≡ some (pos 0, deleted)
unfolding del_chunk drop_block add_free_chunk add_at new_segment store_chunk set_free_list
    segment_at db_get db_del db_slot db_slot_at hash_to_index
deletes = refl

new_still_absent : db_get disk new_key deleted.world ≡ some none
unfolding del_chunk drop_block add_free_chunk add_at new_segment store_chunk set_free_list
    segment_at db_get db_del db_slot db_slot_at hash_to_index
new_still_absent = refl

chosen_again : get_proper_chunk_file deleted.cfi ≡ some (pos 0)
unfolding del_chunk drop_block add_free_chunk add_at new_segment store_chunk set_free_list
    segment_at db_get db_del db_slot db_slot_at hash_to_index get_proper_chunk_file proper_from
    capacity freed_bytes ◌-ℤ◌
chosen_again = refl

puts : put_new_chunk disk new_key sevens deleted ≡ some (pos 0, overwritten)
unfolding del_chunk drop_block add_free_chunk add_at new_segment store_chunk set_free_list
    segment_at db_get db_del db_slot db_slot_at hash_to_index get_proper_chunk_file proper_from
    capacity freed_bytes ◌-ℤ◌ put_new_chunk block_write write_where write_in allocate allocate_from
    enter_block get_first_free_chunk free_list
puts = refl

del_chunk_loses_block_example : block_read disk zeros_key 4096 0 overwritten ≡ some (some sevens)
del_chunk_loses_block_example =
    del_chunk_loses_block disk disk_laws store deleted overwritten other_key new_key zeros_key
      zeros_block sevens (pos 3) 4096 empty_list segment (pos 0) store-IsSound first_file
      (omega arith) segment-Granted other_absent deletes new_still_absent chosen_again
      (length-replicate {A = ℕ} 4096 7) puts zeros-Stored refl refl

file_open : (i : ℕ) → i < 1 → get_elem? store.cfi.fds i ≡ some (pos 3)
file_open zero lt = refl
file_open (suc i) lt = absurd (omega arith)

sync_chunk_data_warns_example :
    (warned : List ℕ) × (sync_chunk_data disk store ≡ some (pos 0, warned))
    × ((j : ℕ) → In j warned ↔ ((j < 1) × (disk.fsync store.world (pos 3) ≡ pos 0)))
sync_chunk_data_warns_example = sync_chunk_data_warns disk store (λ i. pos 3) file_open

-- The map of the store, and two puts of a new block.
abbrev zeros_map : Map
zeros_map k = if same_key k zeros_key then some (1, read_bytes (λ i. 0) 4096 0) else none

store-Refines : Refines disk store zeros_map
store-Refines k slot = elim (Bool-cases (same_key k zeros_key)) [
  | inl e ↦
      let here : Shows disk store zeros_key (some (1, read_bytes (λ i. 0) 4096 0)) = (
        (zeros_block, zeros-Stored, refl),
        block_read-IsPlaced disk store zeros_key zeros_block zeros-Stored zeros_placed,
      ) in
      rw e (rw (same_key→eq k zeros_key e) here)
  | inr e ↦ rw e (db_get_at disk k store.world slot ∙ rw e)
]

abbrev put_once : State disk
put_once = after (put_new_chunk disk new_key sevens store)

abbrev put_twice : State disk
put_twice = after (put_new_chunk disk new_key sevens put_once)

new_slot : db_slot new_key ≡ some 0
unfolding db_slot db_slot_at hash_to_index
new_slot = refl

puts_once : put_new_chunk disk new_key sevens store ≡ some (pos 0, put_once)
unfolding db_get db_slot db_slot_at hash_to_index get_proper_chunk_file proper_from capacity
    freed_bytes ◌-ℤ◌ put_new_chunk block_write write_where write_in allocate allocate_from
    enter_block get_first_free_chunk free_list
puts_once = refl

now_stored : Stored disk put_once new_key (record { fd_index = 0; ref_count = 1; offset = 4096 })
unfolding db_get db_slot db_slot_at hash_to_index get_proper_chunk_file proper_from capacity
    freed_bytes ◌-ℤ◌ put_new_chunk block_write write_where write_in allocate allocate_from
    enter_block get_first_free_chunk free_list
now_stored = refl

chosen_then : get_proper_chunk_file put_once.cfi ≡ some (pos 0)
unfolding db_get db_slot db_slot_at hash_to_index get_proper_chunk_file proper_from capacity
    freed_bytes ◌-ℤ◌ put_new_chunk block_write write_where write_in allocate allocate_from
    enter_block get_first_free_chunk free_list
chosen_then = refl

one_file_then : put_once.cfi.total ≡ 1
unfolding db_get db_slot db_slot_at hash_to_index get_proper_chunk_file proper_from capacity
    freed_bytes ◌-ℤ◌ put_new_chunk block_write write_where write_in allocate allocate_from
    enter_block get_first_free_chunk free_list
one_file_then = refl

puts_twice : put_new_chunk disk new_key sevens put_once ≡ some (pos 0, put_twice)
unfolding db_get db_put db_slot db_slot_at hash_to_index get_proper_chunk_file proper_from capacity
    freed_bytes ◌-ℤ◌ put_new_chunk add_reference block_write write_where write_in allocate
    allocate_from enter_block get_first_free_chunk free_list
puts_twice = refl

two-Puts : Puts disk store ((new_key, sevens, pos 0) ∷ (new_key, sevens, pos 0) ∷ []) put_twice
two-Puts =
    a_put
      (record {
        slot = new_slot;
        whole = length-replicate {A = ℕ} 4096 7;
        file = 0;
        chosen = chosen;
        below = omega arith;
        room = λ bd st. absurd (none-ne-some (some-inj (sym new_absent ∙ st)));
      })
      puts_once
      (a_put
        (record {
          slot = new_slot;
          whole = length-replicate {A = ℕ} 4096 7;
          file = 0;
          chosen = chosen_then;
          below = rw one_file_then (omega arith);
          room = λ bd st. rw (← some-inj (some-inj (sym now_stored ∙ st))) (omega arith);
        })
        puts_twice no_puts)

put_new_chunk-Refines_example :
    IsMap disk put_twice
      (map_puts ((new_key, sevens, pos 0) ∷ (new_key, sevens, pos 0) ∷ []) zeros_map)
put_new_chunk-Refines_example =
    put_new_chunk-Refines disk disk_laws store put_twice zeros_map
      ((new_key, sevens, pos 0) ∷ (new_key, sevens, pos 0) ∷ []) store-IsSound store-Refines
      two-Puts
