-- ===== src/BlockFiles/Tests.antt =====
-- A block that is shared, a block that the disk has no room for, and the paths of two hashes
-- (src/client/fuse_io_util.c).
use agilefs.Prelude.{
  get_elem?-replicate, ℕ, ◌+◌, ◌≡◌, ◌>>=◌, refl, arith, true, none, some, List, [], ◌∷◌, ◌++◌,
  replicate,
}
use agilefs.Prelude.Int.{ℤ, pos, minus_one, add_int, ◌+ℤ◌}
use agilefs.BlockFiles.{
  sprintf_02x, spell_from, create_block_file, Store, Os, updated, write_block_file,
  ulink_block_file, md5_to_path, sha1_to_path,
}
use agilefs.BlockFiles.Spelled.{
  IsPathOf, Holds, without_last, md5_to_path_spells, sha1_to_path_forgets, md5_to_path-inj,
}
use agilefs.BlockFiles.Counts.{HasFile, written_times, ulinked_times, counted, block_file_counts}
use agilefs.BlockFiles.Short.{IsLeft, write_block_file_hides_part, write_block_file_hides_error}

abbrev hash : List ℕ
hash =
    0xd4 ∷ 0x1d ∷ 0x8c ∷ 0xd9 ∷ 0x8f ∷ 0x00 ∷ 0xb2 ∷ 0x04 ∷ 0xe9 ∷ 0x80 ∷ 0x09 ∷ 0x98 ∷ 0xec ∷ 0xf8
    ∷ 0x42 ∷ 0x7e ∷ []

abbrev buffer : List ℕ
buffer = replicate 20 0 ++ hash

spelled_d41d8c :
    md5_to_path buffer
    ≡ some (
        0x64 ∷ 0x34 ∷ 0x2f ∷ 0x31 ∷ 0x64 ∷ 0x38 ∷ 0x63 ∷ 0x64 ∷ 0x39 ∷ 0x38 ∷ 0x66 ∷ 0x30 ∷ 0x30
        ∷ 0x62 ∷ 0x32 ∷ 0x30 ∷ 0x34 ∷ 0x65 ∷ 0x39 ∷ 0x38 ∷ 0x30 ∷ 0x30 ∷ 0x39 ∷ 0x39 ∷ 0x38 ∷ 0x65
        ∷ 0x63 ∷ 0x66 ∷ 0x38 ∷ 0x34 ∷ 0x32 ∷ 0x37 ∷ 0x65 ∷ 0 ∷ 0x42 ∷ 0x7e ∷ [])
unfolding md5_to_path sprintf_02x spell_from
spelled_d41d8c = refl

abbrev ones : ℕ → ℕ
ones k = 1

abbrev md5_buffer : List ℕ
md5_buffer = replicate 36 1

md5_buffer-Holds : Holds md5_buffer 16 ones
md5_buffer-Holds k lt = get_elem?-replicate 36 (20 + k) 1 (omega arith)

md5_to_path_spells_example :
    (path' : List ℕ) × (md5_to_path md5_buffer ≡ some path') × IsPathOf path' 15 ones
md5_to_path_spells_example = md5_to_path_spells md5_buffer ones md5_buffer-Holds

spelled_ones : (path : List ℕ) × (md5_to_path md5_buffer ≡ some path)
spelled_ones =
    let (path, e, spelled) = md5_to_path_spells md5_buffer ones md5_buffer-Holds in (path, e)

same_hash : ones 15 ≡ ones 15
same_hash =
    md5_to_path-inj md5_buffer md5_buffer (spelled_ones.0) (spelled_ones.0) ones ones
      md5_buffer-Holds md5_buffer-Holds (λ k. (omega arith, omega arith)) (spelled_ones.1)
      (spelled_ones.1) (λ k lt. refl) 15 (omega arith)

abbrev sha1_buffer : List ℕ
sha1_buffer = replicate 44 1

sha1_to_path_forgets_example :
    (path' : List ℕ) × (sha1_to_path sha1_buffer ≡ some path')
    × IsPathOf path' 19 (without_last ones)
sha1_to_path_forgets_example =
    sha1_to_path_forgets sha1_buffer ones (λ k lt. get_elem?-replicate 44 (20 + k) 1 (omega arith))
      (omega arith)

abbrev os_with : ℤ → Os
os_with n = record { opens = true; written = n; xattrs = true; unlinks = true; errno = pos 28 }

abbrev empty_store : Store
empty_store = record { files = λ path. none; open_fds = 0 }

abbrev block : List ℕ
block = 1 ∷ 2 ∷ 3 ∷ []

block_file_counts_example :
    (s' : Store) × (s'' : Store) × (written_times (os_with (pos 3)) "d4/1d" block 3 empty_store
      ≡ some s')
    × (ulinked_times (os_with (pos 3)) "d4/1d" 2 s' ≡ some s'')
    × HasFile empty_store s'' "d4/1d" (counted block 1)
block_file_counts_example =
    block_file_counts (os_with (pos 3)) "d4/1d" block 2 1 empty_store
      (record { opens = refl; written = refl; xattrs = refl; unlinks = refl }) refl (omega arith)

write_block_file_hides_part_example :
    (code : ℤ) × (s' : Store) × (write_block_file (os_with (pos 1)) "d4/1d" block empty_store
      ≡ some (code, s'))
    × IsLeft (os_with (pos 1)) "d4/1d" block 1 empty_store s' code
write_block_file_hides_part_example =
    write_block_file_hides_part (os_with (pos 1)) "d4/1d" block 1 empty_store refl refl refl
      (omega arith)

hidden_error :
    write_block_file (os_with minus_one) "d4/1d" block empty_store
    ≡ some (
      pos 0,
      updated empty_store "d4/1d" (some (record { bytes = []; share_cnt = some (pos 1) })),
    )
hidden_error =
    write_block_file_hides_error (os_with minus_one) "d4/1d" block empty_store refl refl refl refl
      (omega arith)

last_reference :
    (do
      (_, s') ← write_block_file (os_with (pos 3)) "d4/1d" block empty_store
      (_, s'') ← ulink_block_file (os_with (pos 3)) "d4/1d" s'
      s''.files "d4/1d")
    ≡ none
unfolding write_block_file create_block_file ulink_block_file add_int ◌+ℤ◌
last_reference = refl
