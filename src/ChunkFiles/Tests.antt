-- ===== src/ChunkFiles/Tests.antt =====
-- The choice of a chunk file (src/server/chunks-io.c) between an empty one and one with three free
-- chunks, of which the code counts two.
use agilefs.Prelude.{ℕ, zero, suc, ◌≡◌, refl, arith, some, [], ◌∷◌, inl, inr}
use agilefs.Prelude.Int.{ℤ, pos, ◌-ℤ◌}
use agilefs.Chunks.{FreeChunkList, empty_list}
use agilefs.ChunkFiles.{ChunkFileInfo, get_proper_chunk_file}
use agilefs.ChunkFiles.Proper.{IsBest, AreUsed, get_proper_chunk_file-IsBest}

abbrev three_free : FreeChunkList
three_free = record empty_list { current = pos 2 }

abbrev two_files : ChunkFileInfo
two_files = record {
  total = 2;
  fds = pos 3 ∷ pos 4 ∷ [];
  cur_size = 8192 ∷ 12288 ∷ [];
  fcls = empty_list ∷ three_free ∷ [];
}

abbrev used : ℕ → ℤ
used zero = pos 8192
used (suc i) = pos 4096

two_files-AreUsed : AreUsed two_files used
unfolding ◌-ℤ◌
two_files-AreUsed zero lt = (8192, empty_list, refl, refl, inl (refl, refl))
two_files-AreUsed (suc zero) lt = (12288, three_free, refl, refl, inr (2, refl, refl))
two_files-AreUsed (suc (suc i)) lt = absurd (omega arith)

get_proper_chunk_file-IsBest_example :
    (found : ℤ) × (last : ℤ) × (get_proper_chunk_file two_files ≡ some found)
    × IsBest used two_files.total last found
get_proper_chunk_file-IsBest_example = get_proper_chunk_file-IsBest two_files used two_files-AreUsed
