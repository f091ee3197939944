-- ===== src/Chunks/Tests.antt =====
-- The free list of src/server/chunks.c on small inputs.
use agilefs.Prelude.{ℕ, true, ◌≡◌, refl, arith, some, none, List, ◌∷◌, replicate, length-replicate}
use agilefs.Prelude.Int.{pos, minus_one}
use agilefs.Chunks.{
  Segment, FreeChunkList, empty_list, get_first_free_chunk, add_free_chunk, flush_free_chunk,
  init_free_chunk, Transfer,
}
use agilefs.Chunks.Stack.{
  contents, IsValid, Leaves, top, rest, empty-IsValid, get_first_free_chunk_pops,
}
use agilefs.Chunks.Push.{Granted, overrun, add_free_chunk_pushes, add_free_chunk_without_memory}
use agilefs.Chunks.Restart.{flush-init}

abbrev segment : Segment
segment = some (replicate 1024 0)

segment-Granted : Granted empty_list segment
segment-Granted = λ full. (replicate 1024 0, refl, length-replicate {A = ℕ} 1024 0)

-- The empty list with chunk 7 freed.
pushed : Leaves (add_free_chunk empty_list 7 segment) (pos 0) (7 ∷ contents empty_list)
pushed =
    add_free_chunk_pushes empty_list 7 segment empty-IsValid (omega arith) (omega arith)
      segment-Granted

add_free_chunk_pushes_example :
    Leaves (add_free_chunk empty_list 7 segment) (pos 0) (7 ∷ contents empty_list)
add_free_chunk_pushes_example =
    add_free_chunk_pushes empty_list 7 segment empty-IsValid (omega arith) (omega arith)
      segment-Granted

get_first_free_chunk_pops_example :
    Leaves
      (get_first_free_chunk pushed.after)
      (top (contents pushed.after))
      (rest (contents pushed.after))
get_first_free_chunk_pops_example = get_first_free_chunk_pops pushed.after pushed.valid

add_free_chunk_without_memory_example :
    (add_free_chunk empty_list 7 none ≡ some (minus_one, overrun empty_list))
    × (get_first_free_chunk (overrun empty_list) ≡ none)
add_free_chunk_without_memory_example =
    add_free_chunk_without_memory empty_list 7 empty-IsValid (omega arith)

abbrev all_moved : Transfer
all_moved k words = words

abbrev malloc : ℕ → Segment
malloc i = segment

flush-init_example :
    (words : List ℕ) × (ended : FreeChunkList) × (l' : FreeChunkList) × (flush_free_chunk
        pushed.after true all_moved
      ≡ some (pos 0, some words, ended))
    × (init_free_chunk (some words) true malloc all_moved ≡ some (pos 0, l'))
    × (contents l' ≡ contents pushed.after)
    × IsValid l'
flush-init_example =
    flush-init pushed.after pushed.valid malloc
      (λ i. (replicate 1024 0, refl, length-replicate {A = ℕ} 1024 0)) all_moved all_moved
      (λ k ws. refl) (λ k ws. refl)
