-- ===== src/Config/Overflow.antt =====
-- A configuration that names more chunk files than it counts (src/server/expat-xml.c).
use Prim.Native.String.{String}
use agilefs.Prelude.{
  ℕ, ◌+◌, ◌≤◌, ◌<◌, ◌≡◌, ◌∙◌, arith, Option, none, some, List, [], ◌∷◌, length, lt→ltb, le→ltb,
  Bool-cases, Option-cases, inl, inr, ltb, ltb→le, ltb→lt,
}
use agilefs.Prelude.Int.{ℤ, pos}
use agilefs.Chunks.{FreeChunkList, init_free_chunk}
use agilefs.ChunkFiles.{ChunkFileInfo}
use agilefs.Config.{
  Host, ListFiles, ChunkFileInfoXml, handle, open_file, start_element_init, begin, init_chunk_file,
  parse_pieces, chunk_file_parser,
}
use agilefs.Config.Saving.{file_events}
use agilefs.Config.Restart.{
  HasArrays, opened, opened-HasArrays, new_arrays_lem, GivesArrays, arrays_of, config,
}

module _ (host : Host) where
  abbrev loaded : ChunkFileInfoXml → String → Option (ℤ × FreeChunkList)
  loaded x list_path =
      init_free_chunk (x.lists list_path) (host.list_opens list_path) (host.segments x.i)
        (host.reads list_path)

  next-eq :
      (path list_path : String) (files : List (String × String)) (x : ChunkFileInfoXml) (n : ℕ)
      (code : ℤ) (fcl : FreeChunkList)
      → x.i < n
      → HasArrays x n
      → loaded x list_path ≡ some (code, fcl)
      → handle (start_element_init host) (file_events ((path, list_path) ∷ files)) x
        ≡ handle (start_element_init host) (file_events files) (opened host (λ j. fcl) x path fcl)
  unfolding handle start_element_init open_file
  next-eq path list_path files x n code fcl lt h f =
      let in_fds = lt→ltb x.i (length x.cfi.fds) (omega (arith, h.fds)) in
      let in_sizes = lt→ltb x.i (length x.cfi.cur_size) (omega (arith, h.sizes)) in
      let in_fcls = lt→ltb x.i (length x.cfi.fcls) (omega (arith, h.fcls)) in
      rw (in_fds, in_sizes, f, in_fcls)

  fault-eq :
      (path list_path : String) (files : List (String × String)) (x : ChunkFileInfoXml) (n : ℕ)
      → x.i < n
      → HasArrays x n
      → loaded x list_path ≡ none
      → handle (start_element_init host) (file_events ((path, list_path) ∷ files)) x ≡ none
  unfolding handle start_element_init open_file
  fault-eq path list_path files x n lt h f =
      let in_fds = lt→ltb x.i (length x.cfi.fds) (omega (arith, h.fds)) in
      let in_sizes = lt→ltb x.i (length x.cfi.cur_size) (omega (arith, h.sizes)) in
      rw (in_fds, in_sizes, f)

  past-eq :
      (path list_path : String) (files : List (String × String)) (x : ChunkFileInfoXml) (n : ℕ)
      → n ≤ x.i
      → HasArrays x n
      → handle (start_element_init host) (file_events ((path, list_path) ∷ files)) x ≡ none
  unfolding handle start_element_init open_file
  past-eq path list_path files x n ge h =
      let outside = le→ltb x.i (length x.cfi.fds) (omega (arith, h.fds)) in rw outside

  overflow_lem :
      (files : List (String × String)) (x : ChunkFileInfoXml) (n : ℕ)
      → HasArrays x n
      → x.i ≤ n
      → n < x.i + length files
      → handle (start_element_init host) (file_events files) x ≡ none
  overflow_lem [] x n h le lt = absurd (omega arith)
  overflow_lem ((path, list_path) ∷ files) x n h le lt = elim (Bool-cases (ltb x.i n)) [
    | inr e ↦ past-eq path list_path files x n (ltb→le _ _ e) h
    | inl e ↦
        let here : x.i < n = ltb→lt _ _ e in
        elim (Option-cases (loaded x list_path)) [
          | inl faults ↦ fault-eq path list_path files x n here h faults
          | inr ((code, fcl), f) ↦
              next-eq path list_path files x n code fcl here h f
              ∙ overflow_lem files (opened host (λ j. fcl) x path fcl) n
                  (opened-HasArrays host (λ j. fcl) x n path fcl h) (omega arith) (omega arith)
        ]
  ]

-- Where the configuration names more files than its total says and the arrays are given,
-- `init_chunk_file` writes past the
-- arrays that it allocated, or faults before.
pub init_chunk_file_overflows :
    (host : Host) (files : List (String × String)) (total : String) (n : ℕ) (base : ChunkFileInfo)
    (lists : ListFiles)
    → host.atoi total ≡ pos n
    → GivesArrays host n
    → n < length files
    → init_chunk_file host (some (config total files)) base lists ≡ none
unfolding init_chunk_file chunk_file_parser parse_pieces handle start_element_init
init_chunk_file_overflows host files total n base lists e gives more =
    let x : ChunkFileInfoXml = record (begin base lists) {
      cfi = arrays_of n gives;
      depth = pos 1;
    } in
    rw (
      new_arrays_lem host (host.atoi total) n e gives,
      overflow_lem host files x n
          (record { fds = gives.fds_width; sizes = gives.sizes_width; fcls = gives.fcls_width })
          (omega arith) (omega arith),
    )
