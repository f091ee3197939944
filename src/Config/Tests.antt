-- ===== src/Config/Tests.antt =====
-- A server with two chunk files, whose first has a free chunk (src/server/expat-xml.c).
use Prim.Native.String.{String}
use text.Mathlib.Text.{◌==◌}
use agilefs.Prelude.{
  false, ap, ℕ, zero, suc, ◌≡◌, ◌≢◌, refl, arith, none, some, List, [], ◌∷◌, get_elem?, replicate,
  length-replicate, true, some-inj,
}
use agilefs.Prelude.Int.{pos, minus_one}
use agilefs.Chunks.{Segment, FreeChunkList, empty_list, add_free_chunk}
use agilefs.Chunks.Stack.{contents, IsValid, Leaves, empty-IsValid}
use agilefs.Chunks.Push.{add_free_chunk_pushes}
use agilefs.Chunks.Saved.{Gives}
use agilefs.ChunkFiles.{ChunkFileInfo}
use agilefs.Config.{
  Host, ListFiles, ChunkFileInfoXml, init_chunk_file, release_chunk_file, chunk_file_parser,
}
use agilefs.Config.Restart.{GivesArrays, config, IsRestored, release-init_restores}
use agilefs.Config.Overflow.{init_chunk_file_overflows}

abbrev segment : Segment
segment = some (replicate 1024 0)

-- What `malloc` left.
abbrev junk : FreeChunkList
junk = record { total_cnt = 3; current = pos 9; base = [] }

abbrev host : Host
host = record {
  atoi = λ text. pos 2;
  open_chunk_file = λ path. pos 7;
  st_size = λ fd. 4096;
  list_opens = λ path. true;
  writes = λ path k words. words;
  reads = λ path k words. words;
  arrays =
      λ n. some (replicate n (pos 9), replicate {A = ℕ} n 77, replicate {A = FreeChunkList} n junk);
  segments = λ i j. segment;
}

segments-Gives : (i : ℕ) → Gives (host.segments i)
segments-Gives i j = (replicate 1024 0, refl, length-replicate {A = ℕ} 1024 0)

two_arrays : GivesArrays host 2
two_arrays = record {
  held_fds = replicate 2 (pos 9);
  held_sizes = replicate {A = ℕ} 2 77;
  held_fcls = replicate {A = FreeChunkList} 2 junk;
  gives = refl;
  fds_width = refl;
  sizes_width = refl;
  fcls_width = refl;
}

pushed : Leaves (add_free_chunk empty_list 7 segment) (pos 0) (7 ∷ contents empty_list)
pushed =
    add_free_chunk_pushes empty_list 7 segment empty-IsValid (omega arith) (omega arith)
      (λ full. (replicate 1024 0, refl, length-replicate {A = ℕ} 1024 0))

abbrev two_files : ChunkFileInfo
two_files = record {
  total = 2;
  fds = pos 5 ∷ pos 6 ∷ [];
  cur_size = 8192 ∷ 0 ∷ [];
  fcls = pushed.after ∷ empty_list ∷ [];
}

abbrev blank : ChunkFileInfo
blank = record { total = 0; fds = []; cur_size = []; fcls = [] }

abbrev paths : List (String × String)
paths = ("/data/0", "/data/0.free") ∷ ("/data/1", "/data/1.free") ∷ []

abbrev no_lists : ListFiles
no_lists path = none

all-IsValid : (j : ℕ) (fcl : FreeChunkList) → get_elem? two_files.fcls j ≡ some fcl → IsValid fcl
all-IsValid zero fcl e = rw (← some-inj e) (pushed.valid)
all-IsValid (suc zero) fcl e = rw (← some-inj e) empty-IsValid
all-IsValid (suc (suc j)) fcl e = cc

lists_differ : ◌≢◌ {A = String} "/data/0.free" "/data/1.free"
lists_differ e = let same : false ≡ true = ap (λ path. path == "/data/1.free") e in cc

release-init_restores_example :
    (ended : ChunkFileInfoXml) × (release_chunk_file host
        (some (config "2" paths))
        two_files
        no_lists
      ≡ some (pos 0, ended))
    × IsRestored host paths two_files
        (init_chunk_file host (some (config "2" paths)) blank (ended.lists))
release-init_restores_example =
    release-init_restores host paths two_files blank "2" no_lists refl refl all-IsValid refl
      ((lists_differ, tt), (tt, tt)) (refl, (refl, tt)) two_arrays segments-Gives
      (λ q. (λ k ws. refl, λ k ws. refl))

abbrev three_paths : List (String × String)
three_paths = ("/data/2", "/data/2.free") ∷ paths

init_chunk_file_overflows_example :
    init_chunk_file host (some (config "2" three_paths)) blank no_lists ≡ none
init_chunk_file_overflows_example =
    init_chunk_file_overflows host three_paths "2" 2 blank no_lists refl two_arrays (omega arith)

no_configuration :
    (x : ChunkFileInfoXml) → chunk_file_parser (λ n a s. none) none x ≡ some (minus_one, x)
unfolding chunk_file_parser
no_configuration x = refl
