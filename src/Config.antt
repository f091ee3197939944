-- ===== src/Config.antt =====
-- src/server/expat-xml.c: the chunk files that the configuration names are opened when the server
-- starts and released when it ends. Expat is a parameter: a piece of the configuration is the calls
-- of the handlers that `XML_Parse` makes for it, and its status. `none` is undefined behaviour: a null
-- pointer, an attribute that is not there, or an index outside the arrays. A negative total counts as
-- one.
pub mod Saving
pub mod Restart
pub mod Overflow
mod Tests
use Prim.Native.String.{String}
use text.Mathlib.Text.{◌==◌}
use agilefs.Prelude.{
  ℕ, zero, suc, ◌+◌, ltb, if◌then◌else◌, Bool, true, false, Option, none, some, ◌>>=◌, assert, List,
  [], ◌∷◌, length, get_elem?, set, replicate,
}
use agilefs.Prelude.Int.{ℤ, pos, negsuc, minus_one, succ_ℤ, pred_ℤ, eqb_ℤ}
use agilefs.Arrays.{put_at}
use agilefs.Chunks.{Segment, Transfer, FreeChunkList, init_free_chunk, flush_free_chunk}
use agilefs.ChunkFiles.{ChunkFileInfo}

-- What the handlers call: `atoi`, `open` with `O_CREAT`, `st_size` after `fstat`, whether the file of
-- a free list opens and what the calls of `write` and `read` on it move, and `malloc`: the three arrays
-- of so many entries with whatever they hold (`none` where it fails), and the segments of file `i`.
pub record Host : Type 0 where
  pub atoi : String → ℤ
  pub open_chunk_file : String → ℤ
  pub st_size : ℤ → ℕ
  pub list_opens : String → Bool
  pub writes : String → Transfer
  pub reads : String → Transfer
  pub arrays : ℕ → Option (List ℤ × List ℕ × List FreeChunkList)
  pub segments : ℕ → ℕ → Segment

-- The files of the free lists, in words.
abbrev pub ListFiles : Type 0
ListFiles = String → Option (List ℕ)

-- `struct chunk_file_info_xml`, whose `start` is the choice of the handler below. `closed` is the
-- descriptors that were closed.
pub record ChunkFileInfoXml : Type 0 where
  pub cfi : ChunkFileInfo
  pub i : ℕ
  pub depth : ℤ
  pub lists : ListFiles
  pub closed : List ℤ

abbrev pub saved : ListFiles → String → Option (List ℕ) → ListFiles
saved lists path none q = lists q
saved lists path (some words) q = if q == path then some words else lists q

-- A call of a handler.
pub data Event : Type 0 where
  start_element : String → List String → Event
  end_element : String → Event

-- One round of the loop of `chunk_file_parser`: what the piece holds, whether `XML_Parse` accepts it,
-- and whether it is the last.
pub record Piece : Type 0 where
  pub events : List Event
  pub accepted : Bool
  pub done : Bool

module _ (host : Host) where
  open host use {atoi, open_chunk_file, st_size, list_opens, writes, reads, arrays, segments}

  -- The arrays of `total` entries, which hold anything.
  pub new_arrays : ℤ → Option ChunkFileInfo
  new_arrays (negsuc _) = none
  new_arrays (pos n) = elim (arrays n) [
    | none ↦ some (record { total = n; fds = []; cur_size = []; fcls = [] })
    | some (fds, sizes, fcls) ↦
        some (record { total = n; fds = fds; cur_size = sizes; fcls = fcls })
  ]

  pub open_file : String → String → ChunkFileInfoXml → Option ChunkFileInfoXml
  open_file path list_path x = do
    let fd = open_chunk_file path
    fds ← put_at x.cfi.fds x.i fd
    sizes ← put_at x.cfi.cur_size x.i (st_size fd)
    (_, fcl) ←
        init_free_chunk (x.lists list_path) (list_opens list_path) (segments x.i) (reads list_path)
    fcls ← put_at x.cfi.fcls x.i fcl
    some (record x { cfi = record x.cfi { fds = fds; cur_size = sizes; fcls = fcls }; i = x.i + 1 })

  -- `++depth` aside.
  pub start_in : Bool → Bool → List String → ChunkFileInfoXml → Option ChunkFileInfoXml
  unfolding new_arrays open_file
  start_in true file atts x = do
    total ← get_elem? atts 1
    cfi ← new_arrays (atoi total)
    some (record x { cfi = cfi })
  start_in false true atts x = do
    path ← get_elem? atts 1
    list_path ← get_elem? atts 3
    open_file path list_path x
  start_in false false atts x = some x

  pub start_element_init : String → List String → ChunkFileInfoXml → Option ChunkFileInfoXml
  unfolding start_in
  start_element_init name atts x = start_in (name == "total") (name == "file") atts x

  unfoldable pub release_file : String → ChunkFileInfoXml → Option ChunkFileInfoXml
  release_file list_path x = do
    fd ← get_elem? x.cfi.fds x.i
    fcl ← get_elem? x.cfi.fcls x.i
    (_, words, fcl') ← flush_free_chunk fcl (list_opens list_path) (writes list_path)
    some (record x {
      cfi = record x.cfi { fcls = set x.cfi.fcls x.i fcl' };
      i = x.i + 1;
      lists = saved x.lists list_path words;
      closed = fd ∷ x.closed;
    })

  pub release_in : Bool → List String → ChunkFileInfoXml → Option ChunkFileInfoXml
  unfolding release_file
  release_in true atts x = do list_path ← get_elem? atts 3; release_file list_path x
  release_in false atts x = some x

  pub start_element_release : String → List String → ChunkFileInfoXml → Option ChunkFileInfoXml
  unfolding release_in
  start_element_release name atts x = release_in (name == "file") atts x

abbrev pub Handler : Type 0
Handler = String → List String → ChunkFileInfoXml → Option ChunkFileInfoXml

-- The calls for one piece; `++depth` and `--depth` are the handlers' last statements.
pub handle : Handler → List Event → ChunkFileInfoXml → Option ChunkFileInfoXml
handle start [] x = some x
handle start (start_element name atts ∷ events) x = do
  x' ← start name atts x
  handle start events (record x' { depth = succ_ℤ x'.depth })
handle start (end_element name ∷ events) x =
    handle start events (record x { depth = pred_ℤ x.depth })

-- The loop over the pieces of the file, which ends with the last. A piece that is refused ends it with
-- -1; the handlers have been called for what stands before the error.
pub parse_pieces : Handler → List Piece → ChunkFileInfoXml → Option (ℤ × ChunkFileInfoXml)
unfolding handle
parse_pieces start [] x = none
parse_pieces start (piece ∷ pieces) x = do
  x' ← handle start piece.events x
  elim piece.accepted [
    | false ↦ some (minus_one, x')
    | true ↦ elim piece.done [ true ↦ some (pos 0, x') | false ↦ parse_pieces start pieces x' ]
  ]

-- `none` is a configuration that does not open.
pub chunk_file_parser :
    Handler → Option (List Piece) → ChunkFileInfoXml → Option (ℤ × ChunkFileInfoXml)
unfolding parse_pieces
chunk_file_parser start none x = some (minus_one, x)
chunk_file_parser start (some pieces) x = parse_pieces start pieces x

abbrev pub begin : ChunkFileInfo → ListFiles → ChunkFileInfoXml
begin cfi lists = record { cfi = cfi; i = 0; depth = pos 0; lists = lists; closed = [] }

pub init_chunk_file :
    Host → Option (List Piece) → ChunkFileInfo → ListFiles → Option (ℤ × ChunkFileInfoXml)
unfolding chunk_file_parser start_element_init
init_chunk_file host config base lists =
    chunk_file_parser (start_element_init host) config (begin base lists)

-- `free` and NULL for the three arrays, where the parser returned 0.
abbrev pub freed : ℤ → ChunkFileInfoXml → ℤ × ChunkFileInfoXml
freed code x =
    if eqb_ℤ code minus_one
    then (minus_one, x)
    else (pos 0, record x { cfi = record x.cfi { fds = []; cur_size = []; fcls = [] } })

pub release_chunk_file :
    Host → Option (List Piece) → ChunkFileInfo → ListFiles → Option (ℤ × ChunkFileInfoXml)
unfolding chunk_file_parser start_element_release
release_chunk_file host config base lists = do
  (code, x) ← chunk_file_parser (start_element_release host) config (begin base lists)
  some (freed code x)
