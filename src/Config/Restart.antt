-- ===== src/Config/Restart.antt =====
-- The chunk files come back after a restart of the server: `release_chunk_file`, and then
-- `init_chunk_file` with the same configuration (src/server/expat-xml.c).
use Prim.Native.String.{String}
use agilefs.Prelude.{
  ℕ, zero, suc, ◌+◌, ◌<◌, ◌≡◌, ◌≢◌, refl, sym, ap, ◌∙◌, arith, Option, none, some, List, [], ◌∷◌,
  length, get_elem?, set, get_elem?-set_ne, get_elem?-set_self, length-set, true, some-inj, lt→ltb,
  lt-of-get_elem?, get_elem?-lt,
}
use agilefs.Prelude.Int.{ℤ, pos, succ_ℤ, pred_ℤ}
use agilefs.Chunks.{FreeChunkList, empty_list, init_free_chunk}
use agilefs.Chunks.Stack.{contents, IsValid}
use agilefs.Chunks.Saved.{Gives, IsWhole}
use agilefs.ChunkFiles.{ChunkFileInfo}
use agilefs.Config.{
  Host, ListFiles, ChunkFileInfoXml, start_element, end_element, Piece, handle, open_file,
  start_element_init, start_element_release, begin, init_chunk_file, release_chunk_file,
  parse_pieces, chunk_file_parser, new_arrays,
}
use agilefs.Config.Saving.{file_events, HasOwnLists, AllOpen, IsSaved, Wrote, release_files}

-- The three arrays have `n` entries.
pub record HasArrays (x : ChunkFileInfoXml) (n : ℕ) : Type 0 where
  pub fds : length x.cfi.fds ≡ n
  pub sizes : length x.cfi.cur_size ≡ n
  pub fcls : length x.cfi.fcls ≡ n

-- A valid list with the free chunks of `fcl`.
pub record IsBack (cfi : ChunkFileInfo) (j : ℕ) (fcl : FreeChunkList) : Type 0 where
  pub again : FreeChunkList
  pub fcl_at : get_elem? cfi.fcls j ≡ some again
  pub same : contents again ≡ contents fcl
  pub valid : IsValid again

module _ (host : Host) (l : ℕ → FreeChunkList) where
  pub record Opened (files : List (String × String)) (x : ChunkFileInfoXml)
      (m : Option ChunkFileInfoXml) : Type 0 where
    pub after : ChunkFileInfoXml
    pub returns : m ≡ some after
    pub total : after.cfi.total ≡ x.cfi.total
    pub back : (k : ℕ) → k < length files → IsBack after.cfi (x.i + k) (l (x.i + k))
    pub fd_at :
        (k : ℕ) (path list_path : String)
        → get_elem? files k ≡ some (path, list_path)
        → get_elem? after.cfi.fds (x.i + k) ≡ some (host.open_chunk_file path)
    pub kept_fcls : (j : ℕ) → j < x.i → get_elem? after.cfi.fcls j ≡ get_elem? x.cfi.fcls j
    pub kept_fds : (j : ℕ) → j < x.i → get_elem? after.cfi.fds j ≡ get_elem? x.cfi.fds j

  abbrev pub opened : ChunkFileInfoXml → String → FreeChunkList → ChunkFileInfoXml
  opened x path fcl = record x {
    cfi = record x.cfi {
      fds = set x.cfi.fds x.i (host.open_chunk_file path);
      cur_size = set x.cfi.cur_size x.i (host.st_size (host.open_chunk_file path));
      fcls = set x.cfi.fcls x.i fcl;
    };
    i = x.i + 1;
    depth = pred_ℤ (succ_ℤ x.depth);
  }

  pub opened-HasArrays :
      (x : ChunkFileInfoXml) (n : ℕ) (path : String) (fcl : FreeChunkList)
      → HasArrays x n
      → HasArrays (opened x path fcl) n
  opened-HasArrays x n path fcl h = record {
    fds = length-set x.cfi.fds x.i (host.open_chunk_file path) ∙ h.fds;
    sizes = length-set x.cfi.cur_size x.i (host.st_size (host.open_chunk_file path)) ∙ h.sizes;
    fcls = length-set x.cfi.fcls x.i fcl ∙ h.fcls;
  }

  step-eq :
      (path list_path : String) (files : List (String × String)) (x : ChunkFileInfoXml) (n : ℕ)
      (fcl : FreeChunkList) (words : List ℕ)
      → x.i < n
      → HasArrays x n
      → host.list_opens list_path ≡ true
      → x.lists list_path ≡ some words
      → init_free_chunk (some words) true (host.segments x.i) (host.reads list_path)
        ≡ some (pos 0, fcl)
      → handle (start_element_init host) (file_events ((path, list_path) ∷ files)) x
        ≡ handle (start_element_init host) (file_events files) (opened x path fcl)
  unfolding handle start_element_init open_file
  step-eq path list_path files x n fcl words lt h o w f =
      let in_fds = lt→ltb x.i (length x.cfi.fds) (omega (arith, h.fds)) in
      let in_sizes = lt→ltb x.i (length x.cfi.cur_size) (omega (arith, h.sizes)) in
      let in_fcls = lt→ltb x.i (length x.cfi.fcls) (omega (arith, h.fcls)) in
      rw (in_fds, in_sizes, w, o, f, in_fcls)

  -- What is to be read back.
  abbrev Waits : List (String × String) → ListFiles → ℕ → Type 0
  Waits files lists i =
      (k : ℕ) (path list_path : String)
      → get_elem? files k ≡ some (path, list_path)
      → (words : List ℕ) × (lists list_path ≡ some words)
        × IsSaved words (l (i + k)) (host.segments (i + k)) (host.reads list_path)

  Waits-tail :
      (f : String × String) (files : List (String × String)) (lists : ListFiles) (i : ℕ)
      → Waits (f ∷ files) lists i
      → Waits files lists (i + 1)
  Waits-tail f files lists i w k path list_path at =
      let next : i + suc k ≡ i + 1 + k = omega arith in rw next at (w (suc k) path list_path at)

  IsBack-step :
      (after : ChunkFileInfoXml) (i m k : ℕ)
      → IsBack after.cfi i (l i)
      → ((k : ℕ) → k < m → IsBack after.cfi (i + 1 + k) (l (i + 1 + k)))
      → k < suc m
      → IsBack after.cfi (i + k) (l (i + k))
  IsBack-step after i m zero now later lt = let here : i + 0 ≡ i = omega arith in rw here now
  IsBack-step after i m (suc k) now later lt =
      let next : i + suc k ≡ i + 1 + k = omega arith in rw next (later k (omega arith))

  fd_step :
      (path list_path : String) (files : List (String × String)) (after : ChunkFileInfoXml)
      (i k : ℕ) (p q : String)
      → get_elem? after.cfi.fds i ≡ some (host.open_chunk_file path)
      → ((k : ℕ) (p q : String)
          → get_elem? files k ≡ some (p, q)
          → get_elem? after.cfi.fds (i + 1 + k) ≡ some (host.open_chunk_file p))
      → get_elem? ((path, list_path) ∷ files) k ≡ some (p, q)
      → get_elem? after.cfi.fds (i + k) ≡ some (host.open_chunk_file p)
  fd_step path list_path files after i zero p q now later at =
      let same : path ≡ p = ap (λ r. r.0) (some-inj at) in
      let here : i + 0 ≡ i = omega arith in rw (here, ← same) now
  fd_step path list_path files after i (suc k) p q now later at =
      let next : i + suc k ≡ i + 1 + k = omega arith in rw next (later k p q at)

  -- The loop over the elements.
  open_files :
      (files : List (String × String)) (x : ChunkFileInfoXml) (n : ℕ)
      → x.i + length files ≡ n
      → HasArrays x n
      → AllOpen host files
      → Waits files (x.lists) (x.i)
      → Opened files x (handle (start_element_init host) (file_events files) x)
  unfolding handle
  open_files [] x n e h opens w = record {
    after = record x { depth = pred_ℤ x.depth };
    returns = refl;
    total = refl;
    back = λ k lt. absurd (omega arith);
    fd_at = λ k path list_path at. cc;
    kept_fcls = λ j lt. refl;
    kept_fds = λ j lt. refl;
  }
  open_files ((path, list_path) ∷ files) x n e h opens w =
      let (words, w_at, s0) = w 0 path list_path refl in
      let here : x.i + 0 ≡ x.i = omega arith in
      let s : IsSaved words (l x.i) (host.segments x.i) (host.reads list_path) = rw here at s0 in
      let x' = opened x path (s.again) in
      let r : Opened files x' (handle (start_element_init host) (file_events files) x') =
        open_files files x' n (omega arith) (opened-HasArrays x n path (s.again) h) (opens.1)
          (Waits-tail (path, list_path) files (x.lists) (x.i) w) in
      let fcl_here : get_elem? r.after.cfi.fcls x.i ≡ some (s.again) =
        r.kept_fcls x.i (omega arith)
        ∙ get_elem?-set_self x.cfi.fcls x.i (s.again) (omega (arith, h.fcls)) in
      let fd_here : get_elem? r.after.cfi.fds x.i ≡ some (host.open_chunk_file path) =
        r.kept_fds x.i (omega arith)
        ∙ get_elem?-set_self x.cfi.fds x.i (host.open_chunk_file path) (omega (arith, h.fds)) in
      record {
        after = r.after;
        returns =
            step-eq path list_path files x n (s.again) words (omega arith) h (opens.0) w_at
              (s.returns)
            ∙ r.returns;
        total = r.total;
        back = λ k lt.
            IsBack-step (r.after) x.i (length files) k
              (record { again = s.again; fcl_at = fcl_here; same = s.same; valid = s.valid })
              (r.back) lt;
        fd_at = λ k p q at. fd_step path list_path files (r.after) x.i k p q fd_here (r.fd_at) at;
        kept_fcls = λ j lt.
            r.kept_fcls j (omega arith)
            ∙ get_elem?-set_ne x.cfi.fcls (s.again) (let ne : x.i ≢ j = λ q. omega arith in ne);
        kept_fds = λ j lt.
            r.kept_fds j (omega arith)
            ∙ get_elem?-set_ne x.cfi.fds (host.open_chunk_file path)
                (let ne : x.i ≢ j = λ q. omega arith in ne);
      }

-- `malloc` gives the three arrays of `n` entries, whatever they hold.
pub record GivesArrays (host : Host) (n : ℕ) : Type 0 where
  pub held_fds : List ℤ
  pub held_sizes : List ℕ
  pub held_fcls : List FreeChunkList
  pub gives : host.arrays n ≡ some (held_fds, held_sizes, held_fcls)
  pub fds_width : length held_fds ≡ n
  pub sizes_width : length held_sizes ≡ n
  pub fcls_width : length held_fcls ≡ n

abbrev pub arrays_of : {host : Host} (n : ℕ) → GivesArrays host n → ChunkFileInfo
arrays_of n a = record { total = n; fds = a.held_fds; cur_size = a.held_sizes; fcls = a.held_fcls }

pub new_arrays_lem :
    (host : Host) (z : ℤ) (n : ℕ)
    → z ≡ pos n
    → (a : GivesArrays host n) → new_arrays host z ≡ some (arrays_of n a)
unfolding new_arrays
new_arrays_lem host z n e a = rw (e, new_arrays, a.gives)

-- The configuration, read in one piece: the root element, and in it the number of the files and the
-- files.
abbrev pub config : String → List (String × String) → List Piece
config total files =
    record {
      events =
          start_element "root" []
          ∷ start_element "total" ("count" ∷ total ∷ [])
          ∷ end_element "total"
          ∷ file_events files;
      accepted = true;
      done = true;
    }
    ∷ []

-- What `init_chunk_file` leaves: the files of the configuration are open, and have the free chunks
-- of `cfi`.
pub record IsRestored (host : Host) (files : List (String × String)) (cfi : ChunkFileInfo)
    (m : Option (ℤ × ChunkFileInfoXml)) : Type 0 where
  pub after : ChunkFileInfoXml
  pub returns : m ≡ some (pos 0, after)
  pub total : after.cfi.total ≡ length files
  pub back :
      (j : ℕ) (fcl : FreeChunkList) → get_elem? cfi.fcls j ≡ some fcl → IsBack after.cfi j fcl
  pub fd_at :
      (j : ℕ) (path list_path : String)
      → get_elem? files j ≡ some (path, list_path)
      → get_elem? after.cfi.fds j ≡ some (host.open_chunk_file path)

module _ (host : Host) (files : List (String × String)) (cfi : ChunkFileInfo) (total : String)
    (l : ℕ → FreeChunkList) where
  restore :
      (lists : ListFiles) (base : ChunkFileInfo)
      → length cfi.fcls ≡ length files
      → ((j : ℕ) → j < length files → get_elem? cfi.fcls j ≡ some (l j))
      → GivesArrays host (length files)
      → host.atoi total ≡ pos (length files)
      → AllOpen host files
      → Waits host l files lists 0
      → IsRestored host files cfi (init_chunk_file host (some (config total files)) base lists)
  unfolding init_chunk_file chunk_file_parser parse_pieces handle start_element_init
  restore lists base len known gives n opens w =
      let count : ℕ = length files in
      let x : ChunkFileInfoXml = record (begin base lists) {
        cfi = arrays_of count gives;
        depth = pos 1;
      } in
      let r : Opened host l files x (handle (start_element_init host) (file_events files) x) =
        open_files host l files x count (omega arith)
          (record { fds = gives.fds_width; sizes = gives.sizes_width; fcls = gives.fcls_width })
          opens w in
      record {
        after = r.after;
        returns = rw (new_arrays_lem host (host.atoi total) count n gives, r.returns);
        total = r.total;
        back = λ j fcl at.
            let lt = lt-of-get_elem? cfi.fcls j fcl at in
            let same : l j ≡ fcl = some-inj (sym (known j (omega arith)) ∙ at) in
            let here : 0 + j ≡ j = omega arith in rw (← same) (rw here at (r.back j (omega arith)));
        fd_at = λ j path list_path at.
            let here : 0 + j ≡ j = omega arith in rw here at (r.fd_at j path list_path at);
      }

  released-lists :
      (lists : ListFiles)
      → length cfi.fds ≡ length files
      → ((j : ℕ) → j < length files → get_elem? cfi.fcls j ≡ some (l j))
      → ((j : ℕ) → j < length files → IsValid (l j))
      → HasOwnLists files
      → AllOpen host files
      → ((j : ℕ) → Gives (host.segments j))
      → ((q : String) → IsWhole (host.writes q) × IsWhole (host.reads q))
      → (ended : ChunkFileInfoXml) × (release_chunk_file host (some (config total files)) cfi lists
          ≡ some (pos 0, ended))
        × Waits host l files (ended.lists) 0
  unfolding release_chunk_file chunk_file_parser parse_pieces handle start_element_release
  released-lists lists fds known valid own opens g whole =
      let x : ChunkFileInfoXml = record (begin cfi lists) { depth = pos 1 } in
      let r : Wrote host l files x (handle (start_element_release host) (file_events files) x) =
        release_files host l files x (length files) (omega arith)
          (record {
            fd_at = λ j a b. get_elem?-lt cfi.fds j (omega arith);
            fcl_at = λ j a b. known j b;
            valid = λ j a b. valid j b;
          })
          own opens g whole in
      (
        record (r.after) { cfi = record r.after.cfi { fds = []; cur_size = []; fcls = [] } },
        rw (r.returns),
        r.lists_at,
      )

abbrev or_empty : Option FreeChunkList → FreeChunkList
or_empty none = empty_list
or_empty (some fcl) = fcl

-- Where all the lists of the chunk files are valid, `release_chunk_file` returns 0, and a later
-- `init_chunk_file` with the same configuration returns 0 and gives back as many chunk files, each
-- opened by its path and with the same free chunks in the same order in a valid list. The
-- configuration names the right number of files, each with a file of its own for its list, which
-- opens, `malloc` gives memory, and every `write` and `read` of a list moves all that it could.
pub release-init_restores :
    (host : Host) (files : List (String × String)) (cfi base : ChunkFileInfo) (total : String)
    (lists : ListFiles)
    → length cfi.fds ≡ length files
    → length cfi.fcls ≡ length files
    → ((j : ℕ) (fcl : FreeChunkList) → get_elem? cfi.fcls j ≡ some fcl → IsValid fcl)
    → host.atoi total ≡ pos (length files)
    → HasOwnLists files
    → AllOpen host files
    → GivesArrays host (length files)
    → ((j : ℕ) → Gives (host.segments j))
    → ((q : String) → IsWhole (host.writes q) × IsWhole (host.reads q))
    → (ended : ChunkFileInfoXml) × (release_chunk_file host (some (config total files)) cfi lists
        ≡ some (pos 0, ended))
      × IsRestored host files cfi
          (init_chunk_file host (some (config total files)) base (ended.lists))
release-init_restores host files cfi base total lists fds fcls valid n own opens gives g whole =
    let l : ℕ → FreeChunkList = λ j. or_empty (get_elem? cfi.fcls j) in
    let known : (j : ℕ) → j < length files → get_elem? cfi.fcls j ≡ some (l j) =
      λ j lt. let (fcl, at) = get_elem?-lt cfi.fcls j (omega arith) in rw at in
    let (ended, returns, waits) =
      released-lists host files cfi total l lists fds known (λ j lt. valid j (l j) (known j lt)) own
        opens g whole in
    (
      ended,
      returns,
      restore host files cfi total l (ended.lists) base fcls known gives n opens waits,
    )
