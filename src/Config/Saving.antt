-- ===== src/Config/Saving.antt =====
-- `release_chunk_file` (src/server/expat-xml.c) writes the free list of every chunk file that the
-- configuration names.
use Prim.Native.String.{String}
use text.Mathlib.Text.{◌==◌}
use text.Mathlib.TextEquality.{eq_iff}
use text.Mathlib.TextPositions.{eq_refl}
use agilefs.Prelude.{
  ℕ, zero, suc, ◌+◌, ◌≤◌, ◌<◌, ◌≡◌, ◌≢◌, refl, ap, ◌∙◌, arith, Option, some, List, [], ◌∷◌, length,
  get_elem?, set, get_elem?-set_ne, true, Bool-cases, inl, inr, some-inj,
}
use agilefs.Prelude.Int.{ℤ, pos, succ_ℤ, pred_ℤ}
use agilefs.Chunks.{Segment, Transfer, FreeChunkList, init_free_chunk, flush_free_chunk}
use agilefs.Chunks.Stack.{contents, IsValid}
use agilefs.Chunks.Saved.{Gives, IsWhole}
use agilefs.Chunks.Restart.{flush-init}
use agilefs.Config.{
  Host, ListFiles, ChunkFileInfoXml, Event, start_element, end_element, saved, handle, release_file,
  start_element_release,
}

-- The elements for the chunk files, with the path of the file and of its free list, and the end of
-- the root element around them.
abbrev pub file_events : List (String × String) → List Event
file_events [] = end_element "root" ∷ []
file_events ((path, list_path) ∷ files) =
    start_element "file" ("path" ∷ path ∷ "free_list" ∷ list_path ∷ [])
    ∷ end_element "file"
    ∷ file_events files

abbrev pub IsOther : String → List (String × String) → Type 0
IsOther q [] = Unit
IsOther q ((path, list_path) ∷ files) = (q ≢ list_path) × IsOther q files

-- No two chunk files have the same file for their free lists.
abbrev pub HasOwnLists : List (String × String) → Type 0
HasOwnLists [] = Unit
HasOwnLists ((path, list_path) ∷ files) = IsOther list_path files × HasOwnLists files

abbrev pub AllOpen : Host → List (String × String) → Type 0
AllOpen host [] = Unit
AllOpen host ((path, list_path) ∷ files) = (host.list_opens list_path ≡ true) × AllOpen host files

-- A file of `words` from which the list is read back.
pub record IsSaved (words : List ℕ) (fcl : FreeChunkList) (malloc : ℕ → Segment) (reads : Transfer)
    : Type 0 where
  pub again : FreeChunkList
  pub returns : init_free_chunk (some words) true malloc reads ≡ some (pos 0, again)
  pub same : contents again ≡ contents fcl
  pub valid : IsValid again

pub saved_same : (lists : ListFiles) (p : String) (w : List ℕ) → saved lists p (some w) p ≡ some w
saved_same lists p w = rw (eq_refl p)

pub saved_other :
    (lists : ListFiles) (p q : String) (w : List ℕ) → q ≢ p → saved lists p (some w) q ≡ lists q
saved_other lists p q w ne = elim (Bool-cases (q == p)) [
  | inl e ↦ absurd (ne ((eq_iff q p).0 e))
  | inr e ↦ rw e
]

module _ (host : Host) (l : ℕ → FreeChunkList) where
  -- Every file from `i` on, up to `n`, is open and has its list, which is valid.
  pub record HasLists (x : ChunkFileInfoXml) (n : ℕ) : Type 0 where
    pub fd_at : (j : ℕ) → x.i ≤ j → j < n → (fd : ℤ) × (get_elem? x.cfi.fds j ≡ some fd)
    pub fcl_at : (j : ℕ) → x.i ≤ j → j < n → get_elem? x.cfi.fcls j ≡ some (l j)
    pub valid : (j : ℕ) → x.i ≤ j → j < n → IsValid (l j)

  pub record Wrote (files : List (String × String)) (x : ChunkFileInfoXml)
      (m : Option ChunkFileInfoXml) : Type 0 where
    pub after : ChunkFileInfoXml
    pub returns : m ≡ some after
    pub lists_at :
        (k : ℕ) (path list_path : String)
        → get_elem? files k ≡ some (path, list_path)
        → (words : List ℕ) × (after.lists list_path ≡ some words)
          × IsSaved words (l (x.i + k)) (host.segments (x.i + k)) (host.reads list_path)
    pub others : (q : String) → IsOther q files → after.lists q ≡ x.lists q

  abbrev released : ChunkFileInfoXml → String → ℤ → List ℕ → FreeChunkList → ChunkFileInfoXml
  released x list_path fd words ended = record x {
    cfi = record x.cfi { fcls = set x.cfi.fcls x.i ended };
    i = x.i + 1;
    lists = saved x.lists list_path (some words);
    closed = fd ∷ x.closed;
    depth = pred_ℤ (succ_ℤ x.depth);
  }

  released-HasLists :
      (x : ChunkFileInfoXml) (n : ℕ) (list_path : String) (fd : ℤ) (words : List ℕ)
      (ended : FreeChunkList)
      → HasLists x n
      → HasLists (released x list_path fd words ended) n
  released-HasLists x n list_path fd words ended h = record {
    fd_at = λ j a b. h.fd_at j (omega arith) b;
    fcl_at = λ j a b.
        get_elem?-set_ne x.cfi.fcls ended (let ne : x.i ≢ j = λ e. omega arith in ne)
        ∙ h.fcl_at j (omega arith) b;
    valid = λ j a b. h.valid j (omega arith) b;
  }

  step-eq :
      (path list_path : String) (files : List (String × String)) (x : ChunkFileInfoXml) (fd : ℤ)
      (fcl ended : FreeChunkList) (words : List ℕ)
      → get_elem? x.cfi.fds x.i ≡ some fd
      → get_elem? x.cfi.fcls x.i ≡ some fcl
      → host.list_opens list_path ≡ true
      → flush_free_chunk fcl true (host.writes list_path) ≡ some (pos 0, some words, ended)
      → handle (start_element_release host) (file_events ((path, list_path) ∷ files)) x
        ≡ handle
            (start_element_release host)
            (file_events files)
            (released x list_path fd words ended)
  unfolding handle start_element_release release_file
  step-eq path list_path files x fd fcl ended words a b o f = rw (a, b, o, f)

  -- The list that is written now, and those that are written later.
  lists_step :
      (path list_path : String) (files : List (String × String)) (x : ChunkFileInfoXml)
      (words : List ℕ) (after : ListFiles) (k : ℕ) (p q : String)
      → after list_path ≡ some words
      → IsSaved words (l x.i) (host.segments x.i) (host.reads list_path)
      → ((k : ℕ) (p q : String)
          → get_elem? files k ≡ some (p, q)
          → (words : List ℕ) × (after q ≡ some words)
            × IsSaved words (l (x.i + 1 + k)) (host.segments (x.i + 1 + k)) (host.reads q))
      → get_elem? ((path, list_path) ∷ files) k ≡ some (p, q)
      → (words : List ℕ) × (after q ≡ some words)
        × IsSaved words (l (x.i + k)) (host.segments (x.i + k)) (host.reads q)
  lists_step path list_path files x words after zero p q now s later at =
      let same : list_path ≡ q = ap (λ r. r.1) (some-inj at) in
      let here : x.i + 0 ≡ x.i = omega arith in (words, rw (← same) now, rw (here, ← same) s)
  lists_step path list_path files x words after (suc k) p q now s later at =
      let next : x.i + suc k ≡ x.i + 1 + k = omega arith in rw next (later k p q at)

  -- The loop over the elements.
  pub release_files :
      (files : List (String × String)) (x : ChunkFileInfoXml) (n : ℕ)
      → x.i + length files ≡ n
      → HasLists x n
      → HasOwnLists files
      → AllOpen host files
      → ((j : ℕ) → Gives (host.segments j))
      → ((q : String) → IsWhole (host.writes q) × IsWhole (host.reads q))
      → Wrote files x (handle (start_element_release host) (file_events files) x)
  unfolding handle
  release_files [] x n e h own opens g whole = record {
    after = record x { depth = pred_ℤ x.depth };
    returns = refl;
    lists_at = λ k path list_path at. cc;
    others = λ q o. refl;
  }
  release_files ((path, list_path) ∷ files) x n e h own opens g whole =
      let here : x.i < n = omega arith in
      let (fd, fd_at) = h.fd_at x.i (omega arith) here in
      let fcl_at = h.fcl_at x.i (omega arith) here in
      let (words, ended, again, flushed, read, same, valid) =
        flush-init (l x.i) (h.valid x.i (omega arith) here) (host.segments x.i) (g x.i)
          (host.writes list_path) (host.reads list_path) ((whole list_path).0)
          ((whole list_path).1) in
      let x' = released x list_path fd words ended in
      let r : Wrote files x' (handle (start_element_release host) (file_events files) x') =
        release_files files x' n (omega arith) (released-HasLists x n list_path fd words ended h)
          (own.1) (opens.1) g whole in
      record {
        after = r.after;
        returns =
            step-eq path list_path files x fd (l x.i) ended words fd_at fcl_at (opens.0) flushed
            ∙ r.returns;
        lists_at = λ k p q at.
            lists_step path list_path files x words (r.after.lists) k p q
              (r.others list_path (own.0) ∙ saved_same x.lists list_path words)
              (record { again = again; returns = read; same = same; valid = valid }) (r.lists_at)
              at;
        others = λ q o. r.others q (o.1) ∙ saved_other x.lists list_path q words (o.0);
      }
