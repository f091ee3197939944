-- ===== src/Cache/Coherent.antt =====
-- A cache that is given whole blocks never answers with another block (src/client/fuse_cache.c).
use agilefs.Prelude.{
  inl, inr, ◌≤◌, ◌<◌, ◌≡◌, refl, sym, ap, ◌∙◌, arith, Bool-cases, Option-cases, some-inj,
  none-ne-some, le→leb, get_elem?-lt, get_elem?-set_ne, get_elem?-set_self, length-set, ==→eq, ne→≢,
  drop-length, append-nil, ℕ, ◌==◌, Option, none, some, ◌>>=◌, List, [], ◌∷◌, length, get_elem?,
  set, take, drop,
}
use agilefs.Platform.{Key}
use agilefs.Cache.{
  Way, Lines, Choice, refill, victim, scan, fill, copied, replaced, line_of, block_bytes,
  cache_ways, max_life, cache_read, cache_write,
}
use agilefs.Cache.Ways.{
  scan-ways, scan-length, scan-IsFound, IsFound, choose_from-returns, IsWithin,
}
use agilefs.Cache.Hit.{write-eq}

-- Hashes are of blocks: `content` gives the block of each.
module _ (content : Key → List ℕ) where
  -- The ways of one line.
  pub record IsLine (ways : List Way) : Type 0 where
    pub eight : length ways ≡ cache_ways
    pub blocks : (k : ℕ) (w : Way) → get_elem? ways k ≡ some w → w.block ≡ content w.hash

  -- Every way holds the block of its hash.
  abbrev pub IsCoherent : Lines → Type 0
  IsCoherent cache = (l : ℕ) → IsLine (cache l)

  abbrev pub WholeBlocks : Type 0
  WholeBlocks = (hash : Key) → length (content hash) ≡ block_bytes

  replaced-IsCoherent :
      (cache : Lines) (l : ℕ) (ways : List Way)
      → IsCoherent cache
      → IsLine ways
      → IsCoherent (replaced cache l ways)
  replaced-IsCoherent cache l ways c line j = elim (Bool-cases (j == l)) [
    | inl e ↦ rw e line
    | inr e ↦ rw e (c j)
  ]

  scan-IsLine :
      (hash : Key) (ways : List Way) (found : Option Way)
      → IsLine ways
      → IsLine (scan hash ways found).0
  scan-IsLine hash ways found line = record {
    eight = scan-length hash ways found ∙ line.eight;
    blocks = λ k w at.
        let (v, v_at, old) = scan-ways hash ways found k w at in
        old.same_block ∙ line.blocks k v v_at ∙ ap content (sym old.same_hash);
  }

  set-IsLine :
      (ways : List Way) (k : ℕ) (w : Way)
      → k < length ways
      → IsLine ways
      → w.block ≡ content w.hash
      → IsLine (set ways k w)
  set-IsLine ways k w lt line e = record {
    eight = length-set ways k w ∙ line.eight;
    blocks = λ j v at. elim (Bool-cases (k == j)) [
      | inl same ↦
          let x : k ≡ j = ==→eq k j same in
          let y : w ≡ v = some-inj (sym (get_elem?-set_self ways k w lt) ∙ rw (← x) at at) in
          rw (← y) e
      | inr other ↦ line.blocks j v (sym (get_elem?-set_ne ways w (ne→≢ k j other)) ∙ at)
    ];
  }

  -- A new block covers the old one.
  copied-whole :
      (hash : Key) (w : Way)
      → WholeBlocks
      → w.block ≡ content w.hash
      → copied (content hash) w.block ≡ content hash
  copied-whole hash w whole e =
      let none_left : drop (length (content hash)) w.block ≡ [] =
        drop-length w.block (ap length e ∙ whole w.hash ∙ sym (whole hash)) in
      rw none_left (append-nil (content hash))

  fill-IsLine :
      (c : Choice) (hash : Key) (ways : List Way)
      → WholeBlocks
      → IsLine ways
      → IsWithin c (length ways)
      → (ways' : List Way) × (fill c hash (content hash) ways ≡ some ways') × IsLine ways'
  unfolding fill
  fill-IsLine (refill k) hash ways whole line lt =
      let (w, at) = get_elem?-lt ways k lt in
      let w' : Way = record w { life = max_life } in
      (set ways k w', rw at, set-IsLine ways k w' lt line (line.blocks k w at))
  fill-IsLine (victim k) hash ways whole line lt =
      let (w, at) = get_elem?-lt ways k lt in
      let w' : Way = record {
        hash = hash;
        block = copied (content hash) w.block;
        life = max_life;
      } in
      (
        set ways k w',
        rw (at, le→leb (length (content hash)) block_bytes (omega (arith, whole hash))),
        set-IsLine ways k w' lt line (copied-whole hash w whole (line.blocks k w at)),
      )

  write-step :
      (hash : Key) (cache : Lines)
      → WholeBlocks
      → IsCoherent cache
      → (after : Lines) × (cache_write hash (content hash) cache ≡ some after) × IsCoherent after
  write-step hash cache whole c =
      let l = line_of hash in
      let line : IsLine (cache l) = c l in
      let (choice, chosen, within) =
        choose_from-returns 7 1 0 hash (cache l) (omega (arith, line.eight))
          (omega (arith, line.eight)) in
      let (ways', filled, line') = fill-IsLine choice hash (cache l) whole line within in
      (
        replaced cache l ways',
        write-eq hash (content hash) cache choice ways' chosen filled,
        replaced-IsCoherent cache l ways' c line',
      )

  -- An answer is no block, or the start of the right one.
  abbrev pub IsAnswer : Key → ℕ → Option (List ℕ) → Type 0
  IsAnswer hash n none = Unit
  IsAnswer hash n (some bytes) = bytes ≡ take n (content hash)

  found-IsAnswer :
      (hash : Key) (n : ℕ) (ways : List Way) (w : Way)
      → IsLine ways
      → IsFound hash ways none w
      → IsAnswer hash n (some (take n w.block))
  found-IsAnswer hash n ways w line (inl (k, at, e)) = rw (line.blocks k w at, e)
  found-IsAnswer hash n ways w line (inr e) = absurd (none-ne-some e)

  read-step :
      (hash : Key) (n : ℕ) (cache : Lines)
      → n ≤ block_bytes
      → IsCoherent cache
      → (answer : Option (List ℕ)) × (after : Lines) × (cache_read hash n cache
          ≡ some (answer, after))
        × IsAnswer hash n answer
        × IsCoherent after
  unfolding cache_read
  read-step hash n cache le c =
      let ways = cache (line_of hash) in
      let after = replaced cache (line_of hash) (scan hash ways none).0 in
      let later : IsCoherent after =
        replaced-IsCoherent cache (line_of hash) (scan hash ways none).0 c
          (scan-IsLine hash ways none (c (line_of hash))) in
      elim (Option-cases (scan hash ways none).1) [
        | inl missed ↦ (none, after, rw (cache_read, missed), tt, later)
        | inr (w, hit) ↦ (
          some (take n w.block),
          after,
          rw (cache_read, hit, le→leb n block_bytes le),
          found-IsAnswer hash n ways w (c (line_of hash)) (scan-IsFound hash ways none w hit),
          later,
        )
      ]

-- Calls in any order: a read, or a write of the whole block of a hash.
pub data Request : Type 0 where
  read : Key → ℕ → Request
  write : Key → Request

abbrev pub serve : (Key → List ℕ) → Request → Lines → Option (Option (List ℕ) × Lines)
serve content (read hash n) cache = cache_read hash n cache
serve content (write hash) cache = do
  after ← cache_write hash (content hash) cache
  some (none, after)

abbrev pub serve_all : (Key → List ℕ) → List Request → Lines → Option (List (Option (List ℕ)))
serve_all content [] cache = some []
serve_all content (r ∷ requests) cache = do
  (answer, after) ← serve content r cache
  answers ← serve_all content requests after
  some (answer ∷ answers)

abbrev pub Fits : List Request → Type 0
Fits [] = Unit
Fits (read hash n ∷ requests) = (n ≤ block_bytes) × Fits requests
Fits (write hash ∷ requests) = Fits requests

abbrev pub AreAnswers : (Key → List ℕ) → List Request → List (Option (List ℕ)) → Type 0
AreAnswers content [] [] = Unit
AreAnswers content [] (answer ∷ answers) = ⊥
AreAnswers content (r ∷ requests) [] = ⊥
AreAnswers content (read hash n ∷ requests) (answer ∷ answers) =
    IsAnswer content hash n answer × AreAnswers content requests answers
AreAnswers content (write hash ∷ requests) (answer ∷ answers) = AreAnswers content requests answers

-- From a cache whose ways hold the blocks of their hashes, any sequence of calls of `cache_read`, for
-- at most a block, and `cache_write`, of the whole block of a hash, runs to its end, and each read
-- gives nothing or the start of the block of its hash.
pub cache_answers :
    (content : Key → List ℕ) (requests : List Request) (cache : Lines)
    → WholeBlocks content
    → IsCoherent content cache
    → Fits requests
    → (answers : List (Option (List ℕ))) × (serve_all content requests cache ≡ some answers)
      × AreAnswers content requests answers
cache_answers content [] cache whole c fits = ([], refl, tt)
cache_answers content (read hash n ∷ requests) cache whole c (le, fits) =
    let (answer, after, returns, right, later) = read-step content hash n cache le c in
    let (answers, rest, all) = cache_answers content requests after whole later fits in
    (answer ∷ answers, rw (returns, rest), (right, all))
cache_answers content (write hash ∷ requests) cache whole c fits =
    let (after, returns, later) = write-step content hash cache whole c in
    let (answers, rest, all) = cache_answers content requests after whole later fits in
    (none ∷ answers, rw (returns, rest), all)
