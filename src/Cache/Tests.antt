-- ===== src/Cache/Tests.antt =====
-- A cache as it is when the program starts, all zeros (src/client/fuse_cache.c).
use agilefs.Prelude.{
  ◌≡◌, refl, sym, ap, ◌∙◌, arith, some-inj, length-replicate, get_elem?-replicate, lt-of-get_elem?,
  ℕ, Option, some, List, [], ◌∷◌, ◌++◌, get_elem?, get_or, replicate, true, false,
}
use agilefs.Platform.{Key}
use agilefs.Disk.{same_key}
use agilefs.Cache.{Way, Lines, line_of, cache_write, shifted}
use agilefs.Cache.Ways.{NotFrom}
use agilefs.Cache.Hit.{IsHit, cache_write-IsHit}
use agilefs.Cache.Coherent.{
  IsCoherent, WholeBlocks, Request, read, write, serve_all, AreAnswers, cache_answers,
}

abbrev no_hash : Key
no_hash = replicate 16 0

abbrev zero_way : Way
zero_way = record { hash = no_hash; block = replicate 4096 0; life = 0 }

abbrev initial : Lines
initial l = replicate 8 zero_way

initial_way : (k : ℕ) (w : Way) → get_elem? (replicate 8 zero_way) k ≡ some w → zero_way ≡ w
initial_way k w at =
    let lt = lt-of-get_elem? (replicate 8 zero_way) k w at in
    some-inj (
      sym (get_elem?-replicate 8 k zero_way (omega (arith, length-replicate {A = Way} 8 zero_way)))
      ∙ at)

abbrev hash : Key
hash = replicate 15 0 ++ (7 ∷ [])

hash-NotFrom : NotFrom 1 hash (initial (line_of hash))
hash-NotFrom k w le at e =
    let none_left : no_hash ≡ hash = ap (λ v. v.hash) (initial_way k w at) ∙ e in
    let differ : false ≡ true = ap (λ h. same_key h hash) none_left in cc

-- The three bytes, and the zeros that were there.
cache_write-IsHit_example :
    IsHit hash (1 ∷ 2 ∷ 3 ∷ []) initial (cache_write hash (1 ∷ 2 ∷ 3 ∷ []) initial)
cache_write-IsHit_example =
    cache_write-IsHit hash (1 ∷ 2 ∷ 3 ∷ []) initial (length-replicate {A = Way} 8 zero_way)
      hash-NotFrom (omega arith)

abbrev blocks_of : Key → List ℕ
blocks_of h = replicate 4096 (get_or h 15 0)

blocks_of-WholeBlocks : WholeBlocks blocks_of
blocks_of-WholeBlocks h = length-replicate {A = ℕ} 4096 (get_or h 15 0)

initial-IsCoherent : IsCoherent blocks_of initial
initial-IsCoherent l = record {
  eight = length-replicate {A = Way} 8 zero_way;
  blocks = λ k w at. rw (← initial_way k w at) refl;
}

abbrev requests : List Request
requests = read hash 4096 ∷ write hash ∷ read hash 4096 ∷ read hash 100 ∷ []

cache_answers_example :
    (answers : List (Option (List ℕ))) × (serve_all blocks_of requests initial ≡ some answers)
    × AreAnswers blocks_of requests answers
cache_answers_example =
    cache_answers blocks_of requests initial blocks_of-WholeBlocks initial-IsCoherent
      (omega arith, (omega arith, (omega arith, tt)))

line_of_hash : line_of hash ≡ 7
unfolding line_of shifted
line_of_hash = refl
