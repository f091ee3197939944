-- ===== src/Cache.antt =====
-- src/client/fuse_cache.c under WITH_CACHE: 1024 lines of eight ways, each with a hash, a block and a
-- life. Without WITH_CACHE `cache_read` returns 0 and `cache_write` does nothing. `none` is an access
-- outside the arrays.
pub mod Ways
pub mod Hit
pub mod Coherent
mod Tests
use agilefs.Prelude.{
  ℕ, zero, suc, ◌+◌, ◌-◌, ◌*◌, ◌%◌, ◌^◌, ltb, leb, ◌==◌, if◌then◌else◌, Bool, true, false, Option,
  none, some, ◌>>=◌, assert, List, [], ◌∷◌, ◌++◌, length, get_elem?, set, take, drop,
}
use agilefs.Platform.{Key}
use agilefs.Disk.{same_key}

abbrev pub block_bytes : ℕ
block_bytes = 4096

abbrev pub cache_lines : ℕ
cache_lines = 1024

abbrev pub cache_ways : ℕ
cache_ways = 8

abbrev pub max_life : ℕ
max_life = 2 ^ 16 - 1

pub record Way : Type 0 where
  pub hash : Key
  pub block : List ℕ
  pub life : ℕ

-- The ways of each line.
abbrev pub Lines : Type 0
Lines = ℕ → List Way

-- The loop over the hash: an `int` of 32 bits that is shifted by 8.
unfoldable pub shifted : ℕ → Key → ℕ
shifted line [] = line
shifted line (b ∷ hash) = shifted ((line * 256 + b) % 2 ^ 32) hash

unfoldable pub line_of : Key → ℕ
unfolding shifted
line_of hash = shifted 0 hash % cache_lines

abbrev pub replaced : Lines → ℕ → List Way → Lines
replaced cache line ways l = if l == line then ways else cache l

-- `--life`, of 16 bits.
abbrev pub aged : Way → Way
aged w = record w { life = (w.life + max_life) % 2 ^ 16 }

-- The loop of `cache_read`, with the last way that holds the hash: `cache.life_arr > 0` is a test of
-- an address, and true.
unfoldable pub scan : Key → List Way → Option Way → List Way × Option Way
scan hash [] found = ([], found)
scan hash (w ∷ ways) found =
    if same_key w.hash hash
    then (let (rest, last) = scan hash ways (some w) in (w ∷ rest, last))
    else (let (rest, last) = scan hash ways found in (aged w ∷ rest, last))

-- The bytes that are copied to the buffer, and `none` for the return of 0.
unfoldable pub cache_read : Key → ℕ → Lines → Option (Option (List ℕ) × Lines)
unfolding line_of scan
cache_read hash size cache =
    let line = line_of hash in
    let (ways, found) = scan hash (cache line) none in
    let cache' = replaced cache line ways in
    elim found [
      | none ↦ some (none, cache')
      | some w ↦ assert (leb size block_bytes) (some (some (take size w.block), cache'))
    ]

-- The way that the loop of `cache_write` ends with: one that holds the hash, or one to use.
pub data Choice : Type 0 where
  refill : ℕ → Choice
  victim : ℕ → Choice

-- The loop from way `i` on, with `left` ways to go and `way` the best so far.
unfoldable pub choose_from : ℕ → ℕ → ℕ → Key → List Way → Option Choice
choose_from zero i way hash ways = some (victim way)
choose_from (suc left) i way hash ways = do
  w ← get_elem? ways i
  v ← get_elem? ways way
  elim (same_key w.hash hash) [
    | true ↦ some (refill i)
    | false ↦ choose_from left (i + 1) (if ltb w.life v.life then i else way) hash ways
  ]

-- `memcpy` of the buffer over the block of a way.
abbrev pub copied : List ℕ → List ℕ → List ℕ
copied buf block = buf ++ drop (length buf) block

unfoldable pub fill : Choice → Key → List ℕ → List Way → Option (List Way)
fill (refill i) hash buf ways = do
  w ← get_elem? ways i
  some (set ways i (record w { life = max_life }))
fill (victim i) hash buf ways = do
  w ← get_elem? ways i
  assert (leb (length buf) block_bytes)
      (some (set ways i (record { hash = hash; block = copied buf w.block; life = max_life })))

-- `buf` is the `size` bytes that the C function is given.
unfoldable pub cache_write : Key → List ℕ → Lines → Option Lines
unfolding line_of choose_from fill
cache_write hash buf cache = do
  let line = line_of hash
  choice ← choose_from (cache_ways - 1) 1 0 hash (cache line)
  ways ← fill choice hash buf (cache line)
  some (replaced cache line ways)
