-- ===== src/Cache/Hit.antt =====
-- A block that was put in the cache is found there (src/client/fuse_cache.c).
use agilefs.Prelude.{
  ◌≢◌, ◌≤◌, ◌≡◌, refl, sym, ◌∙◌, arith, get_elem?-lt, get_elem?-set_ne, get_elem?-set_self, ℕ,
  le→leb, ◌==◌, true, Option, none, some, List, length, get_elem?, set, take,
}
use agilefs.Platform.{Key}
use agilefs.Cache.{
  Way, Lines, Choice, victim, scan, choose_from, fill, copied, replaced, line_of, block_bytes,
  cache_ways, max_life, cache_read, cache_write,
}
use agilefs.Cache.Ways.{NotFrom, scan-last, choose_from-victim}

pub replaced_here : (cache : Lines) (l : ℕ) (ways : List Way) → replaced cache l ways l ≡ ways
replaced_here cache l ways = let here : (l == l) ≡ true = ground arith in rw here

-- The block that a write leaves is read, up to any size, whatever the way held behind it.
pub record IsHit (hash : Key) (buf : List ℕ) (cache : Lines) (m : Option Lines) : Type 0 where
  pub after : Lines
  pub returns : m ≡ some after
  pub way : ℕ
  pub old : Way
  pub old_at : get_elem? (cache (line_of hash)) way ≡ some old
  pub hits :
      (n : ℕ)
      → n ≤ block_bytes
      → (later : Lines) × (cache_read hash n after
          ≡ some (some (take n (copied buf old.block)), later))

fill-eq :
    (k : ℕ) (hash : Key) (buf : List ℕ) (ways : List Way) (old : Way)
    → get_elem? ways k ≡ some old
    → length buf ≤ block_bytes
    → fill (victim k) hash buf ways
      ≡ some (set ways k (record { hash = hash; block = copied buf old.block; life = max_life }))
unfolding fill
fill-eq k hash buf ways old at le = rw (at, le→leb (length buf) block_bytes le)

pub write-eq :
    (hash : Key) (buf : List ℕ) (cache : Lines) (c : Choice) (ways : List Way)
    → choose_from 7 1 0 hash (cache (line_of hash)) ≡ some c
    → fill c hash buf (cache (line_of hash)) ≡ some ways
    → cache_write hash buf cache ≡ some (replaced cache (line_of hash) ways)
unfolding cache_write
write-eq hash buf cache c ways e f = rw (cache_write, e, f)

pub read-eq :
    (hash : Key) (n : ℕ) (cache : Lines) (w : Way)
    → (scan hash (cache (line_of hash)) none).1 ≡ some w
    → n ≤ block_bytes
    → (later : Lines) × (cache_read hash n cache ≡ some (some (take n w.block), later))
unfolding cache_read
read-eq hash n cache w e le = (
  replaced cache (line_of hash) (scan hash (cache (line_of hash)) none).0,
  rw (cache_read, e, le→leb n block_bytes le),
)

-- `cache_write` of at most 4096 bytes under a hash that none of the last seven ways of its line holds
-- returns, and `cache_read` of up to 4096 bytes then finds those bytes, followed by what the way
-- held behind them before.
pub cache_write-IsHit :
    (hash : Key) (buf : List ℕ) (cache : Lines)
    → length (cache (line_of hash)) ≡ cache_ways
    → NotFrom 1 hash (cache (line_of hash))
    → length buf ≤ block_bytes
    → IsHit hash buf cache (cache_write hash buf cache)
cache_write-IsHit hash buf cache eight absent le =
    let ways = cache (line_of hash) in
    let (k, chosen, lt) =
      choose_from-victim 7 1 0 hash ways (omega (arith, eight)) (omega (arith, eight)) absent in
    let (old, old_at) = get_elem?-lt ways k lt in
    let new : Way = record { hash = hash; block = copied buf old.block; life = max_life } in
    let ways' = set ways k new in
    let cache' = replaced cache (line_of hash) ways' in
    let found : (scan hash ways' none).1 ≡ some new =
      scan-last hash ways' k new none (get_elem?-set_self ways k new lt) refl (λ j w after_k at.
        absent j w (omega arith)
          (sym (get_elem?-set_ne ways new (let ne : k ≢ j = λ e. omega arith in ne)) ∙ at)) in
    let here : cache' (line_of hash) ≡ ways' = replaced_here cache (line_of hash) ways' in
    record {
      after = cache';
      returns =
          write-eq hash buf cache (victim k) ways' chosen (fill-eq k hash buf ways old old_at le);
      way = k;
      old = old;
      old_at = old_at;
      hits = λ n n_le. read-eq hash n cache' new (rw here found) n_le;
    }
