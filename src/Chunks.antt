-- ===== src/Chunks.antt =====
-- src/server/chunks.h and chunks.c: the stack of free chunks of one chunk file, kept in segments of
-- `PER_LIST_SIZE` entries, and its file of 32-bit words. A number of the C type `unsigned` is its
-- value, an `int` that may be negative is a `ℤ`. `none` is undefined behaviour: a null or freed
-- segment, or an index outside `base`.
pub mod Segments
pub mod Stack
pub mod Push
pub mod Saved
pub mod Restart
mod Tests
use agilefs.Prelude.{
  ℕ, Bool, true, false, zero, suc, ◌+◌, ◌-◌, ◌*◌, ◌/◌, ◌%◌, ltb, leb, ◌==◌, if◌then◌else◌, Option,
  none, some, ◌>>=◌, assert, List, [], ◌∷◌, ◌++◌, length, get_elem?, get_or, set, take, drop,
  replicate,
}
use agilefs.Prelude.Int.{ℤ, pos, negsuc, minus_one, succ_ℤ, pred_ℤ, int_of_u32, u32_of_int}

abbrev pub free_chunk_max : ℕ
free_chunk_max = 1024

abbrev pub per_list_size : ℕ
per_list_size = 1024

-- A pointer to `PER_LIST_SIZE` entries; `none` is NULL.
abbrev pub Segment : Type 0
Segment = Option (List ℕ)

pub record FreeChunkList : Type 0 where
  pub total_cnt : ℕ
  pub current : ℤ
  pub base : List Segment

-- The macro `free_list(fclp, current)`, read and written. `>> PER_LIST_OFFSET` and
-- `& (PER_LIST_SIZE - 1)` are the quotient and the remainder by 1024.
unfoldable pub segment_at : List Segment → ℕ → Option (List ℕ)
segment_at base c = get_elem? base (c / per_list_size) >>= λ p. p

unfoldable pub free_list : List Segment → ℕ → Option ℕ
unfolding segment_at
free_list base c = do seg ← segment_at base c; get_elem? seg (c % per_list_size)

unfoldable pub set_free_list : List Segment → ℕ → ℕ → Option (List Segment)
unfolding segment_at
set_free_list base c v = do
  seg ← segment_at base c
  assert (ltb (c % per_list_size) (length seg))
      (some (set base (c / per_list_size) (some (set seg (c % per_list_size) v))))

-- The first free chunk, or -1. The entry is an `unsigned` that is returned as an `int`.
unfoldable pub get_first_free_chunk : FreeChunkList → Option (ℤ × FreeChunkList)
get_first_free_chunk fcl = elim fcl.current [
  | pos c ↦ do
    v ← free_list fcl.base c
    some (int_of_u32 v, record fcl { current = pred_ℤ (pos c) })
  | negsuc n ↦ if n == 0 then some (minus_one, fcl) else none
]

-- A new segment, if the index asks for one. `p` is what `malloc` returns, with whatever it holds.
unfoldable pub new_segment : FreeChunkList → ℕ → Segment → Option FreeChunkList
new_segment fcl c p =
    assert (ltb (c / per_list_size) (length fcl.base))
      (some (record fcl { base = set fcl.base (c / per_list_size) p }))

unfoldable pub store_chunk : FreeChunkList → ℕ → ℕ → Option (ℤ × FreeChunkList)
store_chunk fcl c offset = do
  base ← set_free_list fcl.base c offset
  some (pos 0, record fcl { base = base })

-- `fcl` has its `current` at `c` already.
unfoldable pub add_at : FreeChunkList → ℕ → ℕ → Segment → Option (ℤ × FreeChunkList)
unfolding new_segment store_chunk
add_at fcl c offset none =
    if leb fcl.total_cnt c
    then some (minus_one, record fcl { total_cnt = fcl.total_cnt + per_list_size })
    else store_chunk fcl c offset
add_at fcl c offset (some p) =
    if leb fcl.total_cnt c
    then (do
      grown ← new_segment (record fcl { total_cnt = fcl.total_cnt + per_list_size }) c (some p)
      store_chunk grown c offset)
    else store_chunk fcl c offset

unfoldable pub add_free_chunk : FreeChunkList → ℕ → Segment → Option (ℤ × FreeChunkList)
unfolding add_at
add_free_chunk fcl offset p = elim (succ_ℤ fcl.current) [
  | pos c ↦ add_at (record fcl { current = pos c }) c offset p
  | negsuc _ ↦ none
]

-- `memset` to 0 and `current = -1`.
abbrev pub empty_list : FreeChunkList
empty_list = record { total_cnt = 0; current = minus_one; base = replicate free_chunk_max none }

-- What the `k`-th `read` or `write` of a function moves of the words that it could move: the code does
-- not look at the result, so a call may fail or be short. A call is taken to move whole words.
abbrev pub Transfer : Type 0
Transfer = ℕ → List ℕ → List ℕ

-- What `read` puts into a segment: what it gets of the words that the file still has, over what
-- `malloc` gave. A null segment makes the call fail, and takes no words.
abbrev pub read_segment : (List ℕ → List ℕ) → Segment → List ℕ → Segment
read_segment reads none words = none
read_segment reads (some garbage) words =
    let got = reads (take per_list_size words) in some (got ++ drop (length got) garbage)

abbrev pub words_left : (List ℕ → List ℕ) → Segment → List ℕ → List ℕ
words_left reads none words = words
words_left reads (some garbage) words = drop (length (reads (take per_list_size words))) words

-- The loop of `init_free_chunk` from segment `i` on, `total` entries being left. It faults where
-- `total` is no multiple of the segment size, since `base` ends first. `malloc i` is what the
-- allocation for segment `i` returns.
pub load_segments :
    ℕ → ℕ → ℕ → (ℕ → Segment) → Transfer → List ℕ → List Segment → Option (List Segment)
load_segments zero i total malloc reads words base = if total == 0 then some base else none
load_segments (suc left) i total malloc reads words base =
    if total == 0
    then some base
    else (if ltb total per_list_size
        then none
        else load_segments left (i + 1) (total - per_list_size) malloc reads
            (words_left (reads (i + 1)) (malloc i) words)
            (set base i (read_segment (reads (i + 1)) (malloc i) words)))

-- The rest of `init_free_chunk` once `header` is read and `words` are left; `total` is the first word
-- of the header as an `int`. What was not read stays as `memset` and `current = -1` left it.
pub start_from : ℤ → List ℕ → List ℕ → (ℕ → Segment) → Transfer → Option (ℤ × FreeChunkList)
unfolding load_segments
start_from (negsuc _) header words malloc reads = none
start_from (pos total) header words malloc reads = do
  base ← load_segments free_chunk_max 0 total malloc reads words empty_list.base
  some (
    pos 0,
    record {
      total_cnt = total;
      current = int_of_u32 (get_or header 1 (u32_of_int minus_one));
      base = base;
    },
  )

-- The file of a list is given by the words that `read` and `write` move; `none` is no file, and
-- the test says whether `open` succeeds.
pub init_free_chunk : Option (List ℕ) → Bool → (ℕ → Segment) → Transfer → Option (ℤ × FreeChunkList)
unfolding start_from
init_free_chunk none opens malloc reads = some (pos 0, empty_list)
init_free_chunk (some words) false malloc reads = some (minus_one, empty_list)
init_free_chunk (some words) true malloc reads =
    let header = reads 0 (take 2 words) in
    start_from (int_of_u32 (get_or header 0 0)) header (drop (length header) words) malloc reads

-- The words of a segment; `write` of a null segment fails and writes nothing.
abbrev pub segment_words : Segment → List ℕ
segment_words none = []
segment_words (some seg) = seg

-- The loop of `flush_free_chunk`: segments `i` and up are written and freed.
pub flush_segments : ℕ → ℕ → Transfer → List Segment → Option (List ℕ × List Segment)
flush_segments zero i writes base = some ([], base)
flush_segments (suc left) i writes base = do
  p ← get_elem? base i
  (words, base') ← flush_segments left (i + 1) writes (set base i none)
  some (writes (i + 1) (segment_words p) ++ words, base')

-- `total & ~(PER_LIST_SIZE - 1)` and one segment more, in segments. Below -1024 the sum is
-- negative, and the loop runs off `base`.
pub segments_to_flush : ℤ → Option ℕ
segments_to_flush (pos c) = some (c / per_list_size + 1)
segments_to_flush (negsuc n) = if ltb n per_list_size then some 0 else none

-- The return code, what the file holds afterwards (`none` where it was not opened), and the list.
pub flush_free_chunk :
    FreeChunkList → Bool → Transfer → Option (ℤ × Option (List ℕ) × FreeChunkList)
unfolding flush_segments segments_to_flush
flush_free_chunk fcl false writes = some (minus_one, none, fcl)
flush_free_chunk fcl true writes = do
  n ← segments_to_flush fcl.current
  (words, base) ← flush_segments n 0 writes fcl.base
  let total = n * per_list_size
  some (
    pos 0,
    some (writes 0 (total ∷ u32_of_int fcl.current ∷ []) ++ words),
    record fcl { total_cnt = total; base = base },
  )
