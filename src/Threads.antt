-- ===== src/Threads.antt =====
-- src/io/buffer-queue.h and src/io/thread-mgr.c: the ring of blocks between the producer thread and
-- the consumer thread (`NUM_SERVER_THREADS` is 1, so there is one of each and one queue). A step of
-- a thread is one statement on the shared queue; the threads' steps interleave in any order. The
-- semaphores are counters, and a thread that cannot pass one is blocked.
pub mod Ring
pub mod Running
pub mod Producer
pub mod Consumer
pub mod Fifo
pub mod Progress
pub mod Start
pub mod Starting
mod Tests
use agilefs.Prelude.{
  ℕ, zero, suc, ◌+◌, ◌-◌, ◌%◌, ◌≡◌, ltb, if◌then◌else◌, Bool, true, false, Option, none, some, List,
  [], ◌∷◌, ◌++◌, length, get_elem?, set, replicate,
}
use agilefs.Prelude.Int.{ℤ, pos, eqb_ℤ}
use agilefs.Platform.{Key}
use agilefs.HashDb.{hash_to_index}

abbrev pub buff_queue_size : ℕ
buff_queue_size = 8

-- A block with its hash, as a producer has them.
pub record Item : Type 0 where
  pub key : Key
  pub chunk : List ℕ

-- `struct buffer_queue`: `hk` and `cd` have `BUFF_QUEUE_SIZE` entries, `locked` is the mutex.
pub record BufferQueue : Type 0 where
  pub empty : ℕ
  pub full : ℕ
  pub locked : Bool
  pub head : ℕ
  pub tail : ℕ
  pub hk : List Key
  pub cd : List (List ℕ)

-- Where the producer is in its loop, with its `hash_key` and `chunk_data`.
pub data ProducerAt : Type 0 where
  fetch post_full stopped : ProducerAt
  want_slot copy_data copy_key move_tail : Item → ProducerAt

-- Where the consumer is.
pub data ConsumerAt : Type 0 where
  want_item lock take_key : ConsumerAt
  take_data : Key → ConsumerAt
  move_head unlock post_empty put : Item → ConsumerAt

-- Both threads and the queue. `fetched` and `stored` record what `get_one_chunk` gave and what
-- `put_new_chunk` was called with, in order.
pub record Threads : Type 0 where
  pub bq : BufferQueue
  pub producer : ProducerAt
  pub consumer : ConsumerAt
  pub over : Bool
  pub fetched : List Item
  pub stored : List Item

pub data Outcome : Type 0 where
  next : Threads → Outcome
  blocked fault : Outcome

abbrev write_chunk : BufferQueue → List ℕ → BufferQueue
write_chunk bq chunk = record bq { cd = set bq.cd bq.tail chunk }

abbrev write_key : BufferQueue → Key → BufferQueue
write_key bq key = record bq { hk = set bq.hk bq.tail key }

-- A step of `producer_thread_fun`. `got` is what the operation `get_one_chunk`, a pointer in `tio_ops`,
-- leaves in `chunk_data` and `hash_key`, nothing where it returns 0 or less. The operation is a
-- parameter: one that takes its arguments in the order of the call here (data, key, size). An operation
-- with the order of `thread_io_operations` (key, data, size), as `test_get_one_chunk` is, would write
-- past `hash_key`, and is not modelled here. A hash that indexes no queue is a fault.
pub producer_at : ProducerAt → Option Item → Threads → Outcome
producer_at fetch none s = next (record s { producer = stopped; over = true })
producer_at fetch (some item) s =
    if eqb_ℤ (hash_to_index item.key) (pos 0)
    then next (record s { producer = want_slot item; fetched = s.fetched ++ item ∷ [] })
    else fault
producer_at (want_slot item) got s =
    if ltb 0 s.bq.empty
    then next (record s { bq = record s.bq { empty = s.bq.empty - 1 }; producer = copy_data item })
    else blocked
producer_at (copy_data item) got s =
    next (record s { bq = write_chunk s.bq item.chunk; producer = copy_key item })
producer_at (copy_key item) got s =
    next (record s { bq = write_key s.bq item.key; producer = move_tail item })
producer_at (move_tail item) got s = next (record s {
  bq = record s.bq { tail = (s.bq.tail + 1) % buff_queue_size };
  producer = post_full;
})
producer_at post_full got s =
    next (record s { bq = record s.bq { full = s.bq.full + 1 }; producer = fetch })
producer_at stopped got s = blocked

pub producer_step : Option Item → Threads → Outcome
unfolding producer_at
producer_step got s = producer_at s.producer got s

-- What `memcpy` takes out of an entry.
pub taken : Option Key → Threads → Outcome
taken none s = fault
taken (some key) s = next (record s { consumer = take_data key })

pub taken_chunk : Key → Option (List ℕ) → Threads → Outcome
taken_chunk key none s = fault
taken_chunk key (some chunk) s =
    next (record s { consumer = move_head (record { key = key; chunk = chunk }) })

-- A step of `consumer_thread_fun`.
pub consumer_at : ConsumerAt → Threads → Outcome
unfolding taken taken_chunk
consumer_at want_item s =
    if ltb 0 s.bq.full
    then next (record s { bq = record s.bq { full = s.bq.full - 1 }; consumer = lock })
    else blocked
consumer_at lock s =
    if s.bq.locked
    then blocked
    else next (record s { bq = record s.bq { locked = true }; consumer = take_key })
consumer_at take_key s = taken (get_elem? s.bq.hk s.bq.head) s
consumer_at (take_data key) s = taken_chunk key (get_elem? s.bq.cd s.bq.head) s
consumer_at (move_head item) s = next (record s {
  bq = record s.bq { head = (s.bq.head + 1) % buff_queue_size };
  consumer = unlock item;
})
consumer_at (unlock item) s =
    next (record s { bq = record s.bq { locked = false }; consumer = post_empty item })
consumer_at (post_empty item) s =
    next (record s { bq = record s.bq { empty = s.bq.empty + 1 }; consumer = put item })
consumer_at (put item) s = next (record s { consumer = want_item; stored = s.stored ++ item ∷ [] })

pub consumer_step : Threads → Outcome
unfolding consumer_at
consumer_step s = consumer_at s.consumer s

-- The queue that `init_buffer_queue` sets up, where `hk` and `cd` hold whatever `malloc` gave.
abbrev pub new_queue : List Key → List (List ℕ) → BufferQueue
new_queue hk cd = record {
  empty = buff_queue_size;
  full = 0;
  locked = false;
  head = 0;
  tail = 0;
  hk = hk;
  cd = cd;
}

abbrev pub started : List Key → List (List ℕ) → Threads
started hk cd = record {
  bq = new_queue hk cd;
  producer = fetch;
  consumer = want_item;
  over = false;
  fetched = [];
  stored = [];
}

-- The states that the two threads can reach.
pub data Reaches (hk : List Key) (cd : List (List ℕ)) : Threads → Type 0 where
  start : Reaches hk cd (started hk cd)
  produces :
      {s s' : Threads} (got : Option Item)
      → Reaches hk cd s
      → producer_step got s ≡ next s'
      → Reaches hk cd s'
  consumes : {s s' : Threads} → Reaches hk cd s → consumer_step s ≡ next s' → Reaches hk cd s'
