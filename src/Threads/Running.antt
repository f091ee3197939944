-- ===== src/Threads/Running.antt =====
-- What holds of the producer, the consumer and the queue of src/io/thread-mgr.c between any two of
-- their steps.
use agilefs.Prelude.{
  ℕ, ◌+◌, ◌%◌, ◌<◌, ◌≡◌, refl, arith, Bool, true, false, some, List, [], ◌∷◌, ◌++◌, length,
  get_elem?, none-ne-some,
}
use agilefs.Threads.{
  Item, BufferQueue, ProducerAt, fetch, post_full, stopped, want_slot, copy_data, copy_key,
  move_tail, ConsumerAt, want_item, lock, take_key, take_data, move_head, unlock, post_empty, put,
  Threads, started,
}
use agilefs.Threads.Ring.{IsRing}
use agilefs.Platform.{Key}

-- The item that a thread has, outside the queue.
abbrev pub produced : ProducerAt → List Item
produced (want_slot x) = x ∷ []
produced (copy_data x) = x ∷ []
produced (copy_key x) = x ∷ []
produced (move_tail x) = x ∷ []
produced fetch = []
produced post_full = []
produced stopped = []

abbrev pub consumed : ConsumerAt → List Item
consumed (unlock x) = x ∷ []
consumed (post_empty x) = x ∷ []
consumed (put x) = x ∷ []
consumed want_item = []
consumed lock = []
consumed take_key = []
consumed (take_data k) = []
consumed (move_head x) = []

-- 1 where the producer has passed `empty` and not yet posted `full`; and where the item is in the
-- queue by then.
abbrev pub filling : ProducerAt → ℕ
filling (copy_data x) = 1
filling (copy_key x) = 1
filling (move_tail x) = 1
filling post_full = 1
filling fetch = 0
filling stopped = 0
filling (want_slot x) = 0

abbrev pub queued : ProducerAt → ℕ
queued post_full = 1
queued (copy_data x) = 0
queued (copy_key x) = 0
queued (move_tail x) = 0
queued fetch = 0
queued stopped = 0
queued (want_slot x) = 0

-- 1 where the consumer has passed `full` and not yet posted `empty`; and where the item is in the
-- queue still.
abbrev pub draining : ConsumerAt → ℕ
draining lock = 1
draining take_key = 1
draining (take_data k) = 1
draining (move_head x) = 1
draining (unlock x) = 1
draining (post_empty x) = 1
draining want_item = 0
draining (put x) = 0

abbrev pub unmoved : ConsumerAt → ℕ
unmoved lock = 1
unmoved take_key = 1
unmoved (take_data k) = 1
unmoved (move_head x) = 1
unmoved (unlock x) = 0
unmoved (post_empty x) = 0
unmoved want_item = 0
unmoved (put x) = 0

abbrev pub holds_lock : ConsumerAt → Bool
holds_lock take_key = true
holds_lock (take_data k) = true
holds_lock (move_head x) = true
holds_lock (unlock x) = true
holds_lock lock = false
holds_lock (post_empty x) = false
holds_lock want_item = false
holds_lock (put x) = false

-- What the producer has copied into the slot at `tail`.
abbrev pub Copied : BufferQueue → ProducerAt → Type 0
Copied bq (copy_key x) = get_elem? bq.cd bq.tail ≡ some x.chunk
Copied bq (move_tail x) =
    (get_elem? bq.cd bq.tail ≡ some x.chunk) × (get_elem? bq.hk bq.tail ≡ some x.key)
Copied bq fetch = Unit
Copied bq post_full = Unit
Copied bq stopped = Unit
Copied bq (want_slot x) = Unit
Copied bq (copy_data x) = Unit

-- What the consumer has taken of the first item of the queue.
abbrev pub Taken : List Item → ConsumerAt → Type 0
Taken q (take_data k) = (x : Item) × (xs : List Item) × (q ≡ x ∷ xs) × (x.key ≡ k)
Taken q (move_head x) = (xs : List Item) × (q ≡ x ∷ xs)
Taken q want_item = Unit
Taken q lock = Unit
Taken q take_key = Unit
Taken q (unlock x) = Unit
Taken q (post_empty x) = Unit
Taken q (put x) = Unit

pub record IsRunning (bq : BufferQueue) (p : ProducerAt) (c : ConsumerAt)
    (fetched stored : List Item) : Type 0 where
  pub q : List Item
  pub ring : IsRing bq.hk bq.cd bq.head q
  pub hk_size : length bq.hk ≡ 8
  pub cd_size : length bq.cd ≡ 8
  pub head_in : bq.head < 8
  pub tail_at : bq.tail ≡ (bq.head + length q) % 8
  pub slots : bq.empty + bq.full + filling p + draining c ≡ 8
  pub items : length q ≡ bq.full + queued p + unmoved c
  pub mutex : bq.locked ≡ holds_lock c
  pub copied : Copied bq p
  pub taken : Taken q c
  pub order : fetched ≡ stored ++ (consumed c ++ (q ++ produced p))

-- The invariant of the whole.
abbrev pub Runs : Threads → Type 0
Runs s = IsRunning s.bq s.producer s.consumer s.fetched s.stored

pub started-Runs :
    (hk : List Key) (cd : List (List ℕ)) → length hk ≡ 8 → length cd ≡ 8 → Runs (started hk cd)
started-Runs hk cd h c = record {
  q = [];
  ring = λ i x e. absurd (none-ne-some e);
  hk_size = h;
  cd_size = c;
  head_in = omega arith;
  tail_at = refl;
  slots = refl;
  items = refl;
  mutex = refl;
  copied = tt;
  taken = tt;
  order = refl;
}
