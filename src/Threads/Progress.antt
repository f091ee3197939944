-- ===== src/Threads/Progress.antt =====
-- The producer and the consumer of src/io/thread-mgr.c never wait for each other, and never touch
-- the same slot at the same time.
use agilefs.Prelude.{
  ℕ, ◌+◌, ◌-◌, ◌≡◌, ◌≢◌, ◌⊎◌, inl, inr, refl, sym, arith, true, Option, none, some, List, [], ◌∷◌,
  ◌++◌, length, append-nil, Bool-cases, ltb, ltb→le, eq_nil,
}
use agilefs.Prelude.Int.{pos, eqb_ℤ}
use agilefs.HashDb.{hash_to_index}
use agilefs.Platform.{Key}
use agilefs.Threads.{
  Item, ProducerAt, fetch, post_full, stopped, want_slot, copy_data, copy_key, move_tail,
  ConsumerAt, want_item, lock, take_key, take_data, move_head, unlock, post_empty, put, Threads,
  Outcome, next, blocked, fault, producer_at, producer_step, consumer_at, consumer_step, Reaches,
  taken, taken_chunk,
}
use agilefs.Threads.Running.{IsRunning, produced, consumed, filling, queued, draining, unmoved}
use agilefs.Threads.Producer.{Keeps, IsIndexed, unmoved_le}
use agilefs.Threads.Consumer.{consumer_at-Keeps}
use agilefs.Threads.Fifo.{Reaches-Runs}

abbrev pub Moves : Outcome → Type 0
Moves o = (s : Threads) × (o ≡ next s)

Keeps-Moves : (o : Outcome) → Keeps o → o ≢ blocked → Moves o
Keeps-Moves (next s) k n = (s, refl)
Keeps-Moves blocked k n = absurd (n refl)
Keeps-Moves fault k n = absurd k

taken-ne-blocked : (o : Option Key) (s : Threads) → taken o s ≢ blocked
unfolding taken
taken-ne-blocked none s e = cc
taken-ne-blocked (some k) s e = cc

taken_chunk-ne-blocked :
    (key : Key) (o : Option (List ℕ)) (s : Threads) → taken_chunk key o s ≢ blocked
unfolding taken_chunk
taken_chunk-ne-blocked key none s e = cc
taken_chunk-ne-blocked key (some k) s e = cc

-- The one place where the consumer waits.
consumer_cases :
    (s : Threads) (c : ConsumerAt)
    → IsRunning s.bq s.producer c s.fetched s.stored
    → Moves (consumer_at c s) ⊎ ((c ≡ want_item) × (s.bq.full ≡ 0))
unfolding consumer_at
consumer_cases s want_item r = elim (Bool-cases (ltb 0 s.bq.full)) [
  | inl t ↦ inl (record s { bq = record s.bq { full = s.bq.full - 1 }; consumer = lock }, rw t)
  | inr f ↦ let z : s.bq.full ≡ 0 = omega (arith, ltb→le 0 s.bq.full f) in inr (refl, z)
]
consumer_cases s lock r =
    inl (record s { bq = record s.bq { locked = true }; consumer = take_key }, rw (r.mutex))
consumer_cases s take_key r =
    inl (Keeps-Moves _ (consumer_at-Keeps s take_key r) (taken-ne-blocked _ s))
consumer_cases s (take_data k) r =
    inl (Keeps-Moves _ (consumer_at-Keeps s (take_data k) r) (taken_chunk-ne-blocked k _ s))
consumer_cases s (move_head x) r = inl (_, refl)
consumer_cases s (unlock x) r = inl (_, refl)
consumer_cases s (post_empty x) r = inl (_, refl)
consumer_cases s (put x) r = inl (_, refl)

-- The producer waits only for a full queue, or it has stopped.
producer_cases :
    (s : Threads) (p : ProducerAt) (got : Option Item)
    → IsIndexed got
    → IsRunning s.bq p s.consumer s.fetched s.stored
    → Moves (producer_at p got s)
      ⊎ (((x : Item) × (p ≡ want_slot x)) × (s.bq.empty ≡ 0))
      ⊎ (p ≡ stopped)
unfolding producer_at
producer_cases s fetch none i r = inl (_, refl)
producer_cases s fetch (some x) i r =
    let ok : eqb_ℤ (hash_to_index x.key) (pos 0) ≡ true = rw i in
    inl (record s { producer = want_slot x; fetched = s.fetched ++ x ∷ [] }, rw ok)
producer_cases s (want_slot x) got i r = elim (Bool-cases (ltb 0 s.bq.empty)) [
  | inl t ↦
      inl (record s { bq = record s.bq { empty = s.bq.empty - 1 }; producer = copy_data x }, rw t)
  | inr f ↦
      let z : s.bq.empty ≡ 0 = omega (arith, ltb→le 0 s.bq.empty f) in inr (inl ((x, refl), z))
]
producer_cases s (copy_data x) got i r = inl (_, refl)
producer_cases s (copy_key x) got i r = inl (_, refl)
producer_cases s (move_tail x) got i r = inl (_, refl)
producer_cases s post_full got i r = inl (_, refl)
producer_cases s stopped got i r = inr (inr refl)

-- However the two threads interleave, where the arrays have 8 entries and the next hash that is fetched
-- indexes the one queue there is, one of them can go on, or the producer has stopped, the consumer
-- waits for a block, and every block that was fetched has been passed to `put_new_chunk`.
pub threads_do_not_deadlock :
    (hk : List Key) (cd : List (List ℕ)) (s : Threads) (got : Option Item)
    → length hk ≡ 8
    → length cd ≡ 8
    → Reaches hk cd s
    → IsIndexed got
    → Moves (producer_step got s)
      ⊎ Moves (consumer_step s)
      ⊎ ((s.producer ≡ stopped) × (s.consumer ≡ want_item) × (s.stored ≡ s.fetched))
unfolding producer_step consumer_step
threads_do_not_deadlock hk cd s got h c reach i =
    let r = Reaches-Runs s h c reach in
    elim (producer_cases s s.producer got i r) [
      | inl moves ↦ inl moves
      | inr waits ↦ elim (consumer_cases s s.consumer r) [
        | inl moves ↦ inr (inl moves)
        | inr (at, none_full) ↦ elim waits [
          | inl ((x, at'), none_empty) ↦
              let slots : s.bq.empty + s.bq.full + filling (want_slot x) + draining want_item ≡ 8 =
                rw (at, at') at (r.slots) in
              absurd (omega arith)
          | inr at' ↦
              let items : length r.q ≡ s.bq.full + queued stopped + unmoved want_item =
                rw (at, at') at (r.items) in
              let done : r.q ≡ [] = eq_nil r.q (omega arith) in
              let order : s.fetched
                  ≡ s.stored ++ (consumed want_item ++ (r.q ++ produced stopped)) =
                rw (at, at') at (r.order) in
              inr (inr (at', at, sym (rw (done, append-nil s.stored) at order)))
        ]
      ]
    ]

-- Where the producer copies into a slot, and where the consumer copies out of one.
abbrev pub IsWriting : ProducerAt → Type 0
IsWriting p = (x : Item) × ((p ≡ copy_data x) ⊎ (p ≡ copy_key x))

abbrev pub IsReading : ConsumerAt → Type 0
IsReading c = (c ≡ take_key) ⊎ ((k : Key) × (c ≡ take_data k))

writing : (p : ProducerAt) → IsWriting p → (filling p ≡ 1) × (queued p ≡ 0)
writing p (x, inl e) = rw e (refl, refl)
writing p (x, inr e) = rw e (refl, refl)

reading : (c : ConsumerAt) → IsReading c → unmoved c ≡ 1
reading c (inl e) = rw e
reading c (inr (k, e)) = rw e

-- However the two threads interleave, while the producer copies into the slot at `tail` and the
-- consumer copies out of the slot at `head`, these are different slots: the producer needs no lock.
pub threads_do_not_race :
    (hk : List Key) (cd : List (List ℕ)) (s : Threads)
    → length hk ≡ 8
    → length cd ≡ 8
    → Reaches hk cd s
    → IsWriting s.producer
    → IsReading s.consumer
    → s.bq.head ≢ s.bq.tail
threads_do_not_race hk cd s h c reach w g same =
    let r = Reaches-Runs s h c reach in
    let (fills, not_yet) = writing s.producer w in
    let reads = reading s.consumer g in
    let at_most = unmoved_le s.consumer in omega (arith, r.slots, r.items, r.tail_at, r.head_in)
