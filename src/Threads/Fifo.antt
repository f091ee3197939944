-- ===== src/Threads/Fifo.antt =====
-- Every interleaving of the producer and the consumer of src/io/thread-mgr.c.
use agilefs.Prelude.{
  ℕ, ◌+◌, ◌≤◌, ◌≡◌, ◌⊎◌, inl, inr, refl, sym, ap, ◌∙◌, arith, Option, none, some, List, ◌++◌,
  length, length-append, Bool-cases,
}
use agilefs.Prelude.Int.{pos, eqb_ℤ, eqb_ℤ→eq}
use agilefs.HashDb.{hash_to_index}
use agilefs.Platform.{Key}
use agilefs.Threads.{
  Item, ProducerAt, fetch, post_full, stopped, want_slot, copy_data, copy_key, move_tail,
  ConsumerAt, want_item, lock, take_key, take_data, move_head, unlock, post_empty, put, Threads,
  Outcome, next, blocked, fault, producer_at, producer_step, consumer_step, Reaches, start,
  produces, consumes,
}
use agilefs.Threads.Running.{Runs, produced, consumed, filling, queued, started-Runs}
use agilefs.Threads.Producer.{Keeps, IsIndexed, producer_step-Keeps, unmoved_le}
use agilefs.Threads.Consumer.{consumer_step-Keeps}

next-inj : {s s' : Threads} → next s ≡ next s' → s ≡ s'
next-inj e = cc

Keeps-Runs : (o : Outcome) (s' : Threads) → Keeps o → o ≡ next s' → Runs s'
Keeps-Runs (next s) s' k e = rw (← next-inj e) k
Keeps-Runs blocked s' k e = cc
Keeps-Runs fault s' k e = absurd k

Keeps-fault : (o : Outcome) → Keeps o → ¬ (o ≡ fault)
Keeps-fault (next s) k e = cc
Keeps-fault blocked k e = cc
Keeps-fault fault k e = k

-- Where the hash indexes no queue, there is no next state.
IsIndexed-cases :
    (got : Option Item) → IsIndexed got ⊎ ((s : Threads) → producer_at fetch got s ≡ fault)
unfolding producer_at
IsIndexed-cases none = inl tt
IsIndexed-cases (some x) = elim (Bool-cases (eqb_ℤ (hash_to_index x.key) (pos 0))) [
  | inl e ↦ inl (eqb_ℤ→eq _ _ e)
  | inr e ↦ inr (λ s. rw e)
]

-- Past `get_one_chunk`, what it gives does not matter.
other_input :
    (p : ProducerAt) (got : Option Item) (s : Threads)
    → (p ≡ fetch) ⊎ (producer_at p got s ≡ producer_at p none s)
unfolding producer_at
other_input fetch got s = inl refl
other_input (want_slot x) got s = inr refl
other_input (copy_data x) got s = inr refl
other_input (copy_key x) got s = inr refl
other_input (move_tail x) got s = inr refl
other_input post_full got s = inr refl
other_input stopped got s = inr refl

produced-Runs :
    (s s' : Threads) (got : Option Item) → Runs s → producer_step got s ≡ next s' → Runs s'
unfolding producer_step
produced-Runs s s' got r e = elim (IsIndexed-cases got) [
  | inl i ↦ Keeps-Runs (producer_step got s) s' (producer_step-Keeps s got i r) e
  | inr faults ↦ elim (other_input s.producer got s) [
    | inl at ↦
        let wrong : fault ≡ next s' =
          sym (faults s) ∙ (sym (ap (λ p. producer_at p got s) at) ∙ e) in
        cc
    | inr same ↦
        Keeps-Runs (producer_step none s) s' (producer_step-Keeps s none tt r) (sym same ∙ e)
  ]
]

pub Reaches-Runs :
    {hk : List Key} {cd : List (List ℕ)} (s : Threads)
    → length hk ≡ 8
    → length cd ≡ 8
    → Reaches hk cd s
    → Runs s
Reaches-Runs s h c start = started-Runs _ _ h c
Reaches-Runs s h c (produces {s = s0} got reach e) =
    produced-Runs s0 s got (Reaches-Runs s0 h c reach) e
Reaches-Runs s h c (consumes {s = s0} reach e) =
    Keeps-Runs (consumer_step s0) s (consumer_step-Keeps s0 (Reaches-Runs s0 h c reach)) e

-- How many items are on their way.
produced_le : (p : ProducerAt) → length (produced p) ≤ 1
produced_le fetch = omega arith
produced_le (want_slot x) = omega arith
produced_le (copy_data x) = omega arith
produced_le (copy_key x) = omega arith
produced_le (move_tail x) = omega arith
produced_le post_full = omega arith
produced_le stopped = omega arith

consumed_le : (c : ConsumerAt) → length (consumed c) ≤ 1
consumed_le want_item = omega arith
consumed_le lock = omega arith
consumed_le take_key = omega arith
consumed_le (take_data k) = omega arith
consumed_le (move_head x) = omega arith
consumed_le (unlock x) = omega arith
consumed_le (post_empty x) = omega arith
consumed_le (put x) = omega arith

pub queued_le : (p : ProducerAt) → queued p ≤ filling p
queued_le fetch = omega arith
queued_le (want_slot x) = omega arith
queued_le (copy_data x) = omega arith
queued_le (copy_key x) = omega arith
queued_le (move_tail x) = omega arith
queued_le post_full = omega arith
queued_le stopped = omega arith

-- However the two threads interleave, the calls of `put_new_chunk` so far are the blocks that
-- `get_one_chunk` gave, in the same order, without the last few: none is lost, none is stored twice,
-- and at most 10 are on their way. The arrays have the `BUFF_QUEUE_SIZE` entries that
-- `init_buffer_queue` allocates.
pub threads_fifo :
    (hk : List Key) (cd : List (List ℕ)) (s : Threads)
    → length hk ≡ 8
    → length cd ≡ 8
    → Reaches hk cd s
    → (pending : List Item) × (s.fetched ≡ s.stored ++ pending) × (length pending ≤ 10)
threads_fifo hk cd s h c reach =
    let r = Reaches-Runs s h c reach in
    let all : length (consumed s.consumer ++ (r.q ++ produced s.producer))
        ≡ length (consumed s.consumer) + length (r.q ++ produced s.producer) =
      length-append (consumed s.consumer) (r.q ++ produced s.producer) in
    let later : length (r.q ++ produced s.producer) ≡ length r.q + length (produced s.producer) =
      length-append r.q (produced s.producer) in
    (
      consumed s.consumer ++ (r.q ++ produced s.producer),
      r.order,
      omega (
        arith,
        all,
        later,
        r.slots,
        r.items,
        consumed_le s.consumer,
        produced_le s.producer,
        queued_le s.producer,
        unmoved_le s.consumer,
      ),
    )

-- The slots that the threads read and write are in the arrays.
pub threads_do_not_fault :
    (hk : List Key) (cd : List (List ℕ)) (s : Threads) (got : Option Item)
    → length hk ≡ 8
    → length cd ≡ 8
    → Reaches hk cd s
    → IsIndexed got
    → (¬ (producer_step got s ≡ fault)) × (¬ (consumer_step s ≡ fault))
threads_do_not_fault hk cd s got h c reach i =
    let r = Reaches-Runs s h c reach in
    (
      Keeps-fault (producer_step got s) (producer_step-Keeps s got i r),
      Keeps-fault (consumer_step s) (consumer_step-Keeps s r),
    )
