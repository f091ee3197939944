-- ===== src/Threads/Consumer.antt =====
-- Every step of `consumer_thread_fun` (src/io/thread-mgr.c) keeps the queue in order.
use agilefs.Prelude.{
  ℕ, suc, ◌+◌, ◌%◌, ◌<◌, ◌≡◌, refl, sym, ◌∙◌, arith, List, [], ◌∷◌, ◌++◌, length, append_assoc, ltb,
  Bool-cases, inl, inr, ltb→lt,
}
use agilefs.Platform.{Key}
use agilefs.Threads.{
  Item, ConsumerAt, want_item, lock, take_key, take_data, move_head, unlock, post_empty, put,
  Threads, consumer_at, consumer_step, taken, taken_chunk,
}
use agilefs.Threads.Ring.{pop-IsRing, tail-pop}
use agilefs.Threads.Running.{IsRunning, Runs, produced}
use agilefs.Threads.Producer.{Keeps}

-- A list that is not empty has a first item.
first_of :
    (q : List Item) {n : ℕ} → length q ≡ n → 0 < n → (x : Item) × (xs : List Item) × (q ≡ x ∷ xs)
first_of [] e lt = absurd (omega arith)
first_of (x ∷ xs) e lt = (x, xs, refl)

order-put :
    (fetched stored later : List Item) (x : Item)
    → fetched ≡ stored ++ (x ∷ later)
    → fetched ≡ (stored ++ x ∷ []) ++ later
order-put fetched stored later x e = e ∙ sym (append_assoc stored (x ∷ []) later)

module _ (s : Threads) where
  waited-Keeps :
      IsRunning s.bq s.producer want_item s.fetched s.stored → Keeps (consumer_at want_item s)
  unfolding consumer_at
  waited-Keeps r = elim (Bool-cases (ltb 0 s.bq.full)) [
    | inr e ↦ rw e tt
    | inl e ↦
        let posted = ltb→lt 0 s.bq.full e in
        rw e (record {
          q = r.q;
          ring = r.ring;
          hk_size = r.hk_size;
          cd_size = r.cd_size;
          head_in = r.head_in;
          tail_at = r.tail_at;
          slots = omega (arith, r.slots);
          items = omega (arith, r.items);
          mutex = r.mutex;
          copied = r.copied;
          taken = tt;
          order = r.order;
        })
  ]

  locked-Keeps : IsRunning s.bq s.producer lock s.fetched s.stored → Keeps (consumer_at lock s)
  unfolding consumer_at
  locked-Keeps r = rw (r.mutex) (record {
    q = r.q;
    ring = r.ring;
    hk_size = r.hk_size;
    cd_size = r.cd_size;
    head_in = r.head_in;
    tail_at = r.tail_at;
    slots = r.slots;
    items = r.items;
    mutex = refl;
    copied = r.copied;
    taken = tt;
    order = r.order;
  })

  took_key-Keeps :
      IsRunning s.bq s.producer take_key s.fetched s.stored → Keeps (consumer_at take_key s)
  unfolding consumer_at taken
  took_key-Keeps r =
      let (x, xs, e) = first_of r.q r.items (omega arith) in
      let at : s.bq.head + 0 ≡ s.bq.head = omega arith in
      let here : s.bq.head % 8 ≡ s.bq.head = omega (arith, r.head_in) in
      let (k, c) = rw (at, here) at ((rw e at (r.ring)) 0 x refl) in
      rw k (record {
        q = r.q;
        ring = r.ring;
        hk_size = r.hk_size;
        cd_size = r.cd_size;
        head_in = r.head_in;
        tail_at = r.tail_at;
        slots = r.slots;
        items = r.items;
        mutex = r.mutex;
        copied = r.copied;
        taken = (x, xs, e, refl);
        order = r.order;
      })

  took_data-Keeps :
      (key : Key)
      → IsRunning s.bq s.producer (take_data key) s.fetched s.stored
      → Keeps (consumer_at (take_data key) s)
  unfolding consumer_at taken_chunk
  took_data-Keeps key r =
      let (x, xs, e, same) = r.taken in
      let at : s.bq.head + 0 ≡ s.bq.head = omega arith in
      let here : s.bq.head % 8 ≡ s.bq.head = omega (arith, r.head_in) in
      let (k, c) = rw (at, here) at ((rw e at (r.ring)) 0 x refl) in
      rw (c, ← same)
        (record {
          q = r.q;
          ring = r.ring;
          hk_size = r.hk_size;
          cd_size = r.cd_size;
          head_in = r.head_in;
          tail_at = r.tail_at;
          slots = r.slots;
          items = r.items;
          mutex = r.mutex;
          copied = r.copied;
          taken = (xs, e);
          order = r.order;
        })

  moved_head-Keeps :
      (x : Item)
      → IsRunning s.bq s.producer (move_head x) s.fetched s.stored
      → Keeps (consumer_at (move_head x) s)
  unfolding consumer_at
  moved_head-Keeps x r =
      let (xs, e) = r.taken in
      let shorter : length r.q ≡ suc (length xs) = rw e in
      record {
        q = xs;
        ring = pop-IsRing s.bq.hk s.bq.cd s.bq.head x xs (rw e at (r.ring));
        hk_size = r.hk_size;
        cd_size = r.cd_size;
        head_in = omega arith;
        tail_at = tail-pop s.bq.head (length xs) s.bq.tail (rw shorter at (r.tail_at));
        slots = r.slots;
        items = omega (arith, r.items, shorter);
        mutex = r.mutex;
        copied = r.copied;
        taken = tt;
        order = rw e at (r.order);
      }

  unlocked-Keeps :
      (x : Item)
      → IsRunning s.bq s.producer (unlock x) s.fetched s.stored
      → Keeps (consumer_at (unlock x) s)
  unfolding consumer_at
  unlocked-Keeps x r = record {
    q = r.q;
    ring = r.ring;
    hk_size = r.hk_size;
    cd_size = r.cd_size;
    head_in = r.head_in;
    tail_at = r.tail_at;
    slots = r.slots;
    items = r.items;
    mutex = refl;
    copied = r.copied;
    taken = tt;
    order = r.order;
  }

  freed-Keeps :
      (x : Item)
      → IsRunning s.bq s.producer (post_empty x) s.fetched s.stored
      → Keeps (consumer_at (post_empty x) s)
  unfolding consumer_at
  freed-Keeps x r = record {
    q = r.q;
    ring = r.ring;
    hk_size = r.hk_size;
    cd_size = r.cd_size;
    head_in = r.head_in;
    tail_at = r.tail_at;
    slots = omega (arith, r.slots);
    items = r.items;
    mutex = r.mutex;
    copied = r.copied;
    taken = tt;
    order = r.order;
  }

  stored-Keeps :
      (x : Item)
      → IsRunning s.bq s.producer (put x) s.fetched s.stored
      → Keeps (consumer_at (put x) s)
  unfolding consumer_at
  stored-Keeps x r = record {
    q = r.q;
    ring = r.ring;
    hk_size = r.hk_size;
    cd_size = r.cd_size;
    head_in = r.head_in;
    tail_at = r.tail_at;
    slots = r.slots;
    items = r.items;
    mutex = r.mutex;
    copied = r.copied;
    taken = tt;
    order = order-put s.fetched s.stored (r.q ++ produced s.producer) x r.order;
  }

  pub consumer_at-Keeps :
      (c : ConsumerAt) → IsRunning s.bq s.producer c s.fetched s.stored → Keeps (consumer_at c s)
  consumer_at-Keeps want_item r = waited-Keeps r
  consumer_at-Keeps lock r = locked-Keeps r
  consumer_at-Keeps take_key r = took_key-Keeps r
  consumer_at-Keeps (take_data k) r = took_data-Keeps k r
  consumer_at-Keeps (move_head x) r = moved_head-Keeps x r
  consumer_at-Keeps (unlock x) r = unlocked-Keeps x r
  consumer_at-Keeps (post_empty x) r = freed-Keeps x r
  consumer_at-Keeps (put x) r = stored-Keeps x r

-- A step of the consumer keeps the invariant and does not fault.
pub consumer_step-Keeps : (s : Threads) → Runs s → Keeps (consumer_step s)
unfolding consumer_step
consumer_step-Keeps s r = consumer_at-Keeps s s.consumer r
