-- ===== src/Threads/Producer.antt =====
-- Every step of `producer_thread_fun` (src/io/thread-mgr.c) keeps the queue in order.
use agilefs.Prelude.{
  ℕ, ◌+◌, ◌≤◌, ◌≡◌, ap, ◌∙◌, arith, true, Option, none, some, List, [], ◌∷◌, ◌++◌, length,
  length-set, get_elem?-set_self, append-nil, append_assoc, length-append, ltb, Bool-cases, inl,
  inr, ltb→lt,
}
use agilefs.Prelude.Int.{pos, eqb_ℤ}
use agilefs.Threads.{
  Item, ProducerAt, fetch, post_full, stopped, want_slot, copy_data, copy_key, move_tail, Threads,
  Outcome, next, blocked, fault, producer_at, producer_step, ConsumerAt, want_item, lock, take_key,
  take_data, move_head, unlock, post_empty, put,
}
use agilefs.Threads.Ring.{write_chunk-IsRing, write_key-IsRing, push-IsRing, tail-push}
use agilefs.Threads.Running.{IsRunning, Runs, consumed, draining, unmoved, Taken}
use agilefs.HashDb.{hash_to_index}

-- A step to a state with the invariant, or none.
abbrev pub Keeps : Outcome → Type 0
Keeps (next s) = Runs s
Keeps blocked = Unit
Keeps fault = ⊥

-- What `get_one_chunk` may give: a hash whose first four bytes are 0.
abbrev pub IsIndexed : Option Item → Type 0
IsIndexed none = Unit
IsIndexed (some x) = hash_to_index x.key ≡ pos 0

order-fetch :
    (fetched stored held q : List Item) (x : Item)
    → fetched ≡ stored ++ (held ++ (q ++ []))
    → fetched ++ x ∷ [] ≡ stored ++ (held ++ (q ++ x ∷ []))
order-fetch fetched stored held q x e =
    rw (e, append-nil q)
      (append_assoc stored (held ++ q) (x ∷ [])
        ∙ ap (λ r. stored ++ r) (append_assoc held q (x ∷ [])))

order-push :
    (fetched stored held q : List Item) (x : Item)
    → fetched ≡ stored ++ (held ++ (q ++ x ∷ []))
    → fetched ≡ stored ++ (held ++ ((q ++ x ∷ []) ++ []))
order-push fetched stored held q x e = rw (append-nil (q ++ x ∷ [])) e

pub unmoved_le : (c : ConsumerAt) → unmoved c ≤ draining c
unmoved_le want_item = omega arith
unmoved_le lock = omega arith
unmoved_le take_key = omega arith
unmoved_le (take_data k) = omega arith
unmoved_le (move_head x) = omega arith
unmoved_le (unlock x) = omega arith
unmoved_le (post_empty x) = omega arith
unmoved_le (put x) = omega arith

-- A slot is reserved, so the queue is not full.
room :
    (c : ConsumerAt) (empty full : ℕ) {n : ℕ}
    → empty + full + 1 + draining c ≡ 8
    → n ≡ full + 0 + unmoved c
    → n ≤ 7
room c empty full slots items = omega (arith, unmoved_le c)

-- The first item stays the first.
taken-snoc : (q : List Item) (y : Item) (c : ConsumerAt) → Taken q c → Taken (q ++ y ∷ []) c
taken-snoc q y (take_data k) (x, xs, e, same) = (x, xs ++ y ∷ [], rw e, same)
taken-snoc q y (move_head x) (xs, e) = (xs ++ y ∷ [], rw e)
taken-snoc q y want_item t = tt
taken-snoc q y lock t = tt
taken-snoc q y take_key t = tt
taken-snoc q y (unlock x) t = tt
taken-snoc q y (post_empty x) t = tt
taken-snoc q y (put x) t = tt

module _ (s : Threads) where
  fetched-Keeps :
      (got : Option Item)
      → IsIndexed got
      → IsRunning s.bq fetch s.consumer s.fetched s.stored
      → Keeps (producer_at fetch got s)
  unfolding producer_at
  fetched-Keeps none i r = record {
    q = r.q;
    ring = r.ring;
    hk_size = r.hk_size;
    cd_size = r.cd_size;
    head_in = r.head_in;
    tail_at = r.tail_at;
    slots = r.slots;
    items = r.items;
    mutex = r.mutex;
    copied = tt;
    taken = r.taken;
    order = r.order;
  }
  fetched-Keeps (some x) i r =
      let ok : eqb_ℤ (hash_to_index x.key) (pos 0) ≡ true = rw i in
      rw ok (record {
        q = r.q;
        ring = r.ring;
        hk_size = r.hk_size;
        cd_size = r.cd_size;
        head_in = r.head_in;
        tail_at = r.tail_at;
        slots = r.slots;
        items = r.items;
        mutex = r.mutex;
        copied = tt;
        taken = r.taken;
        order = order-fetch s.fetched s.stored (consumed s.consumer) r.q x r.order;
      })

  reserved-Keeps :
      (x : Item) (got : Option Item)
      → IsRunning s.bq (want_slot x) s.consumer s.fetched s.stored
      → Keeps (producer_at (want_slot x) got s)
  unfolding producer_at
  reserved-Keeps x got r = elim (Bool-cases (ltb 0 s.bq.empty)) [
    | inr e ↦ rw e tt
    | inl e ↦
        let some_left = ltb→lt 0 s.bq.empty e in
        rw e (record {
          q = r.q;
          ring = r.ring;
          hk_size = r.hk_size;
          cd_size = r.cd_size;
          head_in = r.head_in;
          tail_at = r.tail_at;
          slots = omega (arith, r.slots);
          items = r.items;
          mutex = r.mutex;
          copied = tt;
          taken = r.taken;
          order = r.order;
        })
  ]

  copied_data-Keeps :
      (x : Item) (got : Option Item)
      → IsRunning s.bq (copy_data x) s.consumer s.fetched s.stored
      → Keeps (producer_at (copy_data x) got s)
  unfolding producer_at
  copied_data-Keeps x got r = record {
    q = r.q;
    ring =
        write_chunk-IsRing s.bq.hk s.bq.cd s.bq.head s.bq.tail r.q x.chunk r.ring
          (room s.consumer s.bq.empty s.bq.full r.slots r.items) r.tail_at;
    hk_size = r.hk_size;
    cd_size = length-set s.bq.cd s.bq.tail x.chunk ∙ r.cd_size;
    head_in = r.head_in;
    tail_at = r.tail_at;
    slots = r.slots;
    items = r.items;
    mutex = r.mutex;
    copied = get_elem?-set_self s.bq.cd s.bq.tail x.chunk (omega (arith, r.cd_size, r.tail_at));
    taken = r.taken;
    order = r.order;
  }

  copied_key-Keeps :
      (x : Item) (got : Option Item)
      → IsRunning s.bq (copy_key x) s.consumer s.fetched s.stored
      → Keeps (producer_at (copy_key x) got s)
  unfolding producer_at
  copied_key-Keeps x got r = record {
    q = r.q;
    ring =
        write_key-IsRing s.bq.hk s.bq.cd s.bq.head s.bq.tail r.q x.key r.ring
          (room s.consumer s.bq.empty s.bq.full r.slots r.items) r.tail_at;
    hk_size = length-set s.bq.hk s.bq.tail x.key ∙ r.hk_size;
    cd_size = r.cd_size;
    head_in = r.head_in;
    tail_at = r.tail_at;
    slots = r.slots;
    items = r.items;
    mutex = r.mutex;
    copied = (
      r.copied,
      get_elem?-set_self s.bq.hk s.bq.tail x.key (omega (arith, r.hk_size, r.tail_at)),
    );
    taken = r.taken;
    order = r.order;
  }

  moved-Keeps :
      (x : Item) (got : Option Item)
      → IsRunning s.bq (move_tail x) s.consumer s.fetched s.stored
      → Keeps (producer_at (move_tail x) got s)
  unfolding producer_at
  moved-Keeps x got r =
      let longer : length (r.q ++ x ∷ []) ≡ length r.q + 1 = length-append r.q (x ∷ []) in
      record {
        q = r.q ++ x ∷ [];
        ring =
            push-IsRing s.bq.hk s.bq.cd s.bq.head s.bq.tail r.q x r.ring r.tail_at (r.copied.1)
              (r.copied.0);
        hk_size = r.hk_size;
        cd_size = r.cd_size;
        head_in = r.head_in;
        tail_at = rw longer (tail-push s.bq.head (length r.q) s.bq.tail r.tail_at);
        slots = r.slots;
        items = omega (arith, r.items, longer);
        mutex = r.mutex;
        copied = tt;
        taken = taken-snoc r.q x s.consumer r.taken;
        order = order-push s.fetched s.stored (consumed s.consumer) r.q x r.order;
      }

  posted-Keeps :
      (got : Option Item)
      → IsRunning s.bq post_full s.consumer s.fetched s.stored
      → Keeps (producer_at post_full got s)
  unfolding producer_at
  posted-Keeps got r = record {
    q = r.q;
    ring = r.ring;
    hk_size = r.hk_size;
    cd_size = r.cd_size;
    head_in = r.head_in;
    tail_at = r.tail_at;
    slots = omega (arith, r.slots);
    items = omega (arith, r.items);
    mutex = r.mutex;
    copied = tt;
    taken = r.taken;
    order = r.order;
  }

  pub producer_at-Keeps :
      (p : ProducerAt) (got : Option Item)
      → IsIndexed got
      → IsRunning s.bq p s.consumer s.fetched s.stored
      → Keeps (producer_at p got s)
  unfolding producer_at
  producer_at-Keeps fetch got i r = fetched-Keeps got i r
  producer_at-Keeps (want_slot x) got i r = reserved-Keeps x got r
  producer_at-Keeps (copy_data x) got i r = copied_data-Keeps x got r
  producer_at-Keeps (copy_key x) got i r = copied_key-Keeps x got r
  producer_at-Keeps (move_tail x) got i r = moved-Keeps x got r
  producer_at-Keeps post_full got i r = posted-Keeps got r
  producer_at-Keeps stopped got i r = tt

-- A step of the producer keeps the invariant and does not fault.
pub producer_step-Keeps :
    (s : Threads) (got : Option Item) → IsIndexed got → Runs s → Keeps (producer_step got s)
unfolding producer_step
producer_step-Keeps s got i r = producer_at-Keeps s s.producer got i r
