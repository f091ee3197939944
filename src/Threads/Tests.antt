-- ===== src/Threads/Tests.antt =====
-- A run of the threads of src/io/thread-mgr.c.
use agilefs.Prelude.{
  ℕ, ◌≤◌, ◌≡◌, ◌≢◌, ◌⊎◌, inl, refl, some, none, List, [], ◌∷◌, ◌++◌, length, replicate,
}
use agilefs.Prelude.{true, false, arith}
use agilefs.Prelude.Int.{pos, negsuc}
use agilefs.Platform.{Key}
use agilefs.HashDb.{hash_to_index}
use agilefs.Threads.{
  Item, stopped, want_item, Threads, Outcome, next, blocked, fault, producer_at, producer_step,
  consumer_at, consumer_step, Reaches, start, produces, consumes, started,
}
use agilefs.Threads.Fifo.{threads_fifo, threads_do_not_fault}
use agilefs.Threads.Start.{
  InitCalls, StartCalls, nothing, everything, init_buffer_queue, thread_start, start_consumers,
  Started, thread_io_start, init_buffer_queue_holds,
}
use agilefs.Threads.Starting.{thread_io_start_runs}
use agilefs.Threads.Progress.{threads_do_not_deadlock, threads_do_not_race, Moves}

-- The second block is being copied in while the first is copied out.
abbrev first : Item
first = record { key = replicate 16 0; chunk = 1 ∷ 2 ∷ [] }

abbrev second : Item
second = record { key = 0 ∷ 0 ∷ 0 ∷ 0 ∷ replicate 12 7; chunk = 3 ∷ 4 ∷ [] }

abbrev no_keys : List Key
no_keys = replicate 8 []

abbrev no_chunks : List (List ℕ)
no_chunks = replicate 8 []

abbrev after : Outcome → Threads
after (next s) = s
after blocked = started no_keys no_chunks
after fault = started no_keys no_chunks

abbrev six_steps : Threads → Threads
six_steps s = after (
    producer_step none (
      after (
        producer_step none (
          after (
            producer_step none (
              after (
                producer_step none
                  (after (producer_step none (after (producer_step (some first) s)))))))))))

abbrev both : Threads
both = after (
    consumer_step (
      after (
        consumer_step (
          after (
            producer_step none
              (after (producer_step (some second) (six_steps (started no_keys no_chunks)))))))))

reached : Reaches no_keys no_chunks both
unfolding producer_step producer_at consumer_step consumer_at hash_to_index
reached =
    consumes
      (consumes
        (produces none
          (produces (some second)
            (produces none
              (produces none
                (produces none
                  (produces none (produces none (produces (some first) start refl) refl) refl) refl)
                refl)
              refl)
            refl)
          refl)
        refl)
      refl

threads_fifo_example :
    (pending : List Item) × (both.fetched ≡ both.stored ++ pending) × (length pending ≤ 10)
threads_fifo_example = threads_fifo no_keys no_chunks both refl refl reached

slots_inside : (¬ (producer_step none both ≡ fault)) × (¬ (consumer_step both ≡ fault))
slots_inside = threads_do_not_fault no_keys no_chunks both none refl refl reached tt

threads_do_not_deadlock_example :
    Moves (producer_step none both)
    ⊎ Moves (consumer_step both)
    ⊎ ((both.producer ≡ stopped) × (both.consumer ≡ want_item) × (both.stored ≡ both.fetched))
threads_do_not_deadlock_example =
    threads_do_not_deadlock no_keys no_chunks both none refl refl reached tt

threads_do_not_race_example : both.bq.head ≢ both.bq.tail
unfolding producer_step producer_at consumer_step consumer_at hash_to_index
threads_do_not_race_example =
    threads_do_not_race no_keys no_chunks both refl refl reached (second, inl refl) (inl refl)

-- The second allocation fails.
abbrev no_memory : InitCalls
no_memory = record {
  mutex_init = pos 0;
  empty_init = pos 0;
  full_init = pos 0;
  hk_given = true;
  cd_given = false;
  errno = 12;
}

init_buffer_queue_holds_example :
    ((pos 0 ≢ pos 0) × (init_buffer_queue no_memory ≡ (pos 0, nothing)))
    ⊎ ((pos 0 ≡ pos 0) × (pos 0 ≢ pos 0) × (init_buffer_queue no_memory ≡ (pos 0, nothing)))
    ⊎ ((pos 0 ≡ pos 0)
        × (pos 0 ≡ pos 0)
        × (pos 0 ≢ pos 0)
        × (init_buffer_queue no_memory ≡ (pos 0, nothing)))
    ⊎ ((pos 0 ≡ pos 0)
        × (pos 0 ≡ pos 0)
        × (pos 0 ≡ pos 0)
        × (false ≡ true)
        × (init_buffer_queue no_memory ≡ (pos 0, everything)))
    ⊎ ((pos 0 ≡ pos 0)
        × (pos 0 ≡ pos 0)
        × (pos 0 ≡ pos 0)
        × (false ≡ false)
        × (init_buffer_queue no_memory ≡ (negsuc 11, record everything { cd = false })))
init_buffer_queue_holds_example = init_buffer_queue_holds no_memory

abbrev good_init : InitCalls
good_init = record no_memory { cd_given = true }

abbrev good_start : StartCalls
good_start = record { attr_init = pos 0; set_detached = pos 0; create = pos 0 }

two_started :
    thread_io_start good_init good_start true (good_start ∷ good_start ∷ [])
    ≡ some (record { code = pos 0; held = everything; running = true; consumers = 2 })
unfolding thread_io_start init_buffer_queue thread_start start_consumers
two_started = refl

thread_io_start_runs_example :
    ((thread_io_start good_init good_start true (good_start ∷ []) ≡ none)
      × (true ≡ false)
      × ((good_start ∷ []) ≢ []))
    ⊎ ((st : Started) × (thread_io_start good_init good_start true (good_start ∷ []) ≡ some st)
        × ((st.code ≢ pos 0)
            ⊎ ((st.code ≡ pos 0)
                × (st.held ≡ everything)
                × (st.running ≡ true)
                × (st.consumers ≡ 1))))
thread_io_start_runs_example =
    thread_io_start_runs good_init good_start true (good_start ∷ []) (λ e. ground arith)
