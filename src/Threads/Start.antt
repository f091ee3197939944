-- ===== src/Threads/Start.antt =====
-- src/io/thread-mgr.c: setting the queues up and starting the threads. The calls of the thread library
-- and of `malloc` are given by what they return; `none` is undefined behaviour: a null pointer that
-- `pthread_create` is to write the thread's number through.
use agilefs.Prelude.{
  ℕ, suc, ◌≡◌, ◌≢◌, ◌⊎◌, inl, inr, refl, if◌then◌else◌, Bool, true, false, ◌&&◌, List, [], ◌∷◌,
  Bool-cases, Option, none, some, ◌>>=◌,
}
use agilefs.Prelude.Int.{ℤ, pos, neg, eqb_ℤ, eqb_ℤ→eq, eqb_ℤ-ne}

-- What a queue holds of the system: the mutex, both semaphores, and both buffers.
pub record Held : Type 0 where
  pub mutex : Bool
  pub empty : Bool
  pub full : Bool
  pub hk : Bool
  pub cd : Bool

abbrev pub nothing : Held
nothing = record { mutex = false; empty = false; full = false; hk = false; cd = false }

abbrev pub everything : Held
everything = record { mutex = true; empty = true; full = true; hk = true; cd = true }

-- What the calls in `init_buffer_queue` return: codes, and whether `malloc` gives memory.
pub record InitCalls : Type 0 where
  pub mutex_init : ℤ
  pub empty_init : ℤ
  pub full_init : ℤ
  pub hk_given : Bool
  pub cd_given : Bool
  pub errno : ℕ

-- The labels `err` and `full_init_err`, with `ret` and what is held there; the second falls through
-- to the first. The label `malloc_err` before them is not reached.
abbrev pub err : ℤ → Held → ℤ × Held
err ret held = (ret, record held { mutex = false })

abbrev pub full_init_err : ℤ → Held → ℤ × Held
full_init_err ret held = err ret (record held { empty = false })

-- The two allocations at the end.
abbrev pub init_buffers : InitCalls → Held → ℤ × Held
init_buffers calls held =
    let held' : Held = record held { hk = calls.hk_given; cd = calls.cd_given } in
    (if calls.hk_given && calls.cd_given then pos 0 else neg calls.errno, held')

-- The code, and what the queue holds when it returns.
unfoldable pub init_buffer_queue : InitCalls → ℤ × Held
init_buffer_queue calls =
    if eqb_ℤ calls.mutex_init (pos 0)
    then (let with_mutex : Held = record nothing { mutex = true } in
        if eqb_ℤ calls.empty_init (pos 0)
        then (let with_empty : Held = record with_mutex { empty = true } in
            if eqb_ℤ calls.full_init (pos 0)
            then init_buffers calls (record with_empty { full = true })
            else full_init_err calls.full_init with_empty)
        else err calls.empty_init with_mutex)
    else (calls.mutex_init, nothing)

-- What the calls in `producer_thread_start` and `consumer_thread_start` return.
pub record StartCalls : Type 0 where
  pub attr_init : ℤ
  pub set_detached : ℤ
  pub create : ℤ

-- A thread that was asked for: the code, the running flag (which the argument is before), and
-- whether the thread was created and whether its attributes are destroyed.
pub record Start : Type 0 where
  pub code : ℤ
  pub running : Bool
  pub created : Bool
  pub attr_held : Bool

-- `producer_thread_start`; `consumer_thread_start` has the same branches on its own flag. The first
-- argument says that the pointer to the thread's number is not null.
unfoldable pub thread_start : Bool → StartCalls → Bool → Option Start
thread_start tid calls running =
    if eqb_ℤ calls.attr_init (pos 0)
    then (if eqb_ℤ calls.set_detached (pos 0)
        then (if tid
            then some (record {
              code = calls.create;
              running = eqb_ℤ calls.create (pos 0);
              created = eqb_ℤ calls.create (pos 0);
              attr_held = false;
            })
            else none)
        else some (record {
          code = calls.set_detached;
          running = running;
          created = false;
          attr_held = false;
        }))
    else some
        (record { code = calls.attr_init; running = running; created = false; attr_held = false })

-- The loop that starts consumers, up to the first that fails: the code and how many there are.
unfoldable pub start_consumers : Bool → ℤ → List StartCalls → Bool → Option (ℤ × ℕ × Bool)
unfolding thread_start
start_consumers tids ret [] running = some (ret, 0, running)
start_consumers tids ret (calls ∷ later) running = do
  st ← thread_start tids calls running
  elim (eqb_ℤ st.code (pos 0)) [
    | true ↦ do
      (code, n, running') ← start_consumers tids st.code later st.running
      some (code, suc n, running')
    | false ↦ some (st.code, 0, st.running)
  ]

-- What `thread_io_start` leaves: its code, what the queue holds, the producer's flag, and how many
-- consumers were started.
pub record Started : Type 0 where
  pub code : ℤ
  pub held : Held
  pub running : Bool
  pub consumers : ℕ

-- `thread_io_start` with the one queue and the one producer. `tids` says whether `malloc` gives the
-- array of the consumers' numbers, which is not looked at, and `consumers` has `NUM_SERVER_THREADS`
-- entries.
unfoldable pub thread_io_start : InitCalls → StartCalls → Bool → List StartCalls → Option Started
unfolding init_buffer_queue thread_start start_consumers
thread_io_start init producer tids consumers =
    let (ret, held) = init_buffer_queue init in
    if eqb_ℤ ret (pos 0)
    then (do
      st ← thread_start true producer false
      elim (eqb_ℤ st.code (pos 0)) [
        | true ↦ do
          (code, n, _) ← start_consumers tids st.code consumers false
          some (record { code = code; held = held; running = st.running; consumers = n })
        | false ↦ some (record { code = st.code; held = held; running = st.running; consumers = 0 })
      ])
    else some (record { code = ret; held = held; running = false; consumers = 0 })

-- What `init_buffer_queue` returns and what it leaves behind, in every case: where the mutex or a
-- semaphore cannot be made, the code of that call and nothing; where both buffers are given, 0 and
-- all five; and where one of them is not given, `-errno` with the mutex and both semaphores still
-- held, and the buffer that was given.
pub init_buffer_queue_holds :
    (calls : InitCalls)
    → ((calls.mutex_init ≢ pos 0) × (init_buffer_queue calls ≡ (calls.mutex_init, nothing)))
      ⊎ ((calls.mutex_init ≡ pos 0)
          × (calls.empty_init ≢ pos 0)
          × (init_buffer_queue calls ≡ (calls.empty_init, nothing)))
      ⊎ ((calls.mutex_init ≡ pos 0)
          × (calls.empty_init ≡ pos 0)
          × (calls.full_init ≢ pos 0)
          × (init_buffer_queue calls ≡ (calls.full_init, nothing)))
      ⊎ ((calls.mutex_init ≡ pos 0)
          × (calls.empty_init ≡ pos 0)
          × (calls.full_init ≡ pos 0)
          × (calls.hk_given && calls.cd_given ≡ true)
          × (init_buffer_queue calls ≡ (pos 0, everything)))
      ⊎ ((calls.mutex_init ≡ pos 0)
          × (calls.empty_init ≡ pos 0)
          × (calls.full_init ≡ pos 0)
          × (calls.hk_given && calls.cd_given ≡ false)
          × (init_buffer_queue calls
              ≡ (neg calls.errno, record everything { hk = calls.hk_given; cd = calls.cd_given })))
unfolding init_buffer_queue
init_buffer_queue_holds calls = elim (Bool-cases (eqb_ℤ calls.mutex_init (pos 0))) [
  | inr e ↦ inl (eqb_ℤ-ne _ _ e, rw e)
  | inl e ↦ elim (Bool-cases (eqb_ℤ calls.empty_init (pos 0))) [
    | inr f ↦ inr (inl (eqb_ℤ→eq _ _ e, eqb_ℤ-ne _ _ f, rw (e, f)))
    | inl f ↦ elim (Bool-cases (eqb_ℤ calls.full_init (pos 0))) [
      | inr g ↦ inr (inr (inl (eqb_ℤ→eq _ _ e, eqb_ℤ→eq _ _ f, eqb_ℤ-ne _ _ g, rw (e, f, g))))
      | inl g ↦ elim (Bool-cases (calls.hk_given && calls.cd_given)) [
        | inl m ↦
            let (hk, cd) = both calls.hk_given calls.cd_given m in
            inr (
              inr (
                inr
                  (inl (eqb_ℤ→eq _ _ e, eqb_ℤ→eq _ _ f, eqb_ℤ→eq _ _ g, m, rw (e, f, g, hk, cd)))))
        | inr m ↦
            inr
              (inr (inr (inr (eqb_ℤ→eq _ _ e, eqb_ℤ→eq _ _ f, eqb_ℤ→eq _ _ g, m, rw (e, f, g, m)))))
      ]
    ]
  ]
]
  where
    both : (a b : Bool) → a && b ≡ true → (a ≡ true) × (b ≡ true)
    both true b e = (refl, e)
    both false b e = cc
