-- ===== src/Threads/Starting.antt =====
-- What `thread_io_start` (src/io/thread-mgr.c) has started when it returns.
use agilefs.Prelude.{
  ℕ, zero, suc, ◌≡◌, ◌≢◌, length, ap, ◌⊎◌, inl, inr, refl, Bool, true, false, List, [], ◌∷◌,
  Bool-cases, Option, none, some, ◌>>=◌, ◌∙◌, sym,
}
use agilefs.Prelude.Int.{ℤ, pos, neg, eqb_ℤ, eqb_ℤ→eq, eqb_ℤ-ne}
use agilefs.Threads.Start.{
  everything, InitCalls, init_buffer_queue, StartCalls, Start, thread_start, start_consumers,
  Started, thread_io_start, init_buffer_queue_holds,
}

-- Either the call goes through the null pointer, or it returns: with an error, or with the flag set.
abbrev StartEnds : Bool → Option Start → Type 0
StartEnds tid m =
    ((m ≡ none) × (tid ≡ false))
    ⊎ ((st : Start) × (m ≡ some st)
        × ((eqb_ℤ st.code (pos 0) ≡ false)
            ⊎ ((eqb_ℤ st.code (pos 0) ≡ true) × (st.running ≡ true))))

thread_start-ends :
    (tid : Bool) (calls : StartCalls) (running : Bool)
    → StartEnds tid (thread_start tid calls running)
unfolding thread_start
thread_start-ends tid calls running = elim (Bool-cases (eqb_ℤ calls.attr_init (pos 0))) [
  | inr f ↦ rw f (inr (_, refl, inl f))
  | inl t ↦ elim (Bool-cases (eqb_ℤ calls.set_detached (pos 0))) [
    | inr f ↦ rw (t, f) (inr (_, refl, inl f))
    | inl u ↦ elim (Bool-cases tid) [
      | inr null ↦ rw (t, u, null) (inl (refl, refl))
      | inl given ↦ elim (Bool-cases (eqb_ℤ calls.create (pos 0))) [
        | inl c ↦ rw (t, u, given) (inr (_, refl, inr (c, c)))
        | inr c ↦ rw (t, u, given) (inr (_, refl, inl c))
      ]
    ]
  ]
]

abbrev ConsumersEnd : Bool → List StartCalls → Option (ℤ × ℕ × Bool) → Type 0
ConsumersEnd tids consumers m =
    ((m ≡ none) × (tids ≡ false) × (consumers ≢ []))
    ⊎ ((code : ℤ) × (n : ℕ) × (running : Bool) × (m ≡ some (code, n, running))
        × ((eqb_ℤ code (pos 0) ≡ false) ⊎ ((eqb_ℤ code (pos 0) ≡ true) × (n ≡ length consumers))))

start_consumers-ends :
    (tids : Bool) (ret : ℤ) (consumers : List StartCalls) (running : Bool)
    → eqb_ℤ ret (pos 0) ≡ true
    → ConsumersEnd tids consumers (start_consumers tids ret consumers running)
unfolding start_consumers
start_consumers-ends tids ret [] running z = inr (ret, 0, running, refl, inr (z, refl))
start_consumers-ends tids ret (calls ∷ later) running z =
    elim (thread_start-ends tids calls running) [
      | inl (faults, null) ↦ inl (rw (start_consumers, faults), null, λ e. cc)
      | inr (st, e, inl bad) ↦
          inr (st.code, 0, st.running, rw (start_consumers, e, ◌>>=◌, bad), inl bad)
      | inr (st, e, inr (good, on)) ↦
          elim (start_consumers-ends tids st.code later st.running good) [
            | inl (faults, null, some_left) ↦
                inl (rw (start_consumers, e, ◌>>=◌, good, faults), null, λ q. cc)
            | inr (code, n, running', q, inl bad) ↦
                inr (code, suc n, running', rw (start_consumers, e, ◌>>=◌, good, q), inl bad)
            | inr (code, n, running', q, inr (ok, all)) ↦ inr (
              code,
              suc n,
              running',
              rw (start_consumers, e, ◌>>=◌, good, q),
              inr (ok, ap suc all),
            )
          ]
    ]

neg-ne : (n : ℕ) → n ≢ 0 → neg n ≢ pos 0
neg-ne zero bad e = bad refl
neg-ne (suc n) bad e = cc

-- A queue that was set up holds everything.
init_buffer_queue-everything :
    (calls : InitCalls)
    → calls.errno ≢ 0
    → eqb_ℤ (init_buffer_queue calls).0 (pos 0) ≡ true
    → (init_buffer_queue calls).1 ≡ everything
init_buffer_queue-everything calls bad e =
    let zero_code : (init_buffer_queue calls).0 ≡ pos 0 = eqb_ℤ→eq _ _ e in
    elim (init_buffer_queue_holds calls) [
      | inl (ne, q) ↦ absurd (ne (sym (ap (λ r. r.0) q) ∙ zero_code))
      | inr (inl (m, ne, q)) ↦ absurd (ne (sym (ap (λ r. r.0) q) ∙ zero_code))
      | inr (inr (inl (m, n, ne, q))) ↦ absurd (ne (sym (ap (λ r. r.0) q) ∙ zero_code))
      | inr (inr (inr (inl (m, n, f, given, q)))) ↦ ap (λ r. r.1) q
      | inr (inr (inr (inr (m, n, f, given, q)))) ↦
          absurd (neg-ne calls.errno bad (sym (ap (λ r. r.0) q) ∙ zero_code))
    ]

-- `thread_io_start`, where a failed `malloc` sets `errno`: it writes through a null pointer, which
-- happens only where `tids` was not given and there are consumers to start; or it returns a code other
-- than 0; or it returns 0, the queue holds all its resources, the producer's flag is set and every
-- consumer was started.
pub thread_io_start_runs :
    (init : InitCalls) (producer : StartCalls) (tids : Bool) (consumers : List StartCalls)
    → init.errno ≢ 0
    → ((thread_io_start init producer tids consumers ≡ none) × (tids ≡ false) × (consumers ≢ []))
      ⊎ ((st : Started) × (thread_io_start init producer tids consumers ≡ some st)
          × ((st.code ≢ pos 0)
              ⊎ ((st.code ≡ pos 0)
                  × (st.held ≡ everything)
                  × (st.running ≡ true)
                  × (st.consumers ≡ length consumers))))
unfolding thread_io_start
thread_io_start_runs init producer tids consumers bad =
    elim (Bool-cases (eqb_ℤ (init_buffer_queue init).0 (pos 0))) [
      | inr f ↦ rw f (inr (_, refl, inl (eqb_ℤ-ne _ _ f)))
      | inl t ↦
          let held = init_buffer_queue-everything init bad t in
          elim (thread_start-ends true producer false) [
            | inl (faults, null) ↦ cc
            | inr (st, e, inl failed) ↦
                rw (t, e, ◌>>=◌, failed) (inr (_, refl, inl (eqb_ℤ-ne _ _ failed)))
            | inr (st, e, inr (good, on)) ↦
                elim (start_consumers-ends tids st.code consumers false good) [
                  | inl (faults, null, some_left) ↦
                      rw (t, e, ◌>>=◌, good, faults) (inl (refl, null, some_left))
                  | inr (code, n, running, q, inl failed) ↦
                      rw (t, e, ◌>>=◌, good, q) (inr (_, refl, inl (eqb_ℤ-ne _ _ failed)))
                  | inr (code, n, running, q, inr (ok, all)) ↦
                      rw (t, e, ◌>>=◌, good, q)
                        (inr (_, refl, inr (eqb_ℤ→eq _ _ ok, held, on, all)))
                ]
          ]
    ]
