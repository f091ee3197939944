-- ===== src/DirectIo.antt =====
-- src/io/storage/direct-ios.c: `direct_write_at` and `direct_read_at`, which have the same loop. The
-- results of the successive system calls are a list; `none` is that the function has not returned
-- when the list ends. `pwirte` is declared nowhere, and both calls give their third and fourth
-- argument in the order of this code, (offset, size).
pub mod Laws
mod Tests
use agilefs.Prelude.{
  ℕ, zero, suc, ◌+◌, ◌-◌, ltb, ◌==◌, if◌then◌else◌, Option, none, some, ◌>>=◌, List, [], ◌∷◌,
}
use agilefs.Prelude.Int.{ℤ, pos, minus_one}

-- What a call returns: how many bytes it moved, or -1 with `errno` `EINTR` or another.
pub data Moved : Type 0 where
  moves : ℕ → Moved
  stops_by_signal fails : Moved

-- The loop with `done` in `ret_size`: the code, and the third and fourth argument of every call.
pub transfer_from : ℕ → ℕ → ℕ → List Moved → Option (ℤ × List (ℕ × ℕ))
transfer_from offset size done [] = none
transfer_from offset size done (moves n ∷ results) =
    let later = transfer_from offset size (done + n) results in
    if n == 0
    then some (pos done, (offset + done, size - done) ∷ [])
    else (if ltb (done + n) size
        then (do (code, calls) ← later; some (code, (offset + done, size - done) ∷ calls))
        else some (pos (done + n), (offset + done, size - done) ∷ []))
transfer_from offset size done (stops_by_signal ∷ results) = do
  (code, calls) ← transfer_from offset size done results
  some (code, (offset + done, size - done) ∷ calls)
transfer_from offset size done (fails ∷ results) =
    some (minus_one, (offset + done, size - done) ∷ [])

pub direct_write_at : ℕ → ℕ → List Moved → Option (ℤ × List (ℕ × ℕ))
unfolding transfer_from
direct_write_at offset size results = transfer_from offset size 0 results

pub direct_read_at : ℕ → ℕ → List Moved → Option (ℤ × List (ℕ × ℕ))
unfolding transfer_from
direct_read_at offset size results = transfer_from offset size 0 results
