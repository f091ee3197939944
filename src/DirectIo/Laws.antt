-- ===== src/DirectIo/Laws.antt =====
-- What the loop of src/io/storage/direct-ios.c returns.
use agilefs.Prelude.{ℕ, ◌+◌, ◌-◌, ◌≤◌, ◌≡◌, ◌⊎◌, List, [], ◌∷◌, ◌++◌}
use agilefs.Prelude.Int.{ℤ, pos, minus_one}
use agilefs.DirectIo.{Moved, moves, stops_by_signal, fails}

abbrev pub moved_by : Moved → ℕ
moved_by (moves n) = n
moved_by stops_by_signal = 0
moved_by fails = 0

-- All the bytes that the calls moved.
abbrev pub total_moved : List Moved → ℕ
total_moved [] = 0
total_moved (m ∷ results) = moved_by m + total_moved results

-- The arguments of the calls with these results: each starts where the ones before it ended.
abbrev pub arguments_of : ℕ → ℕ → ℕ → List Moved → List (ℕ × ℕ)
arguments_of offset size done [] = []
arguments_of offset size done (m ∷ results) =
    (offset + done, size - done) ∷ arguments_of offset size (done + moved_by m) results

-- The last of the calls failed and the code is -1, or the code is what `done` and the calls come to
-- and this is all that was asked for, or the last call moved nothing.
abbrev pub Ends : ℕ → ℕ → List Moved → ℤ → Type 0
Ends size done made code =
    ((code ≡ minus_one) × ((ms : List Moved) × (made ≡ ms ++ (fails ∷ []))))
    ⊎ ((code ≡ pos (done + total_moved made))
        × ((size ≤ done + total_moved made) ⊎ ((ms : List Moved) × (made ≡ ms ++ (moves 0 ∷ [])))))

-- `made` are the results of the calls that the loop made.
abbrev pub Counts : ℕ → ℕ → ℕ → List Moved → ℤ → List (ℕ × ℕ) → Type 0
Counts offset size done results code calls =
    (made : List Moved) × (rest : List Moved) × (results ≡ made ++ rest)
    × (calls ≡ arguments_of offset size done made)
    × Ends size done made code
