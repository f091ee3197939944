-- ===== src/DirectIo/Tests.antt =====
-- A write of src/io/storage/direct-ios.c in three calls.
use agilefs.Prelude.{ℕ, ◌≡◌, refl, some, List, [], ◌∷◌}
use agilefs.Prelude.Int.{pos}
use agilefs.DirectIo.{Moved, moves, stops_by_signal, transfer_from, direct_read_at}

abbrev three_calls : List Moved
three_calls = moves 3 ∷ stops_by_signal ∷ moves 5 ∷ []

abbrev arguments : List (ℕ × ℕ)
arguments = (100, 8) ∷ (103, 5) ∷ (103, 5) ∷ []

eight_read : direct_read_at 100 8 three_calls ≡ some (pos 8, arguments)
unfolding direct_read_at transfer_from
eight_read = refl
