-- ===== src/ChunkIo/Sync.antt =====
-- `sync_chunk_data` (src/server/chunks-io.c): of which files it warns.
use agilefs.Prelude.{
  ℕ, zero, suc, ◌+◌, ◌≤◌, ◌<◌, ◌≡◌, ◌≢◌, ◌↔◌, inl, inr, refl, arith, some, List, [], ◌∷◌, get_elem?,
  Bool-cases, ◌==◌, ==→eq, ne→≢,
}
use agilefs.Prelude.Int.{ℤ, pos, eqb_ℤ, eqb_ℤ→eq, eqb_ℤ-ne}
use agilefs.Platform.{Platform}
use agilefs.ChunkIo.{State, sync_from, sync_chunk_data}
use agilefs.ChunkIo.Sound.{In}

module _ (p : Platform) (s : State p) (fd_of : ℕ → ℤ)
    (open_fds : (i : ℕ) → i < s.cfi.total → get_elem? s.cfi.fds i ≡ some (fd_of i)) where
  -- The list has the files from `i` on whose `fsync` returned 0.
  abbrev Warned : ℕ → List ℕ → Type 0
  Warned i warned =
      (j : ℕ)
      → (In j warned → (i ≤ j) × (j < s.cfi.total) × (p.fsync s.world (fd_of j) ≡ pos 0))
        × (i ≤ j → j < s.cfi.total → p.fsync s.world (fd_of j) ≡ pos 0 → In j warned)

  Warned-zero :
      (i : ℕ) (later : List ℕ)
      → i < s.cfi.total
      → p.fsync s.world (fd_of i) ≡ pos 0
      → Warned (i + 1) later
      → Warned i (i ∷ later)
  Warned-zero i later lt e h j = (
    λ x. elim x [
      | inl same ↦ rw same (omega arith, lt, e)
      | inr further ↦ let (a, b, c) = (h j).0 further in (omega arith, b, c)
    ],
    λ a b c. elim (Bool-cases (j == i)) [
      | inl same ↦ inl (==→eq j i same)
      | inr other ↦ let ne = ne→≢ j i other in inr ((h j).1 (omega arith) b c)
    ],
  )

  Warned-skip :
      (i : ℕ) (later : List ℕ)
      → p.fsync s.world (fd_of i) ≢ pos 0
      → Warned (i + 1) later
      → Warned i later
  Warned-skip i later ne h j = (
    λ x. let (a, b, c) = (h j).0 x in (omega arith, b, c),
    λ a b c. elim (Bool-cases (j == i)) [
      | inl same ↦ absurd (ne (rw (==→eq j i same) at c))
      | inr other ↦ let apart = ne→≢ j i other in (h j).1 (omega arith) b c
    ],
  )

  sync_from_lem :
      (left i : ℕ)
      → i + left ≡ s.cfi.total
      → (warned : List ℕ) × (sync_from p left i s ≡ some warned) × Warned i warned
  unfolding sync_from
  sync_from_lem zero i e = ([], refl, λ j. (λ x. absurd x, λ a b c. absurd (omega arith)))
  sync_from_lem (suc left) i e =
      let (later, q, h) = sync_from_lem left (i + 1) (omega arith) in
      let fd_at = open_fds i (omega arith) in
      elim (Bool-cases (eqb_ℤ (p.fsync s.world (fd_of i)) (pos 0))) [
        | inl t ↦
            (i ∷ later, rw (fd_at, q, t), Warned-zero i later (omega arith) (eqb_ℤ→eq _ _ t) h)
        | inr f ↦ (later, rw (fd_at, q, f), Warned-skip i later (eqb_ℤ-ne _ _ f) h)
      ]

  -- `sync_chunk_data` with all the files open returns 0, and the files that it warns of are exactly
  -- those whose `fsync` succeeded.
  pub sync_chunk_data_warns :
      (warned : List ℕ) × (sync_chunk_data p s ≡ some (pos 0, warned))
      × ((j : ℕ) → In j warned ↔ ((j < s.cfi.total) × (p.fsync s.world (fd_of j) ≡ pos 0)))
  unfolding sync_chunk_data
  sync_chunk_data_warns =
      let (warned, q, h) = sync_from_lem s.cfi.total 0 (omega arith) in
      (
        warned,
        rw q,
        λ j. (λ x. let (a, b, c) = (h j).0 x in (b, c), λ y. (h j).1 (omega arith) (y.0) (y.1)),
      )
