-- ===== src/ChunkFiles/Proper.antt =====
-- `get_proper_chunk_file` finds the first of the files with the least space in use.
use agilefs.Prelude.{
  ℕ, zero, suc, ◌+◌, ◌*◌, ◌<◌, ap, get_elem?, ◌≡◌, ◌⊎◌, inl, inr, refl, arith, some, ◌&&◌, true,
  false, if◌then◌else◌, Bool, below-add_one,
}
use agilefs.Prelude.Int.{ℤ, pos, minus_one, ◌≤ℤ◌, ◌<ℤ◌, ◌-ℤ◌, ltb_ℤ}
use agilefs.Chunks.{FreeChunkList}
use agilefs.ChunkFiles.{
  ChunkFileInfo, capacity, freed_bytes, proper_from, get_proper_chunk_file, max_chunk_file_size,
}

abbrev pub limit : ℤ
limit = pos 0xffff_ffff

-- `ret` is the first of the files below `n` with the least space in use, and `least` that space;
-- files that use `limit` or more do not count, and `ret` is -1 if there is no other.
abbrev pub IsBest : (ℕ → ℤ) → ℕ → ℤ → ℤ → Type 0
IsBest cap n least ret =
    ((ret ≡ minus_one) × (least ≡ limit) × ((j : ℕ) → j < n → limit ≤ℤ cap j))
    ⊎ ((k : ℕ) × (ret ≡ pos k)
        × (least ≡ cap k)
        × (k < n)
        × (cap k <ℤ limit)
        × ((j : ℕ) → j < n → cap k ≤ℤ cap j)
        × ((j : ℕ) → j < k → cap k <ℤ cap j))

least-le : {cap : ℕ → ℤ} {n : ℕ} {least ret : ℤ} → IsBest cap n least ret → least ≤ℤ limit
least-le (inl (e, m, h)) = rw m (omega arith)
least-le (inr (k, e, m, lt, small, all, first)) = rw m (omega arith)

le_of_lt : (a b c : ℤ) → a <ℤ b → b ≤ℤ c → a ≤ℤ c
le_of_lt a b c p q = omega arith

lt_of_lt : (a b c : ℤ) → a <ℤ b → b ≤ℤ c → a <ℤ c
lt_of_lt a b c p q = omega arith

-- The next file, where it is better and where it is not.
IsBest-better :
    {cap : ℕ → ℤ} {n : ℕ} {least ret : ℤ}
    → IsBest cap n least ret
    → cap n <ℤ least
    → IsBest cap (n + 1) (cap n) (pos n)
IsBest-better {cap} {n} {least} (inl (e, m, h)) lt = inr (
  n,
  refl,
  refl,
  omega arith,
  rw m at lt,
  below-add_one (λ j. cap n ≤ℤ cap j) n (λ j p. le_of_lt (cap n) least (cap j) lt (rw m (h j p)))
      (omega arith),
  λ j p. lt_of_lt (cap n) least (cap j) lt (rw m (h j p)),
)
IsBest-better {cap} {n} {least} (inr (k, e, m, below, small, all, first)) lt = inr (
  n,
  refl,
  refl,
  omega arith,
  lt_of_lt (cap n) least limit lt (rw m (omega arith)),
  below-add_one (λ j. cap n ≤ℤ cap j) n (λ j p. le_of_lt (cap n) least (cap j) lt (rw m (all j p)))
      (omega arith),
  λ j p. lt_of_lt (cap n) least (cap j) lt (rw m (all j p)),
)

IsBest-worse :
    {cap : ℕ → ℤ} {n : ℕ} {least ret : ℤ}
    → IsBest cap n least ret
    → least ≤ℤ cap n
    → IsBest cap (n + 1) least ret
IsBest-worse {cap} {n} (inl (e, m, h)) le =
    inl (e, m, below-add_one (λ j. limit ≤ℤ cap j) n h (rw m at le))
IsBest-worse {cap} {n} (inr (k, e, m, below, small, all, first)) le =
    inr (k, e, m, omega arith, small, below-add_one (λ j. cap k ≤ℤ cap j) n all (rw m at le), first)

IsBest-pick :
    (cap : ℕ → ℤ) (n : ℕ) (least ret : ℤ) (better : Bool)
    → IsBest cap n least ret
    → (better ≡ true → cap n <ℤ least)
    → (better ≡ false → least ≤ℤ cap n)
    → IsBest cap (n + 1) (if better then cap n else least) (if better then pos n else ret)
IsBest-pick cap n least ret true b lt le = IsBest-better b (lt refl)
IsBest-pick cap n least ret false b lt le = IsBest-worse b (le refl)

both_tests :
    (c least : ℤ)
    → least ≤ℤ limit
    → ltb_ℤ c max_chunk_file_size && ltb_ℤ c least ≡ false
    → least ≤ℤ c
both_tests c least h e = ground arith

-- The step of the loop.
IsBest-step :
    (cap : ℕ → ℤ) (n : ℕ) (least ret : ℤ)
    → IsBest cap n least ret
    → let better = ltb_ℤ (cap n) max_chunk_file_size && ltb_ℤ (cap n) least in
      IsBest cap (n + 1) (if better then cap n else least) (if better then pos n else ret)
IsBest-step cap n least ret b =
    IsBest-pick cap n least ret _ b (λ e. ground arith) (both_tests (cap n) least (least-le b))

-- The space in use as the code counts it: the size of the file, less 4096 bytes for each free chunk but
-- one (`current` is one less than their number, and -1 for none).
abbrev pub Uses : ℕ → ℤ → ℤ → Type 0
Uses size current used =
    ((current ≡ minus_one) × (used ≡ pos size))
    ⊎ ((c : ℕ) × (current ≡ pos c) × (used ≡ pos size -ℤ pos (c * 4096)))

-- Each of the chunk files has a size and a list, and uses `used`.
abbrev pub AreUsed : ChunkFileInfo → (ℕ → ℤ) → Type 0
AreUsed cfi used =
    (j : ℕ)
    → j < cfi.total
    → (size : ℕ) × (fcl : FreeChunkList) × (get_elem? cfi.cur_size j ≡ some size)
      × (get_elem? cfi.fcls j ≡ some fcl)
      × Uses size fcl.current (used j)

less_nothing : (size : ℕ) → pos size -ℤ pos 0 ≡ pos size
unfolding ◌-ℤ◌
less_nothing size = ground arith

counted :
    (size : ℕ) (current used : ℤ) → Uses size current used → pos size -ℤ freed_bytes current ≡ used
unfolding freed_bytes
counted size current used (inl (e, u)) = rw (e, u) (less_nothing size)
counted size current used (inr (c, e, u)) = rw (e, u) refl

capacity-Uses :
    (cfi : ChunkFileInfo) (used : ℕ → ℤ)
    → AreUsed cfi used
    → (j : ℕ) → j < cfi.total
    → capacity cfi j ≡ some (used j)
unfolding capacity
capacity-Uses cfi used known j lt =
    let (size, fcl, s_at, f_at, u) = known j lt in
    rw (capacity, s_at, f_at) (ap some (counted size fcl.current (used j) u))

module _ (cfi : ChunkFileInfo) (cap : ℕ → ℤ)
    (known : (j : ℕ) → j < cfi.total → capacity cfi j ≡ some (cap j)) where
  proper_from_lem :
      (left i : ℕ) (least ret : ℤ)
      → i + left ≡ cfi.total
      → IsBest cap i least ret
      → (found : ℤ) × (last : ℤ) × (proper_from cfi left i least ret ≡ some found)
        × IsBest cap cfi.total last found
  unfolding proper_from
  proper_from_lem zero i least ret e b =
      let e' : i ≡ cfi.total = omega arith in (ret, least, refl, rw (← e') b)
  proper_from_lem (suc left) i least ret e b =
      let (found, last, q, b') =
        proper_from_lem left (i + 1) _ _ (omega arith) (IsBest-step cap i least ret b) in
      (found, last, rw (known i (omega arith)) q, b')

-- `get_proper_chunk_file` returns the first of the files with the least space in use, as the size of
-- a file less 4096 bytes for each of its free chunks but one, and -1 exactly where every file uses
-- 0xffffffff bytes or more.
pub get_proper_chunk_file-IsBest :
    (cfi : ChunkFileInfo) (used : ℕ → ℤ)
    → AreUsed cfi used
    → (found : ℤ) × (last : ℤ) × (get_proper_chunk_file cfi ≡ some found)
      × IsBest used cfi.total last found
unfolding get_proper_chunk_file
get_proper_chunk_file-IsBest cfi used known =
    proper_from_lem cfi used (capacity-Uses cfi used known) cfi.total 0 limit minus_one
      (omega arith) (inl (refl, refl, λ j p. absurd (omega arith)))
