-- ===== src/Disk/Sound.antt =====
-- A state of src/server/chunks-io.c with one chunk file that holds one block of zeros, stored under
-- the hash `zeros_key`, and no free chunk.
use agilefs.Prelude.{
  ℕ, ◌≡◌, refl, sym, ◌∙◌, arith, Option, some, none, [], ◌∷◌, get_elem?, replicate, Bool-cases, inl,
  inr, some-inj, none-ne-some, lt-of-get_elem?, if◌then◌else◌,
}
use agilefs.Prelude.Int.{ℤ, pos}
use agilefs.Chunks.{FreeChunkList, empty_list}
use agilefs.Chunks.Stack.{empty-IsValid}
use agilefs.ChunkFiles.{ChunkFileInfo}
use agilefs.Platform.{Key, BlockData}
use agilefs.HashDb.{db_get-db_read}
use agilefs.ChunkIo.{State}
use agilefs.ChunkIo.Sound.{HasFile, IsSoundFile, Stored, IsPlaced, IsSound}
use agilefs.Disk.{disk, same_key, same_key→eq}
use agilefs.Disk.Bytes.{read_bytes, length-read}

-- A hash for which `hash_to_index` is 0; others index the databases out of bounds.
abbrev pub zeros_key : Key
zeros_key = replicate 16 0

abbrev pub zeros_block : BlockData
zeros_block = record { fd_index = 0; ref_count = 1; offset = 0 }

abbrev pub zeros_db : Key → Option BlockData
zeros_db k = if same_key k zeros_key then some zeros_block else none

abbrev pub one_file : ChunkFileInfo
one_file = record { total = 1; fds = pos 3 ∷ []; cur_size = 4096 ∷ []; fcls = empty_list ∷ [] }

abbrev pub store : State disk
store = record { cfi = one_file; world = record { bytes = λ fd i. 0; db = zeros_db } }

-- There is one file.
only_file : (i : ℕ) (fd : ℤ) → get_elem? one_file.fds i ≡ some fd → (i ≡ 0) × (pos 3 ≡ fd)
only_file i fd e =
    let z : i ≡ 0 = omega (arith, lt-of-get_elem? one_file.fds i fd e) in (z, some-inj (rw z at e))

-- There is one entry.
only_entry :
    (k : Key) (bd : BlockData) → Stored disk store k bd → (k ≡ zeros_key) × (zeros_block ≡ bd)
only_entry k bd st =
    let (_, found) = db_get-db_read disk k store.world (some bd) st in
    elim (Bool-cases (same_key k zeros_key)) [
      | inl e ↦ (same_key→eq k zeros_key e, some-inj (rw e at found))
      | inr e ↦ absurd (none-ne-some (rw e at found))
    ]

pub first_file : HasFile one_file 0 (pos 3) 4096 empty_list
first_file = record { fd_at = refl; size_at = refl; fcl_at = refl }

abbrev pub zeros_placed : IsPlaced disk store zeros_block
zeros_placed = record {
  fd = pos 3;
  size = 4096;
  fcl = empty_list;
  bytes = read_bytes (λ i. 0) 4096 0;
  file = first_file;
  inside = omega arith;
  aligned = refl;
  not_free = λ x. x;
  reads = refl;
  full = length-read (λ i. 0) 4096 0;
}

whole_file : IsSoundFile 4096 empty_list
whole_file = record {
  valid = empty-IsValid;
  aligned = refl;
  below = λ x p. absurd p;
  distinct = tt;
}

file_sound :
    (i : ℕ) (fd : ℤ) (size : ℕ) (fcl : FreeChunkList)
    → HasFile one_file i fd size fcl
    → IsSoundFile size fcl
file_sound i fd size fcl h =
    let (z, _) = only_file i fd h.fd_at in
    let s : 4096 ≡ size = some-inj (rw z at h.size_at) in
    let f : empty_list ≡ fcl = some-inj (rw z at h.fcl_at) in rw (← s, ← f) whole_file

pub store-IsSound : IsSound disk store
store-IsSound = record {
  known = λ i lt. let z : i ≡ 0 = omega arith in rw z (pos 3, 4096, empty_list, first_file);
  files = file_sound;
  separate = λ i j fd fd' ne e e'. absurd (ne ((only_file i fd e).0 ∙ sym (only_file j fd' e').0));
  placed = λ k bd st. rw (← (only_entry k bd st).1) zeros_placed;
  apart =
      λ k k' bd bd' ne st st'. absurd (ne ((only_entry k bd st).0 ∙ sym (only_entry k' bd' st').0));
}
