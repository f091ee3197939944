-- ===== src/ChunkIo/Put.antt =====
-- `put_new_chunk` for a hash that the database does not have (src/server/chunks-io.c): the block is
-- stored, or the call fails and nothing is stored; no other block is touched.
use mathlib.Core.List.{List-discrete}
use native.Mathlib.Decide.{ℕ_discrete}
use native.Mathlib.Nat.{add-zero}
use agilefs.Prelude.{
  ℕ, ◌≡◌, ◌≢◌, ◌⊎◌, ◌<◌, inl, inr, refl, sym, ap, ◌∙◌, Option, some, none, List, length, get_elem?,
  Bool-cases, some-inj, true, false, if◌then◌else◌,
}
use agilefs.Prelude.Int.{ℤ, pos, minus_one, eqb_ℤ, eqb_ℤ→eq, eqb_ℤ-ne}
use agilefs.ChunkFiles.{get_proper_chunk_file}
use agilefs.Platform.{Key, BlockData, Platform, Laws}
use agilefs.HashDb.{db_slot, db_get, db_get_cong, db_get-db_read, db_get_at}
use agilefs.ChunkIo.{State, allocate, enter_block, block_write, block_read, put_new_chunk}
use agilefs.ChunkIo.Sound.{Stored, IsPlaced, IsSound}
use agilefs.ChunkIo.Allocate.{IsGrown, allocate-IsGrown}
use agilefs.ChunkIo.Enter.{new_block, Keeps, Entries, moved-reads, moved-fd, moved-IsSound}

pub Key-discrete : Discrete Key
Key-discrete = List-discrete ℕ_discrete

-- A stored block is read whole.
pub block_read-IsPlaced :
    (p : Platform) (s : State p) (k : Key) (bd : BlockData)
    → Stored p s k bd
    → (b : IsPlaced p s bd) → block_read p k 4096 0 s ≡ some (some b.bytes)
unfolding block_read
block_read-IsPlaced p s k bd st b = rw (st, b.file.fd_at, add-zero, b.reads)

-- A descriptor of no chunk file.
abbrev pub IsForeign : (p : Platform) → State p → ℤ → Type 0
IsForeign p s fd = (i : ℕ) (fd' : ℤ) → get_elem? s.cfi.fds i ≡ some fd' → fd' ≢ fd

-- What the call did: `code` is 0 or -1. A block is stored under `key`, with one reference, exactly
-- where it is 0, and all the other hashes keep their entries and their bytes.
pub record IsPut (p : Platform) (s : State p) (key : Key) (buf : List ℕ) (m : Option (ℤ × State p))
    : Type 0 where
  pub code : ℤ
  pub after : State p
  pub returns : m ≡ some (code, after)
  pub sound : IsSound p after
  pub outcome :
      ((code ≡ pos 0)
        × (block_read p key 4096 0 after ≡ some (some buf))
        × ((bd : BlockData) × Stored p after key bd × (bd.ref_count ≡ 1)))
      ⊎ ((code ≡ minus_one) × (db_get p key after.world ≡ some none))
  pub entries : (k : Key) → k ≢ key → db_get p k after.world ≡ db_get p k s.world
  pub frame :
      (fd : ℤ) (o : ℕ) (old : List ℕ)
      → IsForeign p s fd
      → p.pread s.world fd (length old) (pos o) ≡ some old
      → p.pread after.world fd (length old) (pos o) ≡ some old
  pub others :
      (k : Key) (bd : BlockData)
      → k ≢ key
      → Stored p s k bd
      → Stored p after k bd × (block_read p k 4096 0 after ≡ block_read p k 4096 0 s)

module _ (p : Platform) (l : Laws p) (s : State p) (sound : IsSound p s) (key : Key) (buf : List ℕ)
    (len : length buf ≡ 4096) (absent : db_get p key s.world ≡ some none) (f o : ℕ) where
  open p use {World, pread, pwrite, db_read, write_hash_db}

  slot : db_slot key ≡ some 0
  slot = (db_get-db_read p key s.world none absent).0

  module _ (cfi' : _) (g : IsGrown s.cfi cfi' f o) where
    abbrev written : World
    written = (pwrite s.world g.fd buf (pos o)).1

    abbrev entered : World
    entered = (write_hash_db written key o f).1

    written-Keeps : Keeps p s sound cfi' f o g written
    written-Keeps fd' o' old apart full r =
        rw full at
          (l.pread-pwrite_apart s.world g.fd fd' buf old o o' (rw (len, full) apart) (rw full r))

    entered-Keeps : Keeps p s sound cfi' f o g entered
    entered-Keeps fd' o' old apart full r =
        l.pread-write_hash_db written key o f fd' 4096 (pos o')
        ∙ written-Keeps fd' o' old apart full r

    -- What is read elsewhere.
    abbrev Frame : World → Type 0
    Frame w =
        (fd' : ℤ) (o' : ℕ) (old : List ℕ)
        → IsForeign p s fd'
        → pread s.world fd' (length old) (pos o') ≡ some old
        → pread w fd' (length old) (pos o') ≡ some old

    written-Frame : Frame written
    written-Frame fd' o' old foreign r =
        l.pread-pwrite_apart s.world g.fd fd' buf old o o' (inl (foreign f g.fd g.before.fd_at)) r

    entered-Frame : Frame entered
    entered-Frame fd' o' old foreign r =
        l.pread-write_hash_db written key o f fd' (length old) (pos o')
        ∙ written-Frame fd' o' old foreign r

    written_db : (k : Key) → db_get p k written ≡ db_get p k s.world
    written_db k = db_get_cong p k s.world written (l.db_read-pwrite s.world g.fd buf (pos o) 0 k)

    entered_others : (k : Key) → k ≢ key → db_get p k entered ≡ db_get p k s.world
    entered_others k ne =
        db_get_cong p k written entered (l.db_read-write_hash_db_ne written key k o f 0 ne)
        ∙ written_db k

    -- The end of the call in world `w`, however it got there.
    finish :
        (w : World) (code : ℤ) (m : Option (ℤ × State p))
        → m ≡ some (code, record { cfi = cfi'; world = w })
        → Keeps p s sound cfi' f o g w
        → Frame w
        → Entries p s sound cfi' f o g w key buf
        → ((k : Key) → k ≢ key → db_get p k w ≡ db_get p k s.world)
        → ((code ≡ pos 0)
            × (db_get p key w ≡ some (some (new_block f o)))
            × (pread w g.fd 4096 (pos o) ≡ some buf))
          ⊎ ((code ≡ minus_one) × (db_get p key w ≡ some none))
        → IsPut p s key buf m
    finish w code m e keeps frame entries others out = record {
      code = code;
      after = record { cfi = cfi'; world = w };
      returns = e;
      sound = moved-IsSound p s sound cfi' f o g w keeps key buf len absent entries;
      outcome = elim out [
        | inl (ec, st, r) ↦ inl (
          ec,
          unfold block_read in rw (st, g.same_fds, g.before.fd_at, add-zero, r),
          (new_block f o, st, refl),
        )
        | inr (ec, st) ↦ inr (ec, st)
      ];
      entries = others;
      frame = frame;
      others = λ k bd ne st.
          let b : IsPlaced p s bd = sound.placed k bd st in
          let st' : db_get p k w ≡ some (some bd) = others k ne ∙ st in
          let there : block_read p k 4096 0 (record { cfi = cfi'; world = w })
              ≡ some (some b.bytes) =
            unfold block_read in
            rw (
              st',
              moved-fd p s sound cfi' f o g w bd b,
              add-zero,
              moved-reads p s sound cfi' f o g w bd b keeps,
            ) in
          (st', there ∙ sym (block_read-IsPlaced p s k bd st b));
    }

    module _ (file : get_proper_chunk_file s.cfi ≡ some (pos f))
        (alloc : allocate s.cfi f ≡ some (pos o, cfi')) where
      abbrev ending : ℤ × State p
      ending = enter_block p cfi' key (pos o) f (pwrite s.world g.fd buf (pos o))

      put-eq :
          put_new_chunk p key buf s
          ≡ some (if eqb_ℤ ending.0 (pos 4096) then pos 0 else minus_one, ending.1)
      unfolding put_new_chunk block_write
      put-eq = rw (absent, file, alloc, g.same_fds, g.before.fd_at)

      abbrev n : ℤ
      n = (pwrite s.world g.fd buf (pos o)).0

      abbrev x : ℤ
      x = (write_hash_db written key o f).0

      IsPut-short : eqb_ℤ n (pos 4096) ≡ false → IsPut p s key buf (put_new_chunk p key buf s)
      IsPut-short e =
          finish written minus_one (put_new_chunk p key buf s)
            (put-eq ∙ unfold enter_block in rw (e, e)) written-Keeps written-Frame
            (λ k bd st. inl (sym (written_db k) ∙ st)) (λ k ne. written_db k)
            (inr (refl, written_db key ∙ absent))

      IsPut-unentered :
          eqb_ℤ n (pos 4096) ≡ true
          → eqb_ℤ x (pos 0) ≡ false
          → IsPut p s key buf (put_new_chunk p key buf s)
      IsPut-unentered e ex =
          finish entered minus_one (put_new_chunk p key buf s)
            (put-eq ∙ unfold enter_block in rw (e, ex)) entered-Keeps entered-Frame
            (λ k bd st. inl (sym (entered_none k) ∙ st)) (λ k ne. entered_none k)
            (inr (refl, entered_none key ∙ absent))
        where
          entered_key : db_get p key entered ≡ db_get p key s.world
          entered_key =
              db_get_cong p key written entered
                (l.db_read-write_hash_db_failed written key o f 0 (eqb_ℤ-ne x (pos 0) ex))
              ∙ written_db key

          entered_none : (k : Key) → db_get p k entered ≡ db_get p k s.world
          entered_none k = elim (Key-discrete k key) [
            | yes same ↦ rw same entered_key
            | no ne ↦ entered_others k ne
          ]

      IsPut-entered :
          eqb_ℤ n (pos 4096) ≡ true
          → eqb_ℤ x (pos 0) ≡ true
          → IsPut p s key buf (put_new_chunk p key buf s)
      IsPut-entered e ex =
          finish entered (pos 0) (put_new_chunk p key buf s)
            (put-eq ∙ unfold enter_block in rw (e, ex, e)) entered-Keeps entered-Frame entries
            entered_others (inl (refl, has_block, reads))
        where
          whole : pread written g.fd 4096 (pos o) ≡ some buf
          whole = rw len at (l.pread-pwrite s.world g.fd buf o (rw len (eqb_ℤ→eq n (pos 4096) e)))

          reads : pread entered g.fd 4096 (pos o) ≡ some buf
          reads = l.pread-write_hash_db written key o f g.fd 4096 (pos o) ∙ whole

          has_block : db_get p key entered ≡ some (some (new_block f o))
          has_block =
              db_get_at p key entered slot
              ∙ ap some (l.db_read-write_hash_db written key o f (eqb_ℤ→eq x (pos 0) ex))

          entries : Entries p s sound cfi' f o g entered key buf
          entries k bd st = elim (Key-discrete k key) [
            | yes same ↦
                let st' : db_get p key entered ≡ some (some bd) = rw same at st in
                inr (same, some-inj (some-inj (sym st' ∙ has_block)), reads)
            | no ne ↦ inl (sym (entered_others k ne) ∙ st)
          ]

      IsPut-cases : IsPut p s key buf (put_new_chunk p key buf s)
      IsPut-cases = elim (Bool-cases (eqb_ℤ n (pos 4096))) [
        | inl e ↦ elim (Bool-cases (eqb_ℤ x (pos 0))) [
          | inl ex ↦ IsPut-entered e ex
          | inr ex ↦ IsPut-unentered e ex
        ]
        | inr e ↦ IsPut-short e
      ]

-- Into a sound store that has a file for it, `put_new_chunk` of a block of 4096 bytes under a hash
-- that is not stored returns 0 or -1 without a fault, and the store is sound again. Exactly where
-- it returns 0 the block is stored under the hash with one reference, and `block_read` returns its
-- bytes. The other hashes keep their entries and the bytes that are read for them.
pub put_new_chunk-IsPut :
    (p : Platform)
    → Laws p
    → (s : State p) (key : Key) (buf : List ℕ) (f : ℕ) → IsSound p s
    → length buf ≡ 4096
    → db_get p key s.world ≡ some none
    → get_proper_chunk_file s.cfi ≡ some (pos f)
    → f < s.cfi.total
    → IsPut p s key buf (put_new_chunk p key buf s)
put_new_chunk-IsPut p l s key buf f sound len absent file lt =
    let (fd, size, fcl, h) = sound.known f lt in
    let (o, cfi', alloc, g) =
      allocate-IsGrown s.cfi f fd size fcl h (sound.files f fd size fcl h) in
    IsPut-cases p l s sound key buf len absent f o cfi' g file alloc
