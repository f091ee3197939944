-- ===== src/ChunkIo/Reference.antt =====
-- `put_new_chunk` for a hash that is stored already (src/server/chunks-io.c): one more reference.
use agilefs.Prelude.{
  ℕ, ◌+◌, ◌<◌, ◌≡◌, ◌≢◌, ◌⊎◌, inl, inr, refl, sym, ap, ◌∙◌, Option, some, List, Bool-cases, lt→ltb,
  some-inj, if◌then◌else◌,
}
use agilefs.Prelude.Int.{ℤ, pos, minus_one, eqb_ℤ, eqb_ℤ→eq, eqb_ℤ-ne}
use agilefs.Platform.{Key, BlockData, Platform, Laws}
use agilefs.HashDb.{db_slot, db_get, db_get_cong, db_get-db_read, db_get_at, db_put_at}
use agilefs.ChunkIo.{State, block_read, put_new_chunk, max_int}
use agilefs.ChunkIo.Sound.{Stored, IsPlaced, IsSound}
use agilefs.ChunkIo.Put.{Key-discrete}

abbrev pub one_more : BlockData → BlockData
one_more bd = record bd { ref_count = bd.ref_count + 1 }

-- What the call did: the entry of `key` counts one more where the code is 0, and is as before where
-- it is -1; nothing else changes.
pub record IsShared (p : Platform) (s : State p) (key : Key) (bd : BlockData)
    (m : Option (ℤ × State p)) : Type 0 where
  pub code : ℤ
  pub after : State p
  pub returns : m ≡ some (code, after)
  pub sound : IsSound p after
  pub outcome :
      ((code ≡ pos 0) × Stored p after key (one_more bd))
      ⊎ ((code ≡ minus_one) × Stored p after key bd)
  pub others : (k : Key) → k ≢ key → db_get p k after.world ≡ db_get p k s.world
  pub same_bytes :
      (k : Key) (bd' : BlockData) (n a : ℕ)
      → Stored p s k bd'
      → block_read p k n a after ≡ block_read p k n a s

-- An entry that is that of `bd0` up to its references.
record SamePlace (bd bd0 : BlockData) : Type 0 where
  file_eq : bd.fd_index ≡ bd0.fd_index
  offset_eq : bd.offset ≡ bd0.offset

module _ (p : Platform) (l : Laws p) (s : State p) (sound : IsSound p s) (key : Key)
    (bd : BlockData) (st : Stored p s key bd) where
  abbrev w : p.World
  w = (p.db_write s.world 0 key (one_more bd)).1

  abbrev ended : State p
  ended = record s { world = w }

  others_lem : (k : Key) → k ≢ key → db_get p k w ≡ db_get p k s.world
  others_lem k ne =
      db_get_cong p k s.world w (l.db_read-db_write_ne s.world 0 key k (one_more bd) ne)

  module _ (now : BlockData) (same : SamePlace now bd) (stored : Stored p ended key now) where
    origin :
        (k : Key) (bd' : BlockData)
        → Stored p ended k bd'
        → (bd0 : BlockData) × Stored p s k bd0 × SamePlace bd' bd0
    origin k bd' st' = elim (Key-discrete k key) [
      | yes e ↦
          let q : bd' ≡ now = some-inj (some-inj (sym (rw e at st') ∙ stored)) in
          (bd, rw e st, rw q same)
      | no ne ↦ (bd', sym (others_lem k ne) ∙ st', record { file_eq = refl; offset_eq = refl })
    ]

    placed_lem : (k : Key) (bd' : BlockData) → Stored p ended k bd' → IsPlaced p ended bd'
    placed_lem k bd' st' =
        let (bd0, st0, eq) = origin k bd' st' in
        let b : IsPlaced p s bd0 = sound.placed k bd0 st0 in
        record {
          fd = b.fd;
          size = b.size;
          fcl = b.fcl;
          bytes = b.bytes;
          file = rw (eq.file_eq) (b.file);
          inside = rw (eq.offset_eq) (b.inside);
          aligned = rw (eq.offset_eq) (b.aligned);
          not_free = rw (eq.offset_eq) (b.not_free);
          reads =
              rw (eq.offset_eq)
                (l.pread-db_write s.world 0 key (one_more bd) b.fd 4096 (pos bd0.offset) ∙ b.reads);
          full = b.full;
        }

    ended-IsSound : IsSound p ended
    ended-IsSound = record {
      known = sound.known;
      files = sound.files;
      separate = sound.separate;
      placed = placed_lem;
      apart = λ k k' b b' ne u u' f o.
          let (b0, u0, eq) = origin k b u in
          let (b0', u0', eq') = origin k' b' u' in
          sound.apart k k' b0 b0' ne u0 u0' (sym (eq.file_eq) ∙ f ∙ eq'.file_eq)
            (sym (eq.offset_eq) ∙ o ∙ eq'.offset_eq);
    }

    same_bytes_lem :
        (k : Key) (bd' : BlockData) (n a : ℕ)
        → Stored p s k bd'
        → block_read p k n a ended ≡ block_read p k n a s
    same_bytes_lem k bd' n a u = elim (Key-discrete k key) [
      | yes e ↦
          let b : IsPlaced p s bd = sound.placed key bd st in
          rw e (
            unfold block_read in
            rw (
              st,
              stored,
              same.file_eq,
              same.offset_eq,
              b.file.fd_at,
              l.pread-db_write s.world 0 key (one_more bd) b.fd n (pos (bd.offset + a)),
            ))
      | no ne ↦
          let b : IsPlaced p s bd' = sound.placed k bd' u in
          unfold block_read in
          rw (
            others_lem k ne,
            u,
            b.file.fd_at,
            l.pread-db_write s.world 0 key (one_more bd) b.fd n (pos (bd'.offset + a)),
          )
    ]

  slot : db_slot key ≡ some 0
  slot = (db_get-db_read p key s.world (some bd) st).0

  module _ (room : bd.ref_count < max_int) (buf : List ℕ) where
    abbrev c : ℤ
    c = (p.db_write s.world 0 key (one_more bd)).0

    put-eq : put_new_chunk p key buf s ≡ some (if eqb_ℤ c (pos 0) then pos 0 else minus_one, ended)
    unfolding put_new_chunk
    put-eq = rw (st, lt→ltb bd.ref_count max_int room, db_put_at p key (one_more bd) s.world slot)

    shared : IsShared p s key bd (put_new_chunk p key buf s)
    shared = elim (Bool-cases (eqb_ℤ c (pos 0))) [
      | inl e ↦
          let stored : Stored p ended key (one_more bd) =
            db_get_at p key w slot
            ∙ ap some (l.db_read-db_write s.world 0 key (one_more bd) (eqb_ℤ→eq c (pos 0) e)) in
          let same : SamePlace (one_more bd) bd = record { file_eq = refl; offset_eq = refl } in
          record {
            code = pos 0;
            after = ended;
            returns = put-eq ∙ rw e;
            sound = ended-IsSound (one_more bd) same stored;
            outcome = inl (refl, stored);
            others = others_lem;
            same_bytes = same_bytes_lem (one_more bd) same stored;
          }
      | inr e ↦
          let stored : Stored p ended key bd =
            db_get_cong p key s.world w
              (l.db_read-db_write_failed s.world 0 key (one_more bd) (eqb_ℤ-ne c (pos 0) e))
            ∙ st in
          let same : SamePlace bd bd = record { file_eq = refl; offset_eq = refl } in
          record {
            code = minus_one;
            after = ended;
            returns = put-eq ∙ rw e;
            sound = ended-IsSound bd same stored;
            outcome = inr (refl, stored);
            others = others_lem;
            same_bytes = same_bytes_lem bd same stored;
          }
    ]

-- `put_new_chunk` of a hash that is stored, with fewer than 2 ^ 31 - 1 references, returns 0 or -1
-- without a fault: where it is 0 the hash has one reference more, otherwise its entry is as before.
-- The entries of the other hashes and every byte that `block_read` returns stay as they were,
-- whatever the buffer holds, and the store stays sound.
pub put_new_chunk-IsShared :
    (p : Platform)
    → Laws p
    → (s : State p) (key : Key) (bd : BlockData) (buf : List ℕ) → IsSound p s
    → Stored p s key bd
    → bd.ref_count < max_int
    → IsShared p s key bd (put_new_chunk p key buf s)
put_new_chunk-IsShared p l s key bd buf sound st room = shared p l s sound key bd st room buf
