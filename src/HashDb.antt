-- ===== src/HashDb.antt =====
-- src/server/db_ops.c: the hash databases, an array of `NUM_SERVER_DBS` handles that the first four
-- bytes of a hash index.
pub mod Setup
mod Tests
use agilefs.Prelude.{
  ℕ, ◌+◌, ◌*◌, ◌≡◌, ◌∙◌, ap, inl, inr, ltb, if◌then◌else◌, Option, none, some, ◌>>=◌, get_or,
  Option-cases, some-inj, none-ne-some, arith,
}
use agilefs.Prelude.Int.{ℤ, pos, negsuc, int_of_u32}
use agilefs.Platform.{Key, BlockData, Platform}

abbrev pub num_server_dbs : ℕ
num_server_dbs = 1

-- `hash_to_index`: the first four bytes as a little-endian `int`.
unfoldable pub hash_to_index : Key → ℤ
hash_to_index k =
    int_of_u32
      (get_or k 0 0 + 0x100 * get_or k 1 0 + 0x1_0000 * get_or k 2 0 + 0x100_0000 * get_or k 3 0)

-- The index of `dbp[i]`; outside the array the access is a fault.
unfoldable pub db_slot_at : ℤ → Option ℕ
db_slot_at (pos i) = if ltb i num_server_dbs then some i else none
db_slot_at (negsuc _) = none

unfoldable pub db_slot : Key → Option ℕ
unfolding hash_to_index db_slot_at
db_slot k = db_slot_at (hash_to_index k)

module _ (p : Platform) where
  open p use {World, db_read, db_write, db_remove}

  unfoldable pub db_put : Key → BlockData → World → Option (ℤ × World)
  db_put k bd w = do i ← db_slot k; some (db_write w i k bd)

  -- Inside the option of faults, `none` is an error code and `*pbd` is left alone.
  unfoldable pub db_get : Key → World → Option (Option BlockData)
  db_get k w = do i ← db_slot k; some (db_read w i k)

  -- The flags of the key are what the stack held there (src/server/db_ops.c:132): `db_remove` is the
  -- call with such a key, so no law says that it succeeds.
  unfoldable pub db_del : Key → World → Option (ℤ × World)
  db_del k w = do i ← db_slot k; some (db_remove w i k)

db_slot_at-eq-zero : (z : ℤ) (i : ℕ) → db_slot_at z ≡ some i → i ≡ 0
unfolding db_slot_at
db_slot_at-eq-zero (pos n) i e = ground arith
db_slot_at-eq-zero (negsuc n) i e = cc

-- The only index inside the array.
pub db_slot-eq-zero : (k : Key) (i : ℕ) → db_slot k ≡ some i → i ≡ 0
unfolding db_slot
db_slot-eq-zero k i e = db_slot_at-eq-zero (hash_to_index k) i e

module _ (p : Platform) where
  open p use {World, db_read}

  -- A lookup depends on the entry of its key alone.
  pub db_get_cong :
      (k : Key) (w w' : World) → db_read w' 0 k ≡ db_read w 0 k → db_get p k w' ≡ db_get p k w
  unfolding db_get
  db_get_cong k w w' e = elim (Option-cases (db_slot k)) [
    | inl none_at ↦ rw none_at
    | inr (i, found) ↦ rw (found, db_slot-eq-zero k i found, e)
  ]

  pub db_get-db_read :
      (k : Key) (w : World) (o : Option BlockData)
      → db_get p k w ≡ some o
      → (db_slot k ≡ some 0) × (db_read w 0 k ≡ o)
  unfolding db_get
  db_get-db_read k w o e = elim (Option-cases (db_slot k)) [
    | inl none_at ↦ absurd (none-ne-some (rw none_at at e))
    | inr (i, found) ↦
        let z = db_slot-eq-zero k i found in (found ∙ ap some z, rw z at (some-inj (rw found at e)))
  ]

  pub db_get_at : (k : Key) (w : World) → db_slot k ≡ some 0 → db_get p k w ≡ some (db_read w 0 k)
  unfolding db_get
  db_get_at k w e = rw e

pub db_del_at :
    (p : Platform) (k : Key) (w : p.World)
    → db_slot k ≡ some 0
    → db_del p k w ≡ some (p.db_remove w 0 k)
unfolding db_del
db_del_at p k w e = rw e

pub db_put_at :
    (p : Platform) (k : Key) (bd : BlockData) (w : p.World)
    → db_slot k ≡ some 0
    → db_put p k bd w ≡ some (p.db_write w 0 k bd)
unfolding db_put
db_put_at p k bd w e = rw e
