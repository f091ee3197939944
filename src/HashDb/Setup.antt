-- ===== src/HashDb/Setup.antt =====
-- `DB_init` and `DB_clean` of src/server/db_ops.c: the environment and the handles. The number of
-- databases is a parameter of the loops.
use agilefs.Prelude.{
  ◌⊎◌, ◌≡◌, ℕ, zero, suc, ◌+◌, ltb, ◌==◌, if◌then◌else◌, Bool, true, false, Option, none, some,
}
use agilefs.Prelude.Int.{ℤ, pos, minus_one}
use agilefs.HashDb.{num_server_dbs}

-- What the calls return: 0, or an error. `creates` and `db_opens` are for the handle of database `i`.
pub record BerkeleyDb : Type 0 where
  pub creates_env : Bool
  pub opens_env : Bool
  pub creates : ℕ → Bool
  pub db_opens : ℕ → Bool

-- The environment and the handles that were created and not closed.
pub record Handles : Type 0 where
  pub env : Bool
  pub dbs : ℕ → Bool

abbrev pub no_handles : Handles
no_handles = record { env = false; dbs = λ i. false }

abbrev pub with_db : Handles → ℕ → Bool → Handles
with_db h i b = record h { dbs = λ j. if j == i then b else h.dbs j }

-- The loop of `DB_clean` over the handles that are not null, with `left` to go.
unfoldable pub close_from : ℕ → ℕ → Handles → Handles
close_from zero i h = h
close_from (suc left) i h = close_from left (i + 1) (with_db h i false)

unfoldable pub db_clean : ℕ → Handles → ℤ × Handles
unfolding close_from
db_clean cnt h =
    let n = if ltb num_server_dbs cnt then num_server_dbs else cnt in
    (pos 0, record (close_from n 0 h) { env = false })

-- The loop of `DB_init` from database `i` on. A handle that was not created calls a method of its
-- own, which is null: `none`.
unfoldable pub init_from : ℕ → ℕ → BerkeleyDb → Handles → Option (ℤ × Handles)
unfolding db_clean
init_from zero i db h = some (pos 0, h)
init_from (suc left) i db h =
    let h' = with_db h i true in
    let rest = init_from left (i + 1) db h' in
    if db.creates i
    then (if db.db_opens i
        then rest
        else (let (_, cleaned) = db_clean i h' in some (minus_one, cleaned)))
    else none

unfoldable pub db_init : BerkeleyDb → Option (ℤ × Handles)
unfolding init_from
db_init db =
    if db.creates_env
    then (let h = record no_handles { env = true } in
        if db.opens_env then init_from num_server_dbs 0 db h else some (minus_one, h))
    else some (minus_one, no_handles)

-- What `DB_init` leaves: on success the environment and its database, and on an error one of the
-- two that cannot be reached again: the environment that did not open, or the database that did not.
pub record IsSetUp (db : BerkeleyDb) (code : ℤ) (h : Handles) : Type 0 where
  pub started : code ≡ pos 0 → (h.env ≡ true) × (h.dbs 0 ≡ true)
  pub failed : code ≡ minus_one → db.creates_env ≡ true → (h.env ≡ true) ⊎ (h.dbs 0 ≡ true)
