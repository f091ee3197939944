-- ===== src/HashDb/Tests.antt =====
-- A database that does not open (`DB_init` of src/server/db_ops.c).
use agilefs.Prelude.{◌≡◌, refl, true, false}
use agilefs.HashDb.Setup.{BerkeleyDb, db_clean, close_from}

abbrev locked : BerkeleyDb
locked = record { creates_env = true; opens_env = true; creates = λ i. true; db_opens = λ i. false }

cleaned : (db_clean 5 (record { env = true; dbs = λ i. true })).1.dbs 0 ≡ false
unfolding db_clean close_from
cleaned = refl
