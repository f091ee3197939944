-- ===== src/Arrays.antt =====
-- Arrays that are written at an index, shared by the parts that fill one (src/server/expat-xml.c,
-- src/client/fuse_io_util.c and src/client/fuse_cache.c).
use agilefs.Prelude.{ℕ, ◌<◌, ◌≡◌, Option, some, List, length, set, ltb, lt→ltb, assert}

-- Outside the array the write is undefined.
abbrev pub put_at {ℓ} : {A : Type ℓ} → List A → ℕ → A → Option (List A)
put_at xs i v = assert (ltb i (length xs)) (some (set xs i v))

pub put_at_lem {ℓ} :
    {A : Type ℓ} (xs : List A) (i : ℕ) (v : A) → i < length xs → put_at xs i v ≡ some (set xs i v)
put_at_lem xs i v lt = rw (lt→ltb i (length xs) lt)
