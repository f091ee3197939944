-- ===== src/Server.antt =====
-- `test_get_one_chunk` of src/server/agilefs-server.c, with which the producer gets a block and its
-- hash.
pub mod Loss
mod Tests
use agilefs.Prelude.{ℕ, ◌+◌, Option, none, some, List, [], ◌∷◌, ◌++◌, length, take, drop}
use agilefs.Prelude.Int.{ℤ, pos, minus_one}
use agilefs.Platform.{Key}
use agilefs.Md5.{md5}

-- `read` gives the bytes that come next, or -1. The code, `buf` and `key`; `HASH_SIZE`
-- is 16.
unfoldable pub test_get_one_chunk : Option (List ℕ) → List ℕ → Key → ℤ × List ℕ × Key
test_get_one_chunk none buf key = (minus_one, buf, key)
test_get_one_chunk (some []) buf key = (pos 0, buf, key)
test_get_one_chunk (some (b ∷ bytes)) buf key =
    let got = b ∷ bytes in
    let buf' = got ++ drop (length got) buf in (pos (length got), buf', md5 (take 16 buf'))
