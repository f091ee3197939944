-- ===== src/Server/Loss.antt =====
-- Blocks that begin with the same 16 bytes (src/server/agilefs-server.c, src/server/chunks-io.c).
use agilefs.Prelude.{
  ◌⊎◌, inl, inr, ◌<◌, ◌≡◌, sym, ap, ◌∙◌, arith, ℕ, Option, some, List, [], ◌∷◌, length, take,
  drop-length, append-nil,
}
use agilefs.Prelude.Int.{ℤ, pos, minus_one}
use agilefs.Platform.{Key, BlockData, Platform, Laws}
use agilefs.Md5.{md5}
use agilefs.ChunkIo.{State, put_new_chunk, block_read, max_int}
use agilefs.ChunkIo.Sound.{Stored, IsSound}
use agilefs.ChunkIo.Reference.{IsShared, put_new_chunk-IsShared}
use agilefs.Server.{test_get_one_chunk}

-- A whole block that is read replaces the buffer.
pub get_one_chunk_lem :
    (block buf : List ℕ) (key : Key)
    → length block ≡ 4096
    → length buf ≡ 4096
    → test_get_one_chunk (some block) buf key ≡ (pos 4096, block, md5 (take 16 block))
unfolding test_get_one_chunk
get_one_chunk_lem [] buf key b e = absurd (omega arith)
get_one_chunk_lem (x ∷ block) buf key b e = rw (drop-length buf (e ∙ sym b), append-nil block, b)

-- The call returned 0 or -1, and what is read under the hash is `first`.
pub record IsLost (p : Platform) (key : Key) (first : List ℕ) (m : Option (ℤ × State p))
    : Type 0 where
  pub code : ℤ
  pub after : State p
  pub returns : m ≡ some (code, after)
  pub answers : (code ≡ pos 0) ⊎ (code ≡ minus_one)
  pub reads : block_read p key 4096 0 after ≡ some (some first)

-- Where the store has the block `first` under the hash that `test_get_one_chunk` gave for it, and the
-- next block begins with the same 16 bytes, `put_new_chunk` of the next block, under the hash that
-- `test_get_one_chunk` gives for it, returns 0 or -1, and `block_read` under that hash still gives
-- `first`, whatever else the next block holds.
pub get-put_loses :
    (p : Platform) (l : Laws p) (s : State p) (first next buf : List ℕ) (key : Key) (bd : BlockData)
    → IsSound p s
    → length first ≡ 4096
    → length next ≡ 4096
    → length buf ≡ 4096
    → take 16 first ≡ take 16 next
    → Stored p s (test_get_one_chunk (some first) buf key).2 bd
    → block_read p (test_get_one_chunk (some first) buf key).2 4096 0 s ≡ some (some first)
    → bd.ref_count < max_int
    → IsLost p
        (test_get_one_chunk (some next) buf key).2
        first
        (put_new_chunk p (test_get_one_chunk (some next) buf key).2 next s)
get-put_loses p l s first next buf key bd sound a b c same st reads room =
    let one = ap (λ r. r.2) (get_one_chunk_lem first buf key a c) in
    let two = ap (λ r. r.2) (get_one_chunk_lem next buf key b c) in
    let k : (test_get_one_chunk (some first) buf key).2
        ≡ (test_get_one_chunk (some next) buf key).2 =
      one ∙ ap md5 same ∙ sym two in
    shared (test_get_one_chunk (some next) buf key).2 (rw k at st) (rw k at reads)
  where
    shared :
        (hash : Key)
        → Stored p s hash bd
        → block_read p hash 4096 0 s ≡ some (some first)
        → IsLost p hash first (put_new_chunk p hash next s)
    shared hash here content =
        let r : IsShared p s hash bd (put_new_chunk p hash next s) =
          put_new_chunk-IsShared p l s hash bd next sound here room in
        record {
          code = r.code;
          after = r.after;
          returns = r.returns;
          answers = elim r.outcome [ inl (e, _) ↦ inl e | inr (e, _) ↦ inr e ];
          reads = r.same_bytes hash bd 4096 0 here ∙ content;
        }
