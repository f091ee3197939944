-- ===== src/ChunkIo/Loss.antt =====
-- What follows from the test of `del_chunk` (src/server/chunks-io.c): a block is overwritten while
-- its hash is stored.
use agilefs.Prelude.{
  ℕ, ◌*◌, ◌<◌, ◌≡◌, ◌≢◌, sym, ap, ◌∙◌, Option, some, none, List, length, get_elem?, set, some-inj,
  none-ne-some, Bool-cases, inl, inr, if◌then◌else◌,
}
use agilefs.Prelude.Int.{ℤ, pos, minus_one, eqb_ℤ, eqb_ℤ→eq, eqb_ℤ-ne}
use agilefs.Chunks.{Segment, FreeChunkList, get_first_free_chunk}
use agilefs.Chunks.Stack.{contents, count, Leaves, get_first_free_chunk_pops}
use agilefs.Chunks.Push.{Granted}
use agilefs.ChunkFiles.{ChunkFileInfo, get_proper_chunk_file}
use agilefs.Platform.{Key, BlockData, Platform, Laws}
use agilefs.HashDb.{db_get, db_get_cong}
use agilefs.ChunkIo.{
  State, allocate_from, enter_block, block_write, block_read, del_chunk, put_new_chunk,
}
use agilefs.ChunkIo.Sound.{HasFile, Stored, IsSound}
use agilefs.ChunkIo.Delete.{del_chunk_backwards, FreesBlockZero}

-- A put that returned 0 wrote a whole block.
put-code :
    {S : Type 0} (n : ℤ) (a a' : S)
    → ◌≡◌ {A = Option (ℤ × S)}
        (some (if eqb_ℤ n (pos 4096) then pos 0 else minus_one, a))
        (some (pos 0, a'))
    → (n ≡ pos 4096) × (a ≡ a')
put-code n a a' e = elim (Bool-cases (eqb_ℤ n (pos 4096))) [
  | inl t ↦ (eqb_ℤ→eq n (pos 4096) t, ap (λ r. r.1) (some-inj e))
  | inr f ↦ let wrong : minus_one ≡ pos 0 = rw f at (ap (λ r. r.0) (some-inj e)) in cc
]

module _ (p : Platform) (l : Laws p) (s : State p) (fd : ℤ) (size : ℕ) (fcl : FreeChunkList)
    (fd_at : get_elem? s.cfi.fds 0 ≡ some fd) (size_at : get_elem? s.cfi.cur_size 0 ≡ some size)
    (fcl_at : get_elem? s.cfi.fcls 0 ≡ some fcl) (popped : FreeChunkList)
    (pops : get_first_free_chunk fcl ≡ some (pos 0, popped)) (key : Key) (buf : List ℕ)
    (len : length buf ≡ 4096) (absent : db_get p key s.world ≡ some none)
    (file : get_proper_chunk_file s.cfi ≡ some (pos 0)) where
  abbrev cfi' : ChunkFileInfo
  cfi' = record s.cfi { cur_size = set s.cfi.cur_size 0 size; fcls = set s.cfi.fcls 0 popped }

  abbrev written : p.World
  written = (p.pwrite s.world fd buf (pos 0)).1

  abbrev ending : ℤ × State p
  ending = enter_block p cfi' key (pos 0) 0 (p.pwrite s.world fd buf (pos 0))

  put-eq :
      put_new_chunk p key buf s
      ≡ some (if eqb_ℤ ending.0 (pos 4096) then pos 0 else minus_one, ending.1)
  unfolding put_new_chunk block_write allocate_from
  put-eq = rw (absent, file, fcl_at, size_at, pops, fd_at)

  abbrev n : ℤ
  n = (p.pwrite s.world fd buf (pos 0)).0

  abbrev x : ℤ
  x = (p.write_hash_db written key 0 0).0

  abbrev entered : p.World
  entered = (p.write_hash_db written key 0 0).1

  entered_whole :
      (s2 : State p)
      → ending.0 ≡ pos 4096
      → ending.1 ≡ s2
      → ((p.pwrite s.world fd buf (pos 0)).0 ≡ pos 4096)
        × (s2 ≡ record { cfi = cfi'; world = (p.write_hash_db written key 0 0).1 })
  unfolding enter_block
  entered_whole s2 e q = elim (Bool-cases (eqb_ℤ n (pos 4096))) [
    | inl t ↦ elim (Bool-cases (eqb_ℤ x (pos 0))) [
      | inl u ↦ (eqb_ℤ→eq n (pos 4096) t, sym q ∙ rw t)
      | inr f ↦
          let code : ending.0 ≡ minus_one = rw (t, f) in
          let wrong : minus_one ≡ pos 4096 = sym code ∙ e in cc
    ]
    | inr f ↦ let code : ending.0 ≡ n = rw f in absurd (eqb_ℤ-ne n (pos 4096) f (sym code ∙ e))
  ]

  overwritten :
      (s2 : State p) (k : Key) (bd : BlockData)
      → put_new_chunk p key buf s ≡ some (pos 0, s2)
      → k ≢ key
      → Stored p s k bd
      → bd.fd_index ≡ 0
      → bd.offset ≡ 0
      → block_read p k 4096 0 s2 ≡ some (some buf)
  overwritten s2 k bd e ne st f0 o0 =
      let (en, es) = put-code ending.0 ending.1 s2 (sym put-eq ∙ e) in
      let (whole, after) = entered_whole s2 en es in
      let stored : db_get p k entered ≡ some (some bd) =
        db_get_cong p k written entered (l.db_read-write_hash_db_ne written key k 0 0 0 ne)
        ∙ db_get_cong p k s.world written (l.db_read-pwrite s.world fd buf (pos 0) 0 k)
        ∙ st in
      let reads : p.pread entered fd 4096 (pos 0) ≡ some buf =
        l.pread-write_hash_db written key 0 0 fd 4096 (pos 0)
        ∙ (rw len at (l.pread-pwrite s.world fd buf 0 (rw len whole))) in
      rw after (unfold block_read in rw (stored, f0, fd_at, o0, reads))

-- In a sound store, let `del_chunk` be called for a hash that is not stored. If `put_new_chunk` then
-- chooses file 0 for a new hash and returns 0, a stored hash whose block is block 0 of file 0 reads
-- as the new block from then on.
pub del_chunk_loses_block :
    (p : Platform)
    → Laws p
    → (s s1 s2 : State p) (gone key k : Key) (bd : BlockData) (buf : List ℕ) (fd : ℤ) (size : ℕ)
      (fcl : FreeChunkList) (malloc : Segment) (code : ℤ)
    → IsSound p s
    → HasFile s.cfi 0 fd size fcl
    → count fcl.current < 1024 * 1024
    → Granted fcl malloc
    → db_get p gone s.world ≡ some none
    → del_chunk p gone malloc s ≡ some (code, s1)
    → db_get p key s1.world ≡ some none
    → get_proper_chunk_file s1.cfi ≡ some (pos 0)
    → length buf ≡ 4096
    → put_new_chunk p key buf s1 ≡ some (pos 0, s2)
    → Stored p s k bd
    → bd.fd_index ≡ 0
    → bd.offset ≡ 0
    → block_read p k 4096 0 s2 ≡ some (some buf)
del_chunk_loses_block p l s s1 s2 gone key k bd buf fd size fcl malloc code sound h room granted
      absent deleted new file len put st f0 o0 =
    let z : FreesBlockZero p s gone fcl (del_chunk p gone malloc s) =
      del_chunk_backwards p l s gone malloc fd size fcl sound h absent room granted in
    let same : z.after ≡ s1 = ap (λ r. r.1) (some-inj (sym z.returns ∙ deleted)) in
    let pops : Leaves (get_first_free_chunk z.fcl') (pos 0) (contents fcl) =
      rw z.freed at (get_first_free_chunk_pops z.fcl' z.valid) in
    let other : k ≢ gone = λ e. none-ne-some (some-inj (sym absent ∙ (rw e at st))) in
    let stored : Stored p z.after k bd = z.others k bd other st in
    let fresh : k ≢ key = λ e. none-ne-some (some-inj (sym new ∙ (rw (e, same) at stored))) in
    overwritten p l s1 fd size z.fcl' (rw (← same, z.same_fds) h.fd_at)
      (rw (← same, z.same_sizes) h.size_at) (rw (← same) z.fcl_at) pops.after pops.returns key buf
      len new file s2 k bd put fresh (rw (← same) stored) f0 o0
