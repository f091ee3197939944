-- ===== src/Chunks/Restart.antt =====
-- The free chunks survive a restart of the server: `flush_free_chunk`, then `init_free_chunk` on
-- the file that it wrote (src/server/chunks.c).
use agilefs.Prelude.{
  ℕ, zero, suc, ◌+◌, ◌*◌, ◌/◌, ◌^◌, ◌≤◌, ◌<◌, ◌≡◌, refl, ap, ◌∙◌, arith, none, some, List, [], ◌∷◌,
  true, replicate, length-replicate, get_elem?-replicate, lt→ltb,
}
use agilefs.Prelude.Int.{ℤ, pos, negsuc, minus_one, ◌≤ℤ◌, int_of_u32, u32_of_int}
use agilefs.Chunks.{
  Segment, FreeChunkList, init_free_chunk, start_from, flush_free_chunk, segments_to_flush,
  load_segments, Transfer,
}
use agilefs.Chunks.Segments.{entry, stack_cong, entry_cong}
use agilefs.Chunks.Stack.{count, contents, IsValid}
use agilefs.Chunks.Saved.{flat, Gives, IsWhole, Loaded, flush_segments_lem, load_segments_lem}

-- The segments that hold free chunks.
abbrev needed : ℤ → ℕ
needed z = (count z + 1023) / 1024

segments_to_flush-needed : (z : ℤ) → minus_one ≤ℤ z → segments_to_flush z ≡ some (needed z)
unfolding segments_to_flush
segments_to_flush-needed (pos c) h = ap some (omega arith)
segments_to_flush-needed (negsuc zero) h = refl
segments_to_flush-needed (negsuc (suc n)) h = absurd (omega arith)

int_small : (w : ℕ) → w < 2 ^ 31 → int_of_u32 w ≡ pos w
int_small w h = rw (lt→ltb w (2 ^ 31) h)

int-round : (z : ℤ) → minus_one ≤ℤ z → count z ≤ 2 ^ 31 → int_of_u32 (u32_of_int z) ≡ z
int-round (pos c) h b = ground arith
int-round (negsuc zero) h b = refl
int-round (negsuc (suc n)) h b = absurd (omega arith)

module _ (l : FreeChunkList) (v : IsValid l) (malloc : ℕ → Segment) (g : Gives malloc)
    (writes reads : Transfer) (written : IsWhole writes) (got : IsWhole reads) where
  abbrev n : ℕ
  n = needed l.current

  abbrev words : List ℕ
  words = n * 1024 ∷ u32_of_int l.current ∷ flat n 0 l.base

  enough : n ≤ l.total_cnt / 1024
  enough = omega (arith, v.fits, v.whole)

  flushed :
      (ended : FreeChunkList) × (flush_free_chunk l true writes ≡ some (pos 0, some words, ended))
  flushed =
      let (base', e) =
        flush_segments_lem n 0 writes l.base written
          (λ j p q. v.allocated j (omega (arith, enough))) in
      (
        record l { total_cnt = n * 1024; base = base' },
        unfold flush_free_chunk in
            rw (
              segments_to_flush-needed l.current v.from_empty,
              e,
              written 0 (n * 1024 ∷ u32_of_int l.current ∷ []),
            ),
      )

  loaded :
      Loaded l.base
        (replicate 1024 none)
        0
        n
        (load_segments 1024 0 (n * 1024) malloc reads (flat n 0 l.base) (replicate 1024 none))
  loaded =
      load_segments_lem 1024 n 0 (n * 1024) malloc reads l.base (replicate 1024 none) g got
        (λ j p q. v.allocated j (omega (arith, enough))) (omega (arith, v.small, enough))
        (rw (length-replicate {A = Segment} 1024 none) (omega (arith, v.small, enough))) refl

  abbrev restarted : FreeChunkList
  restarted = record { total_cnt = n * 1024; current = l.current; base = loaded.result }

  started : init_free_chunk (some words) true malloc reads ≡ some (pos 0, restarted)
  started =
      unfold init_free_chunk in
      rw (got 0 (n * 1024 ∷ u32_of_int l.current ∷ [])) (
        ap (λ z. start_from z (n * 1024 ∷ u32_of_int l.current ∷ []) (flat n 0 l.base) malloc reads)
          (int_small (n * 1024) (omega (arith, v.small, enough)))
        ∙ rw (loaded.returns, int-round l.current v.from_empty (omega (arith, v.small, v.fits))))

  same_entry : (c : ℕ) → c < count l.current → entry (loaded.result) c ≡ entry l.base c
  same_entry c p =
      entry_cong l.base (loaded.result) c (loaded.inside (c / 1024) (omega arith) (omega arith))

  restarted-IsValid : IsValid restarted
  restarted-IsValid = record {
    width = loaded.width ∙ length-replicate {A = Segment} 1024 none;
    from_empty = v.from_empty;
    fits = omega arith;
    whole = omega arith;
    small = omega (arith, v.small, enough);
    allocated = λ i p.
        let (s, es, ns) = v.allocated i (omega (arith, enough)) in
        (s, loaded.inside i (omega arith) (omega arith) ∙ es, ns);
    null = λ i p q. loaded.above i (omega arith) ∙ get_elem?-replicate 1024 i none q;
    entries = λ c p. rw (same_entry c p) (v.entries c p);
  }

-- After a flush of a valid list to a file that opens, `init_free_chunk` of that file gives a valid
-- list with the same free chunks in the same order, where `malloc` succeeds and every `write` and `read`
-- moves all that it could.
pub flush-init :
    (l : FreeChunkList)
    → IsValid l
    → (malloc : ℕ → Segment) → Gives malloc
    → (writes reads : Transfer) → IsWhole writes
    → IsWhole reads
    → (words : List ℕ) × (ended : FreeChunkList) × (l' : FreeChunkList) × (flush_free_chunk l true
          writes
        ≡ some (pos 0, some words, ended))
      × (init_free_chunk (some words) true malloc reads ≡ some (pos 0, l'))
      × (contents l' ≡ contents l)
      × IsValid l'
flush-init l v malloc g writes reads written got =
    let (ended, e) = flushed l v malloc g writes reads written got in
    (
      words l v malloc g writes reads written got,
      ended,
      restarted l v malloc g writes reads written got,
      e,
      started l v malloc g writes reads written got,
      stack_cong l.base _ (count l.current) (same_entry l v malloc g writes reads written got),
      restarted-IsValid l v malloc g writes reads written got,
    )
