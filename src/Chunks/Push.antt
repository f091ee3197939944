-- ===== src/Chunks/Push.antt =====
-- `add_free_chunk` pushes a chunk on the stack of free chunks (src/server/chunks.c), with the new
-- segment that it allocates.
use agilefs.Prelude.{
  ℕ, zero, suc, ◌+◌, ◌*◌, ◌/◌, ◌%◌, ◌^◌, ◌≤◌, ◌<◌, ◌≡◌, inl, inr, refl, ap, ◌∙◌, arith, none, some,
  List, ◌∷◌, length, get_elem?, set, lt→ltb, length-set, get_elem?-ge, get_elem?-set_self,
  get_elem?-set_ne, Bool-cases, ltb→lt, ltb→le, le→leb, lt→leb, ◌==◌, ==→eq, ltb,
}
use agilefs.Prelude.Int.{ℤ, pos, negsuc, minus_one, ◌≤ℤ◌, succ_ℤ}
use agilefs.Chunks.{
  Segment, FreeChunkList, free_list, get_first_free_chunk, add_free_chunk, add_at, store_chunk,
}
use agilefs.Chunks.Segments.{
  entry, stack, IsAllocated, Written, set_free_list_lem, stack_cong, entry-set,
}
use agilefs.Chunks.Stack.{count, contents, IsValid, Leaves}

-- `malloc` returned a segment, or none was needed.
abbrev pub Granted : FreeChunkList → Segment → Type 0
Granted l p = l.total_cnt ≤ count l.current → (seg : List ℕ) × (p ≡ some seg) × (length seg ≡ 1024)

succ-count : (z : ℤ) → minus_one ≤ℤ z → succ_ℤ z ≡ pos (count z)
succ-count (pos n) h = ap pos (omega arith)
succ-count (negsuc zero) h = refl
succ-count (negsuc (suc n)) h = absurd (omega arith)

add-eq-add_at :
    (l : FreeChunkList) (x : ℕ) (p : Segment)
    → IsValid l
    → add_free_chunk l x p
      ≡ add_at (record l { current = pos (count l.current) }) (count l.current) x p
unfolding add_free_chunk
add-eq-add_at l x p v = rw (add_free_chunk, succ-count l.current v.from_empty)

-- A list with its `current` at `n` already, the entry there not written yet.
record IsOpened (l : FreeChunkList) (n : ℕ) : Type 0 where
  moved : l.current ≡ pos n
  width : length l.base ≡ 1024
  room : n < l.total_cnt
  whole : l.total_cnt % 1024 ≡ 0
  small : l.total_cnt ≤ 1024 * 1024
  allocated : IsAllocated l.base (l.total_cnt / 1024)
  null : (i : ℕ) → l.total_cnt / 1024 ≤ i → i < 1024 → get_elem? l.base i ≡ some none
  entries : (c : ℕ) → c < n → entry l.base c < 2 ^ 31

module _ (l : FreeChunkList) (n v : ℕ) (o : IsOpened l n) (hv : v < 2 ^ 31) where
  written : Written l.base n v
  written =
      set_free_list_lem l.base n v (o.allocated (n / 1024) (omega (arith, o.room, o.whole)))
        (omega (arith, o.room, o.small, o.width))

  stored-entries : (c : ℕ) → c < suc n → entry (written.result) c < 2 ^ 31
  stored-entries c p = elim (Bool-cases (c == n)) [
    | inl e ↦ rw (==→eq c n e, written.here) hv
    | inr e ↦ rw (written.there c (ground arith)) (o.entries c (ground arith))
  ]

  stored-null :
      (i : ℕ) → l.total_cnt / 1024 ≤ i → i < 1024 → get_elem? (written.result) i ≡ some none
  stored-null i p q = written.others i (omega (arith, o.room, o.whole)) ∙ o.null i p q

  stored-IsValid : IsValid (record l { base = written.result })
  stored-IsValid = record {
    width = written.width ∙ o.width;
    from_empty = rw (o.moved) (omega arith);
    fits = rw (o.moved) (o.room);
    whole = o.whole;
    small = o.small;
    allocated = λ i p. written.kept i (o.allocated i p);
    null = stored-null;
    entries = rw (o.moved) stored-entries;
  }

  store_pushes : Leaves (store_chunk l n v) (pos 0) (v ∷ stack l.base n)
  unfolding store_chunk
  store_pushes = record {
    after = record l { base = written.result };
    returns = rw (written.returns);
    holds = rw (
      o.moved,
      written.here,
      stack_cong l.base (written.result) n (λ j p. written.there j (omega arith)),
    );
    valid = stored-IsValid;
  }

module _ (l : FreeChunkList) (v : IsValid l) (seg : List ℕ) (len : length seg ≡ 1024)
    (full : l.total_cnt ≤ count l.current) (room : count l.current < 1024 * 1024) where
  abbrev at_end : ℕ
  at_end = count l.current / 1024

  abbrev grown : FreeChunkList
  grown = record {
    total_cnt = l.total_cnt + 1024;
    current = pos (count l.current);
    base = set l.base at_end (some seg);
  }

  grown-IsAllocated : IsAllocated grown.base ((l.total_cnt + 1024) / 1024)
  grown-IsAllocated i p = elim (Bool-cases (i == at_end)) [
    | inl e ↦ (
      seg,
      rw (==→eq i at_end e)
          (get_elem?-set_self l.base at_end (some seg) (omega (arith, v.width, room))),
      len,
    )
    | inr e ↦
        let (s, es, ns) = v.allocated i (ground (arith, v.fits, v.whole)) in
        (s, get_elem?-set_ne l.base {i = at_end} {j = i} (some seg) (ground arith) ∙ es, ns)
  ]

  grown-IsOpened : IsOpened grown (count l.current)
  grown-IsOpened = record {
    moved = refl;
    width = length-set l.base at_end (some seg) ∙ v.width;
    room = omega (arith, v.fits);
    whole = omega (arith, v.whole);
    small = omega (arith, v.fits, v.whole);
    allocated = grown-IsAllocated;
    null = λ i p q.
        get_elem?-set_ne l.base {i = at_end} {j = i} (some seg) (omega (arith, v.fits, v.whole))
        ∙ v.null i (omega arith) q;
    entries = λ c p.
        rw (entry-set l.base at_end c (some seg) (omega (arith, v.fits, v.whole))) (v.entries c p);
  }

  add_grown : (x : ℕ) → x < 2 ^ 31 → Leaves (add_free_chunk l x (some seg)) (pos 0) (x ∷ contents l)
  add_grown x hx =
      rw
        (
          add-eq-add_at l x (some seg) v,
          add_at-grown,
          ← stack_cong l.base grown.base (count l.current) same_below,
        )
        (store_pushes grown (count l.current) x grown-IsOpened hx)
    where
      inside : at_end < length l.base
      inside = omega (arith, v.width, room)

      add_at-grown :
          add_at (record l { current = pos (count l.current) }) (count l.current) x (some seg)
          ≡ store_chunk grown (count l.current) x
      add_at-grown = unfold add_at in rw (le→leb _ _ full, lt→ltb _ _ inside)

      same_below : (c : ℕ) → c < count l.current → entry grown.base c ≡ entry l.base c
      same_below c p = entry-set l.base at_end c (some seg) (omega (arith, v.fits, v.whole))

kept-IsOpened :
    (l : FreeChunkList)
    → IsValid l
    → count l.current < l.total_cnt
    → IsOpened (record l { current = pos (count l.current) }) (count l.current)
kept-IsOpened l v room = record {
  moved = refl;
  width = v.width;
  room = room;
  whole = v.whole;
  small = v.small;
  allocated = v.allocated;
  null = v.null;
  entries = v.entries;
}

add_kept :
    (l : FreeChunkList) (x : ℕ) (p : Segment)
    → IsValid l
    → count l.current < l.total_cnt
    → x < 2 ^ 31
    → Leaves (add_free_chunk l x p) (pos 0) (x ∷ contents l)
add_kept l x p v room hx =
    rw (add-eq-add_at l x p v, add_at-kept p)
      (store_pushes (record l { current = pos (count l.current) }) (count l.current) x
        (kept-IsOpened l v room) hx)
  where
    add_at-kept :
        (p : Segment)
        → add_at (record l { current = pos (count l.current) }) (count l.current) x p
          ≡ store_chunk (record l { current = pos (count l.current) }) (count l.current) x
    add_at-kept none = unfold add_at in rw (lt→leb _ _ room)
    add_at-kept (some seg) = unfold add_at in rw (lt→leb _ _ room)

-- `add_free_chunk` on a valid list with fewer than 1024 * 1024 free chunks returns 0, puts the
-- chunk on top of the others and keeps the list valid, if `malloc` succeeds where it is called.
pub add_free_chunk_pushes :
    (l : FreeChunkList) (x : ℕ) (p : Segment)
    → IsValid l
    → count l.current < 1024 * 1024
    → x < 2 ^ 31
    → Granted l p
    → Leaves (add_free_chunk l x p) (pos 0) (x ∷ contents l)
add_free_chunk_pushes l x p v room hx g = elim (Bool-cases (ltb (count l.current) l.total_cnt)) [
  | inl e ↦ add_kept l x p v (ltb→lt _ _ e) hx
  | inr e ↦
      let full : l.total_cnt ≤ count l.current = ltb→le _ _ e in
      let (seg, ep, len) = g full in rw ep (add_grown l v seg len full room x hx)
]

-- Past the segments that are allocated stands NULL, or the end of `base`.
beyond_segments :
    (l : FreeChunkList) (c : ℕ) → IsValid l → l.total_cnt ≤ c → free_list l.base c ≡ none
unfolding free_list
beyond_segments l c v h = elim (Bool-cases (ltb (c / 1024) 1024)) [
  | inl e ↦ rw (v.null (c / 1024) (omega arith) (ltb→lt _ _ e))
  | inr e ↦ rw (get_elem?-ge l.base (c / 1024) (omega (arith, v.width, ltb→le _ _ e)))
]

-- After a failed `malloc`: the index is moved on all the same.
abbrev pub overrun : FreeChunkList → FreeChunkList
overrun l = record l { total_cnt = l.total_cnt + 1024; current = pos (count l.current) }

-- When `add_free_chunk` needs a segment and `malloc` fails, it returns -1 with `current` and
-- `total_cnt` moved on, and the next `get_first_free_chunk` goes through a null segment (a fault).
pub add_free_chunk_without_memory :
    (l : FreeChunkList) (x : ℕ)
    → IsValid l
    → l.total_cnt ≤ count l.current
    → (add_free_chunk l x none ≡ some (minus_one, overrun l))
      × (get_first_free_chunk (overrun l) ≡ none)
add_free_chunk_without_memory l x v full = (
  add-eq-add_at l x none v ∙ unfold add_at in rw (le→leb _ _ full),
  unfold get_first_free_chunk in rw (beyond_segments l (count l.current) v full),
)
