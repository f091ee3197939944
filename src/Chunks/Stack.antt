-- ===== src/Chunks/Stack.antt =====
-- The list of free chunks behaves as a bounded stack: `get_first_free_chunk` pops it and
-- `add_free_chunk` pushes on it (src/server/chunks.c).
use agilefs.Prelude.{
  ℕ, zero, suc, ◌*◌, ◌/◌, ◌%◌, ◌^◌, ◌≤◌, ◌<◌, ◌≡◌, ◌⊎◌, inl, inr, refl, ap, arith, Option, none,
  some, List, [], ◌∷◌, length, get_elem?, lt→ltb, length-replicate, get_elem?-replicate,
}
use agilefs.Prelude.Int.{ℤ, pos, negsuc, minus_one, ◌≤ℤ◌, pred_ℤ}
use agilefs.Chunks.{Segment, FreeChunkList, empty_list, get_first_free_chunk}
use agilefs.Chunks.Segments.{entry, stack, IsAllocated, free_list-entry}

-- The number of free chunks: `current` is the index of the last.
abbrev pub count : ℤ → ℕ
count (pos c) = suc c
count (negsuc n) = 0

-- The free chunks, the next to be handed out first.
abbrev pub contents : FreeChunkList → List ℕ
contents l = stack l.base (count l.current)

pub record IsValid (l : FreeChunkList) : Type 0 where
  pub width : length l.base ≡ 1024
  pub from_empty : minus_one ≤ℤ l.current
  pub fits : count l.current ≤ l.total_cnt
  pub whole : l.total_cnt % 1024 ≡ 0
  pub small : l.total_cnt ≤ 1024 * 1024
  pub allocated : IsAllocated l.base (l.total_cnt / 1024)
  pub null : (i : ℕ) → l.total_cnt / 1024 ≤ i → i < 1024 → get_elem? l.base i ≡ some none
  pub entries : (c : ℕ) → c < count l.current → entry l.base c < 2 ^ 31

-- The list of a new chunk file.
pub empty-IsValid : IsValid empty_list
empty-IsValid = record {
  width = length-replicate {A = Segment} 1024 none;
  from_empty = omega arith;
  fits = omega arith;
  whole = refl;
  small = omega arith;
  allocated = λ i p. absurd (omega arith);
  null = λ i p q. get_elem?-replicate 1024 i none q;
  entries = λ c p. absurd (omega arith);
}

-- What a pop returns.
abbrev pub top : List ℕ → ℤ
top [] = minus_one
top (x ∷ xs) = pos x

abbrev pub rest : List ℕ → List ℕ
rest [] = []
rest (x ∷ xs) = xs

-- A call that returns `code`, leaves `items` on the stack and keeps the list valid.
pub record Leaves (m : Option (ℤ × FreeChunkList)) (code : ℤ) (items : List ℕ) : Type 0 where
  pub after : FreeChunkList
  pub returns : m ≡ some (code, after)
  pub holds : contents after ≡ items
  pub valid : IsValid after

count-pred : (c : ℕ) → count (pred_ℤ (pos c)) ≡ c
count-pred zero = refl
count-pred (suc c) = refl

abbrev popped : FreeChunkList → ℕ → FreeChunkList
popped l c = record l { current = pred_ℤ (pos c) }

popped-IsValid : (l : FreeChunkList) (c : ℕ) → l.current ≡ pos c → IsValid l → IsValid (popped l c)
popped-IsValid l zero e v = record {
  width = v.width;
  from_empty = omega arith;
  fits = omega arith;
  whole = v.whole;
  small = v.small;
  allocated = v.allocated;
  null = v.null;
  entries = λ k p. absurd (omega arith);
}
popped-IsValid l (suc c) e v = record {
  width = v.width;
  from_empty = omega arith;
  fits = omega (arith, ap count e, v.fits);
  whole = v.whole;
  small = v.small;
  allocated = v.allocated;
  null = v.null;
  entries = λ k p. v.entries k (omega (arith, ap count e));
}

pop_pos :
    (l : FreeChunkList) (c : ℕ)
    → l.current ≡ pos c
    → IsValid l
    → Leaves (get_first_free_chunk l) (top (contents l)) (rest (contents l))
unfolding get_first_free_chunk
pop_pos l c e v = record {
  after = popped l c;
  returns =
      let q =
        free_list-entry l.base c
          (v.allocated (c / 1024) (omega (arith, ap count e, v.fits, v.whole))) in
      let b = v.entries c (omega (arith, ap count e)) in
      rw (e, q, lt→ltb (entry l.base c) (2 ^ 31) b);
  holds = rw (e, count-pred c);
  valid = popped-IsValid l c e v;
}

pop_empty :
    (l : FreeChunkList)
    → l.current ≡ minus_one
    → IsValid l
    → Leaves (get_first_free_chunk l) (top (contents l)) (rest (contents l))
unfolding get_first_free_chunk
pop_empty l e v = record { after = l; returns = rw e; holds = rw e; valid = v }

pub current-cases : (z : ℤ) → minus_one ≤ℤ z → (z ≡ minus_one) ⊎ ((c : ℕ) × (z ≡ pos c))
current-cases (pos c) h = inr (c, refl)
current-cases (negsuc n) h = inl (ap negsuc (omega arith))

-- `get_first_free_chunk` on a valid list returns the last chunk that was freed and takes it off,
-- or returns -1 and changes nothing when there is none. It never faults and keeps the list valid.
pub get_first_free_chunk_pops :
    (l : FreeChunkList)
    → IsValid l
    → Leaves (get_first_free_chunk l) (top (contents l)) (rest (contents l))
get_first_free_chunk_pops l v = elim (current-cases l.current v.from_empty) [
  | inl e ↦ pop_empty l e v
  | inr (c, e) ↦ pop_pos l c e v
]
