-- ===== src/Chunks/Saved.antt =====
-- `flush_free_chunk` and `init_free_chunk` (src/server/chunks.c): what is written when the server
-- stops is what it starts with again.
use agilefs.Prelude.{
  ℕ, zero, suc, ◌+◌, ◌-◌, ◌*◌, ◌≤◌, ◌<◌, ◌≡◌, inl, inr, refl, sym, ap₂, ◌∙◌, arith, Option, none,
  some, List, [], ◌++◌, length, take, get_elem?, set, le→ltb, ne→==, ==→eq, get_elem?-set_self,
  get_elem?-set_ne, length-set, append-nil, Bool-cases, ◌==◌, take-length_append,
  drop-length_append, drop-length,
}
use agilefs.Chunks.{
  Segment, load_segments, flush_segments, segment_words, read_segment, words_left, Transfer,
}
use agilefs.Chunks.Segments.{HasSegment}

abbrev pub words_of : Option Segment → List ℕ
words_of none = []
words_of (some p) = segment_words p

-- The words of the `n` segments from `i` on.
pub flat : ℕ → ℕ → List Segment → List ℕ
flat zero i base = []
flat (suc n) i base = words_of (get_elem? base i) ++ flat n (i + 1) base

flat_cong :
    (n i : ℕ) (base base' : List Segment)
    → ((j : ℕ) → i ≤ j → get_elem? base' j ≡ get_elem? base j)
    → flat n i base' ≡ flat n i base
unfolding flat
flat_cong zero i base base' h = refl
flat_cong (suc n) i base base' h =
    ap₂ (λ p ws. words_of p ++ ws) (h i (omega arith))
      (flat_cong n (i + 1) base base' (λ j p. h j (omega arith)))

-- The segments from `i` up to `i + n` are allocated.
abbrev pub AllocatedFrom : List Segment → ℕ → ℕ → Type 0
AllocatedFrom base i n = (j : ℕ) → i ≤ j → j < i + n → HasSegment base j

-- Every call moves all that it could.
abbrev pub IsWhole : Transfer → Type 0
IsWhole t = (k : ℕ) (words : List ℕ) → t k words ≡ words

pub flush_segments_lem :
    (n i : ℕ) (writes : Transfer) (base : List Segment)
    → IsWhole writes
    → AllocatedFrom base i n
    → (base' : List Segment) × (flush_segments n i writes base ≡ some (flat n i base, base'))
unfolding flush_segments flat
flush_segments_lem zero i writes base whole al = (base, refl)
flush_segments_lem (suc n) i writes base whole al =
    let (seg, e, len) = al i (omega arith) (omega arith) in
    let unchanged : (j : ℕ) → i + 1 ≤ j → get_elem? (set base i none) j ≡ get_elem? base j =
      λ j p. get_elem?-set_ne base {i = i} {j = j} none (omega arith) in
    let (base', e') = flush_segments_lem n (i + 1) writes (set base i none) whole (λ j p q.
      let (s, es, ns) = al j (omega arith) (omega arith) in (s, unchanged j p ∙ es, ns)) in
    (base', rw (e, e', whole (i + 1) seg, flat_cong n (i + 1) base (set base i none) unchanged))

-- What loading the `n` segments from `i` on leaves in `base`.
pub record Loaded (saved base : List Segment) (i n : ℕ) (m : Option (List Segment)) : Type 0 where
  pub result : List Segment
  pub returns : m ≡ some result
  pub width : length result ≡ length base
  pub inside : (j : ℕ) → i ≤ j → j < i + n → get_elem? result j ≡ get_elem? saved j
  pub below : (j : ℕ) → j < i → get_elem? result j ≡ get_elem? base j
  pub above : (j : ℕ) → i + n ≤ j → get_elem? result j ≡ get_elem? base j

-- `malloc` gives a segment every time.
abbrev pub Gives : (ℕ → Segment) → Type 0
Gives malloc = (i : ℕ) → (seg : List ℕ) × (malloc i ≡ some seg) × (length seg ≡ 1024)

read_whole :
    (reads : List ℕ → List ℕ) (garbage seg words : List ℕ)
    → ((ws : List ℕ) → reads ws ≡ ws)
    → length garbage ≡ 1024
    → length seg ≡ 1024
    → read_segment reads (some garbage) (seg ++ words) ≡ some seg
read_whole reads garbage seg words whole g s = rw (
  whole (take 1024 (seg ++ words)),
  take-length_append seg words s,
  s,
  drop-length garbage g,
  append-nil seg,
)

left_whole :
    (reads : List ℕ → List ℕ) (garbage seg words : List ℕ)
    → ((ws : List ℕ) → reads ws ≡ ws)
    → length seg ≡ 1024
    → words_left reads (some garbage) (seg ++ words) ≡ words
left_whole reads garbage seg words whole s =
    rw (whole (take 1024 (seg ++ words)), take-length_append seg words s)
      (drop-length_append seg words refl)

-- One round of the loop.
load_segments-suc :
    (f i total : ℕ) (malloc : ℕ → Segment) (reads : Transfer) (words : List ℕ) (base : List Segment)
    → 1024 ≤ total
    → load_segments (suc f) i total malloc reads words base
      ≡ load_segments f
          (i + 1)
          (total - 1024)
          malloc
          reads
          (words_left (reads (i + 1)) (malloc i) words)
          (set base i (read_segment (reads (i + 1)) (malloc i) words))
unfolding load_segments
load_segments-suc f i total malloc reads words base h =
    rw (le→ltb total 1024 h, ne→== total 0 (omega arith))

load_segments-none :
    (f i : ℕ) (malloc : ℕ → Segment) (reads : Transfer) (words : List ℕ) (base : List Segment)
    → load_segments f i 0 malloc reads words base ≡ some base
unfolding load_segments
load_segments-none zero i malloc reads words base = refl
load_segments-none (suc f) i malloc reads words base = refl

Loaded-step :
    (saved base : List Segment) (i n : ℕ) (seg : List ℕ) (m : Option (List Segment))
    → i < length base
    → get_elem? saved i ≡ some (some seg)
    → Loaded saved (set base i (some seg)) (i + 1) n m
    → Loaded saved base i (suc n) m
Loaded-step saved base i n seg m lt e next = record {
  result = next.result;
  returns = next.returns;
  width = next.width ∙ length-set base i (some seg);
  inside = λ j p q. elim (Bool-cases (i == j)) [
    | inl at ↦
        rw (← ==→eq i j at)
          (next.below i (omega arith) ∙ get_elem?-set_self base i (some seg) lt ∙ sym e)
    | inr past ↦ next.inside j (ground arith) (omega arith)
  ];
  below = λ j p. next.below j (omega arith) ∙ get_elem?-set_ne base (some seg) (omega arith);
  above = λ j p. next.above j (omega arith) ∙ get_elem?-set_ne base (some seg) (omega arith);
}

pub load_segments_lem :
    (f n i total : ℕ) (malloc : ℕ → Segment) (reads : Transfer) (saved base : List Segment)
    → Gives malloc
    → IsWhole reads
    → AllocatedFrom saved i n
    → n ≤ f
    → i + n ≤ length base
    → total ≡ n * 1024
    → Loaded saved base i n (load_segments f i total malloc reads (flat n i saved) base)
load_segments_lem f zero i total malloc reads saved base g whole al hf hb e =
    let zero_total : total ≡ 0 = omega arith in
    record {
      result = base;
      returns = rw zero_total (load_segments-none f i malloc reads (flat 0 i saved) base);
      width = refl;
      inside = λ j p q. absurd (omega arith);
      below = λ j p. refl;
      above = λ j p. refl;
    }
load_segments_lem zero (suc n) i total malloc reads saved base g whole al hf hb e =
    absurd (omega arith)
load_segments_lem (suc f) (suc n) i total malloc reads saved base g whole al hf hb e =
    let (garbage, eg, ng) = g i in
    let (seg, es, ns) = al i (omega arith) (omega arith) in
    let split : flat (suc n) i saved ≡ seg ++ flat n (i + 1) saved = unfold flat in rw es in
    rw
      (
        load_segments-suc f i total malloc reads (flat (suc n) i saved) base (omega arith),
        split,
        eg,
        left_whole (reads (i + 1)) garbage seg (flat n (i + 1) saved) (whole (i + 1)) ns,
        read_whole (reads (i + 1)) garbage seg (flat n (i + 1) saved) (whole (i + 1)) ng ns,
      )
      (Loaded-step saved base i n seg _ (omega arith) es (
        load_segments_lem f n (i + 1) (total - 1024) malloc reads saved (set base i (some seg)) g
          whole (λ j p q. al j (omega arith) (omega arith)) (omega arith)
          (rw (length-set base i (some seg)) (omega arith)) (omega arith)))
