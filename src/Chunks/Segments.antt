-- ===== src/Chunks/Segments.antt =====
-- The segments behind `free_list` (src/server/chunks.h) as one array of entries.
use agilefs.Prelude.{
  ℕ, zero, suc, ◌/◌, ◌%◌, ◌<◌, ◌≡◌, ◌≢◌, inl, inr, refl, sym, ap, ◌∙◌, arith, Option, none, some,
  List, [], ◌∷◌, length, get_elem?, set, Bool-cases, length-set, lt→ltb, ==→eq, get_elem?-set_self,
  get_elem?-set_ne, ◌==◌, get_elem?-lt, ap₂,
}
use agilefs.Chunks.{Segment, free_list, set_free_list}

abbrev pub value_or_zero : Option ℕ → ℕ
value_or_zero none = 0
value_or_zero (some v) = v

-- Entry `c`, 0 where there is none.
pub entry : List Segment → ℕ → ℕ
entry base c = value_or_zero (free_list base c)

-- The first `n` entries, the last of them on top.
abbrev pub stack : List Segment → ℕ → List ℕ
stack base zero = []
stack base (suc n) = entry base n ∷ stack base n

abbrev pub HasSegment : List Segment → ℕ → Type 0
HasSegment base i = (seg : List ℕ) × (get_elem? base i ≡ some (some seg)) × (length seg ≡ 1024)

-- The first `n` segments are allocated.
abbrev pub IsAllocated : List Segment → ℕ → Type 0
IsAllocated base n = (i : ℕ) → i < n → HasSegment base i

free_list_in :
    (base : List Segment) (c : ℕ) (seg : List ℕ)
    → get_elem? base (c / 1024) ≡ some (some seg)
    → free_list base c ≡ get_elem? seg (c % 1024)
unfolding free_list
free_list_in base c seg e = rw e

-- Reading an entry of an allocated segment does not fault.
pub free_list-entry :
    (base : List Segment) (c : ℕ)
    → HasSegment base (c / 1024)
    → free_list base c ≡ some (entry base c)
unfolding entry
free_list-entry base c (seg, e, n) =
    let (v, ev) = get_elem?-lt seg (c % 1024) (omega arith) in
    let whole = free_list_in base c seg e ∙ ev in rw whole

-- What a write into an allocated segment does.
pub record Written (base : List Segment) (c v : ℕ) : Type 0 where
  pub result : List Segment
  pub returns : set_free_list base c v ≡ some result
  pub width : length result ≡ length base
  pub here : entry result c ≡ v
  pub there : (j : ℕ) → j ≢ c → entry result j ≡ entry base j
  pub kept : (i : ℕ) → HasSegment base i → HasSegment result i
  pub others : (i : ℕ) → i ≢ c / 1024 → get_elem? result i ≡ get_elem? base i

module _ (base : List Segment) (c v : ℕ) (seg : List ℕ)
    (e : get_elem? base (c / 1024) ≡ some (some seg)) (n : length seg ≡ 1024)
    (inside : c / 1024 < length base) where
  abbrev new_seg : List ℕ
  new_seg = set seg (c % 1024) v

  abbrev new_base : List Segment
  new_base = set base (c / 1024) (some new_seg)

  returns_lem : set_free_list base c v ≡ some new_base
  unfolding set_free_list
  returns_lem = rw (e, lt→ltb (c % 1024) (length seg) (omega arith))

  new_here : get_elem? new_base (c / 1024) ≡ some (some new_seg)
  new_here = get_elem?-set_self base (c / 1024) (some new_seg) inside

  here_lem : entry new_base c ≡ v
  unfolding entry
  here_lem =
      ap value_or_zero (
        free_list_in new_base c new_seg new_here
        ∙ get_elem?-set_self seg (c % 1024) v (omega arith))

  same_segment : (j : ℕ) → j ≢ c → j / 1024 ≡ c / 1024 → entry new_base j ≡ entry base j
  unfolding entry
  same_segment j ne q = ap value_or_zero (
      free_list_in new_base j new_seg (rw q new_here)
      ∙ get_elem?-set_ne seg {i = c % 1024} {j = j % 1024} v (omega arith)
      ∙ sym (free_list_in base j seg (rw q e)))

  other_segment : (j : ℕ) → j / 1024 ≢ c / 1024 → entry new_base j ≡ entry base j
  unfolding entry free_list
  other_segment j q =
      rw (get_elem?-set_ne base {i = c / 1024} {j = j / 1024} (some new_seg) (omega arith))

  there_lem : (j : ℕ) → j ≢ c → entry new_base j ≡ entry base j
  there_lem j ne = elim (Bool-cases (j / 1024 == c / 1024)) [
    | inl q ↦ same_segment j ne (==→eq (j / 1024) (c / 1024) q)
    | inr q ↦ other_segment j (ground arith)
  ]

  kept_lem : (i : ℕ) → HasSegment base i → HasSegment new_base i
  kept_lem i (s, es, ns) = elim (Bool-cases (i == c / 1024)) [
    | inl q ↦ (new_seg, rw (==→eq i (c / 1024) q) new_here, length-set seg (c % 1024) v ∙ n)
    | inr q ↦
        (s, get_elem?-set_ne base {i = c / 1024} {j = i} (some new_seg) (ground arith) ∙ es, ns)
  ]

pub set_free_list_lem :
    (base : List Segment) (c v : ℕ)
    → HasSegment base (c / 1024)
    → c / 1024 < length base
    → Written base c v
set_free_list_lem base c v (seg, e, n) inside = record {
  result = new_base base c v seg e n inside;
  returns = returns_lem base c v seg e n inside;
  width = length-set base (c / 1024) _;
  here = here_lem base c v seg e n inside;
  there = there_lem base c v seg e n inside;
  kept = kept_lem base c v seg e n inside;
  others = λ i ne. get_elem?-set_ne base {i = c / 1024} {j = i} _ (λ q. ne (sym q));
}

-- The stack below a written entry stays.
pub stack_cong :
    (base base' : List Segment) (n : ℕ)
    → ((j : ℕ) → j < n → entry base' j ≡ entry base j)
    → stack base' n ≡ stack base n
stack_cong base base' zero h = refl
stack_cong base base' (suc n) h =
    ap₂ ◌∷◌ (h n (omega arith)) (stack_cong base base' n (λ j p. h j (omega arith)))

-- A new segment leaves the entries of the others.
pub entry-set :
    (base : List Segment) (q c : ℕ) (p : Segment)
    → c / 1024 ≢ q
    → entry (set base q p) c ≡ entry base c
unfolding entry free_list
entry-set base q c p ne = rw (get_elem?-set_ne base {i = q} {j = c / 1024} p (λ e. ne (sym e)))

-- An entry depends on its segment alone.
pub entry_cong :
    (base base' : List Segment) (c : ℕ)
    → get_elem? base' (c / 1024) ≡ get_elem? base (c / 1024)
    → entry base' c ≡ entry base c
unfolding entry free_list
entry_cong base base' c e = rw e
