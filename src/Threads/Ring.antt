-- ===== src/Threads/Ring.antt =====
-- The entries of the queue of src/io/thread-mgr.c that are in use, as a list.
use agilefs.Prelude.{
  ℕ, zero, suc, ◌+◌, ◌%◌, ◌≤◌, ◌<◌, ◌≡◌, ◌≢◌, ◌⊎◌, inl, inr, refl, sym, ap, ◌∙◌, arith, some, List,
  [], ◌∷◌, ◌++◌, length, get_elem?, set, get_elem?-set_ne, lt-of-get_elem?, some-inj, none-ne-some,
}
use agilefs.Platform.{Key}
use agilefs.Threads.{Item}

-- `q` stands in the ring from `head` on.
abbrev pub IsRing : List Key → List (List ℕ) → ℕ → List Item → Type 0
IsRing hk cd head q =
    (i : ℕ) (x : Item)
    → get_elem? q i ≡ some x
    → (get_elem? hk ((head + i) % 8) ≡ some x.key) × (get_elem? cd ((head + i) % 8) ≡ some x.chunk)

slots_differ : (head i n : ℕ) → i < n → n ≤ 7 → (head + n) % 8 ≢ (head + i) % 8
slots_differ head i n lt small e = omega arith

pub write_chunk-IsRing :
    (hk : List Key) (cd : List (List ℕ)) (head tail : ℕ) (q : List Item) (chunk : List ℕ)
    → IsRing hk cd head q
    → length q ≤ 7
    → tail ≡ (head + length q) % 8
    → IsRing hk (set cd tail chunk) head q
write_chunk-IsRing hk cd head tail q chunk r small t i x e =
    let (k, c) = r i x e in
    let lt = lt-of-get_elem? q i x e in
    (
      k,
      get_elem?-set_ne cd chunk (λ same. slots_differ head i (length q) lt small (sym t ∙ same))
          ∙ c,
    )

pub write_key-IsRing :
    (hk : List Key) (cd : List (List ℕ)) (head tail : ℕ) (q : List Item) (key : Key)
    → IsRing hk cd head q
    → length q ≤ 7
    → tail ≡ (head + length q) % 8
    → IsRing (set hk tail key) cd head q
write_key-IsRing hk cd head tail q key r small t i x e =
    let (k, c) = r i x e in
    let lt = lt-of-get_elem? q i x e in
    (
      get_elem?-set_ne hk key (λ same. slots_differ head i (length q) lt small (sym t ∙ same)) ∙ k,
      c,
    )

get_elem?-snoc :
    (q : List Item) (y : Item) (i : ℕ) (x : Item)
    → get_elem? (q ++ y ∷ []) i ≡ some x
    → (get_elem? q i ≡ some x) ⊎ ((i ≡ length q) × (y ≡ x))
get_elem?-snoc [] y zero x e = inr (refl, some-inj e)
get_elem?-snoc [] y (suc i) x e = absurd (none-ne-some e)
get_elem?-snoc (z ∷ q) y zero x e = inl e
get_elem?-snoc (z ∷ q) y (suc i) x e = elim (get_elem?-snoc q y i x e) [
  | inl l ↦ inl l
  | inr (n, same) ↦ inr (ap suc n, same)
]

pub push-IsRing :
    (hk : List Key) (cd : List (List ℕ)) (head tail : ℕ) (q : List Item) (y : Item)
    → IsRing hk cd head q
    → tail ≡ (head + length q) % 8
    → get_elem? hk tail ≡ some y.key
    → get_elem? cd tail ≡ some y.chunk
    → IsRing hk cd head (q ++ y ∷ [])
push-IsRing hk cd head tail q y r t k c i x e = elim (get_elem?-snoc q y i x e) [
  | inl l ↦ r i x l
  | inr (n, same) ↦ rw (n, ← same, ← t) (k, c)
]

pub pop-IsRing :
    (hk : List Key) (cd : List (List ℕ)) (head : ℕ) (y : Item) (q : List Item)
    → IsRing hk cd head (y ∷ q)
    → IsRing hk cd ((head + 1) % 8) q
pop-IsRing hk cd head y q r i x e =
    let same : ((head + 1) % 8 + i) % 8 ≡ (head + suc i) % 8 = omega arith in
    rw same (r (suc i) x e)

pub tail-push : (head n tail : ℕ) → tail ≡ (head + n) % 8 → (tail + 1) % 8 ≡ (head + (n + 1)) % 8
tail-push head n tail e = omega arith

pub tail-pop : (head n tail : ℕ) → tail ≡ (head + suc n) % 8 → tail ≡ ((head + 1) % 8 + n) % 8
tail-pop head n tail e = omega arith
