-- ===== src/Cache/Ways.antt =====
-- The two loops over the ways of a line (src/client/fuse_cache.c).
use agilefs.Prelude.{
  ◌⊎◌, ◌≢◌, ◌≤◌, ◌<◌, ◌≡◌, refl, ap, ◌∙◌, arith, Bool-cases, inl, inr, some-inj, none-ne-some,
  get_elem?-lt, ℕ, zero, suc, ◌+◌, ltb, if◌then◌else◌, true, false, Option, some, List, [], ◌∷◌,
  length, get_elem?,
}
use agilefs.Platform.{Key}
use agilefs.Disk.{same_key, same_key_refl, same_key→eq}
use agilefs.Cache.{Way, Choice, refill, victim, scan, choose_from, aged}

-- No way from `i` on holds the hash.
abbrev pub NotFrom : ℕ → Key → List Way → Type 0
NotFrom i hash ways = (k : ℕ) (w : Way) → i ≤ k → get_elem? ways k ≡ some w → w.hash ≢ hash

pub same_key-ne : (k k' : Key) → k ≢ k' → same_key k k' ≡ false
same_key-ne k k' ne = elim (Bool-cases (same_key k k')) [
  | inl e ↦ absurd (ne (same_key→eq k k' e))
  | inr e ↦ e
]

pub scan-none :
    (hash : Key) (ways : List Way) (found : Option Way)
    → NotFrom 0 hash ways
    → (scan hash ways found).1 ≡ found
unfolding scan
scan-none hash [] found absent = refl
scan-none hash (w ∷ ways) found absent =
    rw (same_key-ne w.hash hash (absent 0 w (omega arith) refl))
      (scan-none hash ways found (λ k v le at. absent (suc k) v (omega arith) at))

-- The last way that holds the hash is the one that is read.
pub scan-last :
    (hash : Key) (ways : List Way) (i : ℕ) (w : Way) (found : Option Way)
    → get_elem? ways i ≡ some w
    → w.hash ≡ hash
    → NotFrom (suc i) hash ways
    → (scan hash ways found).1 ≡ some w
unfolding scan
scan-last hash [] i w found at e absent = absurd (none-ne-some at)
scan-last hash (v ∷ ways) zero w found at e absent =
    let first : v ≡ w = some-inj at in
    let here : same_key v.hash hash ≡ true = rw (first, e) (same_key_refl hash) in
    rw here (
      scan-none hash ways (some v) (λ k x le x_at. absent (suc k) x (omega arith) x_at)
      ∙ ap some first)
scan-last hash (v ∷ ways) (suc i) w found at e absent = elim (Bool-cases (same_key v.hash hash)) [
  | inl same ↦
      rw same
        (scan-last hash ways i w (some v) at e (λ k x le x_at. absent (suc k) x (omega arith) x_at))
  | inr other ↦
      rw other
        (scan-last hash ways i w found at e (λ k x le x_at. absent (suc k) x (omega arith) x_at))
]

-- A way is left as it was, or aged.
pub record IsAged (v w : Way) : Type 0 where
  pub same_hash : w.hash ≡ v.hash
  pub same_block : w.block ≡ v.block

-- What stands in `after` stood in `ways`.
abbrev pub AgedFrom : List Way → List Way → Type 0
AgedFrom after ways =
    (k : ℕ) (w : Way)
    → get_elem? after k ≡ some w
    → (v : Way) × (get_elem? ways k ≡ some v) × IsAged v w

AgedFrom-cons :
    (v u : Way) (after ways : List Way)
    → IsAged v u
    → AgedFrom after ways
    → AgedFrom (u ∷ after) (v ∷ ways)
AgedFrom-cons v u after ways old rest zero w e = (v, refl, rw (← some-inj e) old)
AgedFrom-cons v u after ways old rest (suc k) w e = rest k w e

pub scan-ways :
    (hash : Key) (ways : List Way) (found : Option Way) → AgedFrom (scan hash ways found).0 ways
unfolding scan
scan-ways hash [] found = λ k w e. absurd (none-ne-some e)
scan-ways hash (v ∷ ways) found = elim (Bool-cases (same_key v.hash hash)) [
  | inl same ↦ rw same (
      AgedFrom-cons v v (scan hash ways (some v)).0 ways
        (record { same_hash = refl; same_block = refl }) (scan-ways hash ways (some v)))
  | inr other ↦ rw other (
      AgedFrom-cons v (aged v) (scan hash ways found).0 ways
        (record { same_hash = refl; same_block = refl }) (scan-ways hash ways found))
]

pub scan-length :
    (hash : Key) (ways : List Way) (found : Option Way)
    → length (scan hash ways found).0 ≡ length ways
unfolding scan
scan-length hash [] found = refl
scan-length hash (v ∷ ways) found = elim (Bool-cases (same_key v.hash hash)) [
  | inl same ↦ rw same (ap suc (scan-length hash ways (some v)))
  | inr other ↦ rw other (ap suc (scan-length hash ways found))
]

-- What is found holds the hash.
abbrev pub IsFound : Key → List Way → Option Way → Way → Type 0
IsFound hash ways found w =
    ((k : ℕ) × (get_elem? ways k ≡ some w) × (w.hash ≡ hash)) ⊎ (found ≡ some w)

IsFound-cons :
    (hash : Key) (ways : List Way) (v w : Way) (found : Option Way)
    → IsFound hash ways found w
    → IsFound hash (v ∷ ways) found w
IsFound-cons hash ways v w found (inl (k, at, e)) = inl (suc k, at, e)
IsFound-cons hash ways v w found (inr e) = inr e

IsFound-now :
    (hash : Key) (ways : List Way) (v w : Way) (found : Option Way)
    → v.hash ≡ hash
    → IsFound hash ways (some v) w
    → IsFound hash (v ∷ ways) found w
IsFound-now hash ways v w found same (inl (k, at, e)) = inl (suc k, at, e)
IsFound-now hash ways v w found same (inr e) = inl (0, e, rw (← some-inj e) same)

pub scan-IsFound :
    (hash : Key) (ways : List Way) (found : Option Way) (w : Way)
    → (scan hash ways found).1 ≡ some w
    → IsFound hash ways found w
unfolding scan
scan-IsFound hash [] found w e = inr e
scan-IsFound hash (v ∷ ways) found w e = elim (Bool-cases (same_key v.hash hash)) [
  | inl same ↦
      IsFound-now hash ways v w found (same_key→eq v.hash hash same)
        (scan-IsFound hash ways (some v) w (rw same at e))
  | inr other ↦ IsFound-cons hash ways v w found (scan-IsFound hash ways found w (rw other at e))
]

-- Where no way but the first may hold the hash, a way of the eight is chosen to be used.
pub choose_from-victim :
    (left i way : ℕ) (hash : Key) (ways : List Way)
    → i + left ≡ length ways
    → way < length ways
    → NotFrom i hash ways
    → (k : ℕ) × (choose_from left i way hash ways ≡ some (victim k)) × (k < length ways)
unfolding choose_from
choose_from-victim zero i way hash ways e lt absent = (way, refl, lt)
choose_from-victim (suc left) i way hash ways e lt absent =
    let (w, w_at) = get_elem?-lt ways i (omega arith) in
    let (v, v_at) = get_elem?-lt ways way lt in
    let best = if ltb w.life v.life then i else way in
    let best_lt : best < length ways = ground arith in
    let (k, returns, k_lt) =
      choose_from-victim left (i + 1) best hash ways (omega arith) best_lt
        (λ j x le x_at. absent j x (omega arith) x_at) in
    (
      k,
      rw (choose_from, w_at, v_at, same_key-ne w.hash hash (absent i w (omega arith) w_at)) returns,
      k_lt,
    )

-- A way within the line.
abbrev pub IsWithin : Choice → ℕ → Type 0
IsWithin (refill k) n = k < n
IsWithin (victim k) n = k < n

pub choose_from-returns :
    (left i way : ℕ) (hash : Key) (ways : List Way)
    → i + left ≡ length ways
    → way < length ways
    → (c : Choice) × (choose_from left i way hash ways ≡ some c) × IsWithin c (length ways)
unfolding choose_from
choose_from-returns zero i way hash ways e lt = (victim way, refl, lt)
choose_from-returns (suc left) i way hash ways e lt =
    let (w, w_at) = get_elem?-lt ways i (omega arith) in
    let (v, v_at) = get_elem?-lt ways way lt in
    let best = if ltb w.life v.life then i else way in
    let best_lt : best < length ways = ground arith in
    let (c, returns, within) =
      choose_from-returns left (i + 1) best hash ways (omega arith) best_lt in
    elim (Bool-cases (same_key w.hash hash)) [
      | inl same ↦
          let here : i < length ways = omega arith in
          (refill i, rw (choose_from, w_at, v_at, same), here)
      | inr other ↦ (c, rw (choose_from, w_at, v_at, other) returns, within)
    ]
