-- ===== src/BlockFiles/Paths.antt =====
-- The path that `md5_to_path` spells in front of a hash (src/client/fuse_io_util.c): the text grows
-- two bytes at a time and the hash is read one byte at a time, so the text gets nearer.
use agilefs.Prelude.{
  ◌⊎◌, inl, inr, ℕ, zero, suc, ◌+◌, ◌*◌, ◌/◌, ◌%◌, ◌≤◌, ◌<◌, ◌≡◌, ◌≢◌, refl, ◌∙◌, arith, some, List,
  length, get_elem?, set, get_elem?-set_ne, get_elem?-set_self, length-set, lt→ltb,
}
use agilefs.Arrays.{put_at_lem}
use agilefs.BlockFiles.{hex, sprintf_02x, spell_from}

-- The bytes that one `sprintf` leaves.
pub record IsSpelled (path path' : List ℕ) (i b : ℕ) : Type 0 where
  pub same_length : length path' ≡ length path
  pub high : get_elem? path' i ≡ some (hex (b / 16))
  pub low : get_elem? path' (i + 1) ≡ some (hex (b % 16))
  pub ended : get_elem? path' (i + 2) ≡ some 0
  pub others : (k : ℕ) → (k < i) ⊎ (i + 2 < k) → get_elem? path' k ≡ get_elem? path k

pub sprintf_lem :
    (path : List ℕ) (i b : ℕ)
    → i + 2 < length path
    → (path' : List ℕ) × (sprintf_02x path i b ≡ some path') × IsSpelled path path' i b
unfolding sprintf_02x
sprintf_lem path i b room =
    let p1 = set path i (hex (b / 16)) in
    let p2 = set p1 (i + 1) (hex (b % 16)) in
    let l1 : length p1 ≡ length path = length-set path i (hex (b / 16)) in
    let l2 : length p2 ≡ length path = length-set p1 (i + 1) (hex (b % 16)) ∙ l1 in
    (
      set p2 (i + 2) 0,
      rw (
        put_at_lem path i (hex (b / 16)) (omega arith),
        put_at_lem p1 (i + 1) (hex (b % 16)) (omega arith),
        put_at_lem p2 (i + 2) 0 (omega arith),
      ),
      record {
        same_length = length-set p2 (i + 2) 0 ∙ l2;
        high =
            get_elem?-set_ne p2 0 (let ne : i + 2 ≢ i = λ e. omega arith in ne)
            ∙ get_elem?-set_ne p1 (hex (b % 16)) (let ne : i + 1 ≢ i = λ e. omega arith in ne)
            ∙ get_elem?-set_self path i (hex (b / 16)) (omega arith);
        low =
            get_elem?-set_ne p2 0 (let ne : i + 2 ≢ i + 1 = λ e. omega arith in ne)
            ∙ get_elem?-set_self p1 (i + 1) (hex (b % 16)) (omega arith);
        ended = get_elem?-set_self p2 (i + 2) 0 (omega arith);
        others = λ k apart.
            get_elem?-set_ne p2 0 (let ne : i + 2 ≢ k = λ e. ground arith in ne)
            ∙ get_elem?-set_ne p1 (hex (b % 16)) (let ne : i + 1 ≢ k = λ e. ground arith in ne)
            ∙ get_elem?-set_ne path (hex (b / 16)) (let ne : i ≢ k = λ e. ground arith in ne);
      },
    )

-- What `n` rounds of the loop from `i` and `j` leave, where `h` is the bytes of the hash by their
-- place in the buffer.
pub record Ran (path path' : List ℕ) (i j n : ℕ) (h : ℕ → ℕ) : Type 0 where
  pub same_length : length path' ≡ length path
  pub high : (k : ℕ) → k < n → get_elem? path' (i + 2 * k) ≡ some (hex (h (j + k) / 16))
  pub low : (k : ℕ) → k < n → get_elem? path' (i + 2 * k + 1) ≡ some (hex (h (j + k) % 16))
  pub ended : 0 < n → get_elem? path' (i + 2 * n) ≡ some 0
  pub others : (k : ℕ) → (k < i) ⊎ (i + 2 * n < k) → get_elem? path' k ≡ get_elem? path k
  pub nothing : n ≡ 0 → path' ≡ path

pub round-eq :
    (fuel m top i j b : ℕ) (path path' : List ℕ)
    → i < m
    → j < top
    → get_elem? path j ≡ some b
    → sprintf_02x path i b ≡ some path'
    → spell_from (suc fuel) m top i j path ≡ spell_from fuel m top (i + 2) (j + 1) path'
unfolding spell_from
round-eq fuel m top i j b path path' x y e f = rw (spell_from, lt→ltb i m x, lt→ltb j top y, e, f)

Ran-step :
    (path p1 path' : List ℕ) (i j n : ℕ) (h : ℕ → ℕ)
    → IsSpelled path p1 i (h j)
    → Ran p1 path' (i + 2) (j + 1) n h
    → Ran path path' i j (suc n) h
Ran-step path p1 path' i j n h one r = record {
  same_length = r.same_length ∙ one.same_length;
  high = high_at;
  low = low_at;
  ended = λ some_left. ended_at n r;
  others = λ k apart. r.others k (apart_next k apart) ∙ one.others k (apart_now k apart);
  nothing = λ e. absurd (omega arith);
}
  where
    high_at : (k : ℕ) → k < suc n → get_elem? path' (i + 2 * k) ≡ some (hex (h (j + k) / 16))
    high_at zero lt =
        let a : i + 2 * 0 ≡ i = omega arith in
        let c : j + 0 ≡ j = omega arith in rw (a, c) (r.others i (inl (omega arith)) ∙ one.high)
    high_at (suc k) lt =
        let a : i + 2 * suc k ≡ i + 2 + 2 * k = omega arith in
        let c : j + suc k ≡ j + 1 + k = omega arith in rw (a, c) (r.high k (omega arith))

    low_at : (k : ℕ) → k < suc n → get_elem? path' (i + 2 * k + 1) ≡ some (hex (h (j + k) % 16))
    low_at zero lt =
        let a : i + 2 * 0 + 1 ≡ i + 1 = omega arith in
        let c : j + 0 ≡ j = omega arith in
        rw (a, c) (r.others (i + 1) (inl (omega arith)) ∙ one.low)
    low_at (suc k) lt =
        let a : i + 2 * suc k + 1 ≡ i + 2 + 2 * k + 1 = omega arith in
        let c : j + suc k ≡ j + 1 + k = omega arith in rw (a, c) (r.low k (omega arith))

    ended_at : (n : ℕ) → Ran p1 path' (i + 2) (j + 1) n h → get_elem? path' (i + 2 * suc n) ≡ some 0
    ended_at zero r = let a : i + 2 * 1 ≡ i + 2 = omega arith in rw (a, r.nothing refl) (one.ended)
    ended_at (suc n) r =
        let a : i + 2 * suc (suc n) ≡ i + 2 + 2 * suc n = omega arith in
        rw a (r.ended (omega arith))

    apart_next : (k : ℕ) → (k < i) ⊎ (i + 2 * suc n < k) → (k < i + 2) ⊎ (i + 2 + 2 * n < k)
    apart_next k (inl x) = inl (omega arith)
    apart_next k (inr x) = inr (omega arith)

    apart_now : (k : ℕ) → (k < i) ⊎ (i + 2 * suc n < k) → (k < i) ⊎ (i + 2 < k)
    apart_now k (inl x) = inl x
    apart_now k (inr x) = inr (omega arith)

-- The text stays behind the hash for `n` rounds where it starts `n` bytes before it.
pub rounds :
    (n fuel m top i j : ℕ) (h : ℕ → ℕ) (path : List ℕ)
    → ((k : ℕ) → k < n → get_elem? path (j + k) ≡ some (h (j + k)))
    → i + n ≤ j
    → i + 2 * n ≤ m
    → j + n ≤ top
    → m < length path
    → (path' : List ℕ) × (spell_from (n + fuel) m top i j path
        ≡ spell_from fuel m top (i + 2 * n) (j + n) path')
      × Ran path path' i j n h
rounds zero fuel m top i j h path bytes a b c d =
    let x : i + 2 * 0 ≡ i = omega arith in
    let y : j + 0 ≡ j = omega arith in
    let z : 0 + fuel ≡ fuel = omega arith in
    (
      path,
      rw (x, y, z),
      record {
        same_length = refl;
        high = λ k lt. absurd (omega arith);
        low = λ k lt. absurd (omega arith);
        ended = λ lt. absurd (omega arith);
        others = λ k apart. refl;
        nothing = λ e. refl;
      },
    )
rounds (suc n) fuel m top i j h path bytes a b c d =
    let y : j + 0 ≡ j = omega arith in
    let here : get_elem? path j ≡ some (h j) = rw y at (bytes 0 (omega arith)) in
    let (p1, e, one) = sprintf_lem path i (h j) (omega arith) in
    let (path', f, r) =
      rounds n fuel m top (i + 2) (j + 1) h p1
        (λ k lt.
          let z : j + suc k ≡ j + 1 + k = omega arith in
          one.others (j + 1 + k) (inr (omega arith)) ∙ rw z at (bytes (suc k) (omega arith)))
        (omega arith) (omega arith) (omega arith) (omega (arith, one.same_length)) in
    let p : i + 2 * suc n ≡ i + 2 + 2 * n = omega arith in
    let q : j + suc n ≡ j + 1 + n = omega arith in
    let w : suc n + fuel ≡ suc (n + fuel) = omega arith in
    (
      path',
      rw (p, q, w)
          (round-eq (n + fuel) m top i j (h j) path p1 (omega arith) (omega arith) here e ∙ f),
      Ran-step path p1 path' i j n h one r,
    )
