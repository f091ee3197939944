-- ===== src/BlockFiles/Spelled.antt =====
-- `md5_to_path` spells the hash, and the same function under `__USE_SHA1` all but its last byte
-- (src/client/fuse_io_util.c).
use agilefs.Prelude.{
  inl, inr, ℕ, zero, suc, ◌+◌, ◌-◌, ◌*◌, ◌/◌, ◌%◌, ◌<◌, ◌≡◌, ◌≢◌, sym, ap, ◌∙◌, arith, some, List,
  length, get_elem?, set, get_elem?-set_ne, Bool-cases, ==→eq, ne→≢, ne→==, get_elem?-set_self,
  length-set, lt-of-get_elem?, some-inj, if◌then◌else◌, ◌==◌,
}
use agilefs.Arrays.{put_at, put_at_lem}
use agilefs.BlockFiles.{hex, sprintf_02x, spell_from, md5_to_path, sha1_to_path}
use agilefs.BlockFiles.Paths.{IsSpelled, sprintf_lem, Ran, rounds, round-eq}

-- `path` starts with the `n + 1` bytes `b` in hexadecimal, a slash after the first, and ends there.
pub record IsPathOf (path : List ℕ) (n : ℕ) (b : ℕ → ℕ) : Type 0 where
  pub first_high : get_elem? path 0 ≡ some (hex (b 0 / 16))
  pub first_low : get_elem? path 1 ≡ some (hex (b 0 % 16))
  pub slash : get_elem? path 2 ≡ some 47
  pub high : (k : ℕ) → k < n → get_elem? path (3 + 2 * k) ≡ some (hex (b (suc k) / 16))
  pub low : (k : ℕ) → k < n → get_elem? path (4 + 2 * k) ≡ some (hex (b (suc k) % 16))
  pub ended : get_elem? path (3 + 2 * n) ≡ some 0

-- The hash that stands in the buffer.
abbrev pub Holds : List ℕ → ℕ → (ℕ → ℕ) → Type 0
Holds path n b = (k : ℕ) → k < n → get_elem? path (20 + k) ≡ some (b k)

-- The first byte and the slash.
record IsBegun (path p2 : List ℕ) (b : ℕ) : Type 0 where
  same_length : length p2 ≡ length path
  high : get_elem? p2 0 ≡ some (hex (b / 16))
  low : get_elem? p2 1 ≡ some (hex (b % 16))
  slash : get_elem? p2 2 ≡ some 47
  others : (k : ℕ) → 2 < k → get_elem? p2 k ≡ get_elem? path k

begun :
    (path : List ℕ) (b : ℕ)
    → 20 < length path
    → (p1 p2 : List ℕ) × (sprintf_02x path 0 b ≡ some p1)
      × (put_at p1 2 47 ≡ some p2)
      × IsBegun path p2 b
begun path b room =
    let (p1, e, one) = sprintf_lem path 0 b (omega arith) in
    let l : length p1 ≡ length path = one.same_length in
    (
      p1,
      set p1 2 47,
      e,
      put_at_lem p1 2 47 (omega arith),
      record {
        same_length = length-set p1 2 47 ∙ l;
        high = get_elem?-set_ne p1 47 (let ne : 2 ≢ 0 = λ x. omega arith in ne) ∙ one.high;
        low = get_elem?-set_ne p1 47 (let ne : 2 ≢ 1 = λ x. omega arith in ne) ∙ one.low;
        slash = get_elem?-set_self p1 2 47 (omega arith);
        others = λ k lt.
            get_elem?-set_ne p1 47 (let ne : 2 ≢ k = λ x. omega arith in ne)
            ∙ one.others k (inr (omega arith));
      },
    )

-- What the beginning and `n` rounds leave of the text.
record IsHalf (path : List ℕ) (n : ℕ) (b : ℕ → ℕ) : Type 0 where
  first_high : get_elem? path 0 ≡ some (hex (b 0 / 16))
  first_low : get_elem? path 1 ≡ some (hex (b 0 % 16))
  slash : get_elem? path 2 ≡ some 47
  high : (k : ℕ) → k < n → get_elem? path (3 + 2 * k) ≡ some (hex (b (suc k) / 16))
  low : (k : ℕ) → k < n → get_elem? path (4 + 2 * k) ≡ some (hex (b (suc k) % 16))

half :
    (path p2 p3 : List ℕ) (n : ℕ) (b : ℕ → ℕ)
    → IsBegun path p2 (b 0)
    → Ran p2 p3 3 21 n (λ q. b (q - 20))
    → IsHalf p3 n b
half path p2 p3 n b one r = record {
  first_high = r.others 0 (inl (omega arith)) ∙ one.high;
  first_low = r.others 1 (inl (omega arith)) ∙ one.low;
  slash = r.others 2 (inl (omega arith)) ∙ one.slash;
  high = λ k lt. r.high k lt ∙ ap (λ q. some (hex (b q / 16))) (at_hash k);
  low = λ k lt.
      let same : 3 + 2 * k + 1 ≡ 4 + 2 * k = omega arith in
      rw same at (r.low k lt) ∙ ap (λ q. some (hex (b q % 16))) (at_hash k);
}
  where
    at_hash : (k : ℕ) → 21 + k - 20 ≡ suc k
    at_hash k = omega arith

-- The string ends at `m`, behind the half.
closed :
    (path : List ℕ) (n : ℕ) (b : ℕ → ℕ)
    → IsHalf path n b
    → 3 + 2 * n < length path
    → (put_at path (3 + 2 * n) 0 ≡ some (set path (3 + 2 * n) 0))
      × IsPathOf (set path (3 + 2 * n) 0) n b
closed path n b h room = (
  put_at_lem path (3 + 2 * n) 0 room,
  record {
    first_high = apart 0 (omega arith) ∙ h.first_high;
    first_low = apart 1 (omega arith) ∙ h.first_low;
    slash = apart 2 (omega arith) ∙ h.slash;
    high = λ k lt. apart (3 + 2 * k) (omega arith) ∙ h.high k lt;
    low = λ k lt. apart (4 + 2 * k) (omega arith) ∙ h.low k lt;
    ended = get_elem?-set_self path (3 + 2 * n) 0 room;
  },
)
  where
    apart : (k : ℕ) → k < 3 + 2 * n → get_elem? (set path (3 + 2 * n) 0) k ≡ get_elem? path k
    apart k lt = get_elem?-set_ne path 0 (let ne : 3 + 2 * n ≢ k = λ x. omega arith in ne)

hash_bytes :
    (path p2 : List ℕ) (n top : ℕ) (b : ℕ → ℕ)
    → Holds path (suc n) b
    → IsBegun path p2 (b 0)
    → (k : ℕ) → k < n
    → get_elem? p2 (21 + k) ≡ some (b (21 + k - 20))
hash_bytes path p2 n top b h one k lt =
    let x : 20 + suc k ≡ 21 + k = omega arith in
    let y : 21 + k - 20 ≡ suc k = omega arith in
    rw y (one.others (21 + k) (omega arith) ∙ rw x at (h (suc k) (omega arith)))

-- In a buffer that holds an MD5 hash at its place, `md5_to_path` returns, and leaves the path of that
-- hash: the first byte, a slash and the other 15 bytes in hexadecimal, and the end of the string.
pub md5_to_path_spells :
    (path : List ℕ) (b : ℕ → ℕ)
    → Holds path 16 b
    → (path' : List ℕ) × (md5_to_path path ≡ some path') × IsPathOf path' 15 b
unfolding md5_to_path spell_from
md5_to_path_spells path b h =
    let room : 35 < length path = lt-of-get_elem? path 35 (b 15) (h 15 (omega arith)) in
    let first : get_elem? path 20 ≡ some (b 0) = h 0 (omega arith) in
    let (p1, p2, e, f, one) = begun path (b 0) (omega arith) in
    let (p3, g, r) =
      rounds 15 1 33 36 3 21 (λ q. b (q - 20)) p2 (hash_bytes path p2 15 36 b h one) (omega arith)
        (omega arith) (omega arith) (omega (arith, one.same_length)) in
    let (c, spelled) =
      closed p3 15 b (half path p2 p3 15 b one r) (omega (arith, one.same_length, r.same_length)) in
    (set p3 33 0, rw (first, e, f, g, c), spelled)

abbrev pub without_last : (ℕ → ℕ) → ℕ → ℕ
without_last b k = if k == 19 then 0 else b k

-- The last round under `__USE_SHA1` reads the end of the string that the round before has written.
last_round :
    (path p3 p4 : List ℕ) (b : ℕ → ℕ)
    → IsHalf p3 18 b
    → IsSpelled p3 p4 39 0
    → IsHalf p4 19 (without_last b)
last_round path p3 p4 b h one = record {
  first_high = one.others 0 (inl (omega arith)) ∙ h.first_high;
  first_low = one.others 1 (inl (omega arith)) ∙ h.first_low;
  slash = one.others 2 (inl (omega arith)) ∙ h.slash;
  high = λ k lt. elim (Bool-cases (k == 18)) [
    | inl last ↦ let x : k ≡ 18 = ==→eq k 18 last in rw x (one.high)
    | inr other ↦
        let y : k ≢ 18 = ne→≢ k 18 other in
        rw (ne→== (suc k) 19 (λ e. y (omega arith)))
          (one.others (3 + 2 * k) (inl (omega arith)) ∙ h.high k (omega arith))
  ];
  low = λ k lt. elim (Bool-cases (k == 18)) [
    | inl last ↦ let x : k ≡ 18 = ==→eq k 18 last in rw x (one.low)
    | inr other ↦
        let y : k ≢ 18 = ne→≢ k 18 other in
        rw (ne→== (suc k) 19 (λ e. y (omega arith)))
          (one.others (4 + 2 * k) (inl (omega arith)) ∙ h.low k (omega arith))
  ];
}

-- In a buffer of 42 bytes or more that holds a SHA-1 hash at its place, the function under `__USE_SHA1` returns, and
-- leaves the path of the hash whose last byte is 0, whatever the last byte is.
pub sha1_to_path_forgets :
    (path : List ℕ) (b : ℕ → ℕ)
    → Holds path 20 b
    → 41 < length path
    → (path' : List ℕ) × (sha1_to_path path ≡ some path') × IsPathOf path' 19 (without_last b)
unfolding sha1_to_path spell_from
sha1_to_path_forgets path b h room =
    let first : get_elem? path 20 ≡ some (b 0) = h 0 (omega arith) in
    let (p1, p2, e, f, one) = begun path (b 0) (omega arith) in
    let (p3, g, r) =
      rounds 18 2 41 40 3 21 (λ q. b (q - 20)) p2
        (λ k lt. hash_bytes path p2 19 40 b h one k (omega arith)) (omega arith) (omega arith)
        (omega arith) (omega (arith, one.same_length)) in
    let (p4, i, last) = sprintf_lem p3 39 0 (omega (arith, one.same_length, r.same_length)) in
    let j : spell_from 2 41 40 39 39 p3 ≡ spell_from 1 41 40 41 40 p4 =
      round-eq 1 41 40 39 39 0 p3 p4 (omega arith) (omega arith) (r.ended (omega arith)) i in
    let (c, spelled) =
      closed p4 19 (without_last b) (last_round path p3 p4 b (half path p2 p3 18 b one r) last)
        (omega (arith, one.same_length, r.same_length, last.same_length)) in
    (set p4 41 0, rw (first, e, f, g, j, c), spelled)

hex-inj : (x y : ℕ) → x < 16 → y < 16 → hex x ≡ hex y → x ≡ y
hex-inj x y a c e = ground arith

byte-inj :
    (x y : ℕ)
    → x < 256
    → y < 256
    → hex (x / 16) ≡ hex (y / 16)
    → hex (x % 16) ≡ hex (y % 16)
    → x ≡ y
byte-inj x y a c high low =
    let h : x / 16 ≡ y / 16 = hex-inj (x / 16) (y / 16) (omega arith) (omega arith) high in
    let l : x % 16 ≡ y % 16 = hex-inj (x % 16) (y % 16) (omega arith) (omega arith) low in
    omega arith

-- The text of a path gives the hash back.
text-inj :
    (x y : List ℕ) (b c : ℕ → ℕ)
    → IsPathOf x 15 b
    → IsPathOf y 15 c
    → ((k : ℕ) → (b k < 256) × (c k < 256))
    → ((k : ℕ) → k < 33 → get_elem? x k ≡ get_elem? y k)
    → (k : ℕ) → k < 16
    → b k ≡ c k
text-inj x y b c p q bytes same zero lt =
    byte-inj (b 0) (c 0) ((bytes 0).0) ((bytes 0).1)
      (some-inj (sym p.first_high ∙ same 0 (omega arith) ∙ q.first_high))
      (some-inj (sym p.first_low ∙ same 1 (omega arith) ∙ q.first_low))
text-inj x y b c p q bytes same (suc k) lt =
    byte-inj (b (suc k)) (c (suc k)) ((bytes (suc k)).0) ((bytes (suc k)).1)
      (some-inj
        (sym (p.high k (omega arith)) ∙ same (3 + 2 * k) (omega arith) ∙ q.high k (omega arith)))
      (some-inj
        (sym (p.low k (omega arith)) ∙ same (4 + 2 * k) (omega arith) ∙ q.low k (omega arith)))

-- Two MD5 hashes for which `md5_to_path` spells the same path are the same.
pub md5_to_path-inj :
    (path path' spelled spelled' : List ℕ) (b c : ℕ → ℕ)
    → Holds path 16 b
    → Holds path' 16 c
    → ((k : ℕ) → (b k < 256) × (c k < 256))
    → md5_to_path path ≡ some spelled
    → md5_to_path path' ≡ some spelled'
    → ((k : ℕ) → k < 33 → get_elem? spelled k ≡ get_elem? spelled' k)
    → (k : ℕ) → k < 16
    → b k ≡ c k
md5_to_path-inj path path' spelled spelled' b c h h' bytes e e' same =
    let (x, f, p) = md5_to_path_spells path b h in
    let (y, f', q) = md5_to_path_spells path' c h' in
    let here : x ≡ spelled = some-inj (sym f ∙ e) in
    let there : y ≡ spelled' = some-inj (sym f' ∙ e') in
    text-inj x y b c p q bytes (λ k lt. rw (here, there) (same k lt))
