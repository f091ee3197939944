-- ===== src/Md5/Compress.antt =====
-- The compression of RFC 1321, on words of 32 bits (for src/common/misc/md5.c).
use agilefs.Prelude.{ℕ, zero, suc, ◌+◌, ◌-◌, ◌*◌, ◌/◌, ◌%◌, ◌^◌, ◌≡◌, refl, List, [], ◌∷◌, get_or}
use agilefs.Md5.{Words}
use agilefs.Md5.Steps.{Step, first_round, second_round, third_round, fourth_round}
use agilefs.Md5.Functions.{rfc_f, rfc_g, rfc_h, rfc_i}

-- The integer parts of 2^32 |sin i|, for i from 1 to 64.
abbrev pub sines : List ℕ
sines =
    0xd76aa478 ∷ 0xe8c7b756 ∷ 0x242070db ∷ 0xc1bdceee ∷ 0xf57c0faf ∷ 0x4787c62a ∷ 0xa8304613
    ∷ 0xfd469501 ∷ 0x698098d8 ∷ 0x8b44f7af ∷ 0xffff5bb1 ∷ 0x895cd7be ∷ 0x6b901122 ∷ 0xfd987193
    ∷ 0xa679438e ∷ 0x49b40821 ∷ 0xf61e2562 ∷ 0xc040b340 ∷ 0x265e5a51 ∷ 0xe9b6c7aa ∷ 0xd62f105d
    ∷ 0x02441453 ∷ 0xd8a1e681 ∷ 0xe7d3fbc8 ∷ 0x21e1cde6 ∷ 0xc33707d6 ∷ 0xf4d50d87 ∷ 0x455a14ed
    ∷ 0xa9e3e905 ∷ 0xfcefa3f8 ∷ 0x676f02d9 ∷ 0x8d2a4c8a ∷ 0xfffa3942 ∷ 0x8771f681 ∷ 0x6d9d6122
    ∷ 0xfde5380c ∷ 0xa4beea44 ∷ 0x4bdecfa9 ∷ 0xf6bb4b60 ∷ 0xbebfbc70 ∷ 0x289b7ec6 ∷ 0xeaa127fa
    ∷ 0xd4ef3085 ∷ 0x04881d05 ∷ 0xd9d4d039 ∷ 0xe6db99e5 ∷ 0x1fa27cf8 ∷ 0xc4ac5665 ∷ 0xf4292244
    ∷ 0x432aff97 ∷ 0xab9423a7 ∷ 0xfc93a039 ∷ 0x655b59c3 ∷ 0x8f0ccc92 ∷ 0xffeff47d ∷ 0x85845dd1
    ∷ 0x6fa87e4f ∷ 0xfe2ce6e0 ∷ 0xa3014314 ∷ 0x4e0811a1 ∷ 0xf7537e82 ∷ 0xbd3af235 ∷ 0x2ad7d2bb
    ∷ 0xeb86d391 ∷ []

-- A function of digits on words of `k` digits.
abbrev pub on_digits : ℕ → (ℕ → ℕ → ℕ → ℕ) → ℕ → ℕ → ℕ → ℕ
on_digits zero g x y z = 0
on_digits (suc k) g x y z = g (x % 2) (y % 2) (z % 2) + 2 * on_digits k g (x / 2) (y / 2) (z / 2)

-- The word `k` of a block.
abbrev pub word_at : List ℕ → ℕ → ℕ
word_at block k =
    get_or block (4 * k) 0
    + 256
      * (get_or block (4 * k + 1) 0
          + 256 * (get_or block (4 * k + 2) 0 + 256 * get_or block (4 * k + 3) 0))

-- The circular shift of a word of 32 bits.
abbrev pub rotated : ℕ → ℕ → ℕ
rotated w s = (w * 2 ^ s + w / 2 ^ (32 - s)) % 2 ^ 32

-- `a = b + ((a + g(b, c, d) + X[k] + T[i]) <<< s)`, and the words turned for the next step.
abbrev pub rfc_step : (ℕ → ℕ → ℕ → ℕ) → List ℕ → Words → Step → Words
rfc_step g block w (k, s, t) =
    let sum = (w.a + on_digits 32 g w.b w.c w.d + word_at block k + t) % 2 ^ 32 in
    record { a = w.d; b = (w.b + rotated sum s) % 2 ^ 32; c = w.b; d = w.c }

abbrev pub rfc_round : (ℕ → ℕ → ℕ → ℕ) → List ℕ → Words → List Step → Words
rfc_round g block w [] = w
rfc_round g block w (x ∷ xs) = rfc_round g block (rfc_step g block w x) xs

-- `n` steps of a round from step `i` on: the word of the step, `s` in a circle of four, and `T`.
abbrev pub schedule : ℕ → ℕ → (ℕ → ℕ) → List ℕ → List Step
schedule zero i word shifts = []
schedule (suc n) i word shifts =
    (word i % 16, get_or shifts (i % 4) 0, get_or sines i 0) ∷ schedule n (i + 1) word shifts

abbrev pub rfc_process : Words → List ℕ → Words
rfc_process w block =
    let w1 = rfc_round rfc_f block w (schedule 16 0 (λ i. i) (7 ∷ 12 ∷ 17 ∷ 22 ∷ [])) in
    let w2 = rfc_round rfc_g block w1 (schedule 16 16 (λ i. 5 * i + 1) (5 ∷ 9 ∷ 14 ∷ 20 ∷ [])) in
    let w3 = rfc_round rfc_h block w2 (schedule 16 32 (λ i. 3 * i + 5) (4 ∷ 11 ∷ 16 ∷ 23 ∷ [])) in
    let w4 = rfc_round rfc_i block w3 (schedule 16 48 (λ i. 7 * i) (6 ∷ 10 ∷ 15 ∷ 21 ∷ [])) in
    record {
      a = (w.a + w4.a) % 2 ^ 32;
      b = (w.b + w4.b) % 2 ^ 32;
      c = (w.c + w4.c) % 2 ^ 32;
      d = (w.d + w4.d) % 2 ^ 32;
    }

pub first-eq : schedule 16 0 (λ i. i) (7 ∷ 12 ∷ 17 ∷ 22 ∷ []) ≡ first_round
first-eq = refl

pub second-eq : schedule 16 16 (λ i. 5 * i + 1) (5 ∷ 9 ∷ 14 ∷ 20 ∷ []) ≡ second_round
second-eq = refl

pub third-eq : schedule 16 32 (λ i. 3 * i + 5) (4 ∷ 11 ∷ 16 ∷ 23 ∷ []) ≡ third_round
third-eq = refl

pub fourth-eq : schedule 16 48 (λ i. 7 * i) (6 ∷ 10 ∷ 15 ∷ 21 ∷ []) ≡ fourth_round
fourth-eq = refl
