-- ===== src/Md5/Functions.antt =====
-- The four functions of the rounds (`F` in src/common/misc/md5.c, in the shorter forms that the code
-- has) are those of RFC 1321, digit by digit.
use Prim.Native.Nat.{digits, differ, max, bit_and-bitwise, bit_or-bitwise, bit_xor-bitwise}
use agilefs.Prelude.{
  ℕ, zero, suc, ◌+◌, ◌-◌, ◌*◌, ◌/◌, ◌%◌, ◌^◌, ◌≤◌, ◌<◌, ◌≡◌, ◌⊎◌, inl, inr, refl, ap, arith, min,
  bit_and, bit_or, bit_xor,
}
use agilefs.Md5.{f1, f2, f3, f4, complement}

-- The binary digit `k` of a number.
abbrev pub digit : ℕ → ℕ → ℕ
digit zero n = n % 2
digit (suc k) n = digit k (n / 2)

-- RFC 1321, on one digit of each word: `and`, `or`, `not` and `xor`.
abbrev pub rfc_f : ℕ → ℕ → ℕ → ℕ
rfc_f x y z = max (min x y) (min (1 - x) z)

abbrev pub rfc_g : ℕ → ℕ → ℕ → ℕ
rfc_g x y z = max (min x z) (min y (1 - z))

abbrev pub rfc_h : ℕ → ℕ → ℕ → ℕ
rfc_h x y z = differ (differ x y) z

abbrev pub rfc_i : ℕ → ℕ → ℕ → ℕ
rfc_i x y z = differ y (max x (1 - z))

-- More digits to go make no difference.
digits-fuel :
    (z : ℕ → ℕ) (f : ℕ → ℕ → ℕ) (n m a b : ℕ) → a ≤ n → a ≤ m → digits z f n a b ≡ digits z f m a b
digits-fuel z f zero zero a b p q = refl
digits-fuel z f zero (suc m) zero b p q = refl
digits-fuel z f zero (suc m) (suc a) b p q = absurd (omega arith)
digits-fuel z f (suc n) zero zero b p q = refl
digits-fuel z f (suc n) zero (suc a) b p q = absurd (omega arith)
digits-fuel z f (suc n) (suc m) zero b p q = refl
digits-fuel z f (suc n) (suc m) (suc a) b p q =
    ap (λ (d : ℕ). d * 2 + f (suc a % 2) (b % 2))
      (digits-fuel z f n m (suc a / 2) (b / 2) (omega arith) (omega arith))

-- The last digit and the others.
digits-step :
    (z : ℕ → ℕ) (f : ℕ → ℕ → ℕ) (a b : ℕ)
    → ((c : ℕ) → z c ≡ z (c / 2) * 2 + f 0 (c % 2))
    → digits z f a a b ≡ digits z f (a / 2) (a / 2) (b / 2) * 2 + f (a % 2) (b % 2)
digits-step z f zero b h = h b
digits-step z f (suc a) b h =
    ap (λ (d : ℕ). d * 2 + f (suc a % 2) (b % 2))
      (digits-fuel z f a (suc a / 2) (suc a / 2) (b / 2) (omega arith) (omega arith))

and-step : (a b : ℕ) → bit_and a b ≡ bit_and (a / 2) (b / 2) * 2 + min (a % 2) (b % 2)
and-step a b =
    rw (bit_and-bitwise a b, bit_and-bitwise (a / 2) (b / 2))
      (digits-step (λ c. 0) min a b (λ c. omega arith))

pub or-step : (a b : ℕ) → bit_or a b ≡ bit_or (a / 2) (b / 2) * 2 + max (a % 2) (b % 2)
or-step a b =
    rw (bit_or-bitwise a b, bit_or-bitwise (a / 2) (b / 2))
      (digits-step (λ c. c) max a b (λ c. omega arith))

xor-step : (a b : ℕ) → bit_xor a b ≡ bit_xor (a / 2) (b / 2) * 2 + differ (a % 2) (b % 2)
xor-step a b =
    rw (bit_xor-bitwise a b, bit_xor-bitwise (a / 2) (b / 2))
      (digits-step (λ c. c) differ a b (λ c. omega arith))

-- An operation on two digits, of which 0 and 1 are the only ones.
abbrev IsDigitwise : (ℕ → ℕ → ℕ) → Type 0
IsDigitwise f = (a b : ℕ) → a < 2 → b < 2 → f a b < 2

two_cases : (a : ℕ) → a < 2 → (a ≡ 0) ⊎ (a ≡ 1)
two_cases a h = ground arith

differ-IsDigitwise : IsDigitwise differ
differ-IsDigitwise zero b p q = q
differ-IsDigitwise (suc a) zero p q = p
differ-IsDigitwise (suc zero) (suc zero) p q = omega arith
differ-IsDigitwise (suc zero) (suc (suc b)) p q = absurd (omega arith)
differ-IsDigitwise (suc (suc a)) (suc b) p q = absurd (omega arith)

max-IsDigitwise : IsDigitwise max
max-IsDigitwise a b p q = omega arith

min-IsDigitwise : IsDigitwise min
min-IsDigitwise a b p q = omega arith

digit-op :
    (op f : ℕ → ℕ → ℕ)
    → ((a b : ℕ) → op a b ≡ op (a / 2) (b / 2) * 2 + f (a % 2) (b % 2))
    → IsDigitwise f
    → (k a b : ℕ) → digit k (op a b) ≡ f (digit k a) (digit k b)
digit-op op f step h zero a b =
    let small : f (a % 2) (b % 2) < 2 = h (a % 2) (b % 2) (omega arith) (omega arith) in
    rw step (omega arith)
digit-op op f step h (suc k) a b =
    let small : f (a % 2) (b % 2) < 2 = h (a % 2) (b % 2) (omega arith) (omega arith) in
    let half : op a b / 2 ≡ op (a / 2) (b / 2) = omega (arith, step a b) in
    rw half (digit-op op f step h k (a / 2) (b / 2))

digit-and : (k a b : ℕ) → digit k (bit_and a b) ≡ min (digit k a) (digit k b)
digit-and = digit-op bit_and min and-step min-IsDigitwise

digit-or : (k a b : ℕ) → digit k (bit_or a b) ≡ max (digit k a) (digit k b)
digit-or = digit-op bit_or max or-step max-IsDigitwise

digit-xor : (k a b : ℕ) → digit k (bit_xor a b) ≡ differ (digit k a) (digit k b)
digit-xor = digit-op bit_xor differ xor-step differ-IsDigitwise

-- A number of `m` digits 1.
abbrev all_ones : ℕ → ℕ
all_ones zero = 0
all_ones (suc m) = all_ones m * 2 + 1

digit-not : (k m z : ℕ) → k < m → z ≤ all_ones m → digit k (all_ones m - z) ≡ 1 - digit k z
digit-not k zero z lt le = absurd (omega arith)
digit-not zero (suc m) z lt le = omega arith
digit-not (suc k) (suc m) z lt le =
    let half : (all_ones m * 2 + 1 - z) / 2 ≡ all_ones m - z / 2 = omega arith in
    rw half (digit-not k m (z / 2) (omega arith) (omega arith))

digit-complement : (k z : ℕ) → k < 64 → z < 2 ^ 64 → digit k (complement z) ≡ 1 - digit k z
digit-complement k z lt small = digit-not k 64 z lt (omega arith)

digit-small : (k n : ℕ) → digit k n < 2
digit-small zero n = omega arith
digit-small (suc k) n = digit-small k (n / 2)

-- Two operations on three digits that agree on all eight cases.
by_digits :
    (l r : ℕ → ℕ → ℕ → ℕ)
    → l 0 0 0 ≡ r 0 0 0
    → l 0 0 1 ≡ r 0 0 1
    → l 0 1 0 ≡ r 0 1 0
    → l 0 1 1 ≡ r 0 1 1
    → l 1 0 0 ≡ r 1 0 0
    → l 1 0 1 ≡ r 1 0 1
    → l 1 1 0 ≡ r 1 1 0
    → l 1 1 1 ≡ r 1 1 1
    → (x y z : ℕ) → x < 2
    → y < 2
    → z < 2
    → l x y z ≡ r x y z
by_digits l r e0 e1 e2 e3 e4 e5 e6 e7 x y z p q s = elim (two_cases x p) [
  | inl a ↦ elim (two_cases y q) [
    | inl b ↦ elim (two_cases z s) [ inl c ↦ rw (a, b, c) e0 | inr c ↦ rw (a, b, c) e1 ]
    | inr b ↦ elim (two_cases z s) [ inl c ↦ rw (a, b, c) e2 | inr c ↦ rw (a, b, c) e3 ]
  ]
  | inr a ↦ elim (two_cases y q) [
    | inl b ↦ elim (two_cases z s) [ inl c ↦ rw (a, b, c) e4 | inr c ↦ rw (a, b, c) e5 ]
    | inr b ↦ elim (two_cases z s) [ inl c ↦ rw (a, b, c) e6 | inr c ↦ rw (a, b, c) e7 ]
  ]
]

f_digits : (x y z : ℕ) → x < 2 → y < 2 → z < 2 → differ z (min x (differ y z)) ≡ rfc_f x y z
f_digits =
    by_digits (λ x y z. differ z (min x (differ y z))) rfc_f refl refl refl refl refl refl refl refl

g_digits : (x y z : ℕ) → x < 2 → y < 2 → z < 2 → differ y (min z (differ x y)) ≡ rfc_g x y z
g_digits =
    by_digits (λ x y z. differ y (min z (differ x y))) rfc_g refl refl refl refl refl refl refl refl

-- In each of the 64 binary digits, the four functions of the rounds are those of RFC 1321: `XY v not(X)
-- Z`, `XZ v Y not(Z)`, `X xor Y xor Z` and `Y xor (X v not(Z))`, for a third word below 2^64.
pub rounds-rfc :
    (x y z k : ℕ)
    → z < 2 ^ 64
    → k < 64
    → (digit k (f1 x y z) ≡ rfc_f (digit k x) (digit k y) (digit k z))
      × (digit k (f2 x y z) ≡ rfc_g (digit k x) (digit k y) (digit k z))
      × (digit k (f3 x y z) ≡ rfc_h (digit k x) (digit k y) (digit k z))
      × (digit k (f4 x y z) ≡ rfc_i (digit k x) (digit k y) (digit k z))
unfolding f1 f2 f3 f4
rounds-rfc x y z k small lt =
    let a = digit-small k x in
    let b = digit-small k y in
    let c = digit-small k z in
    (
      rw (digit-xor k z (bit_and x (bit_xor y z)), digit-and k x (bit_xor y z), digit-xor k y z)
          (f_digits (digit k x) (digit k y) (digit k z) a b c),
      rw (digit-xor k y (bit_and z (bit_xor x y)), digit-and k z (bit_xor x y), digit-xor k x y)
          (g_digits (digit k x) (digit k y) (digit k z) a b c),
      rw (digit-xor k (bit_xor x y) z, digit-xor k x y) refl,
      rw
          (
            digit-xor k y (bit_or x (complement z)),
            digit-or k x (complement z),
            digit-complement k z lt small,
          )
          refl,
    )
