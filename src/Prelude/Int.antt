-- ===== src/Prelude/Int.antt =====
-- Signed integers over the native numbers, for the `int`, `long` and `off_t` that may be negative.
use agilefs.Prelude.{
  ℕ, true, false, ◌≢◌, zero, suc, ◌+◌, ◌-◌, ◌%◌, ◌^◌, ◌≤◌, ◌<◌, ◌≡◌, Bool, arith, ltb, ◌==◌, leb,
  if◌then◌else◌, Option, none, some,
}

-- `negsuc n` is -(n + 1).
pub data ℤ : Type 0 where
  pos : ℕ → ℤ
  negsuc : ℕ → ℤ

abbrev pub minus_one : ℤ
minus_one = negsuc 0

abbrev pub pos_part : ℤ → ℕ
pos_part (pos n) = n
pos_part (negsuc n) = 0

abbrev pub neg_part : ℤ → ℕ
neg_part (pos n) = 0
neg_part (negsuc n) = suc n

-- a - b, as an integer.
abbrev pub sub_ℕ : ℕ → ℕ → ℤ
sub_ℕ a b = if leb b a then pos (a - b) else negsuc (b - a - 1)

infixl 65 ◌+ℤ◌ ◌-ℤ◌
infix 50 ◌≤ℤ◌ ◌<ℤ◌
unfoldable pub ◌+ℤ◌ : ℤ → ℤ → ℤ
a +ℤ b = sub_ℕ (pos_part a + pos_part b) (neg_part a + neg_part b)

unfoldable pub ◌-ℤ◌ : ℤ → ℤ → ℤ
a -ℤ b = sub_ℕ (pos_part a + neg_part b) (neg_part a + pos_part b)

abbrev pub ◌≤ℤ◌ : ℤ → ℤ → Type 0
a ≤ℤ b = pos_part a + neg_part b ≤ pos_part b + neg_part a

abbrev pub ◌<ℤ◌ : ℤ → ℤ → Type 0
a <ℤ b = pos_part a + neg_part b < pos_part b + neg_part a

abbrev pub ltb_ℤ : ℤ → ℤ → Bool
ltb_ℤ a b = ltb (pos_part a + neg_part b) (pos_part b + neg_part a)

abbrev pub eqb_ℤ : ℤ → ℤ → Bool
eqb_ℤ a b = (pos_part a + neg_part b) == (pos_part b + neg_part a)

-- The tactics work with the operations shut, through one lemma for each.
pub +ℤ_parts :
    (a b : ℤ)
    → pos_part (a +ℤ b) + neg_part a + neg_part b ≡ neg_part (a +ℤ b) + pos_part a + pos_part b
unfolding ◌+ℤ◌
+ℤ_parts a b = ground arith

pub -ℤ_parts :
    (a b : ℤ)
    → pos_part (a -ℤ b) + neg_part a + pos_part b ≡ neg_part (a -ℤ b) + pos_part a + neg_part b
unfolding ◌-ℤ◌
-ℤ_parts a b = ground arith

pub ruleset int_laws = (arith, +ℤ_parts, -ℤ_parts)

-- `++` and `--`.
abbrev pub succ_ℤ : ℤ → ℤ
succ_ℤ (pos n) = pos (n + 1)
succ_ℤ (negsuc zero) = pos 0
succ_ℤ (negsuc (suc n)) = negsuc n

abbrev pub pred_ℤ : ℤ → ℤ
pred_ℤ (pos zero) = negsuc 0
pred_ℤ (pos (suc n)) = pos n
pred_ℤ (negsuc n) = negsuc (suc n)

-- The `int` that a 32-bit pattern stands for, and back.
abbrev pub int_of_u32 : ℕ → ℤ
int_of_u32 w = if ltb w (2 ^ 31) then pos w else negsuc (2 ^ 32 - w - 1)

abbrev pub u32_of_int : ℤ → ℕ
u32_of_int (pos n) = n % 2 ^ 32
u32_of_int (negsuc n) = 2 ^ 32 - 1 - n % 2 ^ 32

-- The `off_t` that a 64-bit pattern stands for, and back.
abbrev pub off_of_u64 : ℕ → ℤ
off_of_u64 w = if ltb w (2 ^ 63) then pos w else negsuc (2 ^ 64 - w - 1)

abbrev pub u64_of_off : ℤ → ℕ
u64_of_off (pos n) = n % 2 ^ 64
u64_of_off (negsuc n) = 2 ^ 64 - 1 - n % 2 ^ 64

pub eqb_ℤ→eq : (a b : ℤ) → eqb_ℤ a b ≡ true → a ≡ b
eqb_ℤ→eq a b e = ground arith

pub eqb_ℤ-ne : (a b : ℤ) → eqb_ℤ a b ≡ false → a ≢ b
eqb_ℤ-ne a b e = ground arith

pub eqb_ℤ_refl : (a : ℤ) → eqb_ℤ a a ≡ true
eqb_ℤ_refl a = ground arith

-- `-n`.
abbrev pub neg : ℕ → ℤ
neg zero = pos 0
neg (suc n) = negsuc n

pub pos-add : (a b : ℕ) → pos a +ℤ pos b ≡ pos (a + b)
unfolding ◌+ℤ◌
pos-add a b = ground arith

-- An `int` has 32 bits; a sum that does not fit is undefined.
abbrev pub fits_int : ℤ → Bool
fits_int (pos n) = ltb n (2 ^ 31)
fits_int (negsuc n) = ltb n (2 ^ 31)

unfoldable pub add_int : ℤ → ℤ → Option ℤ
add_int a b = if fits_int (a +ℤ b) then some (a +ℤ b) else none

fits_int-parts : (c : ℤ) → pos_part c < 2 ^ 31 → neg_part c ≤ 2 ^ 31 → fits_int c ≡ true
fits_int-parts (pos n) p q = ground arith
fits_int-parts (negsuc n) p q = ground arith

pub pos_part-add : (a b : ℤ) → pos_part (a +ℤ b) ≤ pos_part a + pos_part b
unfolding ◌+ℤ◌
pos_part-add a b = ground arith

pub neg_part-add : (a b : ℤ) → neg_part (a +ℤ b) ≤ neg_part a + neg_part b
unfolding ◌+ℤ◌
neg_part-add a b = ground arith

pub add_int-parts :
    (a b : ℤ)
    → pos_part a + pos_part b < 2 ^ 31
    → neg_part a + neg_part b ≤ 2 ^ 31
    → add_int a b ≡ some (a +ℤ b)
unfolding add_int
add_int-parts a b p q =
    rw (fits_int-parts (a +ℤ b) (omega (arith, pos_part-add a b)) (omega (arith, neg_part-add a b)))

pub add_int-pred : (n : ℕ) → n < 2 ^ 31 → add_int (pos (suc n)) minus_one ≡ some (pos n)
unfolding add_int ◌+ℤ◌
add_int-pred n h = ground arith

pub add_int-pos : (a b : ℕ) → a + b < 2 ^ 31 → add_int (pos a) (pos b) ≡ some (pos (a + b))
add_int-pos a b h = rw (add_int-parts (pos a) (pos b) h (omega arith), pos-add a b)
