-- ===== src/Md5/Rounds.antt =====
-- `md5_process` (src/common/misc/md5.c) on words of 64 bits has the compression of RFC 1321 in the last
-- 32 digits.
use agilefs.Prelude.{ℕ, ◌+◌, ◌*◌, ◌%◌, ◌^◌, ◌<◌, ◌≡◌, refl, ap, ◌∙◌, arith, List, [], ◌∷◌}
use agilefs.Md5.{
  Words, f1, f2, f3, f4, rotate, ulong, get_ulong_le, md5_step, md5_round, md5_process,
}
use agilefs.Md5.Steps.{Step, first_round, second_round, third_round, fourth_round}
use agilefs.Md5.Functions.{rfc_f, rfc_g, rfc_h, rfc_i}
use agilefs.Md5.LowDigits.{Agrees, low_f, low_g, low_h, low_i}
use agilefs.Md5.Compress.{on_digits, word_at, rotated, rfc_step, rfc_round, rfc_process}
use agilefs.Md5.Rotations.{
  Rotates, shift_7, shift_12, shift_17, shift_22, shift_5, shift_9, shift_14, shift_20, shift_4,
  shift_11, shift_16, shift_23, shift_6, shift_10, shift_15, shift_21,
}

-- The last 32 digits of the words.
abbrev pub low_words : Words → Words
low_words v = record { a = v.a % 2 ^ 32; b = v.b % 2 ^ 32; c = v.c % 2 ^ 32; d = v.d % 2 ^ 32 }

pub record AreSmall (v : Words) : Type 0 where
  pub b : v.b < 2 ^ 64
  pub c : v.c < 2 ^ 64
  pub d : v.d < 2 ^ 64

word-eq : (block : List ℕ) (k : ℕ) → get_ulong_le block (4 * k) ≡ word_at block k
unfolding get_ulong_le
word-eq block k = omega arith

sum-eq :
    (a f x t g : ℕ)
    → f % 2 ^ 32 ≡ g
    → ulong (a + (f + x + t)) % 2 ^ 32 ≡ (a % 2 ^ 32 + g + x + t) % 2 ^ 32
sum-eq a f x t g e = omega arith

add-eq : (r b w : ℕ) → r % 2 ^ 32 ≡ w → ulong (r + b) % 2 ^ 32 ≡ (b % 2 ^ 32 + w) % 2 ^ 32
add-eq r b w e = omega arith

-- The shift of every step.
abbrev AllRotate : List Step → Type 0
AllRotate [] = Unit
AllRotate ((k, s, t) ∷ xs) = Rotates s × AllRotate xs

module _ (f g : ℕ → ℕ → ℕ → ℕ) (ag : Agrees f g) (block : List ℕ) where
  step-low :
      (v : Words) (k s t : ℕ)
      → AreSmall v
      → Rotates s
      → low_words (md5_step f block v (k, s, t)) ≡ rfc_step g block (low_words v) (k, s, t)
  unfolding md5_step
  step-low v k s t small rot =
      let sum : ℕ = ulong (v.a + (f v.b v.c v.d + get_ulong_le block (4 * k) + t)) in
      let next : ℕ =
        (v.a % 2 ^ 32
          + on_digits 32 g (v.b % 2 ^ 32) (v.c % 2 ^ 32) (v.d % 2 ^ 32)
          + word_at block k
          + t)
        % 2 ^ 32 in
      let sums : sum % 2 ^ 32 ≡ next =
        sum-eq v.a (f v.b v.c v.d) (get_ulong_le block (4 * k)) t
          (on_digits 32 g (v.b % 2 ^ 32) (v.c % 2 ^ 32) (v.d % 2 ^ 32)) (ag v.b v.c v.d small.d)
        ∙ ap
            (λ (x : ℕ).
              (v.a % 2 ^ 32 + on_digits 32 g (v.b % 2 ^ 32) (v.c % 2 ^ 32) (v.d % 2 ^ 32) + x + t)
              % 2 ^ 32)
            (word-eq block k) in
      ap (λ (b : ℕ). record { a = v.d % 2 ^ 32; b = b; c = v.b % 2 ^ 32; d = v.c % 2 ^ 32 })
        (add-eq (rotate sum s) v.b (rotated next s) (rot sum ∙ ap (λ (n : ℕ). rotated n s) sums))

  step-AreSmall : (v : Words) (k s t : ℕ) → AreSmall v → AreSmall (md5_step f block v (k, s, t))
  unfolding md5_step
  step-AreSmall v k s t small =
      let sum : ℕ = ulong (v.a + (f v.b v.c v.d + get_ulong_le block (4 * k) + t)) in
      let b_small : ulong (rotate sum s + v.b) < 2 ^ 64 = omega arith in
      record { b = b_small; c = small.b; d = small.c }

  round-low :
      (xs : List Step) (v : Words)
      → AreSmall v
      → AllRotate xs
      → (low_words (md5_round f block v xs) ≡ rfc_round g block (low_words v) xs)
        × AreSmall (md5_round f block v xs)
  unfolding md5_round
  round-low [] v small all = (refl, small)
  round-low ((k, s, t) ∷ xs) v small (rot, all) =
      let (later, small') =
        round-low xs (md5_step f block v (k, s, t)) (step-AreSmall v k s t small) all in
      (later ∙ ap (λ w. rfc_round g block w xs) (step-low v k s t small rot), small')

all_first : AllRotate first_round
all_first = (
  shift_7,
  (
    shift_12,
    (
      shift_17,
      (
        shift_22,
        (
          shift_7,
          (
            shift_12,
            (
              shift_17,
              (
                shift_22,
                (
                  shift_7,
                  (
                    shift_12,
                    (shift_17, (shift_22, (shift_7, (shift_12, (shift_17, (shift_22, tt)))))),
                  ),
                ),
              ),
            ),
          ),
        ),
      ),
    ),
  ),
)

all_second : AllRotate second_round
all_second = (
  shift_5,
  (
    shift_9,
    (
      shift_14,
      (
        shift_20,
        (
          shift_5,
          (
            shift_9,
            (
              shift_14,
              (
                shift_20,
                (
                  shift_5,
                  (
                    shift_9,
                    (shift_14, (shift_20, (shift_5, (shift_9, (shift_14, (shift_20, tt)))))),
                  ),
                ),
              ),
            ),
          ),
        ),
      ),
    ),
  ),
)

all_third : AllRotate third_round
all_third = (
  shift_4,
  (
    shift_11,
    (
      shift_16,
      (
        shift_23,
        (
          shift_4,
          (
            shift_11,
            (
              shift_16,
              (
                shift_23,
                (
                  shift_4,
                  (
                    shift_11,
                    (shift_16, (shift_23, (shift_4, (shift_11, (shift_16, (shift_23, tt)))))),
                  ),
                ),
              ),
            ),
          ),
        ),
      ),
    ),
  ),
)

all_fourth : AllRotate fourth_round
all_fourth = (
  shift_6,
  (
    shift_10,
    (
      shift_15,
      (
        shift_21,
        (
          shift_6,
          (
            shift_10,
            (
              shift_15,
              (
                shift_21,
                (
                  shift_6,
                  (
                    shift_10,
                    (shift_15, (shift_21, (shift_6, (shift_10, (shift_15, (shift_21, tt)))))),
                  ),
                ),
              ),
            ),
          ),
        ),
      ),
    ),
  ),
)

total-eq : (a b w : ℕ) → b % 2 ^ 32 ≡ w → ulong (a + b) % 2 ^ 32 ≡ (a % 2 ^ 32 + w) % 2 ^ 32
total-eq a b w e = omega arith

totals-eq :
    (v v4 w4 : Words)
    → low_words v4 ≡ w4
    → low_words (record {
      a = ulong (v.a + v4.a);
      b = ulong (v.b + v4.b);
      c = ulong (v.c + v4.c);
      d = ulong (v.d + v4.d);
    })
      ≡ record {
        a = (v.a % 2 ^ 32 + w4.a) % 2 ^ 32;
        b = (v.b % 2 ^ 32 + w4.b) % 2 ^ 32;
        c = (v.c % 2 ^ 32 + w4.c) % 2 ^ 32;
        d = (v.d % 2 ^ 32 + w4.d) % 2 ^ 32;
      }
totals-eq v v4 w4 e = λ i. record {
  a = total-eq v.a v4.a w4.a (ap (λ w. w.a) e) i;
  b = total-eq v.b v4.b w4.b (ap (λ w. w.b) e) i;
  c = total-eq v.c v4.c w4.c (ap (λ w. w.c) e) i;
  d = total-eq v.d v4.d w4.d (ap (λ w. w.d) e) i;
}

pub process-low :
    (v : Words) (block : List ℕ)
    → AreSmall v
    → low_words (md5_process v block) ≡ rfc_process (low_words v) block
unfolding md5_process
process-low v block small =
    let v1 = md5_round f1 block v first_round in
    let v2 = md5_round f2 block v1 second_round in
    let v3 = md5_round f3 block v2 third_round in
    let (e1, s1) = round-low f1 rfc_f low_f block first_round v small all_first in
    let (e2, s2) = round-low f2 rfc_g low_g block second_round v1 s1 all_second in
    let (e3, s3) = round-low f3 rfc_h low_h block third_round v2 s2 all_third in
    let (e4, s4) = round-low f4 rfc_i low_i block fourth_round v3 s3 all_fourth in
    totals-eq v (md5_round f4 block v3 fourth_round) _ (
      e4
      ∙ ap (λ w. rfc_round rfc_i block w fourth_round)
          (e3
            ∙ ap (λ w. rfc_round rfc_h block w third_round)
                (e2 ∙ ap (λ w. rfc_round rfc_g block w second_round) e1)))
