-- ===== src/Md5/Rotations.antt =====
-- The circular shifts of src/common/misc/md5.c, for the sixteen distances that the rounds have.
use agilefs.Prelude.{ℕ, zero, suc, ◌+◌, ◌*◌, ◌/◌, ◌%◌, ◌^◌, ◌≤◌, ◌≡◌, refl, ◌∙◌, arith, bit_or}
use agilefs.Md5.{rotate, ulong}
use agilefs.Md5.Functions.{or-step}
use agilefs.Md5.Compress.{rotated}

-- The digits of `b` are below those of `a`.
abbrev Below : ℕ → ℕ → ℕ → Type 0
Below zero a b = b ≡ 0
Below (suc n) a b = (a % 2 ≡ 0) × Below n (a / 2) (b / 2)

or-zero : (fuel a : ℕ) → a ≤ fuel → bit_or a 0 ≡ a
or-zero zero a le = let z : a ≡ 0 = omega arith in rw z refl
or-zero (suc fuel) a le =
    let half : bit_or (a / 2) (0 / 2) ≡ a / 2 = or-zero fuel (a / 2) (omega arith) in
    or-step a 0 ∙ rw half (omega arith)

or-Below : (n a b : ℕ) → Below n a b → bit_or a b ≡ a + b
or-Below zero a b h = rw h (or-zero a a (omega arith) ∙ omega arith)
or-Below (suc n) a b (even, h) =
    let half : bit_or (a / 2) (b / 2) ≡ a / 2 + b / 2 = or-Below n (a / 2) (b / 2) h in
    or-step a b ∙ rw (half, even) (omega arith)

-- `S(x, s)` is the circular shift of the last 32 digits.
abbrev pub Rotates : ℕ → Type 0
Rotates s = (x : ℕ) → rotate x s % 2 ^ 32 ≡ rotated (x % 2 ^ 32) s

pub shift_7 : Rotates 7
unfolding rotate
shift_7 x =
    let below : Below 7 (ulong (x * 2 ^ 7)) (x % 2 ^ 32 / 2 ^ 25) = ground arith in
    rw (or-Below 7 (ulong (x * 2 ^ 7)) (x % 2 ^ 32 / 2 ^ 25) below) (omega arith)

pub shift_12 : Rotates 12
unfolding rotate
shift_12 x =
    let below : Below 12 (ulong (x * 2 ^ 12)) (x % 2 ^ 32 / 2 ^ 20) = ground arith in
    rw (or-Below 12 (ulong (x * 2 ^ 12)) (x % 2 ^ 32 / 2 ^ 20) below) (omega arith)

pub shift_17 : Rotates 17
unfolding rotate
shift_17 x =
    let below : Below 17 (ulong (x * 2 ^ 17)) (x % 2 ^ 32 / 2 ^ 15) = ground arith in
    rw (or-Below 17 (ulong (x * 2 ^ 17)) (x % 2 ^ 32 / 2 ^ 15) below) (omega arith)

pub shift_22 : Rotates 22
unfolding rotate
shift_22 x =
    let below : Below 22 (ulong (x * 2 ^ 22)) (x % 2 ^ 32 / 2 ^ 10) = ground arith in
    rw (or-Below 22 (ulong (x * 2 ^ 22)) (x % 2 ^ 32 / 2 ^ 10) below) (omega arith)

pub shift_5 : Rotates 5
unfolding rotate
shift_5 x =
    let below : Below 5 (ulong (x * 2 ^ 5)) (x % 2 ^ 32 / 2 ^ 27) = ground arith in
    rw (or-Below 5 (ulong (x * 2 ^ 5)) (x % 2 ^ 32 / 2 ^ 27) below) (omega arith)

pub shift_9 : Rotates 9
unfolding rotate
shift_9 x =
    let below : Below 9 (ulong (x * 2 ^ 9)) (x % 2 ^ 32 / 2 ^ 23) = ground arith in
    rw (or-Below 9 (ulong (x * 2 ^ 9)) (x % 2 ^ 32 / 2 ^ 23) below) (omega arith)

pub shift_14 : Rotates 14
unfolding rotate
shift_14 x =
    let below : Below 14 (ulong (x * 2 ^ 14)) (x % 2 ^ 32 / 2 ^ 18) = ground arith in
    rw (or-Below 14 (ulong (x * 2 ^ 14)) (x % 2 ^ 32 / 2 ^ 18) below) (omega arith)

pub shift_20 : Rotates 20
unfolding rotate
shift_20 x =
    let below : Below 20 (ulong (x * 2 ^ 20)) (x % 2 ^ 32 / 2 ^ 12) = ground arith in
    rw (or-Below 20 (ulong (x * 2 ^ 20)) (x % 2 ^ 32 / 2 ^ 12) below) (omega arith)

pub shift_4 : Rotates 4
unfolding rotate
shift_4 x =
    let below : Below 4 (ulong (x * 2 ^ 4)) (x % 2 ^ 32 / 2 ^ 28) = ground arith in
    rw (or-Below 4 (ulong (x * 2 ^ 4)) (x % 2 ^ 32 / 2 ^ 28) below) (omega arith)

pub shift_11 : Rotates 11
unfolding rotate
shift_11 x =
    let below : Below 11 (ulong (x * 2 ^ 11)) (x % 2 ^ 32 / 2 ^ 21) = ground arith in
    rw (or-Below 11 (ulong (x * 2 ^ 11)) (x % 2 ^ 32 / 2 ^ 21) below) (omega arith)

pub shift_16 : Rotates 16
unfolding rotate
shift_16 x =
    let below : Below 16 (ulong (x * 2 ^ 16)) (x % 2 ^ 32 / 2 ^ 16) = ground arith in
    rw (or-Below 16 (ulong (x * 2 ^ 16)) (x % 2 ^ 32 / 2 ^ 16) below) (omega arith)

pub shift_23 : Rotates 23
unfolding rotate
shift_23 x =
    let below : Below 23 (ulong (x * 2 ^ 23)) (x % 2 ^ 32 / 2 ^ 9) = ground arith in
    rw (or-Below 23 (ulong (x * 2 ^ 23)) (x % 2 ^ 32 / 2 ^ 9) below) (omega arith)

pub shift_6 : Rotates 6
unfolding rotate
shift_6 x =
    let below : Below 6 (ulong (x * 2 ^ 6)) (x % 2 ^ 32 / 2 ^ 26) = ground arith in
    rw (or-Below 6 (ulong (x * 2 ^ 6)) (x % 2 ^ 32 / 2 ^ 26) below) (omega arith)

pub shift_10 : Rotates 10
unfolding rotate
shift_10 x =
    let below : Below 10 (ulong (x * 2 ^ 10)) (x % 2 ^ 32 / 2 ^ 22) = ground arith in
    rw (or-Below 10 (ulong (x * 2 ^ 10)) (x % 2 ^ 32 / 2 ^ 22) below) (omega arith)

pub shift_15 : Rotates 15
unfolding rotate
shift_15 x =
    let below : Below 15 (ulong (x * 2 ^ 15)) (x % 2 ^ 32 / 2 ^ 17) = ground arith in
    rw (or-Below 15 (ulong (x * 2 ^ 15)) (x % 2 ^ 32 / 2 ^ 17) below) (omega arith)

pub shift_21 : Rotates 21
unfolding rotate
shift_21 x =
    let below : Below 21 (ulong (x * 2 ^ 21)) (x % 2 ^ 32 / 2 ^ 11) = ground arith in
    rw (or-Below 21 (ulong (x * 2 ^ 21)) (x % 2 ^ 32 / 2 ^ 11) below) (omega arith)
