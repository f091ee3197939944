-- ===== src/Md5/LowDigits.antt =====
-- The functions of the rounds of src/common/misc/md5.c on the last 32 digits of their words.
use agilefs.Prelude.{
  ℕ, zero, suc, ◌+◌, ◌*◌, ◌/◌, ◌%◌, ◌^◌, ◌<◌, ◌≡◌, refl, sym, ap, ap₂, ◌∙◌, arith,
}
use agilefs.Md5.{f1, f2, f3, f4}
use agilefs.Md5.Functions.{digit, rfc_f, rfc_g, rfc_h, rfc_i, rounds-rfc}
use agilefs.Md5.Compress.{on_digits}

-- The number of the last `k` digits.
abbrev low : ℕ → ℕ → ℕ
low zero n = 0
low (suc k) n = n % 2 + 2 * low k (n / 2)

low_lem : (n : ℕ) → low 32 n ≡ n % 2 ^ 32
low_lem n = omega arith

digit-low : (k j n : ℕ) → j < k → digit j (low k n) ≡ digit j n
digit-low zero j n lt = absurd (omega arith)
digit-low (suc k) zero n lt = omega arith
digit-low (suc k) (suc j) n lt =
    let half : (n % 2 + 2 * low k (n / 2)) / 2 ≡ low k (n / 2) = omega arith in
    rw half (digit-low k j (n / 2) (omega arith))

low-on_digits :
    (k n x y z : ℕ) (g : ℕ → ℕ → ℕ → ℕ)
    → ((j : ℕ) → j < k → digit j n ≡ g (digit j x) (digit j y) (digit j z))
    → low k n ≡ on_digits k g x y z
low-on_digits zero n x y z g h = refl
low-on_digits (suc k) n x y z g h =
    ap₂ (λ (d m : ℕ). d + 2 * m) (h 0 (omega arith))
      (low-on_digits k (n / 2) (x / 2) (y / 2) (z / 2) g (λ j lt. h (suc j) (omega arith)))

-- `f` is `g` on the last 32 digits.
abbrev pub Agrees : (ℕ → ℕ → ℕ → ℕ) → (ℕ → ℕ → ℕ → ℕ) → Type 0
Agrees f g =
    (x y z : ℕ)
    → z < 2 ^ 64
    → f x y z % 2 ^ 32 ≡ on_digits 32 g (x % 2 ^ 32) (y % 2 ^ 32) (z % 2 ^ 32)

digit-mod : (j n : ℕ) → j < 32 → digit j (n % 2 ^ 32) ≡ digit j n
digit-mod j n lt = ap (digit j) (sym (low_lem n)) ∙ digit-low 32 j n lt

from_digits :
    (f g : ℕ → ℕ → ℕ → ℕ)
    → ((x y z j : ℕ)
        → z < 2 ^ 64
        → j < 64
        → digit j (f x y z) ≡ g (digit j x) (digit j y) (digit j z))
    → Agrees f g
from_digits f g h x y z small =
    sym (low_lem (f x y z))
    ∙ low-on_digits 32 (f x y z) (x % 2 ^ 32) (y % 2 ^ 32) (z % 2 ^ 32) g (λ j lt.
      rw (digit-mod j x lt, digit-mod j y lt, digit-mod j z lt) (h x y z j small (omega arith)))

pub low_f : Agrees f1 rfc_f
low_f =
    from_digits f1 rfc_f (λ x y z j small lt. let (f, g, h, i) = rounds-rfc x y z j small lt in f)

pub low_g : Agrees f2 rfc_g
low_g =
    from_digits f2 rfc_g (λ x y z j small lt. let (f, g, h, i) = rounds-rfc x y z j small lt in g)

pub low_h : Agrees f3 rfc_h
low_h =
    from_digits f3 rfc_h (λ x y z j small lt. let (f, g, h, i) = rounds-rfc x y z j small lt in h)

pub low_i : Agrees f4 rfc_i
low_i =
    from_digits f4 rfc_i (λ x y z j small lt. let (f, g, h, i) = rounds-rfc x y z j small lt in i)
