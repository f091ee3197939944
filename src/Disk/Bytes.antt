-- ===== src/Disk/Bytes.antt =====
-- The bytes of a chunk file (src/server/chunks-io.c), read and written at offsets.
use native.Mathlib.Nat.{add-zero}
use agilefs.Prelude.{
  ℕ, zero, suc, ◌+◌, ◌-◌, ◌≤◌, ◌<◌, ◌≡◌, ◌⊎◌, inl, inr, refl, sym, ap, ap₂, ◌∙◌, arith, List, [],
  ◌∷◌, length, get_or, take, drop, ltb, false, if◌then◌else◌, lt→ltb, le→ltb,
}

abbrev pub read_bytes : (ℕ → ℕ) → ℕ → ℕ → List ℕ
read_bytes f zero o = []
read_bytes f (suc n) o = f o ∷ read_bytes f n (o + 1)

-- `buf` over the bytes from offset `o` on.
abbrev pub put_bytes : (ℕ → ℕ) → List ℕ → ℕ → ℕ → ℕ
put_bytes f buf o i = if ltb i o then f i else get_or buf (i - o) (f i)

pub length-read : (f : ℕ → ℕ) (n o : ℕ) → length (read_bytes f n o) ≡ n
length-read f zero o = refl
length-read f (suc n) o = ap suc (length-read f n (o + 1))

pub read-cong :
    (f g : ℕ → ℕ) (n o : ℕ)
    → ((i : ℕ) → o ≤ i → i < o + n → f i ≡ g i)
    → read_bytes f n o ≡ read_bytes g n o
read-cong f g zero o h = refl
read-cong f g (suc n) o h =
    ap₂ (λ x xs. x ∷ xs) (h o (omega arith) (omega arith))
      (read-cong f g n (o + 1) (λ i a b. h i (omega arith) (omega arith)))

get_or-ge : (xs : List ℕ) (i d : ℕ) → length xs ≤ i → get_or xs i d ≡ d
get_or-ge [] i d h = refl
get_or-ge (x ∷ xs) zero d h = absurd (omega arith)
get_or-ge (x ∷ xs) (suc i) d h = get_or-ge xs i d (omega arith)

read_list :
    (g : ℕ → ℕ) (buf : List ℕ) (o : ℕ)
    → ((i : ℕ) → i < length buf → g (o + i) ≡ get_or buf i (g (o + i)))
    → read_bytes g (length buf) o ≡ buf
read_list g [] o h = refl
read_list g (x ∷ xs) o h =
    ap₂ (λ y ys. y ∷ ys) (rw add-zero at (h 0 (omega arith)))
      (read_list g xs (o + 1)
        (λ i lt. let e : o + 1 + i ≡ o + suc i = omega arith in rw e (h (suc i) (omega arith))))

get_or-default : (xs : List ℕ) (i d e : ℕ) → i < length xs → get_or xs i d ≡ get_or xs i e
get_or-default [] i d e h = absurd (omega arith)
get_or-default (x ∷ xs) zero d e h = refl
get_or-default (x ∷ xs) (suc i) d e h = get_or-default xs i d e (omega arith)

pub read-put :
    (f : ℕ → ℕ) (buf : List ℕ) (o : ℕ) → read_bytes (put_bytes f buf o) (length buf) o ≡ buf
read-put f buf o = read_list (put_bytes f buf o) buf o (λ i lt.
    let ge : ltb (o + i) o ≡ false = le→ltb (o + i) o (omega arith) in
    let at : o + i - o ≡ i = omega arith in rw (ge, at) (get_or-default buf i _ _ lt))

pub read-put_apart :
    (f : ℕ → ℕ) (buf : List ℕ) (o n o' : ℕ)
    → (o + length buf ≤ o') ⊎ (o' + n ≤ o)
    → read_bytes (put_bytes f buf o) n o' ≡ read_bytes f n o'
read-put_apart f buf o n o' (inl h) =
    read-cong (put_bytes f buf o) f n o'
      (λ i a b. rw (le→ltb i o (omega arith)) (get_or-ge buf (i - o) (f i) (omega arith)))
read-put_apart f buf o n o' (inr h) =
    read-cong (put_bytes f buf o) f n o' (λ i a b. rw (lt→ltb i o (omega arith)))

take-read : (f : ℕ → ℕ) (m n o : ℕ) → n ≤ m → take n (read_bytes f m o) ≡ read_bytes f n o
take-read f m zero o h = refl
take-read f zero (suc n) o h = absurd (omega arith)
take-read f (suc m) (suc n) o h = ap (λ xs. f o ∷ xs) (take-read f m n (o + 1) (omega arith))

drop-read : (f : ℕ → ℕ) (m a o : ℕ) → drop a (read_bytes f m o) ≡ read_bytes f (m - a) (o + a)
drop-read f m zero o =
    let e : o ≡ o + 0 = omega arith in let d : m ≡ m - 0 = omega arith in ap₂ (read_bytes f) d e
drop-read f zero (suc a) o =
    let e : 0 ≡ 0 - suc a = omega arith in ap (λ (m : ℕ). read_bytes f m (o + suc a)) e
drop-read f (suc m) (suc a) o =
    let e : o + 1 + a ≡ o + suc a = omega arith in
    let d : m - a ≡ suc m - suc a = omega arith in drop-read f m a (o + 1) ∙ ap₂ (read_bytes f) d e

pub read-part :
    (f : ℕ → ℕ) (m o a n : ℕ)
    → a + n ≤ m
    → read_bytes f n (o + a) ≡ take n (drop a (read_bytes f m o))
read-part f m o a n h =
    sym (ap (take n) (drop-read f m a o) ∙ take-read f (m - a) n (o + a) (omega arith))
