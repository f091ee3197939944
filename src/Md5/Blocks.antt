-- ===== src/Md5/Blocks.antt =====
-- The blocks that the loop of `md5_update` takes from its input (src/common/misc/md5.c).
use agilefs.Prelude.{
  ◌≤◌, ◌<◌, ◌≡◌, refl, ap, ◌∙◌, arith, Bool-cases, inl, inr, le→leb, lt→leb, ltb, ltb→lt, ltb→le,
  length-drop, take-append_le, ℕ, zero, suc, ◌+◌, ◌-◌, ◌*◌, ◌/◌, List, [], ◌∷◌, ◌++◌, length, take,
  drop,
}
use agilefs.Md5.{Words, md5_process, process_blocks}

-- `n` blocks, one after another.
abbrev pub whole : ℕ → Words → List ℕ → Words
whole zero v msg = v
whole (suc n) v msg = whole n (md5_process v (take 64 msg)) (drop 64 msg)

pub drop-drop : (a b : ℕ) (xs : List ℕ) → drop b (drop a xs) ≡ drop (a + b) xs
drop-drop zero b xs = let same : b ≡ 0 + b = omega arith in ap (λ n. drop n xs) same
drop-drop (suc a) zero [] = let same : suc a + 0 ≡ suc a = omega arith in rw same
drop-drop (suc a) (suc b) [] = let same : suc a + suc b ≡ suc (a + suc b) = omega arith in rw same
drop-drop (suc a) b (x ∷ xs) =
    let same : suc a + b ≡ suc (a + b) = omega arith in rw same (drop-drop a b xs)

pub drop-append_le : (n : ℕ) (xs ys : List ℕ) → n ≤ length xs → drop n (xs ++ ys) ≡ drop n xs ++ ys
drop-append_le zero xs ys le = refl
drop-append_le (suc n) [] ys le = absurd (omega arith)
drop-append_le (suc n) (x ∷ xs) ys le = drop-append_le n xs ys (omega arith)

pub whole-add :
    (n m : ℕ) (v : Words) (msg : List ℕ)
    → whole (n + m) v msg ≡ whole m (whole n v msg) (drop (64 * n) msg)
whole-add zero m v msg = let a : 0 + m ≡ m = omega arith in rw a
whole-add (suc n) m v msg =
    let a : suc n + m ≡ suc (n + m) = omega arith in
    let b : 64 * suc n ≡ 64 + 64 * n = omega arith in
    rw (a, b)
      (whole-add n m (md5_process v (take 64 msg)) (drop 64 msg)
        ∙ ap (whole m (whole n (md5_process v (take 64 msg)) (drop 64 msg)))
            (drop-drop 64 (64 * n) msg))

-- What follows the blocks does not matter.
pub whole-append :
    (n : ℕ) (v : Words) (xs ys : List ℕ) → 64 * n ≤ length xs → whole n v (xs ++ ys) ≡ whole n v xs
whole-append zero v xs ys le = refl
whole-append (suc n) v xs ys le =
    rw (take-append_le xs ys 64 (omega arith), drop-append_le 64 xs ys (omega arith))
      (whole-append n (md5_process v (take 64 xs)) (drop 64 xs) ys
        (omega (arith, length-drop 64 xs)))

-- The loop takes all the whole blocks, and leaves the rest.
pub process_blocks_lem :
    (rounds : ℕ) (v : Words) (input : List ℕ)
    → length input < 64 * rounds + 64
    → process_blocks rounds v input
      ≡ (whole (length input / 64) v input, drop (64 * (length input / 64)) input)
unfolding process_blocks
process_blocks_lem zero v input lt =
    let none_whole : length input / 64 ≡ 0 = omega arith in rw none_whole
process_blocks_lem (suc rounds) v input lt = elim (Bool-cases (ltb (length input) 64)) [
  | inl e ↦
      let short : length input < 64 = ltb→lt (length input) 64 e in
      let none_whole : length input / 64 ≡ 0 = omega arith in
      rw (process_blocks, lt→leb 64 (length input) short, none_whole)
  | inr e ↦
      let long : 64 ≤ length input = ltb→le (length input) 64 e in
      let rest : length (drop 64 input) ≡ length input - 64 = length-drop 64 input in
      let n : ℕ = length (drop 64 input) / 64 in
      let one_more : length input / 64 ≡ suc n = omega arith in
      let at : 64 + 64 * n ≡ 64 * suc n = omega arith in
      rw (process_blocks, le→leb 64 (length input) long, one_more)
        (process_blocks_lem rounds (md5_process v (take 64 input)) (drop 64 input) (omega arith)
          ∙ ap (λ tail. (whole n (md5_process v (take 64 input)) (drop 64 input), tail))
              (drop-drop 64 (64 * n) input ∙ ap (λ k. drop k input) at))
]
