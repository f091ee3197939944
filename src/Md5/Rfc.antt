-- ===== src/Md5/Rfc.antt =====
-- `md5` (src/common/misc/md5.c) is the digest of RFC 1321.
use agilefs.Prelude.{
  ℕ, zero, suc, ◌/◌, ◌%◌, ◌^◌, ◌<◌, ◌≡◌, refl, ap, ap₂, ◌∙◌, arith, List, [], ◌∷◌, ◌++◌, length,
  take, drop,
}
use agilefs.Md5.{Words, md5_process, md5}
use agilefs.Md5.Blocks.{whole}
use agilefs.Md5.Compress.{rfc_process}
use agilefs.Md5.Rounds.{low_words, AreSmall, process-low}
use agilefs.Md5.Reference.{start_words, little_endian, padded, md5_pads}

process-AreSmall : (v : Words) (block : List ℕ) → AreSmall (md5_process v block)
unfolding md5_process
process-AreSmall v block = record { b = omega arith; c = omega arith; d = omega arith }

-- RFC 1321: each block of a padded message in turn.
abbrev pub rfc_blocks : ℕ → Words → List ℕ → Words
rfc_blocks zero w msg = w
rfc_blocks (suc n) w msg = rfc_blocks n (rfc_process w (take 64 msg)) (drop 64 msg)

blocks-low :
    (n : ℕ) (v : Words) (msg : List ℕ)
    → AreSmall v
    → low_words (whole n v msg) ≡ rfc_blocks n (low_words v) msg
blocks-low zero v msg small = refl
blocks-low (suc n) v msg small =
    blocks-low n (md5_process v (take 64 msg)) (drop 64 msg) (process-AreSmall v (take 64 msg))
    ∙ ap (λ w. rfc_blocks n w (drop 64 msg)) (process-low v (take 64 msg) small)

-- The digest: the four words, lowest byte first.
abbrev pub rfc_md5 : List ℕ → List ℕ
rfc_md5 msg =
    let w = rfc_blocks (length (padded msg) / 64) start_words (padded msg) in
    little_endian 4 w.a ++ (little_endian 4 w.b ++ (little_endian 4 w.c ++ little_endian 4 w.d))

bytes-low : (n : ℕ) → little_endian 4 n ≡ little_endian 4 (n % 2 ^ 32)
bytes-low n =
    let b0 : n % 256 ≡ n % 2 ^ 32 % 256 = omega arith in
    let b1 : n / 256 % 256 ≡ n % 2 ^ 32 / 256 % 256 = omega arith in
    let b2 : n / 256 / 256 % 256 ≡ n % 2 ^ 32 / 256 / 256 % 256 = omega arith in
    let b3 : n / 256 / 256 / 256 % 256 ≡ n % 2 ^ 32 / 256 / 256 / 256 % 256 = omega arith in
    λ i. b0 i ∷ b1 i ∷ b2 i ∷ b3 i ∷ []

digest-low :
    (v w : Words)
    → low_words v ≡ w
    → little_endian 4 v.a ++ (little_endian 4 v.b ++ (little_endian 4 v.c ++ little_endian 4 v.d))
      ≡ little_endian 4 w.a ++ (little_endian 4 w.b ++ (little_endian 4 w.c ++ little_endian 4 w.d))
digest-low v w e =
    ap₂ (λ x y. x ++ y) (bytes-low v.a ∙ ap (λ u. little_endian 4 u.a) e)
      (ap₂ (λ x y. x ++ y) (bytes-low v.b ∙ ap (λ u. little_endian 4 u.b) e)
        (ap₂ (λ x y. x ++ y) (bytes-low v.c ∙ ap (λ u. little_endian 4 u.c) e)
          (bytes-low v.d ∙ ap (λ u. little_endian 4 u.d) e)))

-- `md5` of a message shorter than 2 ^ 29 bytes is its digest by RFC 1321, whose compression is written
-- out on words of 32 bits: the functions digit by digit, the circular shifts, the table of sines, and
-- the order of the words of a block by its formulas.
pub md5_is_rfc : (msg : List ℕ) → length msg < 2 ^ 29 → md5 msg ≡ rfc_md5 msg
md5_is_rfc msg small =
    md5_pads msg small
    ∙ digest-low (whole (length (padded msg) / 64) start_words (padded msg))
        (rfc_blocks (length (padded msg) / 64) start_words (padded msg))
        (blocks-low (length (padded msg) / 64) start_words (padded msg)
          (record { b = omega arith; c = omega arith; d = omega arith }))
