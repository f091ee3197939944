-- ===== src/Md5/Tests.antt =====
-- The test vectors of RFC 1321 for `md5`.
use agilefs.Prelude.{arith, replicate, true, [], ◌∷◌, ◌≡◌, refl, some, false}
use agilefs.Md5.Reference.{joined, md5_file-md5}
use agilefs.Md5.Rfc.{rfc_md5, md5_is_rfc}
use agilefs.Md5.Functions.{digit, rfc_f, rfc_g, rfc_h, rfc_i, rounds-rfc}
use agilefs.Md5.{f1, f2, f3, f4, md5, md5_file, update_all}

md5_empty :
    md5 []
    ≡ 0xd4 ∷ 0x1d ∷ 0x8c ∷ 0xd9 ∷ 0x8f ∷ 0x00 ∷ 0xb2 ∷ 0x04 ∷ 0xe9 ∷ 0x80 ∷ 0x09 ∷ 0x98 ∷ 0xec
      ∷ 0xf8 ∷ 0x42 ∷ 0x7e ∷ []
unfolding md5
md5_empty = refl

md5_abc :
    md5 (b'a' ∷ b'b' ∷ b'c' ∷ [])
    ≡ 0x90 ∷ 0x01 ∷ 0x50 ∷ 0x98 ∷ 0x3c ∷ 0xd2 ∷ 0x4f ∷ 0xb0 ∷ 0xd6 ∷ 0x96 ∷ 0x3f ∷ 0x7d ∷ 0x28
      ∷ 0xe1 ∷ 0x7f ∷ 0x72 ∷ []
unfolding md5
md5_abc = refl

-- The digest of a file that is read in two parts.
md5_file_parts :
    md5_file (some ((b'a' ∷ []) ∷ (b'b' ∷ b'c' ∷ []) ∷ [])) false
    ≡ (0, some (md5 (b'a' ∷ b'b' ∷ b'c' ∷ [])))
unfolding md5 md5_file update_all
md5_file_parts = refl

-- The padded message is one block for `abc`.
md5_is_rfc_example : md5 (b'a' ∷ b'b' ∷ b'c' ∷ []) ≡ rfc_md5 (b'a' ∷ b'b' ∷ b'c' ∷ [])
md5_is_rfc_example = md5_is_rfc (b'a' ∷ b'b' ∷ b'c' ∷ []) (omega arith)

md5_file-md5_example :
    md5_file (some (replicate 100 1 ∷ replicate 60 2 ∷ [] ∷ replicate 9 3 ∷ [])) true
    ≡ (2, some (md5 (joined (replicate 100 1 ∷ replicate 60 2 ∷ [] ∷ replicate 9 3 ∷ []))))
md5_file-md5_example =
    md5_file-md5 (replicate 100 1 ∷ replicate 60 2 ∷ [] ∷ replicate 9 3 ∷ []) true (omega arith)

-- The last digit of the initial words.
rounds-rfc_example :
    (digit 0 (f1 0xefcd_ab89 0x98ba_dcfe 0x1032_5476) ≡ rfc_f 1 0 0)
    × (digit 0 (f2 0xefcd_ab89 0x98ba_dcfe 0x1032_5476) ≡ rfc_g 1 0 0)
    × (digit 0 (f3 0xefcd_ab89 0x98ba_dcfe 0x1032_5476) ≡ rfc_h 1 0 0)
    × (digit 0 (f4 0xefcd_ab89 0x98ba_dcfe 0x1032_5476) ≡ rfc_i 1 0 0)
rounds-rfc_example = rounds-rfc 0xefcd_ab89 0x98ba_dcfe 0x1032_5476 0 (omega arith) (omega arith)
