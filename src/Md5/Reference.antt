-- ===== src/Md5/Reference.antt =====
-- The blocks of MD5: the message is padded to whole blocks as RFC 1321 has it, and `md5_process` is
-- called for each. `md5` and `md5_file` (src/common/misc/md5.c) give this digest, in whatever parts the
-- message comes. What `md5_process` computes for a block is run on published digests in the tests.
use agilefs.Prelude.{
  ◌≤◌, ◌<◌, ◌≡◌, refl, sym, ap, ap₂, ◌∙◌, arith, Bool-cases, inl, inr, le→ltb, ltb, ltb→lt, ltb→le,
  length-drop, length-append, length-replicate, append-nil, append_assoc, ℕ, zero, suc, ◌+◌, ◌-◌,
  ◌*◌, ◌/◌, ◌%◌, ◌^◌, bit_or, if◌then◌else◌, Bool, some, List, [], ◌∷◌, ◌++◌, length, take, drop,
  replicate,
}
use agilefs.Md5.{
  md5_process, copy_at, Words, Md5Context, ulong, md5_starts, put_ulong_le, count_bytes,
  update_rest, md5_update, md5_padding, padn, md5_pad, md5_finish, md5, update_all, md5_file,
}
use agilefs.Md5.Blocks.{whole, drop-drop, drop-append_le, whole-add, whole-append}
use agilefs.Md5.Update.{Holds-cong, Absorbs, update-Absorbs, rest-eq, fills-eq, empty-eq, fits-eq}

abbrev pub start_words : Words
start_words = record { a = 0x6745_2301; b = 0xefcd_ab89; c = 0x98ba_dcfe; d = 0x1032_5476 }

abbrev pub little_endian : ℕ → ℕ → List ℕ
little_endian zero n = []
little_endian (suc k) n = n % 256 ∷ little_endian k (n / 256)

-- The message, a byte 0x80, zeros up to 8 bytes before the end of a block, and the number of bits.
abbrev pub padded : List ℕ → List ℕ
padded msg =
    (msg ++ (0x80 ∷ replicate ((119 - length msg % 64) % 64) 0)) ++ little_endian 8 (8 * length msg)

-- The digest of a message: `md5_process` from the initial words on, over the blocks of the padded
-- message.
abbrev pub blockwise_md5 : List ℕ → List ℕ
blockwise_md5 msg =
    let v = whole (length (padded msg) / 64) start_words (padded msg) in
    little_endian 4 v.a ++ (little_endian 4 v.b ++ (little_endian 4 v.c ++ little_endian 4 v.d))

-- The context has taken in `msg`.
record Reads (ctx : Md5Context) (msg : List ℕ) : Type 0 where
  held : Absorbs ctx start_words msg
  low : ctx.total0 ≡ length msg
  high : ctx.total1 ≡ 0

start-Reads : (garbage : List ℕ) → length garbage ≡ 64 → Reads (md5_starts garbage) []
unfolding md5_starts
start-Reads garbage room = record {
  held = record { state = refl; room = room; short = omega arith; count = refl; kept = refl };
  low = refl;
  high = refl;
}

rest-totals :
    (ctx : Md5Context) (left : ℕ) (input : List ℕ)
    → ((update_rest ctx left input).total0 ≡ ctx.total0)
      × ((update_rest ctx left input).total1 ≡ ctx.total1)
rest-totals ctx left input =
    (ap (λ c. c.total0) (rest-eq ctx left input), ap (λ c. c.total1) (rest-eq ctx left input))

update-totals :
    (ctx : Md5Context) (x : ℕ) (xs : List ℕ)
    → ((md5_update ctx (x ∷ xs)).total0 ≡ (count_bytes ctx (length (x ∷ xs))).total0)
      × ((md5_update ctx (x ∷ xs)).total1 ≡ (count_bytes ctx (length (x ∷ xs))).total1)
update-totals ctx x xs =
    let n : ℕ = length (x ∷ xs) in
    elim (Bool-cases (ltb 0 (ctx.total0 % 64))) [
      | inr e ↦
          rw (empty-eq ctx x xs (omega (arith, ltb→le 0 (ctx.total0 % 64) e)))
            (rest-totals (count_bytes ctx n) 0 (x ∷ xs))
      | inl e ↦ elim (Bool-cases (ltb n (64 - ctx.total0 % 64))) [
        | inl few ↦
            rw (fits-eq ctx x xs (ltb→lt _ _ few))
              (rest-totals (count_bytes ctx n) (ctx.total0 % 64) (x ∷ xs))
        | inr enough ↦ rw (fills-eq ctx x xs (ltb→lt _ _ e) (ltb→le _ _ enough)) (
            rest-totals
              (record (count_bytes ctx n) {
                state =
                    md5_process ctx.state
                      (copy_at ctx.buffer (ctx.total0 % 64) (take (64 - ctx.total0 % 64) (x ∷ xs)));
                buffer =
                    copy_at ctx.buffer (ctx.total0 % 64) (take (64 - ctx.total0 % 64) (x ∷ xs));
              })
              0 (drop (64 - ctx.total0 % 64) (x ∷ xs)))
      ]
    ]

-- The totals below 2 ^ 32, which do not wrap.
count_bytes_lem :
    (ctx : Md5Context) (n m : ℕ)
    → ctx.total0 ≡ m
    → ctx.total1 ≡ 0
    → m + n < 2 ^ 32
    → ((count_bytes ctx n).total0 ≡ m + n) × ((count_bytes ctx n).total1 ≡ 0)
unfolding count_bytes
count_bytes_lem ctx n m e h small =
    let low : ulong (ctx.total0 + n) % 2 ^ 32 ≡ m + n = omega arith in
    (low, rw (low, le→ltb (m + n) n (omega arith)) h)

extend-Absorbs :
    (ctx : Md5Context) (v : Words) (msg xs : List ℕ)
    → Absorbs ctx (whole (length msg / 64) v msg) (drop (64 * (length msg / 64)) msg ++ xs)
    → Absorbs ctx v (msg ++ xs)
extend-Absorbs ctx v msg xs h =
    let q : ℕ = length msg / 64 in
    let tail : List ℕ = drop (64 * q) msg in
    let n : ℕ = length (tail ++ xs) / 64 in
    let rest : drop (64 * q) (msg ++ xs) ≡ tail ++ xs =
      drop-append_le (64 * q) msg xs (omega arith) in
    let sum : length (msg ++ xs) / 64 ≡ q + n =
      omega (arith, length-append msg xs, length-append tail xs, length-drop (64 * q) msg) in
    let at : 64 * q + 64 * n ≡ 64 * (q + n) = omega arith in
    Holds-cong ctx
      (sym (
        ap (λ k. whole k v (msg ++ xs)) sum
        ∙ whole-add q n v (msg ++ xs)
        ∙ ap₂ (whole n) (whole-append q v msg xs (omega arith)) rest))
      (sym (
        ap (λ k. drop (64 * k) (msg ++ xs)) sum
        ∙ ap (λ k. drop k (msg ++ xs)) (sym at)
        ∙ sym (drop-drop (64 * q) (64 * n) (msg ++ xs))
        ∙ ap (drop (64 * n)) rest))
      h

update-Reads :
    (ctx : Md5Context) (msg xs : List ℕ)
    → Reads ctx msg
    → length msg + length xs < 2 ^ 32
    → Reads (md5_update ctx xs) (msg ++ xs)
unfolding md5_update
update-Reads ctx msg [] r small = rw (append-nil msg) r
update-Reads ctx msg (x ∷ xs) r small =
    let v : Words = whole (length msg / 64) start_words msg in
    let tail : List ℕ = drop (64 * (length msg / 64)) msg in
    let (t0, t1) = update-totals ctx x xs in
    let (low, high) = count_bytes_lem ctx (length (x ∷ xs)) (length msg) r.low r.high small in
    record {
      held =
          extend-Absorbs (md5_update ctx (x ∷ xs)) start_words msg (x ∷ xs)
            (update-Absorbs ctx v tail r.held x xs);
      low = t0 ∙ low ∙ sym (length-append msg (x ∷ xs));
      high = t1 ∙ high;
    }

take-replicate : (k n : ℕ) → k ≤ n → take {A = ℕ} k (replicate n 0) ≡ replicate k 0
take-replicate zero n le = refl
take-replicate (suc k) zero le = absurd (omega arith)
take-replicate (suc k) (suc n) le = ap (λ zs. 0 ∷ zs) (take-replicate k n (omega arith))

-- The first bytes of `md5_padding`.
padding_lem : (n : ℕ) → take (padn n) md5_padding ≡ 0x80 ∷ replicate ((119 - n % 64) % 64) 0
unfolding padn md5_padding
padding_lem n =
    let same : padn n ≡ suc ((119 - n % 64) % 64) = ground arith in
    rw same (ap (λ zs. 0x80 ∷ zs) (take-replicate ((119 - n % 64) % 64) 63 (omega arith)))

-- The two words of the length.
length_lem :
    (n : ℕ)
    → n < 2 ^ 29
    → put_ulong_le (ulong (n * 2 ^ 3)) ++ put_ulong_le (bit_or (n / 2 ^ 29) (ulong (0 * 2 ^ 3)))
      ≡ little_endian 8 (8 * n)
unfolding put_ulong_le
length_lem n small =
    let none_high : n / 2 ^ 29 ≡ 0 = omega arith in
    let bits : ulong (n * 2 ^ 3) ≡ 8 * n = omega arith in
    let second : 8 * n / 256 / 256 ≡ 8 * n / 2 ^ 16 = omega arith in
    let third : 8 * n / 256 / 256 / 256 ≡ 8 * n / 2 ^ 24 = omega arith in
    let fourth : 8 * n / 256 / 256 / 256 / 256 ≡ 0 = omega arith in
    rw (none_high, bits, fourth, third, second)

put-eq : (n : ℕ) → put_ulong_le n ≡ little_endian 4 n
unfolding put_ulong_le
put-eq n =
    let second : n / 256 / 256 ≡ n / 2 ^ 16 = omega arith in
    let third : n / 256 / 256 / 256 ≡ n / 2 ^ 24 = omega arith in rw (third, second)

pad-eq :
    (ctx : Md5Context) (n : ℕ)
    → ctx.total0 ≡ n
    → ctx.total1 ≡ 0
    → n < 2 ^ 29
    → md5_pad ctx
      ≡ md5_update
          (md5_update ctx (0x80 ∷ replicate ((119 - n % 64) % 64) 0))
          (little_endian 8 (8 * n))
unfolding md5_pad
pad-eq ctx n low high small =
    ap₂
      (λ (t u : ℕ). md5_update (md5_update ctx (take (padn t) md5_padding)) (
        put_ulong_le (ulong (t * 2 ^ 3)) ++ put_ulong_le (bit_or (t / 2 ^ 29) (ulong (u * 2 ^ 3)))))
      low high
    ∙ ap₂ (λ a b. md5_update (md5_update ctx a) b) (padding_lem n) (length_lem n small)

pad-Reads :
    (ctx : Md5Context) (msg : List ℕ)
    → Reads ctx msg
    → length msg < 2 ^ 29
    → Reads (md5_pad ctx) (padded msg)
pad-Reads ctx msg r small =
    let n : ℕ = length msg in
    let pad : List ℕ = 0x80 ∷ replicate ((119 - n % 64) % 64) 0 in
    let size : length (replicate {A = ℕ} ((119 - n % 64) % 64) 0) ≡ (119 - n % 64) % 64 =
      length-replicate ((119 - n % 64) % 64) 0 in
    let first : Reads (md5_update ctx pad) (msg ++ pad) =
      update-Reads ctx msg pad r (omega (arith, size)) in
    rw (pad-eq ctx n r.low r.high small) (
      update-Reads (md5_update ctx pad) (msg ++ pad) (little_endian 8 (8 * n)) first
        (omega (arith, size, length-append msg pad)))

digest-eq :
    (v : Words)
    → put_ulong_le v.a ++ (put_ulong_le v.b ++ (put_ulong_le v.c ++ put_ulong_le v.d))
      ≡ little_endian 4 v.a ++ (little_endian 4 v.b ++ (little_endian 4 v.c ++ little_endian 4 v.d))
digest-eq v = rw (put-eq v.a, put-eq v.b, put-eq v.c, put-eq v.d)

finish-eq :
    (ctx : Md5Context) (msg : List ℕ)
    → Reads ctx msg
    → length msg < 2 ^ 29
    → md5_finish ctx ≡ blockwise_md5 msg
unfolding md5_finish
finish-eq ctx msg r small =
    let p : Reads (md5_pad ctx) (padded msg) = pad-Reads ctx msg r small in
    digest-eq (md5_pad ctx).state
    ∙ ap
        (λ v.
          little_endian 4 v.a
          ++ (little_endian 4 v.b ++ (little_endian 4 v.c ++ little_endian 4 v.d)))
        p.held.state

-- The parts of a message, one after another, up to the first that is empty.
abbrev pub joined : List (List ℕ) → List ℕ
joined [] = []
joined ([] ∷ chunks) = []
joined ((b ∷ bs) ∷ chunks) = (b ∷ bs) ++ joined chunks

update_all-Reads :
    (ctx : Md5Context) (msg : List ℕ) (chunks : List (List ℕ))
    → Reads ctx msg
    → length msg + length (joined chunks) < 2 ^ 32
    → Reads (update_all ctx chunks) (msg ++ joined chunks)
unfolding update_all
update_all-Reads ctx msg [] r small = rw (append-nil msg) r
update_all-Reads ctx msg ([] ∷ chunks) r small = rw (append-nil msg) r
update_all-Reads ctx msg ((b ∷ bs) ∷ chunks) r small =
    let chunk : List ℕ = b ∷ bs in
    let sum : length (chunk ++ joined chunks) ≡ length chunk + length (joined chunks) =
      length-append chunk (joined chunks) in
    rw (← append_assoc msg chunk (joined chunks)) (
      update_all-Reads (md5_update ctx chunk) (msg ++ chunk) chunks
        (update-Reads ctx msg chunk r (omega (arith, sum)))
        (omega (arith, sum, length-append msg chunk)))

-- `md5` of a message shorter than 2 ^ 29 bytes, with its buffer and its two words of the length, calls
-- `md5_process` for exactly the blocks of the message padded as in RFC 1321 (a byte 0x80, the zeros up
-- to 8 bytes before the end of a block, and the number of bits), one after another from the initial
-- words, and gives the last four words.
pub md5_pads : (msg : List ℕ) → length msg < 2 ^ 29 → md5 msg ≡ blockwise_md5 msg
unfolding md5
md5_pads msg small =
    let start : Reads (md5_starts (replicate 64 0)) [] =
      start-Reads (replicate 64 0) (length-replicate {A = ℕ} 64 0) in
    finish-eq (md5_update (md5_starts (replicate 64 0)) msg) msg
      (update-Reads (md5_starts (replicate 64 0)) [] msg start (omega arith)) small

-- `md5_file` of a file shorter than 2 ^ 29 bytes gives the digest that `md5` gives for the whole
-- content up to the first part that `fread` gives empty, whatever the parts before it, and the code 2
-- where the stream has an error and 0 otherwise.
pub md5_file-md5 :
    (chunks : List (List ℕ)) (failed : Bool)
    → length (joined chunks) < 2 ^ 29
    → md5_file (some chunks) failed ≡ ((if failed then 2 else 0), some (md5 (joined chunks)))
unfolding md5_file
md5_file-md5 chunks failed small =
    let start : Reads (md5_starts (replicate 64 0)) [] =
      start-Reads (replicate 64 0) (length-replicate {A = ℕ} 64 0) in
    let all : Reads (update_all (md5_starts (replicate 64 0)) chunks) (joined chunks) =
      update_all-Reads (md5_starts (replicate 64 0)) [] chunks start (omega arith) in
    ap (λ digest. ((if failed then 2 else 0), some digest))
      (finish-eq (update_all (md5_starts (replicate 64 0)) chunks) (joined chunks) all small
        ∙ sym (md5_pads (joined chunks) small))

pub length-md5 : (msg : List ℕ) → length (md5 msg) ≡ 16
unfolding md5 md5_finish put_ulong_le
length-md5 msg = refl
