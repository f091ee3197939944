-- ===== src/Md5.antt =====
-- src/common/misc/md5.c and md5.h: the digest by which blocks are stored. `unsigned long` has 64
-- bits, so sums and shifts wrap at 2 ^ 64; bytes are numbers below 256.
pub mod Steps
pub mod Blocks
pub mod Functions
pub mod Compress
pub mod LowDigits
pub mod Rotations
pub mod Rounds
pub mod Rfc
pub mod Update
pub mod Reference
mod Tests
use agilefs.Prelude.{
  ℕ, zero, suc, ◌+◌, ◌-◌, ◌*◌, ◌/◌, ◌%◌, ◌^◌, bit_and, bit_or, bit_xor, ltb, leb, ◌==◌, not, ◌&&◌,
  if◌then◌else◌, Bool, Option, some, none, List, [], ◌∷◌, ◌++◌, length, get_or, take, drop,
  replicate,
}
use agilefs.Md5.Steps.{Step, first_round, second_round, third_round, fourth_round}

abbrev pub ulong : ℕ → ℕ
ulong n = n % 2 ^ 64

-- The four variables A, B, C, D, or `ctx->state`.
pub record Words : Type 0 where
  pub a : ℕ
  pub b : ℕ
  pub c : ℕ
  pub d : ℕ

pub record Md5Context : Type 0 where
  pub total0 : ℕ
  pub total1 : ℕ
  pub state : Words
  pub buffer : List ℕ

-- `ctx` as `md5` has it on its stack: the buffer holds what was there.
pub md5_starts : List ℕ → Md5Context
md5_starts buffer = record {
  total0 = 0;
  total1 = 0;
  state = record { a = 0x6745_2301; b = 0xefcd_ab89; c = 0x98ba_dcfe; d = 0x1032_5476 };
  buffer = buffer;
}

-- `GET_ULONG_LE`: the four bytes do not overlap, so their `|` is a sum.
pub get_ulong_le : List ℕ → ℕ → ℕ
get_ulong_le b i =
    get_or b i 0
    + get_or b (i + 1) 0 * 2 ^ 8
    + get_or b (i + 2) 0 * 2 ^ 16
    + get_or b (i + 3) 0 * 2 ^ 24

-- `PUT_ULONG_LE`.
pub put_ulong_le : ℕ → List ℕ
put_ulong_le n = n % 256 ∷ n / 2 ^ 8 % 256 ∷ n / 2 ^ 16 % 256 ∷ n / 2 ^ 24 % 256 ∷ []

-- `S(x, n)`; `x & 0xFFFFFFFF` is the remainder by 2 ^ 32.
pub rotate : ℕ → ℕ → ℕ
rotate x n = bit_or (ulong (x * 2 ^ n)) (x % 2 ^ 32 / 2 ^ (32 - n))

abbrev pub complement : ℕ → ℕ
complement z = 2 ^ 64 - 1 - z

-- The four `F(x, y, z)`.
pub f1 : ℕ → ℕ → ℕ → ℕ
f1 x y z = bit_xor z (bit_and x (bit_xor y z))

pub f2 : ℕ → ℕ → ℕ → ℕ
f2 x y z = bit_xor y (bit_and z (bit_xor x y))

pub f3 : ℕ → ℕ → ℕ → ℕ
f3 x y z = bit_xor (bit_xor x y) z

pub f4 : ℕ → ℕ → ℕ → ℕ
f4 x y z = bit_xor y (bit_or x (complement z))

-- `P( a, b, c, d, k, s, t )`, after which the next call has the variables one place further on.
pub md5_step : (ℕ → ℕ → ℕ → ℕ) → List ℕ → Words → Step → Words
unfolding get_ulong_le rotate
md5_step f block v (k, s, t) =
    let sum = ulong (v.a + (f v.b v.c v.d + get_ulong_le block (4 * k) + t)) in
    record { a = v.d; b = ulong (rotate sum s + v.b); c = v.b; d = v.c }

pub md5_round : (ℕ → ℕ → ℕ → ℕ) → List ℕ → Words → List Step → Words
unfolding md5_step
md5_round f block v [] = v
md5_round f block v (x ∷ xs) = md5_round f block (md5_step f block v x) xs

-- The new `ctx->state`; `block` is the 64 bytes of `data`.
pub md5_process : Words → List ℕ → Words
unfolding md5_round f1 f2 f3 f4
md5_process v block =
    let v1 = md5_round f1 block v first_round in
    let v2 = md5_round f2 block v1 second_round in
    let v3 = md5_round f3 block v2 third_round in
    let v4 = md5_round f4 block v3 fourth_round in
    record {
      a = ulong (v.a + v4.a);
      b = ulong (v.b + v4.b);
      c = ulong (v.c + v4.c);
      d = ulong (v.d + v4.d);
    }

-- `memcpy` into the buffer from index `at` on.
abbrev pub copy_at : List ℕ → ℕ → List ℕ → List ℕ
copy_at buffer at bytes = take at buffer ++ (bytes ++ drop (at + length bytes) buffer)

-- `while( ilen >= 64 )`: the state, and the input that is left. A round for each block at most.
pub process_blocks : ℕ → Words → List ℕ → Words × List ℕ
unfolding md5_process
process_blocks zero v input = (v, input)
process_blocks (suc rounds) v input =
    let more = process_blocks rounds (md5_process v (take 64 input)) (drop 64 input) in
    if leb 64 (length input) then more else (v, input)

-- The end of `md5_update`, with the state, buffer and `left` as they are then.
pub update_rest : Md5Context → ℕ → List ℕ → Md5Context
unfolding process_blocks
update_rest ctx left input =
    let (v, tail) = process_blocks (length input) ctx.state input in
    record ctx { state = v; buffer = copy_at ctx.buffer left tail }

-- The counters, of 64 bits in two words of 32.
pub count_bytes : Md5Context → ℕ → Md5Context
count_bytes ctx ilen =
    let low = ulong (ctx.total0 + ilen) % 2 ^ 32 in
    record ctx {
      total0 = low;
      total1 = if ltb low ilen then ulong (ctx.total1 + 1) else ctx.total1;
    }

pub md5_update : Md5Context → List ℕ → Md5Context
unfolding update_rest count_bytes
md5_update ctx [] = ctx
md5_update ctx (x ∷ xs) =
    let input = x ∷ xs in
    let left = ctx.total0 % 64 in
    let fill = 64 - left in
    let counted = count_bytes ctx (length input) in
    if ltb 0 left && leb fill (length input)
    then (let full = copy_at ctx.buffer left (take fill input) in
        update_rest (record counted { state = md5_process ctx.state full; buffer = full }) 0
          (drop fill input))
    else update_rest counted left input

pub md5_padding : List ℕ
md5_padding = 0x80 ∷ replicate 63 0

pub padn : ℕ → ℕ
padn total0 = let last = total0 % 64 in if ltb last 56 then 56 - last else 120 - last

-- The context that the last updates leave.
pub md5_pad : Md5Context → Md5Context
unfolding md5_update md5_padding padn put_ulong_le
md5_pad ctx =
    let high = bit_or (ctx.total0 / 2 ^ 29) (ulong (ctx.total1 * 2 ^ 3)) in
    let low = ulong (ctx.total0 * 2 ^ 3) in
    md5_update (md5_update ctx (take (padn ctx.total0) md5_padding))
      (put_ulong_le low ++ put_ulong_le high)

pub md5_finish : Md5Context → List ℕ
unfolding md5_pad
md5_finish ctx =
    let v = (md5_pad ctx).state in
    put_ulong_le v.a ++ (put_ulong_le v.b ++ (put_ulong_le v.c ++ put_ulong_le v.d))

unfoldable pub md5 : List ℕ → List ℕ
unfolding md5_starts md5_update md5_finish
md5 input = md5_finish (md5_update (md5_starts (replicate 64 0)) input)

-- `while( ( n = fread( … ) ) > 0 )`, on what the calls read; it ends with
-- the first that reads nothing.
pub update_all : Md5Context → List (List ℕ) → Md5Context
update_all ctx [] = ctx
update_all ctx ([] ∷ chunks) = ctx
update_all ctx ((b ∷ bs) ∷ chunks) = update_all (md5_update ctx (b ∷ bs)) chunks

-- The code and the digest; `none` is a file that does not open, and `failed` is `ferror`.
pub md5_file : Option (List (List ℕ)) → Bool → ℕ × Option (List ℕ)
unfolding update_all
md5_file none failed = (1, none)
md5_file (some chunks) failed =
    (if failed then 2 else 0, some (md5_finish (update_all (md5_starts (replicate 64 0)) chunks)))
