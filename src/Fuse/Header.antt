-- ===== src/Fuse/Header.antt =====
-- The size of a file in the first 8 bytes of its metafile (src/client/agilefs-fuse.c): written by
-- `fuse_release`, `fuse_fsync` and the two truncations, and read by `fuse_open` and `fuse_getattr`.
use agilefs.Prelude.{
  ℕ, zero, suc, ◌*◌, ◌/◌, ◌^◌, ◌<◌, ◌≡◌, refl, sym, ap, ◌∙◌, arith, some, [], length, drop,
  drop-length, append-nil, lt→ltb,
}
use agilefs.Prelude.Int.{ℤ, pos, u64_of_off}
use agilefs.Platform.{Platform, Laws}
use agilefs.Fuse.{encode_off, decode_off}
use agilefs.Fuse.Os.{Os}
use agilefs.Fuse.Meta.{read_size}

-- `256 ^ k`, by the same recursion as the bytes.
abbrev pub bytes_bound : ℕ → ℕ
bytes_bound zero = 1
bytes_bound (suc k) = 256 * bytes_bound k

pub decode-encode : (k n : ℕ) → n < bytes_bound k → decode_off (encode_off k n) ≡ n
unfolding decode_off encode_off
decode-encode zero n h = omega arith
decode-encode (suc k) n h =
    let rest : decode_off (encode_off k (n / 256)) ≡ n / 256 =
      decode-encode k (n / 256) (omega arith) in
    rw rest (omega arith)

pub length-encode_off : (k n : ℕ) → length (encode_off k n) ≡ k
unfolding encode_off
length-encode_off zero n = refl
length-encode_off (suc k) n = ap suc (length-encode_off k (n / 256))

-- A size below 2 ^ 63 that was written whole at the start of a metafile is the size that the next
-- `fuse_open` or `fuse_getattr` reads, whatever the variable held before.
pub read_size-pwrite :
    (p : Platform) (os : Os p) (fd : ℤ) (w : p.World) (n : ℕ) (old : ℤ)
    → Laws p
    → n < 2 ^ 63
    → (p.pwrite w fd (encode_off 8 n) (pos 0)).0 ≡ pos 8
    → read_size p os fd old (p.pwrite w fd (encode_off 8 n) (pos 0)).1 ≡ pos n
unfolding read_size
read_size-pwrite p os fd w n old l small whole =
    let len : length (encode_off 8 n) ≡ 8 = length-encode_off 8 n in
    let reads : p.pread (p.pwrite w fd (encode_off 8 n) (pos 0)).1 fd 8 (pos 0)
        ≡ some (encode_off 8 n) =
      rw len at (l.pread-pwrite w fd (encode_off 8 n) 0 (rw len whole)) in
    let no_rest : drop (length (encode_off 8 n)) (encode_off 8 (u64_of_off old)) ≡ [] =
      drop-length (encode_off 8 (u64_of_off old))
        (length-encode_off 8 (u64_of_off old) ∙ sym len) in
    rw (
      reads,
      no_rest,
      append-nil (encode_off 8 n),
      decode-encode 8 n (omega arith),
      lt→ltb n (2 ^ 63) small,
    )
