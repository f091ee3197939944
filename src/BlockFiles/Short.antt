-- ===== src/BlockFiles/Short.antt =====
-- A block file whose write does not succeed (`write_block_file` of src/client/fuse_io_util.c).
use Prim.Native.String.{String}
use text.Mathlib.TextPositions.{eq_refl}
use agilefs.Prelude.{
  ℕ, suc, ◌+◌, ◌-◌, ◌^◌, ◌≤◌, ◌<◌, ◌≡◌, refl, arith, true, Option, none, some, List, [], length,
  take, le→ltb, lt→ltb,
}
use agilefs.Prelude.Int.{ℤ, pos, minus_one, ◌-ℤ◌, add_int-pos}
use agilefs.BlockFiles.{
  getxattr, BlockFile, Store, Os, updated, write_block_file, create_block_file,
}

-- The first `m` bytes of a block, without a count.
abbrev pub part : List ℕ → ℕ → Option BlockFile
part buffer m = some (record { bytes = take m buffer; share_cnt = none })

-- After a short write, the error is returned with the part of the block left in the file and the
-- file left open.
pub record IsLeft (os : Os) (path : String) (buffer : List ℕ) (m : ℕ) (s s' : Store) (code : ℤ)
    : Type 0 where
  pub failed : code ≡ pos 0 -ℤ os.errno
  pub leaked : s'.open_fds ≡ suc s.open_fds
  pub left : s'.files path ≡ part buffer m
  pub hidden :
      (os' : Os)
      → (after : Store) × (write_block_file os' path buffer s' ≡ some (pos 0, after))
        × (after.files path ≡ part buffer m)

again :
    (os : Os) (path : String) (buffer : List ℕ) (m : ℕ) (s : Store)
    → s.files path ≡ part buffer m
    → write_block_file os path buffer s ≡ some (pos 0, updated s path (part buffer m))
unfolding write_block_file
again os path buffer m s e = rw (write_block_file, e, getxattr, add_int-pos 1 1 (omega arith))

short-eq :
    (os : Os) (path : String) (buffer : List ℕ) (m : ℕ) (s : Store)
    → s.files path ≡ none
    → os.opens ≡ true
    → os.written ≡ pos m
    → m < length buffer
    → write_block_file os path buffer s
      ≡ some
          (pos 0 -ℤ os.errno, record (updated s path (part buffer m)) { open_fds = s.open_fds + 1 })
unfolding write_block_file create_block_file
short-eq os path buffer m s e o w lt =
    rw (write_block_file, e, create_block_file, o, w, lt→ltb m (length buffer) lt)

-- Where `write` stops after `m` bytes of a new block, `write_block_file` returns -errno, and leaves
-- the part in the file and the file open; the next `write_block_file` of the block returns 0 with the
-- part still in the file, which counts no reference.
pub write_block_file_hides_part :
    (os : Os) (path : String) (buffer : List ℕ) (m : ℕ) (s : Store)
    → s.files path ≡ none
    → os.opens ≡ true
    → os.written ≡ pos m
    → m < length buffer
    → (code : ℤ) × (s' : Store) × (write_block_file os path buffer s ≡ some (code, s'))
      × IsLeft os path buffer m s s' code
write_block_file_hides_part os path buffer m s e o w lt =
    let s' = record (updated s path (part buffer m)) { open_fds = s.open_fds + 1 } in
    let here : s'.files path ≡ part buffer m = rw (eq_refl path) in
    (
      pos 0 -ℤ os.errno,
      s',
      short-eq os path buffer m s e o w lt,
      record {
        failed = refl;
        leaked = omega arith;
        left = here;
        hidden = λ os'.
            (updated s' path (part buffer m), again os' path buffer m s' here, rw (eq_refl path));
      },
    )

-- Where `write` returns -1 for a new block, `write_block_file` returns 0 and leaves an empty file that
-- counts one reference.
pub write_block_file_hides_error :
    (os : Os) (path : String) (buffer : List ℕ) (s : Store)
    → s.files path ≡ none
    → os.opens ≡ true
    → os.written ≡ minus_one
    → os.xattrs ≡ true
    → length buffer ≤ 2 ^ 64 - 1
    → write_block_file os path buffer s
      ≡ some (pos 0, updated s path (some (record { bytes = []; share_cnt = some (pos 1) })))
unfolding write_block_file create_block_file
write_block_file_hides_error os path buffer s e o w x lt =
    rw (write_block_file, e, create_block_file, o, w, x, le→ltb (2 ^ 64 - 1 - 0) (length buffer) lt)
