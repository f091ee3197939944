-- ===== src/BlockFiles.antt =====
-- src/client/fuse_io_util.c: blocks as files of their own. The path of a block is its hash in
-- hexadecimal, spelled in place in front of the hash, and an extended attribute of the file counts
-- the references to it (an `int`). `none` is an access outside the
-- buffer, or a count that overflows.
pub mod Paths
pub mod Spelled
pub mod Short
pub mod Counts
mod Tests
use Prim.Native.String.{String}
use text.Mathlib.Text.{◌==◌}
use agilefs.Prelude.{
  ℕ, zero, suc, ◌+◌, ◌-◌, ◌/◌, ◌%◌, ◌^◌, ltb, if◌then◌else◌, Bool, true, false, ◌&&◌, Option, none,
  some, ◌>>=◌, List, length, get_elem?, take,
}
use agilefs.Prelude.Int.{ℤ, pos, negsuc, minus_one, add_int, eqb_ℤ, ◌-ℤ◌}
use agilefs.Arrays.{put_at}

-- A digit of "%x".
abbrev pub hex : ℕ → ℕ
hex d = if ltb d 10 then 48 + d else 87 + d

-- `sprintf(path + i, "%02x", b)` for a byte, with the end of the string that it writes.
unfoldable pub sprintf_02x : List ℕ → ℕ → ℕ → Option (List ℕ)
sprintf_02x path i b = do
  path ← put_at path i (hex (b / 16))
  path ← put_at path (i + 1) (hex (b % 16))
  put_at path (i + 2) 0

-- The loop of `md5_to_path`, up to the ends `m` and `n` of the text and of the hash.
unfoldable pub spell_from : ℕ → ℕ → ℕ → ℕ → ℕ → List ℕ → Option (List ℕ)
spell_from zero m n i j path = none
spell_from (suc fuel) m n i j path = elim (ltb i m && ltb j n) [
  | false ↦ some path
  | true ↦ do
    b ← get_elem? path j
    path ← sprintf_02x path i b
    spell_from fuel m n (i + 2) (j + 1) path
]

-- Both functions of the name, for the two lengths of a hash.
abbrev to_path : ℕ → ℕ → ℕ → List ℕ → Option (List ℕ)
to_path fuel m n path = do
  b ← get_elem? path 20
  path ← sprintf_02x path 0 b
  path ← put_at path 2 47
  path ← spell_from fuel m n 3 21 path
  put_at path m 0

unfoldable pub md5_to_path : List ℕ → Option (List ℕ)
md5_to_path path = to_path 16 33 36 path

-- Under `__USE_SHA1`.
unfoldable pub sha1_to_path : List ℕ → Option (List ℕ)
sha1_to_path path = to_path 20 41 40 path

-- A block file with its attribute "user.share_cnt", and the files by their paths.
pub record BlockFile : Type 0 where
  pub bytes : List ℕ
  pub share_cnt : Option ℤ

pub record Store : Type 0 where
  pub files : String → Option BlockFile
  pub open_fds : ℕ

abbrev pub updated : Store → String → Option BlockFile → Store
updated s path file = record s { files = λ q. if q == path then file else s.files q }

-- What the calls of one operation return: `open`, `write`, `unlink` and the attribute calls where they are
-- possible, and `errno`.
pub record Os : Type 0 where
  pub opens : Bool
  pub written : ℤ
  pub xattrs : Bool
  pub unlinks : Bool
  pub errno : ℤ

-- An `int` as the `size_t` it is compared with.
abbrev pub size_t_of_int : ℤ → ℕ
size_t_of_int (pos n) = n
size_t_of_int (negsuc n) = 2 ^ 64 - 1 - n

abbrev pub getxattr : Os → BlockFile → ℤ → ℤ
getxattr os file old = elim file.share_cnt [ none ↦ old | some n ↦ if os.xattrs then n else old ]

-- XATTR_REPLACE, which needs the attribute to be there.
abbrev pub setxattr : Os → BlockFile → ℤ → ℤ × BlockFile
setxattr os file n = elim file.share_cnt [
  | none ↦ (minus_one, file)
  | some _ ↦ if os.xattrs then (pos 0, record file { share_cnt = some n }) else (minus_one, file)
]

-- The bytes that `write` has put in the file.
abbrev pub stored : ℤ → List ℕ → List ℕ
stored (pos n) buffer = take n buffer
stored (negsuc _) buffer = take 0 buffer

-- The branch of a path that is not there.
unfoldable pub create_block_file : Os → String → List ℕ → Store → ℤ × Store
create_block_file os path buffer s =
    if os.opens
    then (let s' =
          updated s path (some (record { bytes = stored os.written buffer; share_cnt = none })) in
        if ltb (size_t_of_int os.written) (length buffer)
        then (pos 0 -ℤ os.errno, record s' { open_fds = s'.open_fds + 1 })
        else (
          pos 0,
          updated s path (
              some (record {
                bytes = stored os.written buffer;
                share_cnt = if os.xattrs then some (pos 1) else none;
              })),
        ))
    else (pos 0 -ℤ os.errno, s)

-- `share_num` is an `int`.
unfoldable pub write_block_file : Os → String → List ℕ → Store → Option (ℤ × Store)
unfolding create_block_file
write_block_file os path buffer s = elim (s.files path) [
  | none ↦ some (create_block_file os path buffer s)
  | some file ↦ do
    share_num ← add_int (getxattr os file (pos 1)) (pos 1)
    some (pos 0, updated s path (some (setxattr os file share_num).1))
]

unfoldable pub ulink_block_file : Os → String → Store → Option (ℤ × Store)
ulink_block_file os path s = elim (s.files path) [
  | none ↦ some (minus_one, s)
  | some file ↦ do
    share_num ← add_int (getxattr os file (pos 0)) minus_one
    some (
        if eqb_ℤ share_num (pos 0)
        then (if os.unlinks then (pos 0, updated s path none) else (minus_one, s))
        else (let (ret, file') = setxattr os file share_num in (ret, updated s path (some file'))))
]
