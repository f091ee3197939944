-- ===== src/BlockFiles/Counts.antt =====
-- The references that a block file counts (`write_block_file` and `ulink_block_file` of
-- src/client/fuse_io_util.c).
use Prim.Native.String.{String}
use text.Mathlib.Text.{◌==◌}
use text.Mathlib.TextEquality.{eq_iff}
use text.Mathlib.TextPositions.{eq_refl}
use agilefs.Prelude.{
  ne→==, ℕ, zero, suc, ◌+◌, ◌≡◌, ◌≢◌, refl, ap, ◌∙◌, arith, Bool-cases, inl, inr, true, Option,
  none, some, List, length, take-all, le→ltb, ◌<◌, ◌^◌, ◌>>=◌,
}
use agilefs.Prelude.Int.{pos, add_int-pos, add_int-pred}
use agilefs.BlockFiles.{
  BlockFile, Store, Os, updated, write_block_file, ulink_block_file, create_block_file,
}

-- Every call succeeds, for a buffer of `size` bytes.
pub record Works (os : Os) (size : ℕ) : Type 0 where
  pub opens : os.opens ≡ true
  pub written : os.written ≡ pos size
  pub xattrs : os.xattrs ≡ true
  pub unlinks : os.unlinks ≡ true

-- `none` where a call faults.
abbrev pub written_times : Os → String → List ℕ → ℕ → Store → Option Store
written_times os path buffer zero s = some s
written_times os path buffer (suc n) s = do
  (_, s') ← write_block_file os path buffer s
  written_times os path buffer n s'

abbrev pub ulinked_times : Os → String → ℕ → Store → Option Store
ulinked_times os path zero s = some s
ulinked_times os path (suc n) s = do
  (_, s') ← ulink_block_file os path s
  ulinked_times os path n s'

-- The block has `n` references, and none is no file.
abbrev pub counted : List ℕ → ℕ → Option BlockFile
counted buffer zero = none
counted buffer (suc n) = some (record { bytes = buffer; share_cnt = some (pos (suc n)) })

-- The file of `path` is `file`, and the others are those of `s`.
pub record HasFile (s s' : Store) (path : String) (file : Option BlockFile) : Type 0 where
  pub here : s'.files path ≡ file
  pub others : (q : String) → q ≢ path → s'.files q ≡ s.files q

pub updated-HasFile :
    (s : Store) (path : String) (file : Option BlockFile)
    → HasFile s (updated s path file) path file
updated-HasFile s path file = record {
  here = rw (eq_refl path);
  others = λ q ne. elim (Bool-cases (q == path)) [
    | inl e ↦ absurd (ne ((eq_iff q path).0 e))
    | inr e ↦ rw e
  ];
}

HasFile-trans :
    (a b c : Store) (path : String) (f g : Option BlockFile)
    → HasFile a b path f
    → HasFile b c path g
    → HasFile a c path g
HasFile-trans a b c path f g x y = record {
  here = y.here;
  others = λ q ne. y.others q ne ∙ x.others q ne;
}

write-eq :
    (os : Os) (path : String) (buffer : List ℕ) (s : Store) (n : ℕ)
    → Works os (length buffer)
    → s.files path ≡ counted buffer n
    → suc n < 2 ^ 31
    → write_block_file os path buffer s ≡ some (pos 0, updated s path (counted buffer (suc n)))
unfolding write_block_file create_block_file
write-eq os path buffer s zero w e small = rw (
  write_block_file,
  e,
  create_block_file,
  w.opens,
  w.written,
  w.xattrs,
  le→ltb (length buffer) (length buffer) (omega arith),
  take-all buffer (length buffer) (omega arith),
)
write-eq os path buffer s (suc n) w e small =
    let next : suc n + 1 ≡ suc (suc n) = omega arith in
    rw (write_block_file, e, w.xattrs, add_int-pos (suc n) 1 (omega arith), next)

ulink-eq :
    (os : Os) (path : String) (buffer : List ℕ) (s : Store) (n : ℕ)
    → Works os (length buffer)
    → s.files path ≡ counted buffer (suc n)
    → n < 2 ^ 31
    → ulink_block_file os path s ≡ some (pos 0, updated s path (counted buffer n))
unfolding ulink_block_file
ulink-eq os path buffer s zero w e small =
    rw (ulink_block_file, e, w.xattrs, add_int-pred 0 small, w.unlinks)
ulink-eq os path buffer s (suc n) w e small = rw (
  ulink_block_file,
  e,
  w.xattrs,
  add_int-pred (suc n) small,
  ne→== (suc n + 0) 0 (λ x. omega arith),
)

written_lem :
    (os : Os) (path : String) (buffer : List ℕ) (n m : ℕ) (s : Store)
    → Works os (length buffer)
    → s.files path ≡ counted buffer m
    → n + m < 2 ^ 31
    → (s' : Store) × (written_times os path buffer n s ≡ some s')
      × HasFile s s' path (counted buffer (n + m))
written_lem os path buffer zero m s w e small =
    let none_more : 0 + m ≡ m = omega arith in
    (s, refl, rw none_more (record { here = e; others = λ q ne. refl }))
written_lem os path buffer (suc n) m s w e small =
    let s1 = updated s path (counted buffer (suc m)) in
    let u : HasFile s s1 path (counted buffer (suc m)) =
      updated-HasFile s path (counted buffer (suc m)) in
    let (s2, later, r) = written_lem os path buffer n (suc m) s1 w (u.here) (omega arith) in
    let total : suc n + m ≡ n + suc m = omega arith in
    (
      s2,
      rw (write-eq os path buffer s m w e (omega arith)) later,
      rw total
          (HasFile-trans s s1 s2 path (counted buffer (suc m)) (counted buffer (n + suc m)) u r),
    )

ulinked_lem :
    (os : Os) (path : String) (buffer : List ℕ) (n m : ℕ) (s : Store)
    → Works os (length buffer)
    → s.files path ≡ counted buffer (n + m)
    → n + m < 2 ^ 31
    → (s' : Store) × (ulinked_times os path n s ≡ some s') × HasFile s s' path (counted buffer m)
ulinked_lem os path buffer zero m s w e small =
    let none_more : 0 + m ≡ m = omega arith in
    (s, refl, record { here = rw none_more at e; others = λ q ne. refl })
ulinked_lem os path buffer (suc n) m s w e small =
    let s1 = updated s path (counted buffer (n + m)) in
    let u : HasFile s s1 path (counted buffer (n + m)) =
      updated-HasFile s path (counted buffer (n + m)) in
    let (s2, later, r) = ulinked_lem os path buffer n m s1 w (u.here) (omega arith) in
    let left : suc n + m ≡ suc (n + m) = omega arith in
    (
      s2,
      rw (ulink-eq os path buffer s (n + m) w (rw left at e) (omega arith)) later,
      HasFile-trans s s1 s2 path (counted buffer (n + m)) (counted buffer m) u r,
    )

-- Where every call succeeds, a path has no file, and `n + m` is below 2^31: `write_block_file` of a
-- block `n + m` times and then `ulink_block_file` `n` times do not fault, and the file then holds the
-- block and counts `m` references, or is gone where `m` is 0; no other file has changed.
pub block_file_counts :
    (os : Os) (path : String) (buffer : List ℕ) (n m : ℕ) (s : Store)
    → Works os (length buffer)
    → s.files path ≡ none
    → n + m < 2 ^ 31
    → (s' : Store) × (s'' : Store) × (written_times os path buffer (n + m) s ≡ some s')
      × (ulinked_times os path n s' ≡ some s'')
      × HasFile s s'' path (counted buffer m)
block_file_counts os path buffer n m s w e small =
    let (s', there, r) = written_lem os path buffer (n + m) 0 s w e (omega arith) in
    let all : n + m + 0 ≡ n + m = omega arith in
    let (s'', back, u) =
      ulinked_lem os path buffer n m s' w (r.here ∙ ap (counted buffer) all) small in
    (
      s',
      s'',
      there,
      back,
      HasFile-trans s s' s'' path (counted buffer (n + m + 0)) (counted buffer m) r u,
    )
