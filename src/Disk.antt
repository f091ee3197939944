-- ===== src/Disk.antt =====
-- A platform that runs: the chunk files of src/server/chunks-io.c as bytes at offsets and the hash
-- database of src/server/db_ops.c as a map, where no call fails.
pub mod Bytes
pub mod Sound
use agilefs.Prelude.{
  ℕ, ◌+◌, ◌≡◌, ◌≢◌, ◌⊎◌, inl, inr, refl, sym, ap, ◌∙◌, Option, some, none, List, length,
  if◌then◌else◌, some-inj, Bool-cases, Bool, true, false, ◌&&◌, ◌==◌, ==→eq, [], ◌∷◌, arith, ap₂,
  take, drop,
}
use agilefs.Prelude.Int.{ℤ, pos, negsuc, minus_one, eqb_ℤ, eqb_ℤ→eq, eqb_ℤ_refl}
use agilefs.Platform.{Key, BlockData, Platform, Laws, Disjoint}
use agilefs.Disk.Bytes.{read_bytes, put_bytes, read-put, read-put_apart, read-cong, read-part}

pub record Disk : Type 0 where
  pub bytes : ℤ → ℕ → ℕ
  pub db : Key → Option BlockData

abbrev pub same_key : Key → Key → Bool
same_key [] [] = true
same_key [] (y ∷ ys) = false
same_key (x ∷ xs) [] = false
same_key (x ∷ xs) (y ∷ ys) = (x == y) && same_key xs ys

pub same_key_refl : (k : Key) → same_key k k ≡ true
same_key_refl [] = refl
same_key_refl (x ∷ xs) = let e : (x == x) ≡ true = ground arith in rw (e, same_key_refl xs)

pub same_key→eq : (k k' : Key) → same_key k k' ≡ true → k ≡ k'
same_key→eq [] [] h = refl
same_key→eq [] (y ∷ ys) h = cc
same_key→eq (x ∷ xs) [] h = cc
same_key→eq (x ∷ xs) (y ∷ ys) h = elim (Bool-cases (x == y)) [
  | inl e ↦ ap₂ (λ z zs. z ∷ zs) (==→eq x y e) (same_key→eq xs ys (rw e at h))
  | inr e ↦ let no : false ≡ true = rw e at h in cc
]

abbrev pub entered : (Key → Option BlockData) → Key → Option BlockData → Key → Option BlockData
entered db k o k' = if same_key k' k then o else db k'

entered_same : (db : Key → Option BlockData) (k : Key) (o : Option BlockData) → entered db k o k ≡ o
entered_same db k o = rw (same_key_refl k)

entered_other :
    (db : Key → Option BlockData) (k k' : Key) (o : Option BlockData)
    → k' ≢ k
    → entered db k o k' ≡ db k'
entered_other db k k' o ne = elim (Bool-cases (same_key k' k)) [
  | inl e ↦ absurd (ne (same_key→eq k' k e))
  | inr e ↦ rw e
]

abbrev pub disk_pread : Disk → ℤ → ℕ → ℤ → Option (List ℕ)
disk_pread w fd n (pos o) = some (read_bytes (w.bytes fd) n o)
disk_pread w fd n (negsuc _) = none

abbrev pub disk_pwrite : Disk → ℤ → List ℕ → ℤ → ℤ × Disk
disk_pwrite w fd buf (pos o) = (
  pos (length buf),
  record w { bytes = λ g. if eqb_ℤ g fd then put_bytes (w.bytes fd) buf o else w.bytes g },
)
disk_pwrite w fd buf (negsuc _) = (minus_one, w)

abbrev pub disk : Platform
disk = record {
  World = Disk;
  errno = λ w. 5;
  pread = disk_pread;
  pwrite = disk_pwrite;
  fsync = λ w fd. pos 0;
  db_read = λ w i k. w.db k;
  db_write = λ w i k bd. (pos 0, record w { db = entered w.db k (some bd) });
  db_remove = λ w i k. (pos 0, record w { db = entered w.db k none });
  write_hash_db = λ w k o f. (
    pos 0,
    record w { db = entered w.db k (some (record { fd_index = f; ref_count = 1; offset = o })) },
  );
}

pread-pwrite_same :
    (w : Disk) (fd : ℤ) (buf : List ℕ) (o : ℕ)
    → disk_pread (disk_pwrite w fd buf (pos o)).1 fd (length buf) (pos o) ≡ some buf
pread-pwrite_same w fd buf o = rw (eqb_ℤ_refl fd) (ap some (read-put (w.bytes fd) buf o))

pread-pwrite_other :
    (w : Disk) (fd fd' : ℤ) (buf old : List ℕ) (o o' : ℕ)
    → (fd ≢ fd') ⊎ Disjoint o (length buf) o' (length old)
    → disk_pread w fd' (length old) (pos o') ≡ some old
    → disk_pread (disk_pwrite w fd buf (pos o)).1 fd' (length old) (pos o') ≡ some old
pread-pwrite_other w fd fd' buf old o o' apart e = elim (Bool-cases (eqb_ℤ fd' fd)) [
  | inr f ↦ rw f e
  | inl t ↦
      let same : fd' ≡ fd = eqb_ℤ→eq fd' fd t in
      elim apart [
        | inl ne ↦ absurd (ne (sym same))
        | inr d ↦
            rw t (ap some (read-put_apart (w.bytes fd) buf o (length old) o' d) ∙ (rw same at e))
      ]
]

pub disk_laws : Laws disk
disk_laws = record {
  pread-pwrite = λ w fd buf o e. pread-pwrite_same w fd buf o;
  pread-pwrite_apart =
      λ w fd fd' buf old o o' apart e. pread-pwrite_other w fd fd' buf old o o' apart e;
  pread-part = λ w fd old m o a n e len h.
      ap some (read-part (w.bytes fd) m o a n h ∙ ap (λ z. take n (drop a z)) (some-inj e));
  db_read-pwrite = λ w fd buf o i k. db_untouched w fd buf o k;
  db_read-db_write = λ w i k bd e. entered_same w.db k (some bd);
  db_read-db_write_failed = λ w i k bd ne. absurd (ne refl);
  db_read-db_write_ne = λ w i k k' bd ne. entered_other w.db k k' (some bd) ne;
  pread-db_write = λ w i k bd fd n o. bytes_untouched w (entered w.db k (some bd)) fd n o;
  db_read-db_remove_ne = λ w i k k' ne. entered_other w.db k k' none ne;
  db_read-db_remove_none = λ w i k e. entered_same w.db k none;
  pread-db_remove = λ w i k fd n o. bytes_untouched w (entered w.db k none) fd n o;
  db_read-write_hash_db = λ w k o f e. entered_same w.db k _;
  db_read-write_hash_db_failed = λ w k o f i ne. absurd (ne refl);
  db_read-write_hash_db_ne = λ w k k' o f i ne. entered_other w.db k k' _ ne;
  pread-write_hash_db = λ w k o f fd n o'.
      bytes_untouched w (entered w.db k (some (record { fd_index = f; ref_count = 1; offset = o })))
        fd n o';
}
  where
    db_untouched :
        (w : Disk) (fd : ℤ) (buf : List ℕ) (o : ℤ) (k : Key)
        → (disk_pwrite w fd buf o).1.db k ≡ w.db k
    db_untouched w fd buf (pos o) k = refl
    db_untouched w fd buf (negsuc o) k = refl

    bytes_untouched :
        (w : Disk) (db : Key → Option BlockData) (fd : ℤ) (n : ℕ) (o : ℤ)
        → disk_pread (record w { db = db }) fd n o ≡ disk_pread w fd n o
    bytes_untouched w db fd n (pos o) = refl
    bytes_untouched w db fd n (negsuc o) = refl
