-- ===== src/ChunkIo/Allocate.antt =====
-- The first half of `block_write` (src/server/chunks-io.c): the place for a new block, taken off the
-- free list or added at the end of the file, is a place of no other block.
use agilefs.Prelude.{
  ℕ, ◌+◌, ◌*◌, ◌/◌, ◌%◌, ◌≤◌, ◌≡◌, ◌≢◌, ◌↔◌, inl, inr, refl, sym, ◌∙◌, arith, some, List, [], ◌∷◌,
  set, get_elem?-set_self, get_elem?-set_ne, lt-of-get_elem?,
}
use agilefs.Prelude.Int.{ℤ, pos}
use agilefs.Chunks.{FreeChunkList, get_first_free_chunk}
use agilefs.Chunks.Stack.{contents, Leaves, top, rest, get_first_free_chunk_pops}
use agilefs.ChunkFiles.{ChunkFileInfo}
use agilefs.ChunkIo.{allocate, allocate_from}
use agilefs.ChunkIo.Sound.{In, Distinct, HasFile, IsSoundFile}

-- Block `o` of a file with `size` bytes and the free list `fcl` is taken, and the file then has
-- `size'` bytes and the free list `fcl'`.
pub record IsTaken (size : ℕ) (fcl : FreeChunkList) (o size' : ℕ) (fcl' : FreeChunkList)
    : Type 0 where
  pub sound : IsSoundFile size' fcl'
  pub grows : size ≤ size'
  pub inside : o + 4096 ≤ size'
  pub aligned : o % 4096 ≡ 0
  pub not_free : ¬ In (o / 4096) (contents fcl')
  pub fewer : (x : ℕ) → In x (contents fcl') → In x (contents fcl)
  pub fresh : (q : ℕ) → q + 4096 ≤ size → q % 4096 ≡ 0 → (¬ In (q / 4096) (contents fcl)) → q ≢ o

-- What `allocate` returns for a file.
pub record Allocates (size : ℕ) (fcl : FreeChunkList) : Type 0 where
  pub code : ℤ
  pub popped : FreeChunkList
  pub o : ℕ
  pub size' : ℕ
  pub pops : get_first_free_chunk fcl ≡ some (code, popped)
  pub from : allocate_from size code popped ≡ record { offset = pos o; size = size'; fcl = popped }
  pub taken : IsTaken size fcl o size' popped

module _ (size : ℕ) (fcl : FreeChunkList) (f : IsSoundFile size fcl) where
  -- The list is empty: the file grows by a block.
  extends :
      (l : List ℕ)
      → contents fcl ≡ l
      → Leaves (get_first_free_chunk fcl) (top l) (rest l)
      → Allocates size fcl
  unfolding allocate_from
  extends [] e z = record {
    code = top [];
    popped = z.after;
    o = size;
    size' = size + 4096;
    pops = z.returns;
    from = refl;
    taken = record {
      sound = record {
        valid = z.valid;
        aligned = omega (arith, f.aligned);
        below = λ x h. absurd (rw z.holds at h);
        distinct = rw z.holds tt;
      };
      grows = omega arith;
      inside = omega arith;
      aligned = f.aligned;
      not_free = λ h. rw z.holds at h;
      fewer = λ x h. absurd (rw z.holds at h);
      fresh = λ q h a n e'. omega arith;
    };
  }
  extends (x ∷ xs) e z =
      let below_x : x * 4096 + 4096 ≤ size = f.below x (rw e (inl refl)) in
      let apart : Distinct (x ∷ xs) = rw e at (f.distinct) in
      let number : x * 4096 / 4096 ≡ x = omega arith in
      record {
        code = pos x;
        popped = z.after;
        o = x * 4096;
        size' = size;
        pops = z.returns;
        from = refl;
        taken = record {
          sound = record {
            valid = z.valid;
            aligned = f.aligned;
            below = λ y h. f.below y (rw e (inr (rw z.holds at h)));
            distinct = rw z.holds (apart.1);
          };
          grows = omega arith;
          inside = below_x;
          aligned = omega arith;
          not_free = λ h. apart.0 (rw (z.holds, number) at h);
          fewer = λ y h. rw e (inr (rw z.holds at h));
          fresh = λ q h a n e'. n (rw e (inl (omega arith)));
        };
      }

  pub allocates : Allocates size fcl
  allocates = extends (contents fcl) refl (get_first_free_chunk_pops fcl f.valid)

-- Chunk files in which block `o` of file `f` has been taken.
pub record IsGrown (cfi cfi' : ChunkFileInfo) (f o : ℕ) : Type 0 where
  pub fd : ℤ
  pub size : ℕ
  pub fcl : FreeChunkList
  pub size' : ℕ
  pub fcl' : FreeChunkList
  pub same_total : cfi'.total ≡ cfi.total
  pub same_fds : cfi'.fds ≡ cfi.fds
  pub before : HasFile cfi f fd size fcl
  pub after : HasFile cfi' f fd size' fcl'
  pub others :
      (i : ℕ) (fd : ℤ) (size : ℕ) (fcl : FreeChunkList)
      → i ≢ f
      → HasFile cfi i fd size fcl ↔ HasFile cfi' i fd size fcl
  pub taken : IsTaken size fcl o size' fcl'

abbrev pub put_file : ChunkFileInfo → ℕ → ℕ → FreeChunkList → ChunkFileInfo
put_file cfi f size fcl = record cfi {
  cur_size = set cfi.cur_size f size;
  fcls = set cfi.fcls f fcl;
}

module _ (cfi : ChunkFileInfo) (f : ℕ) (fd : ℤ) (size : ℕ) (fcl : FreeChunkList)
    (h : HasFile cfi f fd size fcl) where
  put_file-same : (n : ℕ) (l : FreeChunkList) → HasFile (put_file cfi f n l) f fd n l
  put_file-same n l = record {
    fd_at = h.fd_at;
    size_at = get_elem?-set_self cfi.cur_size f n (lt-of-get_elem? _ f _ h.size_at);
    fcl_at = get_elem?-set_self cfi.fcls f l (lt-of-get_elem? _ f _ h.fcl_at);
  }

  put_file-others :
      (n : ℕ) (l : FreeChunkList) (i : ℕ) (fd' : ℤ) (m : ℕ) (k : FreeChunkList)
      → i ≢ f
      → HasFile cfi i fd' m k ↔ HasFile (put_file cfi f n l) i fd' m k
  put_file-others n l i fd' m k ne =
      let sizes = get_elem?-set_ne cfi.cur_size {i = f} {j = i} n (λ e. ne (sym e)) in
      let lists = get_elem?-set_ne cfi.fcls {i = f} {j = i} l (λ e. ne (sym e)) in
      (
        λ g. record { fd_at = g.fd_at; size_at = sizes ∙ g.size_at; fcl_at = lists ∙ g.fcl_at },
        λ g. record {
          fd_at = g.fd_at;
          size_at = sym sizes ∙ g.size_at;
          fcl_at = sym lists ∙ g.fcl_at;
        },
      )

  -- Allocation in a sound file succeeds.
  pub allocate-IsGrown :
      IsSoundFile size fcl
      → (o : ℕ) × (cfi' : ChunkFileInfo) × (allocate cfi f ≡ some (pos o, cfi'))
        × IsGrown cfi cfi' f o
  allocate-IsGrown ok =
      let a = allocates size fcl ok in
      (
        a.o,
        put_file cfi f a.size' a.popped,
        unfold allocate in rw (h.fcl_at, h.size_at, a.pops, a.from),
        record {
          fd = fd;
          size = size;
          fcl = fcl;
          size' = a.size';
          fcl' = a.popped;
          same_total = refl;
          same_fds = refl;
          before = h;
          after = put_file-same a.size' a.popped;
          others = put_file-others a.size' a.popped;
          taken = a.taken;
        },
      )
