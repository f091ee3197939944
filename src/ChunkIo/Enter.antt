-- ===== src/ChunkIo/Enter.antt =====
-- Soundness across the second half of `block_write` (src/server/chunks-io.c): the block is written at
-- the place that was taken, and may be entered in the database.
use agilefs.Prelude.{
  ℕ, ◌/◌, ◌<◌, ◌≡◌, ◌≢◌, ◌⊎◌, inl, inr, sym, ap, ◌∙◌, arith, some, none, List, length, get_elem?,
  Bool-cases, ◌==◌, ==→eq, ne→≢, some-inj,
}
use agilefs.Prelude.Int.{ℤ, pos}
use agilefs.Chunks.{FreeChunkList}
use agilefs.ChunkFiles.{ChunkFileInfo}
use agilefs.Platform.{Key, BlockData, Platform, Disjoint}
use agilefs.HashDb.{db_get}
use agilefs.ChunkIo.{State}
use agilefs.ChunkIo.Sound.{HasFile, IsSoundFile, Stored, IsPlaced, IsSound}
use agilefs.ChunkIo.Allocate.{IsGrown}

abbrev pub new_block : ℕ → ℕ → BlockData
new_block f o = record { fd_index = f; ref_count = 1; offset = o }

module _ (p : Platform) (s : State p) (sound : IsSound p s) (cfi' : ChunkFileInfo) (f o : ℕ)
    (g : IsGrown s.cfi cfi' f o) (w : p.World) where
  abbrev pub moved : State p
  moved = record { cfi = cfi'; world = w }

  -- The world differs from the old one in the taken block only.
  abbrev pub Keeps : Type 0
  Keeps =
      (fd' : ℤ) (o' : ℕ) (old : List ℕ)
      → (g.fd ≢ fd') ⊎ Disjoint o 4096 o' 4096
      → length old ≡ 4096
      → p.pread s.world fd' 4096 (pos o') ≡ some old
      → p.pread w fd' 4096 (pos o') ≡ some old

  -- A placed block is not the one that was taken.
  module _ (bd : BlockData) (b : IsPlaced p s bd) where
    same_size : bd.fd_index ≡ f → b.size ≡ g.size
    same_size e = some-inj (sym (b.file.size_at) ∙ rw e (g.before.size_at))

    same_fcl : bd.fd_index ≡ f → b.fcl ≡ g.fcl
    same_fcl e = some-inj (sym (b.file.fcl_at) ∙ rw e (g.before.fcl_at))

    same_fd : bd.fd_index ≡ f → b.fd ≡ g.fd
    same_fd e = some-inj (sym (b.file.fd_at) ∙ rw e (g.before.fd_at))

    pub offset-ne : bd.fd_index ≡ f → bd.offset ≢ o
    offset-ne e =
        g.taken.fresh bd.offset (rw (← same_size e) (b.inside)) b.aligned
          (rw (same_fcl e) at (b.not_free))

    apart_in_file : bd.fd_index ≡ f → Disjoint o 4096 bd.offset 4096
    apart_in_file e = omega (arith, offset-ne e, b.aligned, g.taken.aligned)

    moved-here : Keeps → bd.fd_index ≡ f → IsPlaced p moved bd
    moved-here keeps e = record {
      fd = g.fd;
      size = g.size';
      fcl = g.fcl';
      bytes = b.bytes;
      file = rw e (g.after);
      inside = omega (arith, b.inside, same_size e, g.taken.grows);
      aligned = b.aligned;
      not_free = λ h. b.not_free (rw (same_fcl e) (g.taken.fewer (bd.offset / 4096) h));
      reads =
          keeps g.fd bd.offset b.bytes (inr (apart_in_file e)) b.full (rw (← same_fd e) (b.reads));
      full = b.full;
    }

    moved-there : Keeps → bd.fd_index ≢ f → IsPlaced p moved bd
    moved-there keeps ne = record {
      fd = b.fd;
      size = b.size;
      fcl = b.fcl;
      bytes = b.bytes;
      file = (g.others bd.fd_index b.fd b.size b.fcl ne).0 b.file;
      inside = b.inside;
      aligned = b.aligned;
      not_free = b.not_free;
      reads =
          keeps b.fd bd.offset b.bytes
            (inl (λ e.
              sound.separate f bd.fd_index g.fd b.fd (λ q. ne (sym q)) g.before.fd_at b.file.fd_at
                e))
            b.full b.reads;
      full = b.full;
    }

    pub moved-IsPlaced : Keeps → IsPlaced p moved bd
    moved-IsPlaced keeps = elim (Bool-cases (bd.fd_index == f)) [
      | inl e ↦ moved-here keeps (==→eq bd.fd_index f e)
      | inr e ↦ moved-there keeps (ground arith)
    ]

    away : (g.fd ≢ b.fd) ⊎ Disjoint o 4096 bd.offset 4096
    away = elim (Bool-cases (bd.fd_index == f)) [
      | inl e ↦ inr (apart_in_file (==→eq bd.fd_index f e))
      | inr e ↦ inl (
          sound.separate f bd.fd_index g.fd b.fd (λ q. ne→≢ bd.fd_index f e (sym q)) g.before.fd_at
            b.file.fd_at)
    ]

    pub moved-reads : Keeps → p.pread w b.fd 4096 (pos bd.offset) ≡ some b.bytes
    moved-reads keeps = keeps b.fd bd.offset b.bytes away b.full b.reads

    pub moved-fd : get_elem? cfi'.fds bd.fd_index ≡ some b.fd
    moved-fd = rw (g.same_fds) (b.file.fd_at)

  -- Every entry of the new database is an old one, or that of the block just written.
  abbrev pub Entries : Key → List ℕ → Type 0
  Entries key buf =
      (k : Key) (bd : BlockData)
      → Stored p moved k bd
      → Stored p s k bd
        ⊎ ((k ≡ key) × (bd ≡ new_block f o) × (p.pread w g.fd 4096 (pos o) ≡ some buf))

  module _ (keeps : Keeps) (key : Key) (buf : List ℕ) (len : length buf ≡ 4096)
      (absent : db_get p key s.world ≡ some none) (entries : Entries key buf) where
    new-IsPlaced : p.pread w g.fd 4096 (pos o) ≡ some buf → IsPlaced p moved (new_block f o)
    new-IsPlaced r = record {
      fd = g.fd;
      size = g.size';
      fcl = g.fcl';
      bytes = buf;
      file = g.after;
      inside = g.taken.inside;
      aligned = g.taken.aligned;
      not_free = g.taken.not_free;
      reads = r;
      full = len;
    }

    moved-placed : (k : Key) (bd : BlockData) → Stored p moved k bd → IsPlaced p moved bd
    moved-placed k bd st = elim (entries k bd st) [
      | inl old ↦ moved-IsPlaced bd (sound.placed k bd old) keeps
      | inr (ek, eb, r) ↦ rw eb (new-IsPlaced r)
    ]

    moved-apart :
        (k k' : Key) (bd bd' : BlockData)
        → k ≢ k'
        → Stored p moved k bd
        → Stored p moved k' bd'
        → bd.fd_index ≡ bd'.fd_index
        → bd.offset ≢ bd'.offset
    moved-apart k k' bd bd' ne st st' same q = elim (entries k bd st) [
      | inl old ↦ elim (entries k' bd' st') [
        | inl old' ↦ sound.apart k k' bd bd' ne old old' same q
        | inr (ek', eb', r') ↦
            offset-ne bd (sound.placed k bd old) (same ∙ ap (λ b. b.fd_index) eb')
              (q ∙ ap (λ b. b.offset) eb')
      ]
      | inr (ek, eb, r) ↦ elim (entries k' bd' st') [
        | inl old' ↦
            offset-ne bd' (sound.placed k' bd' old') (sym same ∙ ap (λ b. b.fd_index) eb)
              (sym q ∙ ap (λ b. b.offset) eb)
        | inr (ek', eb', r') ↦ ne (ek ∙ sym ek')
      ]
    ]

    moved-files :
        (i : ℕ) (fd : ℤ) (size : ℕ) (fcl : FreeChunkList)
        → HasFile cfi' i fd size fcl
        → IsSoundFile size fcl
    moved-files i fd size fcl h = elim (Bool-cases (i == f)) [
      | inl e ↦
          let h' : HasFile cfi' f fd size fcl = rw (==→eq i f e) at h in
          let es : size ≡ g.size' = some-inj (sym (h'.size_at) ∙ g.after.size_at) in
          let el : fcl ≡ g.fcl' = some-inj (sym (h'.fcl_at) ∙ g.after.fcl_at) in
          rw (es, el) (g.taken.sound)
      | inr e ↦ sound.files i fd size fcl ((g.others i fd size fcl (ground arith)).1 h)
    ]

    moved-known :
        (i : ℕ)
        → i < cfi'.total
        → (fd : ℤ) × (size : ℕ) × (fcl : FreeChunkList) × HasFile cfi' i fd size fcl
    moved-known i lt = elim (Bool-cases (i == f)) [
      | inl e ↦ (g.fd, g.size', g.fcl', rw (==→eq i f e) (g.after))
      | inr e ↦
          let (fd, size, fcl, h) = sound.known i (rw (← g.same_total) lt) in
          (fd, size, fcl, (g.others i fd size fcl (ground arith)).0 h)
    ]

    pub moved-IsSound : IsSound p moved
    moved-IsSound = record {
      known = moved-known;
      files = moved-files;
      separate = λ i j fd fd' ne a b.
          sound.separate i j fd fd' ne (rw g.same_fds at a) (rw g.same_fds at b);
      placed = moved-placed;
      apart = moved-apart;
    }
