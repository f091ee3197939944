-- ===== src/Fuse/Read.antt =====
-- `fuse_read` (src/client/agilefs-fuse.c) over a store that has the blocks of the file.
use agilefs.Prelude.{
  ℕ, zero, suc, ◌+◌, ◌-◌, ◌*◌, ◌/◌, ◌%◌, ◌≤◌, ◌<◌, ◌^◌, ◌≡◌, sym, ap, ap₂, ◌∙◌, arith, some, List,
  [], ◌++◌, length, take, drop, ltb, lt→ltb, le→ltb, min, append-nil, append_assoc, take-append_le,
  take-append_ge, take-all, drop-append_ge, take-length_append, drop-length, length-take,
  length-append, length-drop, eq_nil, Bool-cases, inl, inr, ltb→lt, ltb→le,
}
use agilefs.Prelude.Int.{ℤ, pos, add_int-pos}
use agilefs.Platform.{Key, BlockData, Platform, Laws}
use agilefs.ChunkIo.{State}
use agilefs.ChunkIo.Sound.{Stored, IsPlaced}
use agilefs.ChunkIo.ReadPart.{block_read_part}
use agilefs.Fuse.{get_min, piece, overlay, read_piece, read_from}

-- Block `b` of the metafile has the hash of a stored block with the given bytes.
pub record IsBlock (p : Platform) (s : State p) (fd : ℤ) (b : ℕ) (bytes : List ℕ) : Type 0 where
  pub key : Key
  pub bd : BlockData
  pub hash : p.pread s.world fd 16 (pos (b * 16 + 16)) ≡ some key
  pub whole : length key ≡ 16
  pub stored : Stored p s key bd
  pub placed : IsPlaced p s bd
  pub content : placed.bytes ≡ bytes

-- The `k` blocks from block `b0` on.
abbrev pub HasBlocks : (p : Platform) → State p → ℤ → (ℕ → List ℕ) → ℕ → ℕ → Type 0
HasBlocks p s fd blk k b0 = (b : ℕ) → b0 ≤ b → b < b0 + k → IsBlock p s fd b (blk b)

-- The bytes of `k` blocks from block `b` on.
abbrev pub file_bytes : (ℕ → List ℕ) → ℕ → ℕ → List ℕ
file_bytes blk zero b = []
file_bytes blk (suc k) b = blk b ++ file_bytes blk k (b + 1)

get_min-min : (a b : ℕ) → get_min a b ≡ min a b
unfolding get_min
get_min-min a b = ground arith

min-eq : (n : ℕ) → n < 4096 → n ≡ min 4096 n
min-eq n h = omega arith

rest-eq : (n : ℕ) → n < 4096 → 0 ≡ n - min 4096 n
rest-eq n h = omega arith

take-file_bytes :
    (blk : ℕ → List ℕ) (k b n : ℕ)
    → length (blk b) ≡ 4096
    → take n (file_bytes blk (suc k) b)
      ≡ take (min 4096 n) (blk b) ++ take (n - min 4096 n) (file_bytes blk k (b + 1))
take-file_bytes blk k b n len =
    let later : List ℕ = file_bytes blk k (b + 1) in
    elim (Bool-cases (ltb n 4096)) [
      | inl e ↦
          let lt : n < 4096 = ltb→lt n 4096 e in
          take-append_le (blk b) later n (omega arith)
          ∙ sym (append-nil _)
          ∙ ap₂ (λ (m r : ℕ). take m (blk b) ++ take r later) (min-eq n lt) (rest-eq n lt)
      | inr e ↦
          let ge : 4096 ≤ n = ltb→le n 4096 e in
          take-append_ge (blk b) later n (omega arith)
          ∙ ap₂ (λ u (r : ℕ). u ++ take r later) (sym (take-all (blk b) (min 4096 n) (omega arith)))
              (let more : n - length (blk b) ≡ n - min 4096 n = omega arith in more)
    ]

pub piece-aligned : (last i : ℕ) → i % 4096 ≡ 0 → piece last i ≡ min 4096 (last - i)
unfolding piece
piece-aligned last i al = rw (al, get_min-min (last - i) 4096) (omega arith)

-- Writing the next bytes into a buffer of which the first are done.
overlay-next :
    (done rest part : List ℕ) (at : ℕ)
    → length done ≡ at
    → overlay (done ++ rest) at part ≡ (done ++ part) ++ drop (length part) rest
overlay-next done rest part at e =
    ap₂ (λ u v. u ++ (part ++ v)) (take-length_append done rest e)
      (drop-append_ge done rest (at + length part) (length part) (omega arith))
    ∙ sym (append_assoc done part (drop (length part) rest))

module _ (p : Platform) (l : Laws p) (s : State p) (fd : ℤ) (size offset : ℕ)
    (blk : ℕ → List ℕ) where
  abbrev last : ℕ
  last = size + offset

  -- A round at the start of a block that the file has: as many bytes as are asked for, or the
  -- whole block.
  read_piece_lem :
      (i : ℕ) (buf : List ℕ) (b : IsBlock p s fd (i / 4096) (blk (i / 4096)))
      → i % 4096 ≡ 0
      → read_piece p fd size offset i b.key buf s
        ≡ some (
          pos (min 4096 (last - i)),
          overlay buf (i - offset) (take (min 4096 (last - i)) (blk (i / 4096))),
        )
  read_piece_lem i buf b al =
      unfold read_piece in
      rw
        (
          get_min-min 4096 (last - i),
          al,
          block_read_part p l s b.key b.bd 0 (min 4096 (last - i)) b.stored b.placed (omega arith),
          b.content,
        )
        (ap
          (λ (n : ℕ).
            some (pos n, overlay buf (i - offset) (take (min 4096 (last - i)) (blk (i / 4096)))))
          full)
    where
      full : length (take (min 4096 (last - i)) (blk (i / 4096))) ≡ min 4096 (last - i)
      full = omega (
        arith,
        length-take (min 4096 (last - i)) (blk (i / 4096)),
        ap length b.content,
        b.placed.full,
      )

  pub round :
      (fuel end i count : ℕ) (old : Key) (buf : List ℕ)
      (b : IsBlock p s fd (i / 4096) (blk (i / 4096)))
      → i % 4096 ≡ 0
      → i < end
      → count + min 4096 (last - i) < 2 ^ 31
      → length old ≡ 16
      → read_from p (suc fuel) fd size offset end i old (pos count) buf s
        ≡ read_from p fuel fd size offset end
            (i + min 4096 (last - i))
            b.key
            (pos (count + min 4096 (last - i)))
            (overlay buf (i - offset) (take (min 4096 (last - i)) (blk (i / 4096))))
            s
  unfolding read_from
  round fuel end i count old buf b al lt fits o = rw (
    read_from,
    lt→ltb i end lt,
    b.hash,
    drop-length old (o ∙ sym b.whole),
    append-nil b.key,
    read_piece_lem i buf b al,
    piece-aligned last i al,
    add_int-pos count (min 4096 (last - i)) fits,
  )

  pub read_from_done :
      (fuel end i : ℕ) (old : Key) (count : ℤ) (buf : List ℕ)
      → end ≤ i
      → read_from p fuel fd size offset end i old count buf s ≡ some (count, buf)
  unfolding read_from
  read_from_done zero end i old count buf h = rw (le→ltb i end h)
  read_from_done (suc fuel) end i old count buf h = rw (read_from, le→ltb i end h)

  -- The buffer after a round, as what is done and what is left.
  module _ (i n : ℕ) (done rest : List ℕ) (e : i + n ≡ last) (at : length done ≡ i - offset)
      (left : length rest ≡ n) (len : length (blk (i / 4096)) ≡ 4096) where
    abbrev m : ℕ
    m = min 4096 n

    abbrev part : List ℕ
    part = take m (blk (i / 4096))

    length-part : length part ≡ m
    length-part = omega (arith, length-take m (blk (i / 4096)), len)

    buffer_lem :
        overlay (done ++ rest) (i - offset) (take (min 4096 (last - i)) (blk (i / 4096)))
        ≡ (done ++ part) ++ drop m rest
    buffer_lem =
        ap (λ (j : ℕ). overlay (done ++ rest) (i - offset) (take (min 4096 j) (blk (i / 4096))))
          (let same : last - i ≡ n = omega arith in same)
        ∙ overlay-next done rest part (i - offset) at
        ∙ ap (λ (j : ℕ). (done ++ part) ++ drop j rest) length-part

    assemble :
        (k : ℕ)
        → (done ++ part) ++ take (n - m) (file_bytes blk k (i / 4096 + 1))
          ≡ done ++ take n (file_bytes blk (suc k) (i / 4096))
    assemble k =
        append_assoc done part (take (n - m) (file_bytes blk k (i / 4096 + 1)))
        ∙ ap (λ t. done ++ t) (sym (take-file_bytes blk k (i / 4096) n len))

    step :
        (fuel count : ℕ) (old : Key) (b : IsBlock p s fd (i / 4096) (blk (i / 4096)))
        → i % 4096 ≡ 0
        → 0 < n
        → count + n < 2 ^ 31
        → length old ≡ 16
        → read_from p (suc fuel) fd size offset last i old (pos count) (done ++ rest) s
          ≡ read_from p fuel fd size offset last
              (i + m)
              b.key
              (pos (count + m))
              ((done ++ part) ++ drop m rest)
              s
    step fuel count old b al pos_n fits o =
        round fuel last i count old (done ++ rest) b al (omega arith) (omega arith) o
        ∙ ap₂
            (λ (j : ℕ) buf.
              read_from p fuel fd size offset last (i + min 4096 j) b.key (pos (count + min 4096 j))
                buf s)
            (let same : last - i ≡ n = omega arith in same) buffer_lem

    -- The request ends in this block.
    ends :
        (k fuel count : ℕ) (old : Key) (b : IsBlock p s fd (i / 4096) (blk (i / 4096)))
        → i % 4096 ≡ 0
        → 0 < n
        → n ≤ 4096
        → count + n < 2 ^ 31
        → length old ≡ 16
        → read_from p (suc fuel) fd size offset last i old (pos count) (done ++ rest) s
          ≡ some (pos (count + n), done ++ take n (file_bytes blk (suc k) (i / 4096)))
    ends k fuel count old b al pos_n small fits o =
        step fuel count old b al pos_n fits o
        ∙ read_from_done fuel last (i + m) b.key (pos (count + m)) _ (omega arith)
        ∙ ap₂ (λ (j : ℕ) buf. some (pos (count + j), buf)) same
            (ap (λ t. (done ++ part) ++ t) no_rest ∙ assemble k)
      where
        same : m ≡ n
        same = omega arith

        no_rest : drop m rest ≡ take (n - m) (file_bytes blk k (i / 4096 + 1))
        no_rest =
            drop-length rest (left ∙ sym same)
            ∙ ap (λ (j : ℕ). take j (file_bytes blk k (i / 4096 + 1)))
                (let zero_left : 0 ≡ n - m = omega arith in zero_left)

  pub read_from_lem :
      (k fuel i n count : ℕ) (old : Key) (done rest : List ℕ)
      → HasBlocks p s fd blk k (i / 4096)
      → i % 4096 ≡ 0
      → i + n ≡ last
      → n ≤ fuel
      → n ≤ 4096 * k
      → count + n < 2 ^ 31
      → offset ≤ i
      → length done ≡ i - offset
      → length rest ≡ n
      → length old ≡ 16
      → read_from p fuel fd size offset last i old (pos count) (done ++ rest) s
        ≡ some (pos (count + n), done ++ take n (file_bytes blk k (i / 4096)))
  read_from_lem k fuel i zero count old done rest bs al e hf hk small ho at left o =
      read_from_done fuel last i old (pos count) (done ++ rest) (omega arith)
      ∙ ap₂ (λ (j : ℕ) buf. some (pos j, buf)) (let same : count ≡ count + 0 = omega arith in same)
          (ap (λ r. done ++ r) (eq_nil rest left))
  read_from_lem zero fuel i (suc n) count old done rest bs al e hf hk small ho at left o =
      absurd (omega arith)
  read_from_lem (suc k) zero i (suc n) count old done rest bs al e hf hk small ho at left o =
      absurd (omega arith)
  read_from_lem (suc k) (suc fuel) i (suc n) count old done rest bs al e hf hk small ho at left o =
      elim (Bool-cases (ltb 4096 (suc n))) [
        | inl e' ↦
            let more : 4096 < suc n = ltb→lt _ _ e' in
            let whole : m i (suc n) done rest e at left len ≡ 4096 = omega arith in
            let next_block : (i + m i (suc n) done rest e at left len) / 4096 ≡ i / 4096 + 1 =
              omega arith in
            step i (suc n) done rest e at left len fuel count old b al (omega arith) (omega arith) o
            ∙ read_from_lem k fuel (i + min 4096 (suc n)) (suc n - min 4096 (suc n))
                (count + min 4096 (suc n)) b.key (done ++ take (min 4096 (suc n)) (blk (i / 4096)))
                (drop (min 4096 (suc n)) rest) (λ j p q. bs j (omega arith) (omega arith))
                (omega arith) (omega arith) (omega arith) (omega arith) (omega arith) (omega arith)
                (length-append done _
                  ∙ omega (arith, length-part i (suc n) done rest e at left len))
                (length-drop (min 4096 (suc n)) rest ∙ omega arith) b.whole
            ∙ ap₂ (λ (j : ℕ) buf. some (pos j, buf)) (omega arith)
                (ap
                    (λ (j : ℕ).
                      (done ++ take (min 4096 (suc n)) (blk (i / 4096)))
                      ++ take (suc n - min 4096 (suc n)) (file_bytes blk k j))
                    next_block
                  ∙ assemble i (suc n) done rest e at left len k)
        | inr fits ↦
            ends i (suc n) done rest e at left len k fuel count old b al (omega arith)
              (ltb→le _ _ fits) (omega arith) o
      ]
    where
      b : IsBlock p s fd (i / 4096) (blk (i / 4096))
      b = bs (i / 4096) (omega arith) (omega arith)

      len : length (blk (i / 4096)) ≡ 4096
      len = ap length (sym b.content) ∙ b.placed.full
