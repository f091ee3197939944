-- ===== src/Md5/Update.antt =====
-- What `md5_update` leaves in a context (src/common/misc/md5.c): the state after all the whole blocks,
-- and the rest of the input in the buffer.
use agilefs.Prelude.{
  ◌≤◌, ◌<◌, ◌≡◌, sym, ap, ap₂, ◌∙◌, arith, Bool-cases, inl, inr, le→leb, lt→leb, lt→ltb, ltb,
  ltb→lt, ltb→le, length-drop, length-take, length-append, take-append_ge, drop-append_ge,
  drop-length, take-length_append, append-nil, append_assoc, eq_nil, ℕ, suc, ◌+◌, ◌-◌, ◌*◌, ◌/◌,
  ◌%◌, ◌^◌, leb, List, [], ◌∷◌, ◌++◌, length, take, drop,
}
use agilefs.Md5.{
  Words, Md5Context, ulong, copy_at, md5_process, update_rest, count_bytes, md5_update,
}
use agilefs.Md5.Blocks.{whole, drop-drop, process_blocks_lem}

-- The state `v`, and `tail` in the buffer.
pub record Holds (ctx : Md5Context) (v : Words) (tail : List ℕ) : Type 0 where
  pub state : ctx.state ≡ v
  pub room : length ctx.buffer ≡ 64
  pub short : length tail < 64
  pub count : ctx.total0 % 64 ≡ length tail
  pub kept : take (length tail) ctx.buffer ≡ tail

length-copy :
    (buffer bytes : List ℕ) (at : ℕ)
    → at + length bytes ≤ length buffer
    → length (copy_at buffer at bytes) ≡ length buffer
length-copy buffer bytes at le = omega (
  arith,
  length-append (take at buffer) (bytes ++ drop (at + length bytes) buffer),
  length-append bytes (drop (at + length bytes) buffer),
  length-take at buffer,
  length-drop (at + length bytes) buffer,
)

take-copy :
    (buffer bytes : List ℕ) (at : ℕ)
    → at + length bytes ≤ length buffer
    → take (at + length bytes) (copy_at buffer at bytes) ≡ take at buffer ++ bytes
take-copy buffer bytes at le =
    ap (take (at + length bytes))
      (sym (append_assoc (take at buffer) bytes (drop (at + length bytes) buffer)))
    ∙ take-length_append (take at buffer ++ bytes) (drop (at + length bytes) buffer)
        (omega (arith, length-append (take at buffer) bytes, length-take at buffer))

pub low_mod : (a b : ℕ) → ulong (a + b) % 2 ^ 32 % 64 ≡ (a + b) % 64
low_mod a b = omega arith

pub rest-eq :
    (ctx : Md5Context) (left : ℕ) (input : List ℕ)
    → update_rest ctx left input ≡ record ctx {
      state = whole (length input / 64) ctx.state input;
      buffer = copy_at ctx.buffer left (drop (64 * (length input / 64)) input);
    }
unfolding update_rest
rest-eq ctx left input =
    rw (update_rest, process_blocks_lem (length input) ctx.state input (omega arith))

pub fills-eq :
    (ctx : Md5Context) (x : ℕ) (xs : List ℕ)
    → 0 < ctx.total0 % 64
    → 64 - ctx.total0 % 64 ≤ length (x ∷ xs)
    → md5_update ctx (x ∷ xs) ≡ (
        let full = copy_at ctx.buffer (ctx.total0 % 64) (take (64 - ctx.total0 % 64) (x ∷ xs)) in
        update_rest
          (record (count_bytes ctx (length (x ∷ xs))) {
            state = md5_process ctx.state full;
            buffer = full;
          })
          0
          (drop (64 - ctx.total0 % 64) (x ∷ xs)))
unfolding md5_update
fills-eq ctx x xs some_left enough = rw (
  md5_update,
  lt→ltb 0 (ctx.total0 % 64) some_left,
  le→leb (64 - ctx.total0 % 64) (length (x ∷ xs)) enough,
)

pub empty-eq :
    (ctx : Md5Context) (x : ℕ) (xs : List ℕ)
    → ctx.total0 % 64 ≡ 0
    → md5_update ctx (x ∷ xs) ≡ update_rest (count_bytes ctx (length (x ∷ xs))) 0 (x ∷ xs)
unfolding md5_update
empty-eq ctx x xs e = rw (md5_update, e)

pub fits-eq :
    (ctx : Md5Context) (x : ℕ) (xs : List ℕ)
    → length (x ∷ xs) < 64 - ctx.total0 % 64
    → md5_update ctx (x ∷ xs)
      ≡ update_rest (count_bytes ctx (length (x ∷ xs))) (ctx.total0 % 64) (x ∷ xs)
unfolding md5_update
fits-eq ctx x xs few = elim (Bool-cases (ltb 0 (ctx.total0 % 64))) [
  | inl e ↦ rw (md5_update, e, lt→leb (64 - ctx.total0 % 64) (length (x ∷ xs)) few)
  | inr e ↦ rw (md5_update, e)
]

-- The end of `md5_update` with nothing left from before.
rest-Holds :
    (ctx : Md5Context) (v : Words) (input : List ℕ)
    → ctx.state ≡ v
    → length ctx.buffer ≡ 64
    → ctx.total0 % 64 ≡ length input % 64
    → Holds
        (update_rest ctx 0 input)
        (whole (length input / 64) v input)
        (drop (64 * (length input / 64)) input)
rest-Holds ctx v input e room count =
    let tail : List ℕ = drop (64 * (length input / 64)) input in
    let left : length tail ≡ length input % 64 =
      omega (arith, length-drop (64 * (length input / 64)) input) in
    let at : 0 + length tail ≡ length tail = omega arith in
    rw (rest-eq ctx 0 input) (record {
      state = ap (λ w. whole (length input / 64) w input) e;
      room = length-copy ctx.buffer tail 0 (omega arith) ∙ room;
      short = omega arith;
      count = omega arith;
      kept =
          ap (λ k. take k (copy_at ctx.buffer 0 tail)) (sym at)
          ∙ take-copy ctx.buffer tail 0 (omega arith);
    })

-- All of the bytes since the last block.
abbrev pub Absorbs : Md5Context → Words → List ℕ → Type 0
Absorbs ctx v bytes =
    Holds ctx (whole (length bytes / 64) v bytes) (drop (64 * (length bytes / 64)) bytes)

pub Holds-cong :
    (ctx : Md5Context) {v w : Words} {s t : List ℕ} → v ≡ w → s ≡ t → Holds ctx v s → Holds ctx w t
Holds-cong ctx e f h = rw (← e, ← f) h

module _ (ctx : Md5Context) (v : Words) (tail : List ℕ) (h : Holds ctx v tail) (x : ℕ)
    (xs : List ℕ) where
  abbrev input : List ℕ
  input = x ∷ xs

  abbrev fill : ℕ
  fill = 64 - ctx.total0 % 64

  counted_mod : (count_bytes ctx (length input)).total0 % 64 ≡ length (tail ++ input) % 64
  unfolding count_bytes
  counted_mod = low_mod ctx.total0 (length input) ∙ omega (arith, h.count, length-append tail input)

  counted_same :
      ((count_bytes ctx (length input)).state ≡ v)
      × (length (count_bytes ctx (length input)).buffer ≡ 64)
      × (take (length tail) (count_bytes ctx (length input)).buffer ≡ tail)
  unfolding count_bytes
  counted_same = (h.state, h.room, h.kept)

  -- The block that is filled.
  block_lem :
      fill ≤ length input
      → copy_at ctx.buffer (ctx.total0 % 64) (take fill input) ≡ take 64 (tail ++ input)
  block_lem enough =
      let part : length (take fill input) ≡ fill = omega (arith, length-take fill input) in
      let nothing : drop (ctx.total0 % 64 + length (take fill input)) ctx.buffer ≡ [] =
        drop-length ctx.buffer (omega (arith, h.room, h.count, h.short)) in
      let same : 64 - length tail ≡ fill = omega (arith, h.count) in
      rw (nothing, append-nil (take fill input), h.count, h.kept)
        (sym (take-append_ge tail input 64 (omega (arith, h.short))))

  fills-Absorbs :
      0 < ctx.total0 % 64 → fill ≤ length input → Absorbs (md5_update ctx input) v (tail ++ input)
  fills-Absorbs some_left enough =
      let all : List ℕ = tail ++ input in
      let rest : List ℕ = drop fill input in
      let n : ℕ = length rest / 64 in
      let full : List ℕ = copy_at ctx.buffer (ctx.total0 % 64) (take fill input) in
      let is_block : full ≡ take 64 all = block_lem enough in
      let counted = count_bytes ctx (length input) in
      let sizes : length all ≡ 64 + length rest =
        omega (arith, length-append tail input, length-drop fill input, h.count, h.short) in
      let after : drop 64 all ≡ rest =
        drop-append_ge tail input 64 fill (omega (arith, h.count, h.short)) in
      let one_more : length all / 64 ≡ suc n = omega arith in
      let at : 64 * suc n ≡ 64 + 64 * n = omega arith in
      let kept_tail : drop (64 * suc n) all ≡ drop (64 * n) rest =
        ap (λ k. drop k all) at ∙ sym (drop-drop 64 (64 * n) all) ∙ ap (drop (64 * n)) after in
      let r : Absorbs (md5_update ctx input) (md5_process v (take 64 all)) rest =
        rw (fills-eq ctx x xs some_left enough) (
          rest-Holds (record counted { state = md5_process ctx.state full; buffer = full })
            (md5_process v (take 64 all)) rest (ap₂ md5_process h.state is_block)
            (ap length is_block ∙ omega (arith, length-take 64 all)) (counted_mod ∙ omega arith)) in
      Holds-cong (md5_update ctx input)
        (sym (ap (λ k. whole k v all) one_more ∙ ap (whole n (md5_process v (take 64 all))) after))
        (sym (ap (λ k. drop (64 * k) all) one_more ∙ kept_tail)) r

  empty-Absorbs : ctx.total0 % 64 ≡ 0 → Absorbs (md5_update ctx input) v (tail ++ input)
  empty-Absorbs e =
      let none_there : tail ≡ [] = eq_nil tail (omega (arith, h.count)) in
      rw (none_there, empty-eq ctx x xs e)
        (rest-Holds (count_bytes ctx (length input)) v input (counted_same.0) (counted_same.1)
          (rw none_there at counted_mod))

  fits-Absorbs : length input < fill → Absorbs (md5_update ctx input) v (tail ++ input)
  fits-Absorbs few =
      let all : List ℕ = tail ++ input in
      let sizes : length all ≡ length tail + length input = length-append tail input in
      let none_more : length all / 64 ≡ 0 = omega (arith, h.count) in
      let none_here : length input / 64 ≡ 0 = omega arith in
      let left : ctx.total0 % 64 ≡ length tail = h.count in
      let counted = count_bytes ctx (length input) in
      let (state, room, kept) = counted_same in
      let fits : length tail + length input ≤ length counted.buffer = omega (arith, room) in
      let here : Holds (md5_update ctx input) v all =
        rw (fits-eq ctx x xs few, rest-eq counted (ctx.total0 % 64) input, none_here, left)
          (record {
            state = state;
            room = length-copy counted.buffer input (length tail) fits ∙ room;
            short = omega (arith, h.count);
            count = counted_mod ∙ omega (arith, h.count);
            kept =
                ap (λ k. take k (copy_at counted.buffer (length tail) input)) sizes
                ∙ take-copy counted.buffer input (length tail) fits
                ∙ ap (λ t. t ++ input) kept;
          }) in
      Holds-cong (md5_update ctx input) (sym (ap (λ k. whole k v all) none_more))
        (sym (ap (λ k. drop (64 * k) all) none_more)) here

  pub update-Absorbs : Absorbs (md5_update ctx input) v (tail ++ input)
  update-Absorbs = elim (Bool-cases (ltb 0 (ctx.total0 % 64))) [
    | inr e ↦ empty-Absorbs (omega (arith, ltb→le 0 (ctx.total0 % 64) e))
    | inl e ↦ elim (Bool-cases (leb fill (length input))) [
      | inl enough ↦ fills-Absorbs (ltb→lt _ _ e) (ground arith)
      | inr few ↦ fits-Absorbs (ground arith)
    ]
  ]
