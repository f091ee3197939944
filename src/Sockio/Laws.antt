-- ===== src/Sockio/Laws.antt =====
-- What `sockio_nbrecv` receives and what `sockio_nbsend` sends (src/io/net/sockio.c).
use agilefs.Prelude.{
  ℕ, zero, suc, ◌+◌, ◌-◌, ◌≤◌, ◌<◌, ◌≡◌, ◌≢◌, refl, sym, ap, ◌∙◌, arith, Option, some, List, [],
  ◌∷◌, ◌++◌, length, take, drop, replicate, take-append-drop, length-take, length-append,
  append-nil, append_assoc, some-inj, none-ne-some, Bool-cases, inl, inr, ◌==◌, ltb, ltb→lt, ltb→le,
  take-all,
}
use agilefs.Prelude.Int.{ℤ, pos, minus_one}
use agilefs.Sockio.{
  Received, waiting, interrupted, would_block, failed, nbrecv_from, sockio_nbrecv, Sent, takes,
  no_send, send_interrupted, send_failed, nbsend_from, sockio_nbsend,
}

-- All the bytes that arrive.
abbrev pub stream : List Received → List ℕ
stream [] = []
stream (waiting bytes ∷ results) = bytes ++ stream results
stream (interrupted ∷ results) = stream results
stream (would_block ∷ results) = stream results
stream (failed ∷ results) = stream results

-- `n` bytes from the start of the stream were put behind `buf`.
abbrev ReceivedOn : List ℕ → ℕ → List ℕ → List ℕ → Type 0
ReceivedOn buf n buf' all =
    (got : List ℕ) × (rest : List ℕ) × (buf' ≡ buf ++ got) × (all ≡ got ++ rest) × (n ≡ length buf')

code-inj :
    {n m : ℕ} {a b : List ℕ}
    → ◌≡◌ {A = Option (ℤ × List ℕ)} (some (pos n, a)) (some (pos m, b))
    → (n ≡ m) × (a ≡ b)
code-inj e = (pos-inj (ap (λ r. r.0) (some-inj e)), ap (λ r. r.1) (some-inj e))
  where
    pos-inj : {n m : ℕ} → pos n ≡ pos m → n ≡ m
    pos-inj e = cc

code-wrong :
    {m : ℕ} {a b : List ℕ}
    → ◌≡◌ {A = Option (ℤ × List ℕ)} (some (minus_one, a)) (some (pos m, b))
    → ⊥
code-wrong {m = m} e = let wrong : minus_one ≡ pos m = ap (λ r. r.0) (some-inj e) in cc

-- More bytes wait than are asked for.
full_part :
    (len comp n : ℕ) (buf buf' bytes : List ℕ) (results : List Received)
    → suc comp < length bytes
    → len ≡ suc comp + length buf
    → nbrecv_from len
        (suc comp - length (take (suc comp) bytes))
        (buf ++ take (suc comp) bytes)
        results
      ≡ some (pos n, buf')
    → ReceivedOn buf n buf' (bytes ++ stream results)
unfolding nbrecv_from
full_part len comp n buf buf' bytes results more l e =
    let first : List ℕ = take (suc comp) bytes in
    let size : length first ≡ suc comp = omega (arith, length-take (suc comp) bytes) in
    let none_left : suc comp - length first ≡ 0 = omega arith in
    let longer = length-append buf first in
    let (en, eb) = code-inj (rw none_left at e) in
    (
      first,
      drop (suc comp) bytes ++ stream results,
      sym eb,
      ap (λ r. r ++ stream results) (sym (take-append-drop (suc comp) bytes))
          ∙ append_assoc first (drop (suc comp) bytes) (stream results),
      rw (← eb) (omega arith),
    )

nbrecv_from-le :
    (results : List Received) (len comp n : ℕ) (buf buf' : List ℕ)
    → nbrecv_from len comp buf results ≡ some (pos n, buf')
    → n ≤ len
unfolding nbrecv_from
nbrecv_from-le results len zero n buf buf' e = let (en, eb) = code-inj e in omega arith
nbrecv_from-le [] len (suc comp) n buf buf' e = absurd (none-ne-some e)
nbrecv_from-le (waiting bytes ∷ results) len (suc comp) n buf buf' e =
    elim (Bool-cases (length (take (suc comp) bytes) == 0)) [
      | inl t ↦ absurd (code-wrong (rw t at e))
      | inr f ↦
          nbrecv_from-le results len (suc comp - length (take (suc comp) bytes)) n
            (buf ++ take (suc comp) bytes) buf' (rw f at e)
    ]
nbrecv_from-le (interrupted ∷ results) len (suc comp) n buf buf' e =
    nbrecv_from-le results len (suc comp) n buf buf' e
nbrecv_from-le (would_block ∷ results) len (suc comp) n buf buf' e =
    let (en, eb) = code-inj e in omega arith
nbrecv_from-le (failed ∷ results) len (suc comp) n buf buf' e = absurd (code-wrong e)

nbrecv_from_lem :
    (results : List Received) (len comp n : ℕ) (buf buf' : List ℕ)
    → len ≡ comp + length buf
    → nbrecv_from len comp buf results ≡ some (pos n, buf')
    → ReceivedOn buf n buf' (stream results)
unfolding nbrecv_from
nbrecv_from_lem results len zero n buf buf' l e =
    let (en, eb) = code-inj e in
    ([], stream results, sym eb ∙ sym (append-nil buf), refl, rw (← eb) (omega arith))
nbrecv_from_lem [] len (suc comp) n buf buf' l e = absurd (none-ne-some e)
nbrecv_from_lem (waiting bytes ∷ results) len (suc comp) n buf buf' l e =
    elim (Bool-cases (length (take (suc comp) bytes) == 0)) [
      | inl t ↦ absurd (code-wrong (rw t at e))
      | inr f ↦ elim (Bool-cases (ltb (suc comp) (length bytes))) [
        | inl more ↦ full_part len comp n buf buf' bytes results (ltb→lt _ _ more) l (rw f at e)
        | inr less ↦
            let fits : length bytes ≤ suc comp = ltb→le _ _ less in
            let whole : take (suc comp) bytes ≡ bytes = take-all bytes (suc comp) fits in
            let longer = length-append buf bytes in
            let (got, rest, eb, es, en) =
              nbrecv_from_lem results len (suc comp - length bytes) n (buf ++ bytes) buf'
                (omega arith) (rw whole at (rw f at e)) in
            (
              bytes ++ got,
              rest,
              eb ∙ append_assoc buf bytes got,
              rw es (sym (append_assoc bytes got rest)),
              en,
            )
      ]
    ]
nbrecv_from_lem (interrupted ∷ results) len (suc comp) n buf buf' l e =
    nbrecv_from_lem results len (suc comp) n buf buf' l e
nbrecv_from_lem (would_block ∷ results) len (suc comp) n buf buf' l e =
    let (en, eb) = code-inj e in
    ([], stream results, sym eb ∙ sym (append-nil buf), refl, rw (← eb) (omega arith))
nbrecv_from_lem (failed ∷ results) len (suc comp) n buf buf' l e = absurd (code-wrong e)

-- Where `sockio_nbrecv` returns a number that is not negative, the buffer has that many bytes, at
-- most the `len` that were asked for, and they are the first of the stream, in order.
pub sockio_nbrecv-prefix :
    (len n : ℕ) (buf : List ℕ) (results : List Received)
    → sockio_nbrecv len results ≡ some (pos n, buf)
    → (rest : List ℕ) × (stream results ≡ buf ++ rest) × (length buf ≡ n) × (n ≤ len)
unfolding sockio_nbrecv
sockio_nbrecv-prefix len n buf results e =
    let (got, rest, eb, es, en) = nbrecv_from_lem results len len n [] buf (omega arith) e in
    (rest, rw eb es, sym en, nbrecv_from-le results len len n [] buf e)

nbsend_from_zero :
    (results : List Sent) (comp : ℕ) (buf wire wire' : List ℕ) (code : ℤ)
    → nbsend_from (suc comp) (suc comp) buf wire results ≡ some (code, wire')
    → code ≡ pos 0
unfolding nbsend_from
nbsend_from_zero [] comp buf wire wire' code e = absurd (none-ne-some e)
nbsend_from_zero (takes n ∷ results) comp buf wire wire' code e =
    nbsend_from_zero results comp buf (wire ++ take n (take (suc comp) buf)) wire' code e
nbsend_from_zero (no_send ∷ results) comp buf wire wire' code e =
    let nothing : suc comp - suc comp ≡ 0 = omega arith in
    sym (ap (λ r. r.0) (some-inj e)) ∙ ap pos nothing
nbsend_from_zero (send_interrupted ∷ results) comp buf wire wire' code e =
    nbsend_from_zero results comp buf wire wire' code e
nbsend_from_zero (send_failed ∷ results) comp buf wire wire' code e =
    nbsend_from_zero results comp buf wire wire' code e

-- Whatever `send` does, `sockio_nbsend` of a buffer that is not empty returns 0 if it returns: it
-- reports neither the bytes that went out nor an error.
pub sockio_nbsend_returns_zero :
    (buf wire : List ℕ) (results : List Sent) (code : ℤ)
    → length buf ≢ 0
    → sockio_nbsend buf results ≡ some (code, wire)
    → code ≡ pos 0
unfolding sockio_nbsend
sockio_nbsend_returns_zero [] wire results code ne e = absurd (ne refl)
sockio_nbsend_returns_zero (x ∷ buf) wire results code ne e =
    nbsend_from_zero results (length buf) (x ∷ buf) [] wire code e

abbrev pub copies : ℕ → List ℕ → List ℕ
copies zero buf = []
copies (suc n) buf = buf ++ copies n buf

abbrev pub all_taken : List ℕ → Sent
all_taken buf = takes (length buf)

-- A buffer that `send` takes whole goes out again and again until a call would block.
pub sockio_nbsend_repeats :
    (x : ℕ) (buf : List ℕ) (n : ℕ)
    → sockio_nbsend (x ∷ buf) (replicate n (all_taken (x ∷ buf)) ++ no_send ∷ [])
      ≡ some (pos 0, copies n (x ∷ buf))
unfolding sockio_nbsend nbsend_from
sockio_nbsend_repeats x buf n = repeats n []
  where
    repeats :
        (n : ℕ) (wire : List ℕ)
        → nbsend_from
            (suc (length buf))
            (suc (length buf))
            (x ∷ buf)
            wire
            (replicate n (all_taken (x ∷ buf)) ++ no_send ∷ [])
          ≡ some (pos 0, wire ++ copies n (x ∷ buf))
    repeats zero wire =
        let nothing : suc (length buf) - suc (length buf) ≡ 0 = omega arith in
        rw (nothing, append-nil wire)
    repeats (suc n) wire =
        let once : take (suc (length buf)) (x ∷ buf) ≡ x ∷ buf =
          take-all (x ∷ buf) (suc (length buf)) (omega arith) in
        ap
          (λ r.
            nbsend_from (suc (length buf)) (suc (length buf)) (x ∷ buf) (wire ++ r)
              (replicate n (all_taken (x ∷ buf)) ++ no_send ∷ []))
          (ap (take (suc (length buf))) once ∙ once)
        ∙ repeats n (wire ++ x ∷ buf)
        ∙ ap (λ r. some (pos 0, r)) (append_assoc wire (x ∷ buf) (copies n (x ∷ buf)))
