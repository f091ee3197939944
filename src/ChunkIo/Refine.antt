-- ===== src/ChunkIo/Refine.antt =====
-- The block store as a map from hashes to counted blocks (`put_new_chunk` and `block_read` of
-- src/server/chunks-io.c).
use agilefs.Prelude.{
  ℕ, ◌+◌, ◌<◌, ◌≡◌, ◌≢◌, ◌⊎◌, inl, inr, refl, sym, ap, ◌∙◌, true, false, Bool-cases, if◌then◌else◌,
  Option, some-inj, some, none, Option-cases, List, [], ◌∷◌, length,
}
use agilefs.Prelude.Int.{ℤ, pos, minus_one, eqb_ℤ}
use agilefs.ChunkFiles.{get_proper_chunk_file}
use agilefs.Platform.{Key, BlockData, Platform, Laws}
use agilefs.HashDb.{db_slot, db_get}
use agilefs.Disk.{same_key, same_key_refl, same_key→eq}
use agilefs.ChunkIo.{State, block_read, put_new_chunk, max_int}
use agilefs.ChunkIo.Sound.{Stored, IsSound}
use agilefs.ChunkIo.Put.{IsPut, put_new_chunk-IsPut}
use agilefs.ChunkIo.Reference.{IsShared, one_more, put_new_chunk-IsShared}

-- The references of a block and its bytes.
abbrev pub Entry : Type 0
Entry = ℕ × List ℕ

abbrev pub Map : Type 0
Map = Key → Option Entry

-- A block that is put again keeps its bytes.
abbrev pub counted : List ℕ → Option Entry → Entry
counted buf none = (1, buf)
counted buf (some (n, bytes)) = (n + 1, bytes)

-- A put that returned `code`: only 0 changes the map.
abbrev pub map_put : Key → List ℕ → ℤ → Map → Map
map_put key buf code m k =
    if eqb_ℤ code (pos 0) then (if same_key k key then some (counted buf (m key)) else m k) else m k

module _ (p : Platform) where
  abbrev pub Shows : State p → Key → Option Entry → Type 0
  Shows s k none = db_get p k s.world ≡ some none
  Shows s k (some (n, bytes)) =
      ((bd : BlockData) × Stored p s k bd × (bd.ref_count ≡ n))
      × (block_read p k 4096 0 s ≡ some (some bytes))

  -- The store has the entries of the map, for the hashes that index a database.
  abbrev pub Refines : State p → Map → Type 0
  Refines s m = (k : Key) → db_slot k ≡ some 0 → Shows s k (m k)

  -- A call that is allowed: a whole block, a hash that indexes the database, a file to put the block
  -- in, and a count that does not overflow.
  pub record MayPut (key : Key) (buf : List ℕ) (s : State p) : Type 0 where
    pub slot : db_slot key ≡ some 0
    pub whole : length buf ≡ 4096
    pub file : ℕ
    pub chosen : get_proper_chunk_file s.cfi ≡ some (pos file)
    pub below : file < s.cfi.total
    pub room : (bd : BlockData) → Stored p s key bd → bd.ref_count < max_int

  pub record IsStep (key : Key) (buf : List ℕ) (m : Map) (r : Option (ℤ × State p)) : Type 0 where
    pub code : ℤ
    pub after : State p
    pub returns : r ≡ some (code, after)
    pub sound : IsSound p after
    pub refines : Refines after (map_put key buf code m)
    pub answers : (code ≡ pos 0) ⊎ (code ≡ minus_one)

  map_put-here :
      (key k : Key) (buf : List ℕ) (m : Map)
      → k ≡ key
      → map_put key buf (pos 0) m k ≡ some (counted buf (m key))
  map_put-here key k buf m e = rw (e, same_key_refl key)

  -- The entries of the other hashes stay.
  others-Refines :
      (s after : State p) (key : Key) (buf : List ℕ) (m : Map)
      → Refines s m
      → Shows after key (some (counted buf (m key)))
      → ((k : Key) (e : Option Entry) → k ≢ key → Shows s k e → Shows after k e)
      → Refines after (map_put key buf (pos 0) m)
  others-Refines s after key buf m r here keeps k slot = elim (Bool-cases (same_key k key)) [
    | inl e ↦ rw e (rw (same_key→eq k key e) here)
    | inr e ↦ rw e (
        keeps k (m k)
          (λ same. let no : true ≡ false = sym (same_key_refl k) ∙ ap (same_key k) same ∙ e in cc)
          (r k slot))
  ]

  -- An entry that the store shows, in a state with the same one.
  Shows-cong :
      (s after : State p) (k : Key) (e : Option Entry)
      → db_get p k after.world ≡ db_get p k s.world
      → ((bd : BlockData) → Stored p s k bd → block_read p k 4096 0 after ≡ block_read p k 4096 0 s)
      → Shows s k e
      → Shows after k e
  Shows-cong s after k none same reads h = same ∙ h
  Shows-cong s after k (some (n, bytes)) same reads ((bd, st, count), r) =
      ((bd, same ∙ st, count), reads bd st ∙ r)

  module _ (l : Laws p) (s : State p) (sound : IsSound p s) (m : Map) (refines : Refines s m)
      (key : Key) (buf : List ℕ) (may : MayPut key buf s) where
    -- A call that failed changes no entry.
    failed-Refines :
        (after : State p)
        → ((k : Key) (e : Option Entry) → k ≢ key → Shows s k e → Shows after k e)
        → Shows after key (m key)
        → Refines after (map_put key buf minus_one m)
    failed-Refines after keeps here k slot = elim (Bool-cases (same_key k key)) [
      | inl e ↦ rw (same_key→eq k key e) here
      | inr e ↦
          keeps k (m k)
            (λ same. let no : true ≡ false = sym (same_key_refl k) ∙ ap (same_key k) same ∙ e in cc)
            (refines k slot)
    ]

    new-IsStep :
        (e : m key ≡ none)
        → IsPut p s key buf (put_new_chunk p key buf s)
        → IsStep key buf m (put_new_chunk p key buf s)
    new-IsStep e r =
        let keeps : (k : Key) (o : Option Entry) → k ≢ key → Shows s k o → Shows r.after k o =
          λ k o ne h.
            Shows-cong s r.after k o (r.entries k ne) (λ bd st. (r.others k bd ne st).1) h in
        elim r.outcome [
          | inl (done, reads, (bd, st, one)) ↦ record {
            code = pos 0;
            after = r.after;
            returns = r.returns ∙ ap (λ c. some (c, r.after)) done;
            sound = r.sound;
            refines =
                others-Refines s r.after key buf m refines
                  (let here : Shows r.after key (some (1, buf)) = ((bd, st, one), reads) in
                    rw e here)
                  keeps;
            answers = inl refl;
          }
          | inr (failed, absent) ↦ record {
            code = minus_one;
            after = r.after;
            returns = r.returns ∙ ap (λ c. some (c, r.after)) failed;
            sound = r.sound;
            refines = failed-Refines r.after keeps (rw e absent);
            answers = inr refl;
          }
        ]

    again-IsStep :
        (n : ℕ) (bytes : List ℕ) (bd : BlockData)
        → m key ≡ some (n, bytes)
        → Stored p s key bd
        → bd.ref_count ≡ n
        → block_read p key 4096 0 s ≡ some (some bytes)
        → IsShared p s key bd (put_new_chunk p key buf s)
        → IsStep key buf m (put_new_chunk p key buf s)
    again-IsStep n bytes bd e st count reads r =
        let same_read = r.same_bytes key bd 4096 0 st ∙ reads in
        let keeps : (k : Key) (o : Option Entry) → k ≢ key → Shows s k o → Shows r.after k o =
          λ k o ne h.
            Shows-cong s r.after k o (r.others k ne) (λ b st'. r.same_bytes k b 4096 0 st') h in
        elim r.outcome [
          | inl (done, st') ↦ record {
            code = pos 0;
            after = r.after;
            returns = r.returns ∙ ap (λ c. some (c, r.after)) done;
            sound = r.sound;
            refines =
                others-Refines s r.after key buf m refines
                  (let here : Shows r.after key (some (n + 1, bytes)) =
                      ((one_more bd, st', ap (λ c. c + 1) count), same_read) in
                    rw e here)
                  keeps;
            answers = inl refl;
          }
          | inr (failed, st') ↦ record {
            code = minus_one;
            after = r.after;
            returns = r.returns ∙ ap (λ c. some (c, r.after)) failed;
            sound = r.sound;
            refines = failed-Refines r.after keeps (
                let here : Shows r.after key (some (n, bytes)) = ((bd, st', count), same_read) in
                rw e here);
            answers = inr refl;
          }
        ]

    pub put-IsStep : IsStep key buf m (put_new_chunk p key buf s)
    put-IsStep = elim (Option-cases (m key)) [
      | inl e ↦ new-IsStep e (
          put_new_chunk-IsPut p l s key buf may.file sound may.whole
            (rw e at (refines key may.slot)) may.chosen may.below)
      | inr ((n, bytes), e) ↦
          let ((bd, st, count), reads) : Shows s key (some (n, bytes)) =
            rw e at (refines key may.slot) in
          again-IsStep n bytes bd e st count reads
            (put_new_chunk-IsShared p l s key bd buf sound st (may.room bd st))
    ]

-- Calls of `put_new_chunk` one after another, with the hash, the block and the code of each.
pub data Puts (p : Platform) : State p → List (Key × List ℕ × ℤ) → State p → Type 0 where
  no_puts : {s : State p} → Puts p s [] s
  a_put :
      {s s' s'' : State p} {key : Key} {buf : List ℕ} {code : ℤ} {calls : List (Key × List ℕ × ℤ)}
      → MayPut p key buf s
      → put_new_chunk p key buf s ≡ some (code, s')
      → Puts p s' calls s''
      → Puts p s ((key, buf, code) ∷ calls) s''

abbrev pub map_puts : List (Key × List ℕ × ℤ) → Map → Map
map_puts [] m = m
map_puts ((key, buf, code) ∷ calls) m = map_puts calls (map_put key buf code m)

-- The store is sound, shows the map, and returns 0 or -1 for each call that is allowed next.
pub record IsMap (p : Platform) (s : State p) (m : Map) : Type 0 where
  pub sound : IsSound p s
  pub refines : Refines p s m
  pub goes_on :
      (key : Key) (buf : List ℕ)
      → MayPut p key buf s
      → IsStep p key buf m (put_new_chunk p key buf s)

-- A sound store that shows a map of hashes to counted blocks shows, after any sequence of allowed
-- calls of `put_new_chunk`, the map after the same sequence: a call that returned 0 has entered its
-- block, or counted one reference more to the block that was there, and one that did not has changed
-- nothing. The store is sound again, and each further call that is allowed returns 0 or -1.
pub put_new_chunk-Refines :
    (p : Platform) (l : Laws p) (s s' : State p) (m : Map) (calls : List (Key × List ℕ × ℤ))
    → IsSound p s
    → Refines p s m
    → Puts p s calls s'
    → IsMap p s' (map_puts calls m)
put_new_chunk-Refines p l s s' m calls sound refines no_puts = record {
  sound = sound;
  refines = refines;
  goes_on = λ key buf may. put-IsStep p l s sound m refines key buf may;
}
put_new_chunk-Refines p l s s'' m calls sound refines
      (a_put {s' = s'} {key = key} {buf = buf} {code = code} {calls = rest} may e puts) =
    let r = put-IsStep p l s sound m refines key buf may in
    let same : (r.code, r.after) ≡ (code, s') = some-inj (sym r.returns ∙ e) in
    let same_code : r.code ≡ code = ap (λ x. x.0) same in
    let same_after : r.after ≡ s' = ap (λ x. x.1) same in
    put_new_chunk-Refines p l s' s'' (map_put key buf code m) rest (rw (← same_after) (r.sound))
      (rw (← same_after, ← same_code) (r.refines)) puts
