-- ===== src/Collector/Scheduler/Records.antt =====
-- What saveRecords leaves in the table: the chunks of the data, in order, each in a new unused record,
-- as many as it says.
use quantum_entropy_service.Common.{
  ap₂, String, length-append, ℕ, zero, suc, ◌+◌, ◌≤◌, ◌<◌, ◌≡◌, refl, sym, ap, ◌∙◌, false, List, [],
  ◌∷◌, ◌++◌, append-nil, append_assoc, length, take, drop, concat, All, Result, ok, err, arith,
  take-append-drop, length-take, length-drop,
}
use quantum_entropy_service.Keymanager.Model.{Bytes, QuantumData}
use quantum_entropy_service.Keymanager.Stores.{IsEntropyStore, Saves, unused}
use quantum_entropy_service.Collector.Scheduler.{
  World, Web, Scheduler, entropy_record_bytes, save_record, on_saved, new_record, save_from,
  save_records, publish_entropy_events,
}

-- The cut of the data into pieces of at most 256 bytes, as an independent definition.
abbrev pub pieces : (fuel : ℕ) → Bytes → List Bytes
pieces zero bytes = []
pieces (suc fuel) [] = []
pieces (suc fuel) (b ∷ bytes) =
    take entropy_record_bytes (b ∷ bytes) ∷ pieces fuel (drop entropy_record_bytes (b ∷ bytes))

pub concat-pieces :
    (fuel : ℕ) (bytes : Bytes) → length bytes ≤ fuel → concat (pieces fuel bytes) ≡ bytes
concat-pieces zero [] h = refl
concat-pieces zero (b ∷ bytes) h = ground arith
concat-pieces (suc fuel) [] h = refl
concat-pieces (suc fuel) (b ∷ bytes) h =
    ap (λ rest. take entropy_record_bytes (b ∷ bytes) ++ rest)
      (concat-pieces fuel (drop entropy_record_bytes (b ∷ bytes))
        (omega (arith, length-drop entropy_record_bytes (b ∷ bytes), h)))
    ∙ take-append-drop entropy_record_bytes (b ∷ bytes)

pub pieces-Short :
    (fuel : ℕ) (bytes : Bytes)
    → All (λ piece. (0 < length piece) × (length piece ≤ entropy_record_bytes)) (pieces fuel bytes)
pieces-Short zero bytes = tt
pieces-Short (suc fuel) [] = tt
pieces-Short (suc fuel) (b ∷ bytes) = (
  (
    omega (arith, length-take entropy_record_bytes (b ∷ bytes)),
    omega (arith, length-take entropy_record_bytes (b ∷ bytes)),
  ),
  pieces-Short fuel (drop entropy_record_bytes (b ∷ bytes)),
)

-- `Kept encode pieces records`: the records hold the encoded pieces in order, less those whose save
-- failed.
pub data Kept (encode : Bytes → String) : List Bytes → List QuantumData → Type 0 where
  none_left : Kept encode [] []
  kept :
      {piece : Bytes} {ps : List Bytes} {q : QuantumData} {qs : List QuantumData}
      → q.data_base64 ≡ encode piece
      → q.used ≡ false
      → q.source ≡ "LFD"
      → Kept encode ps qs
      → Kept encode (piece ∷ ps) (q ∷ qs)
  skipped :
      {piece : Bytes} {ps : List Bytes} {qs : List QuantumData}
      → Kept encode ps qs
      → Kept encode (piece ∷ ps) qs

Kept-append :
    {encode : Bytes → String} (ps ps' : List Bytes) (qs qs' : List QuantumData)
    → Kept encode ps qs
    → Kept encode ps' qs'
    → Kept encode (ps ++ ps') (qs ++ qs')
Kept-append [] ps' [] qs' none_left k' = k'
Kept-append [] ps' (q ∷ qs) qs' k k' = elim k [ ]
Kept-append (p ∷ ps) ps' (q ∷ qs) qs' (kept a b c k) k' =
    kept a b c (Kept-append ps ps' qs qs' k k')
Kept-append (p ∷ ps) ps' qs qs' (skipped k) k' = skipped (Kept-append ps ps' qs qs' k k')

length-unused_append :
    (xs ys : List QuantumData)
    → length (unused (xs ++ ys)) ≡ length (unused xs) + length (unused ys)
length-unused_append [] ys = omega arith
length-unused_append (x ∷ xs) ys = ground (arith, length-unused_append xs ys)

length-Kept :
    {encode : Bytes → String} (ps : List Bytes) (qs : List QuantumData)
    → Kept encode ps qs
    → length (unused qs) ≡ length qs
length-Kept [] [] none_left = refl
length-Kept [] (q ∷ qs) k = elim k [ ]
length-Kept (p ∷ ps) (q ∷ qs) (kept a b c k) = ground (arith, length-Kept ps qs k, b)
length-Kept (p ∷ ps) qs (skipped k) = length-Kept ps qs k

module _ {D B N : Type 0} (web : Web N) (s : Scheduler D B) (pool : D → List QuantumData)
    (laws : IsEntropyStore s.store pool) where
  -- The table has grown by records for the pieces, as many as were counted.
  abbrev pub GrownBy : List Bytes → ℕ → World D B N → World D B N → Type 0
  GrownBy ps saved w w' =
      (qs : List QuantumData) × (pool w'.db ≡ pool w.db ++ qs)
      × (length qs ≡ saved)
      × Kept web.encode ps qs

  on_saved-GrownBy :
      (piece : Bytes) (r : Result QuantumData) (w w' : World D B N)
      → Saves (new_record web s piece) (pool w.db) r (pool w'.db)
      → GrownBy (piece ∷ []) (on_saved web s piece r w').0 w (on_saved web s piece r w').1
  unfolding publish_entropy_events
  on_saved-GrownBy piece (ok q) w w' h = (
    q ∷ [],
    h.0,
    refl,
    kept (ap (λ r. r.data_base64) h.1) (ap (λ r. r.used) h.1) (ap (λ r. r.source) h.1) none_left,
  )
  on_saved-GrownBy piece (err e) w w' h =
      ([], h ∙ sym (append-nil (pool w.db)), refl, skipped none_left)

  save_record-GrownBy :
      (piece : Bytes) (w : World D B N)
      → GrownBy (piece ∷ []) (save_record web s piece w).0 w (save_record web s piece w).1
  unfolding save_record
  save_record-GrownBy piece w =
      let (r, db) = s.store.save_entropy (new_record web s piece) w.db in
      on_saved-GrownBy piece r w (record w { db = db }) (laws.saves (new_record web s piece) w.db)

  GrownBy-join :
      (ps ps' : List Bytes) (m n : ℕ) (w w₁ w₂ : World D B N)
      → GrownBy ps m w w₁
      → GrownBy ps' n w₁ w₂
      → GrownBy (ps ++ ps') (m + n) w w₂
  GrownBy-join ps ps' m n w w₁ w₂ (qs, e, l, k) (qs', e', l', k') = (
    qs ++ qs',
    e' ∙ ap (λ t. t ++ qs') e ∙ append_assoc (pool w.db) qs qs',
    length-append qs qs' ∙ ap₂ (λ x y. x + y) l l',
    Kept-append ps ps' qs qs' k k',
  )

  pub save_from-GrownBy :
      (fuel : ℕ) (bytes : Bytes) (w : World D B N)
      → GrownBy
          (pieces fuel bytes)
          (save_from web s fuel bytes w).0
          w
          (save_from web s fuel bytes w).1
  unfolding save_from
  save_from-GrownBy zero bytes w = ([], sym (append-nil (pool w.db)), refl, none_left)
  save_from-GrownBy (suc fuel) [] w = ([], sym (append-nil (pool w.db)), refl, none_left)
  save_from-GrownBy (suc fuel) (b ∷ bytes) w =
      let first = take entropy_record_bytes (b ∷ bytes) in
      let rest = drop entropy_record_bytes (b ∷ bytes) in
      let w₁ = (save_record web s first w).1 in
      GrownBy-join (first ∷ []) (pieces fuel rest) _ _ w w₁ (save_from web s fuel rest w₁).1
        (save_record-GrownBy first w) (save_from-GrownBy fuel rest w₁)

  -- `save_records` appends to the table the encoded pieces of the data, in order and less those whose
  -- save failed, each as a new unused record of source "LFD", and returns how many it appended. The
  -- pieces are nonempty, of at most 256 bytes, and put together again they are the data.
  pub save_records-GrownBy :
      (bytes : Bytes) (w : World D B N)
      → let ps = pieces (length bytes) bytes in
        let (saved, w') = save_records web s bytes w in
        GrownBy ps saved w w'
        × (concat ps ≡ bytes)
        × All (λ piece. (0 < length piece) × (length piece ≤ entropy_record_bytes)) ps
  unfolding save_records
  save_records-GrownBy bytes w = (
    save_from-GrownBy (length bytes) bytes w,
    concat-pieces (length bytes) bytes (omega arith),
    pieces-Short (length bytes) bytes,
  )

  -- How many records of the table are unused.
  abbrev pub available : World D B N → ℕ
  available w = length (unused (pool w.db))

  -- `save_records` adds to the unused records as many as it says.
  pub available-save_records :
      (bytes : Bytes) (w : World D B N)
      → available (save_records web s bytes w).1 ≡ available w + (save_records web s bytes w).0
  available-save_records bytes w =
      let (qs, e, l, k) = (save_records-GrownBy bytes w).0 in
      ap (λ rows. length (unused rows)) e
      ∙ length-unused_append (pool w.db) qs
      ∙ ap (λ n. available w + n) (length-Kept _ qs k ∙ l)
