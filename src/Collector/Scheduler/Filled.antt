-- ===== src/Collector/Scheduler/Filled.antt =====
-- collectEntropy on a low pool over the goroutines of runRefillBatch, where nothing fails.
use quantum_entropy_service.Common.{
  ℕ, zero, suc, ◌+◌, ◌-◌, ◌*◌, ◌/◌, ◌≤◌, ◌<◌, ◌≡◌, refl, ap, ap₂, ◌∙◌, Bool, true, false, List, [],
  ◌∷◌, length, take, drop, length-drop, some, Result, ok, err, arith, leb, ltb, if◌then◌else◌, inl,
  inr, subst, sym, not, ◌&&◌, ◌==◌,
}
use quantum_entropy_service.Keymanager.Model.{Bytes, QuantumData}
use quantum_entropy_service.Keymanager.Stores.{IsEntropyStore, Reads, unused}
use quantum_entropy_service.Collector.Scheduler.{
  World, Web, Scheduler, entropy_chunk_bytes, entropy_record_bytes, records_per_fetch, max_failures,
  save_record, new_record, save_from, save_records, fold_results, run_refill_batch, refill,
  refill_fuel, fetches_for, on_refilled, on_counted, collect_entropy, publish_pool_ok,
}
use quantum_entropy_service.Collector.Scheduler.Records.{available}
use quantum_entropy_service.Collector.Scheduler.Counts.{count_of-fold_results}
use quantum_entropy_service.Collector.Scheduler.Workers.{Fleet, start, Run, Over}
use quantum_entropy_service.Collector.Scheduler.Workers.Bounds.{errors}
use quantum_entropy_service.Collector.Scheduler.Workers.Delivery.{run-received}

-- Every fetch gave the chunk it asked for.
abbrev pub AllChunks : List (Result Bytes) → Type 0
AllChunks [] = Unit {0}
AllChunks (ok bytes ∷ rs) = (length bytes ≡ entropy_chunk_bytes) × AllChunks rs
AllChunks (err e ∷ rs) = ⊥

errors-AllChunks : (rs : List (Result Bytes)) → AllChunks rs → errors rs ≡ 0
errors-AllChunks [] h = refl
errors-AllChunks (ok bytes ∷ rs) h = errors-AllChunks rs h.1
errors-AllChunks (err e ∷ rs) h = absurd h

all_received :
    (n : ℕ) (f : Fleet)
    → Run (start n false) f
    → Over f
    → f.stop ≡ false
    → AllChunks f.received
    → length f.received ≡ n
all_received n f run over stop chunks = elim (run-received n f run over stop) [
  | inl e ↦ e
  | inr l ↦ let none_failed = errors-AllChunks f.received chunks in ground (arith, l)
]

enough :
    (high count n : ℕ)
    → n ≡ (high - count + records_per_fetch - 1) / records_per_fetch
    → high ≤ count + records_per_fetch * n
enough high count n e = omega (arith, e)

module _ {D B N : Type 0} (web : Web N) (s : Scheduler D B) where
  -- The store saves whatever it is given.
  abbrev pub SavesAll : Type 0
  SavesAll =
      (q : QuantumData) (db : D) → (q' : QuantumData) × ((s.store.save_entropy q db).0 ≡ ok q')

  module _ (saves : SavesAll) where
    one_saved : (piece : Bytes) (w : World D B N) → (save_record web s piece w).0 ≡ 1
    unfolding save_record
    one_saved piece w = let (q, e) = saves (new_record web s piece) w.db in rw e refl

    saved-save_from :
        (fuel : ℕ) (bytes : Bytes) (w : World D B N)
        → length bytes ≤ fuel
        → (save_from web s fuel bytes w).0
          ≡ (length bytes + (entropy_record_bytes - 1)) / entropy_record_bytes
    unfolding save_from
    saved-save_from zero [] w h = refl
    saved-save_from zero (b ∷ bytes) w h = ground arith
    saved-save_from (suc fuel) [] w h = refl
    saved-save_from (suc fuel) (b ∷ bytes) w h =
        let first = take entropy_record_bytes (b ∷ bytes) in
        let rest = drop entropy_record_bytes (b ∷ bytes) in
        omega (
          arith,
          length-drop entropy_record_bytes (b ∷ bytes),
          one_saved first w,
          saved-save_from fuel rest (save_record web s first w).1
              (omega (arith, length-drop entropy_record_bytes (b ∷ bytes), h)),
        )

    counts-fold_results :
        (rs : List (Result Bytes)) (w : World D B N)
        → AllChunks rs
        → (fold_results web s rs w).0 ≡ (records_per_fetch * length rs, 0)
    unfolding fold_results save_records
    counts-fold_results [] w h = refl
    counts-fold_results (ok bytes ∷ rs) w h =
        let four = saved-save_from (length bytes) bytes w (omega arith) in
        let rest = counts-fold_results rs (save_records web s bytes w).1 h.1 in
        ap₂ (λ x y. (x, y)) (omega (arith, four, h.0, ap (λ p. p.0) rest)) (ap (λ p. p.1) rest)
    counts-fold_results (err e ∷ rs) w h = absurd h

  module _ (saves : SavesAll) (deliver : ℕ → N → List (Result Bytes) × N) where
    -- What a batch for a pool of that size delivers, and the world after it.
    abbrev pub delivered : ℕ → World D B N → List (Result Bytes)
    delivered count w = (deliver (fetches_for web s deliver count) w.net).0

    abbrev pub after_batch : ℕ → World D B N → World D B N
    after_batch count w =
        let (rs, net) = deliver (fetches_for web s deliver count) w.net in
        (fold_results web s rs (record w { net = net })).1

    full-refill :
        (fuel count failures : ℕ) (w : World D B N)
        → s.high_watermark ≤ count
        → refill web s deliver (suc fuel) count failures w ≡ (some (count, failures), w)
    unfolding refill
    full-refill fuel count failures w h =
        let over : ltb count s.high_watermark ≡ false = ground arith in rw over refl

    going_on :
        {A : Type 0} (going idle : Bool) (a b rest : A)
        → going ≡ true
        → idle ≡ false
        → (if not going then a else if idle then b else rest) ≡ rest
    going_on going idle a b rest p q = rw (p, q) refl

    one_batch :
        (fuel count : ℕ) (w : World D B N)
        → count < s.high_watermark
        → AllChunks (delivered count w)
        → s.high_watermark ≤ count + records_per_fetch * length (delivered count w)
        → refill web s deliver (suc (suc fuel)) count 0 w
          ≡ (some (count + records_per_fetch * length (delivered count w), 0), after_batch count w)
    unfolding refill run_refill_batch
    one_batch fuel count w below chunks reached =
        let rs = delivered count w in
        let w₀ = record w { net = (deliver (fetches_for web s deliver count) w.net).1 } in
        let (counts, w₁) = fold_results web s rs w₀ in
        let e : counts ≡ (records_per_fetch * length rs, 0) =
          counts-fold_results saves rs w₀ chunks in
        going_on (ltb count s.high_watermark && ltb 0 max_failures) (counts.0 == 0 && counts.1 == 0)
          _ _ (refill web s deliver (suc fuel) (count + counts.0) (0 + counts.1) w₁) (ground arith)
          (rw e (ground arith))
        ∙ full-refill fuel (count + counts.0) (0 + counts.1) w₁ (rw e reached)
        ∙ ap (λ p. (some (count + p.0, 0 + p.1), w₁)) e

    with_fuel :
        (fuel count : ℕ) (w : World D B N)
        → 2 ≤ fuel
        → count < s.high_watermark
        → AllChunks (delivered count w)
        → s.high_watermark ≤ count + records_per_fetch * length (delivered count w)
        → refill web s deliver fuel count 0 w
          ≡ (some (count + records_per_fetch * length (delivered count w), 0), after_batch count w)
    with_fuel zero count w two = ground arith
    with_fuel (suc zero) count w two = ground arith
    with_fuel (suc (suc fuel)) count w two = one_batch fuel count w

    first : {A : Type 0} (b : Bool) (x y : A) → b ≡ false → (if b then x else y) ≡ y
    first b x y e = rw e refl

    second : {A : Type 0} (b : Bool) (x y : A) → b ≡ true → (if b then x else y) ≡ x
    second b x y e = rw e refl

    on_counted-full :
        (count : ℕ) (w : World D B N)
        → count < s.low_watermark
        → s.low_watermark ≤ s.high_watermark
        → AllChunks (delivered count w)
        → s.high_watermark ≤ count + records_per_fetch * length (delivered count w)
        → on_counted web s deliver (ok count) w
          ≡ publish_pool_ok web s
              (count + records_per_fetch * length (delivered count w))
              (after_batch count w)
    unfolding refill publish_pool_ok
    on_counted-full count w low marks chunks reached =
        let m = count + records_per_fetch * length (delivered count w) in
        let below : leb s.low_watermark count ≡ false = ground arith in
        let full : leb s.high_watermark m ≡ true = ground arith in
        first (leb s.low_watermark count) w _ below
        ∙ ap (λ p. on_refilled web s deliver p.0 p.1)
            (with_fuel (refill_fuel web s deliver count) count w (omega arith) (omega arith) chunks
              reached)
        ∙ second (leb s.high_watermark m) (publish_pool_ok web s m (after_batch count w)) _ full

    module _ (pool : D → List QuantumData) (laws : IsEntropyStore s.store pool) where
      -- The pool holds that many unused records, enough to be full, and `pool.ok` says so.
      abbrev pub Filled : (count : ℕ) (w₁ w' : World D B N) → Type 0
      Filled count w₁ w' =
          (s.high_watermark ≤ count)
          × (available web s pool laws w₁ ≡ count)
          × (w' ≡ publish_pool_ok web s count w₁)

      -- Where the pool is low, the store saves all it is given, and a batch runs to its end in some
      -- interleaving that nobody stops and in which every fetch gives its 1024 bytes, that one batch
      -- fills the pool to the high watermark: collectEntropy ends with the batch's four records for
      -- each fetch in the pool, and with `pool.ok` for their number.
      pub collect_entropy-Filled :
          (count : ℕ) (w : World D B N) (db : D) (f : Fleet)
          → s.store.count_all_unused_entropy w.db ≡ (ok count, db)
          → count < s.low_watermark
          → s.low_watermark ≤ s.high_watermark
          → Run (start (fetches_for web s deliver count) false) f
          → Over f
          → f.stop ≡ false
          → AllChunks f.received
          → delivered count w ≡ f.received
          → Filled
              (count + records_per_fetch * fetches_for web s deliver count)
              (after_batch count (record w { db = db }))
              (collect_entropy web s deliver w)
      unfolding collect_entropy
      collect_entropy-Filled count w db f counted low marks run over stop chunks same =
          let w₀ = record w { db = db } in
          let arrived : AllChunks (delivered count w) = subst AllChunks (sym same) chunks in
          let all : length (delivered count w) ≡ fetches_for web s deliver count =
            ap length same ∙ all_received _ f run over stop chunks in
          let reached = enough s.high_watermark count (fetches_for web s deliver count) refl in
          let w₁ = record w₀ { net = (deliver (fetches_for web s deliver count) w.net).1 } in
          let read =
            subst (λ r. Reads (available web s pool laws w) (pool w.db) r.0 (pool r.1)) counted
              (laws.counts w.db) in
          let known : available web s pool laws w₁ ≡ count =
            ap (λ rows. length (unused rows)) read.1 ∙ sym read.0 in
          let grown = count_of-fold_results web s pool laws (delivered count w) w₁ in
          let saved = ap (λ p. p.0) (counts-fold_results saves (delivered count w) w₁ arrived) in
          (
            reached,
            omega (arith, grown, known, saved, all),
            ap (λ r. on_counted web s deliver r.0 (record w { db = r.1 })) counted
                ∙ on_counted-full count w₀ low marks arrived (omega (arith, reached, all))
                ∙ ap
                    (λ n.
                      publish_pool_ok web s (count + records_per_fetch * n) (after_batch count w₀))
                    all,
          )
