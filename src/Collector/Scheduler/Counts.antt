-- ===== src/Collector/Scheduler/Counts.antt =====
-- The count that collectEntropy keeps, and the `pool.ok` that it announces, against the table.
use quantum_entropy_service.Common.{
  ◌≤◌, GoError, ℕ, zero, suc, ◌+◌, ◌<◌, ◌≡◌, refl, sym, ap, ◌∙◌, Bool, true, false, not, ◌&&◌, ◌==◌,
  ltb, leb, if◌then◌else◌, ◌⊎◌, inl, inr, List, [], ◌∷◌, length, Option, none, some, Result, ok,
  err, arith, Bool-cases,
}
use quantum_entropy_service.Keymanager.Model.{Bytes, QuantumData}
use quantum_entropy_service.Messaging.Events.{exchange_entropy_pool, routing_key_pool_ok, pool_ok}
use quantum_entropy_service.Keymanager.Service.{notified}
use quantum_entropy_service.Keymanager.Stores.{IsEntropyStore, unused, Reads}
use quantum_entropy_service.Collector.Scheduler.{
  World, Web, Scheduler, max_failures, save_records, fold_results, run_refill_batch, refill,
  refill_fuel, fetches_for, on_refilled, on_counted, collect_entropy, publish_pool_ok,
}
use quantum_entropy_service.Collector.Scheduler.Records.{available, available-save_records}
use quantum_entropy_service.Collector.Scheduler.Refill.{Ended, refill-Ended}

module _ {D B N : Type 0} (web : Web N) (s : Scheduler D B) (pool : D → List QuantumData)
    (laws : IsEntropyStore s.store pool) where
  abbrev count_of : World D B N → ℕ
  count_of = available web s pool laws

  -- Folding the results adds to the unused records as many as the fold says were saved.
  pub count_of-fold_results :
      (results : List (Result Bytes)) (w : World D B N)
      → count_of (fold_results web s results w).1 ≡ count_of w + (fold_results web s results w).0.0
  unfolding fold_results
  count_of-fold_results [] w = omega arith
  count_of-fold_results (err e ∷ results) w = count_of-fold_results results w
  count_of-fold_results (ok bytes ∷ results) w =
      let w₁ = (save_records web s bytes w).1 in
      omega
        (arith, count_of-fold_results results w₁, available-save_records web s pool laws bytes w)

  module _ (deliver : ℕ → N → List (Result Bytes) × N) where
    abbrev Tracks : Option (ℕ × ℕ) → World D B N → Type 0
    Tracks none w = Unit {0}
    Tracks (some (count, failures)) w = count_of w ≡ count

    round-Tracks :
        (going idle : Bool) (count failures : ℕ) (w w₁ : World D B N)
        (rest : Option (ℕ × ℕ) × World D B N)
        → count_of w ≡ count
        → (idle ≡ true → count_of w₁ ≡ count)
        → Tracks rest.0 rest.1
        → let r =
            (if not going
              then (some (count, failures), w)
              else if idle
              then (some (count, failures), w₁)
              else rest) in
          Tracks r.0 r.1
    round-Tracks false idle count failures w w₁ rest f g h = f
    round-Tracks true true count failures w w₁ rest f g h = g refl
    round-Tracks true false count failures w w₁ rest f g h = h

    nothing_saved :
        (n a b count saved : ℕ)
        → n ≡ count
        → a ≡ n + saved
        → (saved == 0 && b == 0) ≡ true
        → a ≡ count
    nothing_saved n a b count saved e f h = ground arith

    -- A loop that starts with the number of unused records ends with it.
    pub refill-Tracks :
        (fuel count failures : ℕ) (w : World D B N)
        → count_of w ≡ count
        → Tracks
            (refill web s deliver fuel count failures w).0
            (refill web s deliver fuel count failures w).1
    unfolding refill run_refill_batch
    refill-Tracks zero count failures w e = tt
    refill-Tracks (suc fuel) count failures w e =
        let (results, net) = deliver (fetches_for web s deliver count) w.net in
        let (counts, w₁) = fold_results web s results (record w { net = net }) in
        let grown = count_of-fold_results results (record w { net = net }) in
        round-Tracks (ltb count s.high_watermark && ltb failures max_failures)
          (counts.0 == 0 && counts.1 == 0) count failures w w₁
          (refill web s deliver fuel (count + counts.0) (failures + counts.1) w₁) e
          (nothing_saved (count_of w) (count_of w₁) counts.1 count counts.0 e grown)
          (refill-Tracks fuel (count + counts.0) (failures + counts.1) w₁
            (grown ∙ ap (λ n. n + counts.0) e))

    -- The pool is not low, or its records could not be counted.
    abbrev pub NoNeed : (n : ℕ) → World D B N → Type 0
    NoNeed n w =
        (s.low_watermark ≤ n)
        ⊎ ((e : GoError) × ((s.store.count_all_unused_entropy w.db).0 ≡ err e))

    -- `pool.ok` is published with the count if and only if this reaches the high watermark.
    abbrev Announced : ℕ → B → B → Type 0
    Announced count before after =
        ((s.high_watermark ≤ count)
          × (after
              ≡ notified s.publisher exchange_entropy_pool routing_key_pool_ok
                  (pool_ok count s.high_watermark) before))
        ⊎ ((count < s.high_watermark) × (after ≡ before))

    -- What a run of collectEntropy on a pool of `n` unused records comes to: nothing, or the loop, from
    -- the world in which the records were counted, to a world `w₁` and a count, which is the number of
    -- unused records; then nothing changes but for `pool.ok`.
    pub data Collected (n : ℕ) (w w' : World D B N) : Type 0 where
      untouched :
          NoNeed n w
          → pool w'.db ≡ pool w.db
          → w'.broker ≡ w.broker
          → w'.net ≡ w.net
          → Collected n w w'
      refilled :
          (start : ℕ) (db : D) (count failures : ℕ) (w₁ : World D B N)
          → start ≡ n
          → n < s.low_watermark
          → s.store.count_all_unused_entropy w.db ≡ (ok start, db)
          → refill web s deliver (refill_fuel web s deliver start) start 0 (record w { db = db })
            ≡ (some (count, failures), w₁)
          → Ended web s deliver (some (count, failures)) w₁
          → count_of w' ≡ count
          → w'.db ≡ w₁.db
          → w'.net ≡ w₁.net
          → Announced count w₁.broker w'.broker
          → Collected n w w'

    module _ (n : ℕ) (w : World D B N) (start : ℕ) (db : D) (same : start ≡ n)
        (low : n < s.low_watermark)
        (counted : s.store.count_all_unused_entropy w.db ≡ (ok start, db)) where
      abbrev Ran : Option (ℕ × ℕ) → World D B N → Type 0
      Ran r w₁ =
          refill web s deliver (refill_fuel web s deliver start) start 0 (record w { db = db })
          ≡ (r, w₁)

      finish :
          (r : Option (ℕ × ℕ)) (w₁ : World D B N)
          → Ran r w₁
          → Ended web s deliver r w₁
          → Tracks r w₁
          → Collected n w (on_refilled web s deliver r w₁)
      unfolding publish_pool_ok
      finish none w₁ r e t = elim e [ ]
      finish (some (count, failures)) w₁ r e t = elim (Bool-cases (leb s.high_watermark count)) [
        | inl b ↦ rw (b) (
            refilled start db count failures w₁ same low counted r e t refl refl
              (inl (ground (arith, b), refl)))
        | inr b ↦ rw (b) (
            refilled start db count failures w₁ same low counted r e t refl refl
              (inr (ground (arith, b), refl)))
      ]

    on_counted-Collected :
        (r : Result ℕ) (w : World D B N) (db : D)
        → s.store.count_all_unused_entropy w.db ≡ (r, db)
        → Reads (count_of w) (pool w.db) r (pool db)
        → Collected (count_of w) w (on_counted web s deliver r (record w { db = db }))
    unfolding refill publish_pool_ok
    on_counted-Collected (err e) w db f h = untouched (inr (e, ap (λ x. x.0) f)) h refl refl
    on_counted-Collected (ok count) w db f h = go (Bool-cases (leb s.low_watermark count))
      where
        w₀ : World D B N
        w₀ = record w { db = db }

        tracked : count_of w₀ ≡ count
        tracked = ap (λ rows. length (unused rows)) h.1 ∙ sym h.0

        below : leb s.low_watermark count ≡ false → count_of w < s.low_watermark
        below e = ground (arith, h.0)

        go :
            (leb s.low_watermark count ≡ true) ⊎ (leb s.low_watermark count ≡ false)
            → Collected (count_of w) w (on_counted web s deliver (ok count) w₀)
        go (inl e) = rw (e) (untouched (inl (ground (arith, h.0, e))) h.1 refl refl)
        go (inr e) = rw (e) (
            finish (count_of w) w count db h.0 (below e) f _ _ refl
              (refill-Ended web s deliver (refill_fuel web s deliver count) count 0 w₀
                (omega arith))
              (refill-Tracks (refill_fuel web s deliver count) count 0 w₀ tracked))

    -- Of a store with its laws: if the pool is not low, or cannot be counted, collectEntropy changes
    -- nothing; else it runs the loop from the count of the unused records, and this ends with the high
    -- watermark reached, or the limit of failures, or a batch that brought nothing; the count that the
    -- loop ends with is the number of unused records, `pool.ok` is published with this count if it
    -- reaches the high watermark, and else nothing is published after the loop.
    pub collect_entropy-Collected :
        (w : World D B N) → Collected (count_of w) w (collect_entropy web s deliver w)
    unfolding collect_entropy
    collect_entropy-Collected w =
        let (r, db) = s.store.count_all_unused_entropy w.db in
        on_counted-Collected r w db refl (laws.counts w.db)
