-- ===== src/Collector/Scheduler/Frames.antt =====
-- What collectEntropy keeps of the tables: all that saving and counting entropy keep.
use quantum_entropy_service.Common.{
  ℕ, zero, suc, ◌+◌, Bool, true, false, not, ◌&&◌, ◌==◌, ltb, leb, if◌then◌else◌, List, [], ◌∷◌,
  take, drop, Option, none, some, Result, ok, err,
}
use quantum_entropy_service.Keymanager.Model.{Bytes, QuantumData}
use quantum_entropy_service.Collector.Scheduler.{
  World, Web, Scheduler, entropy_record_bytes, max_failures, new_record, on_saved, save_record,
  save_from, save_records, fold_results, run_refill_batch, refill, refill_fuel, fetches_for,
  on_refilled, on_counted, collect_entropy, publish_pool_ok, publish_entropy_events,
}

module _ {D B N : Type 0} (web : Web N) (s : Scheduler D B) (P : D → Type 0)
    (saves : (q : QuantumData) (d : D) → P d → P (s.store.save_entropy q d).1)
    (counts : (d : D) → P d → P (s.store.count_all_unused_entropy d).1) where
  abbrev In : World D B N → Type 0
  In w = P w.db

  on_saved-In :
      (chunk : Bytes) (r : Result QuantumData) (w : World D B N)
      → In w
      → In (on_saved web s chunk r w).1
  unfolding publish_entropy_events
  on_saved-In chunk (ok q) w h = h
  on_saved-In chunk (err e) w h = h

  save_record-In : (chunk : Bytes) (w : World D B N) → In w → In (save_record web s chunk w).1
  unfolding save_record
  save_record-In chunk w h =
      let (r, db) = s.store.save_entropy (new_record web s chunk) w.db in
      on_saved-In chunk r (record w { db = db }) (saves (new_record web s chunk) w.db h)

  save_from-In :
      (fuel : ℕ) (bytes : Bytes) (w : World D B N) → In w → In (save_from web s fuel bytes w).1
  unfolding save_from
  save_from-In zero bytes w h = h
  save_from-In (suc fuel) [] w h = h
  save_from-In (suc fuel) (b ∷ bytes) w h =
      let first = take entropy_record_bytes (b ∷ bytes) in
      save_from-In fuel (drop entropy_record_bytes (b ∷ bytes)) (save_record web s first w).1
        (save_record-In first w h)

  fold_results-In :
      (rs : List (Result Bytes)) (w : World D B N) → In w → In (fold_results web s rs w).1
  unfolding fold_results save_records
  fold_results-In [] w h = h
  fold_results-In (err e ∷ rs) w h = fold_results-In rs w h
  fold_results-In (ok bytes ∷ rs) w h =
      fold_results-In rs (save_records web s bytes w).1 (save_from-In _ bytes w h)

  module _ (deliver : ℕ → N → List (Result Bytes) × N) where
    chosen :
        (going idle : Bool) (x y z : Option (ℕ × ℕ) × World D B N)
        → In x.1
        → In y.1
        → In z.1
        → In (if not going then x else if idle then y else z).1
    chosen false idle x y z p q r = p
    chosen true true x y z p q r = q
    chosen true false x y z p q r = r

    refill-In :
        (fuel count failures : ℕ) (w : World D B N)
        → In w
        → In (refill web s deliver fuel count failures w).1
    unfolding refill run_refill_batch
    refill-In zero count failures w h = h
    refill-In (suc fuel) count failures w h =
        let (rs, net) = deliver (fetches_for web s deliver count) w.net in
        let (counts, w₁) = fold_results web s rs (record w { net = net }) in
        let kept = fold_results-In rs (record w { net = net }) h in
        chosen (ltb count s.high_watermark && ltb failures max_failures)
          (counts.0 == 0 && counts.1 == 0) (some (count, failures), w) (some (count, failures), w₁)
          (refill web s deliver fuel (count + counts.0) (failures + counts.1) w₁) h kept
          (refill-In fuel (count + counts.0) (failures + counts.1) w₁ kept)

    on_refilled-In :
        (r : Option (ℕ × ℕ)) (w : World D B N) → In w → In (on_refilled web s deliver r w)
    unfolding publish_pool_ok
    on_refilled-In none w h = h
    on_refilled-In (some (count, failures)) w h = either (leb s.high_watermark count)
      where
        either : (b : Bool) → In (if b then publish_pool_ok web s count w else w)
        either true = h
        either false = h

    on_counted-In : (r : Result ℕ) (w : World D B N) → In w → In (on_counted web s deliver r w)
    unfolding on_counted
    on_counted-In (err e) w h = h
    on_counted-In (ok count) w h = either (leb s.low_watermark count)
      where
        either :
            (b : Bool)
            → In (
                if b
                then w
                else (let (end, w₁) =
                      refill web s deliver (refill_fuel web s deliver count) count 0 w in
                    on_refilled web s deliver end w₁))
        either true = h
        either false =
            let (end, w₁) = refill web s deliver (refill_fuel web s deliver count) count 0 w in
            on_refilled-In end w₁ (refill-In (refill_fuel web s deliver count) count 0 w h)

    -- `collectEntropy` keeps every property of the tables that a save and a count keep.
    pub collect_entropy-In : (w : World D B N) → In w → In (collect_entropy web s deliver w)
    unfolding collect_entropy
    collect_entropy-In w h =
        let (r, db) = s.store.count_all_unused_entropy w.db in
        on_counted-In r (record w { db = db }) (counts w.db h)
