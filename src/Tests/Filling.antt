-- ===== src/Tests/Filling.antt =====
-- A collector with one fetch to do, which succeeds.
use quantum_entropy_service.Common.{
  ℕ, ◌≡◌, refl, List, [], ◌∷◌, String, arith, replicate, Result, ok, false,
}
use quantum_entropy_service.Messaging.Events.{Message}
use quantum_entropy_service.Keymanager.Model.{Bytes}
use quantum_entropy_service.Keymanager.Repository.{save_entropy, count_all_unused_entropy}
use quantum_entropy_service.Keymanager.Repository.Memory.{Memory}
use quantum_entropy_service.Collector.Scheduler.{Scheduler, collect_entropy}
use quantum_entropy_service.Collector.Scheduler.Filled.{
  SavesAll, Filled, after_batch, collect_entropy-Filled,
}
use quantum_entropy_service.Collector.Scheduler.Workers.{
  Fleet, start, Run, Over, here, then_, all_handed, offer, hand, leave, begin, succeed, send_ok,
  receive,
}
use quantum_entropy_service.Tests.Pool.{web, scheduler, empty_pool, rows_of, laws}

abbrev chunk : Bytes
chunk = replicate 1024 7

abbrev small : Scheduler Memory (List Message)
small = record scheduler { high_watermark = 4 }

abbrev one_chunk : ℕ → List String → List (Result Bytes) × List String
one_chunk n net = (ok chunk ∷ [], net)

small-SavesAll : SavesAll web small
unfolding save_entropy
small-SavesAll q db = (_, refl)

fetched :
    (f : Fleet) × Run (start 1 false) f × Over f × (f.stop ≡ false) × (f.received ≡ ok chunk ∷ [])
unfolding start
fetched = (
  _,
  then_
      (then_
        (then_
          (then_
            (then_
              (then_
                (then_
                  (then_
                    (then_
                      (then_ (then_ here (offer 0 refl refl (omega arith)))
                        (hand 0 3 refl refl refl))
                      (begin 0 refl refl))
                    (succeed 0 chunk refl))
                  (send_ok [] [] chunk refl (omega arith)))
                (receive (ok chunk) [] refl))
              (all_handed refl refl))
            (leave 3 refl refl))
          (leave 2 refl refl))
        (leave 1 refl refl))
      (leave 0 refl refl),
  record { all_exited = refl; drained = refl },
  refl,
  refl,
)

collect_entropy-Filled_example :
    Filled web small small-SavesAll one_chunk rows_of laws 4
      (after_batch web small small-SavesAll one_chunk 0 empty_pool)
      (collect_entropy web small one_chunk empty_pool)
unfolding fetched count_all_unused_entropy
collect_entropy-Filled_example =
    collect_entropy-Filled web small small-SavesAll one_chunk rows_of laws 0 empty_pool
      empty_pool.db fetched.0 refl (omega arith) (omega arith) fetched.1 fetched.2 fetched.3
      (refl, tt) refl
