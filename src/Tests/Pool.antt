-- ===== src/Tests/Pool.antt =====
-- The collector over tables in memory, with batches that bring one record and are then stopped.
use quantum_entropy_service.Common.{
  ap, sym, ℕ, zero, suc, ◌+◌, ◌≤◌, ◌≡◌, refl, arith, ◌⊎◌, true, false, String, List, [], ◌∷◌,
  length, some, Result, ok,
}
use quantum_entropy_service.Messaging.Events.{Message, recorder}
use quantum_entropy_service.Keymanager.Model.{Bytes, QuantumData}
use quantum_entropy_service.Keymanager.Stores.{IsEntropyStore}
use quantum_entropy_service.Keymanager.Repository.{entropy_store}
use quantum_entropy_service.Keymanager.Repository.Memory.{Memory, memory, memory-IsGorm}
use quantum_entropy_service.Keymanager.Repository.Refine.{entropy_store-IsEntropyStore}
use quantum_entropy_service.Collector.Scheduler.{
  World, Web, Scheduler, max_failures, refill_workers, collect_entropy,
}
use quantum_entropy_service.Collector.Scheduler.Counts.{Collected, collect_entropy-Collected}
use quantum_entropy_service.Collector.Scheduler.Workers.{
  Phase, Fleet, start, Run, Over, here, then_, stopping, all_handed, offer, hand, abort, leave,
  begin, succeed, send_ok, receive,
}
use quantum_entropy_service.Collector.Scheduler.Workers.Bounds.{errors, run-Bounded}
use quantum_entropy_service.Collector.Scheduler.Workers.Delivery.{run-received}
use quantum_entropy_service.Collector.Scheduler.Workers.Progress.{CanStep, run-Live}
use quantum_entropy_service.Collector.Scheduler.Workers.Batch.{Delivers}

abbrev pub web : Web (List String)
web = record {
  get = λ url net. (ok (record { status_code = 200; body = ok "{}" }), net);
  data_of = λ body. ok "AQ==";
  decode = λ text. ok (1 ∷ []);
  encode = λ bytes. "AQ==";
  status_text = λ n. "200";
}

abbrev pub rows_of : Memory → List QuantumData
rows_of m = m.rows

abbrev pub laws : IsEntropyStore (entropy_store memory) rows_of
laws = entropy_store-IsEntropyStore memory rows_of (λ m. m.keys) memory-IsGorm

abbrev pub scheduler : Scheduler Memory (List Message)
scheduler = record {
  store = entropy_store memory;
  publisher = some recorder;
  api_base_url = "";
  low_watermark = 1;
  high_watermark = 2;
}

abbrev pub empty_pool : World Memory (List Message) (List String)
empty_pool = record { db = record { rows = []; keys = [] }; broker = []; net = [] }

-- One job is done, and then the batch is stopped.
abbrev pub deliver : ℕ → List String → List (Result Bytes) × List String
deliver zero net = ([], net)
deliver (suc n) net = (ok (1 ∷ []) ∷ [], net)

one_received : (n : ℕ) → (f : Fleet) × Run (start (suc n) false) f
unfolding start
one_received n = (
  _,
  then_
      (then_
        (then_
          (then_ (then_ (then_ here (offer n refl refl (omega arith))) (hand n 3 refl refl refl))
            (begin 0 refl refl))
          (succeed 0 (1 ∷ []) refl))
        (send_ok [] [] (1 ∷ []) refl (omega arith)))
      (receive (ok (1 ∷ [])) [] refl),
)

all_leave :
    (f : Fleet)
    → f.phase ≡ Phase.closed
    → f.idle ≡ 4
    → f.exited ≡ 0
    → f.buffer ≡ []
    → (g : Fleet) × Run f g × Over g × (g.received ≡ f.received)
all_leave f p i x b = (
  _,
  then_ (then_ (then_ (then_ here (leave 3 p i)) (leave 2 p refl)) (leave 1 p refl))
      (leave 0 p refl),
  record { all_exited = ap (λ n. suc (suc (suc (suc n)))) x; drained = b },
  refl,
)

join : {f g h : Fleet} → Run f g → Run g h → Run f h
join r here = r
join r (then_ s t) = then_ (join r s) t
join r (stopping s) = stopping (join r s)

batch_of :
    (n : ℕ) (net : List String)
    → (f : Fleet) × Run (start n false) f × Over f × ((deliver n net).0 ≡ f.received)
unfolding start one_received
batch_of zero net =
    let (g, r, o, e) = all_leave _ refl refl refl refl in
    (g, join (then_ here (all_handed refl refl)) r, o, sym e)
batch_of (suc zero) net =
    let (f, run) = one_received 0 in
    let (g, r, o, e) = all_leave (record f { phase = Phase.closed }) refl refl refl refl in
    (g, join (then_ run (all_handed refl refl)) r, o, sym e)
batch_of (suc (suc n)) net =
    let (f, run) = one_received (suc n) in
    let (g, r, o, e) =
      all_leave (record f { phase = Phase.closed; stop = true }) refl refl refl refl in
    (
      g,
      join (then_ (then_ (stopping run) (offer n refl refl (omega arith))) (abort refl refl)) r,
      o,
      sym e,
    )

deliver-Delivers : Delivers deliver
deliver-Delivers = record {
  fleet = λ n net. (batch_of n net).0;
  stop = λ n net. false;
  runs = λ n net. (batch_of n net).1;
  over = λ n net. (batch_of n net).2;
  delivers = λ n net. (batch_of n net).3;
}

collect_entropy-Collected_example :
    Collected web scheduler rows_of laws deliver 0 empty_pool
      (collect_entropy web scheduler deliver empty_pool)
collect_entropy-Collected_example =
    collect_entropy-Collected web scheduler rows_of laws deliver empty_pool

abbrev some_bytes : Bytes
some_bytes = 1 ∷ 2 ∷ 3 ∷ []

abbrev one_done : Fleet
unfolding start one_received
one_done = (one_received 0).0

run-Bounded_example :
    (length one_done.received ≤ 1)
    × (errors one_done.received ≤ max_failures + refill_workers)
    × (length one_done.buffer ≤ refill_workers)
unfolding one_done one_received
run-Bounded_example = run-Bounded 1 false one_done (one_received 0).1

run-received_example :
    (length (batch_of 1 []).0.received ≡ 1) ⊎ (max_failures ≤ errors (batch_of 1 []).0.received)
unfolding batch_of all_leave
run-received_example = run-received 1 (batch_of 1 []).0 (batch_of 1 []).1 (batch_of 1 []).2 refl

run-Live_example : Over one_done ⊎ CanStep one_done
unfolding one_done one_received
run-Live_example = run-Live 1 false one_done (one_received 0).1
