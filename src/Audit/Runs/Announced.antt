-- ===== src/Audit/Runs/Announced.antt =====
-- What a run of an audit or a suite announces, and that it uses up no record.
use quantum_entropy_service.Common.{
  ℤ, ℕ, ◌≡◌, refl, sym, ap, ◌∙◌, List, [], ◌∷◌, ◌++◌, append_assoc, String, length, Result, ok, err,
  Option, none, some,
}
use quantum_entropy_service.Keymanager.Model.{Bytes, QuantumData}
use quantum_entropy_service.Keymanager.Stores.{EntropyStore, IsEntropyStore, Reads}
use quantum_entropy_service.Messaging.Events.{
  Message, audit_start, audit_complete, EventPublisher, IsEventPublisher, exchange_audit_requests,
  exchange_audit_results, routing_key_audit_start, routing_key_audit_complete,
}
use quantum_entropy_service.Audit.Floats.{Floats}
use quantum_entropy_service.Audit.Suites.Metrics.{Deliver}
use quantum_entropy_service.Audit.Suites.Registry.{SuiteDef, registry, find_suite}
use quantum_entropy_service.Audit.Samples.{Ran, returned, panicked, Sources, get_quantum_sample}
use quantum_entropy_service.Audit.Runs.{
  World, Service, default_prng_seed, announce_start, announce_complete, csprng_sample, on_sample,
  report, run_full_audit, effective_seed, suite_result, on_suite, run_suites, size_of,
}

abbrev start_message : ℕ → Message
start_message n = record {
  exchange = exchange_audit_requests;
  routing_key = routing_key_audit_start;
  event = audit_start n;
}

abbrev complete_message : ℕ → Message
complete_message n = record {
  exchange = exchange_audit_results;
  routing_key = routing_key_audit_complete;
  event = audit_complete n;
}

-- With a result, `audit.start` and then `audit.complete` with the size of the sample; else nothing.
abbrev pub Heard :
    {A : Type 0} → (A → ℕ) → ℤ → Ran (Result A) → List Message → List Message → Type 0
Heard sample_size size (returned (ok a)) before after =
    after ≡ before ++ start_message (size_of size) ∷ complete_message (sample_size a) ∷ []
Heard sample_size size (returned (err e)) before after = after ≡ before
Heard sample_size size panicked before after = after ≡ before

module _ {D B R : Type 0} (fl : Floats) (src : Sources R) (store : EntropyStore D)
    (p : EventPublisher B) (pool : D → List QuantumData) (attempts : B → List Message)
    (laws : IsEntropyStore store pool) (publishes : IsEventPublisher p attempts) where
  abbrev svc : Service D B
  svc = record { store = store; publisher = some p }

  on_sample-Heard :
      {A : Type 0} (sample_size : A → ℕ) (size seed : ℤ) (make : Bytes → Bytes → Bytes → A)
      (sample : Ran (Result Bytes)) (w : World D B R)
      → ((q c r : Bytes) → sample_size (make q c r) ≡ length q)
      → let (r, w') = on_sample fl src svc size seed make sample w in
        Heard sample_size size r (attempts w.broker) (attempts w'.broker) × (w'.db ≡ w.db)
  unfolding announce_start announce_complete csprng_sample
  on_sample-Heard sample_size size seed make panicked w h = (refl, refl)
  on_sample-Heard sample_size size seed make (returned (err e)) w h = (refl, refl)
  on_sample-Heard sample_size size seed make (returned (ok [])) w h = (refl, refl)
  on_sample-Heard sample_size size seed make (returned (ok (b ∷ sample))) w h = (
    publishes.publishes _ _ _ _
        ∙ ap (λ l. l ++ complete_message (length (b ∷ sample)) ∷ [])
            (publishes.publishes _ _ _ w.broker)
        ∙ append_assoc (attempts w.broker) (start_message (size_of size) ∷ [])
            (complete_message (length (b ∷ sample)) ∷ [])
        ∙ ap (λ n. attempts w.broker ++ start_message (size_of size) ∷ complete_message n ∷ [])
            (sym (h _ _ _)),
    refl,
  )

  Reads-keeps :
      {A : Type 0} (a : A) (before after : List QuantumData) (r : Result A)
      → Reads a before r after
      → after ≡ before
  Reads-keeps a before after (ok x) h = h.1
  Reads-keeps a before after (err e) h = h

  sample-keeps : (size : ℤ) (d : D) → pool (get_quantum_sample src store "LFD" size d).1 ≡ pool d
  unfolding get_quantum_sample
  sample-keeps size d = Reads-keeps _ (pool d) _ _ (laws.finds "LFD" d)

  -- A full audit that returns a report has announced `audit.start` and then `audit.complete` with the
  -- size of its sample, one that returns an error or panics nothing; either leaves the table of
  -- records as it was.
  pub run_full_audit-Heard :
      (size : ℤ) (w : World D B R)
      → let (r, w') = run_full_audit fl src svc size w in
        Heard (λ a. a.sample_size) size r (attempts w.broker) (attempts w'.broker)
        × (pool w'.db ≡ pool w.db)
  unfolding run_full_audit
  run_full_audit-Heard size w =
      let (sample, db) = get_quantum_sample src store "LFD" size w.db in
      let h =
        on_sample-Heard (λ a. a.sample_size) size default_prng_seed (report fl src svc) sample
          (record w { db = db }) (λ q c r. refl) in
      (h.0, ap pool h.1 ∙ sample-keeps size w.db)

  on_suite-Heard :
      (def : Option SuiteDef) (orders : ℕ → Deliver) (size seed : ℤ) (w : World D B R)
      → let (r, w') = on_suite fl src svc def orders size seed w in
        Heard (λ a. a.sample_size) size r (attempts w.broker) (attempts w'.broker)
        × (pool w'.db ≡ pool w.db)
  unfolding on_suite
  on_suite-Heard none orders size seed w = (refl, refl)
  on_suite-Heard (some def) orders size seed w =
      let (sample, db) = get_quantum_sample src store "LFD" size w.db in
      let h =
        on_sample-Heard (λ a. a.sample_size) size (effective_seed seed)
          (suite_result fl src svc def orders) sample (record w { db = db }) (λ q c r. refl) in
      (h.0, ap pool h.1 ∙ sample-keeps size w.db)

  -- A run of a suite that returns a result has announced `audit.start` and then `audit.complete` with
  -- the size of its sample, one that returns an error (an unknown suite, no data) or panics nothing;
  -- either leaves the table of records as it was.
  pub run_suites-Heard :
      (orders : ℕ → Deliver) (suite_id : String) (size seed : ℤ) (w : World D B R)
      → let (r, w') = run_suites fl src svc orders suite_id size seed w in
        Heard (λ a. a.sample_size) size r (attempts w.broker) (attempts w'.broker)
        × (pool w'.db ≡ pool w.db)
  unfolding run_suites
  run_suites-Heard orders suite_id size seed w =
      on_suite-Heard (find_suite suite_id (registry fl)) orders size seed w
