-- ===== src/Tests/Lab.antt =====
-- The audits and the mixing on small samples.
use quantum_entropy_service.Common.{
  ℕ, ◌+◌, ◌<◌, ◌≡◌, arith, All, false, pos, List, [], ◌∷◌, length, replicate, some, ok,
}
use quantum_entropy_service.Messaging.Events.{Message, recorder, recorder-IsEventPublisher}
use quantum_entropy_service.Keymanager.Model.{Bytes, QuantumData}
use quantum_entropy_service.Keymanager.Stores.{IsEntropyStore}
use quantum_entropy_service.Keymanager.Repository.{entropy_store}
use quantum_entropy_service.Keymanager.Repository.Memory.{Memory, memory, memory-IsGorm}
use quantum_entropy_service.Keymanager.Repository.Refine.{entropy_store-IsEntropyStore}
use quantum_entropy_service.Audit.Samples.{Sources}
use quantum_entropy_service.Audit.Runs.{World, Service, run_full_audit, run_suites}
use quantum_entropy_service.Audit.Runs.Announced.{Heard, run_full_audit-Heard}
use quantum_entropy_service.Audit.Runs.Fair.{run_suites-same}
use quantum_entropy_service.Audit.Suites.Metrics.{Deliver}
use quantum_entropy_service.Tests.Numbers.{numbers}
use quantum_entropy_service.Tests.Orders.{in_order, in_order-Fair, backwards, backwards-Fair}
use quantum_entropy_service.Audit.Samples.Prefix.{Sampled, get_quantum_sample-Sampled}
use quantum_entropy_service.Audit.Samples.{get_quantum_sample}
use quantum_entropy_service.Common.{filter}
use quantum_entropy_service.Keymanager.Stores.{is_unused_of}
use quantum_entropy_service.Keymanager.Reader.{XorReader}
use quantum_entropy_service.Quantum.Mixing.{Entropy, mix_with_system_entropy}
use quantum_entropy_service.Quantum.Mixing.Mask.{IsEntropy, Mixed, mix_with_system_entropy-Mixed}
use quantum_entropy_service.Quantum.Service.{Api, Response}

-- The channel delivers in the order of the closures.
abbrev orders : ℕ → Deliver
orders i = in_order 0

abbrev pub reversed : ℕ → Deliver
reversed i = backwards 0

abbrev rows_of : Memory → List QuantumData
rows_of m = m.rows

abbrev laws : IsEntropyStore (entropy_store memory) rows_of
laws = entropy_store-IsEntropyStore memory rows_of (λ m. m.keys) memory-IsGorm

abbrev row : ℕ → QuantumData
row i = record { id = i; data_base64 = "AQI="; used = false; source = "LFD" }

abbrev pub sources : Sources ℕ
sources = record {
  decode = λ text. 1 ∷ 2 ∷ [];
  encode = λ bytes. "AQI=";
  hex = λ bytes. "0102";
  csprng = λ n r. (replicate n r, r + 1);
  prng = λ n seed. replicate n 0;
}

abbrev tables : Memory
tables = record { rows = row 1 ∷ row 2 ∷ []; keys = [] }

abbrev pub world : World Memory (List Message) ℕ
world = record { db = tables; broker = []; random = 7 }

abbrev pub audits : Service Memory (List Message)
audits = record { store = entropy_store memory; publisher = some recorder }

get_quantum_sample-Sampled_example :
    Sampled sources "LFD" 3
      (filter (is_unused_of "LFD") tables.rows)
      ((entropy_store memory).find_all_unused_by_source "LFD" tables).0
      (get_quantum_sample sources (entropy_store memory) "LFD" (pos 3) tables).0
get_quantum_sample-Sampled_example =
    get_quantum_sample-Sampled sources (entropy_store memory) rows_of laws "LFD" 3 tables

run_full_audit-Heard_example :
    let (r, w) = run_full_audit numbers sources audits (pos 3) world in
    Heard (λ a. a.sample_size) (pos 3) r [] w.broker × (w.db.rows ≡ tables.rows)
run_full_audit-Heard_example =
    run_full_audit-Heard numbers sources (entropy_store memory) recorder rows_of (λ sent. sent) laws
      recorder-IsEventPublisher (pos 3) world

run_suites-same_example :
    run_suites numbers sources audits orders "nist" (pos 3) (pos 0) world
    ≡ run_suites numbers sources audits reversed "nist" (pos 3) (pos 0) world
run_suites-same_example =
    run_suites-same numbers sources audits orders reversed "nist" (pos 3) (pos 0) world
      (λ i. in_order-Fair) (λ i. backwards-Fair)

abbrev sample : Bytes
sample = 3 ∷ 255 ∷ 3 ∷ []

sample-Small : All (λ b. b < 256) sample
sample-Small = omega arith

-- A digest of two bytes, so that a keystream takes several rounds.
abbrev entropy : Entropy ℕ
entropy = record {
  sum256 = λ bytes. length bytes ∷ 5 ∷ [];
  rand_read = λ n r. (ok (replicate n 9), r + 1);
}

entropy-IsEntropy : IsEntropy entropy
entropy-IsEntropy = record { block = λ bytes. omega arith }

mix_with_system_entropy-Mixed_example :
    let (read, r') = entropy.rand_read 32 0 in
    let (mixed, r'') = mix_with_system_entropy entropy sample 0 in
    Mixed entropy entropy-IsEntropy sample read mixed × (r'' ≡ r')
mix_with_system_entropy-Mixed_example =
    mix_with_system_entropy-Mixed entropy entropy-IsEntropy sample 0 sample-Small

abbrev reply : Response
reply = record { status_code = 200; body = "{}"; qrn = ok "03ff03" }

abbrev api : Api ℕ
api = record {
  get = λ url n. (ok reply, n + 1);
  hex_decode = λ text. ok sample;
  encode = λ bytes. "A/8D";
  decimal = λ n. "3";
  entropy = entropy;
}

abbrev reader : XorReader
reader = record { seed = 9 ∷ 8 ∷ []; offset = 1 }
