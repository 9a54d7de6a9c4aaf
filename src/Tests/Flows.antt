-- ===== src/Tests/Flows.antt =====
-- Calls under permits.
use quantum_entropy_service.Common.{refl, arith}
use quantum_entropy_service.Quantum.Permits.{
  Calls, Steps, ◌then◌, done, arrives, enters, leaves, no_calls, Bounded, Steps-Bounded,
}

abbrev two_calls : Calls
two_calls = record { waiting = 1; inside = 0; finished = 1; held = 0 }

abbrev session : Steps no_calls two_calls
unfolding no_calls
session = arrives then arrives then enters 1 refl (omega arith) then leaves 0 0 refl refl then done

Steps-Bounded_example : Bounded 2 two_calls
unfolding session
Steps-Bounded_example = Steps-Bounded session
