-- ===== src/Tests/Api.antt =====
-- The world of the key service with these keys and no entropy.
use quantum_entropy_service.Common.{ℕ, Bool, List, [], none}
use quantum_entropy_service.Messaging.Events.{Message}
use quantum_entropy_service.Keymanager.Model.{RsaKey}
use quantum_entropy_service.Keymanager.Repository.Memory.{Memory}
use quantum_entropy_service.Keymanager.Service.{World}

abbrev pub world : List RsaKey → World Memory (List Message) ℕ Bool
world keys = record {
  db = record { rows = []; keys = keys };
  broker = [];
  random = 0;
  collector = Bool.false;
  derived = none;
}
